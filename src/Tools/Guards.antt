-- ===== src/Tools/Guards.antt =====
-- What the restriction to a workspace means for the tools of pkg/tools/filesystem.go and edit.go.
use picoclaw.Prelude.{
  String, ◌≡◌, refl, ap, ◌∙◌, ◌⊎◌, inl, inr, true, false, Option, none, some, [], ◌∷◌, str_eq,
  if◌then◌else◌,
}
use package.text.Mathlib.Text.{starts_with}
use picoclaw.Prelude.Text.{concat}
use picoclaw.Llm.{Fields}
use picoclaw.Tools.{ToolResult, error_result}
use picoclaw.Tools.MessageTool.{string_arg}
use picoclaw.Tools.Files.{
  replace_first, FileHost, FileTool, absolute, within_root, from_root, read_result, dir_result,
  dir_path, validate_path, resumed, at_path, read_at, read_file, write_in, write_at, write_file,
  list_dir, append_in, append_at, append_file, edit_content, edit_in, edit_at, edit_file, ended,
}
use picoclaw.Tools.Paths.{validate_path_inside}

-- The file system of `other` under the paths of `host`.
abbrev pub with_files : {W : Type 0} → FileHost W → FileHost W → FileHost W
with_files host other = record other {
  is_abs = host.is_abs;
  abs = host.abs;
  clean = host.clean;
  join = host.join;
  dir = host.dir;
}

-- Both do the same with each path that begins with the text of the root.
abbrev pub AgreeUnder : {W : Type 0} → String → FileHost W → FileHost W → Type 0
AgreeUnder {W = W} root host other =
    (p : String)
    → starts_with p root ≡ true
    → ((w : W) → other.is_missing p w ≡ host.is_missing p w)
      × ((w : W) → other.read_file p w ≡ host.read_file p w)
      × ((w : W) → other.read_dir p w ≡ host.read_dir p w)
      × ((w : W) → other.mkdir_all (host.dir p) w ≡ host.mkdir_all (host.dir p) w)
      × ((text : String) (w : W) → other.write_file p text w ≡ host.write_file p text w)
      × ((w : W) → other.open_append p w ≡ host.open_append p w)
      × ((text : String) (w : W) → other.write_string p text w ≡ host.write_string p text w)

module _ {W : Type 0} (host other : FileHost W) (t : FileTool) where
  resumed-agree :
      (go go' : String → W → W × ToolResult) (w : W) (r : String ⊎ String)
      → ((p : String) → r ≡ inr p → go' p w ≡ go p w)
      → resumed (with_files host other) go' r w ≡ resumed host go r w
  unfolding resumed
  resumed-agree go go' w (inl e) agree = refl
  resumed-agree go go' w (inr p) agree = agree p refl

  at_path-agree :
      (path : String) (go go' : String → W → W × ToolResult) (w : W)
      → ((p : String) → validate_path host path t ≡ inr p → go' p w ≡ go p w)
      → at_path (with_files host other) t path go' w ≡ at_path host t path go w
  unfolding at_path validate_path from_root absolute within_root
  at_path-agree path go go' w agree = resumed-agree go go' w (validate_path host path t) agree

module _ {W : Type 0} (host other : FileHost W) (t : FileTool) (root : String)
    (restricted : t.restrict ≡ true) (set : str_eq t.workspace "" ≡ false)
    (resolved : host.abs t.workspace ≡ inr root) (agree : AgreeUnder root host other) where
  inside : (path p : String) → validate_path host path t ≡ inr p → starts_with p root ≡ true
  inside path p h = validate_path_inside host t root path p restricted set resolved h

  read_at-agree :
      (path : Option String) (w : W)
      → read_at (with_files host other) t path w ≡ read_at host t path w
  unfolding read_at
  read_at-agree none w = refl
  read_at-agree (some path) w =
      at_path-agree host other t path _ _ w
        (λ p ok. ap (λ r. (w, read_result r)) ((agree p (inside path p ok)).1 w))

  write_in-agree :
      (path p content : String) (r : W × Option String)
      → starts_with p root ≡ true
      → write_in (with_files host other) path p content r ≡ write_in host path p content r
  unfolding write_in ended
  write_in-agree path p content (w, some e) under = refl
  write_in-agree path p content (w, none) under =
      ap (ended "failed to write file: " (concat ("File written: " ∷ path ∷ [])))
        ((agree p under).4 content w)

  append_in-agree :
      (path p content : String) (r : W × Option String)
      → starts_with p root ≡ true
      → append_in (with_files host other) path p content r ≡ append_in host path p content r
  unfolding append_in ended
  append_in-agree path p content (w, some e) under = refl
  append_in-agree path p content (w, none) under =
      ap (ended "failed to append to file: " (concat ("Appended to " ∷ path ∷ [])))
        ((agree p under).6 content w)

  edit_content-agree :
      (path p old new : String) (r : String ⊎ String) (w : W)
      → starts_with p root ≡ true
      → edit_content (with_files host other) path p old new r w
        ≡ edit_content host path p old new r w
  unfolding edit_content ended
  edit_content-agree path p old new (inl e) w under = refl
  edit_content-agree path p old new (inr content) w under =
      rw ((agree p under).4 (replace_first content old new) w) refl

  edit_in-agree :
      (path old new p : String) (w : W)
      → starts_with p root ≡ true
      → edit_in (with_files host other) path old new p w ≡ edit_in host path old new p w
  unfolding edit_in
  edit_in-agree path old new p w under =
      rw ((agree p under).0 w, (agree p under).1 w)
        (ap
          (λ r.
            if host.is_missing p w
            then (w, error_result (concat ("file not found: " ∷ path ∷ [])))
            else r)
          (edit_content-agree path p old new (host.read_file p w) w under))

  write_at-agree :
      (path content : Option String) (w : W)
      → write_at (with_files host other) t path content w ≡ write_at host t path content w
  unfolding write_at
  write_at-agree none content w = refl
  write_at-agree (some path) none w = refl
  write_at-agree (some path) (some content) w = at_path-agree host other t path _ _ w (λ p ok.
      ap (write_in (with_files host other) path p content) ((agree p (inside path p ok)).3 w)
      ∙ write_in-agree path p content (host.mkdir_all (host.dir p) w) (inside path p ok))

  append_at-agree :
      (path content : Option String) (w : W)
      → append_at (with_files host other) t path content w ≡ append_at host t path content w
  unfolding append_at
  append_at-agree none content w = refl
  append_at-agree (some path) none w = refl
  append_at-agree (some path) (some content) w = at_path-agree host other t path _ _ w (λ p ok.
      ap (append_in (with_files host other) path p content) ((agree p (inside path p ok)).5 w)
      ∙ append_in-agree path p content (host.open_append p w) (inside path p ok))

  edit_at-agree :
      (path old new : Option String) (w : W)
      → edit_at (with_files host other) t path old new w ≡ edit_at host t path old new w
  unfolding edit_at
  edit_at-agree none old new w = refl
  edit_at-agree (some path) none new w = refl
  edit_at-agree (some path) (some old) none w = refl
  edit_at-agree (some path) (some old) (some new) w =
      at_path-agree host other t path _ _ w
        (λ p ok. edit_in-agree path old new p w (inside path p ok))

  -- A tool that is restricted to its workspace depends on nothing and changes nothing but files whose path
  -- begins with the text of the workspace's path (and the directories that hold them): in a world where
  -- the operations on all other paths are others, each of the five tools does the same.
  pub file_tools_confined :
      (args : Fields) (w : W)
      → (read_file (with_files host other) t args w ≡ read_file host t args w)
        × (write_file (with_files host other) t args w ≡ write_file host t args w)
        × (list_dir (with_files host other) t args w ≡ list_dir host t args w)
        × (append_file (with_files host other) t args w ≡ append_file host t args w)
        × (edit_file (with_files host other) t args w ≡ edit_file host t args w)
  unfolding read_file write_file list_dir append_file edit_file dir_result
  file_tools_confined args w = (
    read_at-agree (string_arg "path" args) w,
    write_at-agree (string_arg "path" args) (string_arg "content" args) w,
    at_path-agree host other t (dir_path (string_arg "path" args)) _ _ w
        (λ p ok. ap (λ r. (w, dir_result r)) ((agree p (inside _ p ok)).2 w)),
    append_at-agree (string_arg "path" args) (string_arg "content" args) w,
    edit_at-agree (string_arg "path" args) (string_arg "old_text" args) (string_arg "new_text" args)
        w,
  )
