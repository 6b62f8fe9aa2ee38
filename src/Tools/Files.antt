-- ===== src/Tools/Files.antt =====
-- The tools on files: pkg/tools/filesystem.go and edit.go. The file system and the package path/filepath
-- are a `FileHost`, whose operations may fail with the text of an error.
use picoclaw.Prelude.{
  ℕ, zero, suc, ◌+◌, ◌-◌, String, ◌≡◌, refl, ◌⊎◌, inl, inr, Bool, not, ◌&&◌, Option, none, some,
  List, [], ◌∷◌, str_eq, ltb, if◌then◌else◌,
}
use package.text.Mathlib.Text.{starts_with, find?}
use Prim.Native.String.{count, len, ◌++◌ as append}
use picoclaw.Prelude.Int.{pos}
use picoclaw.Prelude.Text.{concat, itoa}
use picoclaw.Prelude.Strings.{contains, front, back}
use picoclaw.Llm.{Fields}
use picoclaw.Tools.{ToolResult, new_tool_result, silent_result, error_result}
use picoclaw.Tools.MessageTool.{string_arg}

-- An entry of a directory and whether it is a directory itself.
pub record DirEntry : Type 0 where
  pub name : String
  pub is_dir : Bool

pub record FileHost (W : Type 0) : Type 0 where
  pub is_abs : String → Bool
  pub abs : String → String ⊎ String
  pub clean : String → String
  pub join : String → String → String
  pub dir : String → String
  pub is_missing : String → W → Bool
  pub read_file : String → W → String ⊎ String
  pub read_dir : String → W → String ⊎ List DirEntry
  pub mkdir_all : String → W → W × Option String
  pub write_file : String → String → W → W × Option String
  pub open_append : String → W → W × Option String
  pub write_string : String → String → W → W × Option String

-- The workspace of a tool and whether the tool is restricted to it.
pub record FileTool : Type 0 where
  pub workspace : String
  pub restrict : Bool

unfoldable pub failure : String → String → ToolResult
failure what e = error_result (concat (what ∷ e ∷ []))

-- strings.Count of a text that is not empty; `skip` counts the characters of a match still to pass.
occurrences_from : String → ℕ → String → ℕ
occurrences_from t skip String.[] = 0
occurrences_from t (suc skip) (String.◌∷◌ c s) = occurrences_from t skip s
occurrences_from t zero (String.◌∷◌ c s) =
    let hit = starts_with (String.◌∷◌ c s) t in
    let rest = occurrences_from t (if hit then count t - 1 else 0) s in
    if hit then suc rest else rest

-- strings.Count
unfoldable pub occurrences : String → String → ℕ
unfolding occurrences_from
occurrences s t = if str_eq t "" then suc (count s) else occurrences_from t 0 s

replaced_at : String → String → String → Option ℕ → String
replaced_at s old new none = s
replaced_at s old new (some i) = append (front i s) (append new (back (i + len old) s))

-- strings.Replace(s, old, new, 1)
unfoldable pub replace_first : String → String → String → String
unfolding replaced_at
replace_first s old new = replaced_at s old new (find? s old)

unfoldable pub read_result : String ⊎ String → ToolResult
read_result (inl e) = failure "failed to read file: " e
read_result (inr content) = new_tool_result content

-- The end of an operation that changes the file system.
unfoldable pub ended : {W : Type 0} → String → String → W × Option String → W × ToolResult
ended what done (w, none) = (w, silent_result done)
ended what done (w, some e) = (w, failure what e)

unfoldable pub listing : List DirEntry → List String
listing [] = []
listing (e ∷ es) =
    concat ((if e.is_dir then "DIR:  " else "FILE: ") ∷ e.name ∷ "\n" ∷ []) ∷ listing es

unfoldable pub dir_result : String ⊎ List DirEntry → ToolResult
dir_result (inl e) = failure "failed to read directory: " e
dir_result (inr entries) = new_tool_result (concat (listing entries))

unfoldable pub dir_path : Option String → String
dir_path none = "."
dir_path (some path) = path

module _ {W : Type 0} (host : FileHost W) where
  unfoldable pub absolute : String → String → String ⊎ String
  absolute path root =
      if host.is_abs path then inr (host.clean path) else host.abs (host.join root path)

  unfoldable pub within_root : Bool → String → String ⊎ String → String ⊎ String
  within_root restrict root (inl e) = inl (concat ("failed to resolve file path: " ∷ e ∷ []))
  within_root restrict root (inr path) =
      if restrict && not (starts_with path root)
      then inl "access denied: path is outside the workspace"
      else inr path

  unfoldable pub from_root : String → Bool → String ⊎ String → String ⊎ String
  unfolding absolute within_root
  from_root path restrict (inl e) = inl (concat ("failed to resolve workspace path: " ∷ e ∷ []))
  from_root path restrict (inr root) = within_root restrict root (absolute path root)

  unfoldable pub validate_path : String → FileTool → String ⊎ String
  unfolding from_root
  validate_path path t =
      if str_eq t.workspace "" then inr path else from_root path t.restrict (host.abs t.workspace)

  unfoldable pub resumed : (String → W → W × ToolResult) → String ⊎ String → W → W × ToolResult
  resumed go (inl e) w = (w, error_result e)
  resumed go (inr resolved) w = go resolved w

  -- Goes on at the resolved path, or answers the error of validatePath.
  unfoldable pub at_path : FileTool → String → (String → W → W × ToolResult) → W → W × ToolResult
  unfolding resumed
  at_path t path go w = resumed go (validate_path path t) w

  unfoldable pub read_at : FileTool → Option String → W → W × ToolResult
  read_at t none w = (w, error_result "path is required")
  read_at t (some path) w = at_path t path (λ p v. (v, read_result (host.read_file p v))) w

  unfoldable pub read_file : FileTool → Fields → W → W × ToolResult
  unfolding read_at at_path read_result failure
  read_file t args w = read_at t (string_arg "path" args) w

  unfoldable pub write_in : String → String → String → W × Option String → W × ToolResult
  write_in path resolved content (w, some e) = (w, failure "failed to create directory: " e)
  write_in path resolved content (w, none) =
      ended "failed to write file: " (concat ("File written: " ∷ path ∷ []))
        (host.write_file resolved content w)

  unfoldable pub write_at : FileTool → Option String → Option String → W → W × ToolResult
  write_at t none content w = (w, error_result "path is required")
  write_at t (some path) none w = (w, error_result "content is required")
  write_at t (some path) (some content) w =
      at_path t path (λ p v. write_in path p content (host.mkdir_all (host.dir p) v)) w

  unfoldable pub write_file : FileTool → Fields → W → W × ToolResult
  unfolding write_at write_in ended at_path failure
  write_file t args w = write_at t (string_arg "path" args) (string_arg "content" args) w

  unfoldable pub list_dir : FileTool → Fields → W → W × ToolResult
  unfolding at_path dir_result listing dir_path failure
  list_dir t args w =
      at_path t (dir_path (string_arg "path" args)) (λ p v. (v, dir_result (host.read_dir p v))) w

  unfoldable pub append_in : String → String → String → W × Option String → W × ToolResult
  append_in path resolved content (w, some e) = (w, failure "failed to open file: " e)
  append_in path resolved content (w, none) =
      ended "failed to append to file: " (concat ("Appended to " ∷ path ∷ []))
        (host.write_string resolved content w)

  unfoldable pub append_at : FileTool → Option String → Option String → W → W × ToolResult
  append_at t none content w = (w, error_result "path is required")
  append_at t (some path) none w = (w, error_result "content is required")
  append_at t (some path) (some content) w =
      at_path t path (λ p v. append_in path p content (host.open_append p v)) w

  unfoldable pub append_file : FileTool → Fields → W → W × ToolResult
  unfolding append_at append_in ended at_path failure
  append_file t args w = append_at t (string_arg "path" args) (string_arg "content" args) w

  unfoldable pub edit_content :
      String → String → String → String → String ⊎ String → W → W × ToolResult
  edit_content path resolved old new (inl e) w = (w, failure "failed to read file: " e)
  edit_content path resolved old new (inr content) w =
      if not (contains content old)
      then (w, error_result "old_text not found in file. Make sure it matches exactly")
      else if ltb 1 (occurrences content old)
      then (
        w,
        error_result (
            concat (
              "old_text appears "
              ∷ itoa (pos (occurrences content old))
              ∷ " times. Please provide more context to make it unique"
              ∷ [])),
      )
      else ended "failed to write file: " (concat ("File edited: " ∷ path ∷ []))
          (host.write_file resolved (replace_first content old new) w)

  unfoldable pub edit_in : String → String → String → String → W → W × ToolResult
  edit_in path old new resolved w =
      if host.is_missing resolved w
      then (w, error_result (concat ("file not found: " ∷ path ∷ [])))
      else edit_content path resolved old new (host.read_file resolved w) w

  unfoldable pub edit_at :
      FileTool → Option String → Option String → Option String → W → W × ToolResult
  edit_at t none old new w = (w, error_result "path is required")
  edit_at t (some path) none new w = (w, error_result "old_text is required")
  edit_at t (some path) (some old) none w = (w, error_result "new_text is required")
  edit_at t (some path) (some old) (some new) w = at_path t path (edit_in path old new) w

  unfoldable pub edit_file : FileTool → Fields → W → W × ToolResult
  unfolding edit_at edit_in edit_content ended at_path failure
  edit_file t args w =
      edit_at t (string_arg "path" args) (string_arg "old_text" args) (string_arg "new_text" args) w

text_test :
    (occurrences "a-aa-a" "a" ≡ 4)
    × (occurrences "aaaa" "aa" ≡ 2)
    × (occurrences "" "" ≡ 1)
    × (replace_first "one two two" "two" "2" ≡ "one 2 two")
unfolding occurrences replace_first
text_test = (refl, refl, refl, refl)
