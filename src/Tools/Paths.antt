-- ===== src/Tools/Paths.antt =====
-- What the restriction to a workspace means for a path: validatePath of pkg/tools/filesystem.go.
use picoclaw.Prelude.{
  String, ◌≡◌, refl, sym, ap, ◌∙◌, ◌⊎◌, inl, inr, Bool, true, false, arith, str_eq, Bool-cases,
}
use package.text.Mathlib.Text.{starts_with}
use text.Mathlib.TextPositions.{starts_with-append}
use Prim.Native.String.{◌++◌ as append}
use picoclaw.Tools.Files.{FileHost, FileTool, absolute, within_root, from_root, validate_path}

inr_inj : {A B : Type 0} {x y : B} → ◌≡◌ {A = A ⊎ B} (inr x) (inr y) → x ≡ y
inr_inj h = cc

module _ {W : Type 0} (host : FileHost W) where
  within_root_inside :
      (root p : String) (path : String ⊎ String)
      → within_root host true root path ≡ inr p
      → starts_with p root ≡ true
  unfolding within_root
  within_root_inside root p (inl e) h = absurd (cc)
  within_root_inside root p (inr path) h = elim (Bool-cases (starts_with path root)) [
    | inl inside ↦
        let accepted : within_root host true root (inr path) ≡ inr path = rw inside refl in
        ap (λ x. starts_with x root) (sym (inr_inj (sym accepted ∙ h))) ∙ inside
    | inr outside ↦
        let refused : within_root host true root (inr path)
            ≡ inl "access denied: path is outside the workspace" =
          rw outside refl in
        absurd (cc)
  ]

  rooted :
      (t : FileTool) (root path : String)
      → t.restrict ≡ true
      → str_eq t.workspace "" ≡ false
      → host.abs t.workspace ≡ inr root
      → validate_path host path t ≡ within_root host true root (absolute host path root)
  unfolding validate_path from_root
  rooted t root path restricted set resolved = rw (set, resolved, restricted) refl

  -- What validatePath accepts for a restricted tool begins with the text of the workspace's path.
  pub validate_path_inside :
      (t : FileTool) (root path p : String)
      → t.restrict ≡ true
      → str_eq t.workspace "" ≡ false
      → host.abs t.workspace ≡ inr root
      → validate_path host path t ≡ inr p
      → starts_with p root ≡ true
  validate_path_inside t root path p restricted set resolved h =
      within_root_inside root p (absolute host path root)
        (sym (rooted t root path restricted set resolved) ∙ h)

  beside :
      (restrict : Bool) (root rest : String)
      → host.is_abs (append root rest) ≡ true
      → host.clean (append root rest) ≡ append root rest
      → within_root host restrict root (absolute host (append root rest) root)
        ≡ inr (append root rest)
  unfolding absolute within_root
  beside restrict root rest is_absolute clean =
      simp (is_absolute, clean, starts_with-append root rest) (ground arith)

  -- The restriction compares texts, not paths: a directory beside the workspace whose name begins with
  -- the name of the workspace is open to a restricted tool.
  pub validate_path_sibling :
      (t : FileTool) (root rest : String)
      → host.abs t.workspace ≡ inr root
      → str_eq t.workspace "" ≡ false
      → host.is_abs (append root rest) ≡ true
      → host.clean (append root rest) ≡ append root rest
      → validate_path host (append root rest) t ≡ inr (append root rest)
  unfolding validate_path from_root
  validate_path_sibling t root rest resolved set is_absolute clean =
      rw (set, resolved) (beside t.restrict root rest is_absolute clean)
