-- ===== src/Prelude/Dict.antt =====
-- Go's `map[string]V` as an association list. No operation depends on the order of its entries, which
-- Go leaves open.
use Prim.Native.String.{String}
use mathlib.Core.Path.{◌≡◌, refl}
use mathlib.Core.Option.{Option, none, some}
use mathlib.Core.List.{List, [], ◌∷◌}
use native.Mathlib.Omega.{arith}
use text.Mathlib.Text.{◌==◌}
use text.Mathlib.TextEquality.{eq_iff}
use picoclaw.Prelude.Tests.{if◌then◌else◌}

abbrev pub Dict {ℓ} : Type ℓ → Type ℓ
Dict V = List (String × V)

module _ {ℓ} {V : Type ℓ} where
  -- v, ok := m[key]
  unfoldable pub get : Dict V → String → Option V
  get [] key = none
  get (entry ∷ m) key = let later = get m key in if key == entry.0 then some entry.1 else later

  -- m[key] = v
  unfoldable pub put : Dict V → String → V → Dict V
  put [] key v = (key, v) ∷ []
  put (entry ∷ m) key v =
      let later = entry ∷ put m key v in if key == entry.0 then (key, v) ∷ m else later

  pub get-put :
      (m : Dict V) (key other : String) (v : V)
      → get (put m key v) other ≡ (if other == key then some v else get m other)
  unfolding get put
  get-put [] key other v = refl
  get-put (entry ∷ m) key other v =
      ground
        (arith, get-put m key other v, eq_iff other entry.0, eq_iff key entry.0, eq_iff other key)

  -- delete(m, key)
  unfoldable pub delete : Dict V → String → Dict V
  delete [] key = []
  delete (entry ∷ m) key =
      let others = delete m key in if key == entry.0 then others else entry ∷ others

  pub get-delete :
      (m : Dict V) (key other : String)
      → get (delete m key) other ≡ (if other == key then none else get m other)
  unfolding get delete
  get-delete [] key other = ground arith
  get-delete (entry ∷ m) key other =
      ground
        (arith, get-delete m key other, eq_iff other entry.0, eq_iff key entry.0, eq_iff other key)
