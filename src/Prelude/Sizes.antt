-- ===== src/Prelude/Sizes.antt =====
-- How the functions on texts change the number of characters.
use Prim.Native.Nat.{ℕ, suc, ◌+◌, ◌≤◌}
use Prim.Native.Char.{Char}
use Prim.Native.String.{String, ◌++◌ as append}
use mathlib.Core.Path.{◌≡◌}
use mathlib.Core.Logic.{inl, inr}
use picoclaw.Prelude.Tests.{Bool-cases}
use mathlib.Core.Bool.{Bool}
use mathlib.Core.List.{List, [], ◌∷◌}
use native.Mathlib.Omega.{arith}
use text.Mathlib.TextLemmas.{cons-append, nil-append}
use picoclaw.Prelude.Text.{is_space, trim_left, trim_end, trim_right, trim_space}
use picoclaw.Prelude.Strings.{text_size, onto_first, split_at, nonempty, fields, join}

size-trim_left : (s : String) → text_size (trim_left s) ≤ text_size s
unfolding trim_left
size-trim_left String.[] = omega arith
size-trim_left (String.◌∷◌ c s) = ground (arith, size-trim_left s)

size-trim_end : (c : Char) (s : String) → text_size (trim_end c s) ≤ suc (text_size s)
unfolding trim_end
size-trim_end c String.[] = elim (Bool-cases (is_space c)) [
  | inl e ↦ rw e (omega arith)
  | inr e ↦ rw e (omega arith)
]
size-trim_end c (String.◌∷◌ d s) = omega arith

size-trim_right : (s : String) → text_size (trim_right s) ≤ text_size s
unfolding trim_right
size-trim_right String.[] = omega arith
size-trim_right (String.◌∷◌ c s) = omega (arith, size-trim_end c (trim_right s), size-trim_right s)

pub size-trim_space : (s : String) → text_size (trim_space s) ≤ text_size s
unfolding trim_space
size-trim_space s = omega (arith, size-trim_right (trim_left s), size-trim_left s)

-- Each text counts one for the white space after it.
abbrev pub weight : List String → ℕ
weight [] = 0
weight (s ∷ ss) = suc (text_size s + weight ss)

weight-onto_first : (c : Char) (ss : List String) → weight (onto_first c ss) ≤ suc (suc (weight ss))
unfolding onto_first
weight-onto_first c [] = omega arith
weight-onto_first c (s ∷ ss) = omega arith

weight-split_at : (p : Char → Bool) (s : String) → weight (split_at p s) ≤ suc (text_size s)
unfolding split_at
weight-split_at p String.[] = omega arith
weight-split_at p (String.◌∷◌ c s) =
    ground (arith, weight-split_at p s, weight-onto_first c (split_at p s))

weight-nonempty : (ss : List String) → weight (nonempty ss) ≤ weight ss
unfolding nonempty
weight-nonempty [] = omega arith
weight-nonempty (s ∷ ss) = ground (arith, weight-nonempty ss)

pub weight-fields : (s : String) → weight (fields s) ≤ suc (text_size s)
unfolding fields
weight-fields s = omega (arith, weight-nonempty (split_at is_space s), weight-split_at is_space s)

size-append : (a b : String) → text_size (append a b) ≡ text_size a + text_size b
size-append String.[] b = rw (nil-append b) (omega arith)
size-append (String.◌∷◌ c a) b = rw (cons-append c a b) (omega (arith, size-append a b))

-- With one space between the texts.
pub size-join :
    (s : String) (ss : List String) → suc (text_size (join " " (s ∷ ss))) ≤ weight (s ∷ ss)
unfolding join
size-join s [] = omega arith
size-join s (t ∷ ss) = omega (
  arith,
  size-append s (append " " (join " " (t ∷ ss))),
  size-append " " (join " " (t ∷ ss)),
  size-join t ss,
)
