-- ===== src/Prelude/Strings.antt =====
-- More functions of Go's `strings` package. An index or a length counts bytes of UTF-8, as in Go; white
-- space and letter case are those of ASCII.
use Prim.Native.Nat.{ℕ, suc, ◌-◌}
use Prim.Native.Char.{Char, code}
use Prim.Native.String.{String, ◌++◌ as append, slice, len}
use mathlib.Core.Path.{◌≡◌, refl}
use mathlib.Core.Bool.{Bool, true, false, ◌&&◌}
use native.Mathlib.Omega.{arith}
use mathlib.Core.Option.{Option, none, some}
use mathlib.Core.List.{List, [], ◌∷◌}
use text.Mathlib.TextLemmas.{nil-append, cons-append}
use text.Mathlib.Text.{find?, char_at?}
use picoclaw.Prelude.Tests.{leb, ◌==◌, if◌then◌else◌, is_some}
use picoclaw.Prelude.Text.{is_space, is_empty}

-- strings.Contains
abbrev pub contains : String → String → Bool
contains s t = is_some (find? s t)

-- A character or the lower-case letter that stands at its place.
lowered : Char → Option Char → Char
lowered c none = c
lowered c (some d) = d

lower_char : Char → Char
unfolding lowered
lower_char c =
    if leb b'A' (code c) && leb (code c) b'Z'
    then lowered c (char_at? "abcdefghijklmnopqrstuvwxyz" (code c - b'A'))
    else c

-- strings.ToLower
unfoldable pub to_lower : String → String
unfolding lower_char
to_lower String.[] = String.[]
to_lower (String.◌∷◌ c s) = String.◌∷◌ (lower_char c) (to_lower s)

-- Puts a character before the first of the texts.
unfoldable pub onto_first : Char → List String → List String
onto_first c [] = String.◌∷◌ c String.[] ∷ []
onto_first c (s ∷ ss) = String.◌∷◌ c s ∷ ss

-- strings.Split at one character
unfoldable pub split_at : (Char → Bool) → String → List String
unfolding onto_first
split_at sep String.[] = String.[] ∷ []
split_at sep (String.◌∷◌ c s) =
    let rest = split_at sep s in if sep c then String.[] ∷ rest else onto_first c rest

unfoldable pub nonempty : List String → List String
nonempty [] = []
nonempty (s ∷ ss) = let rest = nonempty ss in if is_empty s then rest else s ∷ rest

-- strings.Split(s, "\n")
unfoldable pub lines_of : String → List String
unfolding split_at
lines_of s = split_at (λ c. code c == 10) s

-- strings.Fields
unfoldable pub fields : String → List String
unfolding nonempty split_at
fields s = nonempty (split_at is_space s)

-- strings.Join
unfoldable pub join : String → List String → String
join sep [] = ""
join sep (s ∷ []) = s
join sep (s ∷ t ∷ ss) = append s (append sep (join sep (t ∷ ss)))

unfoldable pub trim_left_of : (Char → Bool) → String → String
trim_left_of p String.[] = String.[]
trim_left_of p (String.◌∷◌ c s) =
    let rest = trim_left_of p s in if p c then rest else String.◌∷◌ c s

trim_end_of : (Char → Bool) → Char → String → String
trim_end_of p c String.[] = if p c then String.[] else String.◌∷◌ c String.[]
trim_end_of p c (String.◌∷◌ d s) = String.◌∷◌ c (String.◌∷◌ d s)

unfoldable pub trim_right_of : (Char → Bool) → String → String
unfolding trim_end_of
trim_right_of p String.[] = String.[]
trim_right_of p (String.◌∷◌ c s) = trim_end_of p c (trim_right_of p s)

-- strings.Trim
unfoldable pub trim_of : (Char → Bool) → String → String
unfolding trim_left_of trim_right_of
trim_of p s = trim_right_of p (trim_left_of p s)

-- The bytes s[:n] and s[n:].
abbrev pub front : ℕ → String → String
front n s = slice s 0 n

abbrev pub back : ℕ → String → String
back n s = slice s n (len s)

cut_by : String → Option ℕ → String
cut_by s none = s
cut_by s (some i) = front i s

-- The text before the first `t`, or the whole text.
unfoldable pub before_first : String → String → String
unfolding cut_by
before_first s t = cut_by s (find? s t)

held_back : Char → Option (String × String) → Option (String × String)
held_back c none = none
held_back c (some (before, after)) = some (String.◌∷◌ c before, after)

-- The parts before and after the first character with a code, as SplitN(s, sep, 2) makes them.
unfoldable pub cut_first : ℕ → String → Option (String × String)
unfolding held_back
cut_first sep String.[] = none
cut_first sep (String.◌∷◌ c s) =
    let later = held_back c (cut_first sep s) in
    if code c == sep then some (String.[], s) else later

-- No character has the code.
abbrev pub is_free_of : ℕ → String → Bool
is_free_of sep String.[] = true
is_free_of sep (String.◌∷◌ c s) =
    let rest = is_free_of sep s in if code c == sep then false else rest

pub cut_first-append :
    (c : Char) (a b : String)
    → is_free_of (code c) a ≡ true
    → cut_first (code c) (append a (String.◌∷◌ c b)) ≡ some (a, b)
unfolding cut_first
cut_first-append c String.[] b free = rw (nil-append (String.◌∷◌ c b)) (ground arith)
cut_first-append c (String.◌∷◌ d a) b free =
    rw (cons-append d a (String.◌∷◌ c b)) (ground (arith, cut_first-append c a b))

-- The number of characters.
abbrev pub text_size : String → ℕ
text_size String.[] = 0
text_size (String.◌∷◌ c s) = suc (text_size s)

strings_test :
    (to_lower "GPT-4o" ≡ "gpt-4o")
    × (fields "  git  log\tx " ≡ "git" ∷ "log" ∷ "x" ∷ [])
    × (lines_of "a\n\nb" ≡ "a" ∷ "" ∷ "b" ∷ [])
    × (join ", " ("a" ∷ "b" ∷ []) ≡ "a, b")
    × (trim_of (λ c. code c == b'-') "--a-b-" ≡ "a-b")
    × (before_first "ls && cat" " && " ≡ "ls")
    × (contains "claude-3" "aude" ≡ true)
unfolding to_lower fields lines_of join trim_of before_first
strings_test = (refl, refl, refl, refl, refl, refl, refl)
