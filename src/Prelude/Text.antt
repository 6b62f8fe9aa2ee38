-- ===== src/Prelude/Text.antt =====
-- The functions of Go's `strings` package that the program calls, over the native `String`: white space
-- and case are those of ASCII.
use Prim.Native.Nat.{ℕ, zero, suc, ◌+◌, ◌-◌, ◌*◌, ◌/◌, ◌%◌}
use Prim.Native.Char.{Char, code}
use Prim.Native.String.{String, ◌++◌ as append}
use mathlib.Core.Path.{◌≡◌, refl}
use mathlib.Core.Bool.{Bool, true, false, ◌&&◌, ◌||◌}
use mathlib.Core.Option.{Option, none, some}
use mathlib.Core.List.{List, [], ◌∷◌, map}
use text.Mathlib.Text.{◌==◌ as equal_text}
use picoclaw.Prelude.Int.{ℤ, pos, negsuc}
use picoclaw.Prelude.Tests.{leb, ◌==◌, if◌then◌else◌}

-- Tab, line feed, vertical tab, form feed, carriage return and space.
abbrev pub is_space : Char → Bool
is_space c = code c == 32 || leb 9 (code c) && leb (code c) 13

unfoldable pub trim_left : String → String
trim_left String.[] = String.[]
trim_left (String.◌∷◌ c s) = let rest = trim_left s in if is_space c then rest else String.◌∷◌ c s

unfoldable pub trim_end : Char → String → String
trim_end c String.[] = if is_space c then String.[] else String.◌∷◌ c String.[]
trim_end c (String.◌∷◌ d s) = String.◌∷◌ c (String.◌∷◌ d s)

unfoldable pub trim_right : String → String
unfolding trim_end
trim_right String.[] = String.[]
trim_right (String.◌∷◌ c s) = trim_end c (trim_right s)

-- strings.TrimSpace
unfoldable pub trim_space : String → String
unfolding trim_left trim_right
trim_space s = trim_right (trim_left s)

-- The code points of a text.
abbrev pub codes : String → List ℕ
codes String.[] = []
codes (String.◌∷◌ c s) = code c ∷ codes s

lower_code : ℕ → ℕ
lower_code c = if leb b'A' c && leb c b'Z' then c + 32 else c

-- The code points of strings.ToLower.
unfoldable pub lower : String → List ℕ
unfolding lower_code
lower s = map lower_code (codes s)

unfoldable pub codes_eq : List ℕ → List ℕ → Bool
codes_eq [] [] = true
codes_eq (a ∷ as') (b ∷ bs) = let rest = codes_eq as' bs in if a == b then rest else false
codes_eq _ _ = false

-- strings.ToLower(s) == t
unfoldable pub lower_is : String → String → Bool
unfolding lower codes_eq
lower_is s t = codes_eq (lower s) (codes t)

digits_value : ℕ → List ℕ → Option ℕ
digits_value acc [] = some acc
digits_value acc (c ∷ cs) =
    let rest = digits_value (acc * 10 + (c - b'0')) cs in
    if leb b'0' c && leb c b'9' then rest else none

unsigned : List ℕ → Option ℕ
unfolding digits_value
unsigned [] = none
unsigned (c ∷ cs) = digits_value 0 (c ∷ cs)

in_range : ℕ → (ℕ → ℤ) → Option ℕ → Option ℤ
in_range limit sign none = none
in_range limit sign (some n) = if leb n limit then some (sign n) else none

abbrev negate : ℕ → ℤ
negate n = if n == 0 then pos 0 else negsuc (n - 1)

atoi_codes : List ℕ → Option ℤ
unfolding in_range unsigned
atoi_codes [] = none
atoi_codes (c ∷ cs) =
    if c == b'-'
    then in_range 9223372036854775808 negate (unsigned cs)
    else if c == b'+'
    then in_range 9223372036854775807 pos (unsigned cs)
    else in_range 9223372036854775807 pos (unsigned (c ∷ cs))

-- strconv.Atoi for 64-bit `int`; `none` is a syntax or range error.
unfoldable pub atoi : String → Option ℤ
unfolding atoi_codes
atoi s = atoi_codes (codes s)

digit : ℕ → Char
digit zero = "0"
digit (suc zero) = "1"
digit (suc (suc zero)) = "2"
digit (suc (suc (suc zero))) = "3"
digit (suc (suc (suc (suc zero)))) = "4"
digit (suc (suc (suc (suc (suc zero))))) = "5"
digit (suc (suc (suc (suc (suc (suc zero)))))) = "6"
digit (suc (suc (suc (suc (suc (suc (suc zero))))))) = "7"
digit (suc (suc (suc (suc (suc (suc (suc (suc zero)))))))) = "8"
digit _ = "9"

-- A 64-bit number has at most 20 digits.
itoa_digits : ℕ → ℕ → String → String
unfolding digit
itoa_digits zero n out = out
itoa_digits (suc f) n out =
    let longer = itoa_digits f (n / 10) (String.◌∷◌ (digit (n % 10)) out) in
    if leb n 9 then String.◌∷◌ (digit n) out else longer

-- strconv.Itoa and the verb %d.
unfoldable pub itoa : ℤ → String
unfolding itoa_digits
itoa (pos n) = itoa_digits 20 n ""
itoa (negsuc n) = String.◌∷◌ "-" (itoa_digits 20 (suc n) "")

-- The pieces that fmt.Sprintf puts together.
unfoldable pub concat : List String → String
concat [] = ""
concat (s ∷ ss) = append s (concat ss)

trim_test : trim_space "  a b \n" ≡ "a b"
unfolding trim_space
trim_test = refl

lower_test : lower_is "Switch Back" "switch back" ≡ true
unfolding lower_is
lower_test = refl

atoi_test :
    (atoi "-120" ≡ some (negsuc 119)) × (atoi "9223372036854775808" ≡ none) × (atoi "" ≡ none)
unfolding atoi
atoi_test = (refl, refl, refl)

concat_test : concat ("epoch " ∷ itoa (pos 1205) ∷ []) ≡ "epoch 1205"
unfolding concat itoa
concat_test = refl

-- strings.HasSuffix
unfoldable pub has_suffix : String → String → Bool
has_suffix String.[] t = equal_text String.[] t
has_suffix (String.◌∷◌ c s) t =
    let rest = has_suffix s t in if equal_text (String.◌∷◌ c s) t then true else rest

-- strings.ContainsAny, of two characters given by their codes
unfoldable pub contains_either : ℕ → ℕ → String → Bool
contains_either a b String.[] = false
contains_either a b (String.◌∷◌ c s) =
    let rest = contains_either a b s in if code c == a || code c == b then true else rest

abbrev pub is_empty : String → Bool
is_empty String.[] = true
is_empty (String.◌∷◌ c s) = false
