-- ===== src/Utils.antt =====
-- pkg/utils/string.go and pkg/constants/channels.go.
use picoclaw.Prelude.{
  ℕ, zero, suc, ◌-◌, String, ◌≡◌, refl, Bool, ◌||◌, [], ◌∷◌, str_eq, leb, if◌then◌else◌,
}
use Prim.Native.String.{String, count}
use picoclaw.Prelude.Text.{concat}

-- The first n characters of a text: string(runes[:n]).
unfoldable pub first_runes : ℕ → String → String
first_runes zero s = String.[]
first_runes (suc n) String.[] = String.[]
first_runes (suc n) (String.◌∷◌ c s) = String.◌∷◌ c (first_runes n s)

unfoldable pub truncate : String → ℕ → String
unfolding first_runes
truncate s max_len =
    if leb (count s) max_len
    then s
    else if leb max_len 3
    then first_runes max_len s
    else concat (first_runes (max_len - 3) s ∷ "..." ∷ [])

unfoldable pub is_internal_channel : String → Bool
is_internal_channel channel =
    str_eq channel "cli" || str_eq channel "system" || str_eq channel "subagent"

truncate_test : (truncate "abcdef" 5 ≡ "ab...") × (truncate "abc" 5 ≡ "abc")
unfolding truncate concat
truncate_test = (refl, refl)
