-- ===== src/Failover/Hints.antt =====
-- nextProbeFromRateLimitHints of pkg/failover/manager.go: when the provider's headers allow a new try.
use picoclaw.Prelude.{String, Bool, Option, none, some, List, [], ◌∷◌, str_eq, if◌then◌else◌}
use picoclaw.Prelude.Int.{ℤ, pos, wrap64, ◌+ℤ◌, ◌*ℤ◌, ltb_ℤ}
use picoclaw.Prelude.Text.{trim_space, atoi, lower, codes_eq}
use picoclaw.State.{Time, zero_time}
use picoclaw.Failover.{Env, LlmError, rate_limited, other_error, RateLimitError}

-- time.Unix(secs, 0): the epoch begins 62135596800 seconds after the zero time.
unfoldable pub unix : ℤ → Time
unix secs = wrap64 (secs +ℤ pos 62135596800) *ℤ pos 1000000000

unfoldable pub equal_fold : String → String → Bool
equal_fold s t = codes_eq (lower s) (lower t)

-- A number of seconds is relative in a text that reads like RetryAfter, and else a Unix time.
seconds_candidate : Env → RateLimitError → String → ℤ → Time
seconds_candidate env rl raw secs =
    if equal_fold raw rl.retry_after then env.now +ℤ wrap64 (secs *ℤ pos 1000000000) else unix secs

candidate_of : Env → RateLimitError → String → Option ℤ → Option Time
unfolding seconds_candidate
candidate_of env rl raw (some secs) = some (seconds_candidate env rl raw secs)
candidate_of env rl raw none = env.parse_date raw

unfoldable pub candidate : Env → RateLimitError → String → Option Time
unfolding candidate_of
candidate env rl text =
    let raw = trim_space text in if str_eq raw "" then none else candidate_of env rl raw (atoi raw)

abbrev pub push : Option Time → List Time → List Time
push none ts = ts
push (some t) ts = t ∷ ts

unfoldable pub candidates : Env → RateLimitError → List Time
candidates env rl = push (candidate env rl rl.retry_after) (
    push (candidate env rl rl.rate_limit_requests_reset)
      (push (candidate env rl rl.rate_limit_tokens_reset) []))

-- sort.Slice by Before, as an insertion sort: equal instants are one value.
unfoldable pub sort_in : Time → List Time → List Time
sort_in t [] = t ∷ []
sort_in t (u ∷ ts) = let later = u ∷ sort_in t ts in if ltb_ℤ u t then later else t ∷ u ∷ ts

unfoldable pub sort : List Time → List Time
unfolding sort_in
sort [] = []
sort (t ∷ ts) = sort_in t (sort ts)

unfoldable pub last_or : Time → List Time → Time
last_or d [] = d
last_or d (t ∷ ts) = last_or t ts

unfoldable pub next_probe_from_rate_limit_hints : Env → RateLimitError → Time
unfolding sort last_or
next_probe_from_rate_limit_hints env rl = last_or zero_time (sort (candidates env rl))

-- The later of a time and the hint of an error that is a rate limit.
unfoldable pub extend_by_hint : Env → Option LlmError → Time → Time
extend_by_hint env (some (rate_limited rl)) t =
    let hinted = next_probe_from_rate_limit_hints env rl in if ltb_ℤ t hinted then hinted else t
extend_by_hint env (some (other_error s)) t = t
extend_by_hint env none t = t
