-- ===== src/Usage/Examples.antt =====
-- The theorems about usage records at concrete records.
use picoclaw.Prelude.{String, ◌≡◌, true, none, some, List, [], ◌∷◌, keep, arith}
use picoclaw.Prelude.Int.{ℤ, pos}
use picoclaw.Prelude.Dict.{get}
use picoclaw.Usage.{Record, Store, or_no_calls, aggregate_records, provider_breakdown}
use picoclaw.Usage.Sums.{totals, goes_by, provider_breakdown-totals}

abbrev call : String → ℤ → Record
call key tokens = record {
  timestamp = some (pos 5);
  day_key = "2026-02-01";
  session_key = key;
  provider = "openai";
  model = "gpt";
  prompt_tokens = tokens;
  completion_tokens = pos 2;
  total_tokens = pos 0;
  usage_known = true;
  reason = "";
}

abbrev three : List Record
three = call "cli" (pos 10) ∷ call "web" (pos 20) ∷ call "cli" (pos 30) ∷ []

abbrev store : Store
store = record { records = three; path = "/w/usage.json"; file = none }

provider_breakdown-totals_example :
    (aggregate_records three ≡ totals three)
    × (or_no_calls (get (provider_breakdown three) "openai")
        ≡ totals (keep (goes_by "openai") three))
provider_breakdown-totals_example = provider_breakdown-totals three "openai" (omega arith)
