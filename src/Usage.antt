-- ===== src/Usage.antt =====
-- pkg/usage/store.go: the records of the calls of the language models, their queries and sums.
pub mod Sums
pub mod Queries
mod Examples
use picoclaw.Prelude.{
  ◌+◌, ◌-◌, String, Bool, true, false, not, ◌&&◌, Option, none, some, List, [], ◌∷◌, ◌++◌, str_eq,
  if◌then◌else◌, is_some, length, drop, keep,
}
use picoclaw.Prelude.Int.{ℤ, pos, wrap64, ◌+ℤ◌, eqb_ℤ, inc64, ltb_ℤ, pos_part}
use picoclaw.Prelude.Dict.{Dict, get, put}
use picoclaw.Prelude.Text.{trim_space, lower, codes_eq}

-- A time is the milliseconds of its Unix time; `none` is the zero time.
pub record Record : Type 0 where
  pub timestamp : Option ℤ
  pub day_key : String
  pub session_key : String
  pub provider : String
  pub model : String
  pub prompt_tokens : ℤ
  pub completion_tokens : ℤ
  pub total_tokens : ℤ
  pub usage_known : Bool
  pub reason : String

pub record Filter : Type 0 where
  pub session_key : String
  pub day_key : String
  pub provider : String
  pub limit : ℤ

pub record Aggregate : Type 0 where
  pub calls : ℤ
  pub known_calls : ℤ
  pub unknown_calls : ℤ
  pub prompt_tokens : ℤ
  pub completion_tokens : ℤ
  pub total_tokens : ℤ

-- The file usage.json holds the JSON of a list of records, or bytes that do not decode.
pub data Content : Type 0 where
  encoded : List Record → Content
  torn : Content

pub data WriteOutcome : Type 0 where
  not_opened stopped_short written : WriteOutcome

-- `path` is empty for a store without a workspace.
pub record Store : Type 0 where
  pub records : List Record
  pub path : String
  pub file : Option Content

loaded : Option Content → List Record → List Record
loaded none records = records
loaded (some torn) records = records
loaded (some (encoded rs)) records = rs

unfoldable pub load : Store → Store
unfolding loaded
load s = if str_eq s.path "" then s else record s { records = loaded s.file s.records }

-- `path` is what filepath.Join makes of the workspace and "usage.json".
unfoldable pub new_store : String → String → Option Content → Store
new_store workspace path file =
    if str_eq workspace ""
    then record { records = []; path = ""; file = file }
    else load (record { records = []; path = path; file = file })

written_file : WriteOutcome → List Record → Option Content → Option Content
written_file not_opened rs f = f
written_file stopped_short rs f = some torn
written_file written rs f = some (encoded rs)

-- json.MarshalIndent does not fail on records.
unfoldable pub save : WriteOutcome → Store → Store
unfolding written_file
save io s = if str_eq s.path "" then s else record s { file = written_file io s.records s.file }

-- The record as Add stores it; `today` is TodayKey's answer.
unfoldable pub completed : String → ℤ → Record → Record
completed today now r = record r {
  day_key = if str_eq r.day_key "" then today else r.day_key;
  total_tokens =
      if eqb_ℤ r.total_tokens (pos 0)
      then wrap64 (r.prompt_tokens +ℤ r.completion_tokens)
      else r.total_tokens;
  timestamp = elim r.timestamp [ none ↦ some now | some t ↦ some t ];
}

unfoldable pub add : String → ℤ → WriteOutcome → Record → Store → Store
add today now io r s = save io (record s { records = s.records ++ completed today now r ∷ [] })

-- The loop of LastBySession, from the last record back.
unfoldable pub last_by_session : String → List Record → Option Record
last_by_session key [] = none
last_by_session key (r ∷ rs) =
    let later = last_by_session key rs in
    if is_some later then later else if str_eq r.session_key key then some r else none

unfoldable pub passes : Filter → Record → Bool
passes f r =
    if not (str_eq f.session_key "") && not (str_eq r.session_key f.session_key)
    then false
    else if not (str_eq f.day_key "") && not (str_eq r.day_key f.day_key)
    then false
    else if not (str_eq f.provider "") && not (codes_eq (lower r.provider) (lower f.provider))
    then false
    else true

-- The last `limit` of the records, when a limit is set.
unfoldable pub limited : ℤ → List Record → List Record
limited limit out =
    if ltb_ℤ (pos 0) limit && ltb_ℤ limit (pos (length out))
    then drop (length out - pos_part limit) out
    else out

unfoldable pub query : Filter → Store → List Record
query f s = limited f.limit (keep (passes f) s.records)

abbrev pub no_calls : Aggregate
no_calls = record {
  calls = pos 0;
  known_calls = pos 0;
  unknown_calls = pos 0;
  prompt_tokens = pos 0;
  completion_tokens = pos 0;
  total_tokens = pos 0;
}

-- The body of the loop of AggregateRecords.
unfoldable pub count : Record → Aggregate → Aggregate
count r agg =
    if r.usage_known
    then record {
      calls = inc64 agg.calls;
      known_calls = inc64 agg.known_calls;
      unknown_calls = agg.unknown_calls;
      prompt_tokens = wrap64 (agg.prompt_tokens +ℤ r.prompt_tokens);
      completion_tokens = wrap64 (agg.completion_tokens +ℤ r.completion_tokens);
      total_tokens = wrap64 (agg.total_tokens +ℤ r.total_tokens);
    }
    else record agg { calls = inc64 agg.calls; unknown_calls = inc64 agg.unknown_calls }

aggregate_from : Aggregate → List Record → Aggregate
aggregate_from agg [] = agg
aggregate_from agg (r ∷ rs) = aggregate_from (count r agg) rs

unfoldable pub aggregate_records : List Record → Aggregate
unfolding aggregate_from
aggregate_records rs = aggregate_from no_calls rs

abbrev pub named : String → String
named p = if str_eq p "" then "unknown" else p

unfoldable pub provider_of : Record → String
provider_of r = named (trim_space r.provider)

abbrev pub or_no_calls : Option Aggregate → Aggregate
or_no_calls none = no_calls
or_no_calls (some agg) = agg

-- The body of the loop of ProviderBreakdown.
unfoldable pub count_of_provider : Record → Aggregate → Aggregate
count_of_provider r agg =
    if r.usage_known
    then record {
      calls = inc64 agg.calls;
      known_calls = inc64 agg.known_calls;
      unknown_calls = agg.unknown_calls;
      prompt_tokens = wrap64 (agg.prompt_tokens +ℤ r.prompt_tokens);
      completion_tokens = wrap64 (agg.completion_tokens +ℤ r.completion_tokens);
      total_tokens = wrap64 (agg.total_tokens +ℤ r.total_tokens);
    }
    else record agg { calls = inc64 agg.calls; unknown_calls = inc64 agg.unknown_calls }

breakdown_from : Dict Aggregate → List Record → Dict Aggregate
breakdown_from out [] = out
breakdown_from out (r ∷ rs) =
    let p = provider_of r in
    breakdown_from (put out p (count_of_provider r (or_no_calls (get out p)))) rs

unfoldable pub provider_breakdown : List Record → Dict Aggregate
unfolding breakdown_from
provider_breakdown rs = breakdown_from [] rs
