-- ===== src/Agent/Summary.antt =====
-- maybeSummarize, summarizeSession and summarizeBatch of pkg/agent/loop.go. A summary runs beside the
-- loop: what it reads at its start and what it writes at its end are two steps.
use picoclaw.Prelude.{
  ℕ, suc, ◌+◌, ◌-◌, ◌/◌, String, Bool, true, false, not, ◌&&◌, ◌||◌, Option, none, some, List, [],
  ◌∷◌, str_eq, ltb, leb, ◌==◌, if◌then◌else◌, length, take, drop, keep, any,
}
use Prim.Native.String.{count, len, ◌++◌ as append}
use picoclaw.Prelude.Int.{ℤ, pos, negsuc, ltb_ℤ, wrap64, ◌*ℤ◌}
use picoclaw.Prelude.Text.{concat}
use picoclaw.Llm.{number, Fields, no_fields, field, Message}
use picoclaw.Session.{get_history, get_summary, set_summary, truncate_history}
use picoclaw.Session.Files.{save}
use picoclaw.Agent.Calls.{env_now}
use picoclaw.Agent.World.{Reply, replied, erred, Host, AgentLoop}
use picoclaw.Agent.Planner.{text_message}

abbrev pub summary_options : Fields
summary_options = field "max_tokens" (number "1024") (field "temperature" (number "0.3") no_fields)

-- Go's division of an int by a positive constant, towards zero.
abbrev pub quotient : ℤ → ℕ → ℤ
quotient (pos n) k = pos (n / k)
quotient (negsuc n) k = if suc n / k == 0 then pos 0 else negsuc (suc n / k - 1)

unfoldable pub estimate_tokens : List Message → ℕ
estimate_tokens [] = 0
estimate_tokens (m ∷ ms) = count m.content / 3 + estimate_tokens ms

relevant : Message → Bool
relevant m = str_eq m.role "user" || str_eq m.role "assistant"

-- More than half of the window, at four bytes for a token.
oversized : ℤ → Message → Bool
oversized window m = ltb_ℤ (quotient window 2) (pos (len m.content / 4))

unfoldable pub valid_messages : ℤ → List Message → List Message
unfolding relevant oversized
valid_messages window ms = keep (λ m. relevant m && not (oversized window m)) ms

unfoldable pub some_omitted : ℤ → List Message → Bool
unfolding relevant oversized
some_omitted window ms = any (λ m. relevant m && oversized window m) ms

-- The history without its last four messages.
unfoldable pub to_summarize : List Message → List Message
to_summarize history = take (length history - 4) history

transcript : List Message → List String
transcript [] = []
transcript (m ∷ ms) = concat (m.role ∷ ": " ∷ m.content ∷ "\n" ∷ []) ∷ transcript ms

unfoldable pub batch_prompt : List Message → String → String
unfolding transcript
batch_prompt batch existing = concat (
    "Provide a concise summary of this conversation segment, preserving core context and key points.\n"
    ∷ (if str_eq existing "" then "" else concat ("Existing context: " ∷ existing ∷ "\n" ∷ []))
    ∷ "\nCONVERSATION:\n"
    ∷ transcript batch)

unfoldable pub merge_prompt : String → String → String
merge_prompt s1 s2 = concat (
    "Merge these two conversation summaries into one cohesive summary:\n\n1: " ∷ s1 ∷ "\n\n2: " ∷ s2
    ∷ [])

abbrev pub or_empty : Option String → String
or_empty none = ""
or_empty (some s) = s

reply_text : Reply → Option String
reply_text (replied response) = some response.content
reply_text (erred e) = none

or_joined : String → String → Option String → String
or_joined s1 s2 (some merged) = merged
or_joined s1 s2 none = append s1 (append " " s2)

noted : Bool → String → String
noted omitted s =
    if omitted && not (str_eq s "")
    then append s "\n[Note: Some oversized messages were omitted from this summary for efficiency.]"
    else s

module _ {W P Callback : Type 0} (host : Host W P Callback) where
  unfoldable pub ask : AgentLoop W P Callback → String → W → W × Option String
  unfolding reply_text
  ask al prompt w =
      let (w', reply) =
        host.chat al.provider (text_message "user" prompt ∷ []) [] al.model summary_options w in
      (w', reply_text reply)

  unfoldable pub summarize_batch :
      AgentLoop W P Callback → List Message → String → W → W × Option String
  unfolding ask
  summarize_batch al batch existing w = ask al (batch_prompt batch existing) w

  -- Two halves and their merge.
  in_parts : AgentLoop W P Callback → List Message → W → W × String
  unfolding or_joined
  in_parts al valid w =
      let mid = length valid / 2 in
      let (w1, s1) = summarize_batch al (take mid valid) "" w in
      let (w2, s2) = summarize_batch al (drop mid valid) "" w1 in
      let (w3, merged) = ask al (merge_prompt (or_empty s1) (or_empty s2)) w2 in
      (w3, or_joined (or_empty s1) (or_empty s2) merged)

  in_one : AgentLoop W P Callback → List Message → String → W → W × String
  in_one al valid summary w = let (w', s) = summarize_batch al valid summary w in (w', or_empty s)

  -- The summary that is made of a history and the summary before it; empty if none is made.
  unfoldable pub make_summary : AgentLoop W P Callback → List Message → String → W → W × String
  unfolding in_parts in_one noted
  make_summary al history summary w =
      let old = to_summarize history in
      let valid = valid_messages al.context_window old in
      let (w', s) =
        if ltb 10 (length valid) then in_parts al valid w else in_one al valid summary w in
      if leb (length history) 4 || length valid == 0
      then (w, "")
      else (w', noted (some_omitted al.context_window old) s)

  -- The end of summarizeSession.
  unfoldable pub put_summary : String → String → AgentLoop W P Callback → AgentLoop W P Callback
  put_summary key summary al =
      let now = (env_now host al).now in
      if str_eq summary "" then al else record al {
        sessions =
            (save (host.save_io al.world) key
              (truncate_history now key (pos 4) (set_summary now key summary al.sessions))).0;
      }

  -- With nothing between its steps.
  unfoldable pub summarize_session : String → AgentLoop W P Callback → AgentLoop W P Callback
  summarize_session key al =
      let (w, s) =
        make_summary al (get_history key al.sessions) (get_summary key al.sessions) al.world in
      put_summary key s (record al { world = w })

  -- Whether the history calls for a summary.
  unfoldable pub needs_summary : String → AgentLoop W P Callback → Bool
  unfolding ◌*ℤ◌
  needs_summary key al =
      let history = get_history key al.sessions in
      ltb 20 (length history)
      || ltb_ℤ (quotient (wrap64 (al.context_window *ℤ pos 75)) 100) (pos (estimate_tokens history))

  -- The loop with the key noted, and whether a summary is begun.
  unfoldable pub maybe_summarize : String → AgentLoop W P Callback → AgentLoop W P Callback × Bool
  maybe_summarize key al =
      if needs_summary key al && not (any (str_eq key) al.summarizing)
      then (record al { summarizing = key ∷ al.summarizing }, true)
      else (al, false)

  -- What the goroutine of a summary defers.
  unfoldable pub end_summary : String → AgentLoop W P Callback → AgentLoop W P Callback
  end_summary key al = record al { summarizing = keep (λ k. not (str_eq k key)) al.summarizing }
