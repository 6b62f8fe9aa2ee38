-- ===== src/Agent/Histories.antt =====
-- What a turn of pkg/agent/loop.go adds to its session, however it ends.
use picoclaw.Prelude.{
  ℕ, zero, suc, String, ◌≡◌, refl, ap, ◌∙◌, inl, inr, Bool, true, false, Option, none, some, List,
  [], ◌++◌, arith, str_eq, ltb, if◌then◌else◌, Bool-cases, length,
}
use picoclaw.Llm.{Message, LlmResponse}
use picoclaw.Tools.Pairing.{pending, accept, and_then}
use picoclaw.State.{Time}
use picoclaw.Session.{SessionManager, get_history, add_message}
use picoclaw.Session.Files.{SaveIo, save}
use picoclaw.Agent.Plan.{PlanState}
use picoclaw.Agent.Calls.{publish, call_model}
use picoclaw.Agent.World.{Host, AgentLoop, Active, Called, got, fails}
use picoclaw.Agent.Planner.{ActionStream, ProcessOptions}
use picoclaw.Agent.Turn.{
  Progress, TurnEnd, answered, failed, do_tools, settle, next_iteration, llm_loop, forced,
  run_llm_iteration,
}
use picoclaw.Agent.Summary.{maybe_summarize}
use picoclaw.Agent.Context.{Desk, note_channel, record_last_channel, update_tool_contexts}
use picoclaw.Agent.Loop.{say, save_session, turn_messages, finish_turn, cleaned, run_agent_loop}
use picoclaw.Agent.Orphans.{pending_closed}
use picoclaw.Agent.Sessions.{
  Grows, Grows-nothing, Grows-trans, Grows-from, Grows-add_full_message, sessions-call_model,
}
use picoclaw.Agent.Growth.{Grows-do_tools}

-- The session of the key has grown by messages that leave no tool call open.
abbrev pub Extends : String → SessionManager → SessionManager → Type 0
Extends key sm sm' = (ms : List Message) × Grows key ms sm sm' × (pending [] ms ≡ some [])

pub Extends-nothing : (key : String) (sm : SessionManager) → Extends key sm sm
unfolding pending
Extends-nothing key sm = ([], Grows-nothing key sm, refl)

pub Extends-trans :
    (key : String) (a b c : SessionManager) → Extends key a b → Extends key b c → Extends key a c
Extends-trans key a b c (xs, g, p) (ys, h, q) =
    (xs ++ ys, Grows-trans key xs ys a b c g h, pending_closed [] xs ys q p)

pub Extends-from :
    (key : String) (a a' b : SessionManager) → a ≡ a' → Extends key a b → Extends key a' b
Extends-from key a a' b same (ms, g, p) = (ms, Grows-from key ms a a' b same g, p)

pub Extends-to :
    (key : String) (a b b' : SessionManager)
    → ((k : String) → get_history k b' ≡ get_history k b)
    → Extends key a b
    → Extends key a b'
Extends-to key a b b' same (ms, g, p) = (ms, λ k. same k ∙ g k, p)

-- A message that the loop itself writes.
Extends-add_message :
    (now : Time) (key role content : String) (sm : SessionManager)
    → str_eq role "tool" ≡ false
    → Extends key sm (add_message now key role content sm)
unfolding add_message pending accept and_then
Extends-add_message now key role content sm other =
    (_, Grows-add_full_message now key _ sm, rw other refl)

pub get_history-save :
    (io : SaveIo) (key k : String) (sm : SessionManager)
    → get_history k (save io key sm).0 ≡ get_history k sm
unfolding save get_history
get_history-save io key k sm = refl

module _ {W P Callback : Type 0} (host : Host W P Callback) (opts : ProcessOptions W) where
  Extends-settle :
      (continue : Progress W P Callback → AgentLoop W P Callback × TurnEnd)
      (goes : (s : Progress W P Callback)
        → Extends opts.session_key s.al.sessions (continue s).0.sessions)
      (iteration : ℕ) (active : Active P) (response : LlmResponse) (s : Progress W P Callback)
      (calls : Bool)
      → Extends opts.session_key s.al.sessions
          (settle host opts continue iteration active response s calls).0.sessions
  unfolding settle
  Extends-settle continue goes iteration active response s false =
      Extends-nothing opts.session_key s.al.sessions
  Extends-settle continue goes iteration active response s true =
      let s' = do_tools host opts active response s in
      Extends-trans opts.session_key s.al.sessions s'.al.sessions (continue s').0.sessions
        (Grows-do_tools host opts active response s) (goes s')

  Extends-next_iteration :
      (continue : Progress W P Callback → AgentLoop W P Callback × TurnEnd)
      (goes : (s : Progress W P Callback)
        → Extends opts.session_key s.al.sessions (continue s).0.sessions)
      (iteration : ℕ) (messages : List Message) (plan : PlanState)
      (r : AgentLoop W P Callback × Called P)
      → Extends opts.session_key r.0.sessions
          (next_iteration host opts continue iteration messages plan r).0.sessions
  unfolding next_iteration
  Extends-next_iteration continue goes iteration messages plan (al, fails e) =
      Extends-nothing opts.session_key al.sessions
  Extends-next_iteration continue goes iteration messages plan (al, got active response) =
      Extends-settle continue goes iteration active response
        (record { al = al; messages = messages; plan = plan }) (ltb 0 (length response.tool_calls))

  Extends-llm_loop :
      (left iteration : ℕ) (s : Progress W P Callback)
      → Extends opts.session_key s.al.sessions (llm_loop host opts left iteration s).0.sessions
  unfolding llm_loop
  Extends-llm_loop zero iteration s = Extends-nothing opts.session_key s.al.sessions
  Extends-llm_loop (suc left) iteration s =
      let r = call_model host opts.session_key opts.channel opts.chat_id s.messages s.al in
      Extends-from opts.session_key r.0.sessions s.al.sessions _
        (sessions-call_model host opts.session_key opts.channel opts.chat_id s.messages s.al)
        (Extends-next_iteration (λ s'. llm_loop host opts left (suc iteration) s')
          (λ s'. Extends-llm_loop left (suc iteration) s') (suc iteration) s.messages s.plan r)

  sessions-forced :
      (stream : Option (ActionStream W)) (r : AgentLoop W P Callback × TurnEnd)
      → (forced host opts stream r).0.sessions ≡ r.0.sessions
  unfolding forced
  sessions-forced none r = refl
  sessions-forced (some stream) (al, failed e n) = refl
  sessions-forced (some stream) (al, answered c n) = refl

  pub Extends-run_llm_iteration :
      (messages : List Message) (al : AgentLoop W P Callback)
      → Extends opts.session_key al.sessions (run_llm_iteration host opts messages al).0.sessions
  unfolding run_llm_iteration
  Extends-run_llm_iteration messages al =
      Extends-to opts.session_key al.sessions _ _
        (λ k. ap (get_history k) (sessions-forced opts.action_stream _)) (Extends-llm_loop _ 0 _)

module _ {W P Callback : Type 0} (host : Host W P Callback) (desk : Desk W P Callback) where
  sessions-note_channel :
      (channel chat_id : String) (al : AgentLoop W P Callback)
      → (note_channel host desk channel chat_id al).sessions ≡ al.sessions
  unfolding note_channel record_last_channel
  sessions-note_channel channel chat_id al = ground arith

  sessions-maybe_summarize :
      (key : String) (al : AgentLoop W P Callback)
      → (maybe_summarize host key al).0.sessions ≡ al.sessions
  unfolding maybe_summarize
  sessions-maybe_summarize key al = ground arith

  abbrev kept : ProcessOptions W → String → AgentLoop W P Callback → AgentLoop W P Callback
  kept opts content al = save_session host desk opts.session_key (
      say host desk opts.session_key "assistant"
        (if str_eq content "" then opts.default_response else content) al)

  sessions-finish_turn :
      (opts : ProcessOptions W) (content : String) (n : ℕ) (al : AgentLoop W P Callback)
      → (finish_turn host desk opts (al, answered content n)).0.sessions
        ≡ (kept opts content al).sessions
  unfolding finish_turn publish
  sessions-finish_turn opts content n al = elim (Bool-cases opts.enable_summary) [
    | inl on ↦ elim (Bool-cases opts.send_response) [
      | inl sends ↦
          rw (on, sends) (sessions-maybe_summarize opts.session_key (kept opts content al))
      | inr silent ↦
          rw (on, silent) (sessions-maybe_summarize opts.session_key (kept opts content al))
    ]
    | inr off ↦ elim (Bool-cases opts.send_response) [
      | inl sends ↦ rw (off, sends) refl
      | inr silent ↦ rw (off, silent) refl
    ]
  ]

  Extends-say :
      (key role content : String) (al : AgentLoop W P Callback)
      → str_eq role "tool" ≡ false
      → Extends key al.sessions (say host desk key role content al).sessions
  unfolding say
  Extends-say key role content al other = Extends-add_message _ key role content al.sessions other

  Extends-finish_turn :
      (opts : ProcessOptions W) (r : AgentLoop W P Callback × TurnEnd)
      → Extends opts.session_key r.0.sessions (finish_turn host desk opts r).0.sessions
  unfolding finish_turn save_session
  Extends-finish_turn opts (al, failed e n) = Extends-nothing opts.session_key al.sessions
  Extends-finish_turn opts (al, answered content n) =
      Extends-to opts.session_key al.sessions
        (say host desk opts.session_key "assistant"
          (if str_eq content "" then opts.default_response else content) al).sessions
        (finish_turn host desk opts (al, answered content n)).0.sessions
        (λ k.
          ap (get_history k) (sessions-finish_turn opts content n al)
          ∙ get_history-save _ opts.session_key k _)
        (Extends-say opts.session_key "assistant" _ al refl)

  pub Extends-run_agent_loop :
      (opts : ProcessOptions W) (al : AgentLoop W P Callback)
      → Extends opts.session_key al.sessions (run_agent_loop host desk opts al).0.sessions
  unfolding run_agent_loop cleaned update_tool_contexts
  Extends-run_agent_loop opts al =
      let noted = note_channel host desk opts.channel opts.chat_id al in
      let ready = update_tool_contexts host desk opts.channel opts.chat_id noted in
      let asked = say host desk opts.session_key "user" opts.user_message ready in
      let r = run_llm_iteration host opts (turn_messages host desk opts ready) asked in
      Extends-from opts.session_key noted.sessions al.sessions
        (finish_turn host desk opts r).0.sessions
        (sessions-note_channel opts.channel opts.chat_id al)
        (Extends-trans opts.session_key noted.sessions asked.sessions
          (finish_turn host desk opts r).0.sessions
          (Extends-say opts.session_key "user" opts.user_message ready refl)
          (Extends-trans opts.session_key asked.sessions r.0.sessions
            (finish_turn host desk opts r).0.sessions
            (Extends-run_llm_iteration host opts (turn_messages host desk opts ready) asked)
            (Extends-finish_turn opts r)))
