-- ===== src/Agent/Sessions.antt =====
-- Which steps of pkg/agent/loop.go touch the sessions, and how a session grows.
use picoclaw.Prelude.{
  String, ◌≡◌, refl, sym, ◌∙◌, inl, inr, Option, none, some, List, [], ◌∷◌, ◌++◌, append_assoc,
  append-nil, arith, str_eq, eq_iff, eq_refl, if◌then◌else◌, Bool-cases,
}
use picoclaw.Llm.{Message}
use picoclaw.State.{Time}
use picoclaw.Session.{SessionManager, get_history, add_full_message}
use picoclaw.Session.History.{get_history-add_full_message}
use picoclaw.Failover.{Manager, SwitchEvent, LlmError, rate_limited, other_error, enabled}
use picoclaw.Agent.Calls.{
  publish, notify_failover_switch, routed, active_route, chat_with, settle_reply, retry,
  after_limit, after_reply, on_route, add_usage, report, call_model,
}
use picoclaw.Agent.World.{Reply, replied, erred, Host, AgentLoop, Active, Called, got, fails}

-- The history of one key is longer by the messages, all others are the same.
abbrev pub Grows : String → List Message → SessionManager → SessionManager → Type 0
Grows key ms sm sm' =
    (k : String)
    → get_history k sm' ≡ (if str_eq k key then get_history key sm ++ ms else get_history k sm)

pub Grows-nothing : (key : String) (sm : SessionManager) → Grows key [] sm sm
Grows-nothing key sm k = ground (arith, eq_iff k key, append-nil (get_history key sm))

pub Grows-trans :
    (key : String) (xs ys : List Message) (a b c : SessionManager)
    → Grows key xs a b
    → Grows key ys b c
    → Grows key (xs ++ ys) a c
Grows-trans key xs ys a b c g h k =
    ground
      (arith, eq_iff k key, eq_refl key, g k, g key, h k, append_assoc (get_history key a) xs ys)

pub Grows-from :
    (key : String) (ms : List Message) (a a' b : SessionManager)
    → a ≡ a'
    → Grows key ms a b
    → Grows key ms a' b
Grows-from key ms a a' b same g k = rw (sym same) (g k)

pub Grows-add_full_message :
    (now : Time) (key : String) (m : Message) (sm : SessionManager)
    → Grows key (m ∷ []) sm (add_full_message now key m sm)
Grows-add_full_message now key m sm k = (get_history-add_full_message now key k m sm).0

module _ {W P Callback : Type 0} (host : Host W P Callback) where
  sessions-active_route :
      (al : AgentLoop W P Callback) → (active_route host al).0.sessions ≡ al.sessions
  unfolding active_route routed
  sessions-active_route al = elim (Bool-cases (enabled al.failover)) [
    | inl on ↦ rw on refl
    | inr off ↦ rw off refl
  ]

  sessions-notify_failover_switch :
      (channel chat_id : String) (event : SwitchEvent) (al : AgentLoop W P Callback)
      → (notify_failover_switch host channel chat_id event al).sessions ≡ al.sessions
  unfolding notify_failover_switch publish
  sessions-notify_failover_switch channel chat_id event al = ground arith

  sessions-settle_reply :
      (active : Active P) (r : AgentLoop W P Callback × Reply)
      → (settle_reply host active r).0.sessions ≡ r.0.sessions
  unfolding settle_reply
  sessions-settle_reply active (al, replied response) = refl
  sessions-settle_reply active (al, erred e) = refl

  sessions-retry :
      (messages : List Message) (r : AgentLoop W P Callback × Option (Active P))
      → (retry host messages r).0.sessions ≡ r.0.sessions
  unfolding retry chat_with
  sessions-retry messages (al, none) = refl
  sessions-retry messages (al, some active) =
      sessions-settle_reply active (chat_with host active messages al)

  sessions-after_limit :
      (channel chat_id : String) (messages : List Message) (e : LlmError)
      (r : Manager P × SwitchEvent) (al : AgentLoop W P Callback)
      → (after_limit host channel chat_id messages e r al).0.sessions ≡ al.sessions
  unfolding after_limit
  sessions-after_limit channel chat_id messages e (m, event) al = elim (Bool-cases event.switched) [
    | inl switched ↦ simp switched (
        sessions-retry messages (
          active_route host
            (notify_failover_switch host channel chat_id event (record al { failover = m })))
        ∙ sessions-active_route
            (notify_failover_switch host channel chat_id event (record al { failover = m }))
        ∙ sessions-notify_failover_switch channel chat_id event (record al { failover = m }))
    | inr stays ↦ rw stays refl
  ]

  sessions-after_reply :
      (channel chat_id : String) (messages : List Message) (active : Active P)
      (r : AgentLoop W P Callback × Reply)
      → (after_reply host channel chat_id messages active r).0.sessions ≡ r.0.sessions
  unfolding after_reply
  sessions-after_reply channel chat_id messages active (al, replied response) = refl
  sessions-after_reply channel chat_id messages active (al, erred (other_error e)) = refl
  sessions-after_reply channel chat_id messages active (al, erred (rate_limited e)) =
      elim (Bool-cases (enabled al.failover)) [
        | inl on ↦ rw on (sessions-after_limit channel chat_id messages (rate_limited e) _ al)
        | inr off ↦ rw off refl
      ]

  sessions-on_route :
      (channel chat_id : String) (messages : List Message)
      (r : AgentLoop W P Callback × Option (Active P))
      → (on_route host channel chat_id messages r).0.sessions ≡ r.0.sessions
  unfolding on_route chat_with
  sessions-on_route channel chat_id messages (al, none) = refl
  sessions-on_route channel chat_id messages (al, some active) =
      sessions-after_reply channel chat_id messages active (chat_with host active messages al)

  sessions-report :
      (session_key : String) (r : AgentLoop W P Callback × Called P)
      → (report host session_key r).0.sessions ≡ r.0.sessions
  unfolding report add_usage
  sessions-report session_key (al, fails e) = refl
  sessions-report session_key (al, got active response) = refl

  pub sessions-call_model :
      (session_key channel chat_id : String) (messages : List Message) (al : AgentLoop W P Callback)
      → (call_model host session_key channel chat_id messages al).0.sessions ≡ al.sessions
  unfolding call_model
  sessions-call_model session_key channel chat_id messages al =
      sessions-report session_key (on_route host channel chat_id messages (active_route host al))
      ∙ sessions-on_route channel chat_id messages (active_route host al)
      ∙ sessions-active_route al
