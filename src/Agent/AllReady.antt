-- ===== src/Agent/AllReady.antt =====
-- Changes of the session manager of pkg/session/manager.go after which every conversation is still fit to be sent.
use picoclaw.Prelude.{
  String, ◌≡◌, refl, inl, inr, str_eq, eq_iff, eq_refl, Bool-cases, Option-cases,
}
use picoclaw.Prelude.Int.{ℤ}
use picoclaw.Prelude.Dict.{get, get-put}
use picoclaw.State.{Time}
use picoclaw.Session.{SessionManager, get_history, set_summary, truncate_history}
use picoclaw.Session.History.{get_history-truncate_history}
use picoclaw.Agent.Orphans.{Ready, Ready-append, Ready-end}
use picoclaw.Agent.Histories.{Extends}

-- Of every session.
abbrev pub AllReady : SessionManager → Type 0
AllReady sm = (key : String) → Ready (get_history key sm)

pub AllReady-Extends :
    (key : String) (sm sm' : SessionManager) → Extends key sm sm' → AllReady sm → AllReady sm'
AllReady-Extends key sm sm' (ms, grows, closed) ready k = elim (Bool-cases (str_eq k key)) [
  | inl this ↦ rw (grows k, this) (Ready-append (get_history key sm) ms closed (ready key))
  | inr that ↦ rw (grows k, that) (ready k)
]

pub get_history-set_summary :
    (now : Time) (key k summary : String) (sm : SessionManager)
    → get_history k (set_summary now key summary sm) ≡ get_history k sm
unfolding set_summary get_history
get_history-set_summary now key k summary sm = elim (Option-cases (get sm.sessions key)) [
  | inl missing ↦ simp missing refl
  | inr (s, found) ↦ elim (Bool-cases (str_eq k key)) [
    | inl this ↦ rw ((eq_iff k key).0 this) (simp (found, get-put, eq_refl) refl)
    | inr that ↦ simp (found, get-put, that) refl
  ]
]

pub AllReady-truncate_history :
    (now : Time) (key : String) (keep_last : ℤ) (sm : SessionManager)
    → AllReady sm
    → AllReady (truncate_history now key keep_last sm)
AllReady-truncate_history now key keep_last sm ready k =
    let (kept, count, others, summaries) = get_history-truncate_history now key k keep_last sm in
    elim others [
      | inl this ↦ rw this (
          Ready-end _ (get_history key (truncate_history now key keep_last sm)) (get_history key sm)
            kept (ready key))
      | inr same ↦ rw same (ready k)
    ]
