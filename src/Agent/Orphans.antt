-- ===== src/Agent/Orphans.antt =====
-- The loop of BuildMessages in pkg/agent/context.go that removes tool messages at the front of a history:
-- what is left of a history is a conversation that a provider accepts.
use picoclaw.Prelude.{
  ℕ, zero, suc, String, ◌≡◌, refl, sym, ◌∙◌, inl, inr, Bool, true, false, some, List, [], ◌∷◌, ◌++◌,
  str_eq, Bool-cases, Option-cases, drop,
}
use picoclaw.Llm.{Message}
use picoclaw.Tools.Pairing.{accept, and_then, pending, Paired, pending-append}
use picoclaw.Agent.Context.{drop_orphans}

-- What BuildMessages sends of a history has every tool call answered, in order.
abbrev pub Ready : List Message → Type 0
Ready ms = Paired (drop_orphans ms)

drop_orphans-tool :
    (m : Message) (ms : List Message)
    → str_eq m.role "tool" ≡ true
    → drop_orphans (m ∷ ms) ≡ drop_orphans ms
unfolding drop_orphans
drop_orphans-tool m ms p = rw p refl

drop_orphans-other :
    (m : Message) (ms : List Message)
    → str_eq m.role "tool" ≡ false
    → drop_orphans (m ∷ ms) ≡ m ∷ ms
unfolding drop_orphans
drop_orphans-other m ms p = rw p refl

pending-accepted :
    (ids ids' : List String) (m : Message) (ms : List Message)
    → accept ids m ≡ some ids'
    → pending ids (m ∷ ms) ≡ pending ids' ms
unfolding pending and_then
pending-accepted ids ids' m ms h = rw h refl

-- The part of a conversation from a place where some calls may be open.
pub pending-drop_orphans :
    (ids : List String) (ms : List Message) → pending ids ms ≡ some [] → Ready ms
unfolding pending accept and_then drop_orphans
pending-drop_orphans ids [] h = refl
pending-drop_orphans [] (m ∷ ms) h = elim (Bool-cases (str_eq m.role "tool")) [
  | inl tool ↦ absurd (cc)
  | inr other ↦ rw (drop_orphans-other m ms other) h
]
pending-drop_orphans (id ∷ ids) (m ∷ ms) h = elim (Bool-cases (str_eq m.role "tool")) [
  | inl tool ↦ elim (Bool-cases (str_eq m.tool_call_id id)) [
    | inl same ↦ rw (drop_orphans-tool m ms tool) (
        pending-drop_orphans ids ms
          (sym (pending-accepted (id ∷ ids) ids m ms (rw (tool, same) refl)) ∙ h))
    | inr differs ↦ absurd (cc)
  ]
  | inr other ↦ absurd (cc)
]

-- A suffix of a conversation.
pub Ready-drop :
    (n : ℕ) (ids : List String) (ms : List Message) → pending ids ms ≡ some [] → Ready (drop n ms)
unfolding pending and_then drop_orphans
Ready-drop zero ids ms h = pending-drop_orphans ids ms h
Ready-drop (suc n) ids [] h = refl
Ready-drop (suc n) ids (m ∷ ms) h = elim (Option-cases (accept ids m)) [
  | inl refused ↦ absurd (cc)
  | inr (ids', accepted) ↦ Ready-drop n ids' ms (sym (pending-accepted ids ids' m ms accepted) ∙ h)
]

abbrev pub is_tool : Message → Bool
is_tool m = str_eq m.role "tool"

pub pending_closed :
    (ids : List String) (ms ys : List Message)
    → pending [] ys ≡ some []
    → pending ids ms ≡ some []
    → pending ids (ms ++ ys) ≡ some []
unfolding and_then
pending_closed ids ms ys closed h = rw (pending-append ids ms ys, h) closed

-- Messages that open no call behind them may follow any history.
pub Ready-append : (ms ys : List Message) → pending [] ys ≡ some [] → Ready ms → Ready (ms ++ ys)
unfolding drop_orphans
Ready-append [] ys closed h = pending-drop_orphans [] ys closed
Ready-append (m ∷ ms) ys closed h = elim (Bool-cases (is_tool m)) [
  | inl tool ↦
      rw (drop_orphans-tool m (ms ++ ys) tool)
        (Ready-append ms ys closed (rw (sym (drop_orphans-tool m ms tool)) h))
  | inr other ↦
      rw (drop_orphans-other m (ms ++ ys) other)
        (pending_closed [] (m ∷ ms) ys closed (rw (sym (drop_orphans-other m ms other)) h))
]

-- The end of a history may stand for it.
pub Ready-suffix : (n : ℕ) (ms : List Message) → Ready ms → Ready (drop n ms)
Ready-suffix zero ms h = h
Ready-suffix (suc n) [] h = h
Ready-suffix (suc n) (m ∷ ms) h = elim (Bool-cases (is_tool m)) [
  | inl tool ↦ Ready-suffix n ms (rw (sym (drop_orphans-tool m ms tool)) h)
  | inr other ↦ Ready-drop (suc n) [] (m ∷ ms) (rw (sym (drop_orphans-other m ms other)) h)
]

Ready-behind : (xs ys : List Message) → Ready (xs ++ ys) → Ready ys
Ready-behind [] ys h = h
Ready-behind (x ∷ xs) ys h = Ready-behind xs ys (Ready-suffix 1 (x ∷ (xs ++ ys)) h)

pub Ready-end : (xs ys zs : List Message) → xs ++ ys ≡ zs → Ready zs → Ready ys
Ready-end xs ys zs parts h = Ready-behind xs ys (rw parts h)
