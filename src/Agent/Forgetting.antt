-- ===== src/Agent/Forgetting.antt =====
-- What a summary of pkg/agent/loop.go keeps of a conversation.
use picoclaw.Prelude.{
  ℕ, suc, ◌+◌, ◌-◌, ◌≤◌, String, ◌≡◌, refl, sym, ap, ◌∙◌, ◌⊎◌, inl, inr, true, false, List, [], ◌∷◌,
  ◌++◌, arith, str_eq, ltb, Bool-cases, length, take, drop, length-append, length-take,
}
use Prim.Native.Nat.{min}
use picoclaw.Prelude.Int.{pos}
use picoclaw.Llm.{Message}
use picoclaw.Session.{get_history, get_summary, set_summary, truncate_history}
use picoclaw.Session.History.{get_history-truncate_history}
use picoclaw.Agent.Calls.{env_now}
use picoclaw.Agent.World.{Host, AgentLoop}
use picoclaw.Agent.Summary.{
  to_summarize, valid_messages, make_summary, put_summary, summarize_session,
}
use picoclaw.Agent.Histories.{get_history-save}
use picoclaw.Agent.AllReady.{get_history-set_summary}

drop-append : {A : Type 0} (xs ys : List A) → drop (length xs) (xs ++ ys) ≡ ys
drop-append [] ys = refl
drop-append (x ∷ xs) ys = drop-append xs ys

drop_more-append :
    {A : Type 0} (k : ℕ) (xs ys : List A) → drop (length xs + k) (xs ++ ys) ≡ drop k ys
drop_more-append k [] ys = let e : 0 + k ≡ k = omega arith in rw e refl
drop_more-append k (x ∷ xs) ys =
    let e : suc (length xs) + k ≡ suc (length xs + k) = omega arith in
    rw e (drop_more-append k xs ys)

four_left :
    {A : Type 0} (old new : List A)
    → take (length old - 4) old ++ new ≡ old
    → length new ≡ min (length old) 4
four_left old new kept = omega (
  arith,
  ap length kept,
  length-append (take (length old - 4) old) new,
  length-take (length old - 4) old (omega arith),
)

module _ {W P Callback : Type 0} (host : Host W P Callback) where
  get_history-put_summary :
      (key text : String) (al : AgentLoop W P Callback)
      → str_eq text "" ≡ false
      → let now = (env_now host al).now in
        get_history key (put_summary host key text al).sessions
        ≡ get_history key (truncate_history now key (pos 4) (set_summary now key text al.sessions))
  unfolding put_summary
  get_history-put_summary key text al made = rw (made, get_history-save) refl

  -- The history that the end of a summary leaves, with what it drops before it.
  kept_history :
      (key text : String) (al : AgentLoop W P Callback)
      → str_eq text "" ≡ false
      → take (length (get_history key al.sessions) - 4) (get_history key al.sessions)
          ++ get_history key (put_summary host key text al).sessions
        ≡ get_history key al.sessions
  unfolding to_summarize
  kept_history key text al made =
      let now = (env_now host al).now in
      let noted = set_summary now key text al.sessions in
      let (kept, count, others, summaries) =
        get_history-truncate_history now key key (pos 4) noted in
      rw (get_history-put_summary key text al made)
        (rw (get_history-set_summary now key key text al.sessions) at kept)

  no_summary :
      (key text : String) (al : AgentLoop W P Callback)
      → str_eq text "" ≡ true
      → put_summary host key text al ≡ al
  unfolding put_summary
  no_summary key text al failed = simp failed refl

  -- With nothing in between, a summary that comes out empty leaves all sessions as they are, and one
  -- that does not takes from the beginning of the history all but its last four messages.
  pub summarize_session_covers :
      (key : String) (al : AgentLoop W P Callback)
      → let old = get_history key al.sessions in
        let made = (make_summary host al old (get_summary key al.sessions) al.world).1 in
        let after = (summarize_session host key al).sessions in
        ((str_eq made "" ≡ true) × (after ≡ al.sessions))
        ⊎ ((str_eq made "" ≡ false)
            × (take (length old - 4) old ++ get_history key after ≡ old)
            × (length (get_history key after) ≡ min (length old) 4))
  unfolding summarize_session
  summarize_session_covers key al =
      let old = get_history key al.sessions in
      let r = make_summary host al old (get_summary key al.sessions) al.world in
      let al' : AgentLoop W P Callback = record al { world = r.0 } in
      elim (Bool-cases (str_eq r.1 "")) [
        | inl failed ↦ inl (failed, ap (λ t. t.sessions) (no_summary key r.1 al' failed))
        | inr made ↦
            let kept = kept_history key r.1 al' made in inr (made, kept, four_left old _ kept)
      ]

  -- The summary of a conversation with more than ten messages to sum up does not depend on the summary
  -- that was there before, which it then replaces.
  pub make_summary_forgets :
      (al : AgentLoop W P Callback) (history : List Message) (summary other : String) (w : W)
      → ltb 10 (length (valid_messages al.context_window (to_summarize history))) ≡ true
      → make_summary host al history summary w ≡ make_summary host al history other w
  unfolding make_summary
  make_summary_forgets al history summary other w many = rw many refl

  -- When a summary that is not empty ends, and four messages or more have come after the history that
  -- it was made of, all of that history is gone, also its last four messages, which it was not to sum
  -- up, and all but the last four of those that came.
  pub put_summary_loses :
      (key text : String) (al : AgentLoop W P Callback) (before late : List Message)
      → str_eq text "" ≡ false
      → get_history key al.sessions ≡ before ++ late
      → 4 ≤ length late
      → get_history key (put_summary host key text al).sessions ≡ drop (length late - 4) late
  unfolding to_summarize
  put_summary_loses key text al before late made history enough =
      let old = get_history key al.sessions in
      let new = get_history key (put_summary host key text al).sessions in
      let front : length (take (length old - 4) old) ≡ length old - 4 =
        length-take (length old - 4) old (omega arith) in
      let split : length old - 4 ≡ length before + (length late - 4) =
        rw history (omega (arith, length-append before late)) in
      sym (drop-append (take (length old - 4) old) new)
      ∙ ap (λ (k : ℕ). drop k (to_summarize old ++ new)) (front ∙ split)
      ∙ ap (λ xs. drop (length before + (length late - 4)) xs)
          (kept_history key text al made ∙ history)
      ∙ drop_more-append (length late - 4) before late
