-- ===== src/Session/History.antt =====
-- What the methods of pkg/session/manager.go do to the conversations in memory.
use picoclaw.Prelude.{
  ℕ, ◌-◌, String, ◌≡◌, refl, ap, ◌∙◌, ◌⊎◌, inl, inr, List, [], ◌∷◌, ◌++◌, append-nil, arith, str_eq,
  eq_iff, eq_refl, leb, ◌==◌, if◌then◌else◌, Bool-cases, Option-cases, length, take, drop,
  length-drop, take-append-drop, take_all,
}
use Prim.Native.Nat.{min}
use picoclaw.Prelude.Int.{ℤ, pos, negsuc, pos_part}
use picoclaw.Prelude.Dict.{get, get-put}
use picoclaw.State.{Time}
use picoclaw.Llm.{Message}
use picoclaw.Session.{
  Session, SessionManager, add_full_message, get_history, get_summary, truncated, truncate_history,
}

-- A message is appended to its own conversation, which is made if it is not there, and no other
-- conversation and no summary changes.
pub get_history-add_full_message :
    (now : Time) (key other : String) (msg : Message) (sm : SessionManager)
    → let sm' = add_full_message now key msg sm in
      (get_history other sm'
        ≡ (if str_eq other key then get_history key sm ++ msg ∷ [] else get_history other sm))
      × (get_summary other sm' ≡ get_summary other sm)
unfolding add_full_message get_history get_summary
get_history-add_full_message now key other msg sm = rw get-put (ground (arith, eq_iff other key))

dropped :
    {A : Type 0} (xs : List A) (n : ℕ)
    → (take (length xs - n) xs ++ drop (length xs - n) xs ≡ xs)
      × (length (drop (length xs - n) xs) ≡ min n (length xs))
dropped xs n = (take-append-drop (length xs - n) xs, omega (arith, length-drop (length xs - n) xs))

messages-truncated :
    (now : Time) (keep_last : ℤ) (s : Session)
    → let old = s.messages in
      let new = (truncated now keep_last s).messages in
      (take (length old - pos_part keep_last) old ++ new ≡ old)
      × (length new ≡ min (pos_part keep_last) (length old))
      × ((truncated now keep_last s).summary ≡ s.summary)
unfolding truncated
messages-truncated now (negsuc n) s =
    (append-nil _ ∙ take_all _ s.messages (omega arith), omega arith, refl)
messages-truncated now (pos n) s = elim (Bool-cases (n == 0)) [
  | inl zero_kept ↦
      simp zero_kept (append-nil _ ∙ take_all _ s.messages (ground arith), ground arith, refl)
  | inr more ↦ elim (Bool-cases (leb (length s.messages) n)) [
    | inl few ↦
        simp (more, few)
          (
            ap (λ (k : ℕ). take k s.messages ++ s.messages)
                (let z : length s.messages - n ≡ 0 = ground arith in z),
            ground arith,
            refl,
          )
    | inr many ↦ let d = dropped s.messages n in simp (more, many) (d.0, d.1, refl)
  ]
]

-- Truncation keeps the last messages, as many as asked for or all there are: what it keeps is the end of
-- the conversation. A count of zero or less empties it. Other conversations and all summaries stay.
pub get_history-truncate_history :
    (now : Time) (key other : String) (keep_last : ℤ) (sm : SessionManager)
    → let old = get_history key sm in
      let sm' = truncate_history now key keep_last sm in
      let new = get_history key sm' in
      (take (length old - pos_part keep_last) old ++ new ≡ old)
      × (length new ≡ min (pos_part keep_last) (length old))
      × ((other ≡ key) ⊎ (get_history other sm' ≡ get_history other sm))
      × (get_summary other sm' ≡ get_summary other sm)
unfolding truncate_history get_history get_summary
get_history-truncate_history now key other keep_last sm =
    elim (Option-cases (get sm.sessions key)) [
      | inl missing ↦ simp missing (
        append-nil _ ∙ take_all (0 - pos_part keep_last) [] (omega arith),
        omega arith,
        inr refl,
        refl,
      )
      | inr (s, found) ↦
          let t = truncated now keep_last s in
          let (kept, count, same) = messages-truncated now keep_last s in
          simp (found, get-put, eq_refl)
            (
              kept,
              count,
              elim (Bool-cases (str_eq other key)) [
                | inl this ↦ inl ((eq_iff other key).0 this)
                | inr that ↦ inr (rw that)
              ],
              elim (Bool-cases (str_eq other key)) [
                | inl this ↦ rw (this, (eq_iff other key).0 this, found) same
                | inr that ↦ rw that
              ],
            )
    ]
