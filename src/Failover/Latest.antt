-- ===== src/Failover/Latest.antt =====
-- The rate-limit hints of pkg/failover/manager.go: the sorted candidates, and the hold that they extend.
use picoclaw.Prelude.{
  ℕ, ◌*◌, ◌≤◌, ◌<◌, ◌≡◌, refl, ◌⊎◌, inl, inr, Option, none, some, List, [], ◌∷◌, arith, Bool-cases,
  All,
}
use picoclaw.Prelude.Int.{pos, wrap64, ◌*ℤ◌, ◌≤ℤ◌, ltb_ℤ}
use mathlib.Core.List.{Memᴰ}
use picoclaw.State.{Time, zero_time}
use picoclaw.Failover.{Env, LlmError, rate_limited, other_error, RateLimitError, minutes}
use picoclaw.Failover.Hints.{
  candidates, sort_in, sort, last_or, next_probe_from_rate_limit_hints, extend_by_hint,
}

abbrev AtMost : Time → List Time → Type 0
AtMost t ts = All (λ u. u ≤ℤ t) ts

Sorted : List Time → Type 0
Sorted [] = Unit
Sorted (t ∷ ts) = All (λ u. t ≤ℤ u) ts × Sorted ts

above_trans : (t u : Time) (ts : List Time) → t ≤ℤ u → All (λ v. u ≤ℤ v) ts → All (λ v. t ≤ℤ v) ts
above_trans t u [] h a = tt
above_trans t u (v ∷ ts) h a = (omega arith, above_trans t u ts h a.1)

above-sort_in :
    (b t : Time) (ts : List Time) → b ≤ℤ t → All (λ v. b ≤ℤ v) ts → All (λ v. b ≤ℤ v) (sort_in t ts)
unfolding sort_in
above-sort_in b t [] h a = (h, tt)
above-sort_in b t (u ∷ ts) h a = elim (Bool-cases (ltb_ℤ u t)) [
  | inl lt ↦ rw lt (a.0, above-sort_in b t ts h a.1)
  | inr ge ↦ rw ge (h, a)
]

sort_in-Sorted : (t : Time) (ts : List Time) → Sorted ts → Sorted (sort_in t ts)
unfolding sort_in Sorted
sort_in-Sorted t [] s = (tt, tt)
sort_in-Sorted t (u ∷ ts) s = elim (Bool-cases (ltb_ℤ u t)) [
  | inl lt ↦ rw lt (above-sort_in u t ts (ground arith) s.0, sort_in-Sorted t ts s.1)
  | inr ge ↦ rw ge ((ground arith, above_trans t u ts (ground arith) s.0), s)
]

sort-Sorted : (ts : List Time) → Sorted (sort ts)
unfolding sort Sorted
sort-Sorted [] = tt
sort-Sorted (t ∷ ts) = sort_in-Sorted t (sort ts) (sort-Sorted ts)

-- The last of a sorted list is at least each of its items.
last_or-max :
    (t : Time) (ts : List Time) → Sorted (t ∷ ts) → (t ≤ℤ last_or t ts) × AtMost (last_or t ts) ts
unfolding last_or Sorted
last_or-max t [] s = (omega arith, tt)
last_or-max t (u ∷ ts) s =
    let ih = last_or-max u ts s.1 in (omega (arith, ih.0, s.0.0), (ih.0, ih.1))

unsort_in : (b t : Time) (ts : List Time) → AtMost b (sort_in t ts) → (t ≤ℤ b) × AtMost b ts
unfolding sort_in
unsort_in b t [] a = a
unsort_in b t (u ∷ ts) a = elim (Bool-cases (ltb_ℤ u t)) [
  | inl lt ↦
      let a' : AtMost b (u ∷ sort_in t ts) = unfold sort_in in rw lt at a in
      let ih = unsort_in b t ts a'.1 in (ih.0, (a'.0, ih.1))
  | inr ge ↦ let a' : AtMost b (t ∷ u ∷ ts) = unfold sort_in in rw ge at a in (a'.0, a'.1)
]

unsort : (b : Time) (ts : List Time) → AtMost b (sort ts) → AtMost b ts
unfolding sort
unsort b [] a = tt
unsort b (t ∷ ts) a = let r = unsort_in b t (sort ts) a in (r.0, unsort b ts r.1)

last_of_Sorted : (d : Time) (ts : List Time) → Sorted ts → AtMost (last_or d ts) ts
unfolding last_or
last_of_Sorted d [] s = tt
last_of_Sorted d (t ∷ ts) s = last_or-max t ts s

Memᴰ-under : {x : Time} (t u : Time) (ts : List Time) → Memᴰ x (t ∷ ts) → Memᴰ x (t ∷ u ∷ ts)
Memᴰ-under t u ts (Memᴰ.head e) = Memᴰ.head e
Memᴰ-under t u ts (Memᴰ.tail r) = Memᴰ.tail (Memᴰ.tail r)

Memᴰ-swap :
    {x : Time} (t u : Time) (ts us : List Time)
    → (Memᴰ x us → Memᴰ x (t ∷ ts))
    → Memᴰ x (u ∷ us)
    → Memᴰ x (t ∷ u ∷ ts)
Memᴰ-swap t u ts us f (Memᴰ.head e) = Memᴰ.tail (Memᴰ.head e)
Memᴰ-swap t u ts us f (Memᴰ.tail r) = Memᴰ-under t u ts (f r)

Memᴰ-sort_in : {x : Time} (t : Time) (ts : List Time) → Memᴰ x (sort_in t ts) → Memᴰ x (t ∷ ts)
unfolding sort_in
Memᴰ-sort_in t [] h = h
Memᴰ-sort_in {x} t (u ∷ ts) h = elim (Bool-cases (ltb_ℤ u t)) [
  | inl lt ↦
      Memᴰ-swap t u ts (sort_in t ts) (Memᴰ-sort_in t ts)
        (let h' : Memᴰ x (u ∷ sort_in t ts) = rw lt at h in h')
  | inr ge ↦ let h' : Memᴰ x (t ∷ u ∷ ts) = rw ge at h in h'
]

Memᴰ-tail_map :
    {x : Time} (t : Time) (ts us : List Time)
    → (Memᴰ x ts → Memᴰ x us)
    → Memᴰ x (t ∷ ts)
    → Memᴰ x (t ∷ us)
Memᴰ-tail_map t ts us f (Memᴰ.head e) = Memᴰ.head e
Memᴰ-tail_map t ts us f (Memᴰ.tail r) = Memᴰ.tail (f r)

Memᴰ-sort : {x : Time} (ts : List Time) → Memᴰ x (sort ts) → Memᴰ x ts
unfolding sort
Memᴰ-sort [] h = h
Memᴰ-sort (t ∷ ts) h = Memᴰ-tail_map t (sort ts) ts (Memᴰ-sort ts) (Memᴰ-sort_in t (sort ts) h)

Memᴰ-last_or : (d t : Time) (ts : List Time) → Memᴰ (last_or d (t ∷ ts)) (t ∷ ts)
unfolding last_or
Memᴰ-last_or d t [] = Memᴰ.head refl
Memᴰ-last_or d t (u ∷ ts) = Memᴰ.tail (Memᴰ-last_or t u ts)

last_or-cases : (d : Time) (ts : List Time) → (last_or d ts ≡ d) ⊎ Memᴰ (last_or d ts) ts
unfolding last_or
last_or-cases d [] = inl refl
last_or-cases d (t ∷ ts) = inr (Memᴰ-last_or d t ts)

-- The hint of a rate-limit error is at least each time that its headers name, and is one of them or the
-- zero time.
pub hints_latest :
    (env : Env) (rl : RateLimitError)
    → let hint = next_probe_from_rate_limit_hints env rl in
      All (λ u. u ≤ℤ hint) (candidates env rl)
      × ((hint ≡ zero_time) ⊎ Memᴰ hint (candidates env rl))
unfolding next_probe_from_rate_limit_hints
hints_latest env rl =
    let ts = candidates env rl in
    (
      unsort _ ts (last_of_Sorted zero_time (sort ts) (sort-Sorted ts)),
      elim (last_or-cases zero_time (sort ts)) [ inl z ↦ inl z | inr h ↦ inr (Memᴰ-sort ts h) ],
    )

-- A hint never shortens a hold.
pub le-extend_by_hint :
    (env : Env) (err : Option LlmError) (t : Time) → t ≤ℤ extend_by_hint env err t
unfolding extend_by_hint
le-extend_by_hint env none t = omega arith
le-extend_by_hint env (some (rate_limited rl)) t = ground arith
le-extend_by_hint env (some (other_error s)) t = omega arith

-- Minutes that an int64 of nanoseconds can hold.
pub minutes_lem : (n : ℕ) → 0 < n → n ≤ 153722867 → minutes (pos n) ≡ pos (n * 60000000000)
unfolding minutes ◌*ℤ◌ wrap64
minutes_lem n p h = ground arith
