-- ===== src/Usage/Queries.antt =====
-- What Query and LastBySession of pkg/usage/store.go find, and what a store reads back.
use picoclaw.Prelude.{
  suc, ◌-◌, String, ◌≡◌, refl, ap, ◌∙◌, inl, inr, true, false, Option, none, some, List, [], ◌∷◌,
  ◌++◌, arith, str_eq, if◌then◌else◌, Bool-cases, is_some, length, drop, keep,
}
use picoclaw.Prelude.Int.{ℤ, pos}
use picoclaw.Usage.{
  Record, Filter, Store, written, load, loaded, new_store, save, written_file, completed, add,
  last_by_session, passes, limited, query,
}

abbrev pub last_of_session : String → Filter
last_of_session key = record { session_key = key; day_key = ""; provider = ""; limit = pos 1 }

abbrev pub at_most_one : Option Record → List Record
at_most_one none = []
at_most_one (some r) = r ∷ []

abbrev last_of : List Record → Option Record
last_of [] = none
last_of (x ∷ xs) = let later = last_of xs in if is_some later then later else some x

last_of_some : (x : Record) (xs : List Record) → is_some (last_of (x ∷ xs)) ≡ true
last_of_some x xs = elim (Bool-cases (is_some (last_of xs))) [
  | inl p ↦ ground arith
  | inr p ↦ ground arith
]

last_step :
    (x y : Record) (ys : List Record)
    → drop (suc (length ys)) (x ∷ y ∷ ys) ≡ drop (length (y ∷ ys) - 1) (y ∷ ys)
last_step x y ys = ap (λ n. drop n (y ∷ ys)) (omega arith)

limited_one : (xs : List Record) → limited (pos 1) xs ≡ at_most_one (last_of xs)
unfolding limited
limited_one [] = ground arith
limited_one (x ∷ []) = ground arith
limited_one (x ∷ y ∷ []) = ground arith
limited_one (x ∷ y ∷ z ∷ zs) =
    ground (arith, limited_one (y ∷ z ∷ zs), last_of_some y (z ∷ zs), last_step x y (z ∷ zs))

passes_session :
    (key : String) (r : Record)
    → str_eq key "" ≡ false
    → passes (last_of_session key) r ≡ str_eq r.session_key key
unfolding passes
passes_session key r h = ground arith

last_of-keep :
    (key : String) (rs : List Record)
    → str_eq key "" ≡ false
    → last_of (keep (passes (last_of_session key)) rs) ≡ last_by_session key rs
unfolding last_by_session
last_of-keep key [] h = refl
last_of-keep key (r ∷ rs) h = ground (arith, last_of-keep key rs h, passes_session key r h)

-- Asking for the last record of a session by LastBySession or by a Query with that session and the limit
-- 1 gives the same record, or none.
pub query-last_by_session :
    (key : String) (s : Store)
    → str_eq key "" ≡ false
    → query (last_of_session key) s ≡ at_most_one (last_by_session key s.records)
unfolding query
query-last_by_session key s h =
    limited_one (keep (passes (last_of_session key)) s.records)
    ∙ ap at_most_one (last_of-keep key s.records h)

-- A store made from the file that a complete write left has the records of the store that added one, and
-- that one at the end.
pub new_store-add :
    (today : String) (now : ℤ) (r : Record) (s : Store) (workspace : String)
    → str_eq workspace "" ≡ false
    → str_eq s.path "" ≡ false
    → (new_store workspace s.path (add today now written r s).file).records
      ≡ s.records ++ completed today now r ∷ []
unfolding new_store add save load loaded written_file
new_store-add today now r s workspace named path = ground arith
