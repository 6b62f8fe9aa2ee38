-- ===== src/Usage/Sums.antt =====
-- What AggregateRecords and ProviderBreakdown of pkg/usage/store.go sum.
use picoclaw.Prelude.{
  ℕ, suc, ◌+◌, ◌<◌, String, ◌≡◌, refl, ap, ◌∙◌, sym, inl, inr, Bool, true, false, not, ◌&&◌, ◌||◌,
  List, [], ◌∷◌, map, arith, str_eq, eq_iff, Bool-cases, length, keep, length-keep-le,
}
use picoclaw.Prelude.Int.{ℤ, pos, wrap64, inc64, ◌+ℤ◌, int_laws, wrap64_absorb}
use picoclaw.Prelude.Text.{trim_space}
use picoclaw.Prelude.Dict.{Dict, get, put, get-put}
use picoclaw.Usage.{
  Record, Aggregate, no_calls, or_no_calls, count, count_of_provider, aggregate_from,
  aggregate_records, named, provider_of, breakdown_from, provider_breakdown,
}

-- Numbers added one after the other on a 64-bit integer.
sum64 : ℤ → List ℤ → ℤ
sum64 acc [] = acc
sum64 acc (x ∷ xs) = sum64 (wrap64 (acc +ℤ x)) xs

abbrev pub known : Record → Bool
known r = r.usage_known

abbrev pub unknown : Record → Bool
unknown r = not r.usage_known

abbrev pub sum : List ℤ → ℤ
sum [] = pos 0
sum (x ∷ xs) = x +ℤ sum xs

-- The sum of a field over the records whose usage is known, as 64 bits keep it.
abbrev pub known_sum : (Record → ℤ) → List Record → ℤ
known_sum field rs = wrap64 (sum (map field (keep known rs)))

abbrev pub totals : List Record → Aggregate
totals rs = record {
  calls = pos (length rs);
  known_calls = pos (length (keep known rs));
  unknown_calls = pos (length (keep unknown rs));
  prompt_tokens = known_sum (λ r. r.prompt_tokens) rs;
  completion_tokens = known_sum (λ r. r.completion_tokens) rs;
  total_tokens = known_sum (λ r. r.total_tokens) rs;
}

-- The name of the provider is `p` up to white space around it; "unknown" is also that of a blank name.
abbrev pub goes_by : String → Record → Bool
goes_by p r =
    let name = trim_space r.provider in
    not (str_eq p "") && str_eq p name || str_eq p "unknown" && str_eq name ""

ones : List Record → List ℤ
ones rs = map (λ r. pos 1) rs

-- The sums that start from an aggregate.
abbrev sums : Aggregate → List Record → Aggregate
sums agg rs = record {
  calls = sum64 agg.calls (ones rs);
  known_calls = sum64 agg.known_calls (ones (keep known rs));
  unknown_calls = sum64 agg.unknown_calls (ones (keep unknown rs));
  prompt_tokens = sum64 agg.prompt_tokens (map (λ r. r.prompt_tokens) (keep known rs));
  completion_tokens = sum64 agg.completion_tokens (map (λ r. r.completion_tokens) (keep known rs));
  total_tokens = sum64 agg.total_tokens (map (λ r. r.total_tokens) (keep known rs));
}

pos_suc : (n : ℕ) → n < 9223372036854775807 → wrap64 (pos n +ℤ pos 1) ≡ pos (suc n)
unfolding wrap64 ◌+ℤ◌
pos_suc n lt = ground arith

sum64-ones :
    (a : ℕ) (rs : List Record)
    → a + length rs < 9223372036854775808
    → sum64 (pos a) (ones rs) ≡ pos (a + length rs)
unfolding sum64 ones
sum64-ones a [] lt = ap pos (omega arith)
sum64-ones a (r ∷ rs) lt =
    let next : wrap64 (pos a +ℤ pos 1) ≡ pos (suc a) = pos_suc a (omega arith) in
    ap (λ x. sum64 x (ones rs)) next ∙ sum64-ones (suc a) rs (omega arith) ∙ ap pos (omega arith)

sum64-wrap64 : (a : ℤ) (xs : List ℤ) → sum64 (wrap64 a) xs ≡ wrap64 (a +ℤ sum xs)
unfolding sum64
sum64-wrap64 a [] = let e : a ≡ a +ℤ pos 0 = omega int_laws in ap wrap64 e
sum64-wrap64 a (x ∷ xs) =
    let e : a +ℤ x +ℤ sum xs ≡ a +ℤ (x +ℤ sum xs) = omega int_laws in
    ap (λ acc. sum64 acc xs) (wrap64_absorb a x) ∙ sum64-wrap64 (a +ℤ x) xs ∙ ap wrap64 e

sum64_lem : (xs : List ℤ) → sum64 (pos 0) xs ≡ wrap64 (sum xs)
unfolding wrap64
sum64_lem xs =
    let e : pos 0 +ℤ sum xs ≡ sum xs = omega int_laws in sum64-wrap64 (pos 0) xs ∙ ap wrap64 e

number :
    (rs : List Record) → length rs < 9223372036854775808 → sum64 (pos 0) (ones rs) ≡ pos (length rs)
number rs lt = sum64-ones 0 rs (omega arith) ∙ ap pos (omega arith)

sums-cons :
    (agg : Aggregate) (r : Record) (rs : List Record) → sums agg (r ∷ rs) ≡ sums (count r agg) rs
unfolding sum64 ones count inc64
sums-cons agg r rs = elim (Bool-cases r.usage_known) [ inl e ↦ rw e refl | inr e ↦ rw e refl ]

sums-cons_of_provider :
    (agg : Aggregate) (r : Record) (rs : List Record)
    → sums agg (r ∷ rs) ≡ sums (count_of_provider r agg) rs
unfolding sum64 ones count_of_provider inc64
sums-cons_of_provider agg r rs = elim (Bool-cases r.usage_known) [
  | inl e ↦ rw e refl
  | inr e ↦ rw e refl
]

sums-totals : (rs : List Record) → length rs < 9223372036854775808 → sums no_calls rs ≡ totals rs
sums-totals rs lt = cc (
  number rs lt,
  number (keep known rs) (omega (arith, length-keep-le known rs)),
  number (keep unknown rs) (omega (arith, length-keep-le unknown rs)),
  sum64_lem (map (λ r. r.prompt_tokens) (keep known rs)),
  sum64_lem (map (λ r. r.completion_tokens) (keep known rs)),
  sum64_lem (map (λ r. r.total_tokens) (keep known rs)),
)

aggregate_from-sums : (agg : Aggregate) (rs : List Record) → aggregate_from agg rs ≡ sums agg rs
unfolding aggregate_from sum64 ones
aggregate_from-sums agg [] = refl
aggregate_from-sums agg (r ∷ rs) = aggregate_from-sums (count r agg) rs ∙ sym (sums-cons agg r rs)

blank_name :
    (p name : String)
    → str_eq name "" ≡ true
    → (not (str_eq p "") && str_eq p name || str_eq p "unknown" && str_eq name "")
      ≡ str_eq p (named name)
blank_name p name blank = rw ((eq_iff name "").0 blank) (elim (Bool-cases (str_eq p "")) [
  | inl e ↦ rw ((eq_iff p "").0 e) refl
  | inr e ↦ rw e (ground arith)
])

given_name :
    (p name : String)
    → str_eq name "" ≡ false
    → (not (str_eq p "") && str_eq p name || str_eq p "unknown" && str_eq name "")
      ≡ str_eq p (named name)
given_name p name given = elim (Bool-cases (str_eq p "")) [
  | inl e ↦ rw ((eq_iff p "").0 e) (ground (arith, eq_iff "" name, eq_iff name ""))
  | inr e ↦ rw (e, given) (ground arith)
]

goes_by-provider_of : (p : String) (r : Record) → goes_by p r ≡ str_eq p (provider_of r)
unfolding provider_of
goes_by-provider_of p r = elim (Bool-cases (str_eq (trim_space r.provider) "")) [
  | inl blank ↦ blank_name p (trim_space r.provider) blank
  | inr given ↦ given_name p (trim_space r.provider) given
]

get-breakdown_from :
    (out : Dict Aggregate) (rs : List Record) (p : String)
    → or_no_calls (get (breakdown_from out rs) p)
      ≡ sums (or_no_calls (get out p)) (keep (goes_by p) rs)
unfolding breakdown_from sum64 ones
get-breakdown_from out [] p = refl
get-breakdown_from out (r ∷ rs) p =
    let summed = count_of_provider r (or_no_calls (get out (provider_of r))) in
    let rest =
      get-breakdown_from (put out (provider_of r) summed) rs p
      ∙ ap (λ o. sums (or_no_calls o) (keep (goes_by p) rs))
          (get-put out (provider_of r) p summed) in
    elim (Bool-cases (str_eq p (provider_of r))) [
      | inl same ↦ rw (goes_by-provider_of p r ∙ same) (
          (rw same at rest)
          ∙ ap (λ q. sums (count_of_provider r (or_no_calls (get out q))) (keep (goes_by p) rs))
              (sym ((eq_iff p (provider_of r)).0 same))
          ∙ sym (sums-cons_of_provider (or_no_calls (get out p)) r (keep (goes_by p) rs)))
      | inr other ↦ rw (goes_by-provider_of p r ∙ other) (rw other at rest)
    ]

-- Below 2 ^ 63 records, the sum of them, and the entry of a provider in the breakdown, zero when there is
-- none, count all the records, or those of that provider, those of them whose usage is known and the others,
-- and add up the three kinds of tokens of the known ones, modulo 2 ^ 64; a blank name is that of the provider "unknown".
pub provider_breakdown-totals :
    (rs : List Record) (p : String)
    → length rs < 9223372036854775808
    → (aggregate_records rs ≡ totals rs)
      × (or_no_calls (get (provider_breakdown rs) p) ≡ totals (keep (goes_by p) rs))
unfolding provider_breakdown aggregate_records get
provider_breakdown-totals rs p lt = (
  aggregate_from-sums no_calls rs ∙ sums-totals rs lt,
  get-breakdown_from [] rs p
      ∙ sums-totals (keep (goes_by p) rs) (omega (arith, length-keep-le (goes_by p) rs)),
)
