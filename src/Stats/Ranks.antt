-- ===== src/Stats/Ranks.antt =====
-- What summarize computes of a series of values.
use reclient.Prelude.{
  ℕ, ◌*◌, ◌/◌, ◌<◌, ◌≤◌, ◌≡◌, refl, true, not, some, List, [], ◌∷◌, length, get_elem?,
  get_elem?-some, arith,
}
use reclient.Prelude.Int.{ℤ, leb_ℤ, leb_ℤ_trans, leb_ℤ_total}
use reclient.Prelude.Sort
use reclient.Prelude.Sort.Order.{
  count_if, count_if-sort, length-sort, sort-IsSorted, rank, get_elem?-mono,
}
use reclient.Stats.{Stat}
use reclient.Stats.Summary.{summarize, summarize_values, summarized}

-- At most `k` of the values are less than `x`, and more than `k` are at most `x`.
abbrev pub HasRank : ℕ → ℤ → List ℤ → Type 0
HasRank k x vs = (count_if (λ y. not (leb_ℤ x y)) vs ≤ k) × (k < count_if (λ y. leb_ℤ y x) vs)

abbrev At : List ℤ → ℕ → Type 0
At vs k = (x : ℤ) × (get_elem? (Sort.sort leb_ℤ vs) k ≡ some x) × HasRank k x vs

ranked : (vs : List ℤ) (k : ℕ) → k < length vs → At vs k
ranked vs k h =
    let sorted = Sort.sort leb_ℤ vs in
    let (x, found) = get_elem?-some sorted k (omega (arith, length-sort leb_ℤ vs)) in
    let (less, more) =
      rank leb_ℤ leb_ℤ_trans leb_ℤ_total sorted k (sort-IsSorted leb_ℤ leb_ℤ_trans leb_ℤ_total vs)
        found in
    (
      x,
      found,
      (
        omega (arith, less, count_if-sort leb_ℤ (λ y. not (leb_ℤ x y)) vs),
        omega (arith, more, count_if-sort leb_ℤ (λ y. leb_ℤ y x) vs),
      ),
    )

in_order :
    (vs : List ℤ) (i j : ℕ) (x y : ℤ)
    → i ≤ j
    → get_elem? (Sort.sort leb_ℤ vs) i ≡ some x
    → get_elem? (Sort.sort leb_ℤ vs) j ≡ some y
    → leb_ℤ x y ≡ true
in_order vs i j x y le e f =
    get_elem?-mono leb_ℤ leb_ℤ_trans leb_ℤ_total (Sort.sort leb_ℤ vs) i j
      (sort-IsSorted leb_ℤ leb_ℤ_trans leb_ℤ_total vs) le e f

-- The percentiles of a metric are percentiles, by rank, of the values, and they are in order.
pub record IsSummary (vs : List ℤ) (s : Stat) : Type 0 where
  pub median : HasRank (length vs / 2) s.median vs
  pub percentile75 : HasRank (length vs * 3 / 4) s.percentile75 vs
  pub percentile85 : HasRank (length vs * 17 / 20) s.percentile85 vs
  pub percentile95 : HasRank (length vs * 19 / 20) s.percentile95 vs
  pub order75 : leb_ℤ s.median s.percentile75 ≡ true
  pub order85 : leb_ℤ s.percentile75 s.percentile85 ≡ true
  pub order95 : leb_ℤ s.percentile85 s.percentile95 ≡ true

summarized-IsSummary :
    (st : Stat) (vs : List ℤ)
    → 0 < length vs
    → (s : Stat) × (summarized st (Sort.sort leb_ℤ vs) (length vs) ≡ some s) × IsSummary vs s
unfolding summarized
summarized-IsSummary st vs h =
    let n = length vs in
    let (p50, e50, r50) = ranked vs (n / 2) (omega arith) in
    let (p75, e75, r75) = ranked vs (n * 3 / 4) (omega arith) in
    let (p85, e85, r85) = ranked vs (n * 17 / 20) (omega arith) in
    let (p95, e95, r95) = ranked vs (n * 19 / 20) (omega arith) in
    rw (e50, e75, e85, e95)
      (
        _,
        refl,
        record {
          median = r50;
          percentile75 = r75;
          percentile85 = r85;
          percentile95 = r95;
          order75 = in_order vs (n / 2) (n * 3 / 4) p50 p75 (omega arith) e50 e75;
          order85 = in_order vs (n * 3 / 4) (n * 17 / 20) p75 p85 (omega arith) e75 e85;
          order95 = in_order vs (n * 17 / 20) (n * 19 / 20) p85 p95 (omega arith) e85 e95;
        },
      )

summarize_values-IsSummary :
    (st : Stat) (vs : List ℤ)
    → 0 < length vs
    → (s : Stat) × (summarize_values st vs ≡ some s) × IsSummary vs s
unfolding summarize_values
summarize_values-IsSummary st [] h = absurd (omega arith)
summarize_values-IsSummary st (v ∷ vs) h = summarized-IsSummary st (v ∷ vs) h

pub summarize_values-total :
    (st : Stat) (vs : List ℤ) → (s : Stat) × (summarize_values st vs ≡ some s)
unfolding summarize_values
summarize_values-total st [] = (st, refl)
summarize_values-total st (v ∷ vs) =
    let (s, found, _) = summarized-IsSummary st (v ∷ vs) (omega arith) in (s, found)

-- A metric with any values is summarised without a panic, its percentiles are in order, and each
-- is a percentile, by rank, of the values: with `n` values at most `n / 2` are less than the median
-- and more are at most it, and so for the others with `n * 3 / 4`, `n * 17 / 20` and `n * 19 / 20`.
pub summarize-IsSummary :
    (st : Stat)
    → 0 < length st.raw_values
    → (s : Stat) × (summarize st ≡ some s) × IsSummary st.raw_values s
summarize-IsSummary st h = summarize_values-IsSummary st st.raw_values h
