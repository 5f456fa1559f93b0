-- ===== src/Forecast/Rank.antt =====
-- What the computed percentile is a percentile of.
use reclient.Prelude.{
  ℕ, zero, suc, ◌*◌, ◌/◌, ◌<◌, ◌≤◌, ◌≡◌, ◌≢◌, refl, sym, ap, ◌∙◌, ◌↔◌, Bool, some, List, [], ◌∷◌,
  ◌++◌, length, length-append, get_elem?, get_elem?-some, get_elem?-none, take, ltb, ltb→lt, arith,
  not, inl, inr, Bool-cases,
}
use reclient.Prelude.Int.{ℤ, pos, leb_ℤ, leb_ℤ_trans, leb_ℤ_total}
use reclient.Prelude.Result.{ok, panic}
use reclient.Prelude.Sort
use reclient.Prelude.Sort.Order.{
  count_if, count_if-append, count_if-sort, length-sort, sort-IsSorted, rank,
}
use reclient.Forecast.Samples.{Dataset, rank_of, out_of_range, not_computed}
use reclient.Forecast.Samples
use reclient.Forecast.Window.{Window, filling, full}

take-length : (xs ys : List ℤ) → take (length xs) (xs ++ ys) ≡ xs
take-length [] ys = refl
take-length (x ∷ xs) ys = ap (◌∷◌ x) (take-length xs ys)

take_all : (n : ℕ) (xs : List ℤ) → length xs ≡ n → take n xs ≡ xs
take_all zero [] h = refl
take_all zero (x ∷ xs) h = absurd (omega arith)
take_all (suc n) [] h = absurd (omega arith)
take_all (suc n) (x ∷ xs) h = ap (◌∷◌ x) (take_all n xs (omega arith))

-- The most recent samples that a ring holds, oldest first, and what has been forgotten.
pub record Recent (arrived : List ℤ) (d : Dataset) : Type 0 where
  pub forgotten : List ℤ
  pub recent : List ℤ
  pub splits : arrived ≡ forgotten ++ recent
  pub size : length recent ≡ d.curr_size
  pub taken : length (take d.curr_size d.data_points) ≡ d.curr_size
  pub counts : (q : ℤ → Bool) → count_if q (take d.curr_size d.data_points) ≡ count_if q recent

Window-Recent : (arrived : List ℤ) (d : Dataset) → Window arrived d → Recent arrived d
Window-Recent arrived d (filling stale ne points head size) = record {
  forgotten = [];
  recent = arrived;
  splits = refl;
  size = sym size;
  taken = rw (points, size) (ap length (take-length arrived stale));
  counts = λ q. rw (points, size) (ap (count_if q) (take-length arrived stale));
}
Window-Recent arrived d (full before from_head forgotten ne past points head size) = record {
  forgotten = forgotten;
  recent = from_head ++ before;
  splits = past;
  size = omega (arith, length-append from_head before);
  taken = rw points (
      rw
        (take_all d.curr_size (before ++ from_head) (omega (arith, length-append before from_head)))
        (omega (arith, length-append before from_head)));
  counts = λ q. rw points (
      rw
        (take_all d.curr_size (before ++ from_head) (omega (arith, length-append before from_head)))
        (omega (arith, count_if-append q before from_head, count_if-append q from_head before)));
}

rank-lt : (n p : ℕ) → 0 < n → p < 100 → n * p / 100 < n
rank-lt n p h k = let below : n * p < n * 100 = grind arith in omega arith

rank_of-ok :
    (xs : List ℤ) (p : ℕ)
    → 0 < length xs
    → p < 100
    → (x : ℤ) × (rank_of xs p ≡ ok x) × (get_elem? xs (length xs * p / 100) ≡ some x)
unfolding rank_of
rank_of-ok [] p h k = elim h [ ]
rank_of-ok (y ∷ ys) p h k =
    let (x, e) =
      get_elem?-some (y ∷ ys) (length (y ∷ ys) * p / 100) (rank-lt (length (y ∷ ys)) p h k) in
    (x, rw e, e)

rank_of-panics : (xs : List ℤ) → xs ≢ [] → rank_of xs 100 ≡ panic
unfolding rank_of
rank_of-panics [] ne = absurd (ne refl)
rank_of-panics (y ∷ ys) ne =
    rw (get_elem?-none (y ∷ ys) (length (y ∷ ys) * 100 / 100) (omega arith))

rank_of-at_100 : (xs : List ℤ) (p : ℕ) → p ≤ 100 → rank_of xs p ≡ panic → (p ≡ 100) × (xs ≢ [])
rank_of-at_100 [] p h e = absurd (unfold rank_of in cc e)
rank_of-at_100 (y ∷ ys) p h e = elim (Bool-cases (ltb p 100)) [
  | inl lt ↦
      absurd
        (let (x, found, _) = rank_of-ok (y ∷ ys) p (omega arith) (ltb→lt p 100 lt) in cc (found, e))
  | inr ge ↦ (ground arith, λ q. cc)
]

-- The call panics exactly at the percentile 100, which the guard lets through, on a dataset with
-- sorted data.
pub percentile-panic_iff :
    (d : Dataset) (p : ℕ)
    → (Samples.percentile d (pos p) ≡ panic) ↔ ((p ≡ 100) × (d.sorted_data ≢ []))
unfolding Samples.percentile
percentile-panic_iff d p = elim (Bool-cases (ltb 100 p)) [
  | inl above ↦ rw above (λ e. cc, λ h. absurd (ground (arith, h.0)))
  | inr within ↦ rw within (
    rank_of-at_100 d.sorted_data p (ground arith),
    λ h. rw h.0 (rank_of-panics d.sorted_data h.1),
  )
]

sorted-sort :
    (d : Dataset)
    → d.min_size_for_stats ≤ d.curr_size
    → (Samples.sort d).sorted_data ≡ Sort.sort leb_ℤ (take d.curr_size d.data_points)
unfolding Samples.sort
sorted-sort d enough = ground arith

percentile-ok :
    (d : Dataset) (p : ℕ) (x : ℤ)
    → p < 100
    → rank_of d.sorted_data p ≡ ok x
    → Samples.percentile d (pos p) ≡ ok x
unfolding Samples.percentile
percentile-ok d p x h e = ground arith

sorted_rank :
    (xs : List ℤ) (n p : ℕ)
    → length xs ≡ n
    → 0 < n
    → p < 100
    → (x : ℤ) × (rank_of (Sort.sort leb_ℤ xs) p ≡ ok x)
      × (count_if (λ y. not (leb_ℤ x y)) xs ≤ n * p / 100)
      × (n * p / 100 < count_if (λ y. leb_ℤ y x) xs)
sorted_rank xs n p size h k =
    let sorted = Sort.sort leb_ℤ xs in
    let (x, found, place) = rank_of-ok sorted p (omega (arith, length-sort leb_ℤ xs)) k in
    let (less, more) =
      rank leb_ℤ leb_ℤ_trans leb_ℤ_total sorted (length sorted * p / 100)
        (sort-IsSorted leb_ℤ leb_ℤ_trans leb_ℤ_total xs) place in
    let index : length sorted * p / 100 ≡ n * p / 100 =
      ap (λ t. t * p / 100) (length-sort leb_ℤ xs ∙ size) in
    (
      x,
      found,
      omega (arith, less, index, count_if-sort leb_ℤ (λ y. not (leb_ℤ x y)) xs),
      omega (arith, more, index, count_if-sort leb_ℤ (λ y. leb_ℤ y x) xs),
    )

-- Once the smallest number of samples has arrived, the percentile `p` below 100 that is computed
-- after sorting is a percentile of the most recent samples, as many as the ring holds: with
-- `k = n * p / 100`, at most `k` of these `n` are less than it and more than `k` are at most it.
pub percentile_rank :
    (arrived : List ℤ) (d : Dataset) (p : ℕ)
    → Window arrived d
    → d.min_size_for_stats ≤ d.curr_size
    → 0 < d.curr_size
    → p < 100
    → (x : ℤ) × (forgotten : List ℤ) × (recent : List ℤ) × (Samples.percentile
          (Samples.sort d)
          (pos p)
        ≡ ok x)
      × (arrived ≡ forgotten ++ recent)
      × (length recent ≡ d.curr_size)
      × (count_if (λ y. not (leb_ℤ x y)) recent ≤ d.curr_size * p / 100)
      × (d.curr_size * p / 100 < count_if (λ y. leb_ℤ y x) recent)
percentile_rank arrived d p w enough some_samples below =
    let r = Window-Recent arrived d w in
    let (x, found, less, more) =
      sorted_rank (take d.curr_size d.data_points) d.curr_size p r.taken some_samples below in
    (
      x,
      r.forgotten,
      r.recent,
      percentile-ok (Samples.sort d) p x below (rw (sorted-sort d enough) found),
      r.splits,
      r.size,
      omega (arith, less, r.counts (λ y. not (leb_ℤ x y))),
      omega (arith, more, r.counts (λ y. leb_ℤ y x)),
    )
