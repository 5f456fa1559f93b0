-- ===== src/Forecast/Samples.antt =====
-- The type `dataset` of forecast.go: a ring of samples, and a sorted copy of it.
use reclient.Prelude.{
  ℕ, ◌+◌, ◌*◌, ◌/◌, ◌%◌, Option, none, some, List, [], ◌∷◌, length, get_elem?, set, take, ltb,
  if◌then◌else◌,
}
use reclient.Prelude.Int.{ℤ, pos, negsuc, leb_ℤ}
use reclient.Prelude.Sort
use reclient.Prelude.Result.{Result, err, or_panic}

pub record Dataset : Type 0 where
  pub data_points : List ℤ
  pub head : ℕ
  pub curr_size : ℕ
  pub min_size_for_stats : ℕ
  pub sorted_data : List ℤ

-- the three assignments of insert
unfoldable pub inserted : Dataset → ℤ → Dataset
inserted d v = record d {
  data_points = set d.data_points d.head v;
  head = (d.head + 1) % length d.data_points;
  curr_size =
      if ltb (length d.data_points) (d.curr_size + 1)
      then length d.data_points
      else d.curr_size + 1;
}

-- insert; a head out of range panics
unfoldable pub insert : Dataset → ℤ → Option Dataset
unfolding inserted
insert d v = if ltb d.head (length d.data_points) then some (inserted d v) else none

-- sort
unfoldable pub sort : Dataset → Dataset
unfolding Sort.sort
sort d =
    if ltb d.curr_size d.min_size_for_stats
    then d
    else record d { sorted_data = Sort.sort leb_ℤ (take d.curr_size d.data_points) }

pub data PercentileError : Type 0 where
  out_of_range not_computed : PercentileError

-- the element at `len*p/100`
unfoldable pub rank_of : List ℤ → ℕ → Result PercentileError ℤ
rank_of [] p = err not_computed
rank_of (x ∷ xs) p = or_panic (get_elem? (x ∷ xs) (length (x ∷ xs) * p / 100))

-- percentile
unfoldable pub percentile : Dataset → ℤ → Result PercentileError ℤ
unfolding rank_of
percentile d (negsuc n) = err out_of_range
percentile d (pos p) = if ltb 100 p then err out_of_range else rank_of d.sorted_data p
