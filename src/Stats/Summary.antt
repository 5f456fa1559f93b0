-- ===== src/Stats/Summary.antt =====
-- stats.go: the percentiles of a series of numbers, and the message for one metric. The average is
-- kept as the sum, which float64 rounds, and the number of values.
use reclient.Prelude.{
  ◌>>=◌, ℕ, ◌*◌, ◌/◌, Bool, String, Option, none, some, List, [], ◌∷◌, ◌++◌, length, get_elem?,
}
use reclient.Prelude.Int.{ℤ, pos, leb_ℤ, ◌+ℤ◌}
use reclient.Prelude.Maps.{Map}
use reclient.Prelude.Sort
use reclient.Prelude.Sort.Texts.{string_leb}
use reclient.Stats.{Stat, Outlier, empty_stat}

unfoldable pub total : List ℤ → ℤ
total [] = pos 0
total (v ∷ vs) = v +ℤ total vs

abbrev average_of : List ℤ → Option (ℤ × ℕ)
average_of vs = some (total vs, length vs)

-- summarize of a series in order, of n values at least one; an index out of range panics
unfoldable pub summarized : Stat → List ℤ → ℕ → Option Stat
summarized st vals n = do
  p50 ← get_elem? vals (n / 2)
  p75 ← get_elem? vals (n * 3 / 4)
  p85 ← get_elem? vals (n * 17 / 20)
  p95 ← get_elem? vals (n * 19 / 20)
  some (record st {
    raw_values = vals;
    median = p50;
    percentile75 = p75;
    percentile85 = p85;
    percentile95 = p95;
    average = average_of vals;
  })

-- summarize
unfoldable pub summarize_values : Stat → List ℤ → Option Stat
summarize_values st [] = some st
summarize_values st (v ∷ vs) = summarized st (Sort.sort leb_ℤ (v ∷ vs)) (length (v ∷ vs))

abbrev pub summarize : Stat → Option Stat
summarize st = summarize_values st st.raw_values

pub record StatMessage : Type 0 where
  pub name : String
  pub count : ℤ
  pub median : ℤ
  pub percentile75 : ℤ
  pub percentile85 : ℤ
  pub percentile95 : ℤ
  pub average : Option (ℤ × ℕ)
  pub counts_by_value : Map String ℤ
  pub outliers : List Outlier

abbrev pub listed : Option Outlier → List Outlier
listed none = []
listed (some o) = o ∷ []

abbrev pub entry_leb : String × ℤ → String × ℤ → Bool
entry_leb a b = string_leb a.0 b.0

-- statToProto
unfoldable pub stat_to_proto : String → Stat → StatMessage
stat_to_proto name s = record {
  name = name;
  count = s.count;
  median = s.median;
  percentile75 = s.percentile75;
  percentile85 = s.percentile85;
  percentile95 = s.percentile95;
  average = s.average;
  counts_by_value = Sort.sort entry_leb s.count_by_value;
  outliers = listed s.outlier1 ++ listed s.outlier2;
}

-- FromSeriesToProto
unfoldable pub from_series_to_proto : String → List ℤ → Option StatMessage
from_series_to_proto name values = do
  st ← summarize (record empty_stat { raw_values = values })
  some (stat_to_proto name st)
