-- ===== src/Forecast.antt =====
-- internal/pkg/reproxy/forecast.go: download latencies by kind of action, from recent samples.
-- Each method holds its locks throughout, so it is one step; `Run` sorts every 500 ms.
pub mod Samples
pub mod Window
pub mod Rank
pub mod History
use reclient.Prelude.{
  ℕ, ◌*◌, Bool, String, Option, none, some, List, [], ◌∷◌, map, replicate, ◌==◌, if◌then◌else◌,
}
use reclient.Prelude.Int.{ℤ, pos}
use reclient.Prelude.Maps.{Map, lookup, insert, string_eq}
use reclient.Prelude.Result.{Result, ok, err, panic}
use reclient.Labels.{to_key}
use Samples.{Dataset}

abbrev pub dataset_size : ℕ
dataset_size = 500

abbrev pub default_min_size : ℕ
default_min_size = 50

pub record Forecast : Type 0 where
  pub download_latencies : Map String Dataset
  pub min_size_for_stats : ℕ

-- What RecordSample reads of an action: its labels, and the milliseconds of `DownloadResults` in
-- the event times of the remote metadata, where there is a record with these.
pub record Sample : Type 0 where
  pub lbls : Map String String
  pub download : Option ℤ

abbrev pub with_min_size : Forecast → Forecast
with_min_size f =
    if f.min_size_for_stats == 0 then record f { min_size_for_stats = default_min_size } else f

abbrev pub new_dataset : ℕ → Dataset
new_dataset min_size = record {
  data_points = replicate dataset_size (pos 0);
  head = 0;
  curr_size = 0;
  min_size_for_stats = min_size;
  sorted_data = [];
}

-- LoadOrStore
abbrev pub or_new : Forecast → Option Dataset → Dataset
or_new f none = new_dataset f.min_size_for_stats
or_new f (some d) = d

unfoldable pub dataset_of : Forecast → Map String String → Dataset
dataset_of f lbls = or_new (with_min_size f) (lookup (to_key lbls) f.download_latencies)

-- RecordSample; `none` is a panic in `insert`
record_latency : Forecast → Map String String → Option ℤ → Option Forecast
record_latency f lbls none = some f
record_latency f lbls (some ms) = elim (Samples.insert (dataset_of f lbls) ms) [
  | none ↦ none
  | some d ↦ some (record (with_min_size f) {
    download_latencies = insert (to_key lbls) d f.download_latencies;
  })
]

unfoldable pub record_sample : Forecast → Sample → Option Forecast
unfolding record_latency
record_sample f a = record_latency f a.lbls a.download

pub data ForecastError : Type 0 where
  no_dataset : ForecastError
  percentile_error : Samples.PercentileError → ForecastError

-- PercentileDownloadLatency, in milliseconds
percentile_of : Option Dataset → ℤ → Result ForecastError ℤ
percentile_of none p = err no_dataset
percentile_of (some d) p = elim (Samples.percentile d p) [
  | ok ms ↦ ok ms
  | err e ↦ err (percentile_error e)
  | panic ↦ panic
]

unfoldable pub percentile_download_latency :
    Forecast → Map String String → ℤ → Result ForecastError ℤ
unfolding percentile_of
percentile_download_latency f lbls p = percentile_of (lookup (to_key lbls) f.download_latencies) p

abbrev pub download_percentile_cutoff : ℤ
download_percentile_cutoff = pos 90

-- A dataset sorted, and asked for the percentile that is logged.
abbrev pub if_no_panic : Dataset → Result Samples.PercentileError ℤ → Option Dataset
if_no_panic d (ok ms) = some d
if_no_panic d (err e) = some d
if_no_panic d panic = none

abbrev pub with_entry :
    String → Option Dataset → Option (Map String Dataset) → Option (Map String Dataset)
with_entry key none m = none
with_entry key (some d) none = none
with_entry key (some d) (some m) = some ((key, d) ∷ m)

unfoldable pub tick_all : Map String Dataset → Option (Map String Dataset)
tick_all [] = some []
tick_all ((key, d) ∷ m) =
    let sorted = Samples.sort d in
    with_entry key (if_no_panic sorted (Samples.percentile sorted download_percentile_cutoff))
      (tick_all m)

abbrev pub ticked_with : Forecast → Option (Map String Dataset) → Option Forecast
ticked_with f none = none
ticked_with f (some m) = some (record f { download_latencies = m })

-- one tick of Run; `none` is a panic in `percentile`
unfoldable pub tick : Forecast → Option Forecast
tick f = ticked_with f (tick_all f.download_latencies)
