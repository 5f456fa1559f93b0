-- ===== src/Tests/Caches.antt =====
-- The dependency cache and the forecast at concrete inputs.
use reclient.Prelude.{
  ℕ, ◌≡◌, ◌≢◌, ◌↔◌, if◌then◌else◌, refl, true, none, some, List, [], ◌∷◌, ◌≤◌, ◌<◌, arith, length,
  not, ◌++◌, ◌*◌, ◌/◌, str_eq,
}
use reclient.Prelude.Int.{ℤ, pos, leb_ℤ}
use reclient.Prelude.Maps.{lookup, string_eq}
use reclient.Prelude.Result.{ok, panic}
use reclient.Prelude.FilePath.{is_abs}
use reclient.Prelude.Sort.{sort}
use reclient.Prelude.Sort.Order.{count_if}
use reclient.DepsCache.{Key, key_eq, key_beq, Cache, full_key, get_deps, set_deps, new_cache}
use reclient.DepsCache.Files.{FileInfo, Digests}
use reclient.DepsCache.Disk.{or_zero, write_to_disk, load_from_dir, sorted_keys, last_use}
use reclient.DepsCache.Held.{all_held, is_in, written, kept_by}
use reclient.DepsCache.RoundTrip.{load_from_dir-write_to_disk}
use reclient.DepsCache.Newest.{written_newest}
use reclient.DepsCache.Answers.{IsCurrent, answer_for, info_for, get_deps_lem}
use reclient.DepsCache.Stored.{get_deps-set_deps}
use reclient.DepsCache.Loads.{AllCurrent}
use reclient.DepsCache.Runs.{calls, load_dir, get, set, write, calls-AllCurrent}
use reclient.Forecast.{Forecast, Sample}
use reclient.Forecast.Samples.{Dataset}
use reclient.Forecast.Samples
use reclient.Forecast.Window.{Window, full}
use reclient.Forecast.Rank.{percentile-panic_iff, percentile_rank}
use reclient.Forecast.History.{
  IsTracked, IsTracked-empty, no_arrivals, run, sample, ticked, arrivals_of, run-IsTracked,
}

abbrev two_files : Digests
two_files path =
    if str_eq path "/src/a.cc"
    then some (record { digest = "d1"; mtime = 3 })
    else if str_eq path "/src/a.h"
    then some (record { digest = "d2"; mtime = 4 })
    else none

abbrev source_key : Key
source_key = record {
  command_digest = "cmd";
  src_file_path = "/src/a.cc";
  src_file_min_digest = "";
}

abbrev other_key : Key
other_key = record {
  command_digest = "other";
  src_file_path = "/src/a.cc";
  src_file_min_digest = "d1";
}

abbrev recorded : FileInfo
recorded = record { abs_path = "/src/a.h"; digest = "d2"; mtime = 1 }

abbrev two_entries : Cache
two_entries = record {
  max_entries = 1;
  reclient_version = "v1";
  deps_cache = (full_key source_key recorded, []) ∷ ((other_key, recorded ∷ []) ∷ []);
  files_cache = [];
  lut_by_key = (full_key source_key recorded, 5) ∷ ((other_key, 9) ∷ []);
  ready = true;
}

IsCurrent-at_first : IsCurrent two_files []
unfolding lookup
IsCurrent-at_first p k h u = ground arith

load_from_dir-write_to_disk_example :
    all_held (load_from_dir (some (write_to_disk two_entries).0) (new_cache 3 "v1")) other_key
    ≡ some (
        if is_in other_key (written 1 0 (sorted_keys two_entries))
        then kept_by two_entries other_key
        else (none, none))
load_from_dir-write_to_disk_example = load_from_dir-write_to_disk two_entries 3 other_key

written_newest_example :
    last_use two_entries (full_key source_key recorded) ≤ last_use two_entries other_key
unfolding lookup sorted_keys key_beq sort or_zero
written_newest_example =
    written_newest two_entries (full_key source_key recorded) other_key [] refl refl refl

get_deps_lem_example :
    (get_deps two_files 7 two_entries other_key).0
    ≡ answer_for two_files two_entries other_key (info_for "/src/a.cc" (two_files "/src/a.cc"))
get_deps_lem_example = get_deps_lem two_files 7 two_entries other_key IsCurrent-at_first refl

get_deps-set_deps_example :
    ((set_deps two_files 6 two_entries source_key ("/src/a.h" ∷ [])).0 ≡ none)
    × ((get_deps two_files 8
          (set_deps two_files 6 two_entries source_key ("/src/a.h" ∷ [])).1
          source_key).0
        ≡ some ("/src/a.h" ∷ []))
unfolding is_abs
get_deps-set_deps_example =
    get_deps-set_deps two_files 6 8 two_entries source_key ("/src/a.h" ∷ [])
      (record { digest = "d1"; mtime = 3 }) IsCurrent-at_first refl refl refl

calls-AllCurrent_example : AllCurrent two_files (
    calls two_files
      (load_dir none ∷ (set 2 source_key ("/src/a.h" ∷ []) ∷ (get 3 source_key ∷ (write ∷ []))))
      (new_cache 3 "v1"))
calls-AllCurrent_example =
    calls-AllCurrent two_files
      (load_dir none ∷ (set 2 source_key ("/src/a.h" ∷ []) ∷ (get 3 source_key ∷ (write ∷ [])))) 3
      "v1"

abbrev ring : Dataset
ring = record {
  data_points = pos 3 ∷ (pos 1 ∷ (pos 2 ∷ []));
  head = 1;
  curr_size = 3;
  min_size_for_stats = 2;
  sorted_data = [];
}

abbrev ring_samples : List ℤ
ring_samples = pos 9 ∷ (pos 1 ∷ (pos 2 ∷ (pos 3 ∷ [])))

ring-Window : Window ring_samples ring
ring-Window = full (pos 3 ∷ []) (pos 1 ∷ (pos 2 ∷ [])) (pos 9 ∷ []) (λ e. cc) refl refl refl refl

abbrev hundred : ℕ
hundred = 100

percentile-panic_iff_example :
    (Samples.percentile (Samples.sort ring) (pos 100) ≡ panic)
    ↔ ((hundred ≡ 100) × ((Samples.sort ring).sorted_data ≢ []))
percentile-panic_iff_example = percentile-panic_iff (Samples.sort ring) 100

percentile_rank_example :
    (x : ℤ) × (forgotten : List ℤ) × (recent : List ℤ) × (Samples.percentile
        (Samples.sort ring)
        (pos 50)
      ≡ ok x)
    × (ring_samples ≡ forgotten ++ recent)
    × (length recent ≡ 3)
    × (count_if (λ y. not (leb_ℤ x y)) recent ≤ 3 * 50 / 100)
    × (3 * 50 / 100 < count_if (λ y. leb_ℤ y x) recent)
percentile_rank_example =
    percentile_rank ring_samples ring 50 ring-Window (omega arith) (omega arith) (omega arith)

abbrev no_forecast : Forecast
no_forecast = record { download_latencies = []; min_size_for_stats = 0 }

abbrev compile_sample : Sample
compile_sample = record { lbls = ("type", "compile") ∷ []; download = some (pos 12) }

run-IsTracked_example :
    (g : Forecast) × (run (some no_forecast) (sample compile_sample ∷ (ticked ∷ [])) ≡ some g)
    × IsTracked (arrivals_of no_arrivals (sample compile_sample ∷ (ticked ∷ []))) g
run-IsTracked_example =
    run-IsTracked no_arrivals no_forecast (sample compile_sample ∷ (ticked ∷ []))
      (IsTracked-empty 0)
