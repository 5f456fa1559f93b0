-- ===== src/Tests/Metrics.antt =====
-- The statistics at concrete inputs.
use reclient.Prelude.{◌≤◌, ◌^◌, ◌≡◌, true, false, none, some, List, [], ◌∷◌, arith, ◌↔◌}
use reclient.Prelude.Int.{pos, negsuc, bits, half64}
use reclient.Prelude.Maps.{string_eq}
use reclient.Stats.{Stat, Outlier, empty_stat}
use reclient.Stats.Messages.{LogRecord}
use reclient.Stats.Summary.{summarize}
use reclient.Stats.Ranks.{IsSummary, summarize-IsSummary}
use reclient.Stats.Bandwidth.{in_unit, human_readable_bytes}
use reclient.Stats.Units.{human_readable_bytes_lem}
use reclient.Stats.Outliers.{add_values, add_values_lem}
use reclient.Stats.Apart.{subtree, own, subtree-add_records}
use reclient.Stats.Collector.{Stats, new, add_records}

abbrev three_values : List Outlier
three_values =
    record { command_id = "a"; value = pos 5 }
    ∷ record { command_id = "b"; value = pos 0 }
    ∷ record { command_id = "c"; value = pos 9 }
    ∷ []

abbrev compiled : LogRecord
compiled = record {
  command_id = "a";
  invocation_id = "build";
  result = some (record { status = "CACHE_HIT" });
  remote_metadata = none;
  local_metadata = some (record {
    result = none;
    executed_locally = true;
    valid_cache_hit = false;
    updated_cache = false;
    verification = none;
    event_times = [];
    rerun_metadata = [];
    labels = ("type", "compile") ∷ [];
  });
  completion_status = "STATUS_CACHE_HIT";
}

abbrev three_times : Stat
three_times = record empty_stat { raw_values = pos 7 ∷ negsuc 0 ∷ pos 4 ∷ [] }

add_values_lem_example :
    ((add_values three_values false empty_stat).outlier1
      ≡ some (record { command_id = "c"; value = pos 9 }))
    × ((add_values three_values false empty_stat).outlier2
        ≡ some (record { command_id = "a"; value = pos 5 }))
    × ((add_values three_values false empty_stat).raw_values ≡ pos 5 ∷ pos 0 ∷ pos 9 ∷ [])
    × (bits half64 (add_values three_values false empty_stat).count ≡ 14)
add_values_lem_example = add_values_lem three_values false

summarize-IsSummary_example :
    (s : Stat) × (summarize three_times ≡ some s) × IsSummary three_times.raw_values s
summarize-IsSummary_example = summarize-IsSummary three_times (omega arith)

human_readable_bytes_lem_example :
    (human_readable_bytes (pos 1234567) ≡ some (in_unit 1234567 1000000 "M"))
    × ((human_readable_bytes (pos 1234567) ≡ none) ↔ (1000 ^ 5 ≤ 1234567))
human_readable_bytes_lem_example =
    human_readable_bytes_lem 1234567 1 (omega arith) (omega arith) (omega arith)

subtree-add_records_example :
    subtree "[type=compile]" (add_records (compiled ∷ compiled ∷ []) new).tree
    ≡ own "[type=compile]" (compiled ∷ compiled ∷ []) none
subtree-add_records_example = subtree-add_records "[type=compile]" (compiled ∷ compiled ∷ [])
