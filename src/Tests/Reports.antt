-- ===== src/Tests/Reports.antt =====
-- The reports of compare mode at concrete inputs.
use reclient.Prelude.{
  ◌≡◌, ◌≢◌, ◌↔◌, ◌⊎◌, refl, true, false, String, some, List, [], ◌∷◌, ◌≤◌, ◌<◌, arith, length,
}
use reclient.Prelude.Int.{pos}
use reclient.Prelude.Maps.{string_eq}
use reclient.Compare.{
  int_eq, Compared, Rerun, Verification, compare_action, found, compare_values, Reruns,
  dedup_values, exit_codes, mismatches_to_proto, judge_all, deterministic, non_deterministic,
  remote_non_deterministic,
}
use reclient.Compare.Status.{several_values_iff, unlogged_iff}
use reclient.Prelude.{str_eq, if◌then◌else◌}
use reclient.Prelude.Sort.Order.{count_if}
use reclient.Compare.Outputs.{is_output}
use reclient.Compare.Counts.{compare_action-Totals}

abbrev rerun_with : String → Rerun
rerun_with digest = record {
  output_file_digests = ("a.o", digest) ∷ [];
  output_directory_digests = [];
  exit_code = pos 0;
}

abbrev rerun_twice : Compared
rerun_twice = record {
  compare = true;
  digest = "act";
  num_local_reruns = 1;
  num_remote_reruns = 2;
  local_reruns = rerun_with "x" ∷ [];
  remote_reruns = some (rerun_with "x" ∷ (rerun_with "y" ∷ []));
}

abbrev twice_reruns : Reruns
twice_reruns = record {
  num_local = 1;
  num_remote = 2;
  local_exit_codes = dedup_values (exit_codes (rerun_with "x" ∷ []));
  remote_exit_codes = dedup_values (exit_codes (rerun_with "x" ∷ (rerun_with "y" ∷ [])));
}

abbrev twice_report : Verification
twice_report =
    mismatches_to_proto (judge_all twice_reruns (found rerun_twice).0) (found rerun_twice).1

compare_action-Totals_example :
    (twice_report.total_mismatches ≡ length twice_report.mismatches)
    × (twice_report.total_mismatches ≤ twice_report.total_verified)
    × ((paths : List String) × (twice_report.total_verified ≡ length paths)
        × ((k : String) → count_if (str_eq k) paths ≡ (if is_output k rerun_twice then 1 else 0)))
unfolding compare_action
compare_action-Totals_example = compare_action-Totals rerun_twice twice_report refl

abbrev one : List String
one = "x" ∷ []

abbrev two : List String
two = "x" ∷ ("y" ∷ [])

several_values_iff_example :
    (((compare_values one two 1 2).0 ≡ remote_non_deterministic)
      ↔ ((length one ≡ 1) × (1 < length two)))
    × (((compare_values one two 1 2).0 ≡ non_deterministic)
        ↔ ((length one ≢ 1) × ((1 < length one) ⊎ (1 < length two))))
several_values_iff_example = several_values_iff one two 1 2

unlogged_iff_example :
    (((compare_values one one 1 2).1 ≡ false) ↔ ((x : String) × (one ≡ x ∷ []) × (one ≡ x ∷ [])))
    × ((compare_values one one 1 2 ≡ (deterministic, false))
        ↔ ((x : String) × (one ≡ x ∷ []) × (one ≡ x ∷ [])))
unlogged_iff_example = unlogged_iff one one 1 2 (omega arith) (omega arith)
