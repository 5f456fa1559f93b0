-- ===== src/Tests/Commands.antt =====
-- Command lines and labels at concrete inputs.
use reclient.Prelude.{◌≡◌, refl, false, some, [], ◌∷◌}
use reclient.Prelude.Int.{pos}
use reclient.Prelude.Result.{ok, err}
use reclient.Args.{Scanner, FlagResult, no_result, read_next_flag, look_ahead}
use reclient.Args.Consume.{Takes, read_next_flag-Takes}
use reclient.Args.Ahead.{look_ahead-read_next_flag}
use reclient.Flags.{no_flags, command_flags, no_command}
use reclient.Flags.Plain.{all_plain_flags, command_flags_lem}
use reclient.Labels.{from_map, to_map}
use reclient.Labels.Kinds.{clang_cpp_labels}
use reclient.Labels.RoundTrip.{from_map-to_map}

abbrev compile_line : Scanner
compile_line = record {
  args = "-o" ∷ ("a.o" ∷ ("a.cc" ∷ []));
  flags = ("-o", pos 1) ∷ [];
  joined = [];
  normalized = [];
  prev_result = no_result;
  cur_result = no_result;
}

abbrev output_flag : FlagResult
output_flag = record {
  args = "-o" ∷ ("a.o" ∷ []);
  normalized_key = "-o";
  original_key = "-o";
  values = "a.o" ∷ [];
  joined = false;
}

abbrev after_output : Scanner
after_output = record compile_line { args = "a.cc" ∷ []; cur_result = output_flag }

reads_output : read_next_flag compile_line ≡ some (output_flag, after_output)
unfolding read_next_flag
reads_output = refl

read_next_flag-Takes_example : Takes compile_line output_flag after_output
read_next_flag-Takes_example =
    read_next_flag-Takes compile_line output_flag after_output reads_output

look_ahead-read_next_flag_example :
    (look_ahead compile_line ≡ some ("-o", record after_output { args = compile_line.args }))
    × (read_next_flag (record after_output { args = compile_line.args })
        ≡ some (output_flag, record after_output { prev_result = output_flag }))
look_ahead-read_next_flag_example =
    look_ahead-read_next_flag compile_line output_flag after_output reads_output

command_flags_lem_example :
    (command_flags [] "out" "/root" ≡ err no_command)
    × (command_flags ("clang" ∷ ("-c" ∷ ("a.cc" ∷ []))) "out" "/root"
        ≡ ok (record no_flags {
          executable_path = "clang";
          working_directory = "out";
          exec_root = "/root";
          flags = all_plain_flags ("-c" ∷ ("a.cc" ∷ []));
        }))
command_flags_lem_example = command_flags_lem "clang" ("-c" ∷ ("a.cc" ∷ [])) "out" "/root"

from_map-to_map_example : from_map (to_map clang_cpp_labels) ≡ clang_cpp_labels
from_map-to_map_example = from_map-to_map clang_cpp_labels
