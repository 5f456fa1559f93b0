-- ===== src/Tools.antt =====
-- internal/pkg/inputprocessor/action: what the parsers of the tools' command lines share, and the
-- parsers of d8 and r8 (d8/flagsparser.go, r8/flagsparser.go).
pub mod Clang
pub mod Tables
pub mod Javac
pub mod Link
pub mod Metalava
pub mod HeaderAbi
pub mod Fuel
use reclient.Prelude.{
  ℕ, suc, Bool, true, false, String, Option, none, some, List, [], ◌∷◌, ◌++◌, map, str_eq,
  if◌then◌else◌, length, ◌||◌,
}
use reclient.Prelude.Int.{ℤ, pos}
use reclient.Prelude.Maps.{Map}
use reclient.Prelude.Text.{split_at_char}
use reclient.Prelude.Result.{Result, ok, err, panic, ◌>>=◌}
use reclient.Args.{Scanner, FlagResult, PrefixOption, no_result, has_next, read_next_flag}
use reclient.Flags.{Flag, value_flag, CommandFlags, no_flags}
use reclient.Rsp.{scan_all, read_and_handle, reading}

pub data ToolError : Type 0 where
  insufficient_arguments bad_extension unreadable_imports unreadable_rsp : ToolError

abbrev pub tool_scanner : List String → Map String ℤ → List PrefixOption → Scanner
tool_scanner args flags joined = record {
  args = args;
  flags = flags;
  joined = joined;
  normalized = [];
  prev_result = no_result;
  cur_result = no_result;
}

-- the fields that every parser sets first
abbrev pub command_of : String → String → String → CommandFlags
command_of executable working_dir exec_root = record no_flags {
  executable_path = executable;
  working_directory = working_dir;
  exec_root = exec_root;
}

abbrev pub add_dependencies : CommandFlags → List String → CommandFlags
add_dependencies f ds = record f { dependencies = f.dependencies ++ ds }

abbrev pub add_output_file : CommandFlags → String → CommandFlags
add_output_file f o = record f { output_file_paths = f.output_file_paths ++ o ∷ [] }

abbrev pub add_output_dir : CommandFlags → String → CommandFlags
add_output_dir f o = record f { output_dir_paths = f.output_dir_paths ++ o ∷ [] }

abbrev pub add_flags : CommandFlags → List String → CommandFlags
add_flags f vs = record f { flags = f.flags ++ map value_flag vs }

-- `values[0]` and `args[0]`
abbrev pub with_first : List String → (String → CommandFlags) → Result ToolError CommandFlags
with_first [] use_it = panic
with_first (v ∷ vs) use_it = ok (use_it v)

-- the last argument, and those before it
unfoldable pub split_last : String → List String → List String × String
split_last a [] = ([], a)
split_last a (b ∷ bs) = let rest = split_last b bs in (a ∷ rest.0, rest.1)

abbrev pub colon : ℕ
colon = b':'

abbrev d8_flags : Map String ℤ
d8_flags = ("--lib", pos 1) ∷ ("--main-dex-list", pos 1) ∷ ("--output", pos 1) ∷ []

abbrev d8_joined : List PrefixOption
d8_joined = record { prefix = "--main-dex-list="; num_args = pos 0 } ∷ []

-- one flag of d8
unfoldable pub handle_d8_flag : FlagResult → CommandFlags → Result ToolError CommandFlags
handle_d8_flag r f =
    if str_eq r.normalized_key "--lib"
      || str_eq r.normalized_key "--main-dex-list"
      || str_eq r.normalized_key "--main-dex-list="
    then with_first r.values (λ v. add_dependencies f (v ∷ []))
    else if str_eq r.normalized_key "--output"
    then with_first r.values (λ v. add_output_dir f v)
    else with_first r.args (λ a. add_flags f (a ∷ []))

-- parseFlags of d8
unfoldable pub parse_d8_flags : List String → String → String → Result ToolError CommandFlags
parse_d8_flags [] working_dir exec_root = err insufficient_arguments
parse_d8_flags (c ∷ []) working_dir exec_root = err insufficient_arguments
parse_d8_flags (c ∷ (a ∷ rest_args)) working_dir exec_root =
    let parts = split_last a rest_args in
    scan_all (read_and_handle (reading handle_d8_flag)) (length parts.0)
      (tool_scanner parts.0 d8_flags d8_joined)
      (record (command_of c working_dir exec_root) { target_file_paths = parts.1 ∷ [] })

abbrev r8_flags : Map String ℤ
r8_flags =
    ("-libraryjars", pos 1)
    ∷ ("-include", pos 1)
    ∷ ("--output", pos 1)
    ∷ ("--main-dex-list", pos 1)
    ∷ ("-printmapping", pos 1)
    ∷ ("-printconfiguration", pos 1)
    ∷ ("-injars", pos 1)
    ∷ []

abbrev r8_joined : List PrefixOption
r8_joined = record { prefix = "--main-dex-list="; num_args = pos 0 } ∷ []

-- one flag of r8
unfoldable pub handle_r8_flag : FlagResult → CommandFlags → Result ToolError CommandFlags
handle_r8_flag r f =
    if str_eq r.normalized_key "-libraryjars" || str_eq r.normalized_key "-include"
    then with_first r.values (λ v. add_dependencies f (split_at_char colon v))
    else if str_eq r.normalized_key "--output"
    then with_first r.values (λ v. add_output_dir f v)
    else if str_eq r.normalized_key "--main-dex-list=" || str_eq r.normalized_key "--main-dex-list"
    then with_first r.values (λ v. add_dependencies f (v ∷ []))
    else if str_eq r.normalized_key "-printmapping" || str_eq r.normalized_key "-printconfiguration"
    then with_first r.values (λ v. add_output_file f v)
    else if str_eq r.normalized_key "-injars"
    then with_first r.values (λ v. record f { target_file_paths = f.target_file_paths ++ v ∷ [] })
    else with_first r.args (λ a. add_flags f (a ∷ []))

-- parseFlags of r8
unfoldable pub parse_r8_flags : List String → String → String → Result ToolError CommandFlags
parse_r8_flags [] working_dir exec_root = err insufficient_arguments
parse_r8_flags (c ∷ []) working_dir exec_root = err insufficient_arguments
parse_r8_flags (c ∷ (a ∷ rest_args)) working_dir exec_root =
    scan_all (read_and_handle (reading handle_r8_flag)) (length (a ∷ rest_args))
      (tool_scanner (a ∷ rest_args) r8_flags r8_joined) (command_of c working_dir exec_root)
