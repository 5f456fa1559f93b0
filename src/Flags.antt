-- ===== src/Flags.antt =====
-- internal/pkg/inputprocessor/flags/flags.go and flagsparser/flagsparser.go: what is known of an
-- action's command line, and the parser that understands no flag at all.
pub mod Plain
use reclient.Prelude.{
  ℕ, zero, suc, Bool, true, false, String, Option, none, some, List, [], ◌∷◌, ◌++◌, map, length,
  str_eq, if◌then◌else◌,
}
use reclient.Prelude.Result.{Result, ok, err, panic}
use reclient.Args.{Scanner, no_result, has_next, next, read_next_flag}

pub record Flag : Type 0 where
  pub key : String
  pub value : String
  pub joined : Bool
  pub raw_original_key : String

-- OriginalKey
unfoldable pub original_key : Flag → String
original_key f = if str_eq f.raw_original_key "" then f.key else f.raw_original_key

-- New
unfoldable pub new_flag : String → String → String → Bool → Flag
new_flag key original value joined = record {
  key = key;
  value = value;
  joined = joined;
  raw_original_key = original;
}

-- `&flags.Flag{Value: v}`
abbrev pub value_flag : String → Flag
value_flag v = record { key = ""; value = v; joined = false; raw_original_key = "" }

pub record CommandFlags : Type 0 where
  pub executable_path : String
  pub target_file_paths : List String
  pub dependencies : List String
  pub emitted_dependency_file : String
  pub output_file_paths : List String
  pub output_dir_paths : List String
  pub include_dir_paths : List String
  pub virtual_directories : List String
  pub working_directory : String
  pub exec_root : String
  pub flags : List Flag

abbrev pub no_flags : CommandFlags
no_flags = record {
  executable_path = "";
  target_file_paths = [];
  dependencies = [];
  emitted_dependency_file = "";
  output_file_paths = [];
  output_dir_paths = [];
  include_dir_paths = [];
  virtual_directories = [];
  working_directory = "";
  exec_root = "";
  flags = [];
}

-- Copy; what it does not name is left empty
unfoldable pub copy : CommandFlags → CommandFlags
copy c = record no_flags {
  executable_path = c.executable_path;
  working_directory = c.working_directory;
  exec_root = c.exec_root;
  include_dir_paths = c.include_dir_paths;
  target_file_paths = c.target_file_paths;
  output_file_paths = c.output_file_paths;
  output_dir_paths = c.output_dir_paths;
  emitted_dependency_file = c.emitted_dependency_file;
  flags = c.flags;
}

pub data ParseError : Type 0 where
  no_command : ParseError

-- `for s.HasNext()`: the fuel is the number of arguments, as every call takes one at least
unfoldable pub scan_flags : ℕ → Scanner → List Flag → Result ParseError (List Flag)
unfolding has_next
scan_flags zero s flags = if has_next s then panic else ok flags
scan_flags (suc fuel) s flags = elim (has_next s) [
  | false ↦ ok flags
  | true ↦ elim (next s) [
    | none ↦ panic
    | some (n, t) ↦ scan_flags fuel t (flags ++ value_flag n.flag ∷ map value_flag n.values)
  ]
]

abbrev pub plain_scanner : List String → Scanner
plain_scanner args = record {
  args = args;
  flags = [];
  joined = [];
  normalized = [];
  prev_result = no_result;
  cur_result = no_result;
}

-- CommandFlags
unfoldable pub command_flags : List String → String → String → Result ParseError CommandFlags
command_flags [] working_dir exec_root = err no_command
command_flags (executable ∷ args) working_dir exec_root =
    elim (scan_flags (length args) (plain_scanner args) []) [
      | ok flags ↦ ok (record no_flags {
        executable_path = executable;
        working_directory = working_dir;
        exec_root = exec_root;
        flags = flags;
      })
      | err e ↦ err e
      | panic ↦ panic
    ]
