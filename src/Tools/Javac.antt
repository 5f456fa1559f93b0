-- ===== src/Tools/Javac.antt =====
-- action/javac/flagsparser.go: the command lines of javac.
use reclient.Prelude.{
  String, Option, none, some, List, [], ◌∷◌, ◌++◌, str_eq, if◌then◌else◌, ◌||◌, length,
}
use reclient.Prelude.Int.{ℤ, pos}
use reclient.Prelude.Maps.{Map}
use reclient.Prelude.Text.{cut_prefix, split_at_char}
use reclient.Prelude.Result.{Result, ok, err, panic, ◌>>=◌}
use reclient.Args.{Scanner, FlagResult, PrefixOption, read_next_flag}
use reclient.Flags.{CommandFlags, no_flags}
use reclient.Rsp.{parse, parse_with_func, scan_all, reading}
use reclient.Tools.{
  ToolError, insufficient_arguments, tool_scanner, command_of, add_dependencies, add_output_dir,
  add_flags, with_first, colon,
}
use reclient.Tools.Clang.{Machine, one_of, rsp_path, rsp_error}

abbrev javac_flags : Map String ℤ
javac_flags =
    ("-bootclasspath", pos 1)
    ∷ ("-classpath", pos 1)
    ∷ ("-processorpath", pos 1)
    ∷ ("-d", pos 1)
    ∷ ("-s", pos 1)
    ∷ []

abbrev javac_joined : List PrefixOption
javac_joined =
    record { prefix = "--system="; num_args = pos 0 }
    ∷ record { prefix = "-Aroom.schemaLocation="; num_args = pos 0 }
    ∷ []

-- the entries of a class path, without empty ones and the current directory
unfoldable pub class_path : List String → List String
class_path [] = []
class_path (d ∷ ds) =
    let rest = class_path ds in if str_eq d "" || str_eq d "." then rest else d ∷ rest

abbrev pub and_args : FlagResult → CommandFlags → Result ToolError CommandFlags
and_args r f = ok (add_flags f r.args)

-- handleArgFunc
unfoldable pub handle_javac_arg : FlagResult → CommandFlags → Result ToolError CommandFlags
handle_javac_arg r f =
    (if one_of r.normalized_key ("-bootclasspath" ∷ "-classpath" ∷ "-processorpath" ∷ [])
      then with_first r.values (λ v. add_dependencies f (class_path (split_at_char colon v)))
      else if one_of r.normalized_key ("--system=" ∷ "-Aroom.schemaLocation=" ∷ [])
      then with_first r.values (λ v. add_dependencies f (v ∷ []))
      else if one_of r.normalized_key ("-d" ∷ "-s" ∷ [])
      then with_first r.values (λ v. add_output_dir f v)
      else if str_eq r.normalized_key ""
      then with_first r.args (λ a. add_dependencies f (a ∷ []))
      else ok f)
    >>= and_args r

-- the temporary flags
abbrev pub temporary : CommandFlags → CommandFlags
temporary c = record no_flags { exec_root = c.exec_root; working_directory = c.working_directory }

-- what is copied of them in the end
unfoldable pub copied_over : CommandFlags → CommandFlags → CommandFlags
copied_over c f = record c {
  dependencies = c.dependencies ++ f.dependencies;
  output_dir_paths = c.output_dir_paths ++ f.output_dir_paths;
  output_file_paths = c.output_file_paths ++ f.output_file_paths;
}

abbrev pub with_flags_of : CommandFlags → CommandFlags → CommandFlags
with_flags_of c f = record c { flags = c.flags ++ f.flags }

abbrev pub javac_rsp : CommandFlags → String → String → CommandFlags
javac_rsp c path arg =
    add_flags (record c { target_file_paths = c.target_file_paths ++ path ∷ [] }) (arg ∷ [])

-- handleJavacFlags past ReadNextFlag
unfoldable pub handle_javac_result :
    Machine → Scanner → FlagResult → CommandFlags → Result ToolError CommandFlags
handle_javac_result mc sc r c = elim r.args [
  | [] ↦ panic
  | a ∷ more ↦ elim (cut_prefix "@" a) [
    | none ↦ handle_javac_arg r (temporary c) >>= λ f. ok (copied_over (with_flags_of c f) f)
    | some path ↦ rsp_error (parse (mc.read (rsp_path c path))) >>= λ args.
        parse_with_func (reading handle_javac_arg) sc args (temporary c) >>= λ f.
        ok (copied_over (javac_rsp c path a) f)
  ]
]

abbrev pub javac_read :
    Machine
    → CommandFlags
    → Option (FlagResult × Scanner)
    → Result ToolError (CommandFlags × Scanner)
javac_read mc c none = panic
javac_read mc c (some (r, s)) = handle_javac_result mc s r c >>= λ d. ok (d, s)

-- handleJavacFlags
unfoldable pub handle_javac_flags :
    Machine → Scanner → CommandFlags → Result ToolError (CommandFlags × Scanner)
handle_javac_flags mc s c = javac_read mc c (read_next_flag s)

-- parseFlags of javac
unfoldable pub parse_javac_flags :
    Machine → List String → String → String → Result ToolError CommandFlags
parse_javac_flags mc [] working_dir exec_root = err insufficient_arguments
parse_javac_flags mc (c ∷ []) working_dir exec_root = err insufficient_arguments
parse_javac_flags mc (c ∷ (a ∷ more)) working_dir exec_root =
    scan_all (handle_javac_flags mc) (length (a ∷ more))
      (tool_scanner (a ∷ more) javac_flags javac_joined) (command_of c working_dir exec_root)
