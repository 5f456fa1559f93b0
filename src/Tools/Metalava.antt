-- ===== src/Tools/Metalava.antt =====
-- action/metalava/flagsparser.go: the command lines of metalava.
use Prim.Native.Char.{code}
use reclient.Prelude.{
  ℕ, Bool, false, String, Option, none, some, List, [], ◌∷◌, ◌++◌, map, str_eq, if◌then◌else◌, ◌||◌,
  ◌&&◌, length, ◌==◌,
}
use reclient.Prelude.FilePath
use reclient.Prelude.Int.{ℤ, pos}
use reclient.Prelude.Maps.{Map}
use reclient.Prelude.Text.{cut_prefix, split_at_char}
use reclient.Prelude.Result.{Result, ok, err, panic, ◌>>=◌}
use reclient.Args.{Scanner, FlagResult, has_next, read_next_flag, look_ahead}
use reclient.Flags.{CommandFlags}
use reclient.Rsp.{parse, scan_all}
use reclient.Tools.{
  ToolError, insufficient_arguments, tool_scanner, command_of, add_dependencies, add_output_file,
  add_output_dir, add_flags, with_first, colon,
}
use reclient.Tools.Clang.{Machine, one_of, rsp_error}
use reclient.Tools.Javac.{class_path}

abbrev pub dep_flags : List String
dep_flags =
    "--source-files" ∷ "--source-path" ∷ "-sourcepath" ∷ "-classpath" ∷ "-bootclasspath"
    ∷ "--merge-qualifier-annotations" ∷ "--merge-inclusion-annotations"
    ∷ "--validate-nullability-from-list" ∷ "--input-api-jar" ∷ "--manifest" ∷ "--subtract-api"
    ∷ "--register-artifact" ∷ "--check-compatibility:api:current"
    ∷ "--check-compatibility:removed:current" ∷ "--check-compatibility:api:released"
    ∷ "--check-compatibility:removed:released" ∷ "--api-lint" ∷ "--migrate-nullness"
    ∷ "--annotation-coverage-of" ∷ "--include-annotation-classes" ∷ "--rewrite-annotations"
    ∷ "--apply-api-levels" ∷ "--baseline:api-lint" ∷ "--baseline:compatibility:released" ∷ []

abbrev out_file_flags : List String
out_file_flags =
    "--api" ∷ "--private-api" ∷ "--dex-api" ∷ "--private-dex-api" ∷ "--dex-api-mapping"
    ∷ "--removed-api" ∷ "--removed-dex-api" ∷ "--proguard" ∷ "--write-doc-stubs-source-list"
    ∷ "--report-even-if-suppressed" ∷ "--api-xml" ∷ "--write-class-coverage-to"
    ∷ "--write-member-coverage-to" ∷ "--extract-annotations" ∷ "--generate-api-levels"
    ∷ "--nullability-warnings-txt" ∷ "--update-baseline:compatibility:released"
    ∷ "--update-baseline:api-lint" ∷ []

abbrev out_dir_flags : List String
out_dir_flags = "--sdk-values" ∷ "--stubs" ∷ "--doc-stubs" ∷ "--rewrite-annotations" ∷ []

abbrev in_out_flags : List String
in_out_flags = "--baseline" ∷ "--update-baseline" ∷ "--merge-baseline" ∷ []

abbrev src_dest_flags : List String
src_dest_flags =
    "--convert-to-jdiff" ∷ "--convert-to-v1" ∷ "--convert-to-v2" ∷ "--copy-annotations" ∷ []

abbrev src_src_dest_flags : List String
src_src_dest_flags = "--convert-new-to-jdiff" ∷ "--convert-new-to-v2" ∷ []

abbrev takes : ℤ → List String → Map String ℤ
takes n flags = map (λ f. (f, n)) flags

-- metavalaFlags after init
abbrev metalava_flags : Map String ℤ
metalava_flags =
    takes (pos 2) src_dest_flags
    ++ takes (pos 3) src_src_dest_flags
    ++ takes (pos 1) in_out_flags
    ++ takes (pos 1) out_file_flags
    ++ takes (pos 1) out_dir_flags
    ++ takes (pos 1)
        ("--android-jar-pattern" ∷ "--strict-input-files" ∷ "--strict-input-files:warn" ∷ [])

-- strings.Contains of one character
unfoldable pub contains_char : ℕ → String → Bool
contains_char c String.[] = false
contains_char c (String.◌∷◌ d s) = (code d == c) || contains_char c s

abbrev pub in_working_dir : CommandFlags → String → String
in_working_dir f path = FilePath.join (f.exec_root ∷ f.working_directory ∷ path ∷ [])

-- the dependencies in the value of a flag of `dep_flags`
unfoldable pub deps_in : Machine → CommandFlags → String → Result ToolError (List String)
deps_in mc f v =
    if contains_char colon v
    then ok (split_at_char colon v)
    else if contains_char b',' v
    then ok (split_at_char b',' v)
    else elim (cut_prefix "@" v) [
      | none ↦ ok (v ∷ [])
      | some path ↦ rsp_error (parse (mc.read (in_working_dir f path))) >>= λ ds. ok (path ∷ ds)
    ]

abbrev pub with_two : List String → (String → String → CommandFlags) → Result ToolError CommandFlags
with_two [] use_it = panic
with_two (a ∷ []) use_it = panic
with_two (a ∷ (b ∷ vs)) use_it = ok (use_it a b)

abbrev pub with_three :
    List String → (String → String → String → CommandFlags) → Result ToolError CommandFlags
with_three [] use_it = panic
with_three (a ∷ []) use_it = panic
with_three (a ∷ (b ∷ [])) use_it = panic
with_three (a ∷ (b ∷ (c ∷ vs))) use_it = ok (use_it a b c)

-- an argument that is no flag
abbrev pub metalava_file : Machine → CommandFlags → List String → Result ToolError CommandFlags
metalava_file mc f [] = panic
metalava_file mc f (a ∷ more) = elim (cut_prefix "@" a) [
  | none ↦ ok (add_flags f (a ∷ []))
  | some path ↦ rsp_error (parse (mc.read (in_working_dir f path))) >>= λ ds.
      ok (add_dependencies (record f { target_file_paths = f.target_file_paths ++ path ∷ [] }) ds)
]

-- the switch past its first case
unfoldable pub metalava_flag : Machine → FlagResult → CommandFlags → Result ToolError CommandFlags
metalava_flag mc r f =
    if one_of r.normalized_key in_out_flags
    then with_first r.values (λ v. add_output_file (add_dependencies f (v ∷ [])) v)
    else if one_of r.normalized_key out_file_flags
    then with_first r.values (λ v. add_output_file f v)
    else if one_of r.normalized_key out_dir_flags
    then with_first r.values (λ v. add_output_dir f v)
    else if one_of r.normalized_key src_dest_flags
    then with_two r.values (λ a b. add_output_file (add_dependencies f (a ∷ [])) b)
    else if one_of r.normalized_key src_src_dest_flags
    then with_three r.values (λ a b c. add_output_file (add_dependencies f (a ∷ b ∷ [])) c)
    else if str_eq r.normalized_key "--android-jar-pattern"
    then elim r.values [
      | [] ↦ panic
      | v ∷ vs ↦ with_first (split_at_char b'%' v) (λ front. add_dependencies f (front ∷ []))
    ]
    else if one_of r.normalized_key ("--strict-input-files" ∷ "--strict-input-files:warn" ∷ [])
    then with_first r.values (λ v. record (add_output_file f v) { emitted_dependency_file = v })
    else if str_eq r.normalized_key ""
    then metalava_file mc f r.args
    else with_first r.args (λ a. add_flags f (a ∷ []))

abbrev pub dep_value :
    Machine → CommandFlags → Scanner → List String → Result ToolError (CommandFlags × Scanner)
dep_value mc f t [] = panic
dep_value mc f t (a ∷ more) = deps_in mc f a >>= λ ds. ok (add_dependencies f (class_path ds), t)

abbrev pub source_path : CommandFlags → Scanner → List String → CommandFlags × Scanner
source_path f t args = (record f { virtual_directories = f.virtual_directories ++ args }, t)

-- the argument after a flag of `dep_flags`
unfoldable pub metalava_dep :
    Machine
    → FlagResult
    → CommandFlags
    → Option (FlagResult × Scanner)
    → Result ToolError (CommandFlags × Scanner)
metalava_dep mc r f none = panic
metalava_dep mc r f (some (q, t)) =
    if str_eq r.normalized_key "-sourcepath"
    then ok (source_path f t q.args)
    else dep_value mc f t q.args

-- with what LookAhead says
unfoldable pub metalava_peeked :
    Machine
    → FlagResult
    → CommandFlags
    → Option (String × Scanner)
    → Result ToolError (CommandFlags × Scanner)
metalava_peeked mc r f none = panic
metalava_peeked mc r f (some (key, t)) =
    if str_eq key ""
    then metalava_dep mc r f (read_next_flag t)
    else metalava_flag mc r f >>= λ g. ok (g, t)

abbrev pub metalava_read :
    Machine
    → CommandFlags
    → Option (FlagResult × Scanner)
    → Result ToolError (CommandFlags × Scanner)
metalava_read mc f none = panic
metalava_read mc f (some (r, t)) =
    if one_of r.normalized_key dep_flags && has_next t
    then metalava_peeked mc r f (look_ahead t)
    else metalava_flag mc r f >>= λ g. ok (g, t)

-- one round of parseFlags
unfoldable pub handle_metalava_flag :
    Machine → Scanner → CommandFlags → Result ToolError (CommandFlags × Scanner)
handle_metalava_flag mc s f = metalava_read mc f (read_next_flag s)

-- parseFlags of metalava
unfoldable pub parse_metalava_flags :
    Machine → List String → String → String → Result ToolError CommandFlags
parse_metalava_flags mc [] working_dir exec_root = err insufficient_arguments
parse_metalava_flags mc (c ∷ []) working_dir exec_root = err insufficient_arguments
parse_metalava_flags mc (c ∷ (a ∷ more)) working_dir exec_root =
    scan_all (handle_metalava_flag mc) (length (a ∷ more))
      (tool_scanner (a ∷ more) metalava_flags []) (command_of c working_dir exec_root)
