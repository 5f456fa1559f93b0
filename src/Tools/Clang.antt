-- ===== src/Tools/Clang.antt =====
-- clangparser/clangparser.go: the flags of clang that say what a command reads and writes. The
-- tables of flags, the system and the files are parameters.
use Prim.Native.String.{◌++◌ as ◌<>◌}
use reclient.Prelude.{
  Bool, true, false, not, String, none, some, List, [], ◌∷◌, ◌++◌, map, str_eq, if◌then◌else◌, ◌||◌,
  ◌&&◌,
}
use reclient.Prelude.Text.{cut_prefix}
use reclient.Prelude.FilePath
use reclient.Prelude.Result.{Result, ok, err, panic, ◌>>=◌}
use reclient.Args.{Scanner, FlagResult}
use reclient.Flags.{Flag, value_flag, new_flag, CommandFlags}
use reclient.Rsp.{Read, RspError, no_such_file, unreadable, parse, parse_with_func, reading}
use reclient.Tools.{
  ToolError, bad_extension, unreadable_imports, unreadable_rsp, add_dependencies, add_output_file,
  add_flags,
}

-- the fields of State
pub record ClangState : Type 0 where
  pub obj_file : String
  pub has_coverage : Bool
  pub has_split : Bool
  pub save_temps : String

abbrev pub no_state : ClangState
no_state = record { obj_file = ""; has_coverage = false; has_split = false; save_temps = "" }

abbrev pub Parsed : Type 0
Parsed = ClangState × CommandFlags

abbrev pub one_of : String → List String → Bool
one_of k [] = false
one_of k (x ∷ xs) = str_eq k x || one_of k xs

-- the flags whose value is a file that the command reads
abbrev pub input_flags : List String
input_flags =
    "-B" ∷ "-fprofile-use=" ∷ "-fsanitize-blacklist=" ∷ "-fsanitize-ignorelist="
    ∷ "-fsanitize-coverage-allowlist=" ∷ "-fprofile-sample-use=" ∷ "--prefix=" ∷ "-fprofile-list="
    ∷ []

-- What the system answers: whether it is darwin, strings.HasSuffix of ".thinlto.bc" and
-- strings.Replace of it by ".imports", and what files hold.
pub record Machine : Type 0 where
  pub is_darwin : Bool
  pub is_thinlto : String → Bool
  pub imports_of : String → String
  pub read : String → Read

abbrev pub first_value : FlagResult → (String → Parsed) → Result ToolError Parsed
first_value r use_it = elim r.values [ [] ↦ panic | v ∷ vs ↦ ok (use_it v) ]

-- the imports, if the file is there
abbrev pub with_imports : String → Result RspError (List String) → Result ToolError (List String)
with_imports bc (ok files) = ok (bc ∷ files)
with_imports bc (err no_such_file) = ok (bc ∷ [])
with_imports bc (err unreadable) = err unreadable_imports
with_imports bc panic = panic

-- collectThinLTODeps
unfoldable pub collect_thinlto_deps :
    Machine → String → String → String → Result ToolError (List String)
collect_thinlto_deps mc exec_root working_dir bc =
    if mc.is_thinlto bc
    then with_imports bc
        (parse (mc.read (FilePath.join (exec_root ∷ working_dir ∷ mc.imports_of bc ∷ []))))
    else err bad_extension

abbrev pub thinlto_deps :
    Machine → ClangState → CommandFlags → List String → Result ToolError Parsed
thinlto_deps mc s f [] = panic
thinlto_deps mc s f (v ∷ vs) = collect_thinlto_deps mc f.exec_root f.working_directory v >>= λ ds.
    ok (s, add_dependencies f ds)

abbrev pub file_argument : CommandFlags → List String → CommandFlags
file_argument f [] = f
file_argument f (v ∷ vs) = elim (cut_prefix "@" v) [
  | some path ↦ add_dependencies f (path ∷ [])
  | none ↦ record f { target_file_paths = f.target_file_paths ++ v ∷ vs }
]

-- the switch of HandleClangFlags, past the cases that return
unfoldable pub clang_flag : Machine → FlagResult → Parsed → Result ToolError Parsed
clang_flag mc r (s, f) =
    if str_eq r.normalized_key "-I"
    then first_value r (λ v. (s, record f { include_dir_paths = f.include_dir_paths ++ v ∷ [] }))
    else if one_of r.normalized_key input_flags
    then first_value r (λ v. (s, add_dependencies f (v ∷ [])))
    else if one_of r.normalized_key ("--coverage" ∷ "-ftest-coverage" ∷ [])
    then ok (record s { has_coverage = true }, f)
    else if str_eq r.normalized_key "-isysroot"
    then (if mc.is_darwin
        then first_value r
            (λ v. (s, add_dependencies f (FilePath.join (v ∷ "SDKSettings.json" ∷ []) ∷ [])))
        else ok (s, f))
    else if str_eq r.normalized_key "--coverage-data-file="
    then first_value r (λ v. (s, add_output_file f v))
    else if str_eq r.normalized_key "-gsplit-dwarf"
    then ok (record s { has_split = true }, f)
    else if str_eq r.normalized_key "-fthinlto-index="
    then thinlto_deps mc s f r.values
    else if str_eq r.normalized_key "--save-temps="
    then first_value r (λ v. (record s { save_temps = if str_eq v "obj" then "obj" else "cwd" }, f))
    else if str_eq r.normalized_key "--save-temps"
    then ok (record s { save_temps = "cwd" }, f)
    else if str_eq r.normalized_key ""
    then ok (s, file_argument f r.values)
    else ok (s, f)

-- the flag itself, with its value where there is one
abbrev pub kept_flags : Bool → FlagResult → List String → List Flag
kept_flags false r [] = new_flag r.normalized_key r.original_key "" r.joined ∷ []
kept_flags false r (v ∷ []) = new_flag r.normalized_key r.original_key v r.joined ∷ []
kept_flags false r (v ∷ (w ∷ vs)) = map value_flag r.args
kept_flags true r vs = map value_flag r.args

abbrev pub with_flags : Bool → FlagResult → Parsed → Parsed
with_flags legacy r (s, f) =
    if str_eq r.normalized_key ""
    then (s, f)
    else (s, record f { flags = f.flags ++ kept_flags legacy r r.values })

-- HandleClangFlags
unfoldable pub handle_clang_flags : Machine → Bool → FlagResult → Parsed → Result ToolError Parsed
handle_clang_flags mc legacy r (s, f) =
    if str_eq r.normalized_key "-MD"
    then ok (s, f)
    else if str_eq r.normalized_key "-o"
    then first_value r (λ v. (record s { obj_file = v }, add_output_file f v))
    else if str_eq r.normalized_key "-MF"
    then first_value r (λ v. (s, record (add_output_file f v) { emitted_dependency_file = v }))
    else clang_flag mc r (s, f) >>= λ p. ok (with_flags legacy r p)

-- where a response file is, by the path after its "@"
abbrev pub rsp_path : CommandFlags → String → String
rsp_path f path =
    if FilePath.is_abs path
    then path
    else FilePath.join (f.exec_root ∷ f.working_directory ∷ path ∷ [])

abbrev pub rsp_error : {A : Type 0} → Result RspError A → Result ToolError A
rsp_error (ok a) = ok a
rsp_error (err e) = err unreadable_rsp
rsp_error panic = panic

-- HandleClangFlagsFromScanner past ReadNextFlag
unfoldable pub handle_result :
    Machine → Bool → Scanner → FlagResult → Parsed → Result ToolError Parsed
handle_result mc legacy sc r (s, f) = elim r.args [
  | [] ↦ panic
  | a ∷ as_read ↦ elim (cut_prefix "@" a) [
    | none ↦ handle_clang_flags mc legacy r (s, f)
    | some path ↦ rsp_error (parse (mc.read (rsp_path f path))) >>= λ args.
        parse_with_func (reading (handle_clang_flags mc legacy)) sc args
          (s, add_flags (add_dependencies f (path ∷ [])) (a ∷ []))
  ]
]

-- the files that --save-temps leaves for one source file
unfoldable pub temps_of : ClangState → CommandFlags → String → List String
temps_of s f src =
    let name = FilePath.without_ext (FilePath.base src) in
    let stem =
      (if str_eq s.save_temps "obj" && not (str_eq s.obj_file "")
        then FilePath.join (FilePath.dir s.obj_file ∷ name ∷ [])
        else FilePath.join (f.working_directory ∷ name ∷ [])) in
    (stem <> ".i") ∷ (stem <> ".ii") ∷ (stem <> ".bc") ∷ (stem <> ".s") ∷ []

unfoldable pub temps_of_all : ClangState → CommandFlags → List String → List String
temps_of_all s f [] = []
temps_of_all s f (src ∷ srcs) = temps_of s f src ++ temps_of_all s f srcs

abbrev pub when_set : Bool → String → List String
when_set true o = o ∷ []
when_set false o = []

-- the outputs beside the object file
unfoldable pub beside_object : ClangState → List String
beside_object s =
    if str_eq s.obj_file ""
    then []
    else when_set s.has_coverage (FilePath.without_ext s.obj_file <> ".gcno")
      ++ when_set s.has_split (FilePath.without_ext s.obj_file <> ".dwo")

-- Finalize
unfoldable pub finalize_clang : Parsed → CommandFlags
finalize_clang (s, f) = record f {
  output_file_paths =
      f.output_file_paths
      ++ (if str_eq s.save_temps "" then [] else temps_of_all s f f.target_file_paths)
      ++ beside_object s;
}
