-- ===== src/Tools/Link.antt =====
-- action/clanglink/flagsparser.go: the command lines of clang as a linker. What arCache holds, and
-- what the reader of archives answers, are parameters.
use reclient.Prelude.{
  Bool, true, String, Option, none, some, List, [], ◌∷◌, ◌++◌, str_eq, if◌then◌else◌, length,
}
use reclient.Prelude.Text.{has_prefix, trim_prefix, cut_prefix}
use reclient.Prelude.FilePath
use reclient.Prelude.Result.{Result, ok, err, panic, ◌>>=◌}
use reclient.Args.{Scanner, FlagResult, read_next_flag}
use reclient.Flags.{CommandFlags}
use reclient.Rsp.{parse, parse_with_func, scan_all, reading}
use reclient.Tools.{
  ToolError, insufficient_arguments, command_of, add_dependencies, add_output_file, add_flags,
}
use reclient.Tools.Clang.{
  Machine, ClangState, no_state, Parsed, one_of, handle_clang_flags, finalize_clang, rsp_path,
  rsp_error,
}
use reclient.Tools.Tables.{Table, new_scanner}
use reclient.Tools.Javac.{temporary, copied_over, with_flags_of}

-- Whether the sysroot is not uploaded, strings.HasSuffix of ".a", what arCache holds under a name,
-- the option to look into archives, and the names in the archive at a path, with the name that the
-- command gives it, unless reading it fails.
pub record Archives : Type 0 where
  pub sysroot_not_uploaded : Bool
  pub is_archive : String → Bool
  pub cached : String → Option (List String)
  pub deep_scan : Bool
  pub read_archive : String → String → Option (List String)

abbrev pub with_archive_itself : String → Option (List String) → Option (List String)
with_archive_itself archive none = none
with_archive_itself archive (some names) = some (names ++ archive ∷ [])

abbrev pub load_or_store : Archives → String → String → Option (List String) → Option (List String)
load_or_store ar path archive (some names) = some names
load_or_store ar path archive none =
    if ar.deep_scan
    then with_archive_itself archive (ar.read_archive path archive)
    else some (archive ∷ [])

-- processArchive
unfoldable pub process_archive : Archives → CommandFlags → String → Option (List String)
process_archive ar f archive =
    let path = FilePath.join (f.exec_root ∷ f.working_directory ∷ archive ∷ []) in
    load_or_store ar path archive (ar.cached path)

abbrev pub linker_flags : List String
linker_flags =
    "--version-script" ∷ "--symbol-ordering-file" ∷ "--dynamic-list" ∷ "-T"
    ∷ "--retain-symbols-file" ∷ "--script," ∷ []

-- the file that a flag for the linker names
unfoldable pub linker_file : List String → String → Option String
linker_file [] v = none
linker_file (p ∷ ps) v =
    let rest = linker_file ps v in
    if has_prefix v p then some (trim_prefix (trim_prefix (trim_prefix v p) "=") ",") else rest

abbrev pub linker_output : CommandFlags → Option String → CommandFlags
linker_output f none = f
linker_output f (some o) = add_output_file f o

abbrev pub linker_flag : CommandFlags → String → Option String → CommandFlags
linker_flag f v (some file) = add_dependencies f (file ∷ [])
linker_flag f v none = linker_output f (cut_prefix "--out-implib=" v)

abbrev pub first_linked :
    List String → ClangState → (String → CommandFlags) → Result ToolError Parsed
first_linked [] s use_it = panic
first_linked (v ∷ vs) s use_it = ok (s, use_it v)

abbrev pub and_link_args : FlagResult → Parsed → Result ToolError Parsed
and_link_args r (s, f) = ok (s, add_flags f r.args)

abbrev pub with_archive :
    FlagResult → ClangState → CommandFlags → Option (List String) → Result ToolError Parsed
with_archive r s f none = ok (s, f)
with_archive r s f (some files) = and_link_args r (s, add_dependencies f files)

-- an argument that is no flag; a failing archive ends without its flag
abbrev pub link_file :
    Archives → FlagResult → ClangState → CommandFlags → List String → Result ToolError Parsed
link_file ar r s f [] = panic
link_file ar r s f (a ∷ more) =
    if ar.is_archive a
    then with_archive r s f (process_archive ar f a)
    else and_link_args r (s, (if has_prefix a "-l" then f else add_dependencies f (a ∷ [])))

-- handleArgFunc: what the scanner that it is given has read, and what the caller read before it,
-- which it passes on to HandleClangFlags
unfoldable pub handle_link_arg :
    Machine → Archives → FlagResult → FlagResult → Parsed → Result ToolError Parsed
handle_link_arg mc ar next_res r (s, f) =
    if one_of r.normalized_key ("--sysroot" ∷ "--sysroot=" ∷ [])
    then (if ar.sysroot_not_uploaded
        then ok (s, f)
        else first_linked r.values s (λ v. add_dependencies f (v ∷ [])))
      >>= and_link_args r
    else if str_eq r.normalized_key "-Wl,"
    then first_linked r.values s (λ v. linker_flag f v (linker_file linker_flags v))
      >>= and_link_args r
    else if str_eq r.normalized_key "-L"
    then first_linked r.values s (λ v. add_dependencies f (v ∷ [])) >>= and_link_args r
    else if str_eq r.normalized_key ""
    then link_file ar r s f r.args
    else handle_clang_flags mc true next_res (s, f)

abbrev pub link_rsp : CommandFlags → String → String → CommandFlags
link_rsp c path arg = add_flags (add_dependencies c (path ∷ [])) (arg ∷ [])

-- handleClangLinkFlags past ReadNextFlag
unfoldable pub handle_link_result :
    Machine → Archives → Scanner → FlagResult → Parsed → Result ToolError Parsed
handle_link_result mc ar sc r (s, c) = elim r.args [
  | [] ↦ panic
  | a ∷ more ↦ elim (cut_prefix "@" a) [
    | none ↦ handle_link_arg mc ar r r (s, temporary c) >>= λ p.
        ok (p.0, copied_over (with_flags_of c p.1) p.1)
    | some path ↦ rsp_error (parse (mc.read (rsp_path c path))) >>= λ args.
        parse_with_func (reading (handle_link_arg mc ar r)) sc args (s, temporary c) >>= λ p.
        ok (p.0, copied_over (link_rsp c path a) p.1)
  ]
]

abbrev pub link_read :
    Machine
    → Archives
    → Parsed
    → Option (FlagResult × Scanner)
    → Result ToolError (Parsed × Scanner)
link_read mc ar p none = panic
link_read mc ar p (some (r, sc)) = handle_link_result mc ar sc r p >>= λ q. ok (q, sc)

-- handleClangLinkFlags
unfoldable pub handle_link_flags :
    Machine → Archives → Scanner → Parsed → Result ToolError (Parsed × Scanner)
handle_link_flags mc ar sc p = link_read mc ar p (read_next_flag sc)

-- parseFlags, with the tables of clang-cl and clang
unfoldable pub parse_link_flags :
    Machine
    → Archives
    → Table × Table
    → List String
    → String
    → String
    → Result ToolError CommandFlags
parse_link_flags mc ar tables [] working_dir exec_root = err insufficient_arguments
parse_link_flags mc ar tables (c ∷ []) working_dir exec_root = err insufficient_arguments
parse_link_flags mc ar tables (c ∷ (a ∷ more)) working_dir exec_root =
    scan_all (handle_link_flags mc ar) (length (a ∷ more)) (new_scanner tables c (a ∷ more))
      (no_state, command_of c working_dir exec_root)
    >>= λ p. ok (finalize_clang p)
