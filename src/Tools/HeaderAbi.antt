-- ===== src/Tools/HeaderAbi.antt =====
-- action/headerabi/flagsparser.go: the command lines of header-abi-dumper. Its table of flags is that
-- of clang, which init extends in place.
use reclient.Prelude.{false, String, List, [], ◌∷◌, str_eq, if◌then◌else◌, ◌||◌, length}
use reclient.Prelude.Int.{pos}
use reclient.Prelude.Maps.{insert, string_eq}
use reclient.Prelude.Result.{Result, ok, err, ◌>>=◌}
use reclient.Args.{FlagResult}
use reclient.Flags.{CommandFlags}
use reclient.Rsp.{scan_all, read_and_handle, reading}
use reclient.Tools.{ToolError, insufficient_arguments, command_of}
use reclient.Tools.Clang.{Machine, no_state, Parsed, handle_clang_flags, finalize_clang}
use reclient.Tools.Tables.{Table, scanner_of}

-- init
unfoldable pub abi_table : Table → Table
abi_table clang = record clang { options = insert "--root-dir" (pos 1) clang.options }

-- one round of ParseFlags
unfoldable pub handle_abi_flag : Machine → FlagResult → Parsed → Result ToolError Parsed
handle_abi_flag mc r p =
    if str_eq r.normalized_key "root-dir" || str_eq r.original_key "--"
    then ok p
    else handle_clang_flags mc false r p

-- ParseFlags, with the table of clang; the flags that it returns with an error are left out
unfoldable pub parse_abi_flags :
    Machine → Table → List String → String → String → Result ToolError CommandFlags
parse_abi_flags mc clang [] working_dir exec_root = err insufficient_arguments
parse_abi_flags mc clang (c ∷ []) working_dir exec_root = err insufficient_arguments
parse_abi_flags mc clang (c ∷ (a ∷ more)) working_dir exec_root =
    scan_all (read_and_handle (reading (handle_abi_flag mc))) (length (a ∷ more))
      (scanner_of (abi_table clang) (a ∷ more)) (no_state, command_of c working_dir exec_root)
    >>= λ p. ok (finalize_clang p)
