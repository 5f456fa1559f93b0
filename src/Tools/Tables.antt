-- ===== src/Tools/Tables.antt =====
-- clangparser/clangparser.go: New. The tables of flags, which llvm generates, are parameters.
use reclient.Prelude.{String, List, str_eq, if◌then◌else◌}
use reclient.Prelude.Int.{ℤ}
use reclient.Prelude.Maps.{Map}
use reclient.Prelude.FilePath
use reclient.Args.{Scanner, PrefixOption}
use reclient.Tools.{tool_scanner}

-- a table of flags
pub record Table : Type 0 where
  pub options : Map String ℤ
  pub prefixes : List PrefixOption
  pub normalized_flags : Map String String

abbrev pub scanner_of : Table → List String → Scanner
scanner_of t args = record (tool_scanner args t.options t.prefixes) {
  normalized = t.normalized_flags;
}

-- New, with the tables of clang-cl and clang, for a program and its arguments
unfoldable pub new_scanner : Table × Table → String → List String → Scanner
new_scanner (clang_cl, clang) program args =
    if str_eq (FilePath.without_ext (FilePath.base program)) "clang-cl"
    then scanner_of clang_cl args
    else scanner_of clang args
