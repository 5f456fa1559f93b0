-- ===== src/Tests/Tools.antt =====
-- Response files and the command lines of single tools, at concrete inputs.
use reclient.Prelude.{◌≡◌, refl, true, false, String, none, [], ◌∷◌}
use reclient.Prelude.Int.{pos}
use reclient.Prelude.Result.{ok}
use reclient.Args.{has_next, read_next_flag}
use reclient.Flags.{no_flags, value_flag}
use reclient.Prelude.{str_eq, if◌then◌else◌, some}
use reclient.Prelude.Sort.{insert_sorted, sort}
use reclient.Prelude.Sort.Order.{count_if, IsSorted}
use reclient.Prelude.Sort.Texts.{string_leb}
use reclient.Prelude.Maps.{insert}
use reclient.Prelude.Text.{has_prefix}
use reclient.Deps.{
  Parser, is_not_found, lines_of, get_rel_path, dep_line, add_dep, add_deps, rel, past_common,
}
use reclient.Deps.Lines.{gives, lines_of_lem}
use reclient.Tools.Metalava.{
  parse_metalava_flags, handle_metalava_flag, metalava_peeked, metalava_flag, metalava_dep, deps_in,
  contains_char,
}
use reclient.Tools.Javac.{class_path}
use reclient.Args.{look_ahead}
use reclient.Prelude.Text.{split_at_char}
use reclient.Rsp.{
  content, parse, scan_all, fields, non_empty, split_spaces, trim_quotes, trim_right, trim_left,
  parse_with_func,
}
use reclient.Tools.{handle_d8_flag, parse_d8_flags, split_last}
use reclient.Tools.Clang.{Machine, handle_clang_flags, finalize_clang, beside_object, clang_flag}
use reclient.Tools.Javac.{copied_over}
use reclient.Prelude.FilePath
use reclient.Tools.Tables.{Table, new_scanner}
use reclient.Tools.Link.{
  Archives, parse_link_flags, handle_link_flags, handle_link_result, handle_link_arg,
}

quoted : parse (content "'a b'  \"c\"") ≡ ok ("a" ∷ "b" ∷ "c" ∷ [])
unfolding parse fields non_empty split_spaces trim_quotes trim_right trim_left
quoted = refl

d8_line :
    parse_d8_flags ("d8" ∷ "--lib" ∷ "a.jar" ∷ "--output" ∷ "out" ∷ "in.jar" ∷ []) "wd" "/root"
    ≡ ok (record no_flags {
      executable_path = "d8";
      working_directory = "wd";
      exec_root = "/root";
      target_file_paths = "in.jar" ∷ [];
      dependencies = "a.jar" ∷ [];
      output_dir_paths = "out" ∷ [];
    })
unfolding parse_d8_flags scan_all split_last has_next read_next_flag handle_d8_flag
d8_line = refl

abbrev linux : Machine
linux = record {
  is_darwin = false;
  is_thinlto = λ p. false;
  imports_of = λ p. p;
  read = λ p. content "-o b.so";
}

abbrev no_archives : Archives
no_archives = record {
  sysroot_not_uploaded = false;
  is_archive = λ p. false;
  cached = λ p. none;
  deep_scan = true;
  read_archive = λ path archive. none;
}

abbrev gnu : Table
gnu = record { options = ("-o", pos 1) ∷ []; prefixes = []; normalized_flags = [] }

-- An output in a response file is not found, and the response file is a dependency twice.
rsp_output :
    parse_link_flags linux no_archives (gnu, gnu) ("clang" ∷ "@b.rsp" ∷ []) "wd" "/root"
    ≡ ok (record no_flags {
      executable_path = "clang";
      working_directory = "wd";
      exec_root = "/root";
      dependencies = "b.rsp" ∷ "b.rsp" ∷ [];
      flags = value_flag "@b.rsp" ∷ [];
    })
unfolding parse_link_flags new_scanner scan_all has_next read_next_flag handle_link_flags
    handle_link_result parse fields non_empty split_spaces trim_quotes trim_right trim_left
    parse_with_func handle_link_arg handle_clang_flags finalize_clang beside_object clang_flag
    copied_over FilePath.without_ext FilePath.base
rsp_output = refl

abbrev two_files : Parser
two_files = record {
  exec_root = "/root";
  working_dir = "out";
  get = λ p. record {
    digest = "d/1";
    error = if str_eq p "/root/out/a.h" then none else some is_not_found;
  };
}

lines_of_lem_example :
    IsSorted string_leb (lines_of two_files ("./b.h" ∷ "a.h" ∷ "b.h" ∷ []))
    × ((line : String)
        → count_if (str_eq line) (lines_of two_files ("./b.h" ∷ "a.h" ∷ "b.h" ∷ []))
          ≡ (if gives line two_files ("./b.h" ∷ "a.h" ∷ "b.h" ∷ []) then 1 else 0))
lines_of_lem_example = lines_of_lem two_files ("./b.h" ∷ "a.h" ∷ "b.h" ∷ [])

two_lines : lines_of two_files ("./b.h" ∷ "a.h" ∷ "b.h" ∷ []) ≡ "a.h:d/1\n" ∷ "b.h:NA\n" ∷ []
unfolding lines_of sort insert_sorted insert add_deps add_dep dep_line FilePath.clean FilePath.join
two_lines = refl

relative :
    (get_rel_path "/root/out" "/root/out/x/../a.h" ≡ some "a.h")
    × (get_rel_path "/root/out" "/usr/a.h" ≡ none)
unfolding get_rel_path rel past_common FilePath.clean FilePath.clean_elements FilePath.is_abs
    FilePath.join_slashes has_prefix
relative = (refl, refl)

metalava_line :
    parse_metalava_flags linux
      ("metalava" ∷ "--api" ∷ "api.txt" ∷ "-classpath" ∷ "a.jar:." ∷ "--hide" ∷ [])
      "wd"
      "/root"
    ≡ ok (record no_flags {
      executable_path = "metalava";
      working_directory = "wd";
      exec_root = "/root";
      dependencies = "a.jar" ∷ [];
      output_file_paths = "api.txt" ∷ [];
      flags = value_flag "--hide" ∷ [];
    })
unfolding parse_metalava_flags handle_metalava_flag metalava_peeked metalava_flag metalava_dep
    deps_in contains_char class_path look_ahead scan_all has_next read_next_flag split_at_char
metalava_line = refl
