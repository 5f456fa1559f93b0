-- ===== src/Deps.antt =====
-- internal/pkg/deps/parser.go: dependency files. What a file holds, what the store of digests
-- answers and what the two regular expressions match are parameters; a digest is a text.
pub mod Lines
use Prim.Native.String.{String, ◌++◌ as ◌<>◌}
use reclient.Prelude.{
  ℕ, Bool, true, false, Option, none, some, List, [], ◌∷◌, ◌++◌, map, str_eq, if◌then◌else◌, not,
  ◌&&◌,
}
use reclient.Prelude.Maps.{Map, insert, keys, string_eq}
use reclient.Prelude.Sort.{sort}
use reclient.Prelude.Sort.Texts.{string_leb}
use reclient.Prelude.Text.{has_prefix}
use reclient.Prelude.FilePath
use reclient.Prelude.Result.{Result, ok, err, panic, ◌>>=◌}
use reclient.Rsp.{Read, content, not_exist, read_failed}

pub data FileError : Type 0 where
  is_not_found other_error : FileError

-- filemetadata.Metadata
pub record Metadata : Type 0 where
  pub digest : String
  pub error : Option FileError

pub record Parser : Type 0 where
  pub exec_root : String
  pub working_dir : String
  pub get : String → Metadata

pub data DepsError : Type 0 where
  unreadable_file wrong_format invalid_line bad_digest : DepsError

-- What the regular expressions find, each match with its groups, and digest.NewFromString.
pub record Formats : Type 0 where
  pub d_file_matches : String → List (List String)
  pub deps_file_matches : String → List (List String)
  pub new_from_string : String → Option String

abbrev pub not_found_marker : String
not_found_marker = "NA"

abbrev pub path_of : Parser → String → String
path_of p rel = FilePath.join (p.exec_root ∷ p.working_dir ∷ rel ∷ [])

abbrev pub contents : Read → Result DepsError String
contents (content s) = ok s
contents not_exist = err unreadable_file
contents read_failed = err unreadable_file

-- one match of VerifyDepsFile: whether the file is as it says, and then the matches after it
unfoldable pub verify_entry :
    Formats → Parser → String → String → Result DepsError Bool → Result DepsError Bool
verify_entry fm p path expected rest =
    let md = p.get (path_of p path) in
    if str_eq expected not_found_marker
    then elim md.error [ none ↦ ok false | some e ↦ rest ]
    else elim (fm.new_from_string expected) [
      | none ↦ err bad_digest
      | some dg ↦ if str_eq md.digest dg then rest else ok false
    ]

unfoldable pub verify_matches : Formats → Parser → List (List String) → Result DepsError Bool
verify_matches fm p [] = ok true
verify_matches fm p ([] ∷ ms) = panic
verify_matches fm p ((line ∷ []) ∷ ms) = err invalid_line
verify_matches fm p ((line ∷ (path ∷ [])) ∷ ms) = err invalid_line
verify_matches fm p ((line ∷ (path ∷ (expected ∷ more))) ∷ ms) =
    verify_entry fm p path expected (verify_matches fm p ms)

-- VerifyDepsFile, with the file at the path with ".deps"
unfoldable pub verify_deps_file : Formats → Parser → Read → Result DepsError Bool
verify_deps_file fm p file = contents file >>= λ buf. verify_matches fm p (fm.deps_file_matches buf)

-- what two lists have past their common front
unfoldable pub past_common : List String → List String → List String × List String
past_common [] ys = ([], ys)
past_common (x ∷ xs) [] = (x ∷ xs, [])
past_common (x ∷ xs) (y ∷ ys) =
    let rest = past_common xs ys in if str_eq x y then rest else (x ∷ xs, y ∷ ys)

abbrev pub up : List String → List String
up [] = []
up (x ∷ xs) = ".." ∷ up xs

abbrev pub from_base : List String → List String → Option String
from_base [] ts = some (FilePath.join_slashes ts)
from_base (b ∷ bs) ts =
    if str_eq b ".." then none else some (FilePath.join_slashes (up (b ∷ bs) ++ ts))

-- filepath.Rel to an absolute path
unfoldable pub rel : String → String → Option String
rel base path =
    let parts = past_common (FilePath.clean_elements base) (FilePath.clean_elements path) in
    if str_eq (FilePath.clean base) (FilePath.clean path)
    then some "."
    else if FilePath.is_abs base
    then from_base parts.0 parts.1
    else none

-- getRelPath of an absolute path
unfoldable pub get_rel_path : String → String → Option String
get_rel_path base path = elim (rel base path) [
  | none ↦ none
  | some rel_path ↦ if has_prefix rel_path ".." then none else some rel_path
]

abbrev pub and_path : Option String → List String → List String
and_path none rest = rest
and_path (some path) rest = path ∷ rest

-- a path of the d file, unless it is outside of the directory
unfoldable pub dep_path : Parser → String → Option String
dep_path p path =
    if FilePath.is_abs path
    then get_rel_path (FilePath.join (p.exec_root ∷ p.working_dir ∷ [])) path
    else some path

unfoldable pub d_file_paths : Parser → List (List String) → Result DepsError (List String)
d_file_paths p [] = ok []
d_file_paths p ([] ∷ ms) = panic
d_file_paths p ((line ∷ []) ∷ ms) = err invalid_line
d_file_paths p ((line ∷ (path ∷ more)) ∷ ms) =
    d_file_paths p ms >>= λ rest. ok (and_path (dep_path p path) rest)

abbrev pub past_target : Parser → List (List String) → Result DepsError (List String)
past_target p [] = err wrong_format
past_target p (m ∷ []) = err wrong_format
past_target p (m ∷ (n ∷ ms)) = d_file_paths p (n ∷ ms)

-- readDFileDeps
unfoldable pub read_d_file_deps : Formats → Parser → Read → Result DepsError (List String)
read_d_file_deps fm p file = contents file >>= λ buf. past_target p (fm.d_file_matches buf)

abbrev pub deps_line : String → String → String
deps_line path digest = FilePath.clean path <> ":" <> digest <> "\n"

-- the line of addDep
unfoldable pub dep_line : Metadata → String → Option String
dep_line md path = elim md.error [
  | none ↦ some (deps_line path md.digest)
  | some is_not_found ↦ some (deps_line path not_found_marker)
  | some other_error ↦ none
]

abbrev pub with_line : Option String → Map String Bool → Map String Bool
with_line none deps = deps
with_line (some line) deps = insert line true deps

-- addDep
unfoldable pub add_dep : Parser → String → Map String Bool → Map String Bool
add_dep p path deps = with_line (dep_line (p.get (path_of p path)) path) deps

unfoldable pub add_deps : Parser → List String → Map String Bool → Map String Bool
add_deps p [] deps = deps
add_deps p (path ∷ paths) deps = add_deps p paths (add_dep p path deps)

abbrev pub concat_lines : List String → String
concat_lines [] = ""
concat_lines (l ∷ ls) = l <> concat_lines ls

-- the lines of GetDeps
unfoldable pub lines_of : Parser → List String → List String
lines_of p paths = sort string_leb (keys (add_deps p paths []))

-- GetDeps
unfoldable pub get_deps : Formats → Parser → Read → Result DepsError String
get_deps fm p file = read_d_file_deps fm p file >>= λ paths. ok (concat_lines (lines_of p paths))

-- WriteDepsFile: the path and the content of the file that it writes; the time that it records is
-- left out
unfoldable pub write_deps_file :
    Formats → Parser → String → Read → Result DepsError (String × String)
write_deps_file fm p path file =
    get_deps fm p file >>= λ deps. ok (FilePath.join (p.exec_root ∷ (path <> ".deps") ∷ []), deps)
