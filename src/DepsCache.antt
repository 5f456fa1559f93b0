-- ===== src/DepsCache.antt =====
-- internal/pkg/inputprocessor/depscache: the dependencies of C++ compiles, by command and source
-- file, checked against digests of the files' preprocessor lines.
-- The calls hold their locks, so each is one step; the goroutine of GetDeps that stores the time
-- of use is part of its call. Times are numbers, the zero time is 0.
pub mod Files
pub mod Disk
pub mod Table
pub mod Held
pub mod RoundTrip
pub mod Newest
pub mod Answers
pub mod Stored
pub mod Kept
pub mod Loads
pub mod Runs
use reclient.Prelude.{
  ℕ, Bool, true, false, ◌&&◌, String, Option, none, some, List, [], ◌∷◌, ◌++◌, map, str_eq, eq_iff,
  if◌then◌else◌, ◌≡◌, ◌↔◌, arith,
}
use reclient.Prelude.FilePath.{is_abs}
use reclient.Prelude.Maps.{Eq, Map, lookup, insert}
use Files.{FileInfo, Digests, FileCache, load}

pub record Key : Type 0 where
  pub command_digest : String
  pub src_file_path : String
  pub src_file_min_digest : String

-- `==` of two keys
unfoldable pub key_beq : Key → Key → Bool
key_beq a b =
    str_eq a.command_digest b.command_digest
    && str_eq a.src_file_path b.src_file_path
    && str_eq a.src_file_min_digest b.src_file_min_digest

pub key_beq_iff : (a b : Key) → (key_beq a b ≡ true) ↔ (a ≡ b)
unfolding key_beq
key_beq_iff a b = ground (
  arith,
  eq_iff a.command_digest b.command_digest,
  eq_iff a.src_file_path b.src_file_path,
  eq_iff a.src_file_min_digest b.src_file_min_digest,
)

instance abbrev pub key_eq : Eq Key
key_eq = record { beq = key_beq; beq_iff = key_beq_iff }

pub record Cache : Type 0 where
  pub max_entries : ℕ
  pub reclient_version : String
  pub deps_cache : Map Key (List FileInfo)
  pub files_cache : FileCache
  pub lut_by_key : Map Key ℕ
  pub ready : Bool

-- New
unfoldable pub new_cache : ℕ → String → Cache
new_cache max_entries version = record {
  max_entries = max_entries;
  reclient_version = version;
  deps_cache = [];
  files_cache = [];
  lut_by_key = [];
  ready = false;
}

-- `fullKey`
abbrev pub full_key : Key → FileInfo → Key
full_key k fi = record k { src_file_min_digest = fi.digest }

abbrev pub cons_path : String → Option (List String) → Option (List String)
cons_path p none = none
cons_path p (some ps) = some (p ∷ ps)

-- One file of the loop below, from its load and the rest of the loop.
unfoldable pub checked :
    FileInfo
    → Option FileInfo × FileCache
    → Option (List String) × FileCache
    → Option (List String) × FileCache
checked d (none, files) rest = (none, files)
checked d (some fi, files) rest =
    if str_eq fi.digest d.digest then (cons_path d.abs_path rest.0, rest.1) else (none, files)

-- The loop of GetDeps over the recorded files: their paths, where no digest has changed.
unfoldable pub check_deps : Digests → List FileInfo → FileCache → Option (List String) × FileCache
check_deps disk [] files = (some [], files)
check_deps disk (d ∷ ds) files =
    let r = load disk files d.abs_path in checked d r (check_deps disk ds r.1)

unfoldable pub answered :
    ℕ → Key → Cache → Option (List String) × FileCache → Option (List String) × Cache
answered now k c (none, files) = (none, record c { files_cache = files })
answered now k c (some deps, files) =
    (some deps, record c { files_cache = files; lut_by_key = insert k now c.lut_by_key })

unfoldable pub looked_up :
    Digests → ℕ → Key → Cache → Option (List FileInfo) → Option (List String) × Cache
looked_up disk now k c none = (none, c)
looked_up disk now k c (some infos) = answered now k c (check_deps disk infos c.files_cache)

unfoldable pub with_source :
    Digests → ℕ → Key → Cache → Option FileInfo × FileCache → Option (List String) × Cache
with_source disk now k c (none, files) = (none, record c { files_cache = files })
with_source disk now k c (some sfi, files) =
    looked_up disk now (full_key k sfi) (record c { files_cache = files })
      (lookup (full_key k sfi) c.deps_cache)

-- GetDeps, at a time
unfoldable pub get_deps : Digests → ℕ → Cache → Key → Option (List String) × Cache
get_deps disk now c k =
    if c.ready
    then with_source disk now k c (load disk c.files_cache k.src_file_path)
    else (none, c)

-- the error of SetDeps
pub data SetError : Type 0 where
  not_absolute : String → SetError

-- how the loop of SetDeps over the paths ends: with all files, on a file that cannot be read, or
-- on a path that is not absolute
pub data Collected : Type 0 where
  all_files : List FileInfo → Collected
  unreadable : Collected
  relative : String → Collected

abbrev pub cons_file : FileInfo → Collected → Collected
cons_file fi (all_files fis) = all_files (fi ∷ fis)
cons_file fi unreadable = unreadable
cons_file fi (relative d) = relative d

-- One path of the loop below that is absolute.
unfoldable pub gathered :
    Option FileInfo × FileCache → Collected × FileCache → Collected × FileCache
gathered (none, files) rest = (unreadable, files)
gathered (some fi, files) rest = (cons_file fi rest.0, rest.1)

-- The loop of SetDeps over the paths.
unfoldable pub collect_files : Digests → List String → FileCache → Collected × FileCache
collect_files disk [] files = (all_files [], files)
collect_files disk (d ∷ ds) files =
    let r = load disk files d in
    let rest = collect_files disk ds r.1 in
    if is_abs d then gathered r rest else (relative d, files)

unfoldable pub stored : ℕ → Key → List FileInfo → Cache → Option FileInfo × FileCache → Cache
stored now k infos c (none, files) = record c { files_cache = files }
stored now k infos c (some fi, files) = record c {
  deps_cache = insert (full_key k fi) infos c.deps_cache;
  files_cache = files;
  lut_by_key = insert (full_key k fi) now c.lut_by_key;
}

unfoldable pub collected :
    Digests → ℕ → Key → Cache → Collected × FileCache → Option SetError × Cache
collected disk now k c (all_files infos, files) =
    (none, stored now k infos c (load disk files k.src_file_path))
collected disk now k c (unreadable, files) = (none, record c { files_cache = files })
collected disk now k c (relative d, files) =
    (some (not_absolute d), record c { files_cache = files })

-- SetDeps, at a time: the error, if any
unfoldable pub set_deps : Digests → ℕ → Cache → Key → List String → Option SetError × Cache
set_deps disk now c k deps =
    if c.ready then collected disk now k c (collect_files disk deps c.files_cache) else (none, c)
