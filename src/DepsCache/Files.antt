-- ===== src/DepsCache/Files.antt =====
-- minimalfilecache.go. What `minfc` and the single-flight group answer for a path is the digest
-- that was first computed for it in this run: the function `Digests`.
use reclient.Prelude.{
  ℕ, Bool, true, false, String, Option, none, some, List, [], ◌∷◌, if◌then◌else◌,
}
use reclient.Prelude.Maps.{Map, lookup, insert, string_eq}

pub record FileInfo : Type 0 where
  pub abs_path : String
  pub digest : String
  pub mtime : ℕ

pub record MinDigest : Type 0 where
  pub digest : String
  pub mtime : ℕ

-- minimalDigest of each path, `none` where it fails
abbrev pub Digests : Type 0
Digests = String → Option MinDigest

-- `fileInfo`: what is known of a file, and whether it comes from this run
pub record Known : Type 0 where
  pub info : FileInfo
  pub updated : Bool

abbrev pub FileCache : Type 0
FileCache = Map String Known

abbrev pub info_of : String → MinDigest → FileInfo
info_of path md = record { abs_path = path; digest = md.digest; mtime = md.mtime }

-- the call of the single-flight group
unfoldable pub refresh : String → FileCache → Option MinDigest → Option FileInfo × FileCache
refresh path files none = (none, files)
refresh path files (some md) =
    (some (info_of path md), insert path (record { info = info_of path md; updated = true }) files)

unfoldable pub load_known :
    Digests → FileCache → String → Option Known → Option FileInfo × FileCache
load_known disk files path none = refresh path files (disk path)
load_known disk files path (some k) =
    if k.updated then (some k.info, files) else refresh path files (disk path)

-- load
unfoldable pub load : Digests → FileCache → String → Option FileInfo × FileCache
load disk files path = load_known disk files path (lookup path files)

-- init
unfoldable pub init : List FileInfo → FileCache → FileCache
init [] files = files
init (fi ∷ fis) files = init fis (insert fi.abs_path (record { info = fi; updated = false }) files)
