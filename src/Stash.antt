-- ===== src/Stash.antt =====
-- internal/pkg/reproxy/stash.go: files are copied aside and put back later, over a file system that
-- maps paths to files. The random names of the copies and the errors of the system are parameters.
pub mod Restored
pub mod Copies
use reclient.Prelude.{
  ℕ, ◌+◌, Bool, true, false, String, Option, none, some, List, [], ◌∷◌, if◌then◌else◌,
}
use reclient.Prelude.Maps.{Map, lookup, insert, delete, string_eq}

pub record File : Type 0 where
  pub content : String
  pub mode : ℕ

abbrev pub Files : Type 0
Files = Map String File

-- How copying a file ends: it succeeds, it fails before there is a copy, or it fails later and
-- leaves something behind.
pub data Copy : Type 0 where
  copied not_created : Copy
  left_behind : File → Copy

-- the files, and newFiles: the copies and the files that they are of
abbrev pub Stashed : Type 0
Stashed = Files × Map String String

abbrev pub stash_copy : String → String → File → Copy → Stashed → Stashed
stash_copy dest src f copied (fs, new_files) = (insert dest f fs, insert dest src new_files)
stash_copy dest src f not_created (fs, new_files) = (fs, new_files)
stash_copy dest src f (left_behind g) (fs, new_files) = (insert dest g fs, new_files)

-- one round of StashFiles, from the file that is opened on
abbrev pub stash_file : String → String → Option File → Copy → Stashed → Stashed
stash_file dest src none c s = s
stash_file dest src (some f) c s = stash_copy dest src f c s

-- the loop of StashFiles, with the names of the copies by the number of the round
unfoldable pub stash_from : (ℕ → String) → (String → Copy) → ℕ → List String → Stashed → Stashed
stash_from name copy i [] s = s
stash_from name copy i (p ∷ ps) s =
    stash_from name copy (i + 1) ps (stash_file (name i) p (lookup p s.0) (copy p) s)

-- StashFiles
unfoldable pub stash_files : (ℕ → String) → (String → Copy) → List String → Files → Stashed
stash_files name copy paths fs = stash_from name copy 0 paths (fs, [])

abbrev pub rename_found : String → String → Option File → Files → Files
rename_found from to none fs = fs
rename_found from to (some f) fs = insert to f (delete from fs)

-- os.Rename, of which errors are ignored: the source is not there, or the system says otherwise
unfoldable pub rename : (String → String → Bool) → String → String → Files → Files
rename fails from to fs = if fails from to then fs else rename_found from to (lookup from fs) fs

-- the function that StashFiles returns, with the renames that fail
unfoldable pub restore : (String → String → Bool) → Map String String → Files → Files
restore fails [] fs = fs
restore fails ((dup, orig) ∷ new_files) fs = restore fails new_files (rename fails dup orig fs)
