-- ===== src/DepsCache/Disk.antt =====
-- depscache.go, WriteToDisk and LoadFromDir: the database a cache is written as, and what a cache
-- is after a database is loaded into it. Encoding and the file system are left out: a file that
-- cannot be read or parsed is `none`.
use reclient.Prelude.{
  ℕ, suc, Bool, true, false, ◌&&◌, String, Option, none, some, List, [], ◌∷◌, ◌++◌, str_eq, eq_iff,
  length, get_elem?, leb, if◌then◌else◌, ◌≡◌, ◌↔◌, arith,
}
use reclient.Prelude.Int.{ℤ, pos, negsuc, leb_ℤ}
use reclient.Prelude.Maps.{Eq, Map, lookup, insert, keys}
use reclient.Prelude.Sort.{sort}
use reclient.DepsCache.{Key, key_eq, Cache}
use reclient.DepsCache.Files.{FileInfo, init}

-- `fiKey`
pub record FileKey : Type 0 where
  pub abs_path : String
  pub digest : String

abbrev pub file_key : FileInfo → FileKey
file_key fi = record { abs_path = fi.abs_path; digest = fi.digest }

unfoldable pub file_key_beq : FileKey → FileKey → Bool
file_key_beq a b = str_eq a.abs_path b.abs_path && str_eq a.digest b.digest

pub file_key_beq_iff : (a b : FileKey) → (file_key_beq a b ≡ true) ↔ (a ≡ b)
unfolding file_key_beq
file_key_beq_iff a b = ground (arith, eq_iff a.abs_path b.abs_path, eq_iff a.digest b.digest)

instance abbrev pub file_key_eq : Eq FileKey
file_key_eq = record { beq = file_key_beq; beq_iff = file_key_beq_iff }

-- a `Deps` message
pub record Entry : Type 0 where
  pub key : Key
  pub dep_ids : List ℤ
  pub last_used : ℕ

-- a `DepsDatabase` message
pub record Database : Type 0 where
  pub version : String
  pub files : List FileInfo
  pub deps : List Entry

-- `fiKeyToIdx`, with the files of the database so far
pub record Table : Type 0 where
  pub index : Map FileKey ℕ
  pub files : List FileInfo

unfoldable pub add_known : FileInfo → Table → Option ℕ → ℕ × Table
add_known fi t (some i) = (i, t)
add_known fi t none = (
  length t.index,
  record { index = insert (file_key fi) (length t.index) t.index; files = t.files ++ fi ∷ [] },
)

unfoldable pub add_file : FileInfo → Table → ℕ × Table
add_file fi t = add_known fi t (lookup (file_key fi) t.index)

unfoldable pub add_files : List FileInfo → Table → List ℤ × Table
add_files [] t = ([], t)
add_files (fi ∷ fis) t =
    let (i, t') = add_file fi t in let rest = add_files fis t' in (pos i ∷ rest.0, rest.1)

-- a missing key gives the nil slice, and the zero time
unfoldable pub or_nil : Option (List FileInfo) → List FileInfo
or_nil none = []
or_nil (some fis) = fis

unfoldable pub or_zero : Option ℕ → ℕ
or_zero none = 0
or_zero (some t) = t

abbrev pub deps_of : Cache → Key → List FileInfo
deps_of c k = or_nil (lookup k c.deps_cache)

abbrev pub last_use : Cache → Key → ℕ
last_use c k = or_zero (lookup k c.lut_by_key)

-- the most recently used first
unfoldable pub sorted_keys : Cache → List Key
sorted_keys c = sort (λ i j. leb (last_use c j) (last_use c i)) (keys c.deps_cache)

abbrev pub new_entry : Cache → Key → List ℤ → Entry
new_entry c k ids = record { key = k; dep_ids = ids; last_used = last_use c k }

-- The loop over the sorted keys, with the entries written so far counted.
unfoldable pub write_entries : Cache → List Key → ℕ → Table → List Entry × Table
write_entries c [] count t = ([], t)
write_entries c (k ∷ ks) count t =
    let (ids, t') = add_files (deps_of c k) t in
    let rest = write_entries c ks (suc count) t' in
    if leb c.max_entries (suc count)
    then (new_entry c k ids ∷ [], t')
    else (new_entry c k ids ∷ rest.0, rest.1)

abbrev pub no_table : Table
no_table = record { index = []; files = [] }

-- WriteToDisk: the database, and the cache, which is not ready from here on
unfoldable pub write_to_disk : Cache → Database × Cache
write_to_disk c =
    let (entries, t) = write_entries c (sorted_keys c) 0 no_table in
    (
      record { version = c.reclient_version; files = t.files; deps = entries },
      record c { ready = false },
    )

-- What the ids of an entry stand for: files, or the entry is skipped, or a negative id panics.
pub data Resolved : Type 0 where
  resolved : List FileInfo → Resolved
  skipped : Resolved
  out_of_range : Resolved

abbrev pub cons_resolved : FileInfo → Resolved → Resolved
cons_resolved fi (resolved fis) = resolved (fi ∷ fis)
cons_resolved fi skipped = skipped
cons_resolved fi out_of_range = out_of_range

abbrev pub cons_found : Option FileInfo → Resolved → Resolved
cons_found none r = out_of_range
cons_found (some fi) r = cons_resolved fi r

-- `db.Files[d]`
abbrev pub file_at : List FileInfo → ℤ → Option FileInfo
file_at files (pos n) = get_elem? files n
file_at files (negsuc n) = none

unfoldable pub resolve : List FileInfo → List ℤ → Resolved
resolve files [] = resolved []
resolve files (d ∷ ds) =
    let rest = resolve files ds in
    if leb_ℤ (pos (length files)) d then skipped else cons_found (file_at files d) rest

abbrev pub add_entry : Entry → List FileInfo → Cache → Cache
add_entry e fis c = record c {
  deps_cache = insert e.key fis c.deps_cache;
  lut_by_key = insert e.key e.last_used c.lut_by_key;
}

unfoldable pub add_resolved : Entry → Cache → Resolved → Option Cache
add_resolved e c (resolved fis) = some (add_entry e fis c)
add_resolved e c skipped = some c
add_resolved e c out_of_range = none

-- The loop over the entries; `none` is a panic.
unfoldable pub load_entries : List FileInfo → List Entry → Cache → Option Cache
load_entries files [] c = some c
load_entries files (e ∷ es) c = elim (add_resolved e c (resolve files e.dep_ids)) [
  | none ↦ none
  | some c' ↦ load_entries files es c'
]

abbrev pub with_ready : Option Cache → Option Cache
with_ready none = none
with_ready (some c) = some (record c { ready = true })

-- LoadFromDir
unfoldable pub load_from_dir : Option Database → Cache → Option Cache
load_from_dir none c = some (record c { ready = true })
load_from_dir (some db) c =
    if str_eq db.version c.reclient_version
    then with_ready
        (load_entries db.files db.deps (record c { files_cache = init db.files c.files_cache }))
    else some (record c { ready = true })
