-- ===== src/DepsCache/Kept.antt =====
-- Lookups and stores keep the file entries that are marked as of this run.
use reclient.Prelude.{
  ℕ, Option, none, some, List, [], ◌∷◌, if◌then◌else◌, Bool, true, false, String, str_eq,
}
use reclient.Prelude.FilePath.{is_abs}
use reclient.Prelude.Maps.{lookup, string_eq}
use reclient.DepsCache.{
  Key, key_eq, Cache, full_key, checked, check_deps, answered, looked_up, with_source, gathered,
  unreadable, relative, get_deps, set_deps, SetError, Collected, all_files, collect_files, stored,
  collected,
}
use reclient.DepsCache.Files.{FileInfo, Digests, FileCache, load}
use reclient.DepsCache.Answers.{IsCurrent, load-Loaded}

pub either_way :
    {A : Type 0} (P : A → Type 0) (b : Bool) {x y : A} → P x → P y → P (if b then x else y)
either_way P true h g = h
either_way P false h g = g

checked-IsCurrent :
    (disk : Digests) (d : FileInfo) (r : Option FileInfo × FileCache)
    (rest : Option (List String) × FileCache)
    → IsCurrent disk r.1
    → IsCurrent disk rest.1
    → IsCurrent disk (checked d r rest).1
unfolding checked
checked-IsCurrent disk d (none, files) rest w v = w
checked-IsCurrent disk d (some fi, files) rest w v =
    either_way (λ (p : Option (List String) × FileCache). IsCurrent disk p.1)
      (str_eq fi.digest d.digest) v w

check_deps-IsCurrent :
    (disk : Digests) (ds : List FileInfo) (files : FileCache)
    → IsCurrent disk files
    → IsCurrent disk (check_deps disk ds files).1
unfolding check_deps
check_deps-IsCurrent disk [] files w = w
check_deps-IsCurrent disk (d ∷ ds) files w =
    let r = load disk files d.abs_path in
    let v = (load-Loaded disk d.abs_path files w).current in
    checked-IsCurrent disk d r (check_deps disk ds r.1) v (check_deps-IsCurrent disk ds r.1 v)

answered-IsCurrent :
    (disk : Digests) (now : ℕ) (k : Key) (c : Cache) (r : Option (List String) × FileCache)
    → IsCurrent disk r.1
    → IsCurrent disk (answered now k c r).1.files_cache
unfolding answered
answered-IsCurrent disk now k c (none, files) w = w
answered-IsCurrent disk now k c (some deps, files) w = w

looked_up-IsCurrent :
    (disk : Digests) (now : ℕ) (k : Key) (c : Cache) (o : Option (List FileInfo))
    → IsCurrent disk c.files_cache
    → IsCurrent disk (looked_up disk now k c o).1.files_cache
unfolding looked_up
looked_up-IsCurrent disk now k c none w = w
looked_up-IsCurrent disk now k c (some ds) w =
    answered-IsCurrent disk now k c (check_deps disk ds c.files_cache)
      (check_deps-IsCurrent disk ds c.files_cache w)

with_source-IsCurrent :
    (disk : Digests) (now : ℕ) (k : Key) (c : Cache) (r : Option FileInfo × FileCache)
    → IsCurrent disk r.1
    → IsCurrent disk (with_source disk now k c r).1.files_cache
unfolding with_source
with_source-IsCurrent disk now k c (none, files) w = w
with_source-IsCurrent disk now k c (some fi, files) w =
    looked_up-IsCurrent disk now (full_key k fi) (record c { files_cache = files })
      (lookup (full_key k fi) c.deps_cache) w

pub get_deps-IsCurrent :
    (disk : Digests) (now : ℕ) (c : Cache) (k : Key)
    → IsCurrent disk c.files_cache
    → IsCurrent disk (get_deps disk now c k).1.files_cache
unfolding get_deps
get_deps-IsCurrent disk now c k w =
    either_way (λ (p : Option (List String) × Cache). IsCurrent disk p.1.files_cache) c.ready
      (with_source-IsCurrent disk now k c (load disk c.files_cache k.src_file_path)
        (load-Loaded disk k.src_file_path c.files_cache w).current)
      w

gathered-IsCurrent :
    (disk : Digests) (r : Option FileInfo × FileCache) (rest : Collected × FileCache)
    → IsCurrent disk r.1
    → IsCurrent disk rest.1
    → IsCurrent disk (gathered r rest).1
unfolding gathered
gathered-IsCurrent disk (none, files) rest w v = w
gathered-IsCurrent disk (some fi, files) rest w v = v

collect_files-IsCurrent :
    (disk : Digests) (deps : List String) (files : FileCache)
    → IsCurrent disk files
    → IsCurrent disk (collect_files disk deps files).1
unfolding collect_files
collect_files-IsCurrent disk [] files w = w
collect_files-IsCurrent disk (d ∷ ds) files w =
    let r = load disk files d in
    let v = (load-Loaded disk d files w).current in
    either_way (λ (p : Collected × FileCache). IsCurrent disk p.1) (is_abs d)
      (gathered-IsCurrent disk r (collect_files disk ds r.1) v
        (collect_files-IsCurrent disk ds r.1 v))
      w

stored-IsCurrent :
    (disk : Digests) (now : ℕ) (k : Key) (infos : List FileInfo) (c : Cache)
    (r : Option FileInfo × FileCache)
    → IsCurrent disk r.1
    → IsCurrent disk (stored now k infos c r).files_cache
unfolding stored
stored-IsCurrent disk now k infos c (none, files) w = w
stored-IsCurrent disk now k infos c (some fi, files) w = w

collected-IsCurrent :
    (disk : Digests) (now : ℕ) (k : Key) (c : Cache) (r : Collected × FileCache)
    → IsCurrent disk r.1
    → IsCurrent disk (collected disk now k c r).1.files_cache
unfolding collected
collected-IsCurrent disk now k c (all_files infos, files) w =
    stored-IsCurrent disk now k infos c (load disk files k.src_file_path)
      (load-Loaded disk k.src_file_path files w).current
collected-IsCurrent disk now k c (unreadable, files) w = w
collected-IsCurrent disk now k c (relative d, files) w = w

pub set_deps-IsCurrent :
    (disk : Digests) (now : ℕ) (c : Cache) (k : Key) (deps : List String)
    → IsCurrent disk c.files_cache
    → IsCurrent disk (set_deps disk now c k deps).1.files_cache
unfolding set_deps
set_deps-IsCurrent disk now c k deps w =
    either_way (λ (p : Option SetError × Cache). IsCurrent disk p.1.files_cache) c.ready
      (collected-IsCurrent disk now k c (collect_files disk deps c.files_cache)
        (collect_files-IsCurrent disk deps c.files_cache w))
      w
