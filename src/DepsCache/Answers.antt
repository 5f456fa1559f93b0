-- ===== src/DepsCache/Answers.antt =====
-- What GetDeps answers from, and that SetDeps stores what GetDeps answers.
use mathlib.Core.Option.{some-injective}
use reclient.Prelude.{
  ℕ, Option, none, some, List, [], ◌∷◌, map, if◌then◌else◌, ◌≡◌, ◌∙◌, sym, refl, ap, arith, Bool,
  true, false, Bool-cases, inl, inr, ◌&&◌, String, str_eq, eq_iff,
}
use reclient.Prelude.Maps.{lookup, insert, string_eq, lookup-insert_same, lookup-insert_other}
use reclient.DepsCache.{
  Key, key_eq, Cache, full_key, checked, check_deps, get_deps, answered, looked_up, with_source,
}
use reclient.DepsCache.Files.{
  FileInfo, MinDigest, Digests, Known, FileCache, info_of, refresh, load_known, load,
}

-- What is to be known of a file in this run.
abbrev pub info_for : String → Option MinDigest → Option FileInfo
info_for path none = none
info_for path (some md) = some (info_of path md)

-- The entries that are marked as of this run are.
abbrev pub IsCurrent : Digests → FileCache → Type 0
IsCurrent disk files =
    (path : String) (k : Known)
    → lookup path files ≡ some k
    → k.updated ≡ true
    → some k.info ≡ info_for path (disk path)

-- A load answers with this run's file, and the cache stays current.
pub record Loaded (disk : Digests) (path : String) (r : Option FileInfo × FileCache) : Type 0 where
  pub answer : r.0 ≡ info_for path (disk path)
  pub current : IsCurrent disk r.1

inserted-IsCurrent :
    (disk : Digests) (path : String) (md : MinDigest) (files : FileCache)
    → disk path ≡ some md
    → IsCurrent disk files
    → IsCurrent disk (insert path (record { info = info_of path md; updated = true }) files)
inserted-IsCurrent disk path md files e w p k h u =
    let fresh : Known = record { info = info_of path md; updated = true } in
    elim (Bool-cases (str_eq path p)) [
      | inl b ↦
          ap (λ z. some z.info)
            (some-injective k fresh (sym h ∙ lookup-insert_same path p fresh files b))
          ∙ ap (info_for path) (sym e)
          ∙ ap (λ q. info_for q (disk q)) ((eq_iff path p).0 b)
      | inr b ↦ w p k (sym (lookup-insert_other path p fresh files b) ∙ h) u
    ]

refresh-Loaded :
    (disk : Digests) (path : String) (files : FileCache) (o : Option MinDigest)
    → disk path ≡ o
    → IsCurrent disk files
    → Loaded disk path (refresh path files o)
unfolding refresh
refresh-Loaded disk path files none e w = record {
  answer = ap (info_for path) (sym e);
  current = w;
}
refresh-Loaded disk path files (some md) e w = record {
  answer = ap (info_for path) (sym e);
  current = inserted-IsCurrent disk path md files e w;
}

either_Loaded :
    (disk : Digests) (path : String) (b : Bool) (p q : Option FileInfo × FileCache)
    → (b ≡ true → Loaded disk path p)
    → Loaded disk path q
    → Loaded disk path (if b then p else q)
either_Loaded disk path true p q f g = f refl
either_Loaded disk path false p q f g = g

load_known-Loaded :
    (disk : Digests) (path : String) (files : FileCache) (o : Option Known)
    → lookup path files ≡ o
    → IsCurrent disk files
    → Loaded disk path (load_known disk files path o)
unfolding load_known
load_known-Loaded disk path files none e w = refresh-Loaded disk path files (disk path) refl w
load_known-Loaded disk path files (some k) e w =
    either_Loaded disk path k.updated (some k.info, files) (refresh path files (disk path))
      (λ u. record { answer = w path k e u; current = w })
      (refresh-Loaded disk path files (disk path) refl w)

pub load-Loaded :
    (disk : Digests) (path : String) (files : FileCache)
    → IsCurrent disk files
    → Loaded disk path (load disk files path)
unfolding load
load-Loaded disk path files w = load_known-Loaded disk path files (lookup path files) refl w

-- The digest recorded for a file is this run's.
abbrev pub digest_is : FileInfo → Option MinDigest → Bool
digest_is d none = false
digest_is d (some md) = str_eq md.digest d.digest

abbrev pub all_current : Digests → List FileInfo → Bool
all_current disk [] = true
all_current disk (d ∷ ds) = digest_is d (disk d.abs_path) && all_current disk ds

abbrev pub paths : List FileInfo → List String
paths = map (λ fi. fi.abs_path)

abbrev pub paths_if : Bool → List FileInfo → Option (List String)
paths_if b ds = if b then some (paths ds) else none

checked-answer :
    (d : FileInfo) (ds : List FileInfo) (o : Option MinDigest) (b : Bool)
    (r : Option FileInfo × FileCache) (rest : Option (List String) × FileCache)
    → r.0 ≡ info_for d.abs_path o
    → rest.0 ≡ paths_if b ds
    → (checked d r rest).0 ≡ paths_if (digest_is d o && b) (d ∷ ds)
unfolding checked
checked-answer d ds none b (none, files) rest h g = refl
checked-answer d ds none b (some fi, files) rest h g = ground arith
checked-answer d ds (some md) b (none, files) rest h g = ground arith
checked-answer d ds (some md) true (some fi, files) rest h g = ground arith
checked-answer d ds (some md) false (some fi, files) rest h g = ground arith

check_deps-answer :
    (disk : Digests) (ds : List FileInfo) (files : FileCache)
    → IsCurrent disk files
    → (check_deps disk ds files).0 ≡ paths_if (all_current disk ds) ds
unfolding check_deps
check_deps-answer disk [] files w = refl
check_deps-answer disk (d ∷ ds) files w =
    let l = load-Loaded disk d.abs_path files w in
    let r = load disk files d.abs_path in
    checked-answer d ds (disk d.abs_path) (all_current disk ds) r (check_deps disk ds r.1) l.answer
      (check_deps-answer disk ds r.1 l.current)

-- What GetDeps is to answer: the recorded paths, where all their digests are this run's.
abbrev pub answer_of : Digests → Option (List FileInfo) → Option (List String)
answer_of disk none = none
answer_of disk (some ds) = paths_if (all_current disk ds) ds

abbrev pub answer_for : Digests → Cache → Key → Option FileInfo → Option (List String)
answer_for disk c k none = none
answer_for disk c k (some fi) = answer_of disk (lookup (full_key k fi) c.deps_cache)

answered-same :
    (now : ℕ) (k : Key) (c : Cache) (r : Option (List String) × FileCache)
    → (answered now k c r).0 ≡ r.0
unfolding answered
answered-same now k c (none, files) = refl
answered-same now k c (some deps, files) = refl

looked_up-answer :
    (disk : Digests) (now : ℕ) (k : Key) (c : Cache) (o : Option (List FileInfo))
    → IsCurrent disk c.files_cache
    → (looked_up disk now k c o).0 ≡ answer_of disk o
unfolding looked_up
looked_up-answer disk now k c none w = refl
looked_up-answer disk now k c (some ds) w =
    answered-same now k c (check_deps disk ds c.files_cache)
    ∙ check_deps-answer disk ds c.files_cache w

with_source-answer :
    (disk : Digests) (now : ℕ) (k : Key) (c : Cache) (r : Option FileInfo × FileCache)
    → IsCurrent disk r.1
    → (with_source disk now k c r).0 ≡ answer_for disk c k r.0
unfolding with_source
with_source-answer disk now k c (none, files) w = refl
with_source-answer disk now k c (some fi, files) w =
    looked_up-answer disk now (full_key k fi) (record c { files_cache = files })
      (lookup (full_key k fi) c.deps_cache) w

-- With file entries that are marked as of this run only if they are, GetDeps of a ready cache
-- answers exactly when the source file is readable, dependencies are recorded for the command, the
-- source and the source's digest in this run, and every dependency is readable and has the
-- recorded digest in this run; the answer is then the recorded paths in order.
pub get_deps_lem :
    (disk : Digests) (now : ℕ) (c : Cache) (k : Key)
    → IsCurrent disk c.files_cache
    → c.ready ≡ true
    → (get_deps disk now c k).0
      ≡ answer_for disk c k (info_for k.src_file_path (disk k.src_file_path))
unfolding get_deps
get_deps_lem disk now c k w h =
    let l = load-Loaded disk k.src_file_path c.files_cache w in
    ap
      (λ b.
        (if b
          then with_source disk now k c (load disk c.files_cache k.src_file_path)
          else (none, c)).0)
      h
    ∙ with_source-answer disk now k c (load disk c.files_cache k.src_file_path) l.current
    ∙ ap (answer_for disk c k) l.answer
