-- ===== src/DepsCache/Stored.antt =====
-- SetDeps, and GetDeps after it.
use mathlib.Core.Option.{some-injective}
use reclient.Prelude.{
  ℕ, Option, none, some, List, [], ◌∷◌, if◌then◌else◌, ◌≡◌, ◌∙◌, sym, refl, ap, arith, Bool, true,
  ◌&&◌, String, eq_iff, is_some, subst,
}
use reclient.Prelude.FilePath.{is_abs}
use reclient.Prelude.Maps.{lookup, insert, string_eq, lookup-insert_self}
use reclient.DepsCache.{
  Key, key_eq, Cache, full_key, gathered, relative, get_deps, set_deps, Collected, all_files,
  collect_files, cons_file, stored, collected,
}
use reclient.DepsCache.Files.{FileInfo, MinDigest, Digests, FileCache, info_of, load}
use reclient.DepsCache.Answers.{
  info_for, IsCurrent, load-Loaded, digest_is, all_current, paths, paths_if, answer_of, answer_for,
  get_deps_lem,
}

-- A path that SetDeps accepts.
abbrev pub usable : Digests → String → Bool
usable disk d = is_abs d && is_some (disk d)

abbrev pub all_usable : Digests → List String → Bool
all_usable disk [] = true
all_usable disk (d ∷ ds) = usable disk d && all_usable disk ds

-- What the loop collects where all paths are usable.
record AllLoaded (disk : Digests) (deps : List String) (r : Collected × FileCache) : Type 0 where
  infos : List FileInfo
  collected : r.0 ≡ all_files infos
  same_paths : paths infos ≡ deps
  fresh : all_current disk infos ≡ true
  current : IsCurrent disk r.1

and_left : (a b c : Bool) → (a && b) && c ≡ true → a ≡ true
and_left a b c h = ground arith

and_middle : (a b c : Bool) → (a && b) && c ≡ true → b ≡ true
and_middle a b c h = ground arith

and_right : (a b c : Bool) → (a && b) && c ≡ true → c ≡ true
and_right a b c h = ground arith

gathered-AllLoaded :
    (disk : Digests) (d : String) (ds : List String) (o : Option MinDigest)
    (r : Option FileInfo × FileCache) (rest : Collected × FileCache)
    → disk d ≡ o
    → is_some o ≡ true
    → r.0 ≡ info_for d o
    → AllLoaded disk ds rest
    → AllLoaded disk (d ∷ ds) (gathered r rest)
unfolding gathered
gathered-AllLoaded disk d ds none r rest e h a l = ground arith
gathered-AllLoaded disk d ds (some md) (none, files) rest e h a l = ground arith
gathered-AllLoaded disk d ds (some md) (some fi, files) rest e h a l =
    let same = some-injective fi (info_of d md) a in
    record {
      infos = fi ∷ l.infos;
      collected = ap (cons_file fi) l.collected;
      same_paths = ap (λ i. i.abs_path ∷ paths l.infos) same ∙ ap (λ ps. d ∷ ps) l.same_paths;
      fresh =
          ap (λ i. digest_is i (disk i.abs_path) && all_current disk l.infos) same
          ∙ ap (λ m. digest_is (info_of d md) m && all_current disk l.infos) e
          ∙ grind (arith, (eq_iff md.digest md.digest).1 refl, l.fresh);
      current = l.current;
    }

collect_files-AllLoaded :
    (disk : Digests) (deps : List String) (files : FileCache)
    → IsCurrent disk files
    → all_usable disk deps ≡ true
    → AllLoaded disk deps (collect_files disk deps files)
unfolding collect_files
collect_files-AllLoaded disk [] files w h = record {
  infos = [];
  collected = refl;
  same_paths = refl;
  fresh = refl;
  current = w;
}
collect_files-AllLoaded disk (d ∷ ds) files w h =
    let r = load disk files d in
    let l = load-Loaded disk d files w in
    subst
      (λ b.
        AllLoaded disk (d ∷ ds)
          (if b then gathered r (collect_files disk ds r.1) else (relative d, files)))
      (sym (and_left (is_abs d) (is_some (disk d)) (all_usable disk ds) h))
      (gathered-AllLoaded disk d ds (disk d) r (collect_files disk ds r.1) refl
        (and_middle (is_abs d) (is_some (disk d)) (all_usable disk ds) h) l.answer
        (collect_files-AllLoaded disk ds r.1 l.current
          (and_right (is_abs d) (is_some (disk d)) (all_usable disk ds) h)))

-- What is stored once everything is collected and the source file's digest is known.
stored-answer :
    (disk : Digests) (now : ℕ) (k : Key) (infos : List FileInfo) (c : Cache)
    (r : Option FileInfo × FileCache) (md : MinDigest)
    → r.0 ≡ some (info_of k.src_file_path md)
    → answer_for disk (stored now k infos c r) k (some (info_of k.src_file_path md))
      ≡ paths_if (all_current disk infos) infos
unfolding stored
stored-answer disk now k infos c (none, files) md h = ground arith
stored-answer disk now k infos c (some fi, files) md h =
    let same = some-injective fi (info_of k.src_file_path md) h in
    ap (λ i. answer_of disk (lookup (full_key k i) (insert (full_key k fi) infos c.deps_cache)))
      (sym same)
    ∙ ap (answer_of disk) (lookup-insert_self (full_key k fi) infos c.deps_cache)

-- The fields that SetDeps leaves and the files it loads.
record Stored (disk : Digests) (c : Cache) (d : Cache) : Type 0 where
  ready : d.ready ≡ c.ready
  current : IsCurrent disk d.files_cache

stored-Stored :
    (disk : Digests) (now : ℕ) (k : Key) (infos : List FileInfo) (c : Cache)
    (r : Option FileInfo × FileCache)
    → IsCurrent disk r.1
    → Stored disk c (stored now k infos c r)
unfolding stored
stored-Stored disk now k infos c (none, files) w = record { ready = refl; current = w }
stored-Stored disk now k infos c (some fi, files) w = record { ready = refl; current = w }

set_deps-stored :
    (disk : Digests) (now : ℕ) (c : Cache) (k : Key) (deps : List String) (infos : List FileInfo)
    → c.ready ≡ true
    → (collect_files disk deps c.files_cache).0 ≡ all_files infos
    → set_deps disk now c k deps ≡ (
      none,
      stored now k infos c (load disk (collect_files disk deps c.files_cache).1 k.src_file_path),
    )
unfolding set_deps collected
set_deps-stored disk now c k deps infos h e =
    let r = collect_files disk deps c.files_cache in
    ap (λ b. if b then collected disk now k c r else (none, c)) h
    ∙ ap (λ x. collected disk now k c (x, r.1)) e

-- In a ready cache with file entries that are marked as of this run only if they are, SetDeps of
-- readable absolute paths, for a readable source file, succeeds, and GetDeps of the same key on
-- the cache that it leaves answers with these paths.
pub get_deps-set_deps :
    (disk : Digests) (now later : ℕ) (c : Cache) (k : Key) (deps : List String) (md : MinDigest)
    → IsCurrent disk c.files_cache
    → c.ready ≡ true
    → all_usable disk deps ≡ true
    → disk k.src_file_path ≡ some md
    → ((set_deps disk now c k deps).0 ≡ none)
      × ((get_deps disk later (set_deps disk now c k deps).1 k).0 ≡ some deps)
get_deps-set_deps disk now later c k deps md w h u e =
    let a = collect_files-AllLoaded disk deps c.files_cache w u in
    let files = (collect_files disk deps c.files_cache).1 in
    let l = load-Loaded disk k.src_file_path files a.current in
    let s = stored-Stored disk now k a.infos c (load disk files k.src_file_path) l.current in
    let d = stored now k a.infos c (load disk files k.src_file_path) in
    let same = set_deps-stored disk now c k deps a.infos h a.collected in
    (
      ap (λ r. r.0) same,
      ap (λ r. (get_deps disk later r.1 k).0) same
          ∙ get_deps_lem disk later d k s.current (s.ready ∙ h)
          ∙ ap (λ m. answer_for disk d k (info_for k.src_file_path m)) e
          ∙ stored-answer disk now k a.infos c (load disk files k.src_file_path) md
              (l.answer ∙ ap (info_for k.src_file_path) e)
          ∙ ap (λ b. paths_if b a.infos) a.fresh
          ∙ ap some a.same_paths,
    )
