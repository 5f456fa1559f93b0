-- ===== src/DepsCache/Loads.antt =====
-- So does loading a database.
use mathlib.Core.Option.{some-injective}
use mathlib.Core.Bool.{true≢false}
use reclient.Prelude.{
  Option, none, some, List, [], ◌∷◌, ◌∙◌, sym, ap, false, Bool-cases, inl, inr, str_eq,
}
use reclient.Prelude.Maps.{insert, string_eq, lookup-insert_same, lookup-insert_other}
use reclient.DepsCache.{key_eq, Cache}
use reclient.DepsCache.Files.{FileInfo, Digests, Known, FileCache, init}
use reclient.DepsCache.Disk.{
  Database, Entry, resolve, Resolved, resolved, skipped, out_of_range, add_resolved, load_entries,
  load_from_dir, with_ready,
}
use reclient.DepsCache.Answers.{IsCurrent}
use reclient.DepsCache.Kept.{either_way}

-- Unless there was a panic, the file entries that are marked as of this run are.
abbrev pub AllCurrent : Digests → Option Cache → Type 0
AllCurrent disk none = Unit
AllCurrent disk (some c) = IsCurrent disk c.files_cache

inserted_stale-IsCurrent :
    (disk : Digests) (fi : FileInfo) (files : FileCache)
    → IsCurrent disk files
    → IsCurrent disk (insert fi.abs_path (record { info = fi; updated = false }) files)
inserted_stale-IsCurrent disk fi files w p k h u =
    let stale : Known = record { info = fi; updated = false } in
    elim (Bool-cases (str_eq fi.abs_path p)) [
      | inl b ↦ absurd (
          true≢false (
            sym u
            ∙ ap (λ z. z.updated)
                (some-injective k stale (sym h ∙ lookup-insert_same fi.abs_path p stale files b))))
      | inr b ↦ w p k (sym (lookup-insert_other fi.abs_path p stale files b) ∙ h) u
    ]

init-IsCurrent :
    (disk : Digests) (fis : List FileInfo) (files : FileCache)
    → IsCurrent disk files
    → IsCurrent disk (init fis files)
unfolding init
init-IsCurrent disk [] files w = w
init-IsCurrent disk (fi ∷ fis) files w =
    init-IsCurrent disk fis (insert fi.abs_path (record { info = fi; updated = false }) files)
      (inserted_stale-IsCurrent disk fi files w)

add_resolved-AllCurrent :
    (disk : Digests) (e : Entry) (c : Cache) (r : Resolved)
    → IsCurrent disk c.files_cache
    → AllCurrent disk (add_resolved e c r)
unfolding add_resolved
add_resolved-AllCurrent disk e c (resolved fis) w = w
add_resolved-AllCurrent disk e c skipped w = w
add_resolved-AllCurrent disk e c out_of_range w = tt

-- A step that keeps the entries current is followed by steps that do.
pub followed_by :
    (disk : Digests) (o : Option Cache) (f : Cache → Option Cache)
    → AllCurrent disk o
    → ((c : Cache) → IsCurrent disk c.files_cache → AllCurrent disk (f c))
    → AllCurrent disk (elim o [ none ↦ none | some c ↦ f c ])
followed_by disk none f w g = tt
followed_by disk (some c) f w g = g c w

load_entries-AllCurrent :
    (disk : Digests) (files : List FileInfo) (es : List Entry) (c : Cache)
    → IsCurrent disk c.files_cache
    → AllCurrent disk (load_entries files es c)
unfolding load_entries
load_entries-AllCurrent disk files [] c w = w
load_entries-AllCurrent disk files (e ∷ es) c w =
    followed_by disk (add_resolved e c (resolve files e.dep_ids)) (load_entries files es)
      (add_resolved-AllCurrent disk e c (resolve files e.dep_ids) w)
      (load_entries-AllCurrent disk files es)

with_ready-AllCurrent :
    (disk : Digests) (o : Option Cache) → AllCurrent disk o → AllCurrent disk (with_ready o)
with_ready-AllCurrent disk none w = w
with_ready-AllCurrent disk (some c) w = w

pub load_from_dir-AllCurrent :
    (disk : Digests) (db : Option Database) (c : Cache)
    → IsCurrent disk c.files_cache
    → AllCurrent disk (load_from_dir db c)
unfolding load_from_dir
load_from_dir-AllCurrent disk none c w = w
load_from_dir-AllCurrent disk (some db) c w =
    either_way (AllCurrent disk) (str_eq db.version c.reclient_version)
      (with_ready-AllCurrent disk (load_entries db.files db.deps started) (
        load_entries-AllCurrent disk db.files db.deps started
          (init-IsCurrent disk db.files c.files_cache w)))
      w
  where
    started : Cache
    started = record c { files_cache = init db.files c.files_cache }
