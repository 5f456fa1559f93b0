-- ===== src/DepsCache/Held.antt =====
-- What a cache holds for a key, and what loading entries adds to it.
use mathlib.Core.Option.{some-injective}
use reclient.Prelude.{
  ℕ, suc, Option, none, some, List, [], ◌∷◌, map, leb, if◌then◌else◌, ◌≡◌, ◌∙◌, sym, refl, ap,
  arith, Bool, true, false, Bool-cases, inl, inr, ◌||◌,
}
use reclient.Prelude.Int.{ℤ}
use reclient.Prelude.Maps.{lookup, lookup-insert_same, lookup-insert_other}
use reclient.DepsCache.{Key, key_beq, key_eq, key_beq_iff, Cache}
use reclient.DepsCache.Files.{FileInfo}
use reclient.DepsCache.Disk.{
  FileKey, file_key, Entry, deps_of, last_use, new_entry, Resolved, resolved, skipped, out_of_range,
  resolve, add_entry, add_resolved, load_entries,
}
use reclient.DepsCache.Table.{keys_of}

-- What a cache holds for a key: the paths and digests of the dependencies, and the time of use.
abbrev pub keys_in : Option (List FileInfo) → Option (List FileKey)
keys_in none = none
keys_in (some fis) = some (map file_key fis)

abbrev pub held : Cache → Key → Option (List FileKey) × Option ℕ
held c k = (keys_in (lookup k c.deps_cache), lookup k c.lut_by_key)

abbrev pub all_held : Option Cache → Key → Option (Option (List FileKey) × Option ℕ)
all_held none k = none
all_held (some c) k = some (held c k)

abbrev pub is_in : Key → List Key → Bool
is_in k [] = false
is_in k (j ∷ js) = key_beq j k || is_in k js

-- The keys that the loop writes: at least one, and not more than `max_entries` otherwise.
abbrev pub written : ℕ → ℕ → List Key → List Key
written most count [] = []
written most count (k ∷ ks) =
    let rest = written most (suc count) ks in if leb most (suc count) then k ∷ [] else k ∷ rest

abbrev pub kept_by : Cache → Key → Option (List FileKey) × Option ℕ
kept_by c k = (some (map file_key (deps_of c k)), some (last_use c k))

-- An entry whose ids are all of files is loaded.
pub record Loaded (e : Entry) (d : Cache) (ks : List FileKey) (r : Option Cache) : Type 0 where
  pub files : List FileInfo
  pub keys : map file_key files ≡ ks
  pub cache : r ≡ some (add_entry e files d)

add_resolved-Loaded :
    (e : Entry) (d : Cache) (ks : List FileKey) (r : Resolved)
    → keys_of r ≡ some ks
    → Loaded e d ks (add_resolved e d r)
unfolding add_resolved
add_resolved-Loaded e d ks (resolved fis) h = record {
  files = fis;
  keys = some-injective (map file_key fis) ks h;
  cache = refl;
}
add_resolved-Loaded e d ks skipped h = ground arith
add_resolved-Loaded e d ks out_of_range h = ground arith

held-add_entry :
    (e : Entry) (fis : List FileInfo) (d : Cache) (k : Key)
    → held (add_entry e fis d) k
      ≡ (if key_beq e.key k then (some (map file_key fis), some e.last_used) else held d k)
held-add_entry e fis d k = elim (Bool-cases (key_beq e.key k)) [
  | inl h ↦ rw (
    lookup-insert_same e.key k fis d.deps_cache h,
    lookup-insert_same e.key k e.last_used d.lut_by_key h,
    h,
  )
  | inr h ↦ rw (
    lookup-insert_other e.key k fis d.deps_cache h,
    lookup-insert_other e.key k e.last_used d.lut_by_key h,
    h,
  )
]

load_entries_cons :
    (files : List FileInfo) (e : Entry) (es : List Entry) (d d' : Cache)
    → add_resolved e d (resolve files e.dep_ids) ≡ some d'
    → load_entries files (e ∷ es) d ≡ load_entries files es d'
unfolding load_entries
load_entries_cons files e es d d' h =
    ap (λ o. elim o [ none ↦ none | some c ↦ load_entries files es c ]) h

-- What is held for a key after the entries that the loop writes are loaded.
abbrev pub merged : Cache → List Key → Cache → Key → Option (List FileKey) × Option ℕ
merged c ks d k = if is_in k ks then kept_by c k else held d k

if_same : {A : Type 0} (b : Bool) (x : A) → (if b then x else x) ≡ x
if_same true x = refl
if_same false x = refl

held_same :
    (c : Cache) (j : Key) (d : Cache) (fis : List FileInfo) (ids : List ℤ) (k : Key)
    → map file_key fis ≡ map file_key (deps_of c j)
    → key_beq j k ≡ true
    → held (add_entry (new_entry c j ids) fis d) k ≡ kept_by c k
held_same c j d fis ids k h e =
    held-add_entry (new_entry c j ids) fis d k
    ∙ ap (λ b. if b then (some (map file_key fis), some (last_use c j)) else held d k) e
    ∙ ap (λ x. (some x, some (last_use c j))) h
    ∙ ap (kept_by c) ((key_beq_iff j k).0 e)

held_other :
    (e : Entry) (d : Cache) (fis : List FileInfo) (k : Key)
    → key_beq e.key k ≡ false
    → held (add_entry e fis d) k ≡ held d k
held_other e d fis k h =
    held-add_entry e fis d k
    ∙ ap (λ b. if b then (some (map file_key fis), some e.last_used) else held d k) h

merged_cons :
    (c : Cache) (j : Key) (ks : List Key) (d : Cache) (fis : List FileInfo) (ids : List ℤ) (k : Key)
    → map file_key fis ≡ map file_key (deps_of c j)
    → merged c ks (add_entry (new_entry c j ids) fis d) k ≡ merged c (j ∷ ks) d k
merged_cons c j ks d fis ids k h = elim (Bool-cases (key_beq j k)) [
  | inl e ↦
      ap (λ x. if is_in k ks then kept_by c k else x) (held_same c j d fis ids k h e)
      ∙ if_same (is_in k ks) (kept_by c k)
      ∙ ap (λ b. if b || is_in k ks then kept_by c k else held d k) (sym e)
  | inr e ↦
      ap (λ x. if is_in k ks then kept_by c k else x) (held_other (new_entry c j ids) d fis k e)
      ∙ ap (λ b. if b || is_in k ks then kept_by c k else held d k) (sym e)
]

pub load_first :
    (c : Cache) (j : Key) (ids : List ℤ) (files : List FileInfo) (es : List Entry) (ks : List Key)
    (d : Cache) (k : Key)
    → keys_of (resolve files ids) ≡ some (map file_key (deps_of c j))
    → ((d' : Cache) → all_held (load_entries files es d') k ≡ some (merged c ks d' k))
    → all_held (load_entries files (new_entry c j ids ∷ es) d) k ≡ some (merged c (j ∷ ks) d k)
load_first c j ids files es ks d k h f =
    let e = new_entry c j ids in
    let l = add_resolved-Loaded e d (map file_key (deps_of c j)) (resolve files ids) h in
    ap (λ o. all_held o k) (load_entries_cons files e es d (add_entry e l.files d) l.cache)
    ∙ f (add_entry e l.files d)
    ∙ ap some (merged_cons c j ks d l.files ids k l.keys)
