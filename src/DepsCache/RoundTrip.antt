-- ===== src/DepsCache/RoundTrip.antt =====
-- What is loaded after it was written.
use mathlib.Core.List.{append_assoc, append-nil}
use reclient.Prelude.{
  ℕ, suc, Option, none, some, List, [], ◌∷◌, ◌++◌, leb, if◌then◌else◌, ◌≡◌, ◌∙◌, sym, refl, ap,
  arith, Bool, true, false, eq_iff,
}
use reclient.Prelude.Maps.{lookup}
use reclient.DepsCache.{Key, key_eq, Cache, new_cache}
use reclient.DepsCache.Files.{FileInfo, init}
use reclient.DepsCache.Disk.{
  Table, add_files, Entry, deps_of, sorted_keys, new_entry, write_entries, no_table, write_to_disk,
  resolve, load_entries, load_from_dir, with_ready,
}
use reclient.DepsCache.Table.{IsTable, add_files-AllAdded, keys_of}
use reclient.DepsCache.Held.{held, all_held, is_in, written, kept_by, merged, load_first}

load_none :
    (files : List FileInfo) (c d : Cache) (k : Key)
    → all_held (load_entries files [] d) k ≡ some (merged c [] d k)
unfolding load_entries
load_none files c d k = refl

-- Both ends of the loop's test.
load_either :
    (c : Cache) (b : Bool) (p q : List Entry × Table) (after : List FileInfo) (js ks : List Key)
    (d : Cache) (k : Key)
    → all_held (load_entries (p.1.files ++ after) p.0 d) k ≡ some (merged c js d k)
    → all_held (load_entries (q.1.files ++ after) q.0 d) k ≡ some (merged c ks d k)
    → all_held (load_entries ((if b then p else q).1.files ++ after) (if b then p else q).0 d) k
      ≡ some (merged c (if b then js else ks) d k)
load_either c true p q after js ks d k h g = h
load_either c false p q after js ks d k h g = g

record Grown (t u : Table) : Type 0 where
  more : List FileInfo
  extended : u.files ≡ t.files ++ more

either_Grown :
    (b : Bool) (t : Table) (p q : List Entry × Table)
    → Grown t p.1
    → Grown t q.1
    → Grown t (if b then p else q).1
either_Grown true t p q h g = h
either_Grown false t p q h g = g

write_entries-Grown :
    (c : Cache) (ks : List Key) (count : ℕ) (t : Table)
    → IsTable t
    → Grown t (write_entries c ks count t).1
unfolding write_entries
write_entries-Grown c [] count t w = record { more = []; extended = sym (append-nil t.files) }
write_entries-Grown c (j ∷ ks) count t w =
    let a = add_files-AllAdded (deps_of c j) t w in
    let r = add_files (deps_of c j) t in
    let g = write_entries-Grown c ks (suc count) r.1 a.table in
    either_Grown (leb c.max_entries (suc count)) t (new_entry c j r.0 ∷ [], r.1)
      (
        new_entry c j r.0 ∷ (write_entries c ks (suc count) r.1).0,
        (write_entries c ks (suc count) r.1).1,
      )
      (record { more = a.more; extended = a.extended })
      (record {
        more = a.more ++ g.more;
        extended =
            g.extended ∙ ap (λ xs. xs ++ g.more) a.extended ∙ append_assoc t.files a.more g.more;
      })

load-write_entries :
    (c : Cache) (ks : List Key) (count : ℕ) (t : Table) (after : List FileInfo) (d : Cache)
    (k : Key)
    → IsTable t
    → all_held
        (load_entries
          ((write_entries c ks count t).1.files ++ after)
          (write_entries c ks count t).0
          d)
        k
      ≡ some (merged c (written c.max_entries count ks) d k)
unfolding write_entries
load-write_entries c [] count t after d k w = load_none (t.files ++ after) c d k
load-write_entries c (j ∷ ks) count t after d k w =
    let a = add_files-AllAdded (deps_of c j) t w in
    let r = add_files (deps_of c j) t in
    let g = write_entries-Grown c ks (suc count) r.1 a.table in
    load_either c (leb c.max_entries (suc count)) (new_entry c j r.0 ∷ [], r.1)
      (
        new_entry c j r.0 ∷ (write_entries c ks (suc count) r.1).0,
        (write_entries c ks (suc count) r.1).1,
      )
      after (j ∷ []) (j ∷ written c.max_entries (suc count) ks) d k
      (load_first c j r.0 (r.1.files ++ after) [] [] d k (a.decoded after)
        (λ d'. load_none (r.1.files ++ after) c d' k))
      (load_first c j r.0 ((write_entries c ks (suc count) r.1).1.files ++ after)
        (write_entries c ks (suc count) r.1).0 (written c.max_entries (suc count) ks) d k
        (ap (λ xs. keys_of (resolve xs r.0))
            (ap (λ xs. xs ++ after) g.extended ∙ append_assoc r.1.files g.more after)
          ∙ a.decoded (g.more ++ after))
        (λ d'. load-write_entries c ks (suc count) r.1 after d' k a.table))

all_held-with_ready : (o : Option Cache) (k : Key) → all_held (with_ready o) k ≡ all_held o k
all_held-with_ready none k = refl
all_held-with_ready (some c) k = refl

no_table-IsTable : IsTable no_table
unfolding lookup
no_table-IsTable = record { lengths = refl; decodes = λ k i h. ground arith }

abbrev fresh : Cache → ℕ → Cache
fresh c most = record {
  max_entries = most;
  reclient_version = c.reclient_version;
  deps_cache = [];
  files_cache = init (write_to_disk c).0.files [];
  lut_by_key = [];
  ready = false;
}

held-fresh : (c : Cache) (most : ℕ) (k : Key) → held (fresh c most) k ≡ (none, none)
unfolding lookup
held-fresh c most k = refl

-- Loading what a cache was written as into a new cache of the same version does not panic, and the
-- new cache then holds, for each key that the writer got to (the most recently used first, one
-- entry at least and `max_entries` at most otherwise), the paths and digests of the key's
-- dependencies and its time of use, and nothing for any other key.
pub load_from_dir-write_to_disk :
    (c : Cache) (most : ℕ) (k : Key)
    → all_held (load_from_dir (some (write_to_disk c).0) (new_cache most c.reclient_version)) k
      ≡ some
          (if is_in k (written c.max_entries 0 (sorted_keys c)) then kept_by c k else (none, none))
unfolding load_from_dir write_to_disk new_cache
load_from_dir-write_to_disk c most k =
    let (es, t) = write_entries c (sorted_keys c) 0 no_table in
    ap
      (λ b.
        all_held
          (if b
            then with_ready (load_entries t.files es (fresh c most))
            else some (record (fresh c most) { files_cache = []; ready = true }))
          k)
      ((eq_iff c.reclient_version c.reclient_version).1 refl)
    ∙ all_held-with_ready (load_entries t.files es (fresh c most)) k
    ∙ ap (λ xs. all_held (load_entries xs es (fresh c most)) k) (sym (append-nil t.files))
    ∙ load-write_entries c (sorted_keys c) 0 no_table [] (fresh c most) k no_table-IsTable
    ∙ ap (λ x. some (if is_in k (written c.max_entries 0 (sorted_keys c)) then kept_by c k else x))
        (held-fresh c most k)
