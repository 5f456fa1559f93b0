-- ===== src/DepsCache/Table.antt =====
-- The ids that WriteToDisk gives to files stand for files with the same path and digest.
use mathlib.Core.List.{append_assoc, append-nil}
use mathlib.Core.Option.{some-injective}
use reclient.Prelude.{
  ℕ, suc, zero, Option, none, some, List, [], ◌∷◌, ◌++◌, map, length, get_elem?, length-append,
  if◌then◌else◌, ◌≡◌, ◌∙◌, sym, refl, ap, ◌<◌, arith, Bool, true, false, Bool-cases, inl, inr,
}
use reclient.Prelude.Int.{ℤ, pos, leb_ℤ}
use reclient.Prelude.Maps.{lookup, insert, lookup-insert_same, lookup-insert_other, length-insert}
use reclient.DepsCache.Files.{FileInfo}
use reclient.DepsCache.Disk.{
  FileKey, file_key, file_key_eq, file_key_beq, file_key_beq_iff, Table, add_known, add_file,
  add_files, Resolved, resolved, skipped, out_of_range, resolve, cons_resolved, cons_found,
}

abbrev pub key_at : List FileInfo → ℕ → Option FileKey
key_at [] i = none
key_at (fi ∷ fis) zero = some (file_key fi)
key_at (fi ∷ fis) (suc i) = key_at fis i

pub key_at-append :
    (xs ys : List FileInfo) (i : ℕ) (k : FileKey)
    → key_at xs i ≡ some k
    → key_at (xs ++ ys) i ≡ some k
key_at-append [] ys i k h = ground arith
key_at-append (x ∷ xs) ys zero k h = h
key_at-append (x ∷ xs) ys (suc i) k h = key_at-append xs ys i k h

pub key_at-length :
    (xs : List FileInfo) (y : FileInfo) → key_at (xs ++ y ∷ []) (length xs) ≡ some (file_key y)
key_at-length [] y = refl
key_at-length (x ∷ xs) y = key_at-length xs y

pub record IsTable (t : Table) : Type 0 where
  pub lengths : length t.files ≡ length t.index
  pub decodes : (k : FileKey) (i : ℕ) → lookup k t.index ≡ some i → key_at t.files i ≡ some k

-- What adding files does: the table stays one, its files are extended, the id stands for the file.
pub record Added (fi : FileInfo) (t : Table) (r : ℕ × Table) : Type 0 where
  pub table : IsTable r.1
  pub more : List FileInfo
  pub extended : r.1.files ≡ t.files ++ more
  pub decoded : key_at r.1.files r.0 ≡ some (file_key fi)

inserted_decodes :
    (fi : FileInfo) (t : Table)
    → IsTable t
    → (k : FileKey) (i : ℕ) → lookup k (insert (file_key fi) (length t.index) t.index) ≡ some i
    → key_at (t.files ++ fi ∷ []) i ≡ some k
inserted_decodes fi t w k i h = elim (Bool-cases (file_key_beq (file_key fi) k)) [
  | inl e ↦ grind (
    arith,
    key_at-length t.files fi,
    w.lengths,
    (file_key_beq_iff (file_key fi) k).0 e,
    lookup-insert_same (file_key fi) k (length t.index) t.index e,
  )
  | inr e ↦
      key_at-append t.files (fi ∷ []) i k
        (w.decodes k i (sym (lookup-insert_other (file_key fi) k (length t.index) t.index e) ∙ h))
]

add_known-Added :
    (fi : FileInfo) (t : Table) (o : Option ℕ)
    → IsTable t
    → lookup (file_key fi) t.index ≡ o
    → Added fi t (add_known fi t o)
unfolding add_known
add_known-Added fi t (some i) w e = record {
  table = w;
  more = [];
  extended = sym (append-nil t.files);
  decoded = w.decodes (file_key fi) i e;
}
add_known-Added fi t none w e = record {
  table = record {
    lengths = grind (
      arith,
      length-append t.files (fi ∷ []),
      w.lengths,
      length-insert (file_key fi) (length t.index) t.index,
    );
    decodes = inserted_decodes fi t w;
  };
  more = fi ∷ [];
  extended = refl;
  decoded = rw (sym w.lengths, key_at-length t.files fi);
}

pub add_file-Added : (fi : FileInfo) (t : Table) → IsTable t → Added fi t (add_file fi t)
unfolding add_file
add_file-Added fi t w = add_known-Added fi t (lookup (file_key fi) t.index) w refl

-- The paths and digests of what the ids of an entry stand for.
abbrev pub keys_of : Resolved → Option (List FileKey)
keys_of (resolved fis) = some (map file_key fis)
keys_of skipped = none
keys_of out_of_range = none

key_at-lt :
    (files : List FileInfo) (i : ℕ) (k : FileKey) → key_at files i ≡ some k → i < length files
key_at-lt [] i k h = ground arith
key_at-lt (fi ∷ fis) zero k h = omega arith
key_at-lt (fi ∷ fis) (suc i) k h = omega (arith, key_at-lt fis i k h)

keys_of-cons_resolved :
    (fi : FileInfo) (r : Resolved) (ks : List FileKey)
    → keys_of r ≡ some ks
    → keys_of (cons_resolved fi r) ≡ some (file_key fi ∷ ks)
keys_of-cons_resolved fi (resolved fis) ks h = ground arith
keys_of-cons_resolved fi skipped ks h = ground arith
keys_of-cons_resolved fi out_of_range ks h = ground arith

keys_of-cons_found :
    (files : List FileInfo) (i : ℕ) (k : FileKey) (r : Resolved) (ks : List FileKey)
    → key_at files i ≡ some k
    → keys_of r ≡ some ks
    → keys_of (cons_found (get_elem? files i) r) ≡ some (k ∷ ks)
keys_of-cons_found [] i k r ks h g = ground arith
keys_of-cons_found (fi ∷ fis) zero k r ks h g =
    keys_of-cons_resolved fi r ks g ∙ ap (λ j. some (j ∷ ks)) (some-injective (file_key fi) k h)
keys_of-cons_found (fi ∷ fis) (suc i) k r ks h g = keys_of-cons_found fis i k r ks h g

if_in_range :
    (r : Resolved) (b : Bool) (ks : Option (List FileKey))
    → b ≡ false
    → keys_of r ≡ ks
    → keys_of (if b then skipped else r) ≡ ks
if_in_range r true ks e h = ground arith
if_in_range r false ks e h = h

resolve_cons :
    (files : List FileInfo) (i : ℕ) (k : FileKey) (ds : List ℤ) (ks : List FileKey)
    → key_at files i ≡ some k
    → keys_of (resolve files ds) ≡ some ks
    → keys_of (resolve files (pos i ∷ ds)) ≡ some (k ∷ ks)
unfolding resolve
resolve_cons files i k ds ks h g =
    if_in_range (cons_found (get_elem? files i) (resolve files ds))
      (leb_ℤ (pos (length files)) (pos i)) (some (k ∷ ks)) (grind (arith, key_at-lt files i k h))
      (keys_of-cons_found files i k (resolve files ds) ks h g)

-- The same of a list of files, whatever files come after.
pub record AllAdded (fis : List FileInfo) (t : Table) (r : List ℤ × Table) : Type 0 where
  pub table : IsTable r.1
  pub more : List FileInfo
  pub extended : r.1.files ≡ t.files ++ more
  pub decoded :
      (after : List FileInfo) → keys_of (resolve (r.1.files ++ after) r.0) ≡ some (map file_key fis)

pub add_files-AllAdded :
    (fis : List FileInfo) (t : Table) → IsTable t → AllAdded fis t (add_files fis t)
unfolding add_files resolve
add_files-AllAdded [] t w = record {
  table = w;
  more = [];
  extended = sym (append-nil t.files);
  decoded = λ after. refl;
}
add_files-AllAdded (fi ∷ fis) t w =
    let first = add_file-Added fi t w in
    let rest = add_files-AllAdded fis (add_file fi t).1 first.table in
    let kept =
      ap (λ xs. key_at xs (add_file fi t).0) rest.extended
      ∙ key_at-append (add_file fi t).1.files rest.more (add_file fi t).0 (file_key fi)
          first.decoded in
    let rest_files = (add_files fis (add_file fi t).1).1.files in
    record {
      table = rest.table;
      more = first.more ++ rest.more;
      extended =
          rest.extended
          ∙ ap (λ xs. xs ++ rest.more) first.extended
          ∙ append_assoc t.files first.more rest.more;
      decoded = λ after.
          resolve_cons (rest_files ++ after) (add_file fi t).0 (file_key fi)
            (add_files fis (add_file fi t).1).0 (map file_key fis)
            (key_at-append rest_files after (add_file fi t).0 (file_key fi) kept)
            (rest.decoded after);
    }
