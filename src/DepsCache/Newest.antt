-- ===== src/DepsCache/Newest.antt =====
-- Which entries WriteToDisk leaves out.
use reclient.Prelude.{
  ℕ, suc, some, List, [], ◌∷◌, leb, ◌≡◌, ◌∙◌, sym, refl, ap, arith, Bool, true, false, Bool-cases,
  inl, inr, ◌||◌, ◌≤◌, leb→le, subst,
}
use reclient.Prelude.Maps.{Map, lookup, keys}
use reclient.Prelude.Sort.{sort, insert_sorted}
use reclient.Prelude.Sort.Order.{AllBy, IsSorted, sort-IsSorted}
use reclient.DepsCache.{Key, key_beq, key_eq, key_beq_iff, Cache}
use reclient.DepsCache.Files.{FileInfo}
use reclient.DepsCache.Disk.{last_use, sorted_keys}
use reclient.DepsCache.Held.{is_in, written}

module _ (leq : Key → Key → Bool) where
  is_in-insert_sorted :
      (k a : Key) (xs : List Key) → is_in k (insert_sorted leq a xs) ≡ is_in k (a ∷ xs)
  unfolding insert_sorted
  is_in-insert_sorted k a [] = refl
  is_in-insert_sorted k a (x ∷ xs) = ground (arith, is_in-insert_sorted k a xs)

  is_in-sort : (k : Key) (xs : List Key) → is_in k (sort leq xs) ≡ is_in k xs
  unfolding sort
  is_in-sort k [] = refl
  is_in-sort k (x ∷ xs) =
      is_in-insert_sorted k x (sort leq xs) ∙ ap (λ b. key_beq x k || b) (is_in-sort k xs)

  AllBy-is_in :
      (k : Key) (q : Key → Bool) (xs : List Key) → AllBy q xs → is_in k xs ≡ true → q k ≡ true
  AllBy-is_in k q [] h m = ground arith
  AllBy-is_in k q (x ∷ xs) h m = elim (Bool-cases (key_beq x k)) [
    | inl e ↦ subst (λ y. q y ≡ true) ((key_beq_iff x k).0 e) h.0
    | inr e ↦ AllBy-is_in k q xs h.1 (ap (λ b. b || is_in k xs) (sym e) ∙ m)
  ]

  written_sorted :
      (most count : ℕ) (xs : List Key) (j k : Key)
      → IsSorted leq xs
      → is_in k (written most count xs) ≡ true
      → is_in j xs ≡ true
      → is_in j (written most count xs) ≡ false
      → leq k j ≡ true
  written_sorted most count [] j k s h m n = ground arith
  written_sorted most count (x ∷ xs) j k s h m n = elim (Bool-cases (key_beq x j)) [
    | inl f ↦ ground arith
    | inr f ↦ elim (Bool-cases (key_beq x k)) [
      | inl e ↦
          subst (λ y. leq y j ≡ true) ((key_beq_iff x k).0 e)
            (AllBy-is_in j (leq x) xs s.0 (ground arith))
      | inr e ↦ elim (Bool-cases (leb most (suc count))) [
        | inl b ↦ ground arith
        | inr b ↦
            written_sorted most (suc count) xs j k s.1 (ground arith) (ground arith) (ground arith)
      ]
    ]
  ]

is_in-keys :
    (j : Key) (fis : List FileInfo) (m : Map Key (List FileInfo))
    → lookup j m ≡ some fis
    → is_in j (keys m) ≡ true
unfolding lookup
is_in-keys j fis [] h = ground arith
is_in-keys j fis ((i, v) ∷ m) h = ground (arith, is_in-keys j fis m)

-- A cached key that is not written was last used no later than any key that is.
pub written_newest :
    (c : Cache) (j k : Key) (fis : List FileInfo)
    → lookup j c.deps_cache ≡ some fis
    → is_in j (written c.max_entries 0 (sorted_keys c)) ≡ false
    → is_in k (written c.max_entries 0 (sorted_keys c)) ≡ true
    → last_use c j ≤ last_use c k
unfolding sorted_keys
written_newest c j k fis h n m =
    let leq : Key → Key → Bool = λ i i'. leb (last_use c i') (last_use c i) in
    leb→le (last_use c j) (last_use c k) (
      written_sorted leq c.max_entries 0 (sorted_keys c) j k
        (sort-IsSorted leq (λ x y z a b. ground arith) (λ x y a. ground arith) (keys c.deps_cache))
        m (is_in-sort leq j (keys c.deps_cache) ∙ is_in-keys j fis c.deps_cache h) n)
