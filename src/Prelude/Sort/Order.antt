-- ===== src/Prelude/Sort/Order.antt =====
-- Sorting keeps every count, puts the elements in order, and so an element's place is its rank.
use Prim.Native.Nat.{ℕ, zero, suc, ◌+◌, ◌≤◌, ◌<◌}
use mathlib.Core.Path.{◌≡◌, refl, subst}
use mathlib.Core.Bool.{Bool, true, false, not}
use mathlib.Core.Logic.{inl, inr}
use mathlib.Core.Option.{some, some-injective}
use mathlib.Core.List.{List, [], ◌∷◌, ◌++◌}
use native.Mathlib.Omega.{arith}
use reclient.Prelude.Tests.{if◌then◌else◌, Bool-cases}
use reclient.Prelude.Lists.{length, get_elem?}
use reclient.Prelude.Sort.{insert_sorted, sort}

module _ {ℓ} {A : Type ℓ} where
  abbrev pub count_if : (A → Bool) → List A → ℕ
  count_if q [] = 0
  count_if q (x ∷ xs) = (if q x then 1 else 0) + count_if q xs

  pub count_if-append :
      (q : A → Bool) (xs ys : List A) → count_if q (xs ++ ys) ≡ count_if q xs + count_if q ys
  count_if-append q [] ys = omega arith
  count_if-append q (x ∷ xs) ys = omega (arith, count_if-append q xs ys)

  abbrev pub AllBy : (A → Bool) → List A → Type 0
  AllBy q [] = Unit
  AllBy q (x ∷ xs) = (q x ≡ true) × AllBy q xs

  AllBy-get_elem? :
      (q : A → Bool) (xs : List A) (k : ℕ) {x : A}
      → AllBy q xs
      → get_elem? xs k ≡ some x
      → q x ≡ true
  AllBy-get_elem? q [] k h e = cc
  AllBy-get_elem? q (y ∷ xs) zero h e = ground arith
  AllBy-get_elem? q (y ∷ xs) (suc k) h e = AllBy-get_elem? q xs k h.1 e

  pub AllBy-mono :
      (p q : A → Bool) (xs : List A) → ((x : A) → p x ≡ true → q x ≡ true) → AllBy p xs → AllBy q xs
  AllBy-mono p q [] f h = tt
  AllBy-mono p q (x ∷ xs) f h = (f x h.0, AllBy-mono p q xs f h.1)

  count_if-none : (p : A → Bool) (xs : List A) → AllBy p xs → count_if (λ y. not (p y)) xs ≡ 0
  count_if-none p [] h = refl
  count_if-none p (x ∷ xs) h = ground (arith, count_if-none p xs h.1)

  pub count_if-all : (q : A → Bool) (xs : List A) → AllBy q xs → count_if q xs ≡ length xs
  count_if-all q [] h = refl
  count_if-all q (x ∷ xs) h = ground (arith, count_if-all q xs h.1)

module _ {ℓ} {A : Type ℓ} (leb : A → A → Bool) where
  count_if-insert_sorted :
      (q : A → Bool) (a : A) (xs : List A)
      → count_if q (insert_sorted leb a xs) ≡ count_if q (a ∷ xs)
  unfolding insert_sorted
  count_if-insert_sorted q a [] = refl
  count_if-insert_sorted q a (x ∷ xs) = ground (arith, count_if-insert_sorted q a xs)

  pub count_if-sort : (q : A → Bool) (xs : List A) → count_if q (sort leb xs) ≡ count_if q xs
  unfolding sort
  count_if-sort q [] = refl
  count_if-sort q (x ∷ xs) =
      omega (arith, count_if-insert_sorted q x (sort leb xs), count_if-sort q xs)

  length-insert_sorted : (a : A) (xs : List A) → length (insert_sorted leb a xs) ≡ suc (length xs)
  unfolding insert_sorted
  length-insert_sorted a [] = refl
  length-insert_sorted a (x ∷ xs) = ground (arith, length-insert_sorted a xs)

  pub length-sort : (xs : List A) → length (sort leb xs) ≡ length xs
  unfolding sort
  length-sort [] = refl
  length-sort (x ∷ xs) = omega (arith, length-insert_sorted x (sort leb xs), length-sort xs)

  abbrev pub IsSorted : List A → Type 0
  IsSorted [] = Unit
  IsSorted (x ∷ xs) = AllBy (leb x) xs × IsSorted xs

  AllBy-insert_sorted :
      (q : A → Bool) (a : A) (xs : List A)
      → q a ≡ true
      → AllBy q xs
      → AllBy q (insert_sorted leb a xs)
  unfolding insert_sorted
  AllBy-insert_sorted q a [] h t = (h, tt)
  AllBy-insert_sorted q a (x ∷ xs) h t = ground (arith, AllBy-insert_sorted q a xs h t.1)

module _ {ℓ} {A : Type ℓ} (leb : A → A → Bool)
    (trans : (a b c : A) → leb a b ≡ true → leb b c ≡ true → leb a c ≡ true)
    (total : (a b : A) → leb a b ≡ false → leb b a ≡ true) where
  insert_sorted-IsSorted :
      (a : A) (xs : List A) → IsSorted leb xs → IsSorted leb (insert_sorted leb a xs)
  unfolding insert_sorted
  insert_sorted-IsSorted a [] h = (tt, tt)
  insert_sorted-IsSorted a (x ∷ xs) h = elim (Bool-cases (leb a x)) [
    | inl e ↦ rw e ((e, AllBy-mono (leb x) (leb a) xs (λ y. trans a x y e) h.0), h)
    | inr e ↦
        rw e
          (AllBy-insert_sorted leb (leb x) a xs (total a x e) h.0, insert_sorted-IsSorted a xs h.1)
  ]

  pub sort-IsSorted : (xs : List A) → IsSorted leb (sort leb xs)
  unfolding sort
  sort-IsSorted [] = tt
  sort-IsSorted (x ∷ xs) = insert_sorted-IsSorted x (sort leb xs) (sort-IsSorted xs)

  leb_refl : (a : A) → leb a a ≡ true
  leb_refl a = elim (Bool-cases (leb a a)) [ inl e ↦ e | inr e ↦ total a a e ]

  -- In a sorted list at most `k` elements are less than the one at place `k`, and more than `k`
  -- are at most it.
  pub rank :
      (xs : List A) (k : ℕ) {x : A}
      → IsSorted leb xs
      → get_elem? xs k ≡ some x
      → (count_if (λ y. not (leb x y)) xs ≤ k) × (k < count_if (λ y. leb y x) xs)
  rank [] k h e = cc
  rank (y ∷ xs) zero {x} h e =
      subst
        (λ z. (count_if (λ w. not (leb z w)) (y ∷ xs) ≤ 0) × (0 < count_if (λ w. leb w z) (y ∷ xs)))
        (some-injective y x e)
        (rw (leb_refl y) (omega (arith, count_if-none (leb y) xs h.0), omega arith))
  rank (y ∷ xs) (suc k) {x} h e =
      ground (arith, rank xs k {x = x} h.1 e, AllBy-get_elem? (leb y) xs k {x = x} h.0 e)

  -- In a sorted list what stands earlier is at most what stands later.
  pub get_elem?-mono :
      (xs : List A) (i j : ℕ) {x y : A}
      → IsSorted leb xs
      → i ≤ j
      → get_elem? xs i ≡ some x
      → get_elem? xs j ≡ some y
      → leb x y ≡ true
  get_elem?-mono [] i j h le e f = cc
  get_elem?-mono (z ∷ zs) zero zero {x} {y} h le e f =
      subst (λ w. leb x w ≡ true) (some-injective x y (cc (e, f))) (leb_refl x)
  get_elem?-mono (z ∷ zs) zero (suc j) {x} {y} h le e f =
      subst (λ w. leb w y ≡ true) (some-injective z x e)
        (AllBy-get_elem? (leb z) zs j {x = y} h.0 f)
  get_elem?-mono (z ∷ zs) (suc i) zero h le e f = absurd (omega arith)
  get_elem?-mono (z ∷ zs) (suc i) (suc j) h le e f = get_elem?-mono zs i j h.1 (omega arith) e f
