-- ===== src/Prelude/Sort.antt =====
-- The library's sort as insertion sort, and what is relied on: the result is in order and a
-- permutation of the input.
pub mod Order
pub mod Texts
use mathlib.Core.Bool.{Bool}
use mathlib.Core.List.{List, [], ◌∷◌}
use reclient.Prelude.Tests.{if◌then◌else◌}

module _ {ℓ} {A : Type ℓ} (leb : A → A → Bool) where
  unfoldable pub insert_sorted : A → List A → List A
  insert_sorted a [] = a ∷ []
  insert_sorted a (x ∷ xs) = if leb a x then a ∷ (x ∷ xs) else x ∷ insert_sorted a xs

  unfoldable pub sort : List A → List A
  unfolding insert_sorted
  sort [] = []
  sort (x ∷ xs) = insert_sorted x (sort xs)
