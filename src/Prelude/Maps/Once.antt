-- ===== src/Prelude/Maps/Once.antt =====
-- How often a text is among the keys of a map.
use mathlib.Core.Path.{◌≡◌, refl}
use mathlib.Core.Bool.{Bool, true, false, ◌||◌}
use mathlib.Core.List.{[], ◌∷◌}
use Prim.Native.Nat.{ℕ}
use Prim.Native.String.{String}
use native.Mathlib.Omega.{arith}
use text.Mathlib.Text.{◌==◌ as str_eq}
use text.Mathlib.TextEquality.{eq_iff}
use reclient.Prelude.Tests.{if◌then◌else◌}
use reclient.Prelude.Maps.{Map, insert, keys, string_eq}
use reclient.Prelude.Sort.Order.{count_if}

abbrev pub bit : Bool → ℕ
bit b = if b then 1 else 0

module _ {ℓ} {V : Type ℓ} where
  abbrev pub times : String → Map String V → ℕ
  times k m = count_if (str_eq k) (keys m)

  pub times-insert :
      (k j : String) (v : V) (m : Map String V) (b : Bool)
      → times k m ≡ bit b
      → times k (insert j v m) ≡ bit (str_eq k j || b)
  unfolding insert
  times-insert k j v [] b h = ground arith
  times-insert k j v ((i, w) ∷ m) false h =
      ground (arith, times-insert k j v m false, eq_iff k j, eq_iff k i, eq_iff i j)
  times-insert k j v ((i, w) ∷ m) true h = ground (
    arith,
    times-insert k j v m true,
    times-insert k j v m false,
    eq_iff k j,
    eq_iff k i,
    eq_iff i j,
  )

  -- whether a map has a key
  abbrev pub has_key : String → Map String V → Bool
  has_key k [] = false
  has_key k ((j, v) ∷ m) = str_eq k j || has_key k m

  pub has_key-insert :
      (k j : String) (v : V) (m : Map String V)
      → has_key k (insert j v m) ≡ (str_eq k j || has_key k m)
  unfolding insert
  has_key-insert k j v [] = refl
  has_key-insert k j v ((i, w) ∷ m) =
      ground (arith, has_key-insert k j v m, eq_iff k j, eq_iff k i, eq_iff i j)
