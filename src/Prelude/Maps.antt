-- ===== src/Prelude/Maps.antt =====
-- Go's maps as association lists, over keys with a Boolean equality. A `range` over a map visits
-- the entries in an order that Go leaves open; here it is the order of the list, and no theorem
-- depends on it.
pub mod Once
use mathlib.Core.Path.{◌≡◌, refl}
use mathlib.Core.Bool.{Bool, true, false}
use mathlib.Core.Logic.{◌↔◌}
use mathlib.Core.List.{List, [], ◌∷◌, map}
use mathlib.Core.Option.{Option, none, some}
use Prim.Native.Nat.{ℕ, suc}
use reclient.Prelude.Lists.{length}
use Prim.Native.String.{String}
use native.Mathlib.Omega.{arith}
use text.Mathlib.Text.{◌==◌ as str_eq}
use text.Mathlib.TextEquality.{eq_iff}
use reclient.Prelude.Tests.{if◌then◌else◌, is_some, ==_iff, ◌==◌ as nat_beq}

pub record Eq {ℓ} (A : Type ℓ) : Type ℓ where
  pub beq : A → A → Bool
  pub beq_iff : (a b : A) → (beq a b ≡ true) ↔ (a ≡ b)

abbrev pub eqb {ℓ} : {A : Type ℓ} ⦃e : Eq A⦄ → A → A → Bool
eqb ⦃e⦄ = e.beq

instance abbrev pub string_eq : Eq String
string_eq = record { beq = str_eq; beq_iff = eq_iff }

instance abbrev pub nat_eq : Eq ℕ
nat_eq = record { beq = nat_beq; beq_iff = ==_iff }

abbrev pub Map {ℓ κ} : Type ℓ → Type κ → Type (ℓ ⊔ κ)
Map K V = List (K × V)

module _ {ℓ κ} {K : Type ℓ} {V : Type κ} ⦃e : Eq K⦄ where
  -- v, ok := m[k]
  unfoldable pub lookup : K → Map K V → Option V
  lookup k [] = none
  lookup k ((j, v) ∷ m) = if e.beq j k then some v else lookup k m

  -- m[k] = v
  unfoldable pub insert : K → V → Map K V → Map K V
  insert k v [] = (k, v) ∷ []
  insert k v ((j, w) ∷ m) = if e.beq j k then (j, v) ∷ m else (j, w) ∷ insert k v m

  -- delete(m, k)
  unfoldable pub delete : K → Map K V → Map K V
  delete k [] = []
  delete k ((j, w) ∷ m) = let rest = delete k m in if e.beq j k then rest else (j, w) ∷ rest

  pub lookup-insert :
      (k j : K) (v : V) (m : Map K V)
      → lookup j (insert k v m) ≡ (if e.beq k j then some v else lookup j m)
  unfolding lookup insert
  lookup-insert k j v [] = refl
  lookup-insert k j v ((i, w) ∷ m) =
      ground (arith, e.beq_iff k j, e.beq_iff i k, e.beq_iff i j, lookup-insert k j v m)

  pub lookup-insert_same :
      (k j : K) (v : V) (m : Map K V) → e.beq k j ≡ true → lookup j (insert k v m) ≡ some v
  lookup-insert_same k j v m h = rw (lookup-insert k j v m, h)

  pub lookup-insert_other :
      (k j : K) (v : V) (m : Map K V) → e.beq k j ≡ false → lookup j (insert k v m) ≡ lookup j m
  lookup-insert_other k j v m h = rw (lookup-insert k j v m, h)

  pub lookup-delete :
      (k j : K) (m : Map K V) → lookup j (delete k m) ≡ (if e.beq k j then none else lookup j m)
  unfolding lookup delete
  lookup-delete k j [] = ground arith
  lookup-delete k j ((i, w) ∷ m) =
      ground (arith, e.beq_iff k j, e.beq_iff i k, e.beq_iff i j, lookup-delete k j m)

  pub lookup-insert_self : (k : K) (v : V) (m : Map K V) → lookup k (insert k v m) ≡ some v
  lookup-insert_self k v m = rw (lookup-insert k k v m, (e.beq_iff k k).1 refl)

  pub length-insert :
      (k : K) (v : V) (m : Map K V)
      → length (insert k v m) ≡ (if is_some (lookup k m) then length m else suc (length m))
  unfolding lookup insert
  length-insert k v [] = refl
  length-insert k v ((j, w) ∷ m) = ground (arith, length-insert k v m)

  pub is_some-lookup_cons :
      (k j : K) (v : V) (m : Map K V)
      → is_some (lookup k m) ≡ true
      → is_some (lookup k ((j, v) ∷ m)) ≡ true
  unfolding lookup
  is_some-lookup_cons k j v m h = ground arith

  pub is_some-lookup_head : (k : K) (v : V) (m : Map K V) → is_some (lookup k ((k, v) ∷ m)) ≡ true
  unfolding lookup
  is_some-lookup_head k v m = ground (arith, e.beq_iff k k)

abbrev pub keys {ℓ κ} : {K : Type ℓ} {V : Type κ} → Map K V → List K
keys = map (λ p. p.0)
