-- ===== src/Prelude/Sort/Texts.antt =====
-- The order of texts is transitive and total.
use Prim.Native.Nat.compare as compare_ℕ
use Prim.Native.Nat.{ℕ, zero, suc, ◌<◌, Ordering, compare as compare_ℕ}
use Prim.Native.Char.{Char, code}
use Prim.Native.String.compare
use Prim.Native.String.{String, [], ◌∷◌, compare, then}
use text.Mathlib.Text.{is_le}
use mathlib.Core.Path.{◌≡◌, refl, ap, ◌∙◌}
use mathlib.Core.Bool.{Bool, true, false}
use mathlib.Core.Logic.{inl, inr, ◌⊎◌}
use native.Mathlib.Omega.{arith}

abbrev pub string_leb : String → String → Bool
string_leb a b = is_le (compare a b)

compare_cases :
    (m n : ℕ)
    → ((compare_ℕ m n ≡ Ordering.lt) × (m < n))
      ⊎ ((compare_ℕ m n ≡ Ordering.eq) × (m ≡ n))
      ⊎ ((compare_ℕ m n ≡ Ordering.gt) × (n < m))
compare_cases zero zero = inr (inl (compare_ℕ.zero-zero, refl))
compare_cases zero (suc n) = inl (compare_ℕ.zero-suc n, omega arith)
compare_cases (suc m) zero = inr (inr (compare_ℕ.suc-zero m, omega arith))
compare_cases (suc m) (suc n) = elim (compare_cases m n) [
  | inl h ↦ inl (compare_ℕ.suc-suc m n ∙ h.0, omega (arith, h.1))
  | inr (inl h) ↦ inr (inl (compare_ℕ.suc-suc m n ∙ h.0, ap suc h.1))
  | inr (inr h) ↦ inr (inr (compare_ℕ.suc-suc m n ∙ h.0, omega (arith, h.1)))
]

string_leb_cons :
    (c d : Char) (s t : String)
    → (code c < code d) × (string_leb (c ∷ s) (d ∷ t) ≡ true)
      ⊎ (code c ≡ code d) × (string_leb (c ∷ s) (d ∷ t) ≡ string_leb s t)
      ⊎ (code d < code c) × (string_leb (c ∷ s) (d ∷ t) ≡ false)
string_leb_cons c d s t = elim (compare_cases (code c) (code d)) [
  | inl h ↦
      inl (h.1, ap is_le (compare.cons-cons c d s t) ∙ ap (λ o. is_le (then o (compare s t))) h.0)
  | inr (inl h) ↦
      inr (
        inl
          (h.1, ap is_le (compare.cons-cons c d s t) ∙ ap (λ o. is_le (then o (compare s t))) h.0))
  | inr (inr h) ↦
      inr (
        inr
          (h.1, ap is_le (compare.cons-cons c d s t) ∙ ap (λ o. is_le (then o (compare s t))) h.0))
]

string_leb-nil : (t : String) → string_leb [] t ≡ true
string_leb-nil [] = ap is_le compare.nil-nil
string_leb-nil (d ∷ t) = ap is_le (compare.nil-cons d t)

string_leb-cons_nil : (c : Char) (s : String) → string_leb (c ∷ s) [] ≡ false
string_leb-cons_nil c s = ap is_le (compare.cons-nil c s)

pub string_leb_trans :
    (a b c : String) → string_leb a b ≡ true → string_leb b c ≡ true → string_leb a c ≡ true
string_leb_trans [] b c h k = string_leb-nil c
string_leb_trans (x ∷ a) [] c h k = absurd (cc (h, string_leb-cons_nil x a))
string_leb_trans (x ∷ a) (y ∷ b) [] h k = absurd (cc (k, string_leb-cons_nil y b))
string_leb_trans (x ∷ a) (y ∷ b) (z ∷ c) h k = ground (
  arith,
  string_leb_cons x y a b,
  string_leb_cons y z b c,
  string_leb_cons x z a c,
  string_leb_trans a b c,
)

pub string_leb_total : (a b : String) → string_leb a b ≡ false → string_leb b a ≡ true
string_leb_total [] b h = absurd (cc (h, string_leb-nil b))
string_leb_total (x ∷ a) [] h = string_leb-nil (x ∷ a)
string_leb_total (x ∷ a) (y ∷ b) h =
    ground (arith, string_leb_cons x y a b, string_leb_cons y x b a, string_leb_total a b)
