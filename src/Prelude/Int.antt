-- ===== src/Prelude/Int.antt =====
-- Signed integers over the native numbers, and the two's complement of Go's int32 and int64. Where
-- only `ℤ` is used, an int of Go is read without wrap-around.
use Prim.Native.Nat.{ℕ, suc, ◌+◌, ◌-◌, ◌*◌, ◌%◌, ◌≤◌}
use mathlib.Core.Path.{◌≡◌}
use mathlib.Core.Bool.{Bool, true, false}
use mathlib.Core.Logic.{◌↔◌}
use native.Mathlib.Omega.{arith}
use reclient.Prelude.Tests.{ltb, leb, ◌==◌, if◌then◌else◌}

-- `negsuc n` is -(n + 1).
pub data ℤ : Type 0 where
  pos : ℕ → ℤ
  negsuc : ℕ → ℤ

abbrev pub pos_part : ℤ → ℕ
pos_part (pos n) = n
pos_part (negsuc n) = 0

abbrev pub neg_part : ℤ → ℕ
neg_part (pos n) = 0
neg_part (negsuc n) = suc n

infix 50 ◌≤ℤ◌
abbrev pub ◌≤ℤ◌ : ℤ → ℤ → Type 0
a ≤ℤ b = pos_part a + neg_part b ≤ pos_part b + neg_part a

abbrev pub ltb_ℤ : ℤ → ℤ → Bool
ltb_ℤ a b = ltb (pos_part a + neg_part b) (pos_part b + neg_part a)

abbrev pub leb_ℤ : ℤ → ℤ → Bool
leb_ℤ a b = leb (pos_part a + neg_part b) (pos_part b + neg_part a)

abbrev pub eqb_ℤ : ℤ → ℤ → Bool
eqb_ℤ (pos m) (pos n) = m == n
eqb_ℤ (pos m) (negsuc n) = false
eqb_ℤ (negsuc m) (pos n) = false
eqb_ℤ (negsuc m) (negsuc n) = m == n

pub eqb_ℤ_iff : (a b : ℤ) → (eqb_ℤ a b ≡ true) ↔ (a ≡ b)
eqb_ℤ_iff (pos m) (pos n) = ground arith
eqb_ℤ_iff a b = ground arith

pub leb_ℤ_trans : (a b c : ℤ) → leb_ℤ a b ≡ true → leb_ℤ b c ≡ true → leb_ℤ a c ≡ true
leb_ℤ_trans a b c h k = ground arith

pub leb_ℤ_total : (a b : ℤ) → leb_ℤ a b ≡ false → leb_ℤ b a ≡ true
leb_ℤ_total a b h = ground arith

-- a - b
abbrev pub difference : ℕ → ℕ → ℤ
difference a b = if leb b a then pos (a - b) else negsuc (b - a - 1)

infixl 60 ◌+ℤ◌ ◌-ℤ◌
abbrev pub ◌+ℤ◌ : ℤ → ℤ → ℤ
a +ℤ b = difference (pos_part a + pos_part b) (neg_part a + neg_part b)

abbrev pub ◌-ℤ◌ : ℤ → ℤ → ℤ
a -ℤ b = difference (pos_part a + neg_part b) (neg_part a + pos_part b)

-- the bits of an integer of width w with 2 * half = 2 ^ w
abbrev pub bits : ℕ → ℤ → ℕ
bits half z = (pos_part z + (2 * half - neg_part z % (2 * half))) % (2 * half)

abbrev pub from_bits : ℕ → ℕ → ℤ
from_bits half n = if ltb n half then pos n else negsuc (2 * half - n - 1)

abbrev pub half64 : ℕ
half64 = 9223372036854775808

abbrev pub half32 : ℕ
half32 = 2147483648

abbrev pub to_int32 : ℤ → ℤ
to_int32 z = from_bits half32 (bits half32 z)

-- a + b in int64
unfoldable pub add64 : ℤ → ℤ → ℤ
add64 a b = from_bits half64 ((bits half64 a + bits half64 b) % (2 * half64))

pub bits-add64 :
    (a b : ℤ) → bits half64 (add64 a b) ≡ (bits half64 a + bits half64 b) % (2 * half64)
unfolding add64
bits-add64 a b = ground arith
