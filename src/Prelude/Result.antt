-- ===== src/Prelude/Result.antt =====
-- What a Go function that returns `(T, error)` does: it returns a value, it returns an error, or
-- it panics.
use mathlib.Core.Option.{Option, none, some}

pub data Result {ℓ κ} (E : Type ℓ) (A : Type κ) : Type (ℓ ⊔ κ) where
  ok : A → Result E A
  err : E → Result E A
  panic : Result E A

infixl 5 ◌>>=◌ ◌>>◌
abbrev pub ◌>>=◌ {ℓ κ ι} :
    {E : Type ℓ} {A : Type κ} {B : Type ι} → Result E A → (A → Result E B) → Result E B
ok a >>= f = f a
err e >>= f = err e
panic >>= f = panic

abbrev pub ◌>>◌ {ℓ ι} : {E : Type ℓ} {B : Type ι} → Result E (Unit {0}) → Result E B → Result E B
m >> k = m >>= λ _. k

-- An index or a slice expression out of range panics.
abbrev pub or_panic {ℓ κ} : {E : Type ℓ} {A : Type κ} → Option A → Result E A
or_panic none = panic
or_panic (some a) = ok a
