-- ===== src/Rsp/Words.antt =====
-- The loops over command lines and response files end.
use reclient.Prelude.{
  ℕ, zero, suc, ◌<◌, ◌≤◌, ◌≡◌, refl, ap, false, Option, none, some, List, [], ◌∷◌, length,
  if◌then◌else◌, arith, subst, String,
}
use reclient.Prelude.Result.{Result, ok, err, panic, ◌>>=◌}
use reclient.Args.{Scanner, FlagResult, has_next, read_next_flag}
use reclient.Args.Consume.{read_next_flag-Takes}
use reclient.Rsp.{scan_all, handled, read_and_handle, reading, rsp_scanner, parse_with_func}

none_left : (xs : List String) → length xs ≡ 0 → xs ≡ []
none_left [] h = refl
none_left (x ∷ xs) h = absurd (omega arith)

has_next-empty : (s : Scanner) → length s.args ≡ 0 → has_next s ≡ false
unfolding has_next
has_next-empty s h = ap (λ xs. has_next (record s { args = xs })) (none_left s.args h)

bind_same :
    {A : Type 0} {B : Type 0} {E : Type 0} (x : Result E A) (f g : A → Result E B)
    → ((a : A) → x ≡ ok a → f a ≡ g a)
    → (x >>= f) ≡ (x >>= g)
bind_same (ok a) f g same = same a refl
bind_same (err e) f g same = refl
bind_same panic f g same = refl

module _ {A : Type 0} {E : Type 0} (step : Scanner → A → Result E (A × Scanner))
    (takes : (s : Scanner) (a : A) (r : A × Scanner)
      → step s a ≡ ok r
      → length r.1.args < length s.args) where
  -- More fuel than there are arguments changes nothing.
  pub scan_all_fuel :
      (fuel more : ℕ) (s : Scanner) (a : A)
      → length s.args ≤ fuel
      → fuel ≤ more
      → scan_all step more s a ≡ scan_all step fuel s a
  unfolding scan_all
  scan_all_fuel zero zero s a h k = refl
  scan_all_fuel zero (suc more) s a h k = rw (has_next-empty s (omega arith)) refl
  scan_all_fuel (suc fuel) zero s a h k = absurd (omega arith)
  scan_all_fuel (suc fuel) (suc more) s a h k =
      ap (λ rest. if has_next s then rest else ok a)
        (bind_same (step s a) (λ r. scan_all step more r.1 r.0) (λ r. scan_all step fuel r.1 r.0)
          (λ r e. scan_all_fuel fuel more r.1 r.0 (omega (arith, takes s a r e)) (omega arith)))

value_or : {A : Type 0} {E : Type 0} → A → Result E A → A
value_or a (ok b) = b
value_or a (err e) = a
value_or a panic = a

pub bound :
    {A : Type 0} {E : Type 0} (x : Result E A) (t : Scanner) (r : A × Scanner)
    → (x >>= λ b. ok (b, t)) ≡ ok r
    → t ≡ r.1
unfolding value_or
bound {A = A} {E = E} (ok b) t r e = ap (λ (x : Result E (A × Scanner)). (value_or (b, t) x).1) e
bound (err x) t r e = absurd (cc e)
bound panic t r e = absurd (cc e)

-- A handler that leaves its scanner no more arguments than it had.
abbrev pub Keeps : {A : Type 0} {E : Type 0} → (Scanner → A → Result E (A × Scanner)) → Type 0
Keeps {A = A} handle =
    (s : Scanner) (a : A) (r : A × Scanner) → handle s a ≡ ok r → length r.1.args ≤ length s.args

pub reading-Keeps :
    {A : Type 0} {E : Type 0} (handle : FlagResult → A → Result E A) → Keeps (reading handle)
reading-Keeps handle s a r e =
    subst (λ u. length u.args ≤ length s.args) (bound (handle s.cur_result a) s r e) (omega arith)

handled-takes :
    {A : Type 0} {E : Type 0} (handle : Scanner → A → Result E (A × Scanner)) (s : Scanner) (a : A)
    (o : Option (FlagResult × Scanner))
    → Keeps handle
    → read_next_flag s ≡ o
    → (r : A × Scanner) → handled handle a o ≡ ok r
    → length r.1.args < length s.args
handled-takes handle s a none keeps h r e = absurd (cc e)
handled-takes handle s a (some (f, t)) keeps h r e =
    omega (arith, keeps t a r e, (read_next_flag-Takes s f t h).progress)

-- The fuel of the loop over a response file, which is the number of its arguments, is enough for
-- every handler that leaves its scanner no more arguments than it had: more fuel gives the same
-- result.
pub parse_with_func_fuel :
    {A : Type 0} {E : Type 0} (handle : Scanner → A → Result E (A × Scanner)) (template : Scanner)
    (args : List String) (a : A) (fuel : ℕ)
    → Keeps handle
    → length args ≤ fuel
    → scan_all (read_and_handle handle) fuel (rsp_scanner template args) a
      ≡ parse_with_func handle template args a
unfolding parse_with_func
parse_with_func_fuel handle template args a fuel keeps h =
    scan_all_fuel (read_and_handle handle)
      (λ s b r e. handled-takes handle s b (read_next_flag s) keeps refl r e) (length args) fuel
      (rsp_scanner template args) a (omega arith) h
