-- ===== src/Args/Consume.antt =====
-- What a call of the scanner takes from the command line.
use reclient.Prelude.{
  ℕ, zero, suc, ◌<◌, ◌≡◌, refl, ap, ◌∙◌, sym, String, Option, none, some, List, [], ◌∷◌, ◌++◌,
  length, length-append, arith, Bool-cases, Option-cases, inl, inr,
}
use mathlib.Core.List.{append-nil}
use reclient.Prelude.Int.{ℤ, pos, negsuc}
use reclient.Prelude.Text.{has_prefix}
use reclient.Args.{
  FlagResult, PrefixOption, Scanner, split_at, consume, updated_flag, read_flag, read_joined,
  read_single, find_joined, read_unlisted, read_known, read_args, read_next_flag,
}

module _ {ℓ} {A : Type ℓ} where
  abbrev SplitsAt : ℕ → List A → Option (List A × List A) → Type ℓ
  SplitsAt n xs none = Unit
  SplitsAt n xs (some (l, r)) = (l ++ r ≡ xs) × (length l ≡ n)

  SplitsAt-suc :
      (n : ℕ) (x : A) (xs : List A) (o : Option (List A × List A))
      → split_at n xs ≡ o
      → SplitsAt n xs o
      → SplitsAt (suc n) (x ∷ xs) (split_at (suc n) (x ∷ xs))
  unfolding split_at
  SplitsAt-suc n x xs none e h = rw (e, split_at) tt
  SplitsAt-suc n x xs (some (l, r)) e h = rw (e, split_at) (ap (◌∷◌ x) h.0, ap suc h.1)

  split_at-SplitsAt : (n : ℕ) (xs : List A) → SplitsAt n xs (split_at n xs)
  unfolding split_at
  split_at-SplitsAt zero xs = (refl, refl)
  split_at-SplitsAt (suc n) [] = tt
  split_at-SplitsAt (suc n) (x ∷ xs) =
      SplitsAt-suc n x xs (split_at n xs) refl (split_at-SplitsAt n xs)

consume_front :
    (n : ℤ) (x : String) (xs : List String) {l r : List String}
    → consume n (x ∷ xs) ≡ some (l, r)
    → (l ++ r ≡ x ∷ xs) × (0 < length l)
unfolding consume
consume_front (negsuc n) x xs h = (ground (arith, append-nil (x ∷ xs)), ground arith)
consume_front (pos n) x xs {l} {r} h =
    let (front, size) : SplitsAt (suc n) (x ∷ xs) (some (l, r)) =
      rw h at (split_at-SplitsAt (suc n) (x ∷ xs)) in
    (front, omega arith)

-- A call took `r.args` off the front of the command line and nothing else; it took something, it
-- remembers the result before, and it left the tables of flags alone.
pub record Takes (s : Scanner) (r : FlagResult) (t : Scanner) : Type 0 where
  pub front : r.args ++ t.args ≡ s.args
  pub progress : length t.args < length s.args
  pub prev : t.prev_result ≡ s.cur_result
  pub cur : t.cur_result ≡ r
  pub flags : t.flags ≡ s.flags
  pub joined : t.joined ≡ s.joined
  pub normalized : t.normalized ≡ s.normalized

abbrev TakesIfAny : Scanner → Option (FlagResult × Scanner) → Type 0
TakesIfAny s none = Unit
TakesIfAny s (some (r, t)) = Takes s r t

Takes-updated_flag :
    (s : Scanner) (left : List String) (r : FlagResult)
    → r.args ++ left ≡ s.args
    → 0 < length r.args
    → Takes s r (updated_flag s left r).1
unfolding updated_flag
Takes-updated_flag s left r front some_taken = record {
  front = front;
  progress = omega (arith, ap length front, length-append r.args left);
  prev = refl;
  cur = refl;
  flags = refl;
  joined = refl;
  normalized = refl;
}

module _ (s : Scanner) (flag : String) (left : List String) (args : s.args ≡ flag ∷ left) where
  read_flag-Takes : (n : ℤ) → TakesIfAny s (read_flag s flag n)
  unfolding read_flag
  read_flag-Takes n = elim (Option-cases (consume n s.args)) [
    | inl e ↦ rw (e, read_flag) tt
    | inr ((taken, rest), e) ↦
        let (front, size) = consume_front n flag left (rw args at e) in
        rw (e, read_flag) (Takes-updated_flag s rest _ (front ∙ sym args) size)
  ]

  read_joined-Takes : (f : PrefixOption) → TakesIfAny s (read_joined s flag f)
  unfolding read_joined
  read_joined-Takes f = elim (Option-cases (consume f.num_args s.args)) [
    | inl e ↦ rw (e, read_joined) tt
    | inr ((taken, rest), e) ↦
        let (front, size) = consume_front f.num_args flag left (rw args at e) in
        rw (e, read_joined) (Takes-updated_flag s rest _ (front ∙ sym args) size)
  ]

  read_single-Takes : TakesIfAny s (some (read_single s flag left))
  unfolding read_single
  read_single-Takes = elim (Bool-cases (has_prefix flag "-")) [
    | inl e ↦ rw e (Takes-updated_flag s left _ (sym args) (omega arith))
    | inr e ↦ rw e (Takes-updated_flag s left _ (sym args) (omega arith))
  ]

  read_unlisted-Takes : (o : Option PrefixOption) → TakesIfAny s (read_unlisted s flag left o)
  unfolding read_unlisted
  read_unlisted-Takes none = read_single-Takes
  read_unlisted-Takes (some f) = read_joined-Takes f

  read_known-Takes : (o : Option ℤ) → TakesIfAny s (read_known s flag left o)
  unfolding read_known
  read_known-Takes none = read_unlisted-Takes (find_joined flag s.joined)
  read_known-Takes (some n) = read_flag-Takes n

read_args-Takes : (s : Scanner) (xs : List String) → s.args ≡ xs → TakesIfAny s (read_args s xs)
unfolding read_args
read_args-Takes s [] h = tt
read_args-Takes s (flag ∷ left) h = read_known-Takes s flag left h _

-- Whatever a call of ReadNextFlag returns, its arguments are what it took off the front of the
-- command line, at least one, and what is left follows them; the result before becomes the
-- previous one and the tables of flags are unchanged.
pub read_next_flag-Takes :
    (s : Scanner) (r : FlagResult) (t : Scanner) → read_next_flag s ≡ some (r, t) → Takes s r t
unfolding read_next_flag
read_next_flag-Takes s r t h = rw h at (read_args-Takes s s.args refl)
