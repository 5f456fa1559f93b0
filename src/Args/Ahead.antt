-- ===== src/Args/Ahead.antt =====
-- LookAhead, and the call that follows it.
use reclient.Prelude.{◌≡◌, refl, ◌∙◌, String, Option, none, some, List, [], ◌∷◌, arith}
use reclient.Prelude.Int.{ℤ}
use reclient.Args.{
  FlagResult, PrefixOption, Scanner, read_flag, read_joined, read_known, read_args, read_next_flag,
  next, look_ahead,
}
use reclient.Args.Consume.{Takes, read_next_flag-Takes}

-- the same scanner with other results remembered
abbrev remembering : Scanner → FlagResult → FlagResult → Scanner
remembering s p c = record s { prev_result = p; cur_result = c }

abbrev previously : FlagResult → Option (FlagResult × Scanner) → Option (FlagResult × Scanner)
previously c none = none
previously c (some (r, t)) = some (r, record t { prev_result = c })

module _ (s : Scanner) (p c : FlagResult) where
  read_flag-remembering :
      (flag : String) (n : ℤ)
      → read_flag (remembering s p c) flag n ≡ previously c (read_flag s flag n)
  unfolding read_flag
  read_flag-remembering flag n = ground arith

  read_joined-remembering :
      (flag : String) (f : PrefixOption)
      → read_joined (remembering s p c) flag f ≡ previously c (read_joined s flag f)
  unfolding read_joined
  read_joined-remembering flag f = ground arith

  read_known-remembering :
      (flag : String) (left : List String) (o : Option ℤ)
      → read_known (remembering s p c) flag left o ≡ previously c (read_known s flag left o)
  unfolding read_known
  read_known-remembering flag left o = ground arith

  read_args-remembering :
      (xs : List String) → read_args (remembering s p c) xs ≡ previously c (read_args s xs)
  unfolding read_args
  read_args-remembering [] = refl
  read_args-remembering (flag ∷ left) = read_known-remembering flag left _

restored :
    (s : Scanner) (r : FlagResult) (t : Scanner)
    → Takes s r t
    → record t { args = s.args } ≡ remembering s s.cur_result r
restored s r t taken =
    ground (arith, taken.prev, taken.cur, taken.flags, taken.joined, taken.normalized)

read_next_flag-remembering :
    (s : Scanner) (p c : FlagResult)
    → read_next_flag (remembering s p c) ≡ previously c (read_next_flag s)
unfolding read_next_flag
read_next_flag-remembering s p c = read_args-remembering s p c s.args

next-read_next_flag :
    (s : Scanner) (r : FlagResult) (t : Scanner)
    → read_next_flag s ≡ some (r, t)
    → next s
      ≡ some (
        record { flag = r.normalized_key; args = r.args; values = r.values; joined = r.joined },
        t,
      )
unfolding next
next-read_next_flag s r t h = ground arith

-- LookAhead reports the flag that the next call returns and puts its arguments back, so the next
-- call returns the very same result and leaves the same arguments; but that call's previous result
-- is then the flag itself, and no longer the flag that was handled before.
pub look_ahead-read_next_flag :
    (s : Scanner) (r : FlagResult) (t : Scanner)
    → read_next_flag s ≡ some (r, t)
    → (look_ahead s ≡ some (r.normalized_key, record t { args = s.args }))
      × (read_next_flag (record t { args = s.args }) ≡ some (r, record t { prev_result = r }))
unfolding look_ahead
look_ahead-read_next_flag s r t h =
    let taken = read_next_flag-Takes s r t h in
    (
      ground (arith, next-read_next_flag s r t h, taken.front),
      rw (restored s r t taken)
          (read_next_flag-remembering s s.cur_result r ∙ ground (arith, taken.prev)),
    )
