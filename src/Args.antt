-- ===== src/Args.antt =====
-- internal/pkg/inputprocessor/args/scanner.go: the scanner of command lines.
-- A slice expression out of range panics in Go: `none`. A nil and an empty slice are one value.
pub mod Consume
pub mod Ahead
use reclient.Prelude.{
  ℕ, zero, suc, Bool, true, false, String, Option, none, some, List, [], ◌∷◌, ◌++◌, if◌then◌else◌,
}
use reclient.Prelude.Int.{ℤ, pos, negsuc}
use reclient.Prelude.Maps.{Map, lookup, string_eq}
use reclient.Prelude.Text.{has_prefix, trim_prefix}

pub record FlagResult : Type 0 where
  pub args : List String
  pub normalized_key : String
  pub original_key : String
  pub values : List String
  pub joined : Bool

pub record PrefixOption : Type 0 where
  pub prefix : String
  pub num_args : ℤ

pub record Scanner : Type 0 where
  pub args : List String
  pub flags : Map String ℤ
  pub joined : List PrefixOption
  pub normalized : Map String String
  pub prev_result : FlagResult
  pub cur_result : FlagResult

abbrev pub no_result : FlagResult
no_result = record {
  args = [];
  normalized_key = "";
  original_key = "";
  values = [];
  joined = false;
}

unfoldable pub has_next : Scanner → Bool
has_next s = elim s.args [ [] ↦ false | _ ∷ _ ↦ true ]

abbrev or_same : String → Option String → String
or_same s none = s
or_same s (some t) = t

-- normalizedFlag
unfoldable pub normalized_flag : Scanner → String → String
unfolding lookup
normalized_flag s flag = or_same flag (lookup flag s.normalized)

-- xs[:n] and xs[n:]
unfoldable pub split_at {ℓ} : {A : Type ℓ} → ℕ → List A → Option (List A × List A)
split_at zero xs = some ([], xs)
split_at (suc n) [] = none
split_at (suc n) (x ∷ xs) = elim (split_at n xs) [ none ↦ none | some (l, r) ↦ some (x ∷ l, r) ]

-- The arguments that a flag takes, itself included, and what is left. A negative count takes all.
unfoldable pub consume : ℤ → List String → Option (List String × List String)
unfolding split_at
consume (negsuc n) xs = some (xs, [])
consume (pos n) xs = split_at (suc n) xs

-- args[1:], where there are any
abbrev pub rest_of {ℓ} : {A : Type ℓ} → List A → List A
rest_of [] = []
rest_of (x ∷ xs) = xs

-- the closure `updatedFlag`, with the arguments that are left
unfoldable pub updated_flag : Scanner → List String → FlagResult → FlagResult × Scanner
updated_flag s left r = (r, record s { args = left; prev_result = s.cur_result; cur_result = r })

-- `if numArgs > 0`
abbrev flag_values : ℤ → List String → List String
flag_values (pos (suc n)) taken = rest_of taken
flag_values _ taken = []

-- the flag is a key of `Flags`
read_flag : Scanner → String → ℤ → Option (FlagResult × Scanner)
unfolding consume updated_flag normalized_flag
read_flag s flag n = elim (consume n s.args) [
  | none ↦ none
  | some (taken, left) ↦ some (
      updated_flag s left (record {
        args = taken;
        normalized_key = normalized_flag s flag;
        original_key = flag;
        values = flag_values n taken;
        joined = false;
      }))
]

-- the flag has the prefix `f.Prefix`
read_joined : Scanner → String → PrefixOption → Option (FlagResult × Scanner)
unfolding consume updated_flag normalized_flag trim_prefix
read_joined s flag f = elim (consume f.num_args s.args) [
  | none ↦ none
  | some (taken, left) ↦ some (
      updated_flag s left (record {
        args = taken;
        normalized_key = normalized_flag s f.prefix;
        original_key = f.prefix;
        values = trim_prefix flag f.prefix ∷ rest_of taken;
        joined = true;
      }))
]

-- the flag is unknown, or no flag
read_single : Scanner → String → List String → FlagResult × Scanner
unfolding updated_flag has_prefix
read_single s flag left =
    if has_prefix flag "-"
    then updated_flag s left (record {
      args = flag ∷ [];
      normalized_key = flag;
      original_key = flag;
      values = [];
      joined = false;
    })
    else updated_flag s left (record {
      args = flag ∷ [];
      normalized_key = "";
      original_key = "";
      values = flag ∷ [];
      joined = false;
    })

-- the loop over `Joined`: the first option that is a prefix of the flag
unfoldable pub find_joined : String → List PrefixOption → Option PrefixOption
unfolding has_prefix
find_joined flag [] = none
find_joined flag (f ∷ fs) = if has_prefix flag f.prefix then some f else find_joined flag fs

read_unlisted : Scanner → String → List String → Option PrefixOption → Option (FlagResult × Scanner)
unfolding read_joined read_single
read_unlisted s flag left none = some (read_single s flag left)
read_unlisted s flag left (some f) = read_joined s flag f

read_known : Scanner → String → List String → Option ℤ → Option (FlagResult × Scanner)
unfolding read_flag read_unlisted find_joined
read_known s flag left (some n) = read_flag s flag n
read_known s flag left none = read_unlisted s flag left (find_joined flag s.joined)

-- ReadNextFlag; `s.Args[0]` panics where nothing is left
read_args : Scanner → List String → Option (FlagResult × Scanner)
unfolding read_known normalized_flag lookup
read_args s [] = none
read_args s (flag ∷ left) = read_known s flag left (lookup (normalized_flag s flag) s.flags)

unfoldable pub read_next_flag : Scanner → Option (FlagResult × Scanner)
unfolding read_args
read_next_flag s = read_args s s.args

pub record NextFlag : Type 0 where
  pub flag : String
  pub args : List String
  pub values : List String
  pub joined : Bool

-- Next
unfoldable pub next : Scanner → Option (NextFlag × Scanner)
unfolding read_next_flag
next s = elim (read_next_flag s) [
  | none ↦ none
  | some (r, s') ↦
      some (
        record { flag = r.normalized_key; args = r.args; values = r.values; joined = r.joined },
        s',
      )
]

-- LookAhead
unfoldable pub look_ahead : Scanner → Option (String × Scanner)
unfolding next
look_ahead s = elim (next s) [
  | none ↦ none
  | some (n, s') ↦ some (n.flag, record s' { args = n.args ++ s'.args })
]
