-- ===== src/Server/Environment.antt =====
-- server.go: sliceToMap, which turns the entries of an environment into a map and follows an index
-- out of range, a panic, where one has no separator.
use Prim.Native.Char.{Char, code}
use Prim.Native.String.{String}
use reclient.Prelude.{
  ℕ, ◌≡◌, refl, Bool, true, ◌&&◌, Option, none, some, List, [], ◌∷◌, if◌then◌else◌, ◌==◌, is_some,
  str_eq, arith,
}
use reclient.Prelude.Maps.{Map, insert, string_eq}

abbrev pub onto_key : Char → Option (String × String) → Option (String × String)
onto_key c none = none
onto_key c (some (k, v)) = some (String.◌∷◌ c k, v)

-- strings.SplitN(item, separator, 2) at a separator of one byte, where there are two parts
unfoldable pub split_pair : ℕ → String → Option (String × String)
split_pair sep String.[] = none
split_pair sep (String.◌∷◌ c s) =
    let rest = split_pair sep s in if code c == sep then some ("", s) else onto_key c rest

abbrev pub put_pair :
    Option (String × String)
    → Map String String
    → (Map String String → Option (Map String String))
    → Option (Map String String)
put_pair none m go_on = none
put_pair (some (k, v)) m go_on = go_on (insert k v m)

-- the loop of sliceToMap
unfoldable pub add_pairs : ℕ → List String → Map String String → Option (Map String String)
add_pairs sep [] m = some m
add_pairs sep (x ∷ xs) m = put_pair (split_pair sep x) m (λ n. add_pairs sep xs n)

-- sliceToMap
unfoldable pub slice_to_map : ℕ → List String → Option (Map String String)
slice_to_map sep xs = add_pairs sep xs []

-- whether every entry has a separator
abbrev pub all_pairs : ℕ → List String → Bool
all_pairs sep [] = true
all_pairs sep (x ∷ xs) = is_some (split_pair sep x) && all_pairs sep xs

abbrev pub or_value : String → Option (String × String) → Option String → Option String
or_value k none before = before
or_value k (some (j, v)) before = if str_eq j k then some v else before

-- The value in the last entry with a key, or the one before.
abbrev pub last_value : ℕ → String → List String → Option String → Option String
last_value sep k [] before = before
last_value sep k (x ∷ xs) before = last_value sep k xs (or_value k (split_pair sep x) before)

put_pair-some :
    (o : Option (String × String)) (m : Map String String)
    (go_on : Map String String → Option (Map String String)) (b : Bool)
    → ((n : Map String String) → is_some (go_on n) ≡ b)
    → is_some (put_pair o m go_on) ≡ (is_some o && b)
put_pair-some none m go_on b h = refl
put_pair-some (some (k, v)) m go_on b h = h (insert k v m)

add_pairs-some :
    (sep : ℕ) (xs : List String) (m : Map String String)
    → is_some (add_pairs sep xs m) ≡ all_pairs sep xs
unfolding add_pairs
add_pairs-some sep [] m = refl
add_pairs-some sep (x ∷ xs) m =
    put_pair-some (split_pair sep x) m (λ n. add_pairs sep xs n) (all_pairs sep xs)
      (λ n. add_pairs-some sep xs n)

-- sliceToMap, where only its success matters
pub slice_to_map-cases :
    {A : Type 0} (sep : ℕ) (xs : List String) (a : A)
    → elim (slice_to_map sep xs) [ none ↦ none | some env ↦ some a ]
      ≡ (if all_pairs sep xs then some a else none)
unfolding slice_to_map
slice_to_map-cases sep xs a = ground (arith, add_pairs-some sep xs [])
