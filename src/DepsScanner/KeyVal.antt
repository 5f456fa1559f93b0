-- ===== src/DepsScanner/KeyVal.antt =====
-- What findKeyVal finds is the entry of the environment, taken apart at one of its equals signs.
use Prim.Native.String.{◌++◌ as ◌<>◌}
use Prim.Native.Char.{Char, code}
use text.Mathlib.TextEquality.{Char-path}
use text.Mathlib.TextLemmas.{append_assoc, nil-append, cons-append}
use mathlib.Core.Option.{some-injective}
use reclient.Prelude.{
  ℕ, zero, suc, ◌+◌, ◌<◌, ◌≤◌, ◌≡◌, refl, sym, ap, ◌∙◌, Bool, true, false, String, Option, some,
  List, [], ◌∷◌, if◌then◌else◌, length, take, drop, ◌==◌, inl, inr, ◌⊎◌, subst, ltb, ltb→lt,
  Bool-cases, arith, ==_iff,
}
use reclient.Prelude.Text.{split_at_char, onto_first}
use reclient.Labels.{join}
use reclient.DepsScanner.{equals_sign, matches, find_split, find_in_parts, find_key_val}

join-take-drop :
    (sep : String) (xs : List String) (i : ℕ)
    → 0 < i
    → i < length xs
    → join sep (take i xs) <> sep <> join sep (drop i xs) ≡ join sep xs
unfolding join
join-take-drop sep xs zero h k = absurd (omega arith)
join-take-drop sep [] (suc i) h k = absurd (omega arith)
join-take-drop sep (x ∷ []) (suc i) h k = absurd (omega arith)
join-take-drop sep (x ∷ (y ∷ ys)) (suc zero) h k = refl
join-take-drop sep (x ∷ (y ∷ ys)) (suc (suc i)) h k =
    append_assoc x (sep <> join sep (y ∷ take i ys)) (sep <> join sep (drop i ys))
    ∙ ap (λ s. x <> s)
        (append_assoc sep (join sep (y ∷ take i ys)) (sep <> join sep (drop i ys))
          ∙ ap (λ s. sep <> s) (join-take-drop sep (y ∷ ys) (suc i) (omega arith) (omega arith)))

onto_first_or_empty :
    (b : Bool) (c : Char) (parts : List String)
    → 0 < length (if b then "" ∷ parts else onto_first c parts)
onto_first_or_empty true c parts = omega arith
onto_first_or_empty false c [] = omega arith
onto_first_or_empty false c (p ∷ ps) = omega arith

length-split : (sep : ℕ) (s : String) → 0 < length (split_at_char sep s)
unfolding split_at_char
length-split sep String.[] = omega arith
length-split sep (String.◌∷◌ c s) = onto_first_or_empty (code c == sep) c (split_at_char sep s)

join-empty_first :
    (parts : List String) → 0 < length parts → join "=" ("" ∷ parts) ≡ "=" <> join "=" parts
unfolding join
join-empty_first [] h = absurd (omega arith)
join-empty_first (p ∷ ps) h = nil-append ("=" <> join "=" (p ∷ ps))

join-onto_first :
    (c : Char) (parts : List String) → join "=" (onto_first c parts) ≡ String.◌∷◌ c (join "=" parts)
unfolding join
join-onto_first c [] = refl
join-onto_first c (p ∷ []) = refl
join-onto_first c (p ∷ (q ∷ ps)) = cons-append c p ("=" <> join "=" (q ∷ ps))

equals-cons : (c : Char) (s : String) → code c ≡ equals_sign → "=" <> s ≡ String.◌∷◌ c s
equals-cons c s h =
    cons-append "=" "" s
    ∙ ap (λ t. String.◌∷◌ "=" t) (nil-append s)
    ∙ ap (λ d. String.◌∷◌ d s) (sym (Char-path c "=" h))

join-split : (s : String) → join "=" (split_at_char equals_sign s) ≡ s
unfolding split_at_char
join-split String.[] = unfold join in refl
join-split (String.◌∷◌ c s) = elim (Bool-cases (code c == equals_sign)) [
  | inl same ↦ rw same (
      join-empty_first (split_at_char equals_sign s) (length-split equals_sign s)
      ∙ ap (λ t. "=" <> t) (join-split s)
      ∙ equals-cons c s ((==_iff (code c) equals_sign).0 same))
  | inr other ↦
      rw other
        (join-onto_first c (split_at_char equals_sign s) ∙ ap (λ t. String.◌∷◌ c t) (join-split s))
]

-- Where a key and a value come from: an equals sign between them, or the whole entry and nothing.
abbrev pub Splits : String → String × String → Type 0
Splits env (k, v) = (k <> "=" <> v ≡ env) ⊎ ((k ≡ env) × (v ≡ ""))

take_all : (xs : List String) → take (length xs) xs ≡ xs
take_all [] = refl
take_all (x ∷ xs) = ap (λ ys. x ∷ ys) (take_all xs)

drop_all : (xs : List String) → drop (length xs) xs ≡ []
drop_all [] = refl
drop_all (x ∷ xs) = drop_all xs

split-Splits :
    (parts : List String) (i : ℕ)
    → 0 < i
    → i ≤ length parts
    → Splits (join "=" parts) (join "=" (take i parts), join "=" (drop i parts))
unfolding join
split-Splits parts i h le = elim (Bool-cases (ltb i (length parts))) [
  | inl inside ↦ inl (join-take-drop "=" parts i h (ltb→lt i (length parts) inside))
  | inr end ↦
      let last : i ≡ length parts = ground arith in
      inr (rw last (ap (join "=") (take_all parts), ap (join "=") (drop_all parts)))
]

found-Splits :
    {env : String} (p : String × String) (q : String × String)
    → Splits env p
    → some p ≡ some q
    → Splits env q
found-Splits {env} p q h e = subst (Splits env) (some-injective p q e) h

find_split-Splits :
    (look : String → Option String) (parts : List String) (fuel i : ℕ) (kv : String × String)
    → 0 < i
    → i + fuel ≡ length parts + 1
    → find_split look parts fuel i ≡ some kv
    → Splits (join "=" parts) kv
unfolding find_split
find_split-Splits look parts zero i kv h e found = absurd (cc found)
find_split-Splits look parts (suc fuel) i kv h e found =
    elim (Bool-cases (matches (join "=" (drop i parts)) (look (join "=" (take i parts))))) [
      | inl match ↦
          found-Splits (join "=" (take i parts), join "=" (drop i parts)) kv
            (split-Splits parts i h (omega arith)) (rw match at found)
      | inr other ↦
          find_split-Splits look parts fuel (i + 1) kv (omega arith) (omega arith)
            (rw other at found)
    ]

find_in_parts-Splits :
    (look : String → Option String) (parts : List String) (kv : String × String)
    → find_in_parts look parts ≡ some kv
    → Splits (join "=" parts) kv
unfolding find_in_parts join
find_in_parts-Splits look [] kv found = find_split-Splits look [] 0 1 kv (omega arith) refl found
find_in_parts-Splits look (p ∷ []) kv found =
    find_split-Splits look (p ∷ []) 1 1 kv (omega arith) refl found
find_in_parts-Splits look (p ∷ (q ∷ [])) kv found = found-Splits (p, q) kv (inl refl) found
find_in_parts-Splits look (p ∷ (q ∷ (r ∷ rs))) kv found =
    find_split-Splits look (p ∷ (q ∷ (r ∷ rs))) (length (p ∷ (q ∷ (r ∷ rs)))) 1 kv (omega arith)
      (omega arith) found

-- A key and a value that are found for an entry of the environment are the entry again: with an
-- equals sign between them, or, where the value is empty, the key alone.
pub find_key_val-Splits :
    (env : String) (look : String → Option String) (k v : String)
    → find_key_val env look ≡ some (k, v)
    → Splits env (k, v)
unfolding find_key_val
find_key_val-Splits env look k v found =
    subst (λ e. Splits e (k, v)) (join-split env)
      (find_in_parts-Splits look (split_at_char equals_sign env) (k, v) found)
