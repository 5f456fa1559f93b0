-- ===== src/Prelude/Text.antt =====
-- Prefixes of Go strings.
use Prim.Native.Char.{Char, code}
use Prim.Native.String.{String, [], ◌∷◌, ◌++◌}
use mathlib.Core.Path.{◌≡◌, ap, ◌∙◌}
use mathlib.Core.Bool.{Bool, true}
use mathlib.Core.Logic.{inl, inr}
use mathlib.Core.Option.{Option, none, some}
use mathlib.Core.List.{List, [] as []ᴸ, ◌∷◌ as ◌∷ᴸ◌}
use Prim.Native.Nat.{ℕ}
use native.Mathlib.Omega.{arith}
use text.Mathlib.TextEquality.{Char-path}
use text.Mathlib.TextLemmas.{nil-append, cons-append}
use reclient.Prelude.Tests.{◌==◌, if◌then◌else◌, ==_iff, Bool-cases, is_some}

-- strings.CutPrefix: what follows the prefix, if it is one.
unfoldable pub cut_prefix : String → String → Option String
cut_prefix [] s = some s
cut_prefix (c ∷ p) [] = none
cut_prefix (c ∷ p) (d ∷ s) = if code c == code d then cut_prefix p s else none

-- strings.HasPrefix(s, p)
unfoldable pub has_prefix : String → String → Bool
unfolding cut_prefix
has_prefix s p = is_some (cut_prefix p s)

abbrev or_whole : String → Option String → String
or_whole s none = s
or_whole s (some r) = r

-- strings.TrimPrefix(s, p)
unfoldable pub trim_prefix : String → String → String
unfolding cut_prefix
trim_prefix s p = or_whole s (cut_prefix p s)

pub cut_prefix-append : (p s r : String) → cut_prefix p s ≡ some r → p ++ r ≡ s
unfolding cut_prefix
cut_prefix-append [] s r h = nil-append r ∙ ground arith
cut_prefix-append (c ∷ p) [] r h = cc
cut_prefix-append (c ∷ p) (d ∷ s) r h = elim (Bool-cases (code c == code d)) [
  | inl same ↦
      cons-append c p r
      ∙ ap (λ x. x ∷ (p ++ r)) (Char-path c d ((==_iff (code c) (code d)).0 same))
      ∙ ap (λ x. d ∷ x) (cut_prefix-append p s r (rw same at h))
  | inr other ↦ absurd (cc (rw other at h))
]

-- What TrimPrefix leaves, behind the prefix, is the string again.
pub append-trim_prefix : (s p : String) → has_prefix s p ≡ true → p ++ trim_prefix s p ≡ s
unfolding has_prefix trim_prefix
append-trim_prefix s p h = ground (arith, cut_prefix-append p s (trim_prefix s p))

abbrev pub onto_first : Char → List String → List String
onto_first c []ᴸ = (c ∷ []) ∷ᴸ []ᴸ
onto_first c (p ∷ᴸ ps) = (c ∷ p) ∷ᴸ ps

-- strings.Split at a separator of one byte: always one part at least
unfoldable pub split_at_char : ℕ → String → List String
split_at_char sep [] = [] ∷ᴸ []ᴸ
split_at_char sep (c ∷ s) =
    let parts = split_at_char sep s in if code c == sep then [] ∷ᴸ parts else onto_first c parts
