-- ===== src/Ignore/Rules.antt =====
-- Which mismatches the rules leave in a log record.
use reclient.Prelude.{
  ◌≡◌, refl, ap, ◌∙◌, Bool, true, false, ◌||◌, String, Option, none, some, List, [], ◌∷◌,
  if◌then◌else◌, ◌>>=◌, is_some, arith, inl, inr, Bool-cases,
}
use reclient.Prelude.Int.{pos, to_int32}
use reclient.Prelude.Sort.Order.{count_if}
use reclient.Prelude.Result.{ok}
use reclient.Stats.Messages.{Mismatch, Verification, LocalMetadata, LogRecord}
use reclient.Ignore.{
  RegexPattern, IgnoreRule, differs, matched, rule_ignores, or_next, should_ignore,
  filter_mismatches, process_verification, process_metadata, process_mismatches, counted_out,
  with_verification, process_log_record,
}

module _ (compile : String → Option (String → Bool)) where
  abbrev test_of : Option (String → Bool) → Bool → String → Bool
  test_of none inverted path = false
  test_of (some re) inverted path = differs inverted (re path)

  -- whether a pattern can be compiled and matches the path, or does not if it is inverted
  abbrev pub applies : Option RegexPattern → String → Bool
  applies none path = false
  applies (some p) path = test_of (compile p.expression) p.inverted path

  -- An independent description: some rule applies to the path.
  abbrev pub any_applies : List IgnoreRule → String → Bool
  any_applies [] path = false
  any_applies (r ∷ rs) path = applies r.path_pattern path || any_applies rs path

  abbrev pub HavePatterns : List IgnoreRule → Type 0
  HavePatterns [] = Unit
  HavePatterns (r ∷ rs) = (is_some r.path_pattern ≡ true) × HavePatterns rs

  abbrev pub remaining : List IgnoreRule → List Mismatch → List Mismatch
  remaining rs [] = []
  remaining rs (m ∷ ms) = if any_applies rs m.path then remaining rs ms else m ∷ remaining rs ms

  ok_next : (a b : Bool) → or_next compile (ok a) (some b) ≡ some (a || b)
  ok_next true b = refl
  ok_next false b = refl

  matched_next :
      (inverted : Bool) (path : String) (re : Option (String → Bool)) (b : Bool)
      → or_next compile (matched inverted path re) (some b) ≡ some (test_of re inverted path || b)
  matched_next inverted path none b = refl
  matched_next inverted path (some re) b = ok_next (differs inverted (re path)) b

  next_rule :
      (m : Mismatch) (o : Option RegexPattern) (b : Bool)
      → is_some o ≡ true
      → or_next compile (rule_ignores compile m o) (some b) ≡ some (applies o m.path || b)
  unfolding rule_ignores
  next_rule m none b h = absurd (cc h)
  next_rule m (some p) b h = matched_next p.inverted m.path (compile p.expression) b

  should_ignore-any :
      (rs : List IgnoreRule) (m : Mismatch)
      → HavePatterns rs
      → should_ignore compile rs m ≡ some (any_applies rs m.path)
  unfolding should_ignore
  should_ignore-any [] m h = refl
  should_ignore-any (r ∷ rs) m h =
      ap (or_next compile (rule_ignores compile m r.path_pattern)) (should_ignore-any rs m h.1)
      ∙ next_rule m r.path_pattern (any_applies rs m.path) h.0

  filter_mismatches-remaining :
      (rs : List IgnoreRule) (ms : List Mismatch)
      → HavePatterns rs
      → filter_mismatches compile rs ms
        ≡ some (count_if (λ m. any_applies rs m.path) ms, remaining rs ms)
  unfolding filter_mismatches
  filter_mismatches-remaining rs [] h = refl
  filter_mismatches-remaining rs (m ∷ ms) h =
      rw (should_ignore-any rs m h, filter_mismatches-remaining rs ms h)
        (elim (Bool-cases (any_applies rs m.path)) [
          | inl ignored ↦ rw ignored (ground arith)
          | inr kept ↦ rw kept (ground arith)
        ])

  processed :
      (rs : List IgnoreRule) (vf : Verification) (m : Mismatch) (ms : List Mismatch)
      → HavePatterns rs
      → process_mismatches compile rs vf (m ∷ ms)
        ≡ some (
            counted_out compile vf
              (count_if (λ x. any_applies rs x.path) (m ∷ ms), remaining rs (m ∷ ms)))
  processed rs vf m ms h =
      ap (λ o. o >>= λ counts. some (counted_out compile vf counts))
        (filter_mismatches-remaining rs (m ∷ ms) h)

-- With rules that all have a pattern, a log record with mismatches is processed without a panic: it
-- keeps exactly the mismatches to whose path no rule applies, in order, and counts the others as
-- ignored, in int32; a rule that cannot be compiled applies to nothing. Nothing else of the record
-- changes.
pub process_log_record_lem :
    (compile : String → Option (String → Bool)) (rs : List IgnoreRule) (r : LogRecord)
    (lm : LocalMetadata) (vf : Verification) (m : Mismatch) (ms : List Mismatch)
    → HavePatterns compile rs
    → r.local_metadata ≡ some lm
    → lm.verification ≡ some vf
    → vf.mismatches ≡ m ∷ ms
    → process_log_record compile (some rs) r
      ≡ some (record r {
        local_metadata = some (record lm {
          verification = some (record vf {
            mismatches = remaining compile rs (m ∷ ms);
            total_ignored_mismatches =
                to_int32 (pos (count_if (λ x. any_applies compile rs x.path) (m ∷ ms)));
          });
        });
      })
unfolding process_log_record
process_log_record_lem compile rs r lm vf m ms h e f g =
    ap (process_metadata compile rs r) e
    ∙ ap (process_verification compile rs r lm) f
    ∙ ap (λ l. process_mismatches compile rs vf l >>= λ v. some (with_verification compile r lm v))
        g
    ∙ ap (λ o. o >>= λ v. some (with_verification compile r lm v)) (processed compile rs vf m ms h)
