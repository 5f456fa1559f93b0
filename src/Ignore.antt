-- ===== src/Ignore.antt =====
-- internal/pkg/ignoremismatch: the rules that take mismatches out of the log record of an action.
-- Reading the configuration is left out; the compiler of regular expressions is a parameter, which
-- gives a test of paths or fails.
pub mod Rules
use reclient.Prelude.{
  ℕ, ◌+◌, Bool, true, false, not, ◌&&◌, ◌||◌, String, Option, none, some, List, [], ◌∷◌, ◌++◌,
  if◌then◌else◌, ◌>>=◌,
}
use reclient.Prelude.Int.{ℤ, pos, to_int32}
use reclient.Prelude.Result.{Result, ok, err, panic}
use reclient.Stats.Messages.{Mismatch, Verification, LocalMetadata, LogRecord}

pub record RegexPattern : Type 0 where
  pub expression : String
  pub inverted : Bool

-- an outputFilePathRule, whose specification may have no pattern
pub record IgnoreRule : Type 0 where
  pub path_pattern : Option RegexPattern

-- the rules of the configuration: of the one kind that is known, or with no specification
pub data RuleSpec : Type 0 where
  output_file_path_rule_spec : Option RegexPattern → RuleSpec
  no_spec : RuleSpec

pub data RuleError : Type 0 where
  unknown_rule invalid_expression : RuleError

-- createFromRuleProto
unfoldable pub create_from_rule_proto : RuleSpec → Option IgnoreRule
create_from_rule_proto (output_file_path_rule_spec p) = some (record { path_pattern = p })
create_from_rule_proto no_spec = none

-- fromConfig
unfoldable pub from_config : List RuleSpec → Option (List IgnoreRule)
from_config [] = some []
from_config (spec ∷ specs) = do
  r ← create_from_rule_proto spec
  rs ← from_config specs
  some (r ∷ rs)

abbrev pub differs : Bool → Bool → Bool
differs true b = not b
differs false b = b

abbrev pub matched : Bool → String → Option (String → Bool) → Result RuleError Bool
matched inverted path none = err invalid_expression
matched inverted path (some re) = ok (differs inverted (re path))

module _ (compile : String → Option (String → Bool)) where
  -- shouldIgnore of a rule; a pattern that is missing is a nil pointer that is followed
  unfoldable pub rule_ignores : Mismatch → Option RegexPattern → Result RuleError Bool
  rule_ignores m none = panic
  rule_ignores m (some p) = matched p.inverted m.path (compile p.expression)

  -- one round of the loop of shouldIgnore: an error is logged and the rule passed over
  abbrev pub or_next : Result RuleError Bool → Option Bool → Option Bool
  or_next panic rest = none
  or_next (err e) rest = rest
  or_next (ok true) rest = some true
  or_next (ok false) rest = rest

  -- shouldIgnore
  unfoldable pub should_ignore : List IgnoreRule → Mismatch → Option Bool
  should_ignore [] m = some false
  should_ignore (r ∷ rs) m = or_next (rule_ignores m r.path_pattern) (should_ignore rs m)

  abbrev pub sorted_out : Mismatch → Bool → ℕ × List Mismatch → ℕ × List Mismatch
  sorted_out m true (n, ms) = (n + 1, ms)
  sorted_out m false (n, ms) = (n, m ∷ ms)

  -- the loop of ProcessLogRecord: how many are ignored, and which are left
  unfoldable pub filter_mismatches : List IgnoreRule → List Mismatch → Option (ℕ × List Mismatch)
  filter_mismatches rs [] = some (0, [])
  filter_mismatches rs (m ∷ ms) = do
    ignored ← should_ignore rs m
    rest ← filter_mismatches rs ms
    some (sorted_out m ignored rest)

  abbrev pub counted_out : Verification → ℕ × List Mismatch → Verification
  counted_out vf (n, ms) = record vf {
    mismatches = ms;
    total_ignored_mismatches = to_int32 (pos n);
  }

  -- with no mismatches at all the record stays as it is
  abbrev pub process_mismatches :
      List IgnoreRule → Verification → List Mismatch → Option Verification
  process_mismatches rs vf [] = some vf
  process_mismatches rs vf (m ∷ ms) = do
    counts ← filter_mismatches rs (m ∷ ms)
    some (counted_out vf counts)

  abbrev pub with_verification : LogRecord → LocalMetadata → Verification → LogRecord
  with_verification r lm vf = record r {
    local_metadata = some (record lm { verification = some vf });
  }

  abbrev pub process_verification :
      List IgnoreRule → LogRecord → LocalMetadata → Option Verification → Option LogRecord
  process_verification rs r lm none = some r
  process_verification rs r lm (some vf) = do
    vf' ← process_mismatches rs vf vf.mismatches
    some (with_verification r lm vf')

  abbrev pub process_metadata :
      List IgnoreRule → LogRecord → Option LocalMetadata → Option LogRecord
  process_metadata rs r none = some r
  process_metadata rs r (some lm) = process_verification rs r lm lm.verification

  -- ProcessLogRecord; an ignorer that is nil does nothing
  unfoldable pub process_log_record : Option (List IgnoreRule) → LogRecord → Option LogRecord
  process_log_record none r = some r
  process_log_record (some rs) r = process_metadata rs r r.local_metadata
