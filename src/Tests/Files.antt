-- ===== src/Tests/Files.antt =====
-- Files put aside and mismatches taken out, at concrete inputs.
use Prim.Native.Char.{code}
use text.Mathlib.TextLemmas.{nil≢cons, cons≢nil, tail-eq_of_cons-eq, head-eq_of_cons-eq}
use reclient.Prelude.{
  ℕ, zero, suc, ◌≡◌, refl, ap, Bool, true, false, not, ◌&&◌, String, Option, none, some, [], ◌∷◌,
  str_eq, eq_iff, if◌then◌else◌, inl, inr, subst, Bool-cases, arith,
}
use reclient.Prelude.Int.{pos}
use reclient.Prelude.Maps.{Map, lookup, insert, string_eq}
use reclient.Stats.Messages.{Mismatch, Verification, LocalMetadata, LogRecord}
use reclient.Ignore.{IgnoreRule, process_log_record}
use reclient.Ignore.Rules.{process_log_record_lem}
use reclient.Stash.{Files, Copy, copied, stash_files, restore, stash_from}
use reclient.Stash.Restored.{is_dup}
use reclient.Stash.Copies.{IsFree, is_stashed, restore-stash_files}

abbrev tally : ℕ → String
tally zero = "#"
tally (suc n) = String.◌∷◌ "#" (tally n)

tally-distinct : (i j : ℕ) → tally i ≡ tally j → i ≡ j
tally-distinct zero zero h = refl
tally-distinct zero (suc zero) h = absurd (nil≢cons (tail-eq_of_cons-eq h))
tally-distinct zero (suc (suc j)) h = absurd (nil≢cons (tail-eq_of_cons-eq h))
tally-distinct (suc zero) zero h = absurd (cons≢nil (tail-eq_of_cons-eq h))
tally-distinct (suc (suc i)) zero h = absurd (cons≢nil (tail-eq_of_cons-eq h))
tally-distinct (suc i) (suc j) h = ap suc (tally-distinct i j (tail-eq_of_cons-eq h))

hash_other : (s t : String) → str_eq (String.◌∷◌ "#" s) (String.◌∷◌ "a" t) ≡ false
hash_other s t = elim (Bool-cases (str_eq (String.◌∷◌ "#" s) (String.◌∷◌ "a" t))) [
  | inl same ↦
      let first : code "#" ≡ code "a" =
        ap code (head-eq_of_cons-eq ((eq_iff (String.◌∷◌ "#" s) (String.◌∷◌ "a" t)).0 same)) in
      absurd (omega arith)
  | inr other ↦ other
]

object-IsFree : IsFree tally tally-distinct "a.o"
object-IsFree zero = refl
object-IsFree (suc j) = hash_other (tally j) ".o"

abbrev one_file : Files
one_file = ("a.o", record { content = "local"; mode = 420 }) ∷ []

abbrev all_copied : String → Copy
all_copied p = copied

-- another file is written to a.o, while the copy is still there
abbrev overwritten : Files
overwritten =
    ("a.o", record { content = "remote"; mode = 420 })
    ∷ ("#", record { content = "local"; mode = 420 })
    ∷ []

abbrev stashed : Files × Map String String
stashed = stash_files tally all_copied ("a.o" ∷ []) one_file

at_copy : lookup "#" overwritten ≡ lookup "#" stashed.0
unfolding stash_files stash_from lookup insert
at_copy = refl

only_copy : (d : String) → is_dup d stashed.1 ≡ true → "#" ≡ d
unfolding stash_files stash_from lookup insert
only_copy d h = (eq_iff "#" d).0 (ground (arith, h))

-- renaming to a.o succeeds
abbrev only_to_object : String → String → Bool
only_to_object from to = not (str_eq to "a.o")

restore-stash_files_example : lookup "a.o" (restore only_to_object stashed.1 overwritten) ≡ (
    if is_stashed tally tally-distinct all_copied one_file "a.o" ("a.o" ∷ []) && true
    then lookup "a.o" one_file
    else lookup "a.o" overwritten)
restore-stash_files_example =
    restore-stash_files tally tally-distinct all_copied ("a.o" ∷ []) one_file overwritten
      only_to_object "a.o" true (object-IsFree, tt)
      (λ d h. subst (λ k. lookup k overwritten ≡ lookup k stashed.0) (only_copy d h) at_copy)
      object-IsFree (λ d. refl)

-- a rule for the path a.o, and none that can be compiled otherwise
abbrev compile_a : String → Option (String → Bool)
compile_a e = if str_eq e "a.o" then some (λ p. str_eq p "a.o") else none

abbrev rule_for : String → IgnoreRule
rule_for e = record { path_pattern = some (record { expression = e; inverted = false }) }

abbrev mismatch_at : String → Mismatch
mismatch_at p = record { path = p; non_deterministic = false; ignored = false }

abbrev verification : Verification
verification = record {
  mismatches = mismatch_at "a.o" ∷ mismatch_at "b.o" ∷ [];
  total_mismatches = pos 2;
  total_ignored_mismatches = pos 0;
  total_verified = pos 2;
}

abbrev with : Verification → LocalMetadata
with vf = record {
  result = none;
  executed_locally = true;
  valid_cache_hit = false;
  updated_cache = false;
  verification = some vf;
  event_times = [];
  rerun_metadata = [];
  labels = [];
}

abbrev logged : Verification → LogRecord
logged vf = record {
  command_id = "a";
  invocation_id = "build";
  result = none;
  remote_metadata = none;
  local_metadata = some (with vf);
  completion_status = "STATUS_LOCAL_EXECUTION";
}

process_log_record_lem_example :
    process_log_record compile_a (some (rule_for "(" ∷ rule_for "a.o" ∷ [])) (logged verification)
    ≡ some (
        logged (record verification {
          mismatches = mismatch_at "b.o" ∷ [];
          total_ignored_mismatches = pos 1;
        }))
process_log_record_lem_example =
    process_log_record_lem compile_a (rule_for "(" ∷ rule_for "a.o" ∷ []) (logged verification)
      (with verification) verification (mismatch_at "a.o") (mismatch_at "b.o" ∷ [])
      (refl, (refl, tt)) refl refl refl
