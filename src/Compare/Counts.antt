-- ===== src/Compare/Counts.antt =====
-- The totals that a verification reports.
use reclient.Prelude.{
  ℕ, ◌≤◌, ◌≡◌, refl, sym, ◌∙◌, Bool, true, false, String, Option, some, none, List, [], ◌∷◌, length,
  length-map, str_eq, arith, if◌then◌else◌, is_some, Option-cases, inl, inr,
}
use reclient.Prelude.Maps.{
  Map, lookup, keys, length-insert, is_some-lookup_cons, is_some-lookup_head, string_eq,
}
use reclient.Prelude.Sort.{sort}
use reclient.Prelude.Sort.Order.{count_if, count_if-sort, count_if-all, AllBy, AllBy-mono}
use reclient.Prelude.Sort.Texts.{string_leb}
use reclient.Compare.Outputs.{is_output, times-found}
use reclient.Compare.{
  Mismatches, Rerun, Reruns, Verification, Compared, find_in, find_mismatches, find_all, found,
  or_none, judge_all, collect, mismatches_to_proto, compare_action,
}

-- the number of paths found so far is the number of their entries
abbrev Counted : Mismatches × ℕ → Type 0
Counted (ms, n) = length ms ≡ n

find_in-Counted :
    (digest : String) (remote : Bool) (all : Map String String) (ms : Mismatches) (n : ℕ)
    → length ms ≡ n
    → Counted (find_in digest remote all (ms, n))
unfolding find_in
find_in-Counted digest remote [] ms n h = h
find_in-Counted digest remote ((fp, dg) ∷ all) ms n h =
    find_in-Counted digest remote all _ _ (elim (Option-cases (lookup fp ms)) [
      | inl e ↦ length-insert fp _ ms ∙ rw e (omega arith)
      | inr (m, e) ↦ length-insert fp _ ms ∙ rw e h
    ])

find_all-Counted :
    (digest : String) (remote : Bool) (rs : List Rerun) (acc : Mismatches × ℕ)
    → Counted acc
    → Counted (find_all digest remote rs acc)
unfolding find_all find_mismatches
find_all-Counted digest remote [] acc h = h
find_all-Counted digest remote (r ∷ rs) acc h =
    find_all-Counted digest remote rs _ (find_in-Counted digest remote _ acc.0 acc.1 h)

found-Counted : (a : Compared) → Counted (found a)
unfolding found
found-Counted a =
    find_all-Counted a.digest true (or_none a.remote_reruns) _
      (find_all-Counted a.digest false a.local_reruns ([], 0) refl)

length-judge_all : (rs : Reruns) (ms : Mismatches) → length (judge_all rs ms) ≤ length ms
unfolding judge_all
length-judge_all rs [] = omega arith
length-judge_all rs ((fp, m) ∷ ms) = ground (arith, length-judge_all rs ms)

abbrev is_in : Mismatches → String → Bool
is_in ms k = is_some (lookup k ms)

length-collect :
    (ms : Mismatches) (ks : List String) → length (collect ms ks) ≡ count_if (is_in ms) ks
unfolding collect
length-collect ms [] = refl
length-collect ms (k ∷ ks) = ground (arith, length-collect ms ks)

keys-found : (ms : Mismatches) → AllBy (is_in ms) (keys ms)
keys-found [] = tt
keys-found ((fp, m) ∷ ms) = (
  is_some-lookup_head fp m ms,
  AllBy-mono (is_in ms) (is_in ((fp, m) ∷ ms)) (keys ms) (λ k. is_some-lookup_cons k fp m ms)
      (keys-found ms),
)

mismatches_to_proto-total :
    (ms : Mismatches) (n : ℕ) → length (mismatches_to_proto ms n).mismatches ≡ length ms
unfolding mismatches_to_proto
mismatches_to_proto-total ms n =
    length-collect ms (sort string_leb (keys ms))
    ∙ count_if-sort string_leb (is_in ms) (keys ms)
    ∙ count_if-all (is_in ms) (keys ms) (keys-found ms)
    ∙ length-map ms (λ p. p.0)

abbrev Totals : ℕ → Option Verification → Type 0
Totals n none = Unit
Totals n (some v) =
    (v.total_mismatches ≡ length v.mismatches)
    × (v.total_verified ≡ n)
    × (v.total_mismatches ≤ v.total_verified)

proto-Totals :
    (ms : Mismatches) (n k : ℕ) → length ms ≤ k → n ≡ k → Totals k (some (mismatches_to_proto ms n))
unfolding mismatches_to_proto
proto-Totals ms n k h e = (sym (mismatches_to_proto-total ms n), e, omega arith)

Totals-if :
    (b : Bool) (n : ℕ) (v : Verification)
    → Totals n (some v)
    → Totals n (if b then some v else none)
Totals-if true n v h = h
Totals-if false n v h = tt

compare_action-all : (a : Compared) → Totals (length (found a).0) (compare_action a)
unfolding compare_action
compare_action-all a =
    Totals-if a.compare _ _
      (proto-Totals _ (found a).1 _ (length-judge_all _ (found a).0) (sym (found-Counted a)))

-- A verification lists as many mismatches as it says, and no more than it says it verified; and
-- that is the number of the output paths of the reruns, of files and of directories, each counted
-- once, in however many reruns and on however many sides it occurs.
pub compare_action-Totals :
    (a : Compared) (v : Verification)
    → compare_action a ≡ some v
    → (v.total_mismatches ≡ length v.mismatches)
      × (v.total_mismatches ≤ v.total_verified)
      × ((paths : List String) × (v.total_verified ≡ length paths)
          × ((k : String) → count_if (str_eq k) paths ≡ (if is_output k a then 1 else 0)))
compare_action-Totals a v h =
    let t = rw h at (compare_action-all a) in
    (
      t.0,
      t.2,
      (keys (found a).0, t.1 ∙ sym (length-map (found a).0 (λ p. p.0)), λ k. times-found k a),
    )
