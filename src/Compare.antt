-- ===== src/Compare.antt =====
-- internal/pkg/reproxy/compare.go: what compare mode reports of an action that was rerun.
-- The numbers of reruns and of mismatches are Go ints, without wrap-around.
pub mod Status
pub mod Counts
pub mod Outputs
use reclient.Prelude.{
  ℕ, zero, suc, ◌+◌, Bool, true, false, not, ◌&&◌, ◌||◌, String, Option, none, some, List, [], ◌∷◌,
  ◌++◌, map, length, ltb, ◌==◌, is_some, if◌then◌else◌,
}
use reclient.Prelude.FilePath.{clean}
use reclient.Prelude.Int.{ℤ, eqb_ℤ, eqb_ℤ_iff}
use reclient.Prelude.Maps.{Map, Eq, lookup, insert, string_eq, keys, eqb}
use reclient.Prelude.Sort.{sort}
use reclient.Prelude.Sort.Texts.{string_leb}

pub data Determinism : Type 0 where
  unknown deterministic non_deterministic remote_non_deterministic : Determinism

-- `l[0] == r[0]`, where both have one element
abbrev pub same_first {ℓ} : {A : Type ℓ} ⦃e : Eq A⦄ → List A → List A → Bool
same_first (x ∷ xs) (y ∷ ys) = eqb x y
same_first _ _ = false

module _ {ℓ} {A : Type ℓ} ⦃e : Eq A⦄ where
  -- compareDigests and compareExitCodes, which differ in the type of the elements only
  unfoldable pub compare_values : List A → List A → ℕ → ℕ → Determinism × Bool
  compare_values local remote local_reruns remote_reruns =
      let one_local = length local == 1 in
      let one_remote = length remote == 1 in
      let same = one_local && one_remote && same_first local remote in
      let mismatch =
        one_local
        && one_remote
        && not (same_first local remote)
        && ltb 2 (local_reruns + remote_reruns) in
      if ltb 1 (length local) || ltb 1 (length remote)
      then (if one_local then (remote_non_deterministic, true) else (non_deterministic, true))
      else if one_local && remote_reruns == 0 || one_remote && local_reruns == 0 || same || mismatch
      then (deterministic, mismatch)
      else (unknown, true)

  contains : List A → A → Bool
  contains [] a = false
  contains (x ∷ xs) a = eqb x a || contains xs a

  -- the loop of dedupExitCodes; `seen` holds the keys of the map
  unfoldable pub dedup_from : List A → List A → List A
  unfolding contains
  dedup_from seen [] = []
  dedup_from seen (x ∷ xs) = elim (contains seen x) [
    | true ↦ dedup_from seen xs
    | false ↦ x ∷ dedup_from (x ∷ seen) xs
  ]

  -- dedupExitCodes
  unfoldable pub dedup_values : List A → List A
  unfolding dedup_from
  dedup_values = dedup_from []

-- compareDigests
abbrev pub compare_digests : List String → List String → ℕ → ℕ → Determinism × Bool
compare_digests = compare_values

instance abbrev pub int_eq : Eq ℤ
int_eq = record { beq = eqb_ℤ; beq_iff = eqb_ℤ_iff }

-- compareExitCodes
abbrev pub compare_exit_codes : List ℤ → List ℤ → ℕ → ℕ → Determinism × Bool
compare_exit_codes = compare_values

pub record Mismatch : Type 0 where
  pub path : String
  pub action_digest : String
  pub local_digests : List String
  pub remote_digests : List String
  pub local_exit_codes : List ℤ
  pub remote_exit_codes : List ℤ
  pub determinism : Determinism

pub record Rerun : Type 0 where
  pub output_file_digests : Map String String
  pub output_directory_digests : Map String String
  pub exit_code : ℤ

-- The loop of dedup (server.go): from the cleaned path to the first path that has it. Go returns
-- the values in any order; here it is the order of their first occurrence.
unfoldable pub dedup_onto : Map String String → List String → Map String String
dedup_onto m [] = m
dedup_onto m (f ∷ fs) =
    dedup_onto (if is_some (lookup (clean f) m) then m else insert (clean f) f m) fs

abbrev values : Map String String → List String
values = map (λ p. p.1)

unfoldable pub dedup : List String → List String
unfolding dedup_onto
dedup list = values (dedup_onto [] list)

-- the two loops that fill `allDg`
unfoldable pub merge_maps : Map String String → Map String String → Map String String
merge_maps dst [] = dst
merge_maps dst ((k, v) ∷ src) = merge_maps (insert k v dst) src

abbrev pub new_mismatch : String → String → Mismatch
new_mismatch fp digest = record {
  path = fp;
  action_digest = digest;
  local_digests = [];
  remote_digests = [];
  local_exit_codes = [];
  remote_exit_codes = [];
  determinism = unknown;
}

abbrev pub Mismatches : Type 0
Mismatches = Map String Mismatch

unfoldable pub add_digest : Bool → String → Mismatch → Mismatch
unfolding dedup
add_digest true dg m = record m { remote_digests = dedup (m.remote_digests ++ dg ∷ []) }
add_digest false dg m = record m { local_digests = dedup (m.local_digests ++ dg ∷ []) }

abbrev pub or_new_mismatch : String → String → Option Mismatch → Mismatch
or_new_mismatch fp digest none = new_mismatch fp digest
or_new_mismatch fp digest (some m) = m

-- The loop of findMismatches: the mismatches, and how many are new. On Unix ToSlash changes nothing.
unfoldable pub find_in : String → Bool → Map String String → Mismatches × ℕ → Mismatches × ℕ
find_in digest remote [] acc = acc
find_in digest remote ((fp, dg) ∷ all) (ms, n) = find_in digest remote all (
  insert fp (add_digest remote dg (or_new_mismatch fp digest (lookup fp ms))) ms,
  if is_some (lookup fp ms) then n else n + 1,
)

-- findMismatches
unfoldable pub find_mismatches : String → Bool → Rerun → Mismatches × ℕ → Mismatches × ℕ
find_mismatches digest remote r acc =
    find_in digest remote
      (merge_maps (merge_maps [] r.output_file_digests) r.output_directory_digests) acc

-- one of the two loops over the reruns
unfoldable pub find_all : String → Bool → List Rerun → Mismatches × ℕ → Mismatches × ℕ
find_all digest remote [] acc = acc
find_all digest remote (r ∷ rs) acc =
    find_all digest remote rs (find_mismatches digest remote r acc)

-- the switch on the two statuses
unfoldable pub overall : Determinism → Determinism → Determinism
overall unknown ec = unknown
overall dg unknown = unknown
overall remote_non_deterministic ec = remote_non_deterministic
overall dg remote_non_deterministic = remote_non_deterministic
overall non_deterministic ec = non_deterministic
overall dg non_deterministic = non_deterministic
overall deterministic deterministic = deterministic

pub record Reruns : Type 0 where
  pub num_local : ℕ
  pub num_remote : ℕ
  pub local_exit_codes : List ℤ
  pub remote_exit_codes : List ℤ

-- the body of the loop over the mismatches; `none` is `delete`
unfoldable pub judge : Reruns → Mismatch → Option Mismatch
judge rs m =
    let (dg_status, log_dg) =
      compare_digests m.local_digests m.remote_digests rs.num_local rs.num_remote in
    let (ec_status, log_ec) =
      compare_exit_codes rs.local_exit_codes rs.remote_exit_codes rs.num_local rs.num_remote in
    if log_dg || log_ec
    then some (record m {
      local_digests = if log_dg then m.local_digests else [];
      remote_digests = if log_dg then m.remote_digests else [];
      local_exit_codes = if log_dg && not log_ec then [] else rs.local_exit_codes;
      remote_exit_codes = if log_dg && not log_ec then [] else rs.remote_exit_codes;
      determinism = overall dg_status ec_status;
    })
    else none

unfoldable pub judge_all : Reruns → Mismatches → Mismatches
judge_all rs [] = []
judge_all rs ((fp, m) ∷ ms) =
    let rest = judge_all rs ms in elim (judge rs m) [ none ↦ rest | some m' ↦ (fp, m') ∷ rest ]

pub record Verification : Type 0 where
  pub mismatches : List Mismatch
  pub total_mismatches : ℕ
  pub total_verified : ℕ

collect : Mismatches → List String → List Mismatch
collect ms [] = []
collect ms (k ∷ ks) =
    let rest = collect ms ks in elim (lookup k ms) [ none ↦ rest | some m ↦ m ∷ rest ]

-- mismatchesToProto
unfoldable pub mismatches_to_proto : Mismatches → ℕ → Verification
unfolding collect
mismatches_to_proto ms verified = record {
  mismatches = collect ms (sort string_leb (keys ms));
  total_mismatches = length ms;
  total_verified = verified;
}

-- What compareAction reads of an action. The remote reruns count where there is remote metadata.
pub record Compared : Type 0 where
  pub compare : Bool
  pub digest : String
  pub num_local_reruns : ℕ
  pub num_remote_reruns : ℕ
  pub local_reruns : List Rerun
  pub remote_reruns : Option (List Rerun)

abbrev pub or_none : Option (List Rerun) → List Rerun
or_none none = []
or_none (some rs) = rs

abbrev pub exit_codes : List Rerun → List ℤ
exit_codes = map (λ r. r.exit_code)

-- what the two loops find
unfoldable pub found : Compared → Mismatches × ℕ
found a =
    find_all a.digest true (or_none a.remote_reruns)
      (find_all a.digest false a.local_reruns ([], 0))

-- compareAction: the verification that it stores, if any
unfoldable pub compare_action : Compared → Option Verification
compare_action a =
    let (ms, verified) = found a in
    let rs : Reruns = record {
      num_local = a.num_local_reruns;
      num_remote = a.num_remote_reruns;
      local_exit_codes = dedup_values (exit_codes a.local_reruns);
      remote_exit_codes = dedup_values (exit_codes (or_none a.remote_reruns));
    } in
    if a.compare then some (mismatches_to_proto (judge_all rs ms) verified) else none
