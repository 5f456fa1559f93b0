-- ===== src/Stats/Collector.antt =====
-- stats.go: `Stats`, which log records are added to one by one, and what it reports. The machine
-- that it runs on is a parameter; float64 holds seconds exactly, and its largest number is
-- `max_float`.
use Prim.Native.String.{◌++◌ as ◌<>◌}
use reclient.Prelude.{
  ◌>>=◌, Bool, true, false, String, Option, none, some, List, [], ◌∷◌, ◌++◌, str_eq, ◌||◌,
  if◌then◌else◌,
}
use reclient.Prelude.Int.{ℤ, pos, ltb_ℤ, add64}
use reclient.Prelude.Maps.{Map, lookup, insert, string_eq}
use reclient.Prelude.Sort
use reclient.Labels.{to_key}
use reclient.Prelude.Sort.Texts.{string_leb}
use reclient.Stats.{Stat, StatTree, Subfields, node, no_subfields, subfield, new_stat_tree}
use reclient.Stats.Messages.{
  CommandResult, LocalMetadata, LogRecord, Mismatch, TimeInterval, Verification, EventTimes, unix,
}
use reclient.Stats.Logged.{add_log_record}
use reclient.Stats.Summary.{summarize}

pub data Start : Type 0 where
  max_float : Start
  at : ℤ → Start

pub record Stats : Type 0 where
  pub num_records : ℤ
  pub inv_ids : Map String Bool
  pub stats : Map String Stat
  pub tree : StatTree
  pub mismatches : List Mismatch
  pub num_verified : ℤ
  pub cache_hits : ℤ
  pub min_proxy_exec_start : Start
  pub max_proxy_exec_end : ℤ

-- New
unfoldable pub new : Stats
new = record {
  num_records = pos 0;
  inv_ids = [];
  stats = [];
  tree = new_stat_tree "";
  mismatches = [];
  num_verified = pos 0;
  cache_hits = pos 0;
  min_proxy_exec_start = max_float;
  max_proxy_exec_end = pos 0;
}

abbrev pub dotted : String → String → String
dotted prefix name =
    if str_eq prefix "" || str_eq name "" then prefix <> name else prefix <> "." <> name

abbrev pub leaf_key : String → Bool → String
leaf_key prefix true = prefix <> "Millis"
leaf_key prefix false = prefix

-- aggregate: the metrics at the leaves, by the names on the way to them
unfoldable mutual
  pub aggregate : StatTree → String → Map String Stat → Map String Stat
  aggregate (node name no_subfields st) prefix m =
      insert (leaf_key (dotted prefix name) st.is_millis) st m
  aggregate (node name (subfield k t ts) st) prefix m =
      aggregate_subfields ts (dotted prefix name) (aggregate t (dotted prefix name) m)

  pub aggregate_subfields : Subfields → String → Map String Stat → Map String Stat
  aggregate_subfields no_subfields prefix m = m
  aggregate_subfields (subfield k t ts) prefix m =
      aggregate_subfields ts prefix (aggregate t prefix m)

abbrev pub labels_of : Option LocalMetadata → Map String String
labels_of none = []
labels_of (some lm) = lm.labels

abbrev pub verification_of : Option LocalMetadata → Option Verification
verification_of none = none
verification_of (some lm) = lm.verification

abbrev pub event_times_of : Option LocalMetadata → EventTimes
event_times_of none = []
event_times_of (some lm) = lm.event_times

abbrev pub status_of : Option CommandResult → String
status_of none = "UNKNOWN"
status_of (some r) = r.status

-- the tree under the key of the labels, if there are any
unfoldable pub add_labelled : Map String String → LogRecord → StatTree → StatTree
add_labelled [] r t = t
add_labelled (l ∷ ls) r t = add_log_record (some r) (to_key (l ∷ ls)) r.command_id t

unfoldable pub add_verified : Option Verification → Stats → Stats
add_verified none s = s
add_verified (some vf) s = record s {
  mismatches = s.mismatches ++ vf.mismatches;
  num_verified = add64 s.num_verified vf.total_verified;
}

unfoldable pub add_invocation : String → Stats → Stats
add_invocation id s = if str_eq id "" then s else record s { inv_ids = insert id true s.inv_ids }

unfoldable pub add_cache_hit : String → Stats → Stats
add_cache_hit status s =
    if str_eq status "CACHE_HIT" then record s { cache_hits = add64 s.cache_hits (pos 1) } else s

abbrev pub min_start : Start → ℤ → Start
min_start max_float t = at t
min_start (at s) t = at (if ltb_ℤ t s then t else s)

abbrev pub max_end : ℤ → ℤ → ℤ
max_end e t = if ltb_ℤ e t then t else e

unfoldable pub add_proxy_times : Option (Option TimeInterval) → Stats → Stats
add_proxy_times none s = s
add_proxy_times (some none) s = s
add_proxy_times (some (some ti)) s = elim ti.start [
  | none ↦ s
  | some t ↦ elim ti.end [
    | none ↦ s
    | some u ↦ record s {
      min_proxy_exec_start = min_start s.min_proxy_exec_start (unix t);
      max_proxy_exec_end = max_end s.max_proxy_exec_end (unix u);
    }
  ]
]

-- AddRecord of a record
unfoldable pub add_record : LogRecord → Stats → Stats
add_record r s0 =
    let t = add_log_record (some r) "" r.command_id s0.tree in
    let s1 : Stats = record s0 {
      num_records = add64 s0.num_records (pos 1);
      tree = add_labelled (labels_of r.local_metadata) r t;
    } in
    let s2 = add_verified (verification_of r.local_metadata) s1 in
    let s3 = add_invocation r.invocation_id s2 in
    let s4 = add_cache_hit (status_of r.result) s3 in
    add_proxy_times (lookup "ProxyExecution" (event_times_of r.local_metadata)) s4

unfoldable pub add_records : List LogRecord → Stats → Stats
add_records [] s = s
add_records (r ∷ rs) s = add_records rs (add_record r s)

unfoldable pub summarize_all : Map String Stat → Option (Map String Stat)
summarize_all [] = some []
summarize_all ((k, st) ∷ m) = do st' ← summarize st; rest ← summarize_all m; some ((k, st') ∷ rest)

abbrev pub path_leb : Mismatch → Mismatch → Bool
path_leb a b = string_leb a.path b.path

-- finalize
unfoldable pub finalize : Stats → Option Stats
finalize s = do
  summaries ← summarize_all s.stats
  some (record s { stats = summaries; mismatches = Sort.sort path_leb s.mismatches })

-- FinalizeAggregate
unfoldable pub finalize_aggregate : Stats → Option Stats
finalize_aggregate s = finalize (record s { stats = aggregate s.tree "" s.stats })

-- NewFromRecords
unfoldable pub new_from_records : List LogRecord → Option Stats
new_from_records recs = finalize_aggregate (add_records recs new)
