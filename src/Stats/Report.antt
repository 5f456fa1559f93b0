-- ===== src/Stats/Report.antt =====
-- stats.go: the message that the statistics are reported in. The machine's and the proxies' own
-- information, which is passed on, is left out.
use reclient.Prelude.{Bool, String, Option, none, some, List, [], ◌∷◌, length, if◌then◌else◌}
use reclient.Prelude.Int.{ℤ, pos, eqb_ℤ, ◌-ℤ◌, to_int32}
use reclient.Prelude.Maps.{Map, keys}
use reclient.Prelude.Sort
use reclient.Prelude.Sort.Texts.{string_leb}
use reclient.Stats.{Stat, is_empty}
use reclient.Stats.Messages.{Mismatch}
use reclient.Stats.Summary.{StatMessage, stat_to_proto}
use reclient.Stats.Collector.{Stats, Start, max_float, at}

-- the latency in seconds, or the largest float64 subtracted from the end
pub data Latency : Type 0 where
  seconds : ℤ → Latency
  minus_max_float : Latency

abbrev pub latency_of : Start → ℤ → Latency
latency_of max_float e = minus_max_float
latency_of (at t) e = seconds (e -ℤ t)

pub record VerificationMessage : Type 0 where
  pub mismatches : List Mismatch
  pub total_mismatches : ℤ
  pub total_verified : ℤ

pub record StatsMessage : Type 0 where
  pub num_records : ℤ
  pub build_cache_hit_ratio : Option (ℤ × ℤ)
  pub build_latency : Option Latency
  pub invocation_ids : List String
  pub stats : List StatMessage
  pub verification : Option VerificationMessage

abbrev stat_leb : String × Stat → String × Stat → Bool
stat_leb a b = string_leb a.0 b.0

-- the metrics with any values
unfoldable pub reported : Map String Stat → List StatMessage
reported [] = []
reported ((n, st) ∷ m) =
    let rest = reported m in if is_empty st then rest else stat_to_proto n st ∷ rest

unfoldable pub verification_to_proto : List Mismatch → ℤ → Option VerificationMessage
verification_to_proto [] verified = none
verification_to_proto (mm ∷ mms) verified = some (record {
  mismatches = mm ∷ mms;
  total_mismatches = to_int32 (pos (length (mm ∷ mms)));
  total_verified = verified;
})

-- ToProto
unfoldable pub to_proto : Stats → StatsMessage
to_proto s = record {
  num_records = s.num_records;
  build_cache_hit_ratio =
      if eqb_ℤ s.num_records (pos 0) then none else some (s.cache_hits, s.num_records);
  build_latency =
      if eqb_ℤ s.num_records (pos 0)
      then none
      else some (latency_of s.min_proxy_exec_start s.max_proxy_exec_end);
  invocation_ids = keys s.inv_ids;
  stats = reported (Sort.sort stat_leb s.stats);
  verification = verification_to_proto s.mismatches s.num_verified;
}
