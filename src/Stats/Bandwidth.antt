-- ===== src/Stats/Bandwidth.antt =====
-- stats.go: numbers of bytes for people. What Sprintf makes of its arguments is left out.
use reclient.Prelude.{
  ◌>>=◌, ℕ, zero, suc, ◌+◌, ◌*◌, ◌/◌, String, Option, none, some, List, [], ◌∷◌, get_elem?, ltb,
  str_eq, if◌then◌else◌,
}
use reclient.Prelude.Int.{ℤ, pos, negsuc}
use reclient.Stats.Summary.{StatMessage}

abbrev pub bw_unit : ℕ
bw_unit = 1000

abbrev pub bw_unit_reps : List String
bw_unit_reps = "K" ∷ "M" ∷ "G" ∷ "T" ∷ []

-- the arguments of Sprintf: a number of bytes, or such a number, what it is divided by and the
-- letter of the unit
pub data Readable : Type 0 where
  plain_bytes : ℤ → Readable
  in_unit : ℕ → ℕ → String → Readable

-- the loop of humanReadableBytes: res and idx at its end
unfoldable pub unit_of : (fuel : ℕ) → ℕ → ℕ × ℕ → ℕ × ℕ
unit_of zero n (res, idx) = (res, idx)
unit_of (suc fuel) n (res, idx) =
    let rest = unit_of fuel (n / bw_unit) (res * bw_unit, idx + 1) in
    if ltb n bw_unit then (res, idx) else rest

abbrev pub with_unit : ℕ → ℕ → Option String → Option Readable
with_unit n res none = none
with_unit n res (some u) = some (in_unit n res u)

abbrev pub in_units : ℕ → ℕ × ℕ → Option Readable
in_units n (res, idx) = with_unit n res (get_elem? bw_unit_reps idx)

-- as many rounds as an int64 allows
abbrev pub rounds : ℕ
rounds = 7

-- humanReadableBytes; an index past the units panics
unfoldable pub human_readable_bytes : ℤ → Option Readable
human_readable_bytes (negsuc n) = some (plain_bytes (negsuc n))
human_readable_bytes (pos n) =
    if ltb n bw_unit
    then some (plain_bytes (pos n))
    else in_units n (unit_of rounds (n / bw_unit) (bw_unit, 0))

-- the last count of a metric of this name
unfoldable pub last_count : String → List StatMessage → ℤ → ℤ
last_count name [] v = v
last_count name (st ∷ sts) v = last_count name sts (if str_eq st.name name then st.count else v)

-- BandwidthStats
unfoldable pub bandwidth_stats : List StatMessage → Option (Readable × Readable)
bandwidth_stats sts = do
  down ← human_readable_bytes (last_count "RemoteMetadata.RealBytesDownloaded" sts (pos 0))
  up ← human_readable_bytes (last_count "RemoteMetadata.RealBytesUploaded" sts (pos 0))
  some (down, up)
