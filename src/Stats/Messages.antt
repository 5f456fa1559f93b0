-- ===== src/Stats/Messages.antt =====
-- The fields of the log messages (api/log) that the statistics read. A status is its name, and a
-- repeated field holds no nil message.
use reclient.Prelude.{◌/◌, suc, ltb, Bool, String, Option, List, if◌then◌else◌}
use reclient.Prelude.Int.{ℤ, pos, negsuc, difference, half64}
use reclient.Prelude.Maps.{Map}

pub record CommandResult : Type 0 where
  pub status : String

-- the times in nanoseconds of the Unix epoch, `none` where they are not given
pub record TimeInterval : Type 0 where
  pub start : Option ℤ
  pub end : Option ℤ

abbrev pub EventTimes : Type 0
EventTimes = Map String (Option TimeInterval)

pub record RerunMetadata : Type 0 where
  pub attempt : ℤ
  pub result : Option CommandResult
  pub num_output_files : ℤ
  pub num_output_directories : ℤ
  pub total_output_bytes : ℤ
  pub logical_bytes_downloaded : ℤ
  pub real_bytes_downloaded : ℤ
  pub event_times : EventTimes

pub record Mismatch : Type 0 where
  pub path : String
  pub non_deterministic : Bool
  pub ignored : Bool

pub record Verification : Type 0 where
  pub mismatches : List Mismatch
  pub total_mismatches : ℤ
  pub total_ignored_mismatches : ℤ
  pub total_verified : ℤ

pub record RemoteMetadata : Type 0 where
  pub result : Option CommandResult
  pub cache_hit : Bool
  pub num_input_files : ℤ
  pub num_input_directories : ℤ
  pub total_input_bytes : ℤ
  pub num_output_files : ℤ
  pub num_output_directories : ℤ
  pub total_output_bytes : ℤ
  pub event_times : EventTimes
  pub logical_bytes_uploaded : ℤ
  pub real_bytes_uploaded : ℤ
  pub logical_bytes_downloaded : ℤ
  pub real_bytes_downloaded : ℤ
  pub rerun_metadata : List RerunMetadata

pub record LocalMetadata : Type 0 where
  pub result : Option CommandResult
  pub executed_locally : Bool
  pub valid_cache_hit : Bool
  pub updated_cache : Bool
  pub verification : Option Verification
  pub event_times : EventTimes
  pub rerun_metadata : List RerunMetadata
  pub labels : Map String String

pub record LogRecord : Type 0 where
  pub command_id : String
  pub invocation_id : String
  pub result : Option CommandResult
  pub remote_metadata : Option RemoteMetadata
  pub local_metadata : Option LocalMetadata
  pub completion_status : String

-- time.Duration: nanoseconds in int64, saturated
abbrev pub saturate : ℤ → ℤ
saturate (pos n) = if ltb n half64 then pos n else pos 9223372036854775807
saturate (negsuc n) = if ltb n half64 then negsuc n else negsuc 9223372036854775807

-- Duration.Milliseconds, which rounds towards 0
abbrev pub milliseconds : ℤ → ℤ
milliseconds (pos n) = pos (n / 1000000)
milliseconds (negsuc n) = difference 0 (suc n / 1000000)

-- Time.Unix, which rounds down
abbrev pub unix : ℤ → ℤ
unix (pos n) = pos (n / 1000000000)
unix (negsuc n) = negsuc (n / 1000000000)
