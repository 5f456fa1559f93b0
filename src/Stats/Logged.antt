-- ===== src/Stats/Logged.antt =====
-- stats.go: what a log record adds to the tree. A message is added under a child of its own, which
-- is made also when the message is nil.
use reclient.Prelude.{true, false, String, Option, none, some, List, [], ◌∷◌}
use reclient.Prelude.Int.{ℤ, ◌-ℤ◌, to_int32}
use reclient.Stats.{StatTree, child, add_num, add_bool, add_status}
use reclient.Stats.Messages.{
  TimeInterval, EventTimes, CommandResult, RerunMetadata, Mismatch, Verification, RemoteMetadata,
  LocalMetadata, LogRecord, milliseconds, saturate,
}

-- a value that is no time
abbrev pub number : ℤ → String → String → StatTree → StatTree
number v name cmd = add_num v name cmd false

-- addTimeInterval past the nil check
unfoldable pub add_interval : Option ℤ → Option ℤ → String → StatTree → StatTree
add_interval (some t) (some u) cmd n =
    add_num (to_int32 (milliseconds (saturate (u -ℤ t)))) "" cmd true n
add_interval _ _ cmd n = n

-- addTimeInterval
unfoldable pub add_time_interval : Option TimeInterval → String → String → StatTree → StatTree
add_time_interval none name cmd = child name (λ n. n)
add_time_interval (some ti) name cmd = child name (add_interval ti.start ti.end cmd)

unfoldable pub add_each_time : EventTimes → String → StatTree → StatTree
add_each_time [] cmd n = n
add_each_time ((k, v) ∷ et) cmd n = add_each_time et cmd (add_time_interval v k cmd n)

-- addEventTimes
unfoldable pub add_event_times : EventTimes → String → String → StatTree → StatTree
add_event_times et name cmd = child name (add_each_time et cmd)

-- addCommandResult
unfoldable pub add_command_result : Option CommandResult → String → StatTree → StatTree
add_command_result none name = child name (λ n. n)
add_command_result (some res) name = child name (add_status (some res.status) "Status")

-- addRerunMetadata
unfoldable pub rerun_fields : RerunMetadata → String → StatTree → StatTree
rerun_fields rm cmd n0 =
    let n1 = number rm.attempt "Attempt" cmd n0 in
    let n2 = add_command_result rm.result "Result" n1 in
    let n3 = number rm.num_output_files "NumOutputFiles" cmd n2 in
    let n4 = number rm.num_output_files "NumOutputFiles" cmd n3 in
    let n5 = number rm.num_output_directories "NumOutputDirectories" cmd n4 in
    let n6 = number rm.total_output_bytes "TotalOutputBytes" cmd n5 in
    let n7 = number rm.logical_bytes_downloaded "LogicalBytesDownloaded" cmd n6 in
    let n8 = number rm.real_bytes_downloaded "RealBytesDownloaded" cmd n7 in
    add_event_times rm.event_times "EventTimes" cmd n8

unfoldable pub add_rerun_metadata : Option RerunMetadata → String → String → StatTree → StatTree
add_rerun_metadata none name cmd = child name (λ n. n)
add_rerun_metadata (some rm) name cmd = child name (rerun_fields rm cmd)

unfoldable pub add_each_rerun : List RerunMetadata → String → StatTree → StatTree
add_each_rerun [] cmd n = n
add_each_rerun (rm ∷ rms) cmd n =
    add_each_rerun rms cmd (add_rerun_metadata (some rm) "RerunMetadata" cmd n)

-- addRerunMetadatas
unfoldable pub add_rerun_metadatas : List RerunMetadata → String → String → StatTree → StatTree
add_rerun_metadatas rms name cmd = child name (add_each_rerun rms cmd)

unfoldable pub mismatch_fields : Mismatch → StatTree → StatTree
mismatch_fields mm n =
    add_bool mm.ignored "Ignored" (add_bool mm.non_deterministic "NonDeterministic" n)

-- addMismatch
unfoldable pub add_mismatch : Option Mismatch → String → StatTree → StatTree
add_mismatch none name = child name (λ n. n)
add_mismatch (some mm) name = child name (mismatch_fields mm)

unfoldable pub add_each_mismatch : List Mismatch → StatTree → StatTree
add_each_mismatch [] n = n
add_each_mismatch (mm ∷ mms) n = add_each_mismatch mms (add_mismatch (some mm) "Mismatch" n)

-- addMismatches
unfoldable pub add_mismatches : List Mismatch → String → StatTree → StatTree
add_mismatches mms name = child name (add_each_mismatch mms)

unfoldable pub verification_fields : Verification → String → StatTree → StatTree
verification_fields vf cmd n0 =
    let n1 = add_mismatches vf.mismatches "Mismatches" n0 in
    let n2 = number vf.total_mismatches "TotalMismatches" cmd n1 in
    let n3 = number vf.total_ignored_mismatches "TotalIgnoredMismatches" cmd n2 in
    number vf.total_verified "TotalVerified" cmd n3

-- addVerification
unfoldable pub add_verification : Option Verification → String → String → StatTree → StatTree
add_verification none name cmd = child name (λ n. n)
add_verification (some vf) name cmd = child name (verification_fields vf cmd)

unfoldable pub remote_fields : RemoteMetadata → String → StatTree → StatTree
remote_fields rm cmd n0 =
    let n1 = add_command_result rm.result "Result" n0 in
    let n2 = add_bool rm.cache_hit "CacheHit" n1 in
    let n3 = number rm.num_input_files "NumInputFiles" cmd n2 in
    let n4 = number rm.num_input_directories "NumInputDirectories" cmd n3 in
    let n5 = number rm.total_input_bytes "TotalInputBytes" cmd n4 in
    let n6 = number rm.num_output_files "NumOutputFiles" cmd n5 in
    let n7 = number rm.num_output_directories "NumOutputDirectories" cmd n6 in
    let n8 = number rm.total_output_bytes "TotalOutputBytes" cmd n7 in
    let n9 = add_event_times rm.event_times "EventTimes" cmd n8 in
    let n10 = number rm.logical_bytes_uploaded "LogicalBytesUploaded" cmd n9 in
    let n11 = number rm.real_bytes_uploaded "RealBytesUploaded" cmd n10 in
    let n12 = number rm.logical_bytes_downloaded "LogicalBytesDownloaded" cmd n11 in
    let n13 = number rm.real_bytes_downloaded "RealBytesDownloaded" cmd n12 in
    add_rerun_metadatas rm.rerun_metadata "RerunMetadata" cmd n13

-- addRemoteMetadata
unfoldable pub add_remote_metadata : Option RemoteMetadata → String → String → StatTree → StatTree
add_remote_metadata none name cmd = child name (λ n. n)
add_remote_metadata (some rm) name cmd = child name (remote_fields rm cmd)

unfoldable pub local_fields : LocalMetadata → String → StatTree → StatTree
local_fields lm cmd n0 =
    let n1 = add_command_result lm.result "Result" n0 in
    let n2 = add_bool lm.executed_locally "ExecutedLocally" n1 in
    let n3 = add_bool lm.valid_cache_hit "ValidCacheHit" n2 in
    let n4 = add_bool lm.updated_cache "UpdatedCache" n3 in
    let n5 = add_verification lm.verification "Verification" cmd n4 in
    let n6 = add_event_times lm.event_times "EventTimes" cmd n5 in
    add_rerun_metadatas lm.rerun_metadata "RerunMetadata" cmd n6

-- addLocalMetadata
unfoldable pub add_local_metadata : Option LocalMetadata → String → String → StatTree → StatTree
add_local_metadata none name cmd = child name (λ n. n)
add_local_metadata (some lm) name cmd = child name (local_fields lm cmd)

unfoldable pub record_fields : LogRecord → String → StatTree → StatTree
record_fields rec cmd n0 =
    let n1 = add_command_result rec.result "Result" n0 in
    let n2 = add_remote_metadata rec.remote_metadata "RemoteMetadata" cmd n1 in
    let n3 = add_local_metadata rec.local_metadata "LocalMetadata" cmd n2 in
    add_status (some rec.completion_status) "CompletionStatus" n3

-- addLogRecord
unfoldable pub add_log_record : Option LogRecord → String → String → StatTree → StatTree
add_log_record none name cmd = child name (λ n. n)
add_log_record (some rec) name cmd = child name (record_fields rec cmd)
