-- ===== src/Tests/Servers.antt =====
-- The server at concrete inputs.
use reclient.Prelude.{
  ℕ, suc, ◌+◌, ◌≤◌, ◌<◌, ◌≡◌, ◌↔◌, ◌⊎◌, refl, Bool, true, false, not, ◌&&◌, ◌||◌, String, none,
  some, List, [], ◌∷◌, if◌then◌else◌, is_some, ltb, ◌==◌,
}
use reclient.Prelude.Int.{ℤ, pos, eqb_ℤ}
use reclient.Prelude.{str_eq, arith}
use reclient.Prelude.{◌-◌, length, drop, min}
use reclient.Server.Records.{kept_all, kept_all_lem}
use reclient.Server.Requests.{
  Request, Admission, admit, admitted, panicked, admit_started, admit_valid, admit_logged,
  admit_options, remote_reruns, fewer_than_two,
}
use reclient.Prelude.Sort.Order.{count_if}
use reclient.Server.Startup.{
  StartupCall, set_input_processor, set_re_client, set_startup_err, wait_for_started, startup_calls,
  startup_call, set_cleanup, maybe_unblock_startup, first_error, cleanups_of,
}
use reclient.Server.Started.{after, startup_calls_lem}
use reclient.Server.FailEarly.{
  WindowedCount, add, FailBuildErr, too_many_timeouts, Monitor, MonitorEvent, started, counted,
  fell_back, checked, monitor_events, check_fail_build,
}
use reclient.Server.Failing.{IsSound, monitor_events-IsSound, check_fail_build_iff}
use reclient.Server.Action.{Results, Action, Options, World, local_result_of, can_run}
use reclient.Server.Run.{local, remote_local_fallback, Running, run_remote, run_action}
use reclient.Server.Run.Fallback.{outcome, remote_local_fallback_lem}
use reclient.Server.Run.Local.{Ended, local_lem}
use reclient.Server.Run.Timeout.{inputs_time_out, run_remote-panic_iff}
use reclient.Server.Environment.{slice_to_map, add_pairs, split_pair}
use reclient.Prelude.Maps.{string_eq}

abbrev failing_start : List StartupCall
failing_start = set_input_processor 1 ∷ (set_startup_err "no connection" ∷ (set_re_client 2 ∷ []))

startup_calls_lem_example :
    ((after failing_start).start_err ≡ first_error failing_start)
    × (wait_for_started (after failing_start) ≡ (
        if is_some (first_error failing_start)
          || ((after failing_start).input_processor && (after failing_start).re_client)
        then some (first_error failing_start)
        else none))
    × (count_if (λ c. c == 2) (after failing_start).cleanup_fns
          + count_if (λ c. c == 2) (after failing_start).cleaned_up
        ≡ cleanups_of (λ c. c == 2) failing_start)
startup_calls_lem_example = startup_calls_lem failing_start (λ c. c == 2)

abbrev no_count : WindowedCount
no_count = record { cnt = 0; window = 60; due = 0 }

abbrev watching : Monitor
watching = record {
  num_fallbacks = no_count;
  num_actions = no_count;
  num_ip_timeouts = 0;
  fail_early_min_action_count = 1;
  fail_build = false;
  fail_build_err = none;
  active_actions = [];
  cancelled = [];
}

watching-IsSound : IsSound watching
watching-IsSound = record { with_error = refl; causes = tt; actions = refl; fallbacks = refl }

abbrev half : ℕ → ℕ → Bool
half nf na = ltb na (nf + nf + 1)

abbrev fallback_events : List MonitorEvent
fallback_events = started 1 ∷ (counted ∷ (fell_back ∷ (started 2 ∷ (checked ∷ []))))

monitor_events-IsSound_example : IsSound (monitor_events half watching fallback_events)
monitor_events-IsSound_example =
    monitor_events-IsSound half watching fallback_events watching-IsSound

check_fail_build_iff_example :
    ((check_fail_build half watching).fail_build ≡ true)
    ↔ ((false ≡ true) ⊎ ((7 < 0) ⊎ ((1 ≤ 0) × (half 0 0 ≡ true))))
check_fail_build_iff_example = check_fail_build_iff half watching

abbrev failed_monitor : Monitor
failed_monitor = record watching {
  num_ip_timeouts = 8;
  fail_build = true;
  fail_build_err = some (too_many_timeouts 8);
}

-- A library of results.
pub data TestResult : Type 0 where
  exited : ℤ → TestResult
  failed : String → TestResult
  late cancelled : TestResult

abbrev pub exit_code_of : TestResult → ℤ
exit_code_of (exited n) = n
exit_code_of (failed e) = pos 35
exit_code_of late = pos 59
exit_code_of cancelled = pos 35

abbrev pub succeeded : TestResult → Bool
succeeded (exited n) = eqb_ℤ n (pos 0)
succeeded _ = false

abbrev pub exited_non_zero : TestResult → Bool
exited_non_zero (exited n) = not (eqb_ℤ n (pos 0))
exited_non_zero _ = false

abbrev pub test_error : String → TestResult
test_error e = if str_eq e "cancelled" then cancelled else failed e

pub test_error_ok : (e : String) → succeeded (test_error e) ≡ false
test_error_ok e = ground arith

pub test_error_non_zero : (e : String) → exited_non_zero (test_error e) ≡ false
test_error_non_zero e = ground arith

abbrev pub test_results : Results
test_results = record {
  Result = TestResult;
  Status = TestResult;
  status = λ r. r;
  exit_code = exit_code_of;
  is_ok = succeeded;
  is_non_zero_exit = exited_non_zero;
  from_exit_code = exited;
  local_error = test_error;
  timeout_result = late;
  is_reclient_timeout =
      λ r. elim r [ exited n ↦ false | failed e ↦ false | late ↦ true | cancelled ↦ false ];
  is_cancelled =
      λ r. elim r [ exited n ↦ false | failed e ↦ false | late ↦ false | cancelled ↦ true ];
  from_exit_code_ok = λ n. refl;
  from_exit_code_non_zero = λ n. refl;
  local_error_ok = test_error_ok;
  local_error_non_zero = test_error_non_zero;
}

abbrev all_options : Options test_results
all_options = record {
  accept_cached = true;
  do_not_cache = false;
  compare = true;
  atomic_downloads = true;
  download_regex = false;
}

-- Nothing is cached, and the remote execution exits with 1.
abbrev remote_fails : World test_results
remote_fails = record {
  process_inputs = none;
  new_context = none;
  cached = none;
  executed = exited (pos 1);
  flattened_outputs = true;
  download_err = none;
  tmp_dir = none;
  move_outputs = none;
  deps_valid = true;
  deps_file = none;
  update_fails = false;
  local = λ n. (pos 0, none);
  timed_out = false;
  has_input_spec = true;
  environment = "PATH=/bin" ∷ [];
}

abbrev late_inputs : World test_results
late_inputs = record remote_fails { process_inputs = some ("cancelled", false); timed_out = true }

abbrev new_action : Action test_results
new_action = record {
  res = none;
  oe = [];
  fallback_oe = [];
  fallback_exit_code = pos 0;
  fallback_result_status = none;
  exec_context = false;
  download_outputs = true;
  remote_metadata = none;
  local_result = none;
  executed_locally = false;
  valid_cache_hit = false;
  updated_cache = false;
  local_runs = 0;
  effects = [];
}

abbrev new_running : Running test_results
new_running = record {
  action = new_action;
  num_actions = no_count;
  num_fallbacks = no_count;
  num_ip_timeouts = 0;
}

abbrev lost_race : Action test_results → Action test_results × Bool
lost_race a = (a, false)

abbrev message_of : FailBuildErr → String
message_of e = "too many failures"

remote_local_fallback_lem_example :
    (t : Running test_results) × (run_action test_results false all_options remote_fails lost_race
        message_of
        (false, none)
        remote_local_fallback
        new_running
      ≡ (if succeeded (outcome test_results all_options remote_fails)
            || can_run test_results remote_fails
          then some t
          else none))
    × (t.action.res ≡ some (exited (pos 0)))
    × (t.action.local_runs ≡ suc 0)
    × (t.action.fallback_result_status ≡ some (exited (pos 1)))
    × (t.num_fallbacks ≡ add no_count)
    × (t.num_actions ≡ add no_count)
unfolding local_result_of
remote_local_fallback_lem_example =
    remote_local_fallback_lem test_results all_options remote_fails new_running lost_race message_of
      none tt refl

local_lem_example :
    (t : Running test_results) × (r : TestResult) × (run_action test_results false all_options
        remote_fails lost_race message_of
        (false, none)
        local
        new_running
      ≡ some t)
    × (t.action.res ≡ some r)
    × Ended test_results all_options remote_fails new_running t r
    × (t.num_actions ≡ add no_count)
unfolding split_pair
local_lem_example =
    local_lem test_results all_options remote_fails new_running lost_race message_of none refl

run_remote-panic_iff_example :
    (run_remote test_results all_options late_inputs new_running ≡ none)
    ↔ (inputs_time_out test_results all_options late_inputs (some ("cancelled", false)) ≡ true)
run_remote-panic_iff_example =
    run_remote-panic_iff test_results all_options late_inputs new_running refl tt

-- The inputs of this run do time out.
inputs_late : inputs_time_out test_results all_options late_inputs late_inputs.process_inputs ≡ true
inputs_late = refl

failed_monitor-IsSound : IsSound failed_monitor
failed_monitor-IsSound = record { with_error = refl; causes = tt; actions = refl; fallbacks = refl }

abbrev four_records : List ℕ
four_records = 1 ∷ (2 ∷ (3 ∷ (4 ∷ [])))

kept_all_lem_example :
    (kept_all 3 [] four_records ≡ drop (length four_records - 3) four_records)
    × (length (kept_all 3 [] four_records) ≡ min 3 (length four_records))
kept_all_lem_example = kept_all_lem 3 four_records

abbrev compare_request : Request
compare_request = record {
  command = true;
  log_environment = false;
  environment = "PATH" ∷ [];
  validate = none;
  compare_with_local = true;
  num_local_reruns = pos 1;
  num_remote_reruns = pos 0;
  num_retries_if_mismatched = pos 2;
  reclient_timeout = pos 3600;
}

abbrev idle_server : Admission
idle_server = record {
  draining = false;
  startup = after (set_input_processor 1 ∷ (set_re_client 2 ∷ []));
  num_active_actions = 0;
  max_threads = 10000;
}

admits_request :
    (admit idle_server compare_request ≡ admitted (pos 1) (pos 2) (pos 3600))
    × (admit idle_server (record compare_request { log_environment = true }) ≡ panicked)
unfolding admit admit_started wait_for_started startup_calls startup_call set_cleanup
    maybe_unblock_startup admit_valid admit_logged admit_options fewer_than_two remote_reruns
    slice_to_map add_pairs split_pair
admits_request = (refl, refl)
