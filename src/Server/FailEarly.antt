-- ===== src/Server/FailEarly.antt =====
-- server.go: the counters of actions, fallbacks and input processing timeouts, and the check that
-- fails the build. A counter with a window takes each increment back when the window has passed.
-- The comparison of the ratio of fallbacks in floating point is a parameter, `too_many`.
use reclient.Prelude.{
  ℕ, ◌+◌, ◌-◌, Bool, true, false, ◌&&◌, ◌||◌, Option, none, some, List, [], ◌∷◌, ◌++◌, ltb, leb,
  ◌==◌, if◌then◌else◌,
}

-- windowedCount; `due` counts the increments that are to be taken back
pub record WindowedCount : Type 0 where
  pub cnt : ℕ
  pub window : ℕ
  pub due : ℕ

-- Add(1)
unfoldable pub add : WindowedCount → WindowedCount
add wc = record wc { cnt = wc.cnt + 1; due = if wc.window == 0 then wc.due else wc.due + 1 }

-- the function of AfterFunc, where one is due
unfoldable pub pass : WindowedCount → WindowedCount
pass wc = if wc.due == 0 then wc else record wc { cnt = wc.cnt - 1; due = wc.due - 1 }

-- getFailBuildErr
pub data FailBuildErr : Type 0 where
  too_many_timeouts : ℕ → FailBuildErr
  too_many_fallbacks : ℕ → ℕ → FailBuildErr

abbrev pub allowed_ip_timeouts : ℕ
allowed_ip_timeouts = 7

-- The fields that the check is about: the actions by their numbers, the cancelled ones with the cause.
pub record Monitor : Type 0 where
  pub num_fallbacks : WindowedCount
  pub num_actions : WindowedCount
  pub num_ip_timeouts : ℕ
  pub fail_early_min_action_count : ℕ
  pub fail_build : Bool
  pub fail_build_err : Option FailBuildErr
  pub active_actions : List ℕ
  pub cancelled : List (ℕ × Option FailBuildErr)

-- What happens to the server meanwhile.
pub data MonitorEvent : Type 0 where
  started ended : ℕ → MonitorEvent
  counted fell_back timed_out action_passed fallback_passed checked : MonitorEvent

unfoldable pub remove : ℕ → List ℕ → List ℕ
remove a [] = []
remove a (b ∷ bs) = let rest = remove a bs in if a == b then rest else b ∷ rest

unfoldable pub cancel_all : Option FailBuildErr → List ℕ → List (ℕ × Option FailBuildErr)
cancel_all e [] = []
cancel_all e (a ∷ rest) = (a, e) ∷ cancel_all e rest

unfoldable pub failed : Monitor → Option FailBuildErr → Monitor
failed s e = record s {
  fail_build = true;
  fail_build_err = e;
  cancelled = s.cancelled ++ cancel_all e s.active_actions;
}

module _ (too_many : ℕ → ℕ → Bool) where
  unfoldable pub get_fail_build_err : ℕ → ℕ → ℕ → Option FailBuildErr
  get_fail_build_err nf na nt =
      if ltb allowed_ip_timeouts nt
      then some (too_many_timeouts nt)
      else if too_many nf na
      then some (too_many_fallbacks nf na)
      else none

  -- the condition of checkFailBuild, from its early return on
  unfoldable pub fails : ℕ → ℕ → ℕ → ℕ → Bool
  fails nf na nt min_actions =
      if leb nt allowed_ip_timeouts && ltb na min_actions
      then false
      else ltb allowed_ip_timeouts nt || too_many nf na

  -- checkFailBuild
  unfoldable pub check_fail_build : Monitor → Monitor
  check_fail_build s =
      let nf = s.num_fallbacks.cnt in
      let na = s.num_actions.cnt in
      let nt = s.num_ip_timeouts in
      if fails nf na nt s.fail_early_min_action_count
      then failed s (get_fail_build_err nf na nt)
      else s

  unfoldable pub monitor_event : Monitor → MonitorEvent → Monitor
  monitor_event s (started a) = record s { active_actions = s.active_actions ++ a ∷ [] }
  monitor_event s (ended a) = record s { active_actions = remove a s.active_actions }
  monitor_event s counted = record s { num_actions = add s.num_actions }
  monitor_event s fell_back = record s { num_fallbacks = add s.num_fallbacks }
  monitor_event s timed_out = record s { num_ip_timeouts = s.num_ip_timeouts + 1 }
  monitor_event s action_passed = record s { num_actions = pass s.num_actions }
  monitor_event s fallback_passed = record s { num_fallbacks = pass s.num_fallbacks }
  monitor_event s checked = check_fail_build s

  unfoldable pub monitor_events : Monitor → List MonitorEvent → Monitor
  monitor_events s [] = s
  monitor_events s (e ∷ es) = monitor_events (monitor_event s e) es
