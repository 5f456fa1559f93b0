-- ===== src/Server/Failing.antt =====
-- When the build is failed, and what holds from then on.
use reclient.Prelude.{
  ℕ, ◌≤◌, ◌<◌, ◌≡◌, ◌↔◌, ◌⊎◌, refl, sym, Bool, true, false, Option, List, [], ◌∷◌, ◌++◌, ◌==◌,
  is_some, if◌then◌else◌, arith,
}
use reclient.Prelude.Sort.Order.{AllBy}
use reclient.Server.FailEarly.{
  WindowedCount, add, pass, FailBuildErr, Monitor, get_fail_build_err, fails, cancel_all, failed,
  check_fail_build, MonitorEvent, started, ended, counted, fell_back, timed_out, action_passed,
  fallback_passed, checked, monitor_event, monitor_events,
}

-- A counter with a window takes back all that it holds; one without takes nothing back.
abbrev pub IsBalanced : WindowedCount → Type 0
IsBalanced wc = wc.due ≡ (if wc.window == 0 then 0 else wc.cnt)

abbrev pub with_cause : ℕ × Option FailBuildErr → Bool
with_cause p = is_some p.1

-- A failed build has its error, and so have the cancelled actions.
pub record IsSound (s : Monitor) : Type 0 where
  pub with_error : s.fail_build ≡ is_some s.fail_build_err
  pub causes : AllBy with_cause s.cancelled
  pub actions : IsBalanced s.num_actions
  pub fallbacks : IsBalanced s.num_fallbacks

add-IsBalanced : (wc : WindowedCount) → IsBalanced wc → IsBalanced (add wc)
unfolding add
add-IsBalanced wc h = ground arith

pass-IsBalanced : (wc : WindowedCount) → IsBalanced wc → IsBalanced (pass wc)
unfolding pass
pass-IsBalanced wc h = ground arith

AllBy-append :
    (xs ys : List (ℕ × Option FailBuildErr))
    → AllBy with_cause xs
    → AllBy with_cause ys
    → AllBy with_cause (xs ++ ys)
AllBy-append [] ys h g = g
AllBy-append (x ∷ xs) ys h g = (h.0, AllBy-append xs ys h.1 g)

cancel_all-causes :
    (e : Option FailBuildErr) (actions : List ℕ)
    → is_some e ≡ true
    → AllBy with_cause (cancel_all e actions)
unfolding cancel_all
cancel_all-causes e [] h = tt
cancel_all-causes e (a ∷ rest) h = (h, cancel_all-causes e rest h)

module _ (too_many : ℕ → ℕ → Bool) where
  fails-error :
      (nf na nt min_actions : ℕ)
      → fails too_many nf na nt min_actions ≡ true
      → is_some (get_fail_build_err too_many nf na nt) ≡ true
  unfolding fails get_fail_build_err
  fails-error nf na nt min_actions h = ground arith

  failed-IsSound :
      (s : Monitor) (e : Option FailBuildErr) → is_some e ≡ true → IsSound s → IsSound (failed s e)
  unfolding failed
  failed-IsSound s e h w = record {
    with_error = sym h;
    causes =
        AllBy-append s.cancelled (cancel_all e s.active_actions) w.causes
          (cancel_all-causes e s.active_actions h);
    actions = w.actions;
    fallbacks = w.fallbacks;
  }

  either_IsSound :
      (b : Bool) (s t : Monitor) → (b ≡ true → IsSound s) → IsSound t → IsSound (if b then s else t)
  either_IsSound true s t f g = f refl
  either_IsSound false s t f g = g

  check_fail_build-IsSound : (s : Monitor) → IsSound s → IsSound (check_fail_build too_many s)
  unfolding check_fail_build
  check_fail_build-IsSound s w =
      let nf = s.num_fallbacks.cnt in
      let na = s.num_actions.cnt in
      let nt = s.num_ip_timeouts in
      let e = get_fail_build_err too_many nf na nt in
      either_IsSound (fails too_many nf na nt s.fail_early_min_action_count) (failed s e) s
        (λ h. failed-IsSound s e (fails-error nf na nt s.fail_early_min_action_count h) w) w

  monitor_event-IsSound :
      (s : Monitor) (e : MonitorEvent) → IsSound s → IsSound (monitor_event too_many s e)
  unfolding monitor_event
  monitor_event-IsSound s (started a) w = record {
    with_error = w.with_error;
    causes = w.causes;
    actions = w.actions;
    fallbacks = w.fallbacks;
  }
  monitor_event-IsSound s (ended a) w = record {
    with_error = w.with_error;
    causes = w.causes;
    actions = w.actions;
    fallbacks = w.fallbacks;
  }
  monitor_event-IsSound s counted w = record {
    with_error = w.with_error;
    causes = w.causes;
    actions = add-IsBalanced s.num_actions w.actions;
    fallbacks = w.fallbacks;
  }
  monitor_event-IsSound s fell_back w = record {
    with_error = w.with_error;
    causes = w.causes;
    actions = w.actions;
    fallbacks = add-IsBalanced s.num_fallbacks w.fallbacks;
  }
  monitor_event-IsSound s timed_out w = record {
    with_error = w.with_error;
    causes = w.causes;
    actions = w.actions;
    fallbacks = w.fallbacks;
  }
  monitor_event-IsSound s action_passed w = record {
    with_error = w.with_error;
    causes = w.causes;
    actions = pass-IsBalanced s.num_actions w.actions;
    fallbacks = w.fallbacks;
  }
  monitor_event-IsSound s fallback_passed w = record {
    with_error = w.with_error;
    causes = w.causes;
    actions = w.actions;
    fallbacks = pass-IsBalanced s.num_fallbacks w.fallbacks;
  }
  monitor_event-IsSound s checked w = check_fail_build-IsSound s w

  -- Whatever happens from a sound state on: a failed build has its error, every action that was
  -- cancelled was given a cause, and the counters with a window are to take back all they hold.
  pub monitor_events-IsSound :
      (s : Monitor) (es : List MonitorEvent) → IsSound s → IsSound (monitor_events too_many s es)
  unfolding monitor_events
  monitor_events-IsSound s [] w = w
  monitor_events-IsSound s (e ∷ es) w =
      monitor_events-IsSound (monitor_event too_many s e) es (monitor_event-IsSound s e w)

  -- A check leaves the build failed exactly if it had failed before, or there were more than seven
  -- timeouts, or there were as many actions as is asked for and too many of them fell back.
  pub check_fail_build_iff :
      (s : Monitor)
      → ((check_fail_build too_many s).fail_build ≡ true) ↔ (
          (s.fail_build ≡ true)
          ⊎ ((7 < s.num_ip_timeouts)
              ⊎ ((s.fail_early_min_action_count ≤ s.num_actions.cnt)
                  × (too_many s.num_fallbacks.cnt s.num_actions.cnt ≡ true))))
  unfolding check_fail_build fails failed
  check_fail_build_iff s = ground arith
