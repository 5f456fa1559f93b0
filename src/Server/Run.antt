-- ===== src/Server/Run.antt =====
-- server.go: runAction and the strategies. The race of a remote and a local run (action.go, race) is
-- a parameter: it is any function of the action.
pub mod Remote
pub mod Fallback
pub mod Lerc
pub mod Local
pub mod Timeout
use reclient.Prelude.{
  ℕ, suc, ◌+◌, ◌≡◌, Bool, true, false, not, ◌&&◌, ◌||◌, String, Option, none, some, List, [], ◌∷◌,
  ◌++◌, if◌then◌else◌,
}
use reclient.Prelude.Int.{ℤ, pos}
use reclient.Server.FailEarly.{WindowedCount, add, FailBuildErr}
use reclient.Server.Action.{
  Results, Output, message, local_output, Effect, virtual_inputs_downloaded, stashed,
  outputs_removed, restored, in_outs_cleared, RemoteMetadata, Action, Options, World, did,
  run_local, run_remotely, create_exec_context, get_cached_result, cache_local,
}

pub data Strategy : Type 0 where
  unspecified local remote remote_local_fallback racing : Strategy

module _ (R : Results) where
  -- The counters that actions change, with the action.
  pub record Running : Type 0 where
    pub action : Action R
    pub num_actions : WindowedCount
    pub num_fallbacks : WindowedCount
    pub num_ip_timeouts : ℕ

  abbrev pub on_action : Running → (Action R → Action R) → Running
  on_action s f = record s { action = f s.action }

  abbrev pub with_res : R.Result → Action R → Action R
  with_res r a = record a { res = some r }

  abbrev pub failed_inputs : Running → String → Bool → Running
  failed_inputs s e timed_out = record s {
    action = with_res (R.local_error e) s.action;
    num_ip_timeouts = if timed_out then s.num_ip_timeouts + 1 else s.num_ip_timeouts;
  }

  -- populateCommandIO, with whether it failed; an `ErrIPTimeout` counts
  unfoldable pub populate_command_io : World R → Running → Bool × Running
  populate_command_io w s = elim w.process_inputs [
    | none ↦ (false, s)
    | some (e, timed_out) ↦ (true, failed_inputs s e timed_out)
  ]

  -- `a.res.IsOk()`; a nil result panics
  unfoldable pub is_ok : Running → Option Bool
  is_ok s = elim s.action.res [ none ↦ none | some r ↦ some (R.is_ok r) ]

  abbrev pub cached_run : Options R → World R → Running → Option (Action R) → Option Running
  cached_run o w s none = none
  cached_run o w s (some a) = elim a.res [
    | none ↦ none
    | some r ↦ some (record s { action = cache_local R o w a r })
  ]

  -- runLocal and cacheLocal
  unfoldable pub run_and_cache : Options R → World R → Running → Option Running
  run_and_cache o w s = cached_run o w s (run_local R w s.action)

  abbrev pub is_cached : Option R.Result → Bool
  is_cached none = false
  is_cached (some r) = R.is_ok r

  unfoldable pub lerc_cached : Options R → World R → Running → Option Running
  lerc_cached o w s =
      let rest = run_and_cache o w s in if is_cached s.action.res then some s else rest

  -- runLERC after the inputs are known
  unfoldable pub lerc_lookup : Options R → World R → Bool × Running → Option Running
  lerc_lookup o w (true, s) = some s
  lerc_lookup o w (false, s) =
      let miss = run_and_cache o w s in
      let hit = lerc_cached o w (on_action s (get_cached_result R w)) in
      if o.accept_cached then hit else miss

  unfoldable pub lerc_inputs :
      Options R → World R → Running → Option String × Action R → Option Running
  lerc_inputs o w s (some e, a) = some (record s { action = with_res (R.local_error e) a })
  lerc_inputs o w s (none, a) = lerc_lookup o w (populate_command_io w (record s { action = a }))

  -- `DownloadOutputs = false`, where there is a regular expression for what to download
  abbrev pub without_downloads : Options R → Action R → Action R
  without_downloads o a = if o.download_regex then record a { download_outputs = false } else a

  -- runLERC
  unfoldable pub run_lerc : Options R → World R → Running → Option Running
  run_lerc o w s = lerc_inputs o w s (create_exec_context R w (without_downloads o s.action))

  -- The deferred function of runRemote: after a timeout the log record's remote metadata, where
  -- there is none, is a nil pointer.
  unfoldable pub after_timeout : Running → Option (RemoteMetadata R) → Option Running
  after_timeout s none = none
  after_timeout s (some rm) = some (record s {
    action = record s.action {
      res = some R.timeout_result;
      remote_metadata = some (record rm { result = some R.timeout_result });
    };
  })

  -- The test of the deferred function, on the error of the result.
  abbrev pub times_out : World R → R.Result → Bool
  times_out w r = R.is_reclient_timeout r || (R.is_cancelled r && w.timed_out)

  abbrev pub deferred_of : World R → Running → Option R.Result → Option Running
  deferred_of w s none = none
  deferred_of w s (some r) =
      if times_out w r then after_timeout s s.action.remote_metadata else some s

  unfoldable pub deferred : World R → Running → Option Running
  deferred w s = deferred_of w s s.action.res

  -- compare mode after a remote result that is ok
  unfoldable pub compared : Options R → Running → Option Bool → Option Running
  compared o s none = none
  compared o s (some ok) =
      if ok && o.compare
      then some (on_action s (λ a. did R (did R a outputs_removed) restored))
      else some s

  unfoldable pub remote_inputs : Options R → World R → Bool × Running → Option Running
  remote_inputs o w (true, s) = some s
  remote_inputs o w (false, s) =
      let t = on_action s (λ a. run_remotely R o w (if o.compare then did R a stashed else a)) in
      compared o t (is_ok t)

  -- runRemote
  unfoldable pub run_remote : Options R → World R → Running → Option Running
  run_remote o w s = elim (remote_inputs o w (populate_command_io w s)) [
    | none ↦ none
    | some t ↦ deferred w t
  ]

  abbrev pub fell_back : Running → Option (Action R) → Option Running
  fell_back s none = none
  fell_back s (some a) = some (record s { action = a; num_fallbacks = add s.num_fallbacks })

  -- the local run of the two fallbacks
  unfoldable pub fall_back : World R → Running → Option Running
  fall_back w s = fell_back s (run_local R w s.action)

  -- LOCAL, after runLERC
  unfoldable pub lerc_fallback : World R → Running → Option R.Result → Option Running
  lerc_fallback w s none = none
  lerc_fallback w s (some r) =
      if not (R.is_ok r) && not (R.is_non_zero_exit (R.status r)) then fall_back w s else some s

  abbrev pub put_aside : R.Result → Action R → Action R
  put_aside r a = record (did R a virtual_inputs_downloaded) {
    fallback_oe = a.oe;
    fallback_exit_code = R.exit_code r;
    fallback_result_status = some (R.status r);
    oe = [];
  }

  -- REMOTE_LOCAL_FALLBACK, after runRemote
  unfoldable pub remote_fallback : World R → Running → Option R.Result → Option Running
  remote_fallback w s none = none
  remote_fallback w s (some r) =
      if R.is_ok r then some s else fall_back w (on_action s (put_aside r))

  abbrev pub or_no_result : Action R → Option R.Result → Action R
  or_no_result a none = with_res (R.local_error "racing did not produce a result") a
  or_no_result a (some r) = a

  -- runRacing, after the inputs are known; the race says whether it counts a fallback
  unfoldable pub raced : (Action R → Action R × Bool) → Bool × Running → Running
  raced race (true, s) = s
  raced race (false, s) =
      let (a, counts) = race s.action in
      record s {
        action = or_no_result a a.res;
        num_fallbacks = if counts then add s.num_fallbacks else s.num_fallbacks;
      }

  -- the switch on the strategy
  unfoldable pub run_strategy :
      Options R → World R → (Action R → Action R × Bool) → Strategy → Running → Option Running
  run_strategy o w race local s =
      elim (run_lerc o w (on_action s (λ a. did R a virtual_inputs_downloaded))) [
        | none ↦ none
        | some t ↦ lerc_fallback w t t.action.res
      ]
  run_strategy o w race remote s = run_remote o w s
  run_strategy o w race remote_local_fallback s = elim (run_remote o w s) [
    | none ↦ none
    | some t ↦ remote_fallback w t t.action.res
  ]
  run_strategy o w race racing s = some (raced race (populate_command_io w s))
  run_strategy o w race unspecified s =
      some (on_action s (with_res (R.local_error "invalid execution strategy")))

  abbrev pub counted : Running → Running
  counted s = record s { num_actions = add s.num_actions }

  abbrev pub after_only_local : Running → Option (Action R) → Option Running
  after_only_local s none = none
  after_only_local s (some a) = some (counted (record s { action = a }))

  -- A build that fails: the error is the result, if there is one.
  unfoldable pub refused : Running → Option FailBuildErr → (FailBuildErr → String) → Running
  refused s none show = s
  refused s (some e) show =
      on_action s (λ a. record a { res = some (R.local_error (show e)); oe = a.oe ++ message ∷ [] })

  -- runAction, with what shouldFailBuild answers
  unfoldable pub run_action :
      Bool
      → Options R
      → World R
      → (Action R → Action R × Bool)
      → (FailBuildErr → String)
      → Bool × Option FailBuildErr
      → Strategy
      → Running
      → Option Running
  run_action remote_disabled o w race show (true, e) strategy s = some (refused s e show)
  run_action remote_disabled o w race show (false, e) strategy s =
      let outcome = run_strategy o w race strategy s in
      if remote_disabled then after_only_local s (run_local R w s.action) else elim outcome [
        | none ↦ none
        | some t ↦ some (counted (on_action t (λ a. did R a in_outs_cleared)))
      ]
