-- ===== src/Server/Run/Fallback.antt =====
-- The remote run of an action, and the local one that it falls back to.
use reclient.Prelude.{
  suc, ◌≡◌, ◌∙◌, refl, ap, Bool, true, false, ◌||◌, String, Option, none, some, if◌then◌else◌,
}
use reclient.Server.FailEarly.{add, FailBuildErr}
use reclient.Server.Action.{
  Results, in_outs_cleared, Action, Options, World, did, local_result_of, after_local, can_run,
  run_local-cases,
}
use reclient.Server.Run.{
  remote_local_fallback, Running, fell_back, fall_back, remote_fallback, run_strategy, on_action,
  put_aside, counted, run_action,
}
use reclient.Server.Run.Remote.{Ran}
use reclient.Server.Run.Timeout.{IsPlain, inputs_time_out, final_outcome, run_remote-Finished}

module _ (R : Results) (o : Options R) (w : World R) where
  abbrev pub outcome : R.Result
  outcome = final_outcome R o w

  -- What the fallback makes of a remote result, by whether it is ok.
  record FellBack (s t : Running R) (r : R.Result) (ok : Bool) : Type 0 where
    res : t.action.res ≡ some (if ok then r else local_result_of R (w.local s.action.local_runs))
    local_runs : t.action.local_runs ≡ (if ok then s.action.local_runs else suc s.action.local_runs)
    status :
        t.action.fallback_result_status
        ≡ (if ok then s.action.fallback_result_status else some (R.status r))
    num_fallbacks : t.num_fallbacks ≡ (if ok then s.num_fallbacks else add s.num_fallbacks)
    num_actions : t.num_actions ≡ s.num_actions

  record Ends (s : Running R) (r : R.Result) (ok : Bool) (u : Option (Running R)) : Type 0 where
    state : Running R
    ends : u ≡ (if ok || can_run R w then some state else none)
    how : FellBack s state r ok

  fell_back-if :
      (s : Running R) (a : Action R) (b : Bool)
      → fell_back R s (if b then some a else none)
        ≡ (if b then some (record s { action = a; num_fallbacks = add s.num_fallbacks }) else none)
  fell_back-if s a true = refl
  fell_back-if s a false = refl

  remote_fallback-Ends :
      (s t : Running R) (r : R.Result) (ok : Bool)
      → R.is_ok r ≡ ok
      → Ran R o w s.action r t.action
      → t.num_actions ≡ s.num_actions
      → t.num_fallbacks ≡ s.num_fallbacks
      → Ends s r ok (remote_fallback R w t (some r))
  unfolding remote_fallback fall_back
  remote_fallback-Ends s t r true e p n f = record {
    state = t;
    ends = rw e refl;
    how = record {
      res = p.res;
      local_runs = p.local_runs;
      status = p.fallback_status;
      num_fallbacks = f;
      num_actions = n;
    };
  }
  remote_fallback-Ends s t r false e p n f = record {
    state = record (on_action R t (put_aside R r)) {
      action = after_local R w (put_aside R r t.action);
      num_fallbacks = add t.num_fallbacks;
    };
    ends =
        rw e refl
        ∙ ap (fell_back R (on_action R t (put_aside R r)))
            (run_local-cases R w (put_aside R r t.action))
        ∙ fell_back-if (on_action R t (put_aside R r)) (after_local R w (put_aside R r t.action))
            (can_run R w);
    how = record {
      res = ap (λ k. some (local_result_of R (w.local k))) p.local_runs;
      local_runs = ap suc p.local_runs;
      status = refl;
      num_fallbacks = ap add f;
      num_actions = n;
    };
  }

  run_strategy-Ends :
      (s : Running R) (race : Action R → Action R × Bool)
      → IsPlain R o w w.tmp_dir
      → inputs_time_out R o w w.process_inputs ≡ false
      → Ends s outcome (R.is_ok outcome) (run_strategy R o w race remote_local_fallback s)
  unfolding run_strategy
  run_strategy-Ends s race plain h =
      let f = run_remote-Finished R o w s plain h in
      let e =
        remote_fallback-Ends s f.state outcome (R.is_ok outcome) refl f.ran f.num_actions
          f.num_fallbacks in
      record {
        state = e.state;
        ends =
            ap (λ u. elim u [ none ↦ none | some t ↦ remote_fallback R w t t.action.res ]) f.ends
            ∙ ap (remote_fallback R w f.state) f.ran.res
            ∙ e.ends;
        how = e.how;
      }

  abbrev ended : Option (Running R) → Option (Running R)
  ended none = none
  ended (some t) = some (counted R (on_action R t (λ a. did R a in_outs_cleared)))

  ended-if :
      (b : Bool) (t : Running R)
      → ended (if b then some t else none)
        ≡ (if b then some (counted R (on_action R t (λ a. did R a in_outs_cleared))) else none)
  ended-if true t = refl
  ended-if false t = refl

  -- An action of the strategy with a local fallback, where the build goes on, remote execution is
  -- not disabled, and neither making the temporary directory nor processing the inputs fails with an
  -- error that counts as the timeout: unless the remote run is not ok and the local one
  -- panics on an entry of the environment without an equals sign, it ends with a result, also when
  -- the remote run times out: that of the remote run if it is ok, and otherwise that of the next
  -- local run, the only one. The fallback is counted, and the status of the remote run kept for the
  -- answer, in the latter case only; the action is counted in both.
  pub remote_local_fallback_lem :
      (s : Running R) (race : Action R → Action R × Bool) (show : FailBuildErr → String)
      (e : Option FailBuildErr)
      → IsPlain R o w w.tmp_dir
      → inputs_time_out R o w w.process_inputs ≡ false
      → (t : Running R) × (run_action R false o w race show (false, e) remote_local_fallback s
          ≡ (if R.is_ok outcome || can_run R w then some t else none))
        × (t.action.res
            ≡ some (
                if R.is_ok outcome
                then outcome
                else local_result_of R (w.local s.action.local_runs)))
        × (t.action.local_runs
            ≡ (if R.is_ok outcome then s.action.local_runs else suc s.action.local_runs))
        × (t.action.fallback_result_status ≡ (
            if R.is_ok outcome then s.action.fallback_result_status else some (R.status outcome)))
        × (t.num_fallbacks ≡ (if R.is_ok outcome then s.num_fallbacks else add s.num_fallbacks))
        × (t.num_actions ≡ add s.num_actions)
  unfolding run_action
  remote_local_fallback_lem s race show e plain h =
      let r = run_strategy-Ends s race plain h in
      (
        counted R (on_action R r.state (λ a. did R a in_outs_cleared)),
        ap
              (λ u. elim u [
                | none ↦ none
                | some t ↦ some (counted R (on_action R t (λ a. did R a in_outs_cleared)))
              ])
              r.ends
            ∙ ended-if (R.is_ok outcome || can_run R w) r.state,
        r.how.res,
        r.how.local_runs,
        r.how.status,
        r.how.num_fallbacks,
        ap add r.how.num_actions,
      )
