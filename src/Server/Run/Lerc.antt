-- ===== src/Server/Run/Lerc.antt =====
-- Local execution with the remote cache: runLERC.
use reclient.Prelude.{
  ℕ, suc, ◌≡◌, ◌⊎◌, inl, inr, ◌∙◌, refl, ap, Bool, true, false, String, Option, none, some,
  if◌then◌else◌, subst, arith,
}
use reclient.Server.Action.{
  Results, Action, Options, World, local_result_of, after_local, can_run, run_local-some,
  create_exec_context, get_cached_result, cached_result, cache_local, update_cache,
}
use reclient.Server.Run.{
  Running, failed_inputs, populate_command_io, cached_run, run_and_cache, lerc_cached, lerc_lookup,
  lerc_inputs, run_lerc, with_res, on_action, is_cached, without_downloads,
}

module _ (R : Results) (o : Options R) (w : World R) (can : can_run R w ≡ true) where
  cache_local-same :
      (a : Action R) (r : R.Result)
      → ((cache_local R o w a r).res ≡ a.res) × ((cache_local R o w a r).local_runs ≡ a.local_runs)
  unfolding cache_local update_cache
  cache_local-same a r = (ground arith, ground arith)

  -- What LERC comes to: a result, after one local run at most.
  pub record Looked (s : Running R) (u : Option (Running R)) : Type 0 where
    pub state : Running R
    pub ends : u ≡ some state
    pub result : R.Result
    pub res : state.action.res ≡ some result
    pub runs :
        (state.action.local_runs ≡ s.action.local_runs)
        ⊎ ((state.action.local_runs ≡ suc s.action.local_runs)
            × (result ≡ local_result_of R (w.local s.action.local_runs)))
    pub num_fallbacks : state.num_fallbacks ≡ s.num_fallbacks
    pub num_actions : state.num_actions ≡ s.num_actions

  run_and_cache-Looked : (s : Running R) → Looked s (run_and_cache R o w s)
  unfolding run_and_cache
  run_and_cache-Looked s =
      let r = local_result_of R (w.local s.action.local_runs) in
      let a = after_local R w s.action in
      let c = cache_local-same a r in
      record {
        state = record s { action = cache_local R o w a r };
        ends = ap (cached_run R o w s) (run_local-some R w s.action can);
        result = r;
        res = c.0;
        runs = inr (c.1, refl);
        num_fallbacks = refl;
        num_actions = refl;
      }

  record Before (s t : Running R) : Type 0 where
    local_runs : t.action.local_runs ≡ s.action.local_runs
    num_fallbacks : t.num_fallbacks ≡ s.num_fallbacks
    num_actions : t.num_actions ≡ s.num_actions

  moved_back :
      (k n m : ℕ) (result : R.Result)
      → n ≡ m
      → ((k ≡ n) ⊎ ((k ≡ suc n) × (result ≡ local_result_of R (w.local n))))
      → (k ≡ m) ⊎ ((k ≡ suc m) × (result ≡ local_result_of R (w.local m)))
  moved_back k n m result e h =
      subst (λ j. (k ≡ j) ⊎ ((k ≡ suc j) × (result ≡ local_result_of R (w.local j)))) e h

  Looked-Before : (s t : Running R) (u : Option (Running R)) → Before s t → Looked t u → Looked s u
  Looked-Before s t u b l = record {
    state = l.state;
    ends = l.ends;
    result = l.result;
    res = l.res;
    runs =
        moved_back l.state.action.local_runs t.action.local_runs s.action.local_runs l.result
          b.local_runs l.runs;
    num_fallbacks = l.num_fallbacks ∙ b.num_fallbacks;
    num_actions = l.num_actions ∙ b.num_actions;
  }

  at_once :
      (s t : Running R) (r : R.Result) → Before s t → t.action.res ≡ some r → Looked s (some t)
  at_once s t r b h = record {
    state = t;
    ends = refl;
    result = r;
    res = h;
    runs = inl b.local_runs;
    num_fallbacks = b.num_fallbacks;
    num_actions = b.num_actions;
  }

  get_cached_result-runs : (a : Action R) → (get_cached_result R w a).local_runs ≡ a.local_runs
  unfolding get_cached_result cached_result
  get_cached_result-runs a = ground arith

  either_Looked :
      (s : Running R) (b : Bool) (u v : Option (Running R))
      → Looked s u
      → Looked s v
      → Looked s (if b then u else v)
  either_Looked s true u v h g = h
  either_Looked s false u v h g = g

  found_or_run :
      (s : Running R) (res : Option R.Result)
      → s.action.res ≡ res
      → Looked s (if is_cached R res then some s else run_and_cache R o w s)
  found_or_run s none h = run_and_cache-Looked s
  found_or_run s (some r) h =
      either_Looked s (R.is_ok r) (some s) (run_and_cache R o w s)
        (at_once s s r (record { local_runs = refl; num_fallbacks = refl; num_actions = refl }) h)
        (run_and_cache-Looked s)

  lerc_found-Looked :
      (s : Running R) → Looked s (lerc_cached R o w (on_action R s (get_cached_result R w)))
  unfolding lerc_cached
  lerc_found-Looked s =
      let t = on_action R s (get_cached_result R w) in
      Looked-Before s t (lerc_cached R o w t)
        (record {
          local_runs = get_cached_result-runs s.action;
          num_fallbacks = refl;
          num_actions = refl;
        })
        (found_or_run t t.action.res refl)

  lerc_lookup-Looked :
      (s : Running R) (p : Option (String × Bool))
      → Looked s (
          lerc_lookup R o w (elim p [
            | none ↦ (false, s)
            | some (e, timed_out) ↦ (true, failed_inputs R s e timed_out)
          ]))
  unfolding lerc_lookup
  lerc_lookup-Looked s none =
      either_Looked s o.accept_cached (lerc_cached R o w (on_action R s (get_cached_result R w)))
        (run_and_cache R o w s) (lerc_found-Looked s) (run_and_cache-Looked s)
  lerc_lookup-Looked s (some (e, timed_out)) =
      at_once s (failed_inputs R s e timed_out) (R.local_error e)
        (record { local_runs = refl; num_fallbacks = refl; num_actions = refl }) refl

  lerc_inputs-Looked :
      (s : Running R) (c : Option String × Action R)
      → c.1.local_runs ≡ s.action.local_runs
      → Looked s (lerc_inputs R o w s c)
  unfolding lerc_inputs populate_command_io
  lerc_inputs-Looked s (some e, a) h =
      at_once s (record s { action = with_res R (R.local_error e) a }) (R.local_error e)
        (record { local_runs = h; num_fallbacks = refl; num_actions = refl }) refl
  lerc_inputs-Looked s (none, a) h =
      let t = record s { action = a } in
      Looked-Before s t (lerc_lookup R o w (populate_command_io R w t))
        (record { local_runs = h; num_fallbacks = refl; num_actions = refl })
        (lerc_lookup-Looked t w.process_inputs)

  create_exec_context-runs :
      (a : Action R)
      → (create_exec_context R w (without_downloads R o a)).1.local_runs ≡ a.local_runs
  unfolding create_exec_context
  create_exec_context-runs a = ground arith

  pub run_lerc-Looked : (s : Running R) → Looked s (run_lerc R o w s)
  unfolding run_lerc
  run_lerc-Looked s =
      lerc_inputs-Looked s (create_exec_context R w (without_downloads R o s.action))
        (create_exec_context-runs s.action)
