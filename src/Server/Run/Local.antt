-- ===== src/Server/Run/Local.antt =====
-- The local strategy: LERC, and the local run that it falls back to.
use reclient.Prelude.{
  ℕ, suc, ◌+◌, ◌-◌, ◌≤◌, ◌≡◌, ◌↔◌, ◌⊎◌, inl, inr, ◌∙◌, refl, ap, Bool, true, false, ◌||◌, String,
  Option, none, some, arith,
}
use reclient.Prelude.Int.{ℤ, pos, eqb_ℤ}
use reclient.Server.FailEarly.{add, FailBuildErr}
use reclient.Server.Action.{
  Results, virtual_inputs_downloaded, in_outs_cleared, Action, Options, World, did, local_result_of,
  after_local, run_local, can_run, run_local-some,
}
use reclient.Server.Run.{
  local, Running, lerc_fallback, fell_back, fall_back, run_strategy, on_action, counted, run_action,
}
use reclient.Server.Run.Lerc.{run_lerc-Looked}

module _ (R : Results) (o : Options R) (w : World R) where
  abbrev final : R.Result → Bool
  final r = R.is_ok r || R.is_non_zero_exit (R.status r)

  -- How a LERC action ends: without a fallback, or with one.
  abbrev pub Ended : Running R → Running R → R.Result → Type 0
  Ended s t r =
      ((t.num_fallbacks ≡ s.num_fallbacks)
        × (t.action.local_runs ≤ s.action.local_runs + 1)
        × (R.is_ok r || R.is_non_zero_exit (R.status r) ≡ true))
      ⊎ ((t.num_fallbacks ≡ add s.num_fallbacks)
          × (t.action.local_runs ≤ s.action.local_runs + 2)
          × (r ≡ local_result_of R (w.local (t.action.local_runs - 1))))

  record LercEnds (s : Running R) (u : Option (Running R)) : Type 0 where
    state : Running R
    ends : u ≡ some state
    result : R.Result
    res : state.action.res ≡ some result
    ended : Ended s state result
    num_actions : state.num_actions ≡ s.num_actions

  runs_bound : (k n : ℕ) {r q : R.Result} → (k ≡ n) ⊎ ((k ≡ suc n) × (r ≡ q)) → k ≤ n + 1
  runs_bound k n (inl h) = omega (arith, h)
  runs_bound k n (inr (h, g)) = omega (arith, h)

  suc_sub : (n : ℕ) → n ≡ suc n - 1
  suc_sub n = omega arith

  lerc_fallback-Ends :
      (s t : Running R) (r : R.Result) (b : Bool)
      → can_run R w ≡ true
      → final r ≡ b
      → t.action.res ≡ some r
      → t.action.local_runs ≤ s.action.local_runs + 1
      → t.num_fallbacks ≡ s.num_fallbacks
      → t.num_actions ≡ s.num_actions
      → LercEnds s (lerc_fallback R w t (some r))
  unfolding lerc_fallback fall_back
  lerc_fallback-Ends s t r true can e h k f n = record {
    state = t;
    ends = ground arith;
    result = r;
    res = h;
    ended = inl (f, k, e);
    num_actions = n;
  }
  lerc_fallback-Ends s t r false can e h k f n = record {
    state = record t { action = after_local R w t.action; num_fallbacks = add t.num_fallbacks };
    ends =
        let falls : lerc_fallback R w t (some r) ≡ fell_back R t (run_local R w t.action) =
          ground arith in
        falls ∙ ap (fell_back R t) (run_local-some R w t.action can);
    result = local_result_of R (w.local t.action.local_runs);
    res = refl;
    ended = inr (
      ap add f,
      omega (arith, k),
      ap (λ j. local_result_of R (w.local j)) (suc_sub t.action.local_runs),
    );
    num_actions = n;
  }

  lerc-Ends :
      (s : Running R) (race : Action R → Action R × Bool)
      → can_run R w ≡ true
      → LercEnds s (run_strategy R o w race local s)
  unfolding run_strategy
  lerc-Ends s race can =
      let l = run_lerc-Looked R o w can (on_action R s (λ a. did R a virtual_inputs_downloaded)) in
      let t = l.state in
      let e =
        lerc_fallback-Ends s t l.result (final l.result) can refl l.res
          (runs_bound t.action.local_runs s.action.local_runs l.runs) l.num_fallbacks
          l.num_actions in
      record {
        state = e.state;
        ends =
            ap (λ u. elim u [ none ↦ none | some x ↦ lerc_fallback R w x x.action.res ]) l.ends
            ∙ ap (lerc_fallback R w t) l.res
            ∙ e.ends;
        result = e.result;
        res = e.res;
        ended = e.ended;
        num_actions = e.num_actions;
      }

  -- An action of the local strategy, where the build goes on, remote execution is not disabled and
  -- local runs do not panic on an entry of the environment without an equals sign, ends with a
  -- result, whatever fails on the way. Either no fallback is counted, it ran locally
  -- once at most, and its result is ok or a non-zero exit; or one is, it ran locally twice at most,
  -- and its result is that of the last local run. The action is counted.
  pub local_lem :
      (s : Running R) (race : Action R → Action R × Bool) (show : FailBuildErr → String)
      (e : Option FailBuildErr)
      → can_run R w ≡ true
      → (t : Running R) × (r : R.Result) × (run_action R false o w race show (false, e) local s
          ≡ some t)
        × (t.action.res ≡ some r)
        × Ended s t r
        × (t.num_actions ≡ add s.num_actions)
  unfolding run_action
  local_lem s race show e can =
      let l = lerc-Ends s race can in
      (
        counted R (on_action R l.state (λ a. did R a in_outs_cleared)),
        l.result,
        ap
            (λ u. elim u [
              | none ↦ none
              | some t ↦ some (counted R (on_action R t (λ a. did R a in_outs_cleared)))
            ])
            l.ends,
        l.res,
        l.ended,
        ap add l.num_actions,
      )

-- The result of a local run is ok exactly if the exit code is 0 and there is no error, and a
-- non-zero exit exactly if the exit code is not 0.
pub local_result_of_iff :
    (R : Results) (code : ℤ) (err : Option String)
    → ((R.is_ok (local_result_of R (code, err)) ≡ true)
        ↔ ((eqb_ℤ code (pos 0) ≡ true) × (err ≡ none)))
      × ((R.is_non_zero_exit (R.status (local_result_of R (code, err))) ≡ true)
          ↔ (eqb_ℤ code (pos 0) ≡ false))
unfolding local_result_of
local_result_of_iff R code none =
    ground (arith, R.from_exit_code_ok code, R.from_exit_code_non_zero code)
local_result_of_iff R code (some e) = ground (
  arith,
  R.from_exit_code_ok code,
  R.from_exit_code_non_zero code,
  R.local_error_ok e,
  R.local_error_non_zero e,
)
