-- ===== src/Server/Run/Remote.antt =====
-- The remote run of an action: what it comes to, and what it leaves.
use reclient.Prelude.{
  ◌≡◌, inl, inr, ◌∙◌, refl, ap, sym, Bool, true, false, ◌&&◌, String, Option, none, some, [], ◌∷◌,
  ◌++◌, if◌then◌else◌, Bool-cases, subst, arith,
}
use reclient.Server.Action.{
  Results, executed_remotely, remote_output, outputs_removed, restored, stashed, Action, Options,
  World, did, run_remotely, moved, downloaded_outputs, remote_result, executed_or, in_context,
}
use reclient.Server.Run.{Running, failed_inputs, is_ok, compared, remote_inputs, on_action}

module _ (R : Results) (o : Options R) (w : World R) where
  abbrev pub first_result : Option R.Result → R.Result
  first_result none = w.executed
  first_result (some r) = r

  abbrev pub after_download : R.Result → Option R.Result → Option String → R.Result
  after_download r (some failed) m = failed
  after_download r none none = r
  after_download r none (some e) = if o.atomic_downloads then R.local_error e else r

  abbrev pub after_result : R.Result → R.Result
  after_result r =
      if R.is_ok r && w.flattened_outputs then after_download r w.download_err w.move_outputs else r

  abbrev pub in_new_context : Option String → R.Result
  in_new_context (some e) = R.local_error e
  in_new_context none = after_result (first_result w.cached)

  abbrev pub in_tmp_dir : Option String → R.Result
  in_tmp_dir (some e) = if o.atomic_downloads then R.local_error e else in_new_context w.new_context
  in_tmp_dir none = in_new_context w.new_context

  abbrev pub after_inputs : Option (String × Bool) → R.Result
  after_inputs (some (e, timed_out)) = R.local_error e
  after_inputs none = in_tmp_dir w.tmp_dir

  -- What the remote run of an action comes to, without a timeout: the first error on the way, or
  -- the cached result, or the executed one.
  abbrev pub remote_outcome : R.Result
  remote_outcome = after_inputs w.process_inputs

  -- A remote run with a result that leaves what only local runs change.
  pub record Ran (a : Action R) (r : R.Result) (b : Action R) : Type 0 where
    pub res : b.res ≡ some r
    pub local_runs : b.local_runs ≡ a.local_runs
    pub fallback_oe : b.fallback_oe ≡ a.fallback_oe
    pub fallback_status : b.fallback_result_status ≡ a.fallback_result_status

  remote_result-Ran :
      (a : Action R) (r : R.Result) → Ran a (after_result r) (remote_result R o w a r)
  unfolding remote_result downloaded_outputs moved
  remote_result-Ran a r = record {
    res = ground arith;
    local_runs = ground arith;
    fallback_oe = ground arith;
    fallback_status = ground arith;
  }

  executed_or-Ran :
      (a : Action R) (c : Option R.Result)
      → Ran a (after_result (first_result c)) (executed_or R o w a c)
  unfolding executed_or
  executed_or-Ran a (some r) = remote_result-Ran a r
  executed_or-Ran a none =
      let p = remote_result-Ran (did R a executed_remotely) w.executed in
      record {
        res = p.res;
        local_runs = p.local_runs;
        fallback_oe = p.fallback_oe;
        fallback_status = p.fallback_status;
      }

  in_context-Ran :
      (a : Action R) (e : Option String) → Ran a (in_new_context e) (in_context R o w a e)
  unfolding in_context
  in_context-Ran a (some e) = record {
    res = refl;
    local_runs = refl;
    fallback_oe = refl;
    fallback_status = refl;
  }
  in_context-Ran a none =
      let p = executed_or-Ran (record a { oe = a.oe ++ remote_output ∷ [] }) w.cached in
      record {
        res = p.res;
        local_runs = p.local_runs;
        fallback_oe = p.fallback_oe;
        fallback_status = p.fallback_status;
      }

  in_dir-Ran :
      (a : Action R) (atomic : Bool) (dir : Option String)
      → Ran a
          (elim dir [
            | none ↦ in_new_context w.new_context
            | some e ↦ if atomic then R.local_error e else in_new_context w.new_context
          ])
          (if atomic
            then elim dir [
              | some e ↦ record a { res = some (R.local_error e) }
              | none ↦ in_context R o w a w.new_context
            ]
            else in_context R o w a w.new_context)
  in_dir-Ran a true none = in_context-Ran a w.new_context
  in_dir-Ran a true (some e) = record {
    res = refl;
    local_runs = refl;
    fallback_oe = refl;
    fallback_status = refl;
  }
  in_dir-Ran a false none = in_context-Ran a w.new_context
  in_dir-Ran a false (some e) = in_context-Ran a w.new_context

  pub run_remotely-Ran : (a : Action R) → Ran a (in_tmp_dir w.tmp_dir) (run_remotely R o w a)
  unfolding run_remotely
  run_remotely-Ran a = in_dir-Ran a o.atomic_downloads w.tmp_dir

  -- A remote run of a running action that ends.
  pub record Finished (s : Running R) (r : R.Result) (u : Option (Running R)) : Type 0 where
    pub state : Running R
    pub ends : u ≡ some state
    pub ran : Ran s.action r state.action
    pub num_actions : state.num_actions ≡ s.num_actions
    pub num_fallbacks : state.num_fallbacks ≡ s.num_fallbacks

  is_ok-res : (t : Running R) (r : R.Result) → t.action.res ≡ some r → is_ok R t ≡ some (R.is_ok r)
  unfolding is_ok
  is_ok-res t r h = ap (λ x. elim x [ none ↦ none | some y ↦ some (R.is_ok y) ]) h

  compared_ok-Finished :
      (s t : Running R) (r : R.Result) (ok : Bool)
      → Ran s.action r t.action
      → t.num_actions ≡ s.num_actions
      → t.num_fallbacks ≡ s.num_fallbacks
      → Finished s r (compared R o t (some ok))
  unfolding compared
  compared_ok-Finished s t r ok p n f = elim (Bool-cases (ok && o.compare)) [
    | inl e ↦ record {
      state = on_action R t (λ a. did R (did R a outputs_removed) restored);
      ends = rw e refl;
      ran = record {
        res = p.res;
        local_runs = p.local_runs;
        fallback_oe = p.fallback_oe;
        fallback_status = p.fallback_status;
      };
      num_actions = n;
      num_fallbacks = f;
    }
    | inr e ↦ record { state = t; ends = rw e refl; ran = p; num_actions = n; num_fallbacks = f }
  ]

  stashed-same :
      {X : Type 0} (a : Action R) (f : Action R → X) (b : Bool)
      → f (did R a stashed) ≡ f a
      → f (if b then did R a stashed else a) ≡ f a
  stashed-same a f true h = h
  stashed-same a f false h = refl

  pub remote_inputs-Finished :
      (s : Running R) (p : Option (String × Bool))
      → Finished s (after_inputs p) (
          remote_inputs R o w (elim p [
            | none ↦ (false, s)
            | some (e, timed_out) ↦ (true, failed_inputs R s e timed_out)
          ]))
  unfolding remote_inputs
  remote_inputs-Finished s (some (e, timed_out)) = record {
    state = failed_inputs R s e timed_out;
    ends = refl;
    ran = record { res = refl; local_runs = refl; fallback_oe = refl; fallback_status = refl };
    num_actions = refl;
    num_fallbacks = refl;
  }
  remote_inputs-Finished s none =
      let a = if o.compare then did R s.action stashed else s.action in
      let q = run_remotely-Ran a in
      let t = on_action R s (λ b. run_remotely R o w (if o.compare then did R b stashed else b)) in
      let r = in_tmp_dir w.tmp_dir in
      subst (λ ok. Finished s r (compared R o t ok)) (sym (is_ok-res t r q.res))
        (compared_ok-Finished s t r (R.is_ok r)
          (record {
            res = q.res;
            local_runs = q.local_runs ∙ stashed-same s.action (λ b. b.local_runs) o.compare refl;
            fallback_oe = q.fallback_oe ∙ stashed-same s.action (λ b. b.fallback_oe) o.compare refl;
            fallback_status =
                q.fallback_status
                ∙ stashed-same s.action (λ b. b.fallback_result_status) o.compare refl;
          })
          refl refl)
