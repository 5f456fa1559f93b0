-- ===== src/Server/Run/Timeout.antt =====
-- A remote run that times out.
use reclient.Prelude.{
  ◌≡◌, ◌↔◌, inl, inr, ◌∙◌, refl, ap, sym, Bool, true, false, not, ◌&&◌, ◌||◌, String, Option, none,
  some, [], ◌∷◌, ◌++◌, if◌then◌else◌, is_some, Bool-cases, subst, arith,
}
use reclient.Server.Action.{
  Results, RemoteMetadata, Action, Options, World, did, stashed, run_remotely, moved,
  downloaded_outputs, remote_result, executed_or, in_context, remote_output, executed_remotely,
  outputs_removed, restored,
}
use mathlib.Core.Option.{some-injective}
use reclient.Server.Run.Remote.{
  run_remotely-Ran, in_tmp_dir, in_new_context, after_inputs, remote_outcome, Ran, Finished,
  remote_inputs-Finished,
}
use reclient.Server.Run.{
  Running, failed_inputs, populate_command_io, is_ok, after_timeout, times_out, deferred_of,
  deferred, compared, remote_inputs, run_remote, on_action,
}

module _ (R : Results) (o : Options R) (w : World R) where
  remote_result-metadata :
      (a : Action R) (r : R.Result) → is_some (remote_result R o w a r).remote_metadata ≡ true
  unfolding remote_result downloaded_outputs moved
  remote_result-metadata a r = ground arith

  executed_or-metadata :
      (a : Action R) (c : Option R.Result) → is_some (executed_or R o w a c).remote_metadata ≡ true
  unfolding executed_or
  executed_or-metadata a (some r) = remote_result-metadata a r
  executed_or-metadata a none = remote_result-metadata (did R a executed_remotely) w.executed

  in_context-metadata :
      (a : Action R) (e : Option String) → is_some (in_context R o w a e).remote_metadata ≡ true
  unfolding in_context
  in_context-metadata a (some e) = refl
  in_context-metadata a none =
      executed_or-metadata (record a { oe = a.oe ++ remote_output ∷ [] }) w.cached

  abbrev no_tmp_dir : Bool
  no_tmp_dir = o.atomic_downloads && is_some w.tmp_dir

  run_remotely-metadata :
      (a : Action R)
      → is_some (run_remotely R o w a).remote_metadata ≡ is_some a.remote_metadata || not no_tmp_dir
  unfolding run_remotely
  run_remotely-metadata a = ground (arith, in_context-metadata a w.new_context)

  -- The state in which a remote run ends, and whether its log record has remote metadata.
  record Ends (b : Bool) (u : Option (Running R)) : Type 0 where
    state : Running R
    ends : u ≡ some state
    metadata : is_some state.action.remote_metadata ≡ b

  compared-Ends :
      (t : Running R) (r : R.Result)
      → t.action.res ≡ some r
      → Ends (is_some t.action.remote_metadata) (compared R o t (is_ok R t))
  unfolding compared is_ok
  compared-Ends t r h =
      subst (λ ok. Ends (is_some t.action.remote_metadata) (compared R o t ok))
        (ap (λ x. elim x [ none ↦ none | some y ↦ some (R.is_ok y) ]) (sym h))
        (elim (Bool-cases (R.is_ok r && o.compare)) [
          | inl e ↦ record {
            state = on_action R t (λ a. did R (did R a outputs_removed) restored);
            ends = rw e refl;
            metadata = refl;
          }
          | inr e ↦ record { state = t; ends = rw e refl; metadata = refl }
        ])

  -- the runs that leave the log record without remote metadata
  abbrev pub without_metadata : Option (String × Bool) → Bool
  without_metadata inputs = is_some inputs || no_tmp_dir

  stashed-metadata :
      (a : Action R) (b : Bool)
      → (if b then did R a stashed else a).remote_metadata ≡ a.remote_metadata
  stashed-metadata a true = refl
  stashed-metadata a false = refl

  remote_inputs-Ends :
      (s : Running R) (p : Option (String × Bool))
      → Ends (is_some s.action.remote_metadata || not (without_metadata p)) (
          remote_inputs R o w (elim p [
            | none ↦ (false, s)
            | some (e, timed_out) ↦ (true, failed_inputs R s e timed_out)
          ]))
  unfolding remote_inputs
  remote_inputs-Ends s (some (e, timed_out)) = record {
    state = failed_inputs R s e timed_out;
    ends = refl;
    metadata = ground arith;
  }
  remote_inputs-Ends s none =
      let a = if o.compare then did R s.action stashed else s.action in
      let q = run_remotely-Ran R o w a in
      let t = on_action R s (λ b. run_remotely R o w (if o.compare then did R b stashed else b)) in
      let c = compared-Ends t (in_tmp_dir R o w w.tmp_dir) q.res in
      record {
        state = c.state;
        ends = c.ends;
        metadata =
            c.metadata
            ∙ run_remotely-metadata a
            ∙ ap (λ m. is_some m || not no_tmp_dir) (stashed-metadata s.action o.compare);
      }

  -- The error that making the temporary directory fails with is that of the system: neither the
  -- timeout nor a cancellation.
  abbrev pub IsPlain : Option String → Type 0
  IsPlain none = Unit
  IsPlain (some e) = times_out R w (R.local_error e) ≡ false

  -- The inputs fail with an error for which the remote run counts as timed out.
  abbrev pub inputs_time_out : Option (String × Bool) → Bool
  inputs_time_out none = false
  inputs_time_out (some (e, counted)) = times_out R w (R.local_error e)

  plain_dir :
      (atomic : Bool) (dir : Option String)
      → IsPlain dir
      → (atomic && is_some dir) ≡ true
      → times_out R w (elim dir [
        | none ↦ in_new_context R o w w.new_context
        | some e ↦ if atomic then R.local_error e else in_new_context R o w w.new_context
      ])
        ≡ false
  plain_dir atomic none plain h = absurd (ground (arith, h))
  plain_dir true (some e) plain h = plain
  plain_dir false (some e) plain h = absurd (cc h)

  -- A run that times out without remote metadata is one whose inputs time out.
  lost :
      (p : Option (String × Bool))
      → IsPlain w.tmp_dir
      → ((times_out R w (after_inputs R o w p) ≡ true) × (without_metadata p ≡ true))
        ↔ (inputs_time_out p ≡ true)
  lost none plain = (
    λ (t, d). absurd (cc (t, plain_dir o.atomic_downloads w.tmp_dir plain d)),
    λ h. absurd (cc h),
  )
  lost (some (e, counted)) plain = (λ (t, d). t, λ h. (h, refl))

  deferred-none :
      (t : Running R) (b times : Bool)
      → is_some t.action.remote_metadata ≡ not b
      → ((if times then after_timeout R t t.action.remote_metadata else some t) ≡ none)
        ↔ ((times ≡ true) × (b ≡ true))
  unfolding after_timeout
  deferred-none t b times h = ground arith

  -- how a remote run ends, with the result before the deferred function and the metadata
  pub record Run (s : Running R) (p : Option (String × Bool)) (u : Option (Running R))
      : Type 0 where
    pub state : Running R
    pub ends : u ≡ some state
    pub ran : Ran R o w s.action (after_inputs R o w p) state.action
    pub num_actions : state.num_actions ≡ s.num_actions
    pub num_fallbacks : state.num_fallbacks ≡ s.num_fallbacks
    pub metadata :
        is_some state.action.remote_metadata
        ≡ (is_some s.action.remote_metadata || not (without_metadata p))

  remote_inputs-Run :
      (s : Running R) (p : Option (String × Bool))
      → Run s p (
          remote_inputs R o w (elim p [
            | none ↦ (false, s)
            | some (e, timed_out) ↦ (true, failed_inputs R s e timed_out)
          ]))
  remote_inputs-Run s p =
      let f = remote_inputs-Finished R o w s p in
      let e = remote_inputs-Ends s p in
      let same : e.state ≡ f.state = some-injective e.state f.state (sym e.ends ∙ f.ends) in
      record {
        state = f.state;
        ends = f.ends;
        ran = f.ran;
        num_actions = f.num_actions;
        num_fallbacks = f.num_fallbacks;
        metadata = ap (λ (t : Running R). is_some t.action.remote_metadata) (sym same) ∙ e.metadata;
      }

  abbrev before_deferred : Running R → Option (Running R) → Option (Running R)
  before_deferred s none = none
  before_deferred s (some t) = deferred R w t

  run_remote-deferred :
      (s : Running R)
      → (r : Run s w.process_inputs (remote_inputs R o w (populate_command_io R w s))) × (run_remote
            R o w s
          ≡ deferred_of R w r.state (some (remote_outcome R o w)))
  unfolding run_remote deferred populate_command_io
  run_remote-deferred s =
      let r = remote_inputs-Run s w.process_inputs in
      (
        r,
        ap (λ u. elim u [ none ↦ none | some t ↦ deferred R w t ]) r.ends
            ∙ ap (deferred_of R w r.state) r.ran.res,
      )

  -- From a log record without remote metadata, as every action starts with, and where making the
  -- temporary directory does not fail with an error that counts as the timeout, a remote run panics
  -- exactly if processing the inputs fails with the timeout's error, or with that of a cancelled
  -- context when the timeout has ended it.
  pub run_remote-panic_iff :
      (s : Running R)
      → s.action.remote_metadata ≡ none
      → IsPlain w.tmp_dir
      → (run_remote R o w s ≡ none) ↔ (inputs_time_out w.process_inputs ≡ true)
  run_remote-panic_iff s h plain =
      let (r, e) = run_remote-deferred s in
      let metadata : is_some r.state.action.remote_metadata
          ≡ not (without_metadata w.process_inputs) =
        r.metadata ∙ ap (λ m. is_some m || not (without_metadata w.process_inputs)) h in
      let (f, g) =
        deferred-none r.state (without_metadata w.process_inputs)
          (times_out R w (remote_outcome R o w)) metadata in
      let (x, y) = lost w.process_inputs plain in
      (λ panics. x (f (sym e ∙ panics)), λ late. e ∙ g (y late))

  -- What a remote run comes to once its deferred function has run.
  abbrev pub final_outcome : R.Result
  final_outcome =
      if times_out R w (remote_outcome R o w) then R.timeout_result else remote_outcome R o w

  deferred-Finished :
      (s t : Running R) (r : R.Result) (times : Bool)
      → Ran R o w s.action r t.action
      → t.num_actions ≡ s.num_actions
      → t.num_fallbacks ≡ s.num_fallbacks
      → (m : Option (RemoteMetadata R)) → (times && not (is_some m)) ≡ false
      → Finished R o w s
          (if times then R.timeout_result else r)
          (if times then after_timeout R t m else some t)
  unfolding after_timeout
  deferred-Finished s t r false p n f m h = record {
    state = t;
    ends = refl;
    ran = p;
    num_actions = n;
    num_fallbacks = f;
  }
  deferred-Finished s t r true p n f none h = absurd (cc h)
  deferred-Finished s t r true p n f (some rm) h = record {
    state = record t {
      action = record t.action {
        res = some R.timeout_result;
        remote_metadata = some (record rm { result = some R.timeout_result });
      };
    };
    ends = refl;
    ran = record {
      res = refl;
      local_runs = p.local_runs;
      fallback_oe = p.fallback_oe;
      fallback_status = p.fallback_status;
    };
    num_actions = n;
    num_fallbacks = f;
  }

  known :
      (p : Option (String × Bool)) (m b : Bool)
      → IsPlain w.tmp_dir
      → inputs_time_out p ≡ false
      → m ≡ (b || not (without_metadata p))
      → (times_out R w (after_inputs R o w p) && not m) ≡ false
  known p m b plain h e = ground (arith, lost p plain)

  -- A remote run whose inputs do not time out ends with its outcome, also after a timeout later on.
  pub run_remote-Finished :
      (s : Running R)
      → IsPlain w.tmp_dir
      → inputs_time_out w.process_inputs ≡ false
      → Finished R o w s final_outcome (run_remote R o w s)
  run_remote-Finished s plain h =
      let (r, e) = run_remote-deferred s in
      subst (λ u. Finished R o w s final_outcome u) (sym e)
        (deferred-Finished s r.state (remote_outcome R o w) (times_out R w (remote_outcome R o w))
          r.ran r.num_actions r.num_fallbacks r.state.action.remote_metadata
          (known w.process_inputs (is_some r.state.action.remote_metadata)
            (is_some s.action.remote_metadata) plain h r.metadata))
