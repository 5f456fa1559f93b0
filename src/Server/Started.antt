-- ===== src/Server/Started.antt =====
-- What the calls of the start-up come to, in any order.
use reclient.Prelude.{
  ℕ, ◌+◌, ◌≡◌, ◌∙◌, refl, ap, Bool, true, false, ◌&&◌, ◌||◌, String, Option, none, some, List, [],
  ◌∷◌, ◌++◌, is_some, if◌then◌else◌, arith,
}
use reclient.Prelude.Sort.Order.{count_if, count_if-append}
use reclient.Server.Startup.{
  Startup, not_started, maybe_unblock_startup, StartupCall, set_input_processor, set_re_client,
  set_startup_err, set_cleanup, set_err, startup_call, startup_calls, wait_for_started, first_error,
  cleanups_of, ready, or_first,
}

-- What a sequence of calls makes of a state.
record Follows (s : Startup) (xs : List StartupCall) (t : Startup) : Type 0 where
  unblocked : t.started ≡ ready t
  first : t.start_err ≡ or_first s.start_err (first_error xs)
  kept :
      (q : ℕ → Bool)
      → count_if q t.cleanup_fns + count_if q t.cleaned_up
        ≡ count_if q s.cleanup_fns + count_if q s.cleaned_up + cleanups_of q xs

maybe_unblock-ready :
    (s : Startup)
    → (s.started ≡ true → ready s ≡ true)
    → (maybe_unblock_startup s).started ≡ ready s
unfolding maybe_unblock_startup
maybe_unblock-ready s h = ground arith

-- What a call that only unblocks leaves.
record Same (s t : Startup) : Type 0 where
  input_processor : t.input_processor ≡ s.input_processor
  re_client : t.re_client ≡ s.re_client
  start_err : t.start_err ≡ s.start_err
  cleanup_fns : t.cleanup_fns ≡ s.cleanup_fns
  cleaned_up : t.cleaned_up ≡ s.cleaned_up

unblocked-Same :
    (b c : Bool) (s : Startup)
    → Same s (if b then s else if c then record s { started = true } else s)
unblocked-Same true c s = record {
  input_processor = refl;
  re_client = refl;
  start_err = refl;
  cleanup_fns = refl;
  cleaned_up = refl;
}
unblocked-Same false true s = record {
  input_processor = refl;
  re_client = refl;
  start_err = refl;
  cleanup_fns = refl;
  cleaned_up = refl;
}
unblocked-Same false false s = record {
  input_processor = refl;
  re_client = refl;
  start_err = refl;
  cleanup_fns = refl;
  cleaned_up = refl;
}

maybe_unblock-Same : (s : Startup) → Same s (maybe_unblock_startup s)
unfolding maybe_unblock_startup
maybe_unblock-Same s = unblocked-Same s.started (ready s) s

-- Unblocking after one of the fields was set.
maybe_unblock-Follows :
    (s t : Startup) (xs : List StartupCall)
    → (t.started ≡ true → ready t ≡ true)
    → t.start_err ≡ or_first s.start_err (first_error xs)
    → ((q : ℕ → Bool)
        → count_if q t.cleanup_fns + count_if q t.cleaned_up
          ≡ count_if q s.cleanup_fns + count_if q s.cleaned_up + cleanups_of q xs)
    → Follows s xs (maybe_unblock_startup t)
maybe_unblock-Follows s t xs h e k =
    let m = maybe_unblock-Same t in
    record {
      unblocked =
          grind (arith, maybe_unblock-ready t h, m.input_processor, m.re_client, m.start_err);
      first = m.start_err ∙ e;
      kept = λ q. grind (arith, m.cleanup_fns, m.cleaned_up, k q);
    }

set_cleanup-Follows :
    (s t : Startup) (cleanup : ℕ) (o : Option String) (xs : List StartupCall)
    → s.start_err ≡ o
    → s.started ≡ ready s
    → first_error xs ≡ none
    → ((q : ℕ → Bool) → cleanups_of q xs ≡ count_if q (cleanup ∷ []))
    → t.start_err ≡ s.start_err
    → (t.started ≡ true → ready t ≡ true)
    → t.cleanup_fns ≡ s.cleanup_fns
    → t.cleaned_up ≡ s.cleaned_up
    → Follows s xs (set_cleanup s t cleanup o)
unfolding set_cleanup
set_cleanup-Follows s t cleanup none xs e w n c te ts tf tc =
    maybe_unblock-Follows s (record t { cleanup_fns = t.cleanup_fns ++ cleanup ∷ [] }) xs ts
      (grind (arith, te, e, n))
      (λ q. grind (arith, tf, tc, c q, count_if-append q t.cleanup_fns (cleanup ∷ [])))
set_cleanup-Follows s t cleanup (some err) xs e w n c te ts tf tc = record {
  unblocked = w;
  first = grind (arith, e);
  kept = λ q. grind (arith, c q, count_if-append q s.cleaned_up (cleanup ∷ []));
}

set_err-Follows :
    (s : Startup) (err : String) (o : Option String)
    → s.start_err ≡ o
    → s.started ≡ ready s
    → Follows s (set_startup_err err ∷ []) (set_err s err o)
unfolding set_err
set_err-Follows s err none e w =
    maybe_unblock-Follows s (record s { start_err = some err }) (set_startup_err err ∷ [])
      (λ h. refl) (grind (arith, e)) (λ q. omega arith)
set_err-Follows s err (some first) e w = record {
  unblocked = w;
  first = grind (arith, e);
  kept = λ q. omega arith;
}

startup_call-Follows :
    (s : Startup) (x : StartupCall) → s.started ≡ ready s → Follows s (x ∷ []) (startup_call s x)
unfolding startup_call
startup_call-Follows s (set_input_processor c) w =
    set_cleanup-Follows s (record s { input_processor = true }) c s.start_err
      (set_input_processor c ∷ []) refl w refl (λ q. omega arith) refl (λ h. ground arith) refl refl
startup_call-Follows s (set_re_client c) w =
    set_cleanup-Follows s (record s { re_client = true }) c s.start_err (set_re_client c ∷ []) refl
      w refl (λ q. omega arith) refl (λ h. ground arith) refl refl
startup_call-Follows s (set_startup_err e) w = set_err-Follows s e s.start_err refl w

first_error_cons :
    (x : StartupCall) (xs : List StartupCall) (o : Option String)
    → or_first (or_first o (first_error (x ∷ []))) (first_error xs)
      ≡ or_first o (first_error (x ∷ xs))
first_error_cons (set_startup_err e) xs none = refl
first_error_cons (set_input_processor c) xs none = refl
first_error_cons (set_re_client c) xs none = refl
first_error_cons x xs (some e) = refl

cleanups_of_cons :
    (q : ℕ → Bool) (x : StartupCall) (xs : List StartupCall)
    → cleanups_of q (x ∷ xs) ≡ cleanups_of q (x ∷ []) + cleanups_of q xs
cleanups_of_cons q (set_startup_err e) xs = omega arith
cleanups_of_cons q (set_input_processor c) xs = omega arith
cleanups_of_cons q (set_re_client c) xs = omega arith

or_first-none : (o : Option String) → o ≡ or_first o none
or_first-none none = refl
or_first-none (some e) = refl

startup_calls-Follows :
    (s : Startup) (xs : List StartupCall) → s.started ≡ ready s → Follows s xs (startup_calls s xs)
unfolding startup_calls
startup_calls-Follows s [] w = record {
  unblocked = w;
  first = or_first-none s.start_err;
  kept = λ q. omega arith;
}
startup_calls-Follows s (x ∷ xs) w =
    let f = startup_call-Follows s x w in
    let r = startup_calls-Follows (startup_call s x) xs f.unblocked in
    record {
      unblocked = r.unblocked;
      first =
          r.first
          ∙ ap (λ o. or_first o (first_error xs)) f.first
          ∙ first_error_cons x xs s.start_err;
      kept = λ q. omega (arith, r.kept q, f.kept q, cleanups_of_cons q x xs);
    }

abbrev pub after : List StartupCall → Startup
after xs = startup_calls not_started xs

-- After any sequence of calls since Init: the error of the start-up is the first one reported;
-- whoever waits for the start-up waits on exactly as long as there is no error and the input
-- processor and the remote client are not both set, and is then given that error; and every
-- cleanup function passed is either kept for the shutdown or was called at once, each as often as
-- it was passed.
pub startup_calls_lem :
    (xs : List StartupCall) (q : ℕ → Bool)
    → ((after xs).start_err ≡ first_error xs)
      × (wait_for_started (after xs) ≡ (
          if is_some (first_error xs) || ((after xs).input_processor && (after xs).re_client)
          then some (first_error xs)
          else none))
      × (count_if q (after xs).cleanup_fns + count_if q (after xs).cleaned_up ≡ cleanups_of q xs)
unfolding wait_for_started
startup_calls_lem xs q =
    let f = startup_calls-Follows not_started xs refl in
    (f.first, grind (arith, f.unblocked, f.first), omega (arith, f.kept q))
