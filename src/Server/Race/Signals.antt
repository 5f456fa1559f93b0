-- ===== src/Server/Race/Signals.antt =====
-- In a race the local part is always signalled in the end.
use reclient.Prelude.{◌≡◌, refl, subst, Bool, true, false, ◌||◌, String, Option, none, some, List}
use reclient.Server.Action.{Results}
use reclient.Server.Race.{
  RaceResult, RemotePart, looking_up, executing, has_result, downloading, remote_sent, State,
  first_as, second_as, conclude, with_result, ran_locally, ResultType, remote, local, canceled,
  received_both,
}
use reclient.Server.Race.Steps.{
  Step, Reach, no_context, cache_miss, cache_hit, lookup_failed, executed, executed_late,
  remote_failed, download, downloaded_late, download_failed, downloaded, hold_off_ends,
  local_signalled, local_not_needed, local_unqueued, lock_failed, local_starts, local_interrupted,
  local_failed, local_ends, first_received, second_received, first_interrupted, second_interrupted,
  context_ends, here, next,
}

module _ (R : Results) where
  -- Once the remote part has its answer, the signal to the local part is given or the timer runs.
  abbrev pub Signalled : RemotePart R → Bool → Bool → Type 0
  Signalled looking_up signal timer = Unit
  Signalled _ signal timer = (signal || timer) ≡ true

  abbrev pub IsSignalled : State R → Type 0
  IsSignalled s = Signalled s.remote_part s.local_signal s.timer

  given : (p : RemotePart R) (timer : Bool) → Signalled p true timer
  given looking_up timer = tt
  given executing timer = refl
  given (has_result r) timer = refl
  given (downloading r) timer = refl
  given (remote_sent m) timer = refl

  timed : (signal : Bool) → (signal || true) ≡ true
  timed true = refl
  timed false = refl

  first_as-IsSignalled :
      (w : RaceResult R) (rest : List (RaceResult R)) (s : State R) (t : ResultType)
      → IsSignalled s
      → IsSignalled (first_as R t w rest s)
  unfolding first_as
  first_as-IsSignalled w rest s local i = i
  first_as-IsSignalled w rest s remote i = i
  first_as-IsSignalled w rest s canceled i = i

  with_result-IsSignalled :
      (o : Option R.Result) (x : RaceResult R) (s : State R)
      → IsSignalled s
      → IsSignalled (with_result R o x.oe s)
  with_result-IsSignalled none x s i = i
  with_result-IsSignalled (some r) x s i = i

  conclude-IsSignalled :
      (move_err : Option String) (x : RaceResult R) (s : State R) (t : ResultType)
      → IsSignalled s
      → IsSignalled (conclude R t move_err x s)
  unfolding conclude
  conclude-IsSignalled move_err x s local i = i
  conclude-IsSignalled none x s remote i = i
  conclude-IsSignalled (some e) x s remote i = i
  conclude-IsSignalled move_err x s canceled i = with_result-IsSignalled x.res x s i

  second_as-IsSignalled :
      (move_err : Option String) (w rr : RaceResult R) (rest : List (RaceResult R)) (s : State R)
      (t : ResultType)
      → IsSignalled s
      → IsSignalled (second_as R t move_err w rr rest s)
  unfolding second_as
  second_as-IsSignalled move_err w rr rest s local i =
      conclude-IsSignalled move_err rr (received_both R w rr rest s) local i
  second_as-IsSignalled move_err w rr rest s remote i =
      conclude-IsSignalled move_err w (received_both R w rr rest s) w.t i
  second_as-IsSignalled move_err w rr rest s canceled i =
      conclude-IsSignalled move_err w (received_both R w rr rest s) w.t i

module _ (R : Results) (hit : R.Result → Bool) where
  pub at_part :
      (s : State R) (p : RemotePart R)
      → s.remote_part ≡ p
      → IsSignalled R s
      → Signalled R p s.local_signal s.timer
  at_part s p h i = subst (λ q. Signalled R q s.local_signal s.timer) h i

  Step-IsSignalled : {s t : State R} → Step R hit s t → IsSignalled R s → IsSignalled R t
  unfolding ran_locally
  Step-IsSignalled (no_context s e h) i = refl
  Step-IsSignalled (cache_miss s h) i = refl
  Step-IsSignalled (cache_hit s r h k) i = timed R s.local_signal
  Step-IsSignalled (lookup_failed s r h k) i = refl
  Step-IsSignalled (executed s r h k) i = at_part s executing h i
  Step-IsSignalled (executed_late s h k) i = at_part s executing h i
  Step-IsSignalled (remote_failed s r h k) i = at_part s (has_result r) h i
  Step-IsSignalled (download s r h k) i = at_part s (has_result r) h i
  Step-IsSignalled (downloaded_late s r h k) i = at_part s (downloading r) h i
  Step-IsSignalled (download_failed s r failed h k l) i = at_part s (downloading r) h i
  Step-IsSignalled (downloaded s r done h k l) i = at_part s (downloading r) h i
  Step-IsSignalled (hold_off_ends s h) i = given R s.remote_part false
  Step-IsSignalled (first_received s w rest h k) i = first_as-IsSignalled R w rest s w.t i
  Step-IsSignalled (second_received s move_err w rr rest h k) i =
      second_as-IsSignalled R move_err w rr rest s rr.t i
  Step-IsSignalled (local_signalled s h k) i = i
  Step-IsSignalled (local_not_needed s h k) i = i
  Step-IsSignalled (local_unqueued s h k) i = i
  Step-IsSignalled (lock_failed s e h) i = i
  Step-IsSignalled (local_starts s h) i = i
  Step-IsSignalled (local_interrupted s h k) i = i
  Step-IsSignalled (local_failed s e h) i = i
  Step-IsSignalled (local_ends s code h) i = i
  Step-IsSignalled (first_interrupted s e h k) i = i
  Step-IsSignalled (second_interrupted s e w h k) i = i
  Step-IsSignalled (context_ends s h) i = i

  pub reach-IsSignalled : {s : State R} → Reach R hit s → IsSignalled R s
  reach-IsSignalled here = tt
  reach-IsSignalled (next r step) = Step-IsSignalled step (reach-IsSignalled r)
