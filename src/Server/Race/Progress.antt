-- ===== src/Server/Race/Progress.antt =====
-- A race always goes on until it has ended, and it ends.
use reclient.Prelude.{
  ℕ, ◌+◌, ◌<◌, ◌≡◌, ap, Bool, true, false, String, Option, none, some, List, inl, inr, arith,
  Bool-cases,
}
use reclient.Server.Action.{Results}
use reclient.Server.Race.{
  RaceResult, RemotePart, looking_up, executing, has_result, downloading, remote_sent, LocalPart,
  waiting, queued, started, local_sent, Main, first_select, second_select, finished, interrupted,
  State, first_as, second_as, conclude, with_result, ran_locally, ResultType, remote, local,
  canceled, received_both,
}
use reclient.Server.Race.Steps.{
  Step, no_context, cache_miss, cache_hit, lookup_failed, executed, executed_late, remote_failed,
  download, downloaded_late, download_failed, downloaded, hold_off_ends, local_signalled,
  local_not_needed, local_unqueued, lock_failed, local_starts, local_interrupted, local_failed,
  local_ends, first_received, second_received, first_interrupted, second_interrupted, context_ends,
}

abbrev bit : Bool → ℕ
bit true = 1
bit false = 0

abbrev not_bit : Bool → ℕ
not_bit true = 0
not_bit false = 1

module _ (R : Results) where
  abbrev remote_weight : RemotePart R → ℕ
  remote_weight looking_up = 5
  remote_weight executing = 3
  remote_weight (has_result r) = 2
  remote_weight (downloading r) = 1
  remote_weight (remote_sent m) = 0

  abbrev local_weight : LocalPart R → ℕ
  local_weight waiting = 3
  local_weight queued = 2
  local_weight started = 1
  local_weight (local_sent m) = 0

  abbrev main_weight : Main R → ℕ
  main_weight first_select = 2
  main_weight (second_select w) = 1
  main_weight (finished h) = 0
  main_weight interrupted = 0

  -- how many steps a race can still make, at most
  abbrev pub steps_left : State R → ℕ
  steps_left s =
      remote_weight s.remote_part
      + local_weight s.local_part
      + main_weight s.main
      + bit s.timer
      + not_bit s.ctx_done

  abbrev pub IsRunning : Main R → Type 0
  IsRunning first_select = Unit
  IsRunning (second_select w) = Unit
  IsRunning (finished h) = ⊥
  IsRunning interrupted = ⊥

  first_as-steps :
      (w : RaceResult R) (rest : List (RaceResult R)) (s : State R) (t : ResultType)
      → s.main ≡ first_select
      → steps_left (first_as R t w rest s) < steps_left s
  unfolding first_as
  first_as-steps w rest s local h = omega (arith, ap main_weight h)
  first_as-steps w rest s remote h = omega (arith, ap main_weight h)
  first_as-steps w rest s canceled h = omega (arith, ap main_weight h)

  with_result-steps :
      (o : Option R.Result) (x w rr : RaceResult R) (rest : List (RaceResult R)) (s : State R)
      → s.main ≡ second_select w
      → steps_left (with_result R o x.oe (received_both R w rr rest s)) < steps_left s
  with_result-steps none x w rr rest s h = omega (arith, ap main_weight h)
  with_result-steps (some r) x w rr rest s h = omega (arith, ap main_weight h)

  conclude-steps :
      (move_err : Option String) (x w rr : RaceResult R) (rest : List (RaceResult R)) (s : State R)
      (t : ResultType)
      → s.main ≡ second_select w
      → steps_left (conclude R t move_err x (received_both R w rr rest s)) < steps_left s
  unfolding conclude
  conclude-steps move_err x w rr rest s local h = omega (arith, ap main_weight h)
  conclude-steps none x w rr rest s remote h = omega (arith, ap main_weight h)
  conclude-steps (some e) x w rr rest s remote h = omega (arith, ap main_weight h)
  conclude-steps move_err x w rr rest s canceled h = with_result-steps x.res x w rr rest s h

  second_as-steps :
      (move_err : Option String) (w rr : RaceResult R) (rest : List (RaceResult R)) (s : State R)
      (t : ResultType)
      → s.main ≡ second_select w
      → steps_left (second_as R t move_err w rr rest s) < steps_left s
  unfolding second_as
  second_as-steps move_err w rr rest s local h = conclude-steps move_err rr w rr rest s local h
  second_as-steps move_err w rr rest s remote h = conclude-steps move_err w w rr rest s w.t h
  second_as-steps move_err w rr rest s canceled h = conclude-steps move_err w w rr rest s w.t h

  ran_locally-steps :
      (r : R.Result) (s : State R)
      → s.local_part ≡ started
      → steps_left (ran_locally R r s) < steps_left s
  unfolding ran_locally
  ran_locally-steps r s h = omega (arith, ap local_weight h)

module _ (R : Results) (hit : R.Result → Bool) where
  pub Step-lt : {s t : State R} → Step R hit s t → steps_left R t < steps_left R s
  Step-lt (no_context s e h) = omega (arith, ap (remote_weight R) h)
  Step-lt (cache_miss s h) = omega (arith, ap (remote_weight R) h)
  Step-lt (cache_hit s r h k) = elim (Bool-cases s.timer) [
    | inl on ↦ omega (arith, ap (remote_weight R) h, ap bit on)
    | inr off ↦ omega (arith, ap (remote_weight R) h, ap bit off)
  ]
  Step-lt (lookup_failed s r h k) = omega (arith, ap (remote_weight R) h)
  Step-lt (executed s r h k) = omega (arith, ap (remote_weight R) h)
  Step-lt (executed_late s h k) = omega (arith, ap (remote_weight R) h)
  Step-lt (remote_failed s r h k) = omega (arith, ap (remote_weight R) h)
  Step-lt (download s r h k) = omega (arith, ap (remote_weight R) h)
  Step-lt (downloaded_late s r h k) = omega (arith, ap (remote_weight R) h)
  Step-lt (download_failed s r failed h k l) = omega (arith, ap (remote_weight R) h)
  Step-lt (downloaded s r done h k l) = omega (arith, ap (remote_weight R) h)
  Step-lt (hold_off_ends s h) = omega (arith, ap bit h)
  Step-lt (local_signalled s h k) = omega (arith, ap (local_weight R) h)
  Step-lt (local_not_needed s h k) = omega (arith, ap (local_weight R) h)
  Step-lt (local_unqueued s h k) = omega (arith, ap (local_weight R) h)
  Step-lt (lock_failed s e h) = omega (arith, ap (local_weight R) h)
  Step-lt (local_starts s h) = omega (arith, ap (local_weight R) h)
  Step-lt (local_interrupted s h k) = omega (arith, ap (local_weight R) h)
  Step-lt (local_failed s e h) = omega (arith, ap (local_weight R) h)
  Step-lt (local_ends s code h) = ran_locally-steps R (R.from_exit_code code) s h
  Step-lt (first_received s w rest h k) = first_as-steps R w rest s w.t h
  Step-lt (second_received s move_err w rr rest h k) = second_as-steps R move_err w rr rest s rr.t h
  Step-lt (first_interrupted s e h k) = omega (arith, ap (main_weight R) h)
  Step-lt (second_interrupted s e w h k) = omega (arith, ap (main_weight R) h)
  Step-lt (context_ends s h) = omega (arith, ap not_bit h)
