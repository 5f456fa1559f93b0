-- ===== src/Server/Race/Ends.antt =====
-- A race that has not ended can always make a step, and it makes a bounded number of steps.
use reclient.Prelude.{
  ◌<◌, ◌≡◌, refl, ap, false, subst, Bool, true, ◌||◌, Option, none, some, List, [], ◌∷◌, ◌⊎◌, inl,
  inr, arith, Bool-cases,
}
use reclient.Server.Action.{Results}
use reclient.Server.Race.{
  RaceResult, RemotePart, looking_up, executing, has_result, downloading, remote_sent, LocalPart,
  waiting, queued, started, local_sent, Main, first_select, second_select, finished, interrupted,
  State, start, ResultType, remote, local, canceled, first_as, second_as, conclude, with_result,
  received_both,
}
use reclient.Server.Race.Steps.{
  Step, Reach, cache_miss, executed, executed_late, remote_failed, download, downloaded_late,
  download_failed, downloaded, hold_off_ends, local_signalled, local_starts, local_failed,
  first_received, second_received,
}
use reclient.Server.Race.Sent.{sent_by_remote, sent_by_local, Sent}
use reclient.Server.Race.Settled.{History-at}
use reclient.Server.Race.Verdicts.{reach-IsSound}
use reclient.Server.Race.Signals.{at_part, reach-IsSignalled}
use reclient.Server.Race.Progress.{IsRunning, steps_left, Step-lt}

module _ (R : Results) (hit : R.Result → Bool) where
  -- not stopped by the end of its context
  abbrev pub goes_on : Main R → Bool
  goes_on interrupted = false
  goes_on _ = true

  -- A step in which the context does not end, and race does not stop because it has ended.
  abbrev pub CanStep : State R → Type 0
  CanStep s = (t : State R) × Step R hit s t × (t.ctx_done ≡ s.ctx_done) × (goes_on t.main ≡ true)

  first_as-goes_on :
      (w : RaceResult R) (rest : List (RaceResult R)) (s : State R) (t : ResultType)
      → ((first_as R t w rest s).ctx_done ≡ s.ctx_done)
        × (goes_on (first_as R t w rest s).main ≡ true)
  unfolding first_as
  first_as-goes_on w rest s local = (refl, refl)
  first_as-goes_on w rest s remote = (refl, refl)
  first_as-goes_on w rest s canceled = (refl, refl)

  with_result-goes_on :
      (o : Option R.Result) (x : RaceResult R) (s : State R)
      → ((with_result R o x.oe s).ctx_done ≡ s.ctx_done) × ((with_result R o x.oe s).main ≡ s.main)
  with_result-goes_on none x s = (refl, refl)
  with_result-goes_on (some r) x s = (refl, refl)

  conclude-goes_on :
      (x : RaceResult R) (s : State R) (t : ResultType)
      → ((conclude R t none x s).ctx_done ≡ s.ctx_done) × ((conclude R t none x s).main ≡ s.main)
  unfolding conclude
  conclude-goes_on x s local = (refl, refl)
  conclude-goes_on x s remote = (refl, refl)
  conclude-goes_on x s canceled = with_result-goes_on x.res x s

  second_as-goes_on :
      (w rr : RaceResult R) (rest : List (RaceResult R)) (s : State R) (t : ResultType)
      → ((second_as R t none w rr rest s).ctx_done ≡ s.ctx_done)
        × (goes_on (second_as R t none w rr rest s).main ≡ true)
  unfolding second_as
  second_as-goes_on w rr rest s local =
      let c = conclude-goes_on rr (received_both R w rr rest s) local in (c.0, ap goes_on c.1)
  second_as-goes_on w rr rest s remote =
      let c = conclude-goes_on w (received_both R w rr rest s) w.t in (c.0, ap goes_on c.1)
  second_as-goes_on w rr rest s canceled =
      let c = conclude-goes_on w (received_both R w rr rest s) w.t in (c.0, ap goes_on c.1)

  -- The remote part goes on until it has sent its result.
  remote_goes_on :
      (s : State R) (p : RemotePart R)
      → goes_on s.main ≡ true
      → s.remote_part ≡ p
      → CanStep s ⊎ ((m : RaceResult R) × (p ≡ remote_sent m))
  remote_goes_on s looking_up on h = inl (_, cache_miss s h, refl, on)
  remote_goes_on s executing on h = elim (Bool-cases s.cancelled) [
    | inl late ↦ inl (_, executed_late s h late, refl, on)
    | inr in_time ↦ inl (_, executed s R.timeout_result h in_time, refl, on)
  ]
  remote_goes_on s (has_result r) on h = elim (Bool-cases (R.is_ok r)) [
    | inl fine ↦ inl (_, download s r h fine, refl, on)
    | inr failed ↦ inl (_, remote_failed s r h failed, refl, on)
  ]
  remote_goes_on s (downloading r) on h = elim (Bool-cases s.cancelled) [
    | inl late ↦ inl (_, downloaded_late s r h late, refl, on)
    | inr in_time ↦ elim (Bool-cases (R.is_ok r)) [
      | inl fine ↦ inl (_, downloaded s r r h in_time fine, refl, on)
      | inr failed ↦ inl (_, download_failed s r r h in_time failed, refl, on)
    ]
  ]
  remote_goes_on s (remote_sent m) on h = inr (m, refl)

  -- So does the local part, once it can be signalled.
  local_goes_on :
      (s : State R) (p : LocalPart R)
      → (s.local_signal || s.timer) ≡ true
      → goes_on s.main ≡ true
      → s.local_part ≡ p
      → CanStep s ⊎ ((m : RaceResult R) × (p ≡ local_sent m))
  local_goes_on s waiting lit on h = elim (Bool-cases s.local_signal) [
    | inl given ↦ inl (_, local_signalled s h given, refl, on)
    | inr off ↦ inl (_, hold_off_ends s (ground (arith, lit, off)), refl, on)
  ]
  local_goes_on s queued lit on h = inl (_, local_starts s h, refl, on)
  local_goes_on s started lit on h = inl (_, local_failed s "" h, refl, on)
  local_goes_on s (local_sent m) lit on h = inr (m, refl)

  unsent_first : {m : RaceResult R} {l : Option (RaceResult R)} → Sent R (some m) l [] → ⊥
  unsent_first h = elim h [ ]

  unsent_second : {m n w : RaceResult R} → Sent R (some m) (some n) (w ∷ []) → ⊥
  unsent_second h = elim h [ ]

  main_goes_on :
      (s : State R) (main : Main R) (ch : List (RaceResult R))
      → Reach R hit s
      → s.main ≡ main
      → s.ch ≡ ch
      → IsRunning R main
      → CanStep s
  main_goes_on s first_select (w ∷ rest) r h k running =
      let on = first_as-goes_on w rest s w.t in (_, first_received s w rest h k, on.0, on.1)
  main_goes_on s first_select [] r h k running =
      elim (remote_goes_on s s.remote_part (ap goes_on h) refl) [
        | inl step ↦ step
        | inr (m, e) ↦ absurd (
            unsent_first (
              subst (λ p. Sent R (sent_by_remote R p) (sent_by_local R s.local_part) []) e
                (History-at R (reach-IsSound R hit r) first_select [] h k)))
      ]
  main_goes_on s (second_select w) (rr ∷ rest) r h k running =
      let on = second_as-goes_on w rr rest s rr.t in
      (_, second_received s none w rr rest h k, on.0, on.1)
  main_goes_on s (second_select w) [] r h k running =
      elim (remote_goes_on s s.remote_part (ap goes_on h) refl) [
        | inl step ↦ step
        | inr (m, e) ↦
            elim (local_goes_on s s.local_part
              (at_part R hit s (remote_sent m) e (reach-IsSignalled R hit r)) (ap goes_on h) refl) [
                | inl step ↦ step
                | inr (n, f) ↦ absurd (
                    unsent_second (
                      subst (λ p. Sent R (some m) (sent_by_local R p) (w ∷ [])) f
                        (subst
                          (λ p. Sent R (sent_by_remote R p) (sent_by_local R s.local_part) (w ∷ []))
                          e (History-at R (reach-IsSound R hit r) (second_select w) [] h k))))
              ]
      ]
  main_goes_on s (finished past) ch r h k running = absurd running
  main_goes_on s interrupted ch r h k running = absurd running

-- A race that has not ended can make a step of its own, whatever has happened so far: a step in
-- which its context does not end and after which it has not stopped because of that end. So the
-- parts and race never wait for each other forever. And each step lowers the number of the steps
-- that are left, which is 11 at the start.
pub race_ends :
    (R : Results) (is_cache_hit : R.Result → Bool) (s : State R)
    → Reach R is_cache_hit s
    → IsRunning R s.main
    → CanStep R is_cache_hit s
      × ((t : State R) → Step R is_cache_hit s t → steps_left R t < steps_left R s)
      × (steps_left R (start R) ≡ 11)
race_ends R hit s r running =
    (main_goes_on R hit s s.main s.ch r refl refl running, λ t step. Step-lt R hit step, refl)
