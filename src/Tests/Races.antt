-- ===== src/Tests/Races.antt =====
-- A race in which the local run cannot be started and the remote execution succeeds after that: the
-- action gets the error of the local run.
use reclient.Prelude.{◌<◌, ◌≡◌, refl, Bool, true, false, none, some, [], ◌∷◌}
use reclient.Prelude.Int.{pos}
use reclient.Server.Race.{
  RaceResult, remote, remote_output, gave_up, executing, remote_sent, started, local_sent,
  second_select, finished, State, start, first_as, second_as, conclude, fall_back_count,
}
use reclient.Server.Race.Steps.{
  Step, Reach, cache_miss, executed, download, downloaded, local_signalled, local_starts,
  local_failed, first_received, second_received, here, next,
}
use reclient.Server.Race.Sent.{Sent, Verdict}
use reclient.Server.Race.Verdicts.{race-Verdict}
use reclient.Server.Race.Progress.{steps_left}
use reclient.Server.Race.Ends.{CanStep, race_ends}
use reclient.Tests.Servers.{TestResult, exited, failed, test_results}

abbrev no_hit : TestResult → Bool
no_hit r = false

abbrev local_error : RaceResult test_results
local_error = gave_up test_results (some (failed "no shell"))

abbrev remote_success : RaceResult test_results
remote_success = record { res = some (exited (pos 0)); oe = remote_output; t = remote }

abbrev running : State test_results
running = record (start test_results) {
  remote_part = executing;
  local_signal = true;
  local_part = started;
}

running-Reach : Reach test_results no_hit running
running-Reach =
    next (next (next here (cache_miss _ refl)) (local_signalled _ refl refl)) (local_starts _ refl)

abbrev lost : State test_results
lost = record running {
  local_part = local_sent local_error;
  remote_part = remote_sent remote_success;
  main = second_select local_error;
  ch = remote_success ∷ [];
}

lost-Reach : Reach test_results no_hit lost
unfolding first_as
lost-Reach =
    next
      (next
        (next
          (next (next running-Reach (local_failed _ "no shell" refl))
            (first_received _ local_error [] refl refl))
          (executed _ (exited (pos 0)) refl refl))
        (download _ (exited (pos 0)) refl refl))
      (downloaded _ (exited (pos 0)) (exited (pos 0)) refl refl refl)

abbrev ended : State test_results
ended = record lost {
  main = finished (local_error ∷ remote_success ∷ []);
  ch = [];
  res = some (failed "no shell");
}

ended-Reach : Reach test_results no_hit ended
unfolding second_as conclude fall_back_count
ended-Reach = next lost-Reach (second_received _ none local_error remote_success [] refl refl)

race-Verdict_example :
    Sent test_results (some remote_success) (some local_error) (local_error ∷ remote_success ∷ [])
    × Verdict test_results
        (local_error ∷ remote_success ∷ [])
        ended.res
        ended.oe
        ended.moved
        ended.fallbacks
race-Verdict_example = race-Verdict test_results no_hit ended _ ended-Reach refl

race_ends_example :
    CanStep test_results no_hit lost
    × ((t : State test_results)
        → Step test_results no_hit lost t
        → steps_left test_results t < steps_left test_results lost)
    × (steps_left test_results (start test_results) ≡ 11)
race_ends_example = race_ends test_results no_hit lost lost-Reach tt
