-- ===== src/Server/Race/Verdicts.antt =====
-- What a race that has ended leaves in the action, in any order of the steps.
use reclient.Prelude.{◌≡◌, refl, ap, Bool, true, none, some, List, ◌++◌}
use reclient.Server.Action.{Results}
use reclient.Server.Race.{
  RaceResult, remote, remote_output, gave_up, executing, has_result, downloading, queued, started,
  finished, State,
}
use reclient.Server.Race.Steps.{
  Step, Reach, no_context, cache_miss, cache_hit, lookup_failed, executed, executed_late,
  remote_failed, download, downloaded_late, download_failed, downloaded, hold_off_ends,
  local_signalled, local_not_needed, local_unqueued, lock_failed, local_starts, local_interrupted,
  local_failed, local_ends, first_received, second_received, first_interrupted, second_interrupted,
  context_ends, here, next,
}
use reclient.Server.Race.Sent.{sent_by_remote, sent_by_local, Sent, Verdict}
use reclient.Server.Race.Parts.{
  IsSound, start-IsSound, remote_moves, remote_sends, local_moves, local_gives_up, local_succeeds,
}
use reclient.Server.Race.Settled.{History-at, outcome_at, first_arrives, second_arrives}

module _ (R : Results) (hit : R.Result → Bool) where
  Step-IsSound : {s t : State R} → Step R hit s t → IsSound R s → IsSound R t
  Step-IsSound (no_context s e h) i =
      remote_sends R i (gave_up R (some (R.local_error e))) true (ap (sent_by_remote R) h) refl
  Step-IsSound (cache_miss s h) i =
      remote_moves R i executing true s.timer (ap (sent_by_remote R) h) refl
  Step-IsSound (cache_hit s r h k) i =
      remote_moves R i (has_result r) s.local_signal true (ap (sent_by_remote R) h) refl
  Step-IsSound (lookup_failed s r h k) i =
      remote_moves R i (has_result r) true s.timer (ap (sent_by_remote R) h) refl
  Step-IsSound (executed s r h k) i =
      remote_moves R i (has_result r) s.local_signal s.timer (ap (sent_by_remote R) h) refl
  Step-IsSound (executed_late s h k) i =
      remote_sends R i (gave_up R none) s.local_signal (ap (sent_by_remote R) h) refl
  Step-IsSound (remote_failed s r h k) i =
      remote_sends R i (gave_up R (some r)) s.local_signal (ap (sent_by_remote R) h) refl
  Step-IsSound (download s r h k) i =
      remote_moves R i (downloading r) s.local_signal s.timer (ap (sent_by_remote R) h) refl
  Step-IsSound (downloaded_late s r h k) i =
      remote_sends R i (gave_up R none) s.local_signal (ap (sent_by_remote R) h) refl
  Step-IsSound (download_failed s r failed h k l) i =
      remote_sends R i (record (gave_up R (some failed)) { oe = remote_output }) s.local_signal
        (ap (sent_by_remote R) h) refl
  Step-IsSound (downloaded s r done h k l) i =
      remote_sends R i (record { res = some done; oe = remote_output; t = remote }) s.local_signal
        (ap (sent_by_remote R) h) refl
  Step-IsSound (hold_off_ends s h) i = record {
    messages = record {
      history = i.messages.history;
      from_remote = i.messages.from_remote;
      ran = i.messages.ran;
    };
    outcome = i.outcome;
  }
  Step-IsSound (local_signalled s h k) i = local_moves R i queued (ap (sent_by_local R) h) refl
  Step-IsSound (local_not_needed s h k) i = local_gives_up R i none (ap (sent_by_local R) h)
  Step-IsSound (local_unqueued s h k) i = local_gives_up R i none (ap (sent_by_local R) h)
  Step-IsSound (lock_failed s e h) i =
      local_gives_up R i (some (R.local_error e)) (ap (sent_by_local R) h)
  Step-IsSound (local_starts s h) i = local_moves R i started (ap (sent_by_local R) h) refl
  Step-IsSound (local_interrupted s h k) i = local_gives_up R i none (ap (sent_by_local R) h)
  Step-IsSound (local_failed s e h) i =
      local_gives_up R i (some (R.local_error e)) (ap (sent_by_local R) h)
  Step-IsSound (local_ends s code h) i =
      local_succeeds R i (R.from_exit_code code) (ap (sent_by_local R) h)
  Step-IsSound (first_received s w rest h k) i = first_arrives R i w rest w.t h k refl
  Step-IsSound (second_received s move_err w rr rest h k) i =
      second_arrives R i move_err w rr rest rr.t h k refl
  Step-IsSound (first_interrupted s e h k) i = record {
    messages = record { history = tt; from_remote = i.messages.from_remote; ran = i.messages.ran };
    outcome = tt;
  }
  Step-IsSound (second_interrupted s e w h k) i = record {
    messages = record { history = tt; from_remote = i.messages.from_remote; ran = i.messages.ran };
    outcome = tt;
  }
  Step-IsSound (context_ends s h) i = record {
    messages = record {
      history = i.messages.history;
      from_remote = i.messages.from_remote;
      ran = i.messages.ran;
    };
    outcome = i.outcome;
  }

  pub reach-IsSound : {s : State R} → Reach R hit s → IsSound R s
  reach-IsSound here = start-IsSound R
  reach-IsSound (next r step) = Step-IsSound step (reach-IsSound r)

-- Whatever the order of the steps, when race has ended without an interruption, what it has
-- received, followed by what is left in the channel, is what the two parts have sent, each at most
-- once and in the order of sending; and it has left the verdict on this in the action: a local
-- result wins, wherever it stands, and otherwise the first result counts, with its output, which is
-- moved from the temporary directory exactly if it is a remote one and moving succeeds. A fallback
-- is counted exactly when a local result comes after one that is `canceled`.
pub race-Verdict :
    (R : Results) (is_cache_hit : R.Result → Bool) (s : State R) (received : List (RaceResult R))
    → Reach R is_cache_hit s
    → s.main ≡ finished received
    → Sent R (sent_by_remote R s.remote_part) (sent_by_local R s.local_part) (received ++ s.ch)
      × Verdict R received s.res s.oe s.moved s.fallbacks
race-Verdict R hit s received reached h =
    let sound = reach-IsSound R hit reached in
    (History-at R sound (finished received) s.ch h refl, outcome_at R sound (finished received) h)
