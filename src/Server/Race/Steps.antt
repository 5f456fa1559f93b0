-- ===== src/Server/Race/Steps.antt =====
-- action.go: the steps of race and of the parts that run beside it.
use reclient.Prelude.{◌≡◌, Bool, true, false, String, Option, none, some, List, ◌∷◌}
use reclient.Prelude.Int.{ℤ}
use reclient.Server.Action.{Results}
use reclient.Server.Race.{
  RaceResult, remote, remote_output, gave_up, looking_up, executing, has_result, downloading,
  waiting, queued, started, first_select, second_select, interrupted, State, start, send_remote,
  send_local, ran_locally, receive_first, receive_second,
}

module _ (R : Results) (is_cache_hit : R.Result → Bool) where
  pub data Step : State R → State R → Type 0 where
    -- NewContext fails.
    no_context :
        (s : State R) (e : String)
        → s.remote_part ≡ looking_up
        → Step s
            (send_remote R (gave_up R (some (R.local_error e))) (record s { local_signal = true }))
    -- a cache miss
    cache_miss :
        (s : State R)
        → s.remote_part ≡ looking_up
        → Step s (record s { remote_part = executing; local_signal = true })
    -- A cache hit starts the timer of the hold-off.
    cache_hit :
        (s : State R) (r : R.Result)
        → s.remote_part ≡ looking_up
        → is_cache_hit r ≡ true
        → Step s (record s { remote_part = has_result r; timer = true })
    -- any other answer
    lookup_failed :
        (s : State R) (r : R.Result)
        → s.remote_part ≡ looking_up
        → is_cache_hit r ≡ false
        → Step s (record s { remote_part = has_result r; local_signal = true })
    executed :
        (s : State R) (r : R.Result)
        → s.remote_part ≡ executing
        → s.cancelled ≡ false
        → Step s (record s { remote_part = has_result r })
    executed_late :
        (s : State R)
        → s.remote_part ≡ executing
        → s.cancelled ≡ true
        → Step s (send_remote R (gave_up R none) s)
    remote_failed :
        (s : State R) (r : R.Result)
        → s.remote_part ≡ has_result r
        → R.is_ok r ≡ false
        → Step s (send_remote R (gave_up R (some r)) s)
    download :
        (s : State R) (r : R.Result)
        → s.remote_part ≡ has_result r
        → R.is_ok r ≡ true
        → Step s (record s { remote_part = downloading r })
    downloaded_late :
        (s : State R) (r : R.Result)
        → s.remote_part ≡ downloading r
        → s.cancelled ≡ true
        → Step s (send_remote R (gave_up R none) s)
    -- The download leaves another result behind.
    download_failed :
        (s : State R) (r failed : R.Result)
        → s.remote_part ≡ downloading r
        → s.cancelled ≡ false
        → R.is_ok failed ≡ false
        → Step s (send_remote R (record (gave_up R (some failed)) { oe = remote_output }) s)
    downloaded :
        (s : State R) (r done : R.Result)
        → s.remote_part ≡ downloading r
        → s.cancelled ≡ false
        → R.is_ok done ≡ true
        → Step s (send_remote R (record { res = some done; oe = remote_output; t = remote }) s)
    hold_off_ends :
        (s : State R) → s.timer ≡ true → Step s (record s { timer = false; local_signal = true })
    local_signalled :
        (s : State R)
        → s.local_part ≡ waiting
        → s.local_signal ≡ true
        → Step s (record s { local_part = queued })
    local_not_needed :
        (s : State R)
        → s.local_part ≡ waiting
        → s.cancelled ≡ true
        → Step s (send_local R (gave_up R none) s)
    -- The lock of the local resources is cancelled, or fails.
    local_unqueued :
        (s : State R)
        → s.local_part ≡ queued
        → s.cancelled ≡ true
        → Step s (send_local R (gave_up R none) s)
    lock_failed :
        (s : State R) (e : String)
        → s.local_part ≡ queued
        → Step s (send_local R (gave_up R (some (R.local_error e))) s)
    local_starts :
        (s : State R) → s.local_part ≡ queued → Step s (record s { local_part = started })
    -- The run is ended by the context, fails without an exit code, or ends.
    local_interrupted :
        (s : State R)
        → s.local_part ≡ started
        → s.ctx_done ≡ true
        → Step s (send_local R (gave_up R none) s)
    local_failed :
        (s : State R) (e : String)
        → s.local_part ≡ started
        → Step s (send_local R (gave_up R (some (R.local_error e))) s)
    local_ends :
        (s : State R) (code : ℤ)
        → s.local_part ≡ started
        → Step s (ran_locally R (R.from_exit_code code) s)
    first_received :
        (s : State R) (w : RaceResult R) (rest : List (RaceResult R))
        → s.main ≡ first_select
        → s.ch ≡ w ∷ rest
        → Step s (receive_first R w rest s)
    second_received :
        (s : State R) (move_err : Option String) (w rr : RaceResult R) (rest : List (RaceResult R))
        → s.main ≡ second_select w
        → s.ch ≡ rr ∷ rest
        → Step s (receive_second R move_err w rr rest s)
    first_interrupted :
        (s : State R) (e : String)
        → s.main ≡ first_select
        → s.ctx_done ≡ true
        → Step s (record s { main = interrupted; res = some (R.local_error e) })
    second_interrupted :
        (s : State R) (e : String) (w : RaceResult R)
        → s.main ≡ second_select w
        → s.ctx_done ≡ true
        → Step s (record s { main = interrupted; res = some (R.local_error e) })
    -- The context of the request ends, and cCtx with it.
    context_ends :
        (s : State R) → s.ctx_done ≡ false → Step s (record s { ctx_done = true; cancelled = true })

  -- the states that a race can get into
  pub data Reach : State R → Type 0 where
    here : Reach (start R)
    next : {s t : State R} → Reach s → Step s t → Reach t
