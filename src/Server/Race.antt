-- ===== src/Server/Race.antt =====
-- action.go: race. The remote part (runRemoteRace), the local part (runLocalRace), the timer of the
-- hold-off and race itself run at once, so the race is a relation between states: a step is what one
-- of them does between two points at which they can see each other, and the steps come in any order.
-- Preserved modification times, event times and the digests in the record are left out.
pub mod Steps
pub mod Sent
pub mod Parts
pub mod Settled
pub mod Verdicts
pub mod Progress
pub mod Signals
pub mod Ends
use reclient.Prelude.{
  ℕ, ◌+◌, ◌≡◌, ◌≢◌, Bool, true, false, String, Option, none, some, List, [], ◌∷◌, ◌++◌,
}
use reclient.Prelude.Int.{ℤ}
use reclient.Server.Action.{Results}

pub data ResultType : Type 0 where
  remote local canceled : ResultType

pub data RaceOutput : Type 0 where
  no_output remote_output local_output : RaceOutput

-- numFallbacks.Add, when the local result is used after the first result was `canceled`
unfoldable pub fall_back_count : ResultType → ResultType → ℕ
fall_back_count canceled local = 1
fall_back_count _ _ = 0

module _ (R : Results) where
  pub record RaceResult : Type 0 where
    pub res : Option R.Result
    pub oe : RaceOutput
    pub t : ResultType

  abbrev pub gave_up : Option R.Result → RaceResult
  gave_up r = record { res = r; oe = no_output; t = canceled }

  -- Where runRemoteRace is: before NewContext and GetCachedResult, in ExecuteRemotely, with a
  -- result, downloading the outputs of one, or at its end with what it has sent.
  pub data RemotePart : Type 0 where
    looking_up executing : RemotePart
    has_result downloading : R.Result → RemotePart
    remote_sent : RaceResult → RemotePart

  -- Where the local goroutine is: in its select, in the queue for local resources, in the run, or
  -- at its end with what it has sent.
  pub data LocalPart : Type 0 where
    waiting queued started : LocalPart
    local_sent : RaceResult → LocalPart

  -- Where race is: before its first select, before its second one with the first result, at its
  -- end with the results that it has received, or interrupted because the context is done.
  pub data Main : Type 0 where
    first_select : Main
    second_select : RaceResult → Main
    finished : List RaceResult → Main
    interrupted : Main

  pub record State : Type 0 where
    pub remote_part : RemotePart
    pub local_part : LocalPart
    pub main : Main
    -- ch, the oldest first
    pub ch : List RaceResult
    -- whether lCh is closed, and whether the timer that closes it runs
    pub local_signal : Bool
    pub timer : Bool
    -- whether cCtx and ctx are done
    pub cancelled : Bool
    pub ctx_done : Bool
    -- of the action: a.res, a.oe, the results in its record, and whether its outputs were moved
    pub res : Option R.Result
    pub oe : RaceOutput
    pub local_result : Option R.Result
    pub remote_result : Option R.Result
    pub moved : Bool
    pub fallbacks : ℕ

  abbrev pub start : State
  start = record {
    remote_part = looking_up;
    local_part = waiting;
    main = first_select;
    ch = [];
    local_signal = false;
    timer = false;
    cancelled = false;
    ctx_done = false;
    res = none;
    oe = no_output;
    local_result = none;
    remote_result = none;
    moved = false;
    fallbacks = 0;
  }

  abbrev pub send_remote : RaceResult → State → State
  send_remote m s = record s { remote_part = remote_sent m; ch = s.ch ++ m ∷ [] }

  abbrev pub send_local : RaceResult → State → State
  send_local m s = record s { local_part = local_sent m; ch = s.ch ++ m ∷ [] }

  -- The end of runLocalRace once the command has run.
  unfoldable pub ran_locally : R.Result → State → State
  ran_locally r s =
      send_local (record { res = some r; oe = local_output; t = local })
        (record s { res = some r; local_result = some r })

  -- The first select: a result that is not `canceled` cancels the other part.
  unfoldable pub first_as : ResultType → RaceResult → List RaceResult → State → State
  first_as local w rest s = record s {
    main = finished (w ∷ []);
    ch = rest;
    cancelled = true;
    oe = w.oe;
  }
  first_as remote w rest s = record s { main = second_select w; ch = rest; cancelled = true }
  first_as canceled w rest s = record s { main = second_select w; ch = rest }

  abbrev pub receive_first : RaceResult → List RaceResult → State → State
  receive_first w rest s = first_as w.t w rest s

  -- the remote result, with the error of moveOutputsFromTemp
  abbrev pub with_moved : Option String → RaceResult → State → State
  with_moved (some e) w s = record s { res = some (R.local_error e) }
  with_moved none w s = record s { moved = true; remote_result = w.res; res = w.res; oe = w.oe }

  abbrev pub with_result : Option R.Result → RaceOutput → State → State
  with_result none oe s = record s { oe = oe }
  with_result (some r) oe s = record s { res = some r; oe = oe }

  -- race from `from := time.Now()` on
  unfoldable pub conclude : ResultType → Option String → RaceResult → State → State
  conclude local move_err w s = record s { oe = w.oe }
  conclude remote move_err w s = with_moved move_err w s
  conclude canceled move_err w s = with_result w.res w.oe s

  abbrev pub received_both : RaceResult → RaceResult → List RaceResult → State → State
  received_both w rr rest s = record s {
    main = finished (w ∷ rr ∷ []);
    ch = rest;
    fallbacks = s.fallbacks + fall_back_count w.t rr.t;
  }

  -- The second select: a local result wins, any other leaves the first one the winner.
  unfoldable pub second_as :
      ResultType → Option String → RaceResult → RaceResult → List RaceResult → State → State
  second_as local move_err w rr rest s = conclude local move_err rr (received_both w rr rest s)
  second_as remote move_err w rr rest s = conclude w.t move_err w (received_both w rr rest s)
  second_as canceled move_err w rr rest s = conclude w.t move_err w (received_both w rr rest s)

  abbrev pub receive_second :
      Option String → RaceResult → RaceResult → List RaceResult → State → State
  receive_second move_err w rr rest s = second_as rr.t move_err w rr rest s
