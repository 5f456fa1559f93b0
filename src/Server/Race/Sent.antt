-- ===== src/Server/Race/Sent.antt =====
-- What the two parts of a race have sent, what race has received of it, and what follows of the
-- action.
use mathlib.Core.List.{append_assoc}
use reclient.Prelude.{
  ℕ, ◌≡◌, Bool, true, false, String, Option, none, some, List, [], ◌∷◌, ◌++◌, subst, ◌⊎◌,
}
use reclient.Server.Action.{Results}
use reclient.Server.Race.{
  RaceResult, ResultType, remote, local, canceled, RaceOutput, RemotePart, remote_sent, LocalPart,
  local_sent, Main, first_select, second_select, finished, interrupted, fall_back_count,
}

abbrev pub not_local : ResultType → Bool
not_local local = false
not_local _ = true

abbrev pub not_remote : ResultType → Bool
not_remote remote = false
not_remote _ = true

module _ (R : Results) where
  abbrev pub sent_by_remote : RemotePart R → Option (RaceResult R)
  sent_by_remote (remote_sent m) = some m
  sent_by_remote _ = none

  abbrev pub sent_by_local : LocalPart R → Option (RaceResult R)
  sent_by_local (local_sent m) = some m
  sent_by_local _ = none

  -- Each part sends at most once; the list is in the order of sending.
  pub data Sent : Option (RaceResult R) → Option (RaceResult R) → List (RaceResult R) → Type 0 where
    nothing_sent : Sent none none []
    only_remote : (m : RaceResult R) → Sent (some m) none (m ∷ [])
    only_local : (n : RaceResult R) → Sent none (some n) (n ∷ [])
    remote_first : (m n : RaceResult R) → Sent (some m) (some n) (m ∷ n ∷ [])
    local_first : (m n : RaceResult R) → Sent (some m) (some n) (n ∷ m ∷ [])

  pub remote_sends :
      {l : Option (RaceResult R)} {h : List (RaceResult R)} (m : RaceResult R)
      → Sent none l h
      → Sent (some m) l (h ++ m ∷ [])
  remote_sends m nothing_sent = only_remote m
  remote_sends m (only_local n) = local_first m n

  pub local_sends :
      {r : Option (RaceResult R)} {h : List (RaceResult R)} (n : RaceResult R)
      → Sent r none h
      → Sent r (some n) (h ++ n ∷ [])
  local_sends n nothing_sent = only_local n
  local_sends n (only_remote m) = remote_first m n

  -- What race has received and what waits in the channel are all that was sent.
  abbrev pub History :
      Option (RaceResult R) → Option (RaceResult R) → Main R → List (RaceResult R) → Type 0
  History r l first_select ch = Sent r l ch
  History r l (second_select w) ch = Sent r l (w ∷ ch)
  History r l (finished h) ch = Sent r l (h ++ ch)
  History r l interrupted ch = Unit

  pub History-remote_sends :
      (l : Option (RaceResult R)) (main : Main R) (ch : List (RaceResult R)) (m : RaceResult R)
      → History none l main ch
      → History (some m) l main (ch ++ m ∷ [])
  History-remote_sends l first_select ch m h = remote_sends m h
  History-remote_sends l (second_select w) ch m h = remote_sends m h
  History-remote_sends l (finished past) ch m h =
      subst (Sent (some m) l) (append_assoc past ch (m ∷ [])) (remote_sends m h)
  History-remote_sends l interrupted ch m h = tt

  pub History-local_sends :
      (r : Option (RaceResult R)) (main : Main R) (ch : List (RaceResult R)) (n : RaceResult R)
      → History r none main ch
      → History r (some n) main (ch ++ n ∷ [])
  History-local_sends r first_select ch n h = local_sends n h
  History-local_sends r (second_select w) ch n h = local_sends n h
  History-local_sends r (finished past) ch n h =
      subst (Sent r (some n)) (append_assoc past ch (n ∷ [])) (local_sends n h)
  History-local_sends r interrupted ch n h = tt

  abbrev pub FromRemote : Option (RaceResult R) → Type 0
  FromRemote none = Unit
  FromRemote (some m) = not_local m.t ≡ true

  abbrev pub FromLocal : Option (RaceResult R) → Type 0
  FromLocal none = Unit
  FromLocal (some n) = not_remote n.t ≡ true

  abbrev pub if_ran : ResultType → Option R.Result → Option R.Result
  if_ran local r = r
  if_ran _ r = none

  -- the result of the local run, if the command has run
  abbrev pub run_of : Option (RaceResult R) → Option R.Result
  run_of none = none
  run_of (some n) = if_ran n.t n.res

  -- What is to become of the action when the first result, of which `t` is the type, wins.
  abbrev pub FirstWins : ResultType → RaceResult R → Option R.Result → RaceOutput → Bool → Type 0
  FirstWins remote w res oe moved =
      ((res ≡ w.res) × (oe ≡ w.oe) × (moved ≡ true))
      ⊎ ((e : String) × (res ≡ some (R.local_error e)) × (moved ≡ false))
  FirstWins local w res oe moved = ⊥
  FirstWins canceled w res oe moved = (res ≡ w.res) × (oe ≡ w.oe) × (moved ≡ false)

  -- What is to become of the action when `rr` comes second, of type `t`.
  abbrev pub SecondDecides :
      ResultType → RaceResult R → RaceResult R → Option R.Result → RaceOutput → Bool → ℕ → Type 0
  SecondDecides local w rr res oe moved n =
      (res ≡ rr.res) × (oe ≡ rr.oe) × (moved ≡ false) × (n ≡ fall_back_count w.t local)
  SecondDecides remote w rr res oe moved n = FirstWins w.t w res oe moved × (n ≡ 0)
  SecondDecides canceled w rr res oe moved n = FirstWins w.t w res oe moved × (n ≡ 0)

  -- An independent description of the result of a race, by the results in the order of sending: a
  -- local result always wins; otherwise the first result counts, and a remote one is moved from
  -- the temporary directory, unless that fails.
  abbrev pub Verdict : List (RaceResult R) → Option R.Result → RaceOutput → Bool → ℕ → Type 0
  Verdict [] res oe moved n = ⊥
  Verdict (w ∷ []) res oe moved n =
      (not_local w.t ≡ false) × (res ≡ w.res) × (oe ≡ w.oe) × (moved ≡ false) × (n ≡ 0)
  Verdict (w ∷ (rr ∷ [])) res oe moved n = SecondDecides rr.t w rr res oe moved n
  Verdict (w ∷ (rr ∷ (x ∷ xs))) res oe moved n = ⊥
