-- ===== src/Server/Race/Parts.antt =====
-- The invariant of a race, and that the remote and the local part keep it.
use reclient.Prelude.{
  ℕ, ◌≡◌, refl, sym, ◌∙◌, subst, Bool, true, false, Option, none, some, List, [], ◌∷◌,
}
use reclient.Server.Action.{Results}
use reclient.Server.Race.{
  RaceResult, ResultType, remote, local, canceled, RaceOutput, gave_up, local_output, RemotePart,
  LocalPart, Main, first_select, second_select, finished, interrupted, State, start, send_remote,
  send_local, ran_locally,
}
use reclient.Server.Race.Sent.{
  not_local, sent_by_remote, sent_by_local, Sent, nothing_sent, only_remote, only_local,
  remote_first, local_first, History, History-remote_sends, History-local_sends, FromRemote, if_ran,
  run_of, Verdict,
}

module _ (R : Results) where
  -- the action while race goes on, and once it has ended
  abbrev pub Outcome : Main R → Option R.Result → RaceOutput → Option R.Result → Bool → ℕ → Type 0
  Outcome first_select res oe ran moved n = (res ≡ ran) × (moved ≡ false) × (n ≡ 0)
  Outcome (second_select w) res oe ran moved n =
      (res ≡ ran) × (moved ≡ false) × (n ≡ 0) × (not_local w.t ≡ true)
  Outcome (finished h) res oe ran moved n = Verdict R h res oe moved n
  Outcome interrupted res oe ran moved n = Unit

  only_one :
      {r : Option (RaceResult R)} {w rr : RaceResult R} {ch : List (RaceResult R)}
      → Sent R r none (w ∷ (rr ∷ ch))
      → ⊥
  only_one h = elim h [ ]

  unended :
      {r : Option (RaceResult R)} {w : RaceResult R} {ch : List (RaceResult R)}
      → Sent R r none (w ∷ ch)
      → FromRemote R r
      → not_local w.t ≡ false
      → ⊥
  unended (only_remote m) f e = cc

  -- A local result that is received is that of the run.
  pub first_local :
      {r l : Option (RaceResult R)} {w : RaceResult R} {ch : List (RaceResult R)}
      → Sent R r l (w ∷ ch)
      → FromRemote R r
      → w.t ≡ local
      → run_of R l ≡ w.res
  first_local (only_remote m) f e = absurd (cc (rw e at f))
  first_local (only_local n) f e = rw e refl
  first_local (remote_first m n) f e = absurd (cc (rw e at f))
  first_local (local_first m n) f e = rw e refl

  pub second_local :
      {r l : Option (RaceResult R)} {w rr : RaceResult R} {ch : List (RaceResult R)}
      → Sent R r l (w ∷ (rr ∷ ch))
      → FromRemote R r
      → rr.t ≡ local
      → run_of R l ≡ rr.res
  second_local (remote_first m n) f e = rw e refl
  second_local (local_first m n) f e = absurd (cc (rw e at f))

  not_ran : (t : ResultType) (o : Option R.Result) → not_local t ≡ true → if_ran R t o ≡ none
  not_ran remote o h = refl
  not_ran local o h = absurd (cc h)
  not_ran canceled o h = refl

  pub no_local :
      {r l : Option (RaceResult R)} {w rr : RaceResult R} {ch : List (RaceResult R)}
      → Sent R r l (w ∷ (rr ∷ ch))
      → not_local w.t ≡ true
      → not_local rr.t ≡ true
      → run_of R l ≡ none
  no_local (remote_first m n) h k = not_ran n.t n.res k
  no_local (local_first m n) h k = not_ran n.t n.res h

  -- While race has not ended the local part may end its run, and afterwards it no longer can.
  ran_outcome :
      (r : Option (RaceResult R)) (res ran : Option R.Result) (oe : RaceOutput) (moved : Bool)
      (n : ℕ) (main : Main R) (ch : List (RaceResult R)) (x : Option R.Result)
      → History R r none main ch
      → FromRemote R r
      → Outcome main res oe ran moved n
      → Outcome main x oe x moved n
  ran_outcome r res ran oe moved n first_select ch x h f o = (refl, o.1, o.2)
  ran_outcome r res ran oe moved n (second_select w) ch x h f o = (refl, o.1, o.2, o.3)
  ran_outcome r res ran oe moved n (finished []) ch x h f o = absurd o
  ran_outcome r res ran oe moved n (finished (w ∷ [])) ch x h f o = absurd (unended h f o.0)
  ran_outcome r res ran oe moved n (finished (w ∷ (rr ∷ []))) ch x h f o = absurd (only_one h)
  ran_outcome r res ran oe moved n (finished (w ∷ (rr ∷ (v ∷ vs)))) ch x h f o = absurd o
  ran_outcome r res ran oe moved n interrupted ch x h f o = tt

  pub record Messages (s : State R) : Type 0 where
    pub history :
        History R (sent_by_remote R s.remote_part) (sent_by_local R s.local_part) s.main s.ch
    pub from_remote : FromRemote R (sent_by_remote R s.remote_part)
    pub ran : s.local_result ≡ run_of R (sent_by_local R s.local_part)

  pub record IsSound (s : State R) : Type 0 where
    pub messages : Messages s
    pub outcome : Outcome s.main s.res s.oe s.local_result s.moved s.fallbacks

  pub start-IsSound : IsSound (start R)
  start-IsSound = record {
    messages = record { history = nothing_sent; from_remote = tt; ran = refl };
    outcome = (refl, refl, refl);
  }

  -- A part that has sent nothing goes on, or sends something.
  module _ {s : State R} (sound : IsSound s) where
    pub remote_moves :
        (p : RemotePart R) (signal timer : Bool)
        → sent_by_remote R s.remote_part ≡ none
        → sent_by_remote R p ≡ none
        → IsSound (record s { remote_part = p; local_signal = signal; timer = timer })
    remote_moves p signal timer h k = record {
      messages = record {
        history =
            subst (λ r. History R r (sent_by_local R s.local_part) s.main s.ch) (h ∙ sym k)
              sound.messages.history;
        from_remote = subst (FromRemote R) (h ∙ sym k) sound.messages.from_remote;
        ran = sound.messages.ran;
      };
      outcome = sound.outcome;
    }

    pub remote_sends :
        (m : RaceResult R) (signal : Bool)
        → sent_by_remote R s.remote_part ≡ none
        → not_local m.t ≡ true
        → IsSound (send_remote R m (record s { local_signal = signal }))
    remote_sends m signal h shape = record {
      messages = record {
        history = History-remote_sends R (sent_by_local R s.local_part) s.main s.ch m (
            subst (λ r. History R r (sent_by_local R s.local_part) s.main s.ch) h
              sound.messages.history);
        from_remote = shape;
        ran = sound.messages.ran;
      };
      outcome = sound.outcome;
    }

    pub local_moves :
        (p : LocalPart R)
        → sent_by_local R s.local_part ≡ none
        → sent_by_local R p ≡ none
        → IsSound (record s { local_part = p })
    local_moves p h k = record {
      messages = record {
        history =
            subst (λ l. History R (sent_by_remote R s.remote_part) l s.main s.ch) (h ∙ sym k)
              sound.messages.history;
        from_remote = sound.messages.from_remote;
        ran = subst (λ l. s.local_result ≡ run_of R l) (h ∙ sym k) sound.messages.ran;
      };
      outcome = sound.outcome;
    }

    local-History :
        sent_by_local R s.local_part ≡ none
        → History R (sent_by_remote R s.remote_part) none s.main s.ch
    local-History h =
        subst (λ l. History R (sent_by_remote R s.remote_part) l s.main s.ch) h
          sound.messages.history

    pub local_gives_up :
        (r : Option R.Result)
        → sent_by_local R s.local_part ≡ none
        → IsSound (send_local R (gave_up R r) s)
    local_gives_up r h = record {
      messages = record {
        history =
            History-local_sends R (sent_by_remote R s.remote_part) s.main s.ch (gave_up R r)
              (local-History h);
        from_remote = sound.messages.from_remote;
        ran = subst (λ l. s.local_result ≡ run_of R l) h sound.messages.ran;
      };
      outcome = sound.outcome;
    }

    pub local_succeeds :
        (r : R.Result) → sent_by_local R s.local_part ≡ none → IsSound (ran_locally R r s)
    unfolding ran_locally
    local_succeeds r h = record {
      messages = record {
        history =
            History-local_sends R (sent_by_remote R s.remote_part) s.main s.ch
              (record { res = some r; oe = local_output; t = local }) (local-History h);
        from_remote = sound.messages.from_remote;
        ran = refl;
      };
      outcome =
          ran_outcome (sent_by_remote R s.remote_part) s.res s.local_result s.oe s.moved s.fallbacks
            s.main s.ch (some r) (local-History h) sound.messages.from_remote sound.outcome;
    }
