-- ===== src/Server/Race/Settled.antt =====
-- What a race that has ended leaves in the action.
use reclient.Prelude.{
  ℕ, ◌+◌, ◌≡◌, refl, sym, ◌∙◌, ap, subst, Bool, true, String, Option, none, some, List, ◌∷◌, inl,
  inr, arith,
}
use reclient.Server.Action.{Results}
use reclient.Server.Race.{
  RaceResult, ResultType, remote, local, canceled, RaceOutput, Main, first_select, second_select,
  State, fall_back_count, first_as, second_as, conclude, with_result, received_both,
}
use reclient.Server.Race.Parts.{Outcome, IsSound, first_local, second_local, no_local}
use reclient.Server.Race.Sent.{
  not_local, sent_by_remote, sent_by_local, History, FirstWins, SecondDecides,
}

module _ (R : Results) where
  none_fell_back : (a t : ResultType) → not_local t ≡ true → fall_back_count a t ≡ 0
  unfolding fall_back_count
  none_fell_back a local h = absurd (cc h)
  none_fell_back local t h = refl
  none_fell_back remote t h = refl
  none_fell_back canceled remote h = refl
  none_fell_back canceled canceled h = refl

  first_decides :
      (w rr : RaceResult R) (res : Option R.Result) (oe : RaceOutput) (moved : Bool) (n : ℕ)
      (t : ResultType)
      → not_local t ≡ true
      → FirstWins R w.t w res oe moved
      → n ≡ 0
      → SecondDecides R t w rr res oe moved n
  first_decides w rr res oe moved n remote h wins k = (wins, k)
  first_decides w rr res oe moved n local h wins k = absurd (cc h)
  first_decides w rr res oe moved n canceled h wins k = (wins, k)

  module _ {s : State R} (sound : IsSound R s) where
    pub History-at :
        (m : Main R) (ch : List (RaceResult R))
        → s.main ≡ m
        → s.ch ≡ ch
        → History R (sent_by_remote R s.remote_part) (sent_by_local R s.local_part) m ch
    History-at m ch h k =
        subst (λ c. History R (sent_by_remote R s.remote_part) (sent_by_local R s.local_part) m c) k
          (subst
            (λ p. History R (sent_by_remote R s.remote_part) (sent_by_local R s.local_part) p s.ch)
            h sound.messages.history)

    pub outcome_at :
        (m : Main R) → s.main ≡ m → Outcome R m s.res s.oe s.local_result s.moved s.fallbacks
    outcome_at m h =
        subst (λ p. Outcome R p s.res s.oe s.local_result s.moved s.fallbacks) h sound.outcome

    pub first_arrives :
        (w : RaceResult R) (rest : List (RaceResult R)) (t : ResultType)
        → s.main ≡ first_select
        → s.ch ≡ w ∷ rest
        → w.t ≡ t
        → IsSound R (first_as R t w rest s)
    unfolding first_as
    first_arrives w rest local h k e =
        let past = History-at first_select (w ∷ rest) h k in
        let (same, unmoved, none_counted) = outcome_at first_select h in
        record {
          messages = record {
            history = past;
            from_remote = sound.messages.from_remote;
            ran = sound.messages.ran;
          };
          outcome = (
            ap not_local e,
            same ∙ sound.messages.ran ∙ first_local R past sound.messages.from_remote e,
            refl,
            unmoved,
            none_counted,
          );
        }
    first_arrives w rest remote h k e =
        let (same, unmoved, none_counted) = outcome_at first_select h in
        record {
          messages = record {
            history = History-at first_select (w ∷ rest) h k;
            from_remote = sound.messages.from_remote;
            ran = sound.messages.ran;
          };
          outcome = (same, unmoved, none_counted, ap not_local e);
        }
    first_arrives w rest canceled h k e =
        let (same, unmoved, none_counted) = outcome_at first_select h in
        record {
          messages = record {
            history = History-at first_select (w ∷ rest) h k;
            from_remote = sound.messages.from_remote;
            ran = sound.messages.ran;
          };
          outcome = (same, unmoved, none_counted, ap not_local e);
        }

    canceled_wins :
        (w rr : RaceResult R) (rest : List (RaceResult R)) (o : Option R.Result)
        → s.main ≡ second_select w
        → s.ch ≡ rr ∷ rest
        → not_local rr.t ≡ true
        → w.t ≡ canceled
        → w.res ≡ o
        → IsSound R (with_result R o w.oe (received_both R w rr rest s))
    canceled_wins w rr rest none h k l e f =
        let (same, unmoved, none_counted, shape) = outcome_at (second_select w) h in
        record {
          messages = record {
            history = History-at (second_select w) (rr ∷ rest) h k;
            from_remote = sound.messages.from_remote;
            ran = sound.messages.ran;
          };
          outcome =
              first_decides w rr (s.res) w.oe s.moved _ rr.t l
                (subst (λ t. FirstWins R t w (s.res) w.oe s.moved) (sym e)
                  (
                    same
                        ∙ sound.messages.ran
                        ∙ no_local R (History-at (second_select w) (rr ∷ rest) h k) shape l
                        ∙ sym f,
                    refl,
                    unmoved,
                  ))
                (omega (arith, none_counted, none_fell_back w.t rr.t l));
        }
    canceled_wins w rr rest (some r) h k l e f =
        let (same, unmoved, none_counted, shape) = outcome_at (second_select w) h in
        record {
          messages = record {
            history = History-at (second_select w) (rr ∷ rest) h k;
            from_remote = sound.messages.from_remote;
            ran = sound.messages.ran;
          };
          outcome =
              first_decides w rr (some r) w.oe s.moved _ rr.t l
                (subst (λ t. FirstWins R t w (some r) w.oe s.moved) (sym e) (sym f, refl, unmoved))
                (omega (arith, none_counted, none_fell_back w.t rr.t l));
        }

    -- The first result wins when the second one is not local.
    first_wins :
        (move_err : Option String) (w rr : RaceResult R) (rest : List (RaceResult R))
        (t : ResultType)
        → s.main ≡ second_select w
        → s.ch ≡ rr ∷ rest
        → not_local rr.t ≡ true
        → w.t ≡ t
        → IsSound R (conclude R t move_err w (received_both R w rr rest s))
    unfolding conclude
    first_wins move_err w rr rest local h k l e =
        let (same, unmoved, none_counted, shape) = outcome_at (second_select w) h in
        absurd (cc (ap not_local e, shape))
    first_wins (some er) w rr rest remote h k l e =
        let (same, unmoved, none_counted, shape) = outcome_at (second_select w) h in
        record {
          messages = record {
            history = History-at (second_select w) (rr ∷ rest) h k;
            from_remote = sound.messages.from_remote;
            ran = sound.messages.ran;
          };
          outcome =
              first_decides w rr (some (R.local_error er)) s.oe s.moved _ rr.t l
                (subst (λ t. FirstWins R t w (some (R.local_error er)) s.oe s.moved) (sym e)
                  (inr (er, refl, unmoved)))
                (omega (arith, none_counted, none_fell_back w.t rr.t l));
        }
    first_wins none w rr rest remote h k l e =
        let (same, unmoved, none_counted, shape) = outcome_at (second_select w) h in
        record {
          messages = record {
            history = History-at (second_select w) (rr ∷ rest) h k;
            from_remote = sound.messages.from_remote;
            ran = sound.messages.ran;
          };
          outcome =
              first_decides w rr (w.res) w.oe true _ rr.t l
                (subst (λ t. FirstWins R t w (w.res) w.oe true) (sym e) (inl (refl, refl, refl)))
                (omega (arith, none_counted, none_fell_back w.t rr.t l));
        }
    first_wins move_err w rr rest canceled h k l e = canceled_wins w rr rest w.res h k l e refl

    pub second_arrives :
        (move_err : Option String) (w rr : RaceResult R) (rest : List (RaceResult R))
        (t : ResultType)
        → s.main ≡ second_select w
        → s.ch ≡ rr ∷ rest
        → rr.t ≡ t
        → IsSound R (second_as R t move_err w rr rest s)
    unfolding second_as conclude
    second_arrives move_err w rr rest local h k e =
        let past = History-at (second_select w) (rr ∷ rest) h k in
        let (same, unmoved, none_counted, shape) = outcome_at (second_select w) h in
        record {
          messages = record {
            history = History-at (second_select w) (rr ∷ rest) h k;
            from_remote = sound.messages.from_remote;
            ran = sound.messages.ran;
          };
          outcome =
              subst
                (λ t.
                  SecondDecides R t w rr s.res rr.oe s.moved
                    (s.fallbacks + fall_back_count w.t rr.t))
                (sym e)
                (
                  same ∙ sound.messages.ran ∙ second_local R past sound.messages.from_remote e,
                  refl,
                  unmoved,
                  omega (arith, none_counted, ap (fall_back_count w.t) e),
                );
        }
    second_arrives move_err w rr rest remote h k e =
        first_wins move_err w rr rest w.t h k (ap not_local e) refl
    second_arrives move_err w rr rest canceled h k e =
        first_wins move_err w rr rest w.t h k (ap not_local e) refl
