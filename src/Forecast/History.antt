-- ===== src/Forecast/History.antt =====
-- Every dataset of the forecast holds the most recent samples of its kind of action.
use reclient.Prelude.{
  ℕ, ◌≡◌, refl, ap, ◌∙◌, subst, true, String, Option, none, some, List, [], ◌∷◌, ◌++◌, map, str_eq,
  eq_iff, if◌then◌else◌, arith, replicate, inl, inr, Bool-cases,
}
use reclient.Prelude.Int.{ℤ, pos}
use reclient.Prelude.Maps.{Map, lookup, insert, lookup-insert, string_eq}
use reclient.Labels.{to_key}
use reclient.Prelude.Result.{Result, ok, err, panic}
use reclient.Forecast.Rank.{percentile-panic_iff}
use reclient.Forecast.Samples.{Dataset, PercentileError}
use reclient.Forecast.Samples
use reclient.Forecast.Window.{Window, filling, full, insert-Window}
use reclient.Forecast.{
  Forecast, Sample, or_new, dataset_of, new_dataset, with_min_size, record_latency, record_sample,
  tick, tick_all, if_no_panic, with_entry, ticked_with,
}

-- the samples of each kind of action so far, oldest first, by the key of its labels
abbrev pub Arrivals : Type 0
Arrivals = String → List ℤ

abbrev pub no_arrivals : Arrivals
no_arrivals key = []

abbrev latest : Arrivals → Map String String → Option ℤ → Arrivals
latest arrivals lbls none = arrivals
latest arrivals lbls (some ms) =
    λ key. if str_eq (to_key lbls) key then arrivals key ++ ms ∷ [] else arrivals key

abbrev pub arrived : Arrivals → Sample → Arrivals
arrived arrivals a = latest arrivals a.lbls a.download

abbrev WindowIfAny : List ℤ → Option Dataset → Type 0
WindowIfAny past none = past ≡ []
WindowIfAny past (some d) = Window past d

pub record IsTracked (arrivals : Arrivals) (f : Forecast) : Type 0 where
  pub at_key : (key : String) → WindowIfAny (arrivals key) (lookup key f.download_latencies)

pub IsTracked-empty :
    (min_size : ℕ)
    → IsTracked no_arrivals (record { download_latencies = []; min_size_for_stats = min_size })
unfolding lookup
IsTracked-empty min_size = record { at_key = λ key. refl }

Window-new_dataset : (min_size : ℕ) → Window [] (new_dataset min_size)
Window-new_dataset min_size = filling (replicate 500 (pos 0)) (λ e. cc) refl refl refl

Window-or_new :
    (past : List ℤ) (f : Forecast) (o : Option Dataset)
    → WindowIfAny past o
    → Window past (or_new f o)
Window-or_new past f none h = rw h (Window-new_dataset f.min_size_for_stats)
Window-or_new past f (some d) h = h

Window-dataset_of :
    (arrivals : Arrivals) (f : Forecast) (lbls : Map String String)
    → IsTracked arrivals f
    → Window (arrivals (to_key lbls)) (dataset_of f lbls)
unfolding dataset_of
Window-dataset_of arrivals f lbls t =
    Window-or_new (arrivals (to_key lbls)) (with_min_size f)
      (lookup (to_key lbls) f.download_latencies) (t.at_key (to_key lbls))

WindowIfAny-insert :
    (key k : String) (past : List ℤ) (ms : ℤ) (d : Dataset) (m : Map String Dataset)
    → (str_eq key k ≡ true → Window (past ++ ms ∷ []) d)
    → WindowIfAny past (lookup k m)
    → WindowIfAny (if str_eq key k then past ++ ms ∷ [] else past) (lookup k (insert key d m))
WindowIfAny-insert key k past ms d m h t = elim (Bool-cases (str_eq key k)) [
  | inl e ↦ rw (e, lookup-insert key k d m, e) (h e)
  | inr e ↦ rw (e, lookup-insert key k d m, e) t
]

record_latency-IsTracked :
    (arrivals : Arrivals) (f : Forecast) (lbls : Map String String) (o : Option ℤ)
    → IsTracked arrivals f
    → (g : Forecast) × (record_latency f lbls o ≡ some g) × IsTracked (latest arrivals lbls o) g
unfolding record_latency
record_latency-IsTracked arrivals f lbls none t = (f, refl, t)
record_latency-IsTracked arrivals f lbls (some ms) t =
    let (stored, window) = insert-Window _ _ ms (Window-dataset_of arrivals f lbls t) in
    (
      record (with_min_size f) {
        download_latencies =
            insert (to_key lbls) (Samples.inserted (dataset_of f lbls) ms) f.download_latencies;
      },
      rw (stored, record_latency),
      record {
        at_key = λ key.
            WindowIfAny-insert (to_key lbls) key (arrivals key) ms
              (Samples.inserted (dataset_of f lbls) ms) f.download_latencies
              (λ same.
                subst
                  (λ k. Window (arrivals k ++ ms ∷ []) (Samples.inserted (dataset_of f lbls) ms))
                  ((eq_iff (to_key lbls) key).0 same) window)
              (t.at_key key);
      },
    )

-- Recording a sample never panics, and keeps every dataset at the most recent samples of its own
-- kind of action; an action with no download time changes nothing.
pub record_sample-IsTracked :
    (arrivals : Arrivals) (f : Forecast) (a : Sample)
    → IsTracked arrivals f
    → (g : Forecast) × (record_sample f a ≡ some g) × IsTracked (arrived arrivals a) g
unfolding record_sample
record_sample-IsTracked arrivals f a t = record_latency-IsTracked arrivals f a.lbls a.download t

Window-sort : (past : List ℤ) (d : Dataset) → Window past d → Window past (Samples.sort d)
unfolding Samples.sort
Window-sort past d (filling stale ne points head size) =
    filling stale ne (ground arith) (ground arith) (ground arith)
Window-sort past d (full before from_head forgotten ne split points head size) =
    full before from_head forgotten ne split (ground arith) (ground arith) (ground arith)

WindowIfAny-map-sort :
    (key : String) (past : List ℤ) (m : Map String Dataset)
    → WindowIfAny past (lookup key m)
    → WindowIfAny past (lookup key (map (λ entry. (entry.0, Samples.sort entry.1)) m))
unfolding lookup
WindowIfAny-map-sort key past [] t = t
WindowIfAny-map-sort key past ((k, d) ∷ m) t = elim (Bool-cases (str_eq k key)) [
  | inl e ↦ rw e (Window-sort past d (rw e at t))
  | inr e ↦ rw e (WindowIfAny-map-sort key past m (rw e at t))
]

if_no_panic-some :
    (d : Dataset) (r : Result PercentileError ℤ) → (r ≡ panic → ⊥) → if_no_panic d r ≡ some d
if_no_panic-some d (ok ms) h = refl
if_no_panic-some d (err e) h = refl
if_no_panic-some d panic h = absurd (h refl)

tick_all-some :
    (m : Map String Dataset) → tick_all m ≡ some (map (λ entry. (entry.0, Samples.sort entry.1)) m)
unfolding tick_all
tick_all-some [] = refl
tick_all-some ((key, d) ∷ m) =
    let sorted = Samples.sort d in
    let found : if_no_panic sorted (Samples.percentile sorted (pos 90)) ≡ some sorted =
      if_no_panic-some sorted (Samples.percentile sorted (pos 90)) (λ e.
        let at : 90 ≡ 100 = ((percentile-panic_iff sorted 90).0 e).0 in absurd (omega arith)) in
    ap (λ o. with_entry key o (tick_all m)) found
    ∙ ap (λ o. with_entry key (some sorted) o) (tick_all-some m)

abbrev ticked_forecast : Forecast → Forecast
ticked_forecast f = record f {
  download_latencies = map (λ entry. (entry.0, Samples.sort entry.1)) f.download_latencies;
}

-- So does a tick of Run, which sorts and asks for a percentile, and does not panic.
pub tick-IsTracked :
    (arrivals : Arrivals) (f : Forecast)
    → IsTracked arrivals f
    → (g : Forecast) × (tick f ≡ some g) × IsTracked arrivals g
unfolding tick
tick-IsTracked arrivals f t = (
  ticked_forecast f,
  ap (ticked_with f) (tick_all-some f.download_latencies),
  record {
    at_key = λ key. WindowIfAny-map-sort key (arrivals key) f.download_latencies (t.at_key key);
  },
)

-- what happens to a forecast
pub data Event : Type 0 where
  sample : Sample → Event
  ticked : Event

abbrev pub run : Option Forecast → List Event → Option Forecast
run none es = none
run (some f) [] = some f
run (some f) (sample a ∷ es) = run (record_sample f a) es
run (some f) (ticked ∷ es) = run (tick f) es

abbrev pub arrivals_of : Arrivals → List Event → Arrivals
arrivals_of arrivals [] = arrivals
arrivals_of arrivals (sample a ∷ es) = arrivals_of (arrived arrivals a) es
arrivals_of arrivals (ticked ∷ es) = arrivals_of arrivals es

-- From a forecast whose datasets hold the most recent samples, whatever samples and ticks follow
-- in whatever order, nothing panics and the datasets hold the most recent samples.
pub run-IsTracked :
    (arrivals : Arrivals) (f : Forecast) (es : List Event)
    → IsTracked arrivals f
    → (g : Forecast) × (run (some f) es ≡ some g) × IsTracked (arrivals_of arrivals es) g
run-IsTracked arrivals f [] t = (f, refl, t)
run-IsTracked arrivals f (sample a ∷ es) t =
    let (g, stored, t') = record_sample-IsTracked arrivals f a t in
    let (h, rest, t'') = run-IsTracked (arrived arrivals a) g es t' in
    (h, ap (λ o. run o es) stored ∙ rest, t'')
run-IsTracked arrivals f (ticked ∷ es) t =
    let (g, sorted, t') = tick-IsTracked arrivals f t in
    let (h, rest, t'') = run-IsTracked arrivals g es t' in
    (h, ap (λ o. run o es) sorted ∙ rest, t'')
