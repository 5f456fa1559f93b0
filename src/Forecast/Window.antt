-- ===== src/Forecast/Window.antt =====
-- The ring holds the most recent samples.
use mathlib.Core.List.{append_assoc, append-nil}
use reclient.Prelude.{
  ◌+◌, ◌%◌, ◌<◌, ◌≡◌, refl, sym, ap, ◌∙◌, ◌≢◌, some, List, [], ◌∷◌, ◌++◌, length, length-append,
  set, ltb, if◌then◌else◌, arith,
}
use reclient.Prelude.Int.{ℤ}
use reclient.Forecast.Samples.{Dataset}
use reclient.Forecast.Samples

-- `arrived` is every sample so far, the oldest first. While the ring fills it holds them all; then
-- the slots before the head hold the newest, and those from the head on the ones just before.
pub data Window (arrived : List ℤ) (d : Dataset) : Type 0 where
  filling :
      (stale : List ℤ)
      → stale ≢ []
      → d.data_points ≡ arrived ++ stale
      → d.head ≡ length arrived
      → d.curr_size ≡ length arrived
      → Window arrived d
  full :
      (before from_head forgotten : List ℤ)
      → from_head ≢ []
      → arrived ≡ forgotten ++ (from_head ++ before)
      → d.data_points ≡ before ++ from_head
      → d.head ≡ length before
      → d.curr_size ≡ length before + length from_head
      → Window arrived d

pub set-length :
    (xs : List ℤ) (y v : ℤ) (ys : List ℤ) → set (xs ++ y ∷ ys) (length xs) v ≡ xs ++ v ∷ ys
set-length [] y v ys = refl
set-length (x ∷ xs) y v ys = ap (◌∷◌ x) (set-length xs y v ys)

-- The fields after a sample, and what the guard of the slice gives.
record Inserted (d : Dataset) (v : ℤ) (e : Dataset) : Type 0 where
  in_range : d.head < length d.data_points
  points : e.data_points ≡ set d.data_points d.head v
  head : e.head ≡ (d.head + 1) % length d.data_points
  size : e.curr_size ≡ (
      if ltb (length d.data_points) (d.curr_size + 1)
      then length d.data_points
      else d.curr_size + 1)

inserted-Inserted :
    (d : Dataset) (v : ℤ) → d.head < length d.data_points → Inserted d v (Samples.inserted d v)
unfolding Samples.inserted
inserted-Inserted d v h = record { in_range = h; points = refl; head = refl; size = refl }

insert_in_range :
    (d : Dataset) (v : ℤ)
    → d.head < length d.data_points
    → Samples.insert d v ≡ some (Samples.inserted d v)
unfolding Samples.insert
insert_in_range d v h = ground arith

abbrev concat : List ℤ → ℤ → List ℤ
concat xs x = xs ++ x ∷ []

concat-ne-nil : (xs : List ℤ) (x : ℤ) → concat xs x ≢ []
concat-ne-nil [] x e = cc
concat-ne-nil (y ∷ xs) x e = cc

length-concat : (xs : List ℤ) (x : ℤ) → length (concat xs x) ≡ length xs + 1
length-concat xs x = omega (arith, length-append xs (x ∷ []))

module _ {d e : Dataset} {v : ℤ} (i : Inserted d v e) (before : List ℤ) (y : ℤ)
    (head : d.head ≡ length before) where
  written :
      (rest : List ℤ) → d.data_points ≡ before ++ y ∷ rest → e.data_points ≡ concat before v ++ rest
  written rest points =
      i.points
      ∙ (rw (points, head) (set-length before y v rest))
      ∙ sym (append_assoc before (v ∷ []) rest)

  capacity :
      (rest : List ℤ)
      → d.data_points ≡ before ++ y ∷ rest
      → length d.data_points ≡ length before + 1 + length rest
  capacity rest points = omega (arith, ap length points, length-append before (y ∷ rest))

  head_moves :
      (z : ℤ) (rest : List ℤ)
      → d.data_points ≡ before ++ y ∷ (z ∷ rest)
      → e.head ≡ length (concat before v)
  head_moves z rest points =
      grind (arith, i.head, capacity (z ∷ rest) points, length-concat before v)

  head_wraps : d.data_points ≡ before ++ y ∷ [] → e.head ≡ 0
  head_wraps points = grind (arith, i.head, capacity [] points)

insert-filling :
    (arrived : List ℤ) (d e : Dataset) (v y : ℤ) (stale : List ℤ)
    → d.data_points ≡ arrived ++ y ∷ stale
    → d.head ≡ length arrived
    → d.curr_size ≡ length arrived
    → Inserted d v e
    → Window (concat arrived v) e
insert-filling arrived d e v y [] points head size i =
    full [] (concat arrived v) [] (concat-ne-nil arrived v) (sym (append-nil (concat arrived v)))
      (written i arrived y head [] points ∙ append-nil (concat arrived v))
      (head_wraps i arrived y head points)
      (ground (arith, i.size, capacity i arrived y head [] points, length-concat arrived v))
insert-filling arrived d e v y (z ∷ zs) points head size i =
    filling (z ∷ zs) (λ q. cc) (written i arrived y head (z ∷ zs) points)
      (head_moves i arrived y head z zs points)
      (ground (arith, i.size, capacity i arrived y head (z ∷ zs) points, length-concat arrived v))

shift_past :
    (forgotten before : List ℤ) (b v : ℤ) (rest : List ℤ)
    → concat (forgotten ++ ((b ∷ rest) ++ before)) v
      ≡ concat forgotten b ++ (rest ++ concat before v)
shift_past forgotten before b v rest = simp append_assoc

insert-full :
    (arrived : List ℤ) (d e : Dataset) (v b : ℤ) (before rest forgotten : List ℤ)
    → arrived ≡ forgotten ++ ((b ∷ rest) ++ before)
    → d.data_points ≡ before ++ b ∷ rest
    → d.head ≡ length before
    → d.curr_size ≡ length before + length (b ∷ rest)
    → Inserted d v e
    → Window (concat arrived v) e
insert-full arrived d e v b before [] forgotten past points head size i =
    full [] (concat before v) (concat forgotten b) (concat-ne-nil before v)
      (rw past (simp (append_assoc, append-nil)))
      (written i before b head [] points ∙ append-nil (concat before v))
      (head_wraps i before b head points)
      (ground (arith, i.size, capacity i before b head [] points, length-concat before v))
insert-full arrived d e v b before (z ∷ zs) forgotten past points head size i =
    full (concat before v) (z ∷ zs) (concat forgotten b) (λ q. cc)
      (rw past (shift_past forgotten before b v (z ∷ zs))) (written i before b head (z ∷ zs) points)
      (head_moves i before b head z zs points)
      (ground (arith, i.size, capacity i before b head (z ∷ zs) points, length-concat before v))

head-lt :
    (before : List ℤ) (y : ℤ) (rest : List ℤ) (d : Dataset)
    → d.data_points ≡ before ++ y ∷ rest
    → d.head ≡ length before
    → d.head < length d.data_points
head-lt before y rest d points head =
    omega (arith, ap length points, length-append before (y ∷ rest))

-- Recording a sample in a ring that holds the most recent ones never panics, and the ring then
-- holds the most recent ones, the new one among them.
pub insert-Window :
    (arrived : List ℤ) (d : Dataset) (v : ℤ)
    → Window arrived d
    → (Samples.insert d v ≡ some (Samples.inserted d v))
      × Window (arrived ++ v ∷ []) (Samples.inserted d v)
insert-Window arrived d v (filling [] ne points head size) = absurd (ne refl)
insert-Window arrived d v (filling (y ∷ stale) ne points head size) =
    let room = head-lt arrived y stale d points head in
    (
      insert_in_range d v room,
      insert-filling arrived d _ v y stale points head size (inserted-Inserted d v room),
    )
insert-Window arrived d v (full before [] forgotten ne past points head size) = absurd (ne refl)
insert-Window arrived d v (full before (b ∷ rest) forgotten ne past points head size) =
    let room = head-lt before b rest d points head in
    (
      insert_in_range d v room,
      insert-full arrived d _ v b before rest forgotten past points head size
          (inserted-Inserted d v room),
    )
