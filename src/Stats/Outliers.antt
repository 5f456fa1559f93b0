-- ===== src/Stats/Outliers.antt =====
-- What addNum makes of a series of values: the outliers are the largest values other than 0.
use mathlib.Core.List.{append_assoc, append-nil}
use reclient.Prelude.{
  sym, ap, ◌∙◌, ℕ, ◌+◌, ◌%◌, ◌*◌, ◌≡◌, refl, Bool, true, false, List, [], ◌∷◌, ◌++◌, map,
  if◌then◌else◌, arith, get_elem?,
}
use reclient.Prelude.Int.{ℤ, pos, ltb_ℤ, eqb_ℤ, bits, half64, bits-add64}
use reclient.Stats.{Stat, Outlier, empty_stat, add_value, add_raw, add_outlier}

-- the values of one metric and the commands that they are of
abbrev pub add_values : List Outlier → Bool → Stat → Stat
add_values [] millis st = st
add_values (o ∷ os) millis st = add_values os millis (add_value o.value o.command_id millis st)

-- An independent description: the values other than 0 in descending order, equal ones in the order
-- in which they came.
abbrev pub place : Outlier → List Outlier → List Outlier
place o [] = o ∷ []
place o (p ∷ ps) = if ltb_ℤ p.value o.value then o ∷ (p ∷ ps) else p ∷ place o ps

abbrev pub descending : List Outlier → List Outlier → List Outlier
descending [] acc = acc
descending (o ∷ os) acc = descending os (if eqb_ℤ o.value (pos 0) then acc else place o acc)

-- the sum that a metric counts: of the values, or of 1 for each time interval
abbrev pub counted_bits : Bool → List Outlier → ℕ
counted_bits millis [] = 0
counted_bits true (o ∷ os) = 1 + counted_bits true os
counted_bits false (o ∷ os) = bits half64 o.value + counted_bits false os

abbrev Top : Stat → List Outlier → Type 0
Top st ranked = (st.outlier1 ≡ get_elem? ranked 0) × (st.outlier2 ≡ get_elem? ranked 1)

add_outlier-Top :
    (o : Outlier) (st : Stat) (ranked : List Outlier)
    → Top st ranked
    → Top
        (add_outlier o.value o.command_id st)
        (if eqb_ℤ o.value (pos 0) then ranked else place o ranked)
unfolding add_outlier
add_outlier-Top o st [] h = ground (arith, h.0, h.1)
add_outlier-Top o st (p ∷ []) h = ground (arith, h.0, h.1)
add_outlier-Top o st (p ∷ (q ∷ ps)) h = ground (arith, h.0, h.1)

add_raw-Top :
    (v : ℤ) (millis : Bool) (st : Stat) (ranked : List Outlier)
    → Top st ranked
    → Top (add_raw v millis st) ranked
unfolding add_raw
add_raw-Top v true st ranked h = h
add_raw-Top v false st ranked h = h

add_values-Top :
    (os : List Outlier) (millis : Bool) (st : Stat) (ranked : List Outlier)
    → Top st ranked
    → Top (add_values os millis st) (descending os ranked)
add_values-Top [] millis st ranked h = h
add_values-Top (o ∷ os) millis st ranked h =
    add_values-Top os millis (add_value o.value o.command_id millis st)
      (if eqb_ℤ o.value (pos 0) then ranked else place o ranked)
      (add_outlier-Top o (add_raw o.value millis st) ranked
        (add_raw-Top o.value millis st ranked h))

add_value-raw_values :
    (o : Outlier) (millis : Bool) (st : Stat)
    → (add_value o.value o.command_id millis st).raw_values ≡ st.raw_values ++ o.value ∷ []
unfolding add_outlier add_raw
add_value-raw_values o true st = ground arith
add_value-raw_values o false st = ground arith

add_values-raw_values :
    (os : List Outlier) (millis : Bool) (st : Stat)
    → (add_values os millis st).raw_values ≡ st.raw_values ++ map (λ o. o.value) os
add_values-raw_values [] millis st = sym (append-nil st.raw_values)
add_values-raw_values (o ∷ os) millis st =
    let st' = add_value o.value o.command_id millis st in
    add_values-raw_values os millis st'
    ∙ ap (◌++ map (λ p. p.value) os) (add_value-raw_values o millis st)
    ∙ append_assoc st.raw_values (o.value ∷ []) (map (λ p. p.value) os)

add_outlier-count :
    (o : Outlier) (st : Stat) → (add_outlier o.value o.command_id st).count ≡ st.count
unfolding add_outlier
add_outlier-count o st = ground arith

add_values-count :
    (os : List Outlier) (millis : Bool) (st : Stat)
    → bits half64 (add_values os millis st).count
      ≡ (bits half64 st.count + counted_bits millis os) % (2 * half64)
unfolding add_raw
add_values-count [] millis st = omega arith
add_values-count (o ∷ os) true st =
    rw (add_values-count os true (add_value o.value o.command_id true st)) (
      rw (add_outlier-count o (add_raw o.value true st))
        (omega (arith, bits-add64 st.count (pos 1))))
add_values-count (o ∷ os) false st =
    rw (add_values-count os false (add_value o.value o.command_id false st)) (
      rw (add_outlier-count o (add_raw o.value false st))
        (omega (arith, bits-add64 st.count o.value)))

-- After any series of values of one metric, its two outliers are the first two of the values other
-- than 0 in descending order, those that came first before equal ones; it has kept all values in
-- the order in which they came; and it counts their sum, or the number of time intervals, modulo
-- 2 ^ 64.
pub add_values_lem :
    (os : List Outlier) (millis : Bool)
    → ((add_values os millis empty_stat).outlier1 ≡ get_elem? (descending os []) 0)
      × ((add_values os millis empty_stat).outlier2 ≡ get_elem? (descending os []) 1)
      × ((add_values os millis empty_stat).raw_values ≡ map (λ o. o.value) os)
      × (bits half64 (add_values os millis empty_stat).count
          ≡ counted_bits millis os % (2 * half64))
add_values_lem os millis =
    let top = add_values-Top os millis empty_stat [] (refl, refl) in
    (
      top.0,
      top.1,
      add_values-raw_values os millis empty_stat,
      omega (arith, add_values-count os millis empty_stat),
    )
