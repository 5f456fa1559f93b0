-- ===== src/Server/Records.antt =====
-- server.go, logRecord and GetRecords: the log records that are kept for clients. Only the keeping
-- of records is modelled here, for records of any type.
use mathlib.Core.List.{append_assoc, append-nil}
use reclient.Prelude.{
  ℕ, zero, suc, ◌+◌, ◌-◌, ◌≤◌, ◌<◌, ◌≡◌, ◌∙◌, refl, ap, sym, Bool, true, false, List, [], ◌∷◌, ◌++◌,
  length, length-append, drop, min, length-drop, ltb, ◌==◌, if◌then◌else◌, Bool-cases, inl, inr,
  arith,
}
use reclient.Args.{rest_of}

module _ {ℓ} {A : Type ℓ} (keep_last_records : ℕ) where
  -- what logRecord makes of the records
  unfoldable pub kept : List A → A → List A
  kept records r =
      if keep_last_records == 0
      then records
      else if ltb keep_last_records (length (records ++ r ∷ []))
      then rest_of (records ++ r ∷ [])
      else records ++ r ∷ []

  unfoldable pub kept_all : List A → List A → List A
  kept_all records [] = records
  kept_all records (r ∷ rs) = kept_all (kept records r) rs

  drop-all : (xs : List A) (n : ℕ) → length xs ≤ n → drop n xs ≡ []
  drop-all [] zero h = refl
  drop-all [] (suc n) h = refl
  drop-all (x ∷ xs) zero h = ground arith
  drop-all (x ∷ xs) (suc n) h = drop-all xs n (omega arith)

  drop-append : (xs ys : List A) (n : ℕ) → n ≤ length xs → drop n (xs ++ ys) ≡ drop n xs ++ ys
  drop-append xs ys zero h = refl
  drop-append [] ys (suc n) h = ground arith
  drop-append (x ∷ xs) ys (suc n) h = drop-append xs ys n (omega arith)

  rest_of-drop : (xs : List A) (n : ℕ) → rest_of (drop n xs) ≡ drop (suc n) xs
  rest_of-drop [] zero = refl
  rest_of-drop [] (suc n) = refl
  rest_of-drop (x ∷ xs) zero = refl
  rest_of-drop (x ∷ xs) (suc n) = rest_of-drop xs n

  -- the last ones of all records so far
  abbrev pub latest : List A → List A
  latest past = drop (length past - keep_last_records) past

  if_true : (b : Bool) (xs ys : List A) → b ≡ true → (if b then xs else ys) ≡ xs
  if_true true xs ys h = refl
  if_true false xs ys h = ground arith

  if_false : (b : Bool) (xs ys : List A) → b ≡ false → (if b then xs else ys) ≡ ys
  if_false true xs ys h = ground arith
  if_false false xs ys h = refl

  latest_none :
      (past : List A) (r : A) → keep_last_records ≡ 0 → latest past ≡ latest (past ++ r ∷ [])
  latest_none past r h =
      drop-all past (length past - keep_last_records) (omega (arith, h))
      ∙ sym (
          drop-all (past ++ r ∷ []) (length (past ++ r ∷ []) - keep_last_records)
            (omega (arith, h)))

  no_more :
      (past : List A) (r : A)
      → length past < keep_last_records
      → 0 ≡ length (past ++ r ∷ []) - keep_last_records
  no_more past r h = omega (arith, length-append past (r ∷ []))

  no_more_yet :
      (past : List A) → length past < keep_last_records → length past - keep_last_records ≡ 0
  no_more_yet past h = omega arith

  one_more :
      (past : List A) (r : A)
      → keep_last_records ≤ length past
      → suc (length past - keep_last_records) ≡ length (past ++ r ∷ []) - keep_last_records
  one_more past r h = omega (arith, length-append past (r ∷ []))

  drop-nil : (n : ℕ) → drop {A = A} n [] ≡ []
  drop-nil zero = refl
  drop-nil (suc n) = refl

  latest_few :
      (past : List A) (r : A)
      → length past < keep_last_records
      → latest past ++ r ∷ [] ≡ latest (past ++ r ∷ [])
  latest_few past r h =
      ap (λ n. drop n past ++ r ∷ []) (no_more_yet past h)
      ∙ ap (λ n. drop n (past ++ r ∷ [])) (no_more past r h)

  latest_full :
      (past : List A) (r : A)
      → keep_last_records ≤ length past
      → rest_of (latest past ++ r ∷ []) ≡ latest (past ++ r ∷ [])
  latest_full past r h =
      ap rest_of (sym (drop-append past (r ∷ []) (length past - keep_last_records) (omega arith)))
      ∙ rest_of-drop (past ++ r ∷ []) (length past - keep_last_records)
      ∙ ap (λ n. drop n (past ++ r ∷ [])) (one_more past r h)

  length-latest :
      (past : List A) (r : A)
      → length (latest past ++ r ∷ []) ≡ length past - (length past - keep_last_records) + 1
  length-latest past r = omega (
    arith,
    length-append (latest past) (r ∷ []),
    length-drop (length past - keep_last_records) past,
  )

  kept-latest : (past : List A) (r : A) → kept (latest past) r ≡ latest (past ++ r ∷ [])
  unfolding kept
  kept-latest past r =
      let rs = latest past ++ r ∷ [] in
      let over = ltb keep_last_records (length rs) in
      elim (Bool-cases (keep_last_records == 0)) [
        | inl e ↦
            if_true (keep_last_records == 0) (latest past) (if over then rest_of rs else rs) e
            ∙ latest_none past r (ground arith)
        | inr e ↦
            if_false (keep_last_records == 0) (latest past) (if over then rest_of rs else rs) e
            ∙ elim (Bool-cases over) [
              | inl f ↦
                  if_true over (rest_of rs) rs f
                  ∙ latest_full past r (grind (arith, length-latest past r))
              | inr f ↦
                  if_false over (rest_of rs) rs f
                  ∙ latest_few past r (grind (arith, length-latest past r))
            ]
      ]

  kept_all-latest : (past rs : List A) → kept_all (latest past) rs ≡ latest (past ++ rs)
  unfolding kept_all
  kept_all-latest past [] = ap latest (sym (append-nil past))
  kept_all-latest past (r ∷ rs) =
      ap (λ xs. kept_all xs rs) (kept-latest past r)
      ∙ kept_all-latest (past ++ r ∷ []) rs
      ∙ ap latest (append_assoc past (r ∷ []) rs)

  -- After any log records, the records that are kept are the last ones in order, as many as are to
  -- be kept, or all if there are fewer; none if none are to be kept.
  pub kept_all_lem :
      (rs : List A)
      → (kept_all [] rs ≡ drop (length rs - keep_last_records) rs)
        × (length (kept_all [] rs) ≡ min keep_last_records (length rs))
  kept_all_lem rs =
      let e =
        ap (λ xs. kept_all xs rs) (sym (drop-nil (0 - keep_last_records)))
        ∙ kept_all-latest [] rs in
      (e, ap length e ∙ omega (arith, length-drop (length rs - keep_last_records) rs))
