-- ===== src/Compare/Status.antt =====
-- What the status of a set of reruns means.
use reclient.Prelude.{
  ℕ, ◌<◌, ◌≡◌, ◌↔◌, ◌≢◌, ◌⊎◌, refl, ap, sym, true, false, List, [], ◌∷◌, length, arith,
}
use reclient.Prelude.Maps.{Eq}
use reclient.Compare.{
  Determinism, deterministic, non_deterministic, remote_non_deterministic, compare_values,
  same_first,
}

module _ {ℓ} {A : Type ℓ} ⦃e : Eq A⦄ (local remote : List A) (local_reruns remote_reruns : ℕ) where
  abbrev status : Determinism
  status = (compare_values local remote local_reruns remote_reruns).0

  -- The two statuses for several values, exactly: several values on the remote side
  -- against one local value; several values otherwise.
  pub several_values_iff :
      ((status ≡ remote_non_deterministic) ↔ ((length local ≡ 1) × (1 < length remote)))
      × ((status ≡ non_deterministic)
          ↔ ((length local ≢ 1) × ((1 < length local) ⊎ (1 < length remote))))
  unfolding compare_values
  several_values_iff = (ground arith, ground arith)

module _ {ℓ} {A : Type ℓ} ⦃e : Eq A⦄ where
  agree :
      (local remote : List A)
      → same_first local remote ≡ true
      → length local ≡ 1
      → length remote ≡ 1
      → (x : A) × (local ≡ x ∷ []) × (remote ≡ x ∷ [])
  agree (x ∷ []) (y ∷ []) s l r = (x, refl, ap (λ z. z ∷ []) (sym ((e.beq_iff x y).0 s)))
  agree [] remote s l r = cc
  agree (x ∷ xs) [] s l r = cc
  agree (x ∷ (x' ∷ xs)) (y ∷ ys) s l r = absurd (omega arith)
  agree (x ∷ []) (y ∷ (y' ∷ ys)) s l r = absurd (omega arith)

  unlogged_shape :
      (local remote : List A) (m n : ℕ)
      → 0 < m
      → 0 < n
      → (compare_values local remote m n).1 ≡ false
      → (same_first local remote ≡ true) × (length local ≡ 1) × (length remote ≡ 1)
  unfolding compare_values
  unlogged_shape local remote m n hm hn h = ground arith

  agreeing : (x : A) (m n : ℕ) → compare_values (x ∷ []) (x ∷ []) m n ≡ (deterministic, false)
  unfolding compare_values
  agreeing x m n = ground (arith, e.beq_iff x x)

  -- With reruns on both sides, a comparison is left out of the log exactly when both sides have the
  -- same one value, and exactly then it is left out with the status "deterministic"; so it is never
  -- left out with another status.
  pub unlogged_iff :
      (local remote : List A) (m n : ℕ)
      → 0 < m
      → 0 < n
      → (((compare_values local remote m n).1 ≡ false)
          ↔ ((x : A) × (local ≡ x ∷ []) × (remote ≡ x ∷ [])))
        × ((compare_values local remote m n ≡ (deterministic, false))
            ↔ ((x : A) × (local ≡ x ∷ []) × (remote ≡ x ∷ [])))
  unlogged_iff local remote m n hm hn = (
    (
      λ h. let (s, l, r) = unlogged_shape local remote m n hm hn h in agree local remote s l r,
      λ (x, l, r). rw (l, r) (ap (λ p. p.1) (agreeing x m n)),
    ),
    (
      λ h.
          let (s, l, r) = unlogged_shape local remote m n hm hn (ap (λ p. p.1) h) in
          agree local remote s l r,
      λ (x, l, r). rw (l, r) (agreeing x m n),
    ),
  )
