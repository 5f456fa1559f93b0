-- ===== src/Local/Locks.antt =====
-- Locking takes what it says, and gives it back.
use reclient.Prelude.{
  ℕ, ◌+◌, ◌≤◌, ◌≡◌, ◌∙◌, refl, ap, sym, true, false, Option, none, some, min, arith, Option-cases,
  inl, inr,
}
use reclient.Local.{
  Semaphores, lesser, Manager, capped, Lock, locked, cancelled, panicked, after_release, with_ram,
  with_cpus, lock, release_ram, unlock,
}

module _ (S : Semaphores) where
  abbrev pub Holds : Manager S → Manager S → ℕ × ℕ → Type 0
  Holds m n p =
      (S.held n.cpus ≡ S.held m.cpus + p.0)
      × (S.held n.ram ≡ S.held m.ram + p.1)
      × (n.total_cpus ≡ m.total_cpus)
      × (n.total_ram_mbs ≡ m.total_ram_mbs)

  -- What a lock makes of a manager: the weights, no more than there is, are held in addition; or
  -- after a cancellation nothing is.
  abbrev pub LockEnds : Manager S → ℕ → ℕ → Lock S → Type 0
  LockEnds m cpus ram_mbs (locked n p) =
      (p ≡ (min cpus m.total_cpus, min ram_mbs m.total_ram_mbs)) × Holds m n p
  LockEnds m cpus ram_mbs (cancelled n) = Holds m n (0, 0)
  LockEnds m cpus ram_mbs panicked = true ≡ false

  capped_lem :
      (m : Manager S) (c r : ℕ) → capped S m c r ≡ (min c m.total_cpus, min r m.total_ram_mbs)
  unfolding capped lesser
  capped_lem m c r = ground arith

  after_release-LockEnds :
      (m n : Manager S) (cpus ram_mbs c : ℕ) (o : Option S.Weighted)
      → S.release n.cpus c ≡ o
      → S.held n.cpus ≡ S.held m.cpus + c
      → n.ram ≡ m.ram
      → n.total_cpus ≡ m.total_cpus
      → n.total_ram_mbs ≡ m.total_ram_mbs
      → LockEnds m cpus ram_mbs (after_release S n o)
  unfolding after_release
  after_release-LockEnds m n cpus ram_mbs c none e h a c_same r_same =
      grind (arith, S.releases n.cpus c (omega (arith, h)))
  after_release-LockEnds m n cpus ram_mbs c (some s) e h a c_same r_same =
      (omega (arith, S.released n.cpus s c e, h), grind (arith, a), c_same, r_same)

  with_ram-LockEnds :
      (m n : Manager S) (cpus ram_mbs : ℕ) (p : ℕ × ℕ) (o : Option S.Weighted)
      → S.acquire n.ram p.1 ≡ o
      → p ≡ (min cpus m.total_cpus, min ram_mbs m.total_ram_mbs)
      → S.held n.cpus ≡ S.held m.cpus + p.0
      → n.ram ≡ m.ram
      → n.total_cpus ≡ m.total_cpus
      → n.total_ram_mbs ≡ m.total_ram_mbs
      → LockEnds m cpus ram_mbs (with_ram S n p o)
  unfolding with_ram
  with_ram-LockEnds m n cpus ram_mbs (c, r) none e w h a c_same r_same =
      after_release-LockEnds m n cpus ram_mbs c (S.release n.cpus c) refl h a c_same r_same
  with_ram-LockEnds m n cpus ram_mbs (c, r) (some s) e w h a c_same r_same =
      (w, (h, S.acquired n.ram s r e ∙ ap (λ x. S.held x + r) a, c_same, r_same))

  with_cpus-LockEnds :
      (m : Manager S) (cpus ram_mbs : ℕ) (p : ℕ × ℕ) (o : Option S.Weighted)
      → S.acquire m.cpus p.0 ≡ o
      → p ≡ (min cpus m.total_cpus, min ram_mbs m.total_ram_mbs)
      → LockEnds m cpus ram_mbs (with_cpus S m p o)
  unfolding with_cpus
  with_cpus-LockEnds m cpus ram_mbs (c, r) none e w = (omega arith, omega arith, refl, refl)
  with_cpus-LockEnds m cpus ram_mbs (c, r) (some s) e w =
      with_ram-LockEnds m (record m { cpus = s }) cpus ram_mbs (c, r) (S.acquire m.ram r) refl w
        (S.acquired m.cpus s c e) refl refl refl

  -- A lock never panics. If it succeeds, the weights that it hands out are the request, capped to
  -- what there is, and exactly they are held in addition; if it is cancelled, waiting for CPUs or
  -- for memory, as much is held as before. The totals stay.
  pub lock-LockEnds :
      (m : Manager S) (cpus ram_mbs : ℕ) → LockEnds m cpus ram_mbs (lock S m cpus ram_mbs)
  unfolding lock
  lock-LockEnds m cpus ram_mbs =
      let p = capped S m cpus ram_mbs in
      with_cpus-LockEnds m cpus ram_mbs p (S.acquire m.cpus p.0) refl (capped_lem m cpus ram_mbs)

  some_release :
      (s : S.Weighted) (k : ℕ) → k ≤ S.held s → (t : S.Weighted) × (S.release s k ≡ some t)
  some_release s k h = elim (Option-cases (S.release s k)) [
    | inl e ↦ grind (arith, S.releases s k h)
    | inr (t, e) ↦ (t, e)
  ]

  -- Giving back weights of which as much is held does not panic, and exactly these weights are held
  -- no more afterwards. The totals stay.
  pub unlock_lem :
      (n : Manager S) (c r : ℕ)
      → c ≤ S.held n.cpus
      → r ≤ S.held n.ram
      → (m : Manager S) × (unlock S n (c, r) ≡ some m) × Holds m n (c, r)
  unfolding unlock release_ram
  unlock_lem n c r hc hr =
      let (cpus, ec) = some_release n.cpus c hc in
      let (ram, er) = some_release n.ram r hr in
      (
        record n { cpus = cpus; ram = ram },
        ap (release_ram S n r) ec
            ∙ ap (λ o. elim o [ none ↦ none | some x ↦ some (record n { cpus = cpus; ram = x }) ])
                er,
        (sym (S.released n.cpus cpus c ec), sym (S.released n.ram ram r er), refl, refl),
      )
