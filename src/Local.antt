-- ===== src/Local.antt =====
-- internal/pkg/localresources/manager.go and reproxy/localexec.go: the CPUs and the memory that
-- local runs take. The weighted semaphore of the library is an interface. Weights are numbers: no
-- caller asks for a negative amount.
pub mod Locks
use reclient.Prelude.{
  ℕ, suc, ◌+◌, ◌≤◌, ◌≡◌, Bool, true, false, ◌||◌, String, Option, none, some, List, [], ◌∷◌, ltb,
  is_some, if◌then◌else◌,
}
use reclient.Prelude.Maps.{Map, lookup}
use reclient.Labels.{Labels, from_map}
use reclient.Labels.Kinds.{
  labels_eq, metalava_labels, javac_labels, r8_labels, d8_labels, clang_link_labels,
}

-- A semaphore by what is held of it. An acquisition that is cancelled while it waits is `none`, and
-- so is a release of more than is held, which panics.
pub record Semaphores : Type 1 where
  pub Weighted : Type 0
  pub new_weighted : ℕ → Weighted
  pub held : Weighted → ℕ
  pub acquire : Weighted → ℕ → Option Weighted
  pub release : Weighted → ℕ → Option Weighted
  pub new_held : (n : ℕ) → held (new_weighted n) ≡ 0
  pub acquired : (s t : Weighted) (n : ℕ) → acquire s n ≡ some t → held t ≡ held s + n
  pub released : (s t : Weighted) (n : ℕ) → release s n ≡ some t → held t + n ≡ held s
  pub releases : (s : Weighted) (n : ℕ) → n ≤ held s → is_some (release s n) ≡ true

-- min and max of manager.go
unfoldable pub lesser : ℕ → ℕ → ℕ
lesser a b = if ltb a b then a else b

unfoldable pub greater : ℕ → ℕ → ℕ
greater a b = if ltb b a then a else b

module _ (S : Semaphores) where
  pub record Manager : Type 0 where
    pub cpus : S.Weighted
    pub ram : S.Weighted
    pub total_cpus : ℕ
    pub total_ram_mbs : ℕ

  -- NewManager
  unfoldable pub new_manager : ℕ → ℕ → Manager
  new_manager cpus ram_mbs = record {
    cpus = S.new_weighted (greater 1 cpus);
    ram = S.new_weighted (greater 1 ram_mbs);
    total_cpus = greater 1 cpus;
    total_ram_mbs = greater 1 ram_mbs;
  }

  -- the request, where it is more than there is
  unfoldable pub capped : Manager → ℕ → ℕ → ℕ × ℕ
  capped m cpus ram_mbs =
      if ltb m.total_cpus cpus || ltb m.total_ram_mbs ram_mbs
      then (lesser cpus m.total_cpus, lesser ram_mbs m.total_ram_mbs)
      else (cpus, ram_mbs)

  -- how Lock ends: with what is to be released, with an error, or in a panic
  pub data Lock : Type 0 where
    locked : Manager → ℕ × ℕ → Lock
    cancelled : Manager → Lock
    panicked : Lock

  unfoldable pub after_release : Manager → Option S.Weighted → Lock
  after_release m none = panicked
  after_release m (some cpus) = cancelled (record m { cpus = cpus })

  unfoldable pub with_ram : Manager → ℕ × ℕ → Option S.Weighted → Lock
  with_ram m (c, r) none = after_release m (S.release m.cpus c)
  with_ram m (c, r) (some ram) = locked (record m { ram = ram }) (c, r)

  unfoldable pub with_cpus : Manager → ℕ × ℕ → Option S.Weighted → Lock
  with_cpus m (c, r) none = cancelled m
  with_cpus m (c, r) (some cpus) = with_ram (record m { cpus = cpus }) (c, r) (S.acquire m.ram r)

  -- Lock, of a manager that is not nil; Lock of none locks nothing
  unfoldable pub lock : Manager → ℕ → ℕ → Lock
  lock m cpus ram_mbs =
      let (c, r) = capped m cpus ram_mbs in with_cpus m (c, r) (S.acquire m.cpus c)

  unfoldable pub release_ram : Manager → ℕ → Option S.Weighted → Option Manager
  release_ram m r none = none
  release_ram m r (some cpus) = elim (S.release m.ram r) [
    | none ↦ none
    | some ram ↦ some (record m { cpus = cpus; ram = ram })
  ]

  -- the function that Lock returns; `none` is a panic
  unfoldable pub unlock : Manager → ℕ × ℕ → Option Manager
  unlock m (c, r) = release_ram m r (S.release m.cpus c)

pub record Reqs : Type 0 where
  pub cpus : ℕ
  pub ram_mbs : ℕ

abbrev pub default_reqs : Reqs
default_reqs = record { cpus = 1; ram_mbs = 512 }

abbrev pub lbl_reqs : Map Labels Reqs
lbl_reqs =
    (metalava_labels, record { cpus = 8; ram_mbs = 8192 })
    ∷ ((javac_labels, record { cpus = 8; ram_mbs = 4096 })
        ∷ ((r8_labels, record { cpus = 8; ram_mbs = 4096 })
            ∷ ((d8_labels, record { cpus = 8; ram_mbs = 4096 })
                ∷ ((clang_link_labels, record { cpus = 1; ram_mbs = 8192 }) ∷ []))))

abbrev pub or_default : Option Reqs → Reqs
or_default none = default_reqs
or_default (some r) = r

-- what Run of a LocalPool asks for
unfoldable pub requirements : Map String String → Reqs
requirements lbls = or_default (lookup (from_map lbls) lbl_reqs)
