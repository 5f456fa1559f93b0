-- ===== src/DepsScanner/Lifecycle.antt =====
-- When stopping and restarting the dependency scanner's service succeeds.
use reclient.Prelude.{ℕ, ◌+◌, ◌<◌, ◌≤◌, ◌≡◌, true, false, is_some}
use reclient.DepsScanner.Service.{World}

-- One of the 10 calls answers before the context is done.
abbrev pub Connects : World → Type 0
Connects w = (i : ℕ) × (i < 10) × (w.context_done i ≡ false) × (is_some (w.answer i) ≡ true)

-- from the attempt i on, fuel many
abbrev ConnectsFrom : World → ℕ → ℕ → Type 0
ConnectsFrom w fuel i =
    (j : ℕ) × (i ≤ j) × (j < i + fuel) × (w.context_done j ≡ false) × (is_some (w.answer j) ≡ true)
