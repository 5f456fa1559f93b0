-- ===== src/Tests/Pools.antt =====
-- Local resources at concrete inputs.
use reclient.Prelude.{
  ℕ, ◌+◌, ◌-◌, ◌≤◌, ◌≡◌, refl, true, Option, none, some, leb, is_some, if◌then◌else◌, arith,
}
use reclient.Local.{Semaphores, Manager, lock, unlock, Reqs}
use reclient.Local.Locks.{LockEnds, Holds, lock-LockEnds, unlock_lem}

-- A semaphore by its size and what is held of it.
abbrev sized_acquire : ℕ × ℕ → ℕ → Option (ℕ × ℕ)
sized_acquire (size, held) n = if leb (held + n) size then some (size, held + n) else none

abbrev sized_release : ℕ × ℕ → ℕ → Option (ℕ × ℕ)
sized_release (size, held) n = if leb n held then some (size, held - n) else none

sized_acquired : (s t : ℕ × ℕ) (n : ℕ) → sized_acquire s n ≡ some t → t.1 ≡ s.1 + n
sized_acquired (size, held) (size', held') n h = ground arith

sized_released : (s t : ℕ × ℕ) (n : ℕ) → sized_release s n ≡ some t → t.1 + n ≡ s.1
sized_released (size, held) (size', held') n h = ground arith

sized_releases : (s : ℕ × ℕ) (n : ℕ) → n ≤ s.1 → is_some (sized_release s n) ≡ true
sized_releases (size, held) n h = ground arith

abbrev sized : Semaphores
sized = record {
  Weighted = ℕ × ℕ;
  new_weighted = λ n. (n, 0);
  held = λ s. s.1;
  acquire = sized_acquire;
  release = sized_release;
  new_held = λ n. refl;
  acquired = sized_acquired;
  released = sized_released;
  releases = sized_releases;
}

abbrev small_machine : Manager sized
small_machine = record { cpus = (4, 1); ram = (2048, 512); total_cpus = 4; total_ram_mbs = 2048 }

lock-LockEnds_example : LockEnds sized small_machine 8 8192 (lock sized small_machine 8 8192)
lock-LockEnds_example = lock-LockEnds sized small_machine 8 8192

unlock_lem_example :
    (m : Manager sized) × (unlock sized small_machine (1, 512) ≡ some m)
    × Holds sized m small_machine (1, 512)
unlock_lem_example = unlock_lem sized small_machine 1 512 (omega arith) (omega arith)

abbrev large : Reqs
large = record { cpus = 8; ram_mbs = 4096 }
