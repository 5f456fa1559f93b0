-- ===== src/DepsCache/Runs.antt =====
-- A cache through a run of reproxy: loads, lookups, stores and writes in any order.
use reclient.Prelude.{ℕ, Option, none, some, List, [], ◌∷◌, arith, String}
use reclient.Prelude.Maps.{lookup, string_eq}
use reclient.DepsCache.{Key, key_eq, Cache, new_cache, get_deps, set_deps}
use reclient.DepsCache.Files.{Digests}
use reclient.DepsCache.Disk.{Database, load_from_dir, write_to_disk}
use reclient.DepsCache.Answers.{IsCurrent}
use reclient.DepsCache.Kept.{get_deps-IsCurrent, set_deps-IsCurrent}
use reclient.DepsCache.Loads.{AllCurrent, followed_by, load_from_dir-AllCurrent}

-- The calls of a run, with their times.
pub data Call : Type 0 where
  load_dir : Option Database → Call
  get : ℕ → Key → Call
  set : ℕ → Key → List String → Call
  write : Call

-- `none` is a panic.
unfoldable pub call : Digests → Call → Cache → Option Cache
call disk (load_dir db) c = load_from_dir db c
call disk (get now k) c = some (get_deps disk now c k).1
call disk (set now k deps) c = some (set_deps disk now c k deps).1
call disk write c = some (write_to_disk c).1

unfoldable pub calls : Digests → List Call → Cache → Option Cache
calls disk [] c = some c
calls disk (x ∷ xs) c = elim (call disk x c) [ none ↦ none | some d ↦ calls disk xs d ]

call-AllCurrent :
    (disk : Digests) (x : Call) (c : Cache)
    → IsCurrent disk c.files_cache
    → AllCurrent disk (call disk x c)
unfolding call write_to_disk
call-AllCurrent disk (load_dir db) c w = load_from_dir-AllCurrent disk db c w
call-AllCurrent disk (get now k) c w = get_deps-IsCurrent disk now c k w
call-AllCurrent disk (set now k deps) c w = set_deps-IsCurrent disk now c k deps w
call-AllCurrent disk write c w = w

calls-AllCurrent_from :
    (disk : Digests) (xs : List Call) (c : Cache)
    → IsCurrent disk c.files_cache
    → AllCurrent disk (calls disk xs c)
unfolding calls
calls-AllCurrent_from disk [] c w = w
calls-AllCurrent_from disk (x ∷ xs) c w =
    followed_by disk (call disk x c) (calls disk xs) (call-AllCurrent disk x c w)
      (calls-AllCurrent_from disk xs)

-- After any sequence of loads, lookups, stores and writes from a new cache, unless a load panics,
-- every file entry that is marked as of this run is the file's digest and time in this run.
pub calls-AllCurrent :
    (disk : Digests) (xs : List Call) (most : ℕ) (version : String)
    → AllCurrent disk (calls disk xs (new_cache most version))
unfolding new_cache lookup
calls-AllCurrent disk xs most version =
    calls-AllCurrent_from disk xs (new_cache most version) (λ p k h u. ground arith)
