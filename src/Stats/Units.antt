-- ===== src/Stats/Units.antt =====
-- The numbers of bytes for people: which unit is chosen, and where the units end.
use reclient.Prelude.{
  ℕ, zero, suc, ◌+◌, ◌^◌, ◌<◌, ◌≤◌, ◌≡◌, ◌↔◌, leb, leb→le, none, get_elem?, inl, inr, Bool-cases,
  arith,
}
use reclient.Prelude.Int.{pos, half64}
use reclient.Stats.Bandwidth.{unit_of, human_readable_bytes, bw_unit_reps, with_unit}

units_end : (n : ℕ) → n < half64 → (human_readable_bytes (pos n) ≡ none) ↔ (1000000000000000 ≤ n)
unfolding human_readable_bytes unit_of
units_end n h = ground arith

pow-large : (k : ℕ) → 7 ≤ k → half64 ≤ 1000 ^ k
pow-large zero h = absurd (omega arith)
pow-large (suc k) h = elim (Bool-cases (leb 7 k)) [
  | inl more ↦ omega (arith, pow-large k (leb→le 7 k more))
  | inr seven ↦ let same : k ≡ 6 = ground arith in rw same (omega arith)
]

in_kilo :
    (n : ℕ)
    → 1000 ≤ n
    → n < 1000000
    → human_readable_bytes (pos n) ≡ with_unit n 1000 (get_elem? bw_unit_reps 0)
unfolding human_readable_bytes unit_of
in_kilo n h k = ground arith

in_mega :
    (n : ℕ)
    → 1000000 ≤ n
    → n < 1000000000
    → human_readable_bytes (pos n) ≡ with_unit n 1000000 (get_elem? bw_unit_reps 1)
unfolding human_readable_bytes unit_of
in_mega n h k = ground arith

in_giga :
    (n : ℕ)
    → 1000000000 ≤ n
    → n < 1000000000000
    → human_readable_bytes (pos n) ≡ with_unit n 1000000000 (get_elem? bw_unit_reps 2)
unfolding human_readable_bytes unit_of
in_giga n h k = ground arith

in_tera :
    (n : ℕ)
    → 1000000000000 ≤ n
    → n < 1000000000000000
    → human_readable_bytes (pos n) ≡ with_unit n 1000000000000 (get_elem? bw_unit_reps 3)
unfolding human_readable_bytes unit_of
in_tera n h k = ground arith

in_peta :
    (n : ℕ)
    → 1000000000000000 ≤ n
    → n < 1000000000000000000
    → human_readable_bytes (pos n) ≡ with_unit n 1000000000000000 (get_elem? bw_unit_reps 4)
unfolding human_readable_bytes unit_of
in_peta n h k = ground arith

in_exa :
    (n : ℕ)
    → 1000000000000000000 ≤ n
    → n < 1000000000000000000000
    → human_readable_bytes (pos n) ≡ with_unit n 1000000000000000000 (get_elem? bw_unit_reps 5)
unfolding human_readable_bytes unit_of
in_exa n h k = ground arith

-- A number of bytes from 1000 ^ (i + 1) to below 1000 ^ (i + 2) is shown divided by 1000 ^ (i + 1)
-- and with the unit at index i of K, M, G and T; there is no unit, and the call panics, from
-- 1000 ^ 5 on.
pub human_readable_bytes_lem :
    (n i : ℕ)
    → n < half64
    → 1000 ^ (i + 1) ≤ n
    → n < 1000 ^ (i + 2)
    → (human_readable_bytes (pos n) ≡ with_unit n (1000 ^ (i + 1)) (get_elem? bw_unit_reps i))
      × ((human_readable_bytes (pos n) ≡ none) ↔ (1000 ^ 5 ≤ n))
human_readable_bytes_lem n zero h lo hi = (in_kilo n lo hi, units_end n h)
human_readable_bytes_lem n (suc zero) h lo hi = (in_mega n lo hi, units_end n h)
human_readable_bytes_lem n (suc (suc zero)) h lo hi = (in_giga n lo hi, units_end n h)
human_readable_bytes_lem n (suc (suc (suc zero))) h lo hi = (in_tera n lo hi, units_end n h)
human_readable_bytes_lem n (suc (suc (suc (suc zero)))) h lo hi = (in_peta n lo hi, units_end n h)
human_readable_bytes_lem n (suc (suc (suc (suc (suc zero))))) h lo hi =
    (in_exa n lo hi, units_end n h)
human_readable_bytes_lem n (suc (suc (suc (suc (suc (suc j)))))) h lo hi =
    absurd (omega (arith, pow-large (suc (suc (suc (suc (suc (suc j))))) + 1) (omega arith)))
