-- ===== src/MemoryParams/Tests.antt =====
-- The tests on sizes at concrete values.
use isptap.Prelude.{ℕ, ◌^◌, ◌≡◌, ◌↔◌, refl, true, false, some, none, arith}
use isptap.MemoryParams.{shift_zeros, is_power_of_two, log2}
use isptap.MemoryParams.Powers.{log2_lem}

log2_runs :
    (log2 64 ≡ some 6) × (log2 48 ≡ none) × (log2 0 ≡ none) × (is_power_of_two 48 ≡ some false)
unfolding shift_zeros is_power_of_two log2
log2_runs = (refl, refl, refl, refl)

log2_lem_example :
    ((is_power_of_two 64 ≡ some true) ↔ ((k : ℕ) × (64 ≡ 2 ^ k)))
    × ((k : ℕ) → 64 ≡ 2 ^ k → log2 64 ≡ some k)
log2_lem_example = log2_lem 64 (omega arith) (omega arith)
