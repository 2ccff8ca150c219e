-- ===== src/MemoryParams.antt =====
-- src/memory/memory_params.cpp: the tests on sizes, isPowerOfTwo and log2.
use isptap.Prelude.{
  ℕ, zero, suc, ◌+◌, ◌/◌, ◌%◌, Bool, true, false, Option, none, some, ltb, ◌==◌, if◌then◌else◌,
  ◌>>=◌, ◌>>◌, check, ◌&&◌,
}
pub mod Powers
mod Tests

-- The loop that shifts the lower zeros out, with the number of shifts; each round halves the number, so
-- that 32 rounds are enough for a positive uint32_t.
unfoldable pub shift_zeros : ℕ → ℕ → ℕ × ℕ
shift_zeros zero number = (number, 0)
shift_zeros (suc n) number =
    let rest = shift_zeros n (number / 2) in
    if number % 2 == 0 then (rest.0, suc rest.1) else (number, 0)

-- The assertion fails for 0.
unfoldable pub is_power_of_two : ℕ → Option Bool
unfolding shift_zeros
is_power_of_two number = do check (ltb 0 number); some ((shift_zeros 32 number).0 == 1)

-- The assertion fails for a number that is no power of two.
unfoldable pub log2 : ℕ → Option ℕ
unfolding is_power_of_two shift_zeros
log2 number = do
  check (ltb 0 number)
  power ← is_power_of_two number
  check power
  some (shift_zeros 32 number).1
