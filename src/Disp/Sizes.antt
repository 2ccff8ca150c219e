-- ===== src/Disp/Sizes.antt =====
-- The sizes of functions in memory.
use isptap.Prelude.{
  ℕ, ◌+◌, ◌*◌, ◌/◌, ◌%◌, ◌^◌, ◌≤◌, ◌<◌, ◌≡◌, ◌≢◌, some, none, arith, Bool-cases, inl, inr, ◌==◌,
  suc, sym, if◌then◌else◌,
}
use native.Mathlib.Nat.{mul-mod_left, mod-lt, div-add-mod'}
use isptap.Disp.{DispParams, get_function_size, block_round_up, get_function_mem_size}

round_up :
    (b q r f : ℕ)
    → f ≡ q * b + r
    → r < b
    → f + b ≤ 2 ^ 32
    → (s : ℕ) × ((q * b + (if r == 0 then 0 else b)) % 2 ^ 32 ≡ s)
      × (s % b ≡ 0)
      × (f ≤ s)
      × (s < f + b)
round_up b q r f e h bound = elim (Bool-cases (r == 0)) [
  | inl z ↦ (q * b, rw z (omega (arith, e)), mul-mod_left q b, ground arith, omega (arith, e))
  | inr n ↦ (suc q * b, ground (arith, e, n), mul-mod_left (suc q) b, ground arith, ground arith)
]

-- A function with a size takes the least number of whole blocks that it fits in, where this number
-- of bytes is a uint32_t; a function without a size fails the assertion.
pub get_function_mem_size_lem :
    (p : DispParams) (addr : ℕ)
    → 0 < p.block_size
    → get_function_size addr p.functions + p.block_size ≤ 2 ^ 32
    → ((get_function_size addr p.functions ≡ 0) → get_function_mem_size p addr ≡ none)
      × ((get_function_size addr p.functions ≢ 0)
          → (s : ℕ) × (get_function_mem_size p addr ≡ some s)
            × (s % p.block_size ≡ 0)
            × (get_function_size addr p.functions ≤ s)
            × (s < get_function_size addr p.functions + p.block_size))
unfolding block_round_up get_function_mem_size
get_function_mem_size_lem p addr pos bound = (
  λ e. rw e,
  λ n.
      let f = get_function_size addr p.functions in
      let (s, e, dvd, low, high) =
        round_up p.block_size (f / p.block_size) (f % p.block_size) f
          (sym (div-add-mod' f p.block_size)) (mod-lt f pos) bound in
      (s, ground (arith, e), dvd, low, high),
)
