-- ===== src/MemoryParams/Powers.antt =====
-- isPowerOfTwo and log2 against the powers of two.
use isptap.Prelude.{
  ℕ, zero, suc, ◌+◌, ◌*◌, ◌/◌, ◌%◌, ◌^◌, ◌<◌, ◌≤◌, ◌≡◌, ◌↔◌, refl, Bool, true, false, some, ltb,
  ◌==◌, ◌>>◌, check, arith, Bool-cases, inl, inr, sym, ◌∙◌, ap, dec_lt, some_injective, ◌-◌,
}
use isptap.MemoryParams.{shift_zeros, is_power_of_two, log2}

half : (k : ℕ) → (2 ^ suc k / 2 ≡ 2 ^ k) × (2 ^ suc k % 2 ≡ 0) × (0 < 2 ^ k)
half zero = (refl, refl, omega arith)
half (suc k) =
    let h = half k in
    let e : 2 ^ suc (suc k) ≡ 2 * 2 ^ suc k = omega arith in
    (omega (arith, e), omega (arith, e), omega (arith, h.2))

shift_power : (n k : ℕ) → k < n → shift_zeros n (2 ^ k) ≡ (1, k)
unfolding shift_zeros
shift_power zero k h = absurd (omega arith)
shift_power (suc n) zero h = refl
shift_power (suc n) (suc k) h = let w = half k in rw (w.0, w.1, shift_power n k (omega arith)) refl

double : (i j : ℕ) → i * 2 ^ suc j ≡ 2 * (i * 2 ^ j)
double i j = let e : 2 ^ suc j ≡ 2 * 2 ^ j = omega arith in grind (arith, e)

large : (d : ℕ) → 2 ^ 32 ≤ 2 ^ (d + 32)
large zero = omega arith
large (suc d) =
    let e : 2 ^ suc (d + 32) ≡ 2 * 2 ^ (d + 32) = omega arith in
    let e' : suc d + 32 ≡ suc (d + 32) = omega arith in
    omega (arith, e, ap (λ x. 2 ^ x) e', large d)

exponent : (k : ℕ) → 2 ^ k < 2 ^ 32 → k < 32
exponent k h = elim (dec_lt k 32) [
  | yes l ↦ l
  | no n ↦
      let e : k - 32 + 32 ≡ k = omega arith in
      absurd (omega (arith, h, large (k - 32), ap (λ x. 2 ^ x) e))
]

shift_back : (n number : ℕ) → (shift_zeros n number).0 * 2 ^ (shift_zeros n number).1 ≡ number
unfolding shift_zeros
shift_back zero number = omega arith
shift_back (suc n) number = elim (Bool-cases (number % 2 == 0)) [
  | inl even ↦
      let r = shift_back n (number / 2) in
      let j = (shift_zeros n (number / 2)).1 in
      let i = (shift_zeros n (number / 2)).0 in rw even (double i j ∙ ground (arith, r))
  | inr odd ↦ rw odd (omega arith)
]

test_one : (b : Bool) (i : ℕ) → b ≡ true → (check b >> some (i == 1)) ≡ some true → i ≡ 1
test_one true i h e = ground (arith, some_injective e)
test_one false i h e = cc

-- `isPowerOfTwo` answers `true` for a positive uint32_t exactly where it is a power of two, whose
-- exponent `log2` then returns.
pub log2_lem :
    (number : ℕ)
    → 0 < number
    → number < 2 ^ 32
    → ((is_power_of_two number ≡ some true) ↔ ((k : ℕ) × (number ≡ 2 ^ k)))
      × ((k : ℕ) → number ≡ 2 ^ k → log2 number ≡ some k)
unfolding is_power_of_two log2
log2_lem number pos h =
    let positive : ltb 0 number ≡ true = ground arith in
    let power : (k : ℕ) → number ≡ 2 ^ k → shift_zeros 32 number ≡ (1, k) =
      λ k e. ap (shift_zeros 32) e ∙ shift_power 32 k (exponent k (omega (arith, e, h))) in
    (
      (
        λ e.
            let one : (shift_zeros 32 number).0 ≡ 1 =
              test_one (ltb 0 number) (shift_zeros 32 number).0 positive e in
            (
              (shift_zeros 32 number).1,
              sym (shift_back 32 number)
                  ∙ ap (λ i. i * 2 ^ (shift_zeros 32 number).1) one
                  ∙ omega arith,
            ),
        λ w. rw (positive, power w.0 w.1) refl,
      ),
      λ k e. rw (positive, power k e) refl,
    )
