-- ===== src/LruDisp/Shift.antt =====
-- The ages of the entries that are not accessed, where another one moves to the front.
use isptap.Prelude.{
  ℕ, ◌+◌, ◌^◌, ◌≤◌, ◌<◌, ◌≡◌, refl, Bool, some, arith, inl, inr, Bool-cases, ltb, leb, add32, ◌&&◌,
  ◌||◌, if◌then◌else◌,
}
use isptap.AbsSet.{AnalysisType, must, may}
use isptap.LruDisp.{
  check_function_intersection, get_intersectional_age, intersectional_age, shifted_age,
}

module _ (size f_age f_size age g_size : ℕ) (small : size < 2 ^ 31) (f_fits : f_age + f_size ≤ size)
    (g_fits : age + g_size ≤ size) where
  -- the two ranges intersect
  meets : Bool
  meets = leb age f_age && ltb f_age (age + g_size) || leb f_age age && ltb age (f_age + f_size)

  check_lem :
      check_function_intersection f_age (add32 f_age f_size) age (add32 age g_size) ≡ some meets
  unfolding check_function_intersection meets
  check_lem =
      let e : add32 f_age f_size ≡ f_age + f_size = omega (arith, small, f_fits) in
      let e' : add32 age g_size ≡ age + g_size = omega (arith, small, g_fits) in
      rw (e, e') (ground arith)

  shifted_lem :
      (t : AnalysisType)
      → shifted_age t f_age f_size age g_size
        ≡ some (
            if meets
            then intersectional_age t f_age f_size age g_size
            else if ltb age f_age
            then add32 age f_size
            else age)
  unfolding shifted_age get_intersectional_age
  shifted_lem t = elim (Bool-cases meets) [
    | inl e ↦ rw (check_lem, e) refl
    | inr e ↦ rw (check_lem, e) refl
  ]

  -- In a must set the new age bounds that of the function from above, and no entry has to go.
  pub shifted_must :
      (c_f c_g : ℕ)
      → f_size + g_size ≤ size
      → c_f ≤ f_age
      → c_g ≤ age
      → (n : ℕ) × (shifted_age must f_age f_size age g_size ≡ some n)
        × (n + g_size ≤ size)
        × (c_g + g_size ≤ c_f → c_g + f_size ≤ n)
        × (c_g ≤ n)
  unfolding meets intersectional_age
  shifted_must c_f c_g both hf hg =
      (_, shifted_lem must, ground arith, λ h. ground arith, ground arith)

  -- In a may set it bounds the age from below.
  pub shifted_may :
      (n : ℕ) × (shifted_age may f_age f_size age g_size ≡ some n)
      × (n ≤ age + f_size)
      × ((c_g : ℕ) → age ≤ c_g → n ≤ c_g + f_size)
      × ((c_f c_g : ℕ) → age ≤ c_g → f_age ≤ c_f → c_f + f_size ≤ c_g → n ≤ c_g)
  unfolding meets intersectional_age
  shifted_may =
      (_, shifted_lem may, ground arith, λ c_g h. ground arith, λ c_f c_g h k l. ground arith)
