-- ===== src/LruDisp/Concrete.antt =====
-- The scratchpad that the analysis is about: its functions, the most recently used first.
use isptap.Prelude.{
  ℕ, ◌+◌, ◌-◌, ◌≤◌, ◌≡◌, ◌≢◌, ◌↔◌, ◌⊎◌, refl, true, false, List, [], ◌∷◌, ltb, ◌==◌, if◌then◌else◌,
  arith,
}
use isptap.FifoCache.{in_content}
use isptap.LruCache.Concrete.{remove}
use isptap.Disp.{DispParams}
use isptap.FifoDisp.Sizes.{mem_size, total, fit}

module _ (p : DispParams) where
  -- The policy: the function comes to the front, and the last ones go that do not fit; a function that
  -- is larger than the memory is not loaded.
  unfoldable pub lru_activate : ℕ → List ℕ → List ℕ
  lru_activate f c = if ltb p.size (mem_size p f) then c else fit p p.size (f ∷ remove f c)

  -- the bytes of the functions before `g`
  unfoldable pub before : ℕ → List ℕ → ℕ
  before g [] = 0
  before g (f ∷ c) = if f == g then 0 else mem_size p f + before g c

  pub in_content-fit :
      (g room : ℕ) (l : List ℕ)
      → (in_content g (fit p room l) ≡ true)
        ↔ ((in_content g l ≡ true) × (before g l + mem_size p g ≤ room))
  unfolding in_content fit before
  in_content-fit g room [] = (λ h. cc, λ h. cc)
  in_content-fit g room (f ∷ l) =
      let r = in_content-fit g (room - mem_size p f) l in
      (λ h. ground (arith, r.0), λ h. ground (arith, r.1))

  pub before-fit :
      (g room : ℕ) (l : List ℕ)
      → in_content g (fit p room l) ≡ true
      → before g (fit p room l) ≡ before g l
  unfolding in_content fit before
  before-fit g room [] h = refl
  before-fit g room (f ∷ l) h = ground (arith, before-fit g (room - mem_size p f) l)

  pub in_content-remove :
      (f g : ℕ) (c : List ℕ) → g ≢ f → in_content g (remove f c) ≡ in_content g c
  unfolding in_content remove
  in_content-remove f g [] n = refl
  in_content-remove f g (x ∷ c) n = ground (arith, in_content-remove f g c n)

  -- Of two loaded functions one lies before the other, as a whole; taking out the first moves the second.
  pub before-remove :
      (f g : ℕ) (c : List ℕ)
      → g ≢ f
      → in_content g c ≡ true
      → ((in_content f c ≡ true)
          × (before g c + mem_size p g ≤ before f c)
          × (before g (remove f c) ≡ before g c))
        ⊎ ((in_content f c ≡ true)
            × (before f c + mem_size p f ≤ before g c)
            × (before g (remove f c) + mem_size p f ≡ before g c))
        ⊎ ((in_content f c ≡ false) × (before g (remove f c) ≡ before g c))
  unfolding in_content remove before
  before-remove f g [] n h = cc
  before-remove f g (x ∷ c) n h = ground (arith, before-remove f g c n)

  pub before-le :
      (g : ℕ) (c : List ℕ) → in_content g c ≡ true → before g c + mem_size p g ≤ total p c
  unfolding in_content before total
  before-le g [] h = cc
  before-le g (x ∷ c) h = ground (arith, before-le g c)
