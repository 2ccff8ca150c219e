-- ===== src/StackDisp/Evict.antt =====
-- What `evictFunctionsInRange` keeps after a function is inserted.
use isptap.Prelude.{
  ℕ, ◌≡◌, ◌≢◌, ◌↔◌, refl, Bool, true, false, ◌&&◌, not, List, [], ◌∷◌, some, if◌then◌else◌, ◌==◌,
  arith, inl, inr, Bool-cases, All, AnyOf, sym,
}
use isptap.StackDisp.{
  StackEntry, check_function_intersection, touches_end, range, evict_functions_in_range,
}
use isptap.StackDisp.Overlap.{Placed, Apart}

-- The function of `new` has no other entry.
abbrev pub Fresh : StackEntry → List StackEntry → Type 0
Fresh new = All (λ g. g.address ≢ new.address)

module _ (mem_size : ℕ) where
  -- Entries in the memory, no two of which overlap or are of one function.
  abbrev pub Laid : List StackEntry → Type 0
  Laid [] = Unit {0}
  Laid (e ∷ l) =
      Placed mem_size e × All (λ g. Apart mem_size e g × (e.address ≢ g.address)) l × Laid l

  -- `e` is overwritten by `new`.
  abbrev pub overwritten : StackEntry → StackEntry → Bool
  overwritten new e =
      not (e.address == new.address) && check_function_intersection mem_size (range new) (range e)

  unfoldable pub kept : StackEntry → List StackEntry → List StackEntry
  kept new [] = []
  kept new (e ∷ l) = if overwritten new e then kept new l else e ∷ kept new l

  pub evict_lem :
      (new : StackEntry) (l : List StackEntry)
      → All (λ g. overwritten new g ≡ true → touches_end mem_size (range new) (range g) ≡ true) l
      → (b : Bool) × (evict_functions_in_range mem_size new l ≡ some (kept new l, b))
  unfolding evict_functions_in_range kept
  evict_lem new [] h = (false, refl)
  evict_lem new (e ∷ l) h =
      let (b, q) = evict_lem new l h.1 in
      elim (Bool-cases (overwritten new e)) [
        | inl o ↦ (true, rw (o, h.0 o, q) refl)
        | inr o ↦ (b, rw (o, q) refl)
      ]

  kept-All :
      (P : StackEntry → Type 0) (new : StackEntry) (l : List StackEntry)
      → All P l
      → All P (kept new l)
  unfolding kept
  kept-All P new [] h = tt
  kept-All P new (e ∷ l) h = elim (Bool-cases (overwritten new e)) [
    | inl o ↦ rw o (kept-All P new l h.1)
    | inr o ↦ rw o (h.0, kept-All P new l h.1)
  ]

  pub kept-Laid : (new : StackEntry) (l : List StackEntry) → Laid l → Laid (kept new l)
  unfolding kept
  kept-Laid new [] h = tt
  kept-Laid new (e ∷ l) h = elim (Bool-cases (overwritten new e)) [
    | inl o ↦ rw o (kept-Laid new l h.2)
    | inr o ↦ rw o (h.0, kept-All _ new l h.1, kept-Laid new l h.2)
  ]

  pub kept-Apart :
      (new : StackEntry) (l : List StackEntry)
      → Fresh new l
      → All (λ g. Apart mem_size new g × (new.address ≢ g.address)) (kept new l)
  unfolding kept
  kept-Apart new [] h = tt
  kept-Apart new (e ∷ l) h = elim (Bool-cases (overwritten new e)) [
    | inl o ↦ rw o (kept-Apart new l h.1)
    | inr o ↦ rw o ((ground (arith, h.0), λ q. h.0 (sym q)), kept-Apart new l h.1)
  ]

  pub kept_iff :
      (new : StackEntry) (l : List StackEntry)
      → Fresh new l
      → (e : StackEntry)
      → AnyOf (λ g. g ≡ e) (kept new l) ↔ (AnyOf (λ g. g ≡ e) l × Apart mem_size new e)
  unfolding kept
  kept_iff new [] h e = (λ k. absurd k, λ k. absurd k.0)
  kept_iff new (g ∷ l) h e =
      let r = kept_iff new l h.1 e in
      elim (Bool-cases (overwritten new g)) [
        | inl o ↦ rw o (λ k. let w = r.0 k in (inr w.0, w.1), λ k. drop r.1 o k.0 k.1)
        | inr o ↦ rw o (from r.0 (ground (arith, h.0)), λ k. back r.1 k.0 k.1)
      ]
    where
      drop :
          ((AnyOf (λ x. x ≡ e) l × Apart mem_size new e) → AnyOf (λ x. x ≡ e) (kept new l))
          → overwritten new g ≡ true
          → AnyOf (λ x. x ≡ e) (g ∷ l)
          → Apart mem_size new e
          → AnyOf (λ x. x ≡ e) (kept new l)
      drop f o (inl q) a = let a' : Apart mem_size new g = rw q a in absurd (ground arith)
      drop f o (inr k) a = f (k, a)

      from :
          (AnyOf (λ x. x ≡ e) (kept new l) → AnyOf (λ x. x ≡ e) l × Apart mem_size new e)
          → Apart mem_size new g
          → AnyOf (λ x. x ≡ e) (g ∷ kept new l)
          → AnyOf (λ x. x ≡ e) (g ∷ l) × Apart mem_size new e
      from f a (inl q) = (inl q, rw (← q) a)
      from f a (inr k) = let w = f k in (inr w.0, w.1)

      back :
          ((AnyOf (λ x. x ≡ e) l × Apart mem_size new e) → AnyOf (λ x. x ≡ e) (kept new l))
          → AnyOf (λ x. x ≡ e) (g ∷ l)
          → Apart mem_size new e
          → AnyOf (λ x. x ≡ e) (g ∷ kept new l)
      back f (inl q) a = inl q
      back f (inr k) a = inr (f (k, a))

-- The second list is the first one with `new` inserted somewhere.
pub data Inserted (new : StackEntry) : List StackEntry → List StackEntry → Type 0 where
  here : (l : List StackEntry) → Inserted new l (new ∷ l)
  there :
      (e : StackEntry) (l l' : List StackEntry) → Inserted new l l' → Inserted new (e ∷ l) (e ∷ l')
