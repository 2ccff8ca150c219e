-- ===== src/FifoDisp/Policy.antt =====
-- The concrete scratchpad against its policy.
use isptap.Prelude.{
  ℕ, zero, suc, ◌+◌, ◌-◌, ◌^◌, ◌≤◌, ◌<◌, ◌≡◌, refl, true, List, [], ◌∷◌, some, ltb, leb,
  if◌then◌else◌, arith, length, take, ap, Bool-cases, inl, inr, ◌∙◌, All, ◌↔◌, sym,
}
use isptap.FifoCache.{in_content, pop_back}
use isptap.FifoCache.Concrete.{pop_back-take, take_all, length-take-le, same_entries_iff}
use isptap.Disp.{Activation, DispParams}
use isptap.FifoDisp.{
  FifoDispMemState, same_state, is_in_state, evict_last, insert_function, activate_function,
}
use isptap.FifoDisp.Sizes.{mem_size, Known, total, fit, total-take, evict_last_lem}

module _ (p : DispParams) where
  -- The policy of an activation: a function that is loaded or too large changes nothing, another one
  -- is put before the loaded ones, of which the newest stay that fit in the mapping table and in the
  -- memory.
  unfoldable pub fifo_activate : ℕ → List ℕ → List ℕ
  fifo_activate f l =
      if ltb p.size (mem_size p f)
      then l
      else if in_content f l
      then l
      else fit p p.size (take p.mapping_table_size (f ∷ l))

  -- The loaded functions have sizes, and fit in the mapping table and in the memory.
  pub record Fits (s : FifoDispMemState) : Type 0 where
    pub known : All (Known p) s.content
    pub mapped : length s.content ≤ p.mapping_table_size
    pub sized : total p s.content ≤ p.size

  -- A scratchpad that can hold one function and whose size is below 2 ^ 31; a function that is too large
  -- is ignored, or there is none.
  pub record Sound (f : ℕ) : Type 0 where
    pub known : Known p f
    pub table : 1 ≤ p.mapping_table_size
    pub small : p.size < 2 ^ 31
    pub outsized : p.size < mem_size p f → p.ignore_outsized_functions ≡ true

  mapped_lem :
      (n f : ℕ) (l : List ℕ)
      → length l ≤ n
      → (if ltb n (length (f ∷ l)) then pop_back (f ∷ l) else f ∷ l) ≡ take n (f ∷ l)
  mapped_lem n f l h = elim (Bool-cases (ltb n (suc (length l)))) [
    | inl full ↦
        let e : length l ≡ n = ground arith in
        rw full (pop_back-take f l ∙ ap (λ k. take k (f ∷ l)) e)
    | inr room ↦ rw room (sym (take_all n (f ∷ l) (ground arith)))
  ]

  take-All : (P : ℕ → Type 0) (n : ℕ) (l : List ℕ) → All P l → All P (take n l)
  take-All P zero l h = tt
  take-All P (suc n) [] h = tt
  take-All P (suc n) (x ∷ l) h = (h.0, take-All P n l h.1)

  fit-All : (P : ℕ → Type 0) (room : ℕ) (l : List ℕ) → All P l → All P (fit p room l)
  unfolding fit
  fit-All P room [] h = tt
  fit-All P room (f ∷ l) h = elim (Bool-cases (leb (mem_size p f) room)) [
    | inl e ↦ rw e (h.0, fit-All P (room - mem_size p f) l h.1)
    | inr e ↦ rw e tt
  ]

  length-fit : (room : ℕ) (l : List ℕ) → length (fit p room l) ≤ length l
  unfolding fit
  length-fit room [] = omega arith
  length-fit room (f ∷ l) = ground (arith, length-fit (room - mem_size p f) l)

  pub total-fit : (room : ℕ) (l : List ℕ) → total p (fit p room l) ≤ room
  unfolding fit total
  total-fit room [] = omega arith
  total-fit room (f ∷ l) = ground (arith, total-fit (room - mem_size p f) l)

  keeps_one :
      (n f : ℕ) (l : List ℕ)
      → 1 ≤ n
      → mem_size p f ≤ p.size
      → 1 ≤ length (fit p p.size (take n (f ∷ l)))
  unfolding fit
  keeps_one zero f l h g = absurd (omega arith)
  keeps_one (suc n) f l h g = ground arith

  total-cons : (f : ℕ) (l : List ℕ) → total p (f ∷ l) ≡ mem_size p f + total p l
  unfolding total
  total-cons f l = refl

  insert_function_lem :
      (s : FifoDispMemState) (f : ℕ)
      → Fits s
      → Sound f
      → mem_size p f ≤ p.size
      → insert_function p s.content f
        ≡ some (fit p p.size (take p.mapping_table_size (f ∷ s.content)))
  unfolding insert_function
  insert_function_lem s f h g small =
      let mapped = take p.mapping_table_size (f ∷ s.content) in
      let e : evict_last p (length mapped) mapped ≡ some (fit p p.size mapped) =
        evict_last_lem p (length mapped) mapped (omega arith)
          (take-All (Known p) p.mapping_table_size (f ∷ s.content) (g.known, h.known))
          (omega (
            arith,
            total-take p p.mapping_table_size (f ∷ s.content),
            total-cons f s.content,
            small,
            h.sized,
            g.small,
          )) in
      let k : leb 1 (length (fit p p.size mapped)) ≡ true =
        ground (arith, keeps_one p.mapping_table_size f s.content g.table small) in
      rw (mapped_lem p.mapping_table_size f s.content h.mapped, e, k) refl

  pub activate_function-eq-policy :
      (s : FifoDispMemState) (f : ℕ) (act : Activation) (predecessor : ℕ)
      → Fits s
      → Sound f
      → (t : FifoDispMemState) × (activate_function p s f act predecessor ≡ some t)
        × (t.content ≡ fifo_activate f s.content)
        × Fits t
  unfolding activate_function fifo_activate is_in_state
  activate_function-eq-policy s f act predecessor h g =
      elim (Bool-cases (ltb p.size (mem_size p f))) [
        | inl outsized ↦
            (s, rw (g.known, outsized, g.outsized (ground arith)) refl, rw outsized refl, h)
        | inr small ↦ elim (Bool-cases (in_content f s.content)) [
          | inl hit ↦ (s, rw (g.known, small, hit) refl, rw (small, hit) refl, h)
          | inr miss ↦
              let mapped = take p.mapping_table_size (f ∷ s.content) in
              (
                record { content = fit p p.size mapped },
                rw (g.known, small, miss, insert_function_lem s f h g (ground arith)) refl,
                rw (small, miss) refl,
                record {
                  known =
                      fit-All (Known p) p.size mapped (
                        take-All (Known p) p.mapping_table_size (f ∷ s.content) (g.known, h.known));
                  mapped = omega (
                    arith,
                    length-fit p.size mapped,
                    length-take-le p.mapping_table_size (f ∷ s.content),
                  );
                  sized = total-fit p.size mapped;
                },
              )
        ]
      ]

-- `operator==` is equality of the contents.
pub same_state_iff : (a b : FifoDispMemState) → (same_state a b ≡ true) ↔ (a.content ≡ b.content)
unfolding same_state
same_state_iff a b = (
  λ e.
      let l : length a.content ≡ length b.content = ground arith in
      (same_entries_iff a.content b.content l).0 (ground arith),
  λ e.
      let l : length a.content ≡ length b.content = ap length e in
      ground (arith, l, (same_entries_iff a.content b.content l).1 e),
)

pub is_in_state_lem : (a : ℕ) (s : FifoDispMemState) → is_in_state a s ≡ in_content a s.content
unfolding is_in_state
is_in_state_lem a s = refl
