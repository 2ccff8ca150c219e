-- ===== src/StackDisp/Overlap.antt =====
-- The intersection of ranges on the cycle of the memory's positions.
use isptap.Prelude.{ℕ, ◌+◌, ◌≤◌, ◌<◌, ◌≡◌, ◌≢◌, ◌↔◌, ◌⊎◌, true, false, arith, inl, inr, ◌==◌, ◌||◌}
use isptap.StackDisp.{Position, StackEntry, check_function_intersection, intersection_range, range}

-- The range holds the position `k`; its end is the first position behind it.
abbrev pub Covers : Position → ℕ → Type 0
Covers a k =
    ((a.pos_begin ≤ a.pos_end) × (a.pos_begin ≤ k) × (k < a.pos_end))
    ⊎ ((a.pos_end < a.pos_begin) × ((a.pos_begin ≤ k) ⊎ (k < a.pos_end)))

-- A range of the memory that is neither empty nor all of it.
pub record Proper (mem_size : ℕ) (a : Position) : Type 0 where
  pub begin_ok : a.pos_begin < mem_size
  pub end_ok : a.pos_end < mem_size
  pub size_ok : a.pos_begin ≢ a.pos_end

module _ (mem_size : ℕ) (a b : Position) (pa : Proper mem_size a) (pb : Proper mem_size b) where
  intersect_complete :
      (k : ℕ)
      → k < mem_size
      → Covers a k
      → Covers b k
      → check_function_intersection mem_size a b ≡ true
  unfolding check_function_intersection
  intersect_complete k h ca cb = ground arith

  intersect_sound :
      check_function_intersection mem_size a b ≡ true
      → (Covers a a.pos_begin × Covers b a.pos_begin)
        ⊎ (Covers a b.pos_begin × Covers b b.pos_begin)
  unfolding check_function_intersection
  intersect_sound h = ground arith

  pub check_function_intersection_iff :
      (check_function_intersection mem_size a b ≡ true)
      ↔ ((k : ℕ) × (k < mem_size) × Covers a k × Covers b k)
  check_function_intersection_iff = (
    λ h. elim (intersect_sound h) [
      | inl c ↦ (a.pos_begin, pa.begin_ok, c.0, c.1)
      | inr c ↦ (b.pos_begin, pb.begin_ok, c.0, c.1)
    ],
    λ h. intersect_complete h.0 h.1 h.2 h.3,
  )

pub check_function_intersection_sym :
    (mem_size : ℕ) (a b : Position)
    → check_function_intersection mem_size a b ≡ check_function_intersection mem_size b a
unfolding check_function_intersection
check_function_intersection_sym mem_size a b = ground arith

-- Entries that lie in the memory, as ranges that are neither empty nor all of it.
abbrev pub Placed : ℕ → StackEntry → Type 0
Placed mem_size e = (e.pos_begin < mem_size) × (e.pos_end < mem_size) × (e.pos_begin ≢ e.pos_end)

-- The ranges of the entries have no position in common.
abbrev pub Apart : ℕ → StackEntry → StackEntry → Type 0
Apart mem_size e g = check_function_intersection mem_size (range e) (range g) ≡ false

-- the test of `evictFunctionsInRange` on the intersection
abbrev pub TouchesEnd : Position → Position → Type 0
TouchesEnd a g =
    ((g.pos_begin == (intersection_range a g).pos_begin)
      || (g.pos_end == (intersection_range a g).pos_end))
    ≡ true

module _ (m : ℕ) (new p g : Position)
    (in_p : (p.pos_begin < m) × (p.pos_end < m) × (p.pos_begin ≢ p.pos_end))
    (in_g : (g.pos_begin < m) × (g.pos_end < m) × (g.pos_begin ≢ g.pos_end)) (size : ℕ)
    (bounds : (0 < size) × (size ≤ m)) (hit : check_function_intersection m new g ≡ true) where
  pub touches_behind_other :
      new.pos_begin ≡ p.pos_end
      → (new.pos_end ≡ p.pos_end + size) ⊎ (new.pos_end + m ≡ p.pos_end + size)
      → check_function_intersection m g p ≡ false
      → TouchesEnd new g
  unfolding check_function_intersection intersection_range
  touches_behind_other b e d = ground arith

  pub touches_behind_caller :
      new.pos_begin ≡ p.pos_end
      → (new.pos_end ≡ p.pos_end + size) ⊎ (new.pos_end + m ≡ p.pos_end + size)
      → g.pos_begin ≡ p.pos_begin
      → g.pos_end ≡ p.pos_end
      → TouchesEnd new g
  unfolding check_function_intersection intersection_range
  touches_behind_caller b e d d' = ground arith

  pub touches_before_other :
      new.pos_end ≡ p.pos_begin
      → (new.pos_begin + size ≡ p.pos_begin) ⊎ (new.pos_begin + size ≡ p.pos_begin + m)
      → check_function_intersection m g p ≡ false
      → TouchesEnd new g
  unfolding check_function_intersection intersection_range
  touches_before_other b e d = ground arith

  pub touches_before_callee :
      new.pos_end ≡ p.pos_begin
      → (new.pos_begin + size ≡ p.pos_begin) ⊎ (new.pos_begin + size ≡ p.pos_begin + m)
      → g.pos_begin ≡ p.pos_begin
      → g.pos_end ≡ p.pos_end
      → TouchesEnd new g
  unfolding check_function_intersection intersection_range
  touches_before_callee b e d d' = ground arith
