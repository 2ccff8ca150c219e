-- ===== src/StackDisp/Neighbour.antt =====
-- src/memory/stack_disp_mem_state.cpp: what an entry next to that of the predecessor overwrites.
use isptap.Prelude.{
  ℕ, ◌+◌, ◌-◌, ◌%◌, ◌^◌, ◌≤◌, ◌<◌, ◌≡◌, ◌≢◌, ◌↔◌, ◌⊎◌, refl, Bool, true, false, List, [], ◌∷◌, some,
  arith, inl, inr, All, AnyOf, ap, length, leb, add32,
}
use mathlib.Core.Path.{subst}
use isptap.Disp.{Activation}
use isptap.StackDisp.{
  Position, StackEntry, in_entries, check_function_intersection, get_function_intersection,
  touches_end, range, entry_behind, entry_before, evict_functions_in_range,
}
use isptap.StackDisp.Overlap.{
  Placed, Apart, TouchesEnd, touches_behind_other, touches_behind_caller, touches_before_other,
  touches_before_callee,
}
use isptap.StackDisp.Evict.{
  Laid, Fresh, kept, kept-Laid, kept-Apart, kept_iff, overwritten, evict_lem, Inserted,
}
use isptap.StackDisp.Insert.{
  Inserted-All, Inserted-in_entries, Inserted-iff, kept-Inserted, Inserted-Laid, Laid-Apart, wrap,
}

fresh_lem :
    (new : StackEntry) (l : List StackEntry) → in_entries new.address l ≡ false → Fresh new l
unfolding in_entries
fresh_lem new [] h = tt
fresh_lem new (e ∷ l) h = (ground arith, fresh_lem new l (ground arith))

pub some_entry : (f : ℕ) (l : List StackEntry) → in_entries f l ≡ true → leb 1 (length l) ≡ true
unfolding in_entries
some_entry f [] h = cc
some_entry f (e ∷ l) h = ground arith

touches_end_lem :
    (m : ℕ) (a g : Position)
    → check_function_intersection m a g ≡ true
    → TouchesEnd a g
    → touches_end m a g ≡ true
unfolding touches_end get_function_intersection
touches_end_lem m a g h t = rw h t

module _ (m : ℕ) (small : m ≤ 2 ^ 16) where
  pub range_lem :
      (e : StackEntry)
      → e.pos_begin < m
      → e.pos_end < m
      → range e ≡ record { pos_begin = e.pos_begin; pos_end = e.pos_end }
  unfolding range
  range_lem e h k =
      let b : e.pos_begin % 2 ^ 16 ≡ e.pos_begin = omega arith in
      let b' : e.pos_end % 2 ^ 16 ≡ e.pos_end = omega arith in rw (b, b') refl

  -- The position of the new entry of a function of `size` bytes, next to that of the predecessor.
  abbrev pub Next : Activation → ℕ → StackEntry → StackEntry → Type 0
  Next Activation.call size p new =
      (new.pos_begin ≡ p.pos_end) × (new.pos_end ≡ (p.pos_end + size) % m)
  Next Activation.back size p new =
      (new.pos_end ≡ p.pos_begin) × (p.pos_begin ≡ (new.pos_begin + size) % m)

  neighbour_touches :
      (act : Activation) (size : ℕ) (p new g : StackEntry)
      → 0 < size
      → size ≤ m
      → Next act size p new
      → new.pos_begin < m
      → new.pos_end < m
      → Placed m p
      → Placed m g
      → (g ≡ p) ⊎ Apart m g p
      → overwritten m new g ≡ true
      → touches_end m (range new) (range g) ≡ true
  neighbour_touches act size p new g pos fits next b e pp pg d o =
      let hit : check_function_intersection m (range new) (range g) ≡ true = ground arith in
      let a = range_lem new b e in
      let hit' : check_function_intersection m (position new) (position g) ≡ true =
        rw (a, range_lem g pg.0 pg.1) at hit in
      touches_end_lem m (range new) (range g) hit
        (rw (a, range_lem g pg.0 pg.1) (touch act d next hit'))
    where
      position : StackEntry → Position
      position x = record { pos_begin = x.pos_begin; pos_end = x.pos_end }

      apart' : Apart m g p → check_function_intersection m (position g) (position p) ≡ false
      apart' h = rw (range_lem g pg.0 pg.1, range_lem p pp.0 pp.1) at h

      wrapped :
          new.pos_end ≡ (p.pos_end + size) % m
          → (new.pos_end ≡ p.pos_end + size) ⊎ (new.pos_end + m ≡ p.pos_end + size)
      wrapped q =
          rw q ((wrap (p.pos_end + size) m (omega (arith, pp.1, fits)) (omega (arith, pp.1))).1)

      wrapped' :
          p.pos_begin ≡ (new.pos_begin + size) % m
          → (new.pos_begin + size ≡ p.pos_begin) ⊎ (new.pos_begin + size ≡ p.pos_begin + m)
      wrapped' q =
          elim (wrap (new.pos_begin + size) m (omega (arith, b, fits)) (omega (arith, b))).1 [
            | inl k ↦ inl (omega (arith, q, k))
            | inr k ↦ inr (omega (arith, q, k))
          ]

      touch :
          (act' : Activation)
          → (g ≡ p) ⊎ Apart m g p
          → Next act' size p new
          → check_function_intersection m (position new) (position g) ≡ true
          → TouchesEnd (position new) (position g)
      touch Activation.call (inl q) n h =
          touches_behind_caller m (position new) (position p) (position g) pp pg size (pos, fits) h
            n.0 (wrapped n.1) (ap (λ x. x.pos_begin) q) (ap (λ x. x.pos_end) q)
      touch Activation.call (inr q) n h =
          touches_behind_other m (position new) (position p) (position g) pp pg size (pos, fits) h
            n.0 (wrapped n.1) (apart' q)
      touch Activation.back (inl q) n h =
          touches_before_callee m (position new) (position p) (position g) pp pg size (pos, fits) h
            n.0 (wrapped' n.1) (ap (λ x. x.pos_begin) q) (ap (λ x. x.pos_end) q)
      touch Activation.back (inr q) n h =
          touches_before_other m (position new) (position p) (position g) pp pg size (pos, fits) h
            n.0 (wrapped' n.1) (apart' q)

  -- The predecessor `p` is in the scratchpad, and `new` is next to it; what is left of the scratchpad
  -- `l` is what `new` does not overlap.
  pub record Activated (act : Activation) (f size : ℕ) (p new : StackEntry) (l l' : List StackEntry)
      : Type 0 where
    pub next : Next act size p new
    pub its : new.address ≡ f
    pub loaded : in_entries f l' ≡ true
    pub entries :
        (e : StackEntry)
        → AnyOf (λ g. g ≡ e) l' ↔ ((new ≡ e) ⊎ (AnyOf (λ g. g ≡ e) l × Apart m new e))

  pub evicted :
      (act : Activation) (f size : ℕ) (p new : StackEntry) (l l' : List StackEntry)
      → Laid m l
      → AnyOf (λ g. g ≡ p) l
      → in_entries f l ≡ false
      → new.address ≡ f
      → Next act size p new
      → new.pos_begin < m
      → new.pos_end < m
      → 0 < size
      → size ≤ m
      → Inserted new l l'
      → (b : Bool) × (evict_functions_in_range m new l' ≡ some (kept m new l', b))
        × Activated act f size p new l (kept m new l')
        × (new.pos_begin ≢ new.pos_end → Laid m (kept m new l'))
  evicted act f size p new l l' laid is_in fresh its next b e pos fits i =
      let new_fresh : Fresh new l = fresh_lem new l (rw its fresh) in
      let (others, pp) = Laid-Apart m l p laid is_in in
      let own : overwritten m new new ≡ false = ground arith in
      let touched =
        Inserted-All (λ g. overwritten m new g ≡ true → touches_end m (range new) (range g) ≡ true)
          new l l' i (λ o. cc) (touch_all l others pp) in
      let (flag, done) = evict_lem m new l' touched in
      let i' = kept-Inserted m new l l' i in
      (
        flag,
        done,
        record {
          next = next;
          its = its;
          loaded =
              subst (λ x. in_entries x (kept m new l') ≡ true) its
                (Inserted-in_entries new (kept m new l) (kept m new l') i');
          entries = λ x.
              let r = Inserted-iff new (kept m new l) (kept m new l') i' x in
              let r' = kept_iff m new l new_fresh x in
              (
                λ k. elim (r.0 k) [ inl q ↦ inl q | inr w ↦ inr (r'.0 w) ],
                λ k. elim k [ inl q ↦ r.1 (inl q) | inr w ↦ r.1 (inr (r'.1 w)) ],
              );
        },
        λ ne.
            Inserted-Laid m new (kept m new l) (kept m new l') i' (kept-Laid m new l laid)
              (b, e, ne) (kept-Apart m new l new_fresh),
      )
    where
      touch_all :
          (k : List StackEntry)
          → All (λ g. Placed m g × ((g ≡ p) ⊎ Apart m g p)) k
          → Placed m p
          → All (λ g. overwritten m new g ≡ true → touches_end m (range new) (range g) ≡ true) k
      touch_all [] h pp = tt
      touch_all (g ∷ k) h pp =
          (neighbour_touches act size p new g pos fits next b e pp h.0.0 h.0.1, touch_all k h.1 pp)

  pub behind_neighbour :
      (f size pred : ℕ) (p : StackEntry)
      → Placed m p
      → size ≤ m
      → Next Activation.call size p (entry_behind m f size pred p) × (add32 p.pos_end size % m < m)
  unfolding entry_behind
  behind_neighbour f size pred p pp h =
      let e : add32 p.pos_end size ≡ p.pos_end + size = omega (arith, pp.1, h, small) in
      let w = wrap (p.pos_end + size) m (omega (arith, pp.1, h)) (omega (arith, pp.1)) in
      ((refl, ap (λ x. x % m) e), rw e w.0)

  pub before_neighbour :
      (f size pred : ℕ) (p : StackEntry)
      → Placed m p
      → size ≤ m
      → Next Activation.back size p (entry_before m f size pred p)
        × ((entry_before m f size pred p).pos_begin < m)
  unfolding entry_before
  before_neighbour f size pred p pp h =
      let x = p.pos_begin + m - size in
      let e : (add32 p.pos_begin m + 2 ^ 32 - size) % 2 ^ 32 ≡ x = omega (arith, pp.0, h, small) in
      let w = wrap x m (omega (arith, pp.0)) (omega (arith, pp.0)) in
      let v = wrap (x % m + size) m (omega (arith, w.0, h)) (omega (arith, pp.0)) in
      rw e ((refl, ground (arith, w.0, w.1, v.0, v.1, pp.0, h)), w.0)

  pub neighbour_size :
      (act : Activation) (size : ℕ) (p new : StackEntry)
      → Placed m p
      → new.pos_begin < m
      → Next act size p new
      → 0 < size
      → size < m
      → new.pos_begin ≢ new.pos_end
  neighbour_size Activation.call size p new pp b n pos h =
      let w = wrap (p.pos_end + size) m (omega (arith, pp.1, h)) (omega (arith, pp.1)) in
      ground (arith, n.0, n.1, w.0, w.1)
  neighbour_size Activation.back size p new pp b n pos h =
      let w = wrap (new.pos_begin + size) m (omega (arith, b, h)) (omega (arith, b)) in
      ground (arith, n.0, n.1, w.0, w.1)

pub whole-Apart :
    (m : ℕ)
    → m ≤ 2 ^ 16
    → (new p : StackEntry) → Placed m p
    → new.pos_begin ≡ p.pos_end
    → new.pos_end ≡ p.pos_end
    → Apart m new p
unfolding check_function_intersection
whole-Apart m small new p pp b e =
    rw
      (
        range_lem m small new (omega (arith, pp.1, b)) (omega (arith, pp.1, e)),
        range_lem m small p pp.0 pp.1,
      )
      (ground (arith, pp, b, e))
