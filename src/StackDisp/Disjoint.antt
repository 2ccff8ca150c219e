-- ===== src/StackDisp/Disjoint.antt =====
-- Ranges without a common position, written down independently of checkFunctionIntersection, against
-- its answer.
use isptap.Prelude.{
  ℕ, ◌^◌, ◌≤◌, ◌<◌, ◌≡◌, ◌≢◌, ◌↔◌, ◌⊎◌, true, false, List, [], ◌∷◌, All, AnyOf, Bool-cases, inl,
  inr,
}
use isptap.Disp.{Activation}
use isptap.StackDisp.{Position, StackEntry, in_entries, check_function_intersection}
use isptap.StackDisp.Overlap.{Covers, Proper, Placed, Apart, check_function_intersection_iff}
use isptap.StackDisp.Evict.{Laid}
use isptap.StackDisp.Insert.{Laid-Apart}
use isptap.StackDisp.Neighbour.{range_lem, Next, Activated}

abbrev pub span : StackEntry → Position
span e = record { pos_begin = e.pos_begin; pos_end = e.pos_end }

-- No position of the memory is in both ranges.
abbrev pub Disjoint : ℕ → StackEntry → StackEntry → Type 0
Disjoint m e g = (k : ℕ) → k < m → Covers (span e) k → Covers (span g) k → ⊥

-- Entries in the memory, none of which is empty or takes all of it, with disjoint ranges and
-- different functions.
abbrev pub LaidOut : ℕ → List StackEntry → Type 0
LaidOut m [] = Unit {0}
LaidOut m (e ∷ l) = Placed m e × All (λ g. Disjoint m e g × (e.address ≢ g.address)) l × LaidOut m l

module _ (m : ℕ) (small : m ≤ 2 ^ 16) where
  proper : (e : StackEntry) → Placed m e → Proper m (span e)
  proper e h = record { begin_ok = h.0; end_ok = h.1; size_ok = h.2 }

  pub Apart-Disjoint : (e g : StackEntry) → Placed m e → Placed m g → Apart m e g → Disjoint m e g
  Apart-Disjoint e g he hg apart k below ce cg =
      let apart' : check_function_intersection m (span e) (span g) ≡ false =
        rw (range_lem m small e he.0 he.1, range_lem m small g hg.0 hg.1) at apart in
      let both =
        (check_function_intersection_iff m (span e) (span g) (proper e he) (proper g hg)).1
          (k, below, ce, cg) in
      cc

  pub Disjoint-Apart : (e g : StackEntry) → Placed m e → Placed m g → Disjoint m e g → Apart m e g
  Disjoint-Apart e g he hg disjoint =
      rw (range_lem m small e he.0 he.1, range_lem m small g hg.0 hg.1)
        (elim (Bool-cases (check_function_intersection m (span e) (span g))) [
          | inr b ↦ b
          | inl b ↦
              let (k, below, ce, cg) =
                (check_function_intersection_iff m (span e) (span g) (proper e he) (proper g hg)).0
                  b in
              absurd (disjoint k below ce cg)
        ])

  pub LaidOut-Laid : (l : List StackEntry) → LaidOut m l → Laid m l
  LaidOut-Laid [] h = tt
  LaidOut-Laid (e ∷ l) h = (h.0, rest l h.1 h.2, LaidOut-Laid l h.2)
    where
      rest :
          (k : List StackEntry)
          → All (λ g. Disjoint m e g × (e.address ≢ g.address)) k
          → LaidOut m k
          → All (λ g. Apart m e g × (e.address ≢ g.address)) k
      rest [] a w = tt
      rest (g ∷ k) a w = ((Disjoint-Apart e g h.0 w.0 a.0.0, a.0.1), rest k a.1 w.2)

  pub Laid-LaidOut : (l : List StackEntry) → Laid m l → LaidOut m l
  Laid-LaidOut [] h = tt
  Laid-LaidOut (e ∷ l) h = (h.0, rest l h.1 h.2, Laid-LaidOut l h.2)
    where
      rest :
          (k : List StackEntry)
          → All (λ g. Apart m e g × (e.address ≢ g.address)) k
          → Laid m k
          → All (λ g. Disjoint m e g × (e.address ≢ g.address)) k
      rest [] a w = tt
      rest (g ∷ k) a w = ((Apart-Disjoint e g h.0 w.0 a.0.0, a.0.1), rest k a.1 w.2)

  -- The predecessor `p` is in the scratchpad `l`, and `new` is next to it; the scratchpad `l'` holds
  -- `new` and the entries of `l` that have no position in common with it.
  pub record Loads (act : Activation) (f size : ℕ) (p new : StackEntry) (l l' : List StackEntry)
      : Type 0 where
    pub next : Next m small act size p new
    pub its : new.address ≡ f
    pub loaded : in_entries f l' ≡ true
    pub entries :
        (e : StackEntry)
        → AnyOf (λ g. g ≡ e) l' ↔ ((new ≡ e) ⊎ (AnyOf (λ g. g ≡ e) l × Disjoint m new e))

  pub Activated-Loads :
      (act : Activation) (f size : ℕ) (p new : StackEntry) (l l' : List StackEntry)
      → Laid m l
      → Placed m new
      → Activated m small act f size p new l l'
      → Loads act f size p new l l'
  Activated-Loads act f size p new l l' laid placed after = record {
    next = after.next;
    its = after.its;
    loaded = after.loaded;
    entries = λ e. (
      λ h. elim ((after.entries e).0 h) [
        | inl q ↦ inl q
        | inr w ↦ inr (w.0, Apart-Disjoint new e placed (Laid-Apart m l e laid w.0).1 w.1)
      ],
      λ h. (after.entries e).1 (elim h [
        | inl q ↦ inl q
        | inr w ↦ inr (w.0, Disjoint-Apart new e placed (Laid-Apart m l e laid w.0).1 w.1)
      ]),
    );
  }
