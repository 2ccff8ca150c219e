-- ===== src/StackDisp/Insert.antt =====
-- The insertion of a function behind its caller or before its callee.
use isptap.Prelude.{
  ℕ, ◌+◌, ◌-◌, ◌%◌, ◌<◌, ◌≡◌, ◌≢◌, ◌↔◌, ◌⊎◌, refl, true, false, List, [], ◌∷◌, Option, some, none,
  ◌==◌, arith, inl, inr, Bool-cases, All, AnyOf, sym, ◌∙◌, dec_lt,
}
use native.Mathlib.Nat.{mod-lt, mod-eq_of_lt, mod-eq-sub-mod}
use isptap.StackDisp.{
  StackEntry, in_entries, range, entry_behind, entry_before, insert_behind, insert_before,
}
use isptap.StackDisp.Overlap.{Placed, Apart, check_function_intersection_sym}
use isptap.StackDisp.Evict.{Laid, kept, overwritten, Inserted}

pub Inserted-All :
    (P : StackEntry → Type 0) (new : StackEntry) (l l' : List StackEntry)
    → Inserted new l l'
    → P new
    → All P l
    → All P l'
Inserted-All P new _ _ (Inserted.here l) n h = (n, h)
Inserted-All P new _ _ (Inserted.there e k k' i) n h = (h.0, Inserted-All P new k k' i n h.1)

pub Inserted-in_entries :
    (new : StackEntry) (l l' : List StackEntry)
    → Inserted new l l'
    → in_entries new.address l' ≡ true
unfolding in_entries
Inserted-in_entries new _ _ (Inserted.here l) = ground arith
Inserted-in_entries new _ _ (Inserted.there e k k' i) =
    ground (arith, Inserted-in_entries new k k' i)

pub Inserted-iff :
    (new : StackEntry) (l l' : List StackEntry)
    → Inserted new l l'
    → (e : StackEntry) → AnyOf (λ g. g ≡ e) l' ↔ ((new ≡ e) ⊎ AnyOf (λ g. g ≡ e) l)
Inserted-iff new _ _ (Inserted.here l) e = (λ k. k, λ k. k)
Inserted-iff new _ _ (Inserted.there g k k' i) e =
    let r = Inserted-iff new k k' i e in
    (
      elim [ inl q ↦ inr (inl q) | inr w ↦ elim (r.0 w) [ inl q ↦ inl q | inr u ↦ inr (inr u) ] ],
      elim [
        | inl q ↦ inr (r.1 (inl q))
        | inr w ↦ elim w [ inl q ↦ inl q | inr u ↦ inr (r.1 (inr u)) ]
      ],
    )

module _ (mem_size : ℕ) where
  pub kept-Inserted :
      (new : StackEntry) (l l' : List StackEntry)
      → Inserted new l l'
      → Inserted new (kept mem_size new l) (kept mem_size new l')
  unfolding kept
  kept-Inserted new _ _ (Inserted.here l) =
      let o : overwritten mem_size new new ≡ false = ground arith in
      rw o (Inserted.here (kept mem_size new l))
  kept-Inserted new _ _ (Inserted.there e k k' i) = elim (Bool-cases (overwritten mem_size new e)) [
    | inl o ↦ rw o (kept-Inserted new k k' i)
    | inr o ↦
        rw o
          (Inserted.there e (kept mem_size new k) (kept mem_size new k') (kept-Inserted new k k' i))
  ]

  pub Inserted-Laid :
      (new : StackEntry) (l l' : List StackEntry)
      → Inserted new l l'
      → Laid mem_size l
      → Placed mem_size new
      → All (λ g. Apart mem_size new g × (new.address ≢ g.address)) l
      → Laid mem_size l'
  Inserted-Laid new _ _ (Inserted.here l) h n a = (n, a, h)
  Inserted-Laid new _ _ (Inserted.there e k k' i) h n a =
      let apart : Apart mem_size e new =
        check_function_intersection_sym mem_size (range e) (range new) ∙ a.0.0 in
      (
        h.0,
        Inserted-All (λ g. Apart mem_size e g × (e.address ≢ g.address)) new k k' i
            (apart, λ q. a.0.1 (sym q)) h.1,
        Inserted-Laid new k k' i h.2 n a.1,
      )

  -- A laid out entry overlaps no other.
  pub Laid-Apart :
      (l : List StackEntry) (p : StackEntry)
      → Laid mem_size l
      → AnyOf (λ g. g ≡ p) l
      → All (λ g. Placed mem_size g × ((g ≡ p) ⊎ Apart mem_size g p)) l × Placed mem_size p
  Laid-Apart [] p h k = absurd k
  Laid-Apart (e ∷ l) p h (inl q) = (((h.0, inl q), rest l h.1 h.2), rw (← q) h.0)
    where
      rest :
          (k : List StackEntry)
          → All (λ g. Apart mem_size e g × (e.address ≢ g.address)) k
          → Laid mem_size k
          → All (λ g. Placed mem_size g × ((g ≡ p) ⊎ Apart mem_size g p)) k
      rest [] a w = tt
      rest (g ∷ k) a w = (
        (
          w.0,
          inr (rw (← q) (check_function_intersection_sym mem_size (range g) (range e) ∙ a.0.0)),
        ),
        rest k a.1 w.2,
      )
  Laid-Apart (e ∷ l) p h (inr k) =
      let r = Laid-Apart l p h.2 k in (((h.0, inr (one l h.1 k)), r.0), r.1)
    where
      one :
          (k : List StackEntry)
          → All (λ g. Apart mem_size e g × (e.address ≢ g.address)) k
          → AnyOf (λ g. g ≡ p) k
          → Apart mem_size e p
      one [] a w = absurd w
      one (g ∷ k) a (inl q) = rw (← q) a.0.0
      one (g ∷ k) a (inr w) = one k a.1 w

  module _ (func_addr size predecessor : ℕ) where
    -- The new entry is made from that of the predecessor by `make`.
    abbrev pub Inserts :
        (StackEntry → StackEntry) → List StackEntry → Option (StackEntry × List StackEntry) → Type 0
    Inserts make l result =
        (p : StackEntry) × (l' : List StackEntry) × (result ≡ some (make p, l'))
        × Inserted (make p) l l'
        × AnyOf (λ g. g ≡ p) l
        × (p.address ≡ predecessor)

    pub insert_behind_lem :
        (l : List StackEntry)
        → in_entries predecessor l ≡ true
        → Inserts
            (entry_behind mem_size func_addr size predecessor)
            l
            (insert_behind mem_size func_addr size predecessor l)
    unfolding insert_behind in_entries
    insert_behind_lem [] h = cc
    insert_behind_lem (e ∷ l) h = elim (Bool-cases (e.address == predecessor)) [
      | inl q ↦ (
        e,
        e ∷ entry_behind mem_size func_addr size predecessor e ∷ l,
        rw q refl,
        Inserted.there e l _ (Inserted.here l),
        inl refl,
        ground arith,
      )
      | inr q ↦
          let (p, l', r, i, k, w) = insert_behind_lem l (ground arith) in
          (p, e ∷ l', rw (q, r) refl, Inserted.there e l l' i, inr k, w)
    ]

    before_none :
        (l : List StackEntry)
        → in_entries predecessor l ≡ false
        → insert_before mem_size func_addr size predecessor l ≡ none
    unfolding insert_before in_entries
    before_none [] h = refl
    before_none (e ∷ l) h =
        let q : (e.address == predecessor) ≡ false = ground arith in
        rw (before_none l (ground arith), q) refl

    pub insert_before_lem :
        (l : List StackEntry)
        → in_entries predecessor l ≡ true
        → Inserts
            (entry_before mem_size func_addr size predecessor)
            l
            (insert_before mem_size func_addr size predecessor l)
    unfolding insert_before in_entries
    insert_before_lem [] h = cc
    insert_before_lem (e ∷ l) h = elim (Bool-cases (in_entries predecessor l)) [
      | inl later ↦
          let (p, l', r, i, k, w) = insert_before_lem l later in
          (p, e ∷ l', rw r refl, Inserted.there e l l' i, inr k, w)
      | inr not_later ↦
          let q : (e.address == predecessor) ≡ true = ground arith in
          (
            e,
            entry_before mem_size func_addr size predecessor e ∷ e ∷ l,
            rw (before_none l not_later, q) refl,
            Inserted.here (e ∷ l),
            inl refl,
            ground arith,
          )
    ]

-- A sum below twice the memory's size, on the cycle.
pub wrap : (x m : ℕ) → x < m + m → 0 < m → (x % m < m) × ((x % m ≡ x) ⊎ (x % m + m ≡ x))
wrap x m h pos = elim (dec_lt x m) [
  | yes k ↦ (mod-lt x pos, inl (mod-eq_of_lt k))
  | no k ↦
      let e : x % m ≡ x - m = mod-eq-sub-mod (omega arith) ∙ mod-eq_of_lt (omega arith) in
      (mod-lt x pos, inr (omega (arith, e)))
]
