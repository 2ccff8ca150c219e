-- ===== src/LruDisp/Access.antt =====
-- The access to one set by a function that fits in the memory.
use isptap.Prelude.{
  ℕ, ◌+◌, ◌≤◌, ◌≡◌, ◌≢◌, ◌⊎◌, refl, true, false, List, [], ◌∷◌, ◌++◌, some, ltb, arith, inl, inr,
  All, All-append, Bool-cases, ◌∙◌, ℕ_discrete,
}
use isptap.AbsSet.{AbsMemEntry, AbsMemSet, must, may, is_in_set, sort_mem_set_by_age}
use isptap.AbsSet.Unique.{Unique, covers, covers-append, is_in_set-covers, Unique-append}
use isptap.AbsSet.Sort.{All-sort, Unique-sort, covers-sort}
use isptap.FifoCache.{in_content}
use isptap.LruCache.{front}
use isptap.LruCache.TakeOut.{
  TakesOut, take_out-TakesOut, TakesOut-All, TakesOut-Unique, TakesOut-le, covers-TakesOut_ne,
}
use isptap.Disp.{DispParams}
use isptap.FifoDisp.Policy.{Sound}
use isptap.FifoDisp.Sizes.{mem_size, total}
use isptap.LruDisp.{access_set, move_addr_to_front, add_addr_to_mem_set}
use isptap.LruDisp.Concrete.{lru_activate, before, before-remove}
use isptap.LruDisp.Sets.{evict_may, shift_may}
use isptap.LruDisp.MustSet.{
  Lies, Holds, Others_lem, evict_must, shift_must, activated_self, activated_ne,
}

-- The must set describes the scratchpad: each of its functions is loaded, and behind at most as many
-- bytes as its age says.
pub record MustState (p : DispParams) (c : List ℕ) (l : List AbsMemEntry) : Type 0 where
  pub bounds : All (λ e. Holds p c e × Lies p e) l
  pub unique : Unique l

-- The may set describes the scratchpad: each loaded function stands in it, at an age of at most the
-- bytes before the function.
pub record MayState (p : DispParams) (c : List ℕ) (l : List AbsMemEntry) : Type 0 where
  pub covered : (g : ℕ) → in_content g c ≡ true → covers g (before p g c) l ≡ true
  pub lies : All (Lies p) l
  pub unique : Unique l

-- The abstract state describes the scratchpad `c`, whose functions fit in the memory.
pub record DescribesPad (p : DispParams) (c : List ℕ) (s : AbsMemSet) : Type 0 where
  pub fits : total p c ≤ p.size
  pub must_ok : MustState p c s.must_set
  pub may_ok : MayState p c s.may_set

pub uncovered :
    (p : DispParams) (c : List ℕ) (f : ℕ) (l : List AbsMemEntry)
    → is_in_set f l ≡ false
    → MayState p c l
    → in_content f c ≡ false
uncovered p c f l miss s = elim (Bool-cases (in_content f c)) [
  | inl h ↦ cc (is_in_set-covers f (before p f c) l (s.covered f h))
  | inr h ↦ h
]

module _ (p : DispParams) (f : ℕ) (c : List ℕ) (g : Sound p f) (loadable : mem_size p f ≤ p.size)
    (fits : total p c ≤ p.size) where
  front_must : Holds p (lru_activate p f c) (front f) × Lies p (front f)
  front_must =
      let a = activated_self p f c g.small loadable fits in
      ((a.0, omega (arith, a.1)), (omega (arith, loadable), g.known))

  add_must :
      (l : List AbsMemEntry)
      → is_in_set f l ≡ false
      → MustState p c l
      → (l' : List AbsMemEntry) × (add_addr_to_mem_set p f l ≡ some l')
        × MustState p (lru_activate p f c) l'
  unfolding add_addr_to_mem_set
  add_must l miss s =
      let (k, q, a, t) =
        evict_must p f c g.small loadable fits l (Others_lem p f l miss) s.bounds in
      let small : ltb p.size (mem_size p f) ≡ false = ground arith in
      (
        sort_mem_set_by_age (k ++ front f ∷ []),
        rw (g.known, small, q) refl,
        record {
          bounds =
              All-sort _ (k ++ front f ∷ []) (All-append _ k (front f ∷ []) a (front_must, tt));
          unique =
              Unique-sort (k ++ front f ∷ [])
                (Unique-append k (front f) (t.unique s.unique) (t.absent f miss));
        },
      )

  move_must :
      (l : List AbsMemEntry)
      → is_in_set f l ≡ true
      → MustState p c l
      → (l' : List AbsMemEntry) × (move_addr_to_front p must f l ≡ some l')
        × MustState p (lru_activate p f c) l'
  unfolding move_addr_to_front
  move_must l hit s =
      let (k, rest, found, out) = take_out-TakesOut f l hit in
      let (own, bounds') = TakesOut-All (λ e. Holds p c e × Lies p e) out s.bounds in
      let (unique', gone) = TakesOut-Unique out s.unique in
      let (m, q, a, t) =
        shift_must p f c g.small loadable fits k rest own.0.0 own.0.1 own.1.0
          (Others_lem p f rest gone) bounds' in
      (
        m ++ front f ∷ [],
        rw (g.known, found, q) refl,
        record {
          bounds = All-append _ m (front f ∷ []) a (front_must, tt);
          unique = Unique-append m (front f) (t.unique unique') (t.absent f gone);
        },
      )

  covers-front : (k : List AbsMemEntry) (j : ℕ) → covers f j (k ++ front f ∷ []) ≡ true
  unfolding covers
  covers-front k j = ground (arith, covers-append f j k (front f ∷ []))

  covers-left :
      (h j : ℕ) (k : List AbsMemEntry) → covers h j k ≡ true → covers h j (k ++ front f ∷ []) ≡ true
  covers-left h j k q = ground (arith, covers-append h j k (front f ∷ []))

  add_may :
      (l : List AbsMemEntry)
      → is_in_set f l ≡ false
      → MayState p c l
      → (l' : List AbsMemEntry) × (add_addr_to_mem_set p f l ≡ some l')
        × MayState p (lru_activate p f c) l'
  unfolding add_addr_to_mem_set
  add_may l miss s =
      let (k, q, a, t, cover) = evict_may p f g.small loadable l s.lies in
      let small : ltb p.size (mem_size p f) ≡ false = ground arith in
      let gone = uncovered p c f l miss s in
      (
        sort_mem_set_by_age (k ++ front f ∷ []),
        rw (g.known, small, q) refl,
        record {
          covered = λ h is_in.
              covers-sort h (before p h (lru_activate p f c)) (k ++ front f ∷ [])
              ∙ elim (ℕ_discrete h f) [
                | yes e ↦ rw e (covers-front k _)
                | no n ↦ covers-left h _ k (other k cover gone h n is_in)
              ];
          lies =
              All-sort _ (k ++ front f ∷ []) (All-append _ k (front f ∷ []) a (front_must.1, tt));
          unique =
              Unique-sort (k ++ front f ∷ [])
                (Unique-append k (front f) (t.unique s.unique) (t.absent f miss));
        },
      )
    where
      other :
          (k : List AbsMemEntry)
          → ((h j : ℕ)
              → j + mem_size p f + mem_size p h ≤ p.size
              → covers h j l ≡ true
              → covers h (j + mem_size p f) k ≡ true)
          → in_content f c ≡ false
          → (h : ℕ) → h ≢ f
          → in_content h (lru_activate p f c) ≡ true
          → covers h (before p h (lru_activate p f c)) k ≡ true
      other k cover gone h n is_in =
          let m = activated_ne p f c g.small loadable fits h n in
          let (old, room) = m.0 is_in in
          let b = before-remove p f h c n old in
          let e : before p h (lru_activate p f c) ≡ before p h c + mem_size p f =
            ground (arith, m.2 is_in, b, gone) in
          rw e (cover h (before p h c) (ground (arith, m.2 is_in, e, room)) (s.covered h old))

  move_may :
      (l : List AbsMemEntry)
      → is_in_set f l ≡ true
      → MayState p c l
      → (l' : List AbsMemEntry) × (move_addr_to_front p may f l ≡ some l')
        × MayState p (lru_activate p f c) l'
  unfolding move_addr_to_front
  move_may l hit s =
      let (k, rest, found, out) = take_out-TakesOut f l hit in
      let (own, lies') = TakesOut-All (Lies p) out s.lies in
      let (unique', gone) = TakesOut-Unique out s.unique in
      let (m, q, a, t, cover) = shift_may p f g.small loadable k rest own.0 lies' in
      (
        m ++ front f ∷ [],
        rw (g.known, found, q) refl,
        record {
          covered = λ h is_in. elim (ℕ_discrete h f) [
            | yes e ↦ rw e (covers-front m _)
            | no n ↦ covers-left h _ m (other k rest m out cover h n is_in)
          ];
          lies = All-append _ m (front f ∷ []) a (front_must.1, tt);
          unique = Unique-append m (front f) (t.unique unique') (t.absent f gone);
        },
      )
    where
      other :
          (k : ℕ) (rest m : List AbsMemEntry)
          → TakesOut f k l rest
          → ((h j n : ℕ)
              → (n ≡ j + mem_size p f) ⊎ ((k + mem_size p f ≤ j) × (n ≡ j))
              → n + mem_size p h ≤ p.size
              → covers h j rest ≡ true
              → covers h n m ≡ true)
          → (h : ℕ) → h ≢ f
          → in_content h (lru_activate p f c) ≡ true
          → covers h (before p h (lru_activate p f c)) m ≡ true
      other k rest m out cover h n is_in =
          let w = activated_ne p f c g.small loadable fits h n in
          let (old, room) = w.0 is_in in
          let e = w.2 is_in in
          let old_cover = covers-TakesOut_ne h (before p h c) out n ∙ s.covered h old in
          let moves : (before p h (lru_activate p f c) ≡ before p h c + mem_size p f)
              ⊎ ((k + mem_size p f ≤ before p h c)
                  × (before p h (lru_activate p f c) ≡ before p h c)) =
            elim (before-remove p f h c n old) [
              | inl b ↦ inl (omega (arith, e, b.2))
              | inr (inl b) ↦
                  let young : k ≤ before p f c =
                    TakesOut-le (before p f c) out s.unique (s.covered f b.0) in
                  inr (omega (arith, young, b.1), omega (arith, e, b.2))
              | inr (inr b) ↦ inl (omega (arith, e, b.1))
            ] in
          cover h (before p h c) _ moves (omega (arith, e, room)) old_cover

  pub set_lem :
      (s : AbsMemSet)
      → DescribesPad p c s
      → (l : List AbsMemEntry) × (l' : List AbsMemEntry) × (access_set p must f s.must_set ≡ some l)
        × (access_set p may f s.may_set ≡ some l')
        × MustState p (lru_activate p f c) l
        × MayState p (lru_activate p f c) l'
  unfolding access_set
  set_lem s d =
      let (l, e, m) = must_set_lem in let (l', e', m') = may_set_lem in (l, l', e, e', m, m')
    where
      must_set_lem :
          (l : List AbsMemEntry) × (access_set p must f s.must_set ≡ some l)
          × MustState p (lru_activate p f c) l
      must_set_lem = elim (Bool-cases (is_in_set f s.must_set)) [
        | inl hit ↦ rw hit (move_must s.must_set hit d.must_ok)
        | inr miss ↦ rw miss (add_must s.must_set miss d.must_ok)
      ]

      may_set_lem :
          (l : List AbsMemEntry) × (access_set p may f s.may_set ≡ some l)
          × MayState p (lru_activate p f c) l
      may_set_lem = elim (Bool-cases (is_in_set f s.may_set)) [
        | inl hit ↦ rw hit (move_may s.may_set hit d.may_ok)
        | inr miss ↦ rw miss (add_may s.may_set miss d.may_ok)
      ]
