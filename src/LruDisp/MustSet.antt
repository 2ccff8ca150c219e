-- ===== src/LruDisp/MustSet.antt =====
-- The must set against the scratchpad, and what both sets have in common.
use isptap.Prelude.{
  ℕ, ◌+◌, ◌^◌, ◌≤◌, ◌<◌, ◌≡◌, ◌≢◌, refl, true, false, List, [], ◌∷◌, some, ltb, leb, arith, inl,
  inr, All, Bool-cases, ◌∙◌, add32,
}
use isptap.AbsSet.{AbsMemEntry, must, is_in_set}
use isptap.AbsSet.Unique.{Unique}
use isptap.FifoCache.{in_content}
use isptap.LruCache.Concrete.{remove}
use isptap.Disp.{DispParams}
use isptap.FifoDisp.Sizes.{mem_size, Known, total}
use isptap.LruDisp.{shift_entries, age_and_evict}
use isptap.LruDisp.Concrete.{
  lru_activate, before, in_content-fit, before-fit, in_content-remove, before-remove, before-le,
}
use isptap.LruDisp.Shift.{shifted_must}

module _ (p : DispParams) where
  -- The entry lies in the memory.
  abbrev pub Lies : AbsMemEntry → Type 0
  Lies e = (e.age + mem_size p e.address ≤ p.size) × Known p e.address

  -- The function of the entry is loaded, and its age is at most that of the entry.
  abbrev pub Holds : List ℕ → AbsMemEntry → Type 0
  Holds c e = (in_content e.address c ≡ true) × (before p e.address c ≤ e.age)

  abbrev pub Others : ℕ → List AbsMemEntry → Type 0
  Others f = All (λ e. e.address ≢ f)

  pub Others_lem : (f : ℕ) (l : List AbsMemEntry) → is_in_set f l ≡ false → Others f l
  unfolding is_in_set
  Others_lem f [] h = tt
  Others_lem f (e ∷ l) h = (ground arith, Others_lem f l (ground arith))

  -- The entries of `l'` are entries of `l` at other ages.
  pub record Thins (l l' : List AbsMemEntry) : Type 0 where
    pub absent : (b : ℕ) → is_in_set b l ≡ false → is_in_set b l' ≡ false
    pub unique : Unique l → Unique l'

  pub Thins-keep :
      (e : AbsMemEntry) (n : ℕ) (l l' : List AbsMemEntry)
      → Thins l l'
      → Thins (e ∷ l) (record e { age = n } ∷ l')
  unfolding is_in_set
  Thins-keep e n l l' t = record {
    absent = λ b h. ground (arith, t.absent b);
    unique = λ u. (t.absent e.address u.0, t.unique u.1);
  }

  pub Thins-drop : (e : AbsMemEntry) (l l' : List AbsMemEntry) → Thins l l' → Thins (e ∷ l) l'
  unfolding is_in_set
  Thins-drop e l l' t = record {
    absent = λ b h. ground (arith, t.absent b);
    unique = λ u. t.unique u.1;
  }

  module _ (f : ℕ) (c : List ℕ) (small : p.size < 2 ^ 31) (loadable : mem_size p f ≤ p.size)
      (fits : total p c ≤ p.size) where
    pub activated_ne :
        (g : ℕ)
        → g ≢ f
        → let n = mem_size p f + before p g (remove f c) in
          ((in_content g (lru_activate p f c) ≡ true)
            → (in_content g c ≡ true) × (n + mem_size p g ≤ p.size))
          × ((in_content g c ≡ true)
              → n + mem_size p g ≤ p.size
              → in_content g (lru_activate p f c) ≡ true)
          × ((in_content g (lru_activate p f c) ≡ true) → before p g (lru_activate p f c) ≡ n)
    unfolding lru_activate in_content before
    activated_ne g n =
        let e : ltb p.size (mem_size p f) ≡ false = ground arith in
        let r = in_content-fit p g p.size (f ∷ remove f c) in
        let d = in_content-remove p f g c n in
        rw e (
          λ h. ground (arith, r.0 h, d),
          λ h k. r.1 (ground (arith, d), ground arith),
          λ h. before-fit p g p.size (f ∷ remove f c) h ∙ ground arith,
        )

    pub activated_self :
        (in_content f (lru_activate p f c) ≡ true) × (before p f (lru_activate p f c) ≡ 0)
    unfolding lru_activate in_content before
    activated_self =
        let e : ltb p.size (mem_size p f) ≡ false = ground arith in
        let r = in_content-fit p f p.size (f ∷ remove f c) in
        let h = r.1 (ground arith, ground arith) in
        rw e (h, before-fit p f p.size (f ∷ remove f c) h ∙ ground arith)

    -- The must set where the function is not in it.
    pub evict_must :
        (l : List AbsMemEntry)
        → Others f l
        → All (λ e. Holds c e × Lies e) l
        → (l' : List AbsMemEntry) × (age_and_evict p (mem_size p f) l ≡ some l')
          × All (λ e. Holds (lru_activate p f c) e × Lies e) l'
          × Thins l l'
    unfolding age_and_evict
    evict_must [] o h = ([], refl, tt, record { absent = λ b k. k; unique = λ u. u })
    evict_must (e ∷ l) o h =
        let (l', q, a, t) = evict_must l o.1 h.1 in
        let sum : add32 e.age (mem_size p f) ≡ e.age + mem_size p f =
          omega (arith, h.0.1.0, loadable, small) in
        let sum' : add32 (e.age + mem_size p f) (mem_size p e.address)
            ≡ e.age + mem_size p f + mem_size p e.address =
          omega (arith, h.0.1.0, loadable, small) in
        let m = activated_ne e.address o.0 in
        let b = before-remove p f e.address c o.0 h.0.0.0 in
        elim (Bool-cases (ltb p.size (e.age + mem_size p f + mem_size p e.address))) [
          | inl out ↦ (l', rw (h.0.1.1, q, sum, sum', out) refl, a, Thins-drop e l l' t)
          | inr stays ↦
              let n : mem_size p f + before p e.address (remove f c) ≤ e.age + mem_size p f =
                ground (arith, b, h.0.0.1) in
              let is_in = m.1 h.0.0.0 (ground (arith, n)) in
              (
                record e { age = e.age + mem_size p f } ∷ l',
                rw (h.0.1.1, q, sum, sum', stays) refl,
                (((is_in, rw (m.2 is_in) n), (ground arith, h.0.1.1)), a),
                Thins-keep e (e.age + mem_size p f) l l' t,
              )
        ]

    -- The other entries of the must set where the function is in it, at age `k`.
    pub shift_must :
        (k : ℕ) (l : List AbsMemEntry)
        → in_content f c ≡ true
        → before p f c ≤ k
        → k + mem_size p f ≤ p.size
        → Others f l
        → All (λ e. Holds c e × Lies e) l
        → (l' : List AbsMemEntry) × (shift_entries p must k (mem_size p f) l ≡ some l')
          × All (λ e. Holds (lru_activate p f c) e × Lies e) l'
          × Thins l l'
    unfolding shift_entries
    shift_must k [] f_in old room o h =
        ([], refl, tt, record { absent = λ b k. k; unique = λ u. u })
    shift_must k (e ∷ l) f_in old room o h =
        let (l', q, a, t) = shift_must k l f_in old room o.1 h.1 in
        let g = e.address in
        let m = activated_ne g o.0 in
        let b = before-remove p f g c o.0 h.0.0.0 in
        let both : mem_size p f + mem_size p g ≤ p.size =
          ground (arith, b, before-le p f c f_in, before-le p g c h.0.0.0, fits) in
        let (n, e', low, moved, stayed) =
          shifted_must p.size k (mem_size p f) e.age (mem_size p g) small room h.0.1.0
            (before p f c) (before p g c) both old h.0.0.1 in
        let sum : add32 n (mem_size p g) ≡ n + mem_size p g = omega (arith, low, small) in
        let keep : leb (n + mem_size p g) p.size ≡ true = ground arith in
        let bound : mem_size p f + before p g (remove f c) ≤ n =
          ground (arith, b, moved, stayed, f_in) in
        let is_in = m.1 h.0.0.0 (omega (arith, bound, low)) in
        (
          record e { age = n } ∷ l',
          rw (h.0.1.1, e', q, sum, keep) refl,
          (((is_in, rw (m.2 is_in) bound), (low, h.0.1.1)), a),
          Thins-keep e n l l' t,
        )
