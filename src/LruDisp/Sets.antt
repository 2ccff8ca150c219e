-- ===== src/LruDisp/Sets.antt =====
-- The must and the may set against the scratchpad.
use isptap.Prelude.{
  ℕ, ◌+◌, ◌^◌, ◌≤◌, ◌<◌, ◌≡◌, ◌⊎◌, refl, true, false, List, [], ◌∷◌, some, ltb, leb, arith, inl,
  inr, All, Bool-cases, add32,
}
use isptap.AbsSet.{AbsMemEntry, may}
use isptap.AbsSet.Unique.{covers}
use isptap.Disp.{DispParams}
use isptap.FifoDisp.Sizes.{mem_size}
use isptap.LruDisp.{shift_entries, age_and_evict, is_may}
use isptap.LruDisp.Shift.{shifted_may}
use isptap.LruDisp.MustSet.{Lies, Thins, Thins-keep, Thins-drop}

module _ (p : DispParams) where
  covers_nil : (g k n : ℕ) → covers g k [] ≡ true → covers g n [] ≡ true
  unfolding covers
  covers_nil g k n h = h

  covers_keep :
      (g k n x : ℕ) (e : AbsMemEntry) (l l' : List AbsMemEntry)
      → (e.age ≤ k → x ≤ n)
      → (covers g k l ≡ true → covers g n l' ≡ true)
      → covers g k (e ∷ l) ≡ true
      → covers g n (record e { age = x } ∷ l') ≡ true
  unfolding covers
  covers_keep g k n x e l l' low h c = ground arith

  covers_drop :
      (g k n x : ℕ) (e : AbsMemEntry) (l l' : List AbsMemEntry)
      → (e.age ≤ k → x ≤ n)
      → n + mem_size p g ≤ p.size
      → leb (x + mem_size p e.address) p.size ≡ false
      → (covers g k l ≡ true → covers g n l' ≡ true)
      → covers g k (e ∷ l) ≡ true
      → covers g n l' ≡ true
  unfolding covers
  covers_drop g k n x e l l' low b out h c = ground arith

  module _ (f : ℕ) (small : p.size < 2 ^ 31) (loadable : mem_size p f ≤ p.size) where
    -- The may set where the function is not in it.
    pub evict_may :
        (l : List AbsMemEntry)
        → All (Lies p) l
        → (l' : List AbsMemEntry) × (age_and_evict p (mem_size p f) l ≡ some l')
          × All (Lies p) l'
          × Thins p l l'
          × ((g k : ℕ)
              → k + mem_size p f + mem_size p g ≤ p.size
              → covers g k l ≡ true
              → covers g (k + mem_size p f) l' ≡ true)
    unfolding age_and_evict covers
    evict_may [] h = ([], refl, tt, record { absent = λ b k. k; unique = λ u. u }, λ g k b c. c)
    evict_may (e ∷ l) h =
        let (l', q, a, t, cover) = evict_may l h.1 in
        let sum : add32 e.age (mem_size p f) ≡ e.age + mem_size p f =
          omega (arith, h.0.0, loadable, small) in
        let sum' : add32 (e.age + mem_size p f) (mem_size p e.address)
            ≡ e.age + mem_size p f + mem_size p e.address =
          omega (arith, h.0.0, loadable, small) in
        elim (Bool-cases (ltb p.size (e.age + mem_size p f + mem_size p e.address))) [
          | inl out ↦ (
            l',
            rw (h.0.1, q, sum, sum', out) refl,
            a,
            Thins-drop p e l l' t,
            λ g k b c. ground (arith, cover g k),
          )
          | inr stays ↦ (
            record e { age = e.age + mem_size p f } ∷ l',
            rw (h.0.1, q, sum, sum', stays) refl,
            ((ground arith, h.0.1), a),
            Thins-keep p e (e.age + mem_size p f) l l' t,
            λ g k b c. ground (arith, cover g k),
          )
        ]

    low_age :
        (j age x : ℕ)
        → ((k : ℕ) → age ≤ k → x ≤ k + mem_size p f)
        → ((k : ℕ) → age ≤ k → j ≤ j → j + mem_size p f ≤ k → x ≤ k)
        → (k n : ℕ) → (n ≡ k + mem_size p f) ⊎ ((j + mem_size p f ≤ k) × (n ≡ k))
        → age ≤ k
        → x ≤ n
    low_age j age x moved stayed k n (inl w) b = omega (arith, moved k b, w)
    low_age j age x moved stayed k n (inr w) b = omega (arith, stayed k b (omega arith) w.0, w.1)

    -- The other entries of the may set where the function is in it, at age `j`.
    pub shift_may :
        (j : ℕ) (l : List AbsMemEntry)
        → j + mem_size p f ≤ p.size
        → All (Lies p) l
        → (l' : List AbsMemEntry) × (shift_entries p may j (mem_size p f) l ≡ some l')
          × All (Lies p) l'
          × Thins p l l'
          × ((g k n : ℕ)
              → (n ≡ k + mem_size p f) ⊎ ((j + mem_size p f ≤ k) × (n ≡ k))
              → n + mem_size p g ≤ p.size
              → covers g k l ≡ true
              → covers g n l' ≡ true)
    unfolding shift_entries is_may
    shift_may j [] room h = (
      [],
      refl,
      tt,
      record { absent = λ b k. k; unique = λ u. u },
      λ g k n w b c. covers_nil g k n c,
    )
    shift_may j (e ∷ l) room h =
        let (l', q, a, t, cover) = shift_may j l room h.1 in
        let (x, e', high, moved, stayed) =
          shifted_may p.size j (mem_size p f) e.age (mem_size p e.address) small room h.0.0 in
        let sum : add32 x (mem_size p e.address) ≡ x + mem_size p e.address =
          omega (arith, high, h.0.0, loadable, small) in
        let low = low_age j e.age x moved (stayed j) in
        elim (Bool-cases (leb (x + mem_size p e.address) p.size)) [
          | inl stays ↦ (
            record e { age = x } ∷ l',
            rw (h.0.1, e', q, sum, stays) refl,
            ((ground arith, h.0.1), a),
            Thins-keep p e x l l' t,
            λ g k n w b c. covers_keep g k n x e l l' (low k n w) (cover g k n w b) c,
          )
          | inr out ↦ (
            l',
            rw (h.0.1, e', q, sum, out) refl,
            a,
            Thins-drop p e l l' t,
            λ g k n w b c. covers_drop g k n x e l l' (low k n w) b out (cover g k n w b) c,
          )
        ]
