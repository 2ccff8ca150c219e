-- ===== src/LruCache/May.antt =====
-- The may set under an access: its ages bound the ages of the cached lines from below.
use isptap.Prelude.{
  ℕ, suc, ◌≤◌, ◌<◌, ◌≡◌, ◌≢◌, true, false, List, [], ◌∷◌, ◌++◌, some, arith, length, Bool-cases,
  inl, inr, ◌⊎◌, ℕ_discrete, ◌∙◌,
}
use isptap.AbsSet.{AbsMemEntry, may, is_in_set}
use isptap.AbsSet.Unique.{Unique, Unique-append, covers, covers-append, is_in_set-covers}
use isptap.LruCache.{
  age_entries, age_and_evict, front, access_set, move_addr_to_front, add_addr_to_mem_set,
}
use isptap.LruCache.Concrete.{age, access, age-le, age-access_ne, age_injective}
use isptap.LruCache.Must.{is_in_set-evict, evict-Unique, is_in_set-age_entries, age_entries-Unique}
use isptap.LruCache.TakeOut.{
  TakesOut, take_out-TakesOut, TakesOut-Unique, covers-TakesOut_ne, TakesOut-le,
}

-- The may set describes a cache of `n` lines: each line that is cached stands in it, at an age of at
-- most its own.
pub record MayState (n : ℕ) (c : List ℕ) (l : List AbsMemEntry) : Type 0 where
  pub covered : (a : ℕ) → age n a c < n → covers a (age n a c) l ≡ true
  pub unique : Unique l

covers-evict :
    (n b k : ℕ) (l : List AbsMemEntry)
    → suc k < n
    → covers b k l ≡ true
    → covers b (suc k) (age_and_evict n l) ≡ true
unfolding covers age_and_evict
covers-evict n b k [] h c = c
covers-evict n b k (e ∷ l) h c = ground (arith, covers-evict n b k l h)

covers-age_entries :
    (b j j' k : ℕ) (l : List AbsMemEntry)
    → j ≤ j'
    → (j < j') ⊎ (k < j')
    → covers b j l ≡ true
    → covers b j' (age_entries may k l) ≡ true
unfolding covers age_entries
covers-age_entries b j j' k [] p q c = c
covers-age_entries b j j' k (e ∷ l) p q c = ground (arith, covers-age_entries b j j' k l p q)

module _ (n a : ℕ) (c : List ℕ) (l : List AbsMemEntry) (fits : length c ≤ n) where
  covers-front : (m : List AbsMemEntry) (j : ℕ) → covers a j (m ++ front a ∷ []) ≡ true
  unfolding covers
  covers-front m j = ground (arith, covers-append a j m (front a ∷ []))

  covers-left :
      (b j : ℕ) (m : List AbsMemEntry) → covers b j m ≡ true → covers b j (m ++ front a ∷ []) ≡ true
  covers-left b j m h = ground (arith, covers-append b j m (front a ∷ []))

  -- A line outside of the may set is not cached.
  pub age-eq_of_not_in_may : MayState n c l → is_in_set a l ≡ false → age n a c ≡ n
  age-eq_of_not_in_may s h =
      ground (arith, age-le n a c, s.covered a, is_in_set-covers a (age n a c) l)

  add-MayState :
      is_in_set a l ≡ false → MayState n c l → MayState n (access n a c) (add_addr_to_mem_set n a l)
  unfolding add_addr_to_mem_set
  add-MayState h s = record {
    covered = λ b p. elim (ℕ_discrete b a) [
      | yes e ↦ rw e (covers-front (age_and_evict n l) _)
      | no d ↦ older b d p
    ];
    unique = Unique-append _ (front a) (evict-Unique n l s.unique) (is_in_set-evict n a l h);
  }
    where
      older :
          (b : ℕ)
          → b ≢ a
          → age n b (access n a c) < n
          → covers b (age n b (access n a c)) (age_and_evict n l ++ front a ∷ []) ≡ true
      older b d p =
          let e : age n b (access n a c) ≡ suc (age n b c) =
            ground (arith, age-access_ne n a b c d fits, age-eq_of_not_in_may s h, age-le n b c) in
          rw e (
            covers-left b _ (age_and_evict n l)
              (covers-evict n b (age n b c) l (omega arith) (s.covered b (omega arith))))

  move-MayState :
      is_in_set a l ≡ true
      → MayState n c l
      → (l' : List AbsMemEntry) × (move_addr_to_front a l may ≡ some l')
        × MayState n (access n a c) l'
  unfolding move_addr_to_front
  move-MayState h s =
      let (k, rest, found, t) = take_out-TakesOut a l h in
      let (unique', gone) = TakesOut-Unique t s.unique in
      (
        age_entries may k rest ++ front a ∷ [],
        rw found,
        record {
          covered = λ b p. elim (ℕ_discrete b a) [
            | yes e ↦ rw e (covers-front (age_entries may k rest) _)
            | no d ↦ covers-left b _ (age_entries may k rest) (other k rest t b d p)
          ];
          unique =
              Unique-append _ (front a) (age_entries-Unique may k rest unique')
                (is_in_set-age_entries may k a rest ∙ gone);
        },
      )
    where
      other :
          (k : ℕ) (rest : List AbsMemEntry)
          → TakesOut a k l rest
          → (b : ℕ) → b ≢ a
          → age n b (access n a c) < n
          → covers b (age n b (access n a c)) (age_entries may k rest) ≡ true
      other k rest t b d p =
          let grown : age n b c ≤ age n b (access n a c) =
            ground (arith, age-access_ne n a b c d fits) in
          let gap : (age n b c < age n b (access n a c)) ⊎ (k < age n b (access n a c)) = ground (
            arith,
            age-access_ne n a b c d fits,
            TakesOut-le (age n a c) t s.unique,
            s.covered a,
            age_injective n b a c,
            age-le n a c,
          ) in
          covers-age_entries b (age n b c) _ k rest grown gap
            (covers-TakesOut_ne b _ t d ∙ s.covered b (omega arith))

  pub access_set-MayState :
      MayState n c l
      → (l' : List AbsMemEntry) × (access_set n may a l ≡ some l') × MayState n (access n a c) l'
  unfolding access_set
  access_set-MayState s = elim (Bool-cases (is_in_set a l)) [
    | inl hit ↦ rw hit (move-MayState hit s)
    | inr miss ↦ (add_addr_to_mem_set n a l, rw miss, add-MayState miss s)
  ]
