-- ===== src/LruCache/Must.antt =====
-- The must set under an access: its ages bound the ages of the cached lines from above.
use isptap.Prelude.{
  ℕ, ◌+◌, ◌%◌, ◌^◌, ◌≤◌, ◌<◌, ◌≡◌, refl, true, false, List, [], ◌∷◌, ◌++◌, some, ltb, ◌==◌,
  if◌then◌else◌, arith, All, All-append, length, Bool-cases, inl, inr, ℕ_discrete, ap, ◌∙◌,
}
use isptap.AbsSet.{AbsMemEntry, AnalysisType, must, is_in_set}
use isptap.AbsSet.Unique.{Unique, Below, Unique-append}
use isptap.LruCache.{
  age_entries, age_and_evict, front, access_set, move_addr_to_front, add_addr_to_mem_set,
}
use isptap.LruCache.Concrete.{age, access, age-access_self, age-access_ne, age-access-le}
use isptap.LruCache.TakeOut.{take_out-TakesOut, TakesOut-All, TakesOut-Unique}

abbrev pub AtMost : ℕ → List ℕ → AbsMemEntry → Type 0
AtMost n c e = age n e.address c ≤ e.age

-- The must set describes a cache of `n` lines: each of its entries is a line that is cached, and no
-- older than the entry.
pub record MustState (n : ℕ) (c : List ℕ) (l : List AbsMemEntry) : Type 0 where
  pub bounds : All (AtMost n c) l
  pub below : Below n l
  pub unique : Unique l

module _ (n a : ℕ) (c : List ℕ) (fits : length c ≤ n) (range : n < 2 ^ 32) where
  evict-AtMost :
      (l : List AbsMemEntry)
      → All (AtMost n c) l
      → Below n l
      → All (AtMost n (access n a c)) (age_and_evict n l)
  unfolding age_and_evict
  evict-AtMost [] h b = tt
  evict-AtMost (e ∷ l) h b =
      ground (arith, evict-AtMost l h.1 b.1, age-access-le n a e.address c fits)

  grow-AtMost :
      (k : ℕ) (l : List AbsMemEntry)
      → age n a c ≤ k
      → k < n
      → All (AtMost n c) l
      → All (AtMost n (access n a c)) (age_entries must k l)
  unfolding age_entries
  grow-AtMost k [] p q h = tt
  grow-AtMost k (e ∷ l) p q h = (step, grow-AtMost k l p q h.1)
    where
      step : age n e.address (access n a c) ≤ (if ltb e.age k then (e.age + 1) % 2 ^ 32 else e.age)
      step = elim (ℕ_discrete e.address a) [
        | yes s ↦ rw (s, age-access_self n a c) (omega arith)
        | no s ↦ ground (arith, age-access_ne n a e.address c s fits)
      ]

evict-Below : (n : ℕ) (l : List AbsMemEntry) → Below n (age_and_evict n l)
unfolding age_and_evict
evict-Below n [] = tt
evict-Below n (e ∷ l) = ground (arith, evict-Below n l)

grow-Below :
    (n k : ℕ) (l : List AbsMemEntry)
    → n < 2 ^ 32
    → k < n
    → Below n l
    → Below n (age_entries must k l)
unfolding age_entries
grow-Below n k [] r q b = tt
grow-Below n k (e ∷ l) r q b = (ground arith, grow-Below n k l r q b.1)

pub is_in_set-evict :
    (n b : ℕ) (l : List AbsMemEntry)
    → is_in_set b l ≡ false
    → is_in_set b (age_and_evict n l) ≡ false
unfolding age_and_evict is_in_set
is_in_set-evict n b [] h = h
is_in_set-evict n b (e ∷ l) h = ground (arith, is_in_set-evict n b l)

pub evict-Unique : (n : ℕ) (l : List AbsMemEntry) → Unique l → Unique (age_and_evict n l)
unfolding age_and_evict
evict-Unique n [] u = u
evict-Unique n (e ∷ l) u = ground (arith, evict-Unique n l u.1, is_in_set-evict n e.address l u.0)

pub is_in_set-age_entries :
    (t : AnalysisType) (k b : ℕ) (l : List AbsMemEntry)
    → is_in_set b (age_entries t k l) ≡ is_in_set b l
unfolding age_entries is_in_set
is_in_set-age_entries t k b [] = refl
is_in_set-age_entries t k b (e ∷ l) =
    ap (λ r. if b == e.address then true else r) (is_in_set-age_entries t k b l)

pub age_entries-Unique :
    (t : AnalysisType) (k : ℕ) (l : List AbsMemEntry) → Unique l → Unique (age_entries t k l)
unfolding age_entries
age_entries-Unique t k [] u = u
age_entries-Unique t k (e ∷ l) u =
    (is_in_set-age_entries t k e.address l ∙ u.0, age_entries-Unique t k l u.1)

-- An access to a line of the must set, or to another line, keeps the description.
module _ (n a : ℕ) (c : List ℕ) (l : List AbsMemEntry) where
  front-AtMost : AtMost n (access n a c) (front a)
  front-AtMost = rw (age-access_self n a c) (omega arith)

  add-MustState :
      0 < n
      → n < 2 ^ 32
      → length c ≤ n
      → is_in_set a l ≡ false
      → MustState n c l
      → MustState n (access n a c) (add_addr_to_mem_set n a l)
  unfolding add_addr_to_mem_set
  add-MustState p r f h s = record {
    bounds =
        All-append _ (age_and_evict n l) _ (evict-AtMost n a c f r l s.bounds s.below)
          (front-AtMost, tt);
    below = All-append _ (age_and_evict n l) _ (evict-Below n l) (p, tt);
    unique = Unique-append _ (front a) (evict-Unique n l s.unique) (is_in_set-evict n a l h);
  }

  move-MustState :
      n < 2 ^ 32
      → length c ≤ n
      → is_in_set a l ≡ true
      → MustState n c l
      → (l' : List AbsMemEntry) × (move_addr_to_front a l must ≡ some l')
        × MustState n (access n a c) l'
  unfolding move_addr_to_front
  move-MustState r f h s =
      let (k, rest, found, t) = take_out-TakesOut a l h in
      let (old, bounds') = TakesOut-All (AtMost n c) t s.bounds in
      let (young, below') = TakesOut-All (λ e. e.age < n) t s.below in
      let (unique', gone) = TakesOut-Unique t s.unique in
      (
        age_entries must k rest ++ front a ∷ [],
        rw found,
        record {
          bounds =
              All-append _ (age_entries must k rest) _
                (grow-AtMost n a c f r k rest old young bounds') (front-AtMost, tt);
          below =
              All-append _ (age_entries must k rest) _ (grow-Below n k rest r young below')
                (omega arith, tt);
          unique =
              Unique-append _ (front a) (age_entries-Unique must k rest unique')
                (is_in_set-age_entries must k a rest ∙ gone);
        },
      )

  pub access_set-MustState :
      0 < n
      → n < 2 ^ 32
      → length c ≤ n
      → MustState n c l
      → (l' : List AbsMemEntry) × (access_set n must a l ≡ some l') × MustState n (access n a c) l'
  unfolding access_set
  access_set-MustState p r f s = elim (Bool-cases (is_in_set a l)) [
    | inl hit ↦ rw hit (move-MustState r f hit s)
    | inr miss ↦ (add_addr_to_mem_set n a l, rw miss, add-MustState p r f miss s)
  ]
