-- ===== src/LruCache/Update.antt =====
-- The update of an abstract state by the lines of a block, against the cache that loads them.
use isptap.Prelude.{
  ℕ, zero, suc, ltb, ◌^◌, ◌≤◌, ◌<◌, ◌≡◌, refl, Bool, true, false, List, [], ◌∷◌, some,
  if◌then◌else◌, arith, All, length, Option-cases, inl, inr,
}
use isptap.AbsSet.{
  AbsMemEntry, has_addr, AbsMemSet, Sizes, is_in_set, count_state, set_blank_mem_state,
}
use isptap.AbsSet.Unique.{Below}
use isptap.MemUsage.{MemoryUsageStats}
use isptap.LruCache.{access_line, access_lines, update, update_one}
use isptap.LruCache.Concrete.{age, access, accesses, length-access}
use isptap.LruCache.Must.{MustState, AtMost, access_set-MustState}
use isptap.LruCache.May.{MayState, access_set-MayState, age-eq_of_not_in_may}

-- The abstract state describes the cache `c` of `n` lines.
pub record Describes (n : ℕ) (c : List ℕ) (s : AbsMemSet) : Type 0 where
  pub fits : length c ≤ n
  pub must_ok : MustState n c s.must_set
  pub may_ok : MayState n c s.may_set

module _ (n : ℕ) (nonempty : 0 < n) (range : n < 2 ^ 32) where
  pub access_line-Describes :
      (a : ℕ) (c : List ℕ) (s : AbsMemSet)
      → Describes n c s
      → (s' : AbsMemSet) × (access_line n s a ≡ some s') × Describes n (access n a c) s'
  unfolding access_line
  access_line-Describes a c s d =
      let (l, e, m) = access_set-MustState n a c s.must_set nonempty range d.fits d.must_ok in
      let (l', e', m') = access_set-MayState n a c s.may_set d.fits d.may_ok in
      (
        record { must_set = l; may_set = l' },
        rw (e, e'),
        record { fits = length-access n a c; must_ok = m; may_ok = m' },
      )

  pub access_lines-Describes :
      (as' : List ℕ) (c : List ℕ) (s : AbsMemSet)
      → Describes n c s
      → (s' : AbsMemSet) × (access_lines n s as' ≡ some s') × Describes n (accesses n as' c) s'
  unfolding access_lines accesses
  access_lines-Describes [] c s d = (s, refl, d)
  access_lines-Describes (a ∷ as') c s d =
      let (s', e, d') = access_line-Describes a c s d in
      rw e (access_lines-Describes as' (access n a c) s' d')

  -- For each cache that the state describes, `update` returns a state (no assertion fails) that
  -- describes the cache after the lines of the block are loaded, one by one. The cache has at least
  -- one line and fewer than 2 ^ 32.
  pub update-Describes :
      (sizes : Sizes) (line_addrs : List ℕ) (use_stats : Bool) (stats : MemoryUsageStats)
      (c : List ℕ) (s : AbsMemSet)
      → Describes n c s
      → (s' : AbsMemSet) × (update n sizes s line_addrs use_stats stats
          ≡ some (s', if use_stats then count_state sizes s' stats else stats))
        × Describes n (accesses n line_addrs c) s'
  unfolding update
  update-Describes sizes line_addrs use_stats stats c s d =
      let (s', e, d') = access_lines-Describes line_addrs c s d in (s', rw e, d')

-- Updating by one line is updating by the vector of that line.
pub update_one-eq-update :
    (n : ℕ) (sizes : Sizes) (s : AbsMemSet) (a : ℕ) (use_stats : Bool) (stats : MemoryUsageStats)
    → update_one n sizes s a use_stats stats ≡ update n sizes s (a ∷ []) use_stats stats
unfolding update_one update access_lines
update_one-eq-update n sizes s a use_stats stats = elim (Option-cases (access_line n s a)) [
  | inl e ↦ rw e
  | inr (s', e) ↦ rw e
]

cached_of_must :
    (n a : ℕ) (c : List ℕ) (l : List AbsMemEntry)
    → All (AtMost n c) l
    → Below n l
    → is_in_set a l ≡ true
    → age n a c < n
unfolding is_in_set
cached_of_must n a c [] h b m = absurd (ground arith)
cached_of_must n a c (e ∷ l) h b m = ground (arith, cached_of_must n a c l h.1 b.1)

pub has_addr-age : (n a : ℕ) (c : List ℕ) → length c ≤ n → has_addr a c ≡ ltb (age n a c) n
unfolding has_addr age
has_addr-age zero a [] h = refl
has_addr-age (suc n) a [] h = ground arith
has_addr-age zero a (x ∷ c) h = absurd (omega arith)
has_addr-age (suc n) a (x ∷ c) h = ground (arith, has_addr-age n a c)

-- What the classification of an access rests on: in each cache that the state describes, a line of
-- the must set is cached, and a line outside of the may set is not.
pub classification_sound :
    (n a : ℕ) (c : List ℕ) (s : AbsMemSet)
    → Describes n c s
    → (is_in_set a s.must_set ≡ true → has_addr a c ≡ true)
      × (is_in_set a s.may_set ≡ false → has_addr a c ≡ false)
classification_sound n a c s d = (
  λ h. ground (
    arith,
    has_addr-age n a c d.fits,
    cached_of_must n a c s.must_set d.must_ok.bounds d.must_ok.below h,
  ),
  λ h.
      ground
        (arith, has_addr-age n a c d.fits, age-eq_of_not_in_may n a c s.may_set d.fits d.may_ok h),
)

-- The blank state describes the empty cache.
pub blank-Describes :
    (n : ℕ) (sizes : Sizes) (stats : MemoryUsageStats)
    → Describes n [] (set_blank_mem_state sizes stats).0
unfolding set_blank_mem_state age
blank-Describes n sizes stats = record {
  fits = omega arith;
  must_ok = record { bounds = tt; below = tt; unique = tt };
  may_ok = record { covered = λ a p. absurd (empty_age n a p); unique = tt };
}
  where
    empty_age : (n a : ℕ) → age n a [] < n → ⊥
    empty_age zero a p = omega arith
    empty_age (suc n) a p = omega arith
