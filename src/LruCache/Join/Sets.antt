-- ===== src/LruCache/Join/Sets.antt =====
-- The join of two must sets and of two may sets.
use isptap.Prelude.{
  ℕ, sym, ◌≤◌, ◌<◌, ◌≡◌, ◌≢◌, true, false, List, some, none, ltb, if◌then◌else◌, arith, All,
  Bool-cases, ◌||◌, inl, inr, ◌⊎◌, ◌∙◌, ◌==◌,
}
use mathlib.Core.Path.{subst}
use isptap.AbsSet.{
  AbsMemEntry, is_in_set, has_addr, sort_mem_set_by_age, AddrAgeMap, find,
  get_unique_mem_addrs_of_sets,
}
use isptap.AbsSet.Unique.{Unique, Below, covers, covers_mono, is_in_set-covers}
use isptap.AbsSet.Sort.{covers-sort, All-sort, Unique-sort}
use isptap.AbsSet.Addresses.{
  get_unique_lem, age_in, age_in_found, age_in-All, age_in-le, add_map_lem,
}
use isptap.LruCache.{joined_must, join_must, join_may}
use isptap.LruCache.Join.Lines.{joined_must-All, joined_must-Unique, joined_may-Union, Union}
use isptap.LruCache.Concrete.{age}
use isptap.LruCache.Must.{AtMost}
use isptap.LruCache.May.{MayState}

pub mapped :
    (x : ℕ) (m : AddrAgeMap) (l : List AbsMemEntry)
    → ((y : ℕ) → find y m ≡ age_in y l)
    → x ≢ 0
    → is_in_set x l ≡ true
    → (k : ℕ) × (find x m ≡ some k)
mapped x m l f z h = let (k, p) = age_in_found x l z h in (k, f x ∙ p)

-- The age of a cached line in the map of a may set that describes the cache.
mapped_age :
    (n x : ℕ) (c : List ℕ) (m : AddrAgeMap) (l : List AbsMemEntry)
    → ((y : ℕ) → find y m ≡ age_in y l)
    → MayState n c l
    → x ≢ 0
    → age n x c < n
    → (is_in_set x l ≡ true) × ((k : ℕ) × (find x m ≡ some k) × (k ≤ age n x c))
mapped_age n x c m l f s z p =
    let cov = s.covered x p in
    let old = is_in_set-covers x (age n x c) l cov in
    let (k, q) = mapped x m l f z old in
    (old, (k, q, age_in-le x (age n x c) k l s.unique (sym (f x) ∙ q) cov))

uncached : {n : ℕ} (x : ℕ) → x ≡ 0 → (c : List ℕ) → age n 0 c ≡ n → age n x c < n → ⊥
uncached {n} x o c z p = let q : age n 0 c < n = subst (λ y. age n y c < n) o p in omega arith

module _ (n : ℕ) (a b : List AbsMemEntry) where
  -- The join of two must sets describes what either of them describes.
  pub join_must-MustState :
      Unique a
      → Unique b
      → Below n a
      → Below n b
      → (l : List AbsMemEntry) × (join_must a b ≡ some l)
        × Unique l
        × Below n l
        × ((c : List ℕ) → All (AtMost n c) a ⊎ All (AtMost n c) b → All (AtMost n c) l)
  unfolding join_must
  join_must-MustState u v below below' =
      let (ma, e, f) = add_map_lem a u in
      let (mb, e', f') = add_map_lem b v in
      let (d, _) = get_unique_lem a b u in
      let addrs = get_unique_mem_addrs_of_sets a b in
      (
        sort_mem_set_by_age (joined_must ma mb addrs),
        rw (e, e'),
        Unique-sort (joined_must ma mb addrs) (joined_must-Unique ma mb addrs d),
        All-sort _ (joined_must ma mb addrs) (
            joined_must-All _ ma mb addrs λ x i j p q. ground (
              arith,
              age_in-All (λ y. y.age < n) x i a below (sym (f x) ∙ p),
              age_in-All (λ y. y.age < n) x j b below' (sym (f' x) ∙ q),
            )),
        λ c h.
            All-sort _ (joined_must ma mb addrs)
              (joined_must-All _ ma mb addrs (older c h ma mb f f')),
      )
    where
      older :
          (c : List ℕ)
          → All (AtMost n c) a ⊎ All (AtMost n c) b
          → (ma mb : AddrAgeMap) → ((x : ℕ) → find x ma ≡ age_in x a)
          → ((x : ℕ) → find x mb ≡ age_in x b)
          → (x i j : ℕ) → find x ma ≡ some i
          → find x mb ≡ some j
          → age n x c ≤ (if ltb j i then i else j)
      older c (inl h) ma mb f f' x i j p q =
          let low : age n x c ≤ i = age_in-All (AtMost n c) x i a h (sym (f x) ∙ p) in ground arith
      older c (inr h) ma mb f f' x i j p q =
          let low : age n x c ≤ j = age_in-All (AtMost n c) x j b h (sym (f' x) ∙ q) in ground arith

  -- The join of two may sets describes what either of them describes, if line 0 is not cached.
  pub join_may-MayState :
      Unique a
      → Unique b
      → (l : List AbsMemEntry) × (join_may a b ≡ some l)
        × Unique l
        × ((c : List ℕ) → age n 0 c ≡ n → MayState n c a ⊎ MayState n c b → MayState n c l)
  unfolding join_may
  join_may-MayState u v =
      let (ma, e, f) = add_map_lem a u in
      let (mb, e', f') = add_map_lem b v in
      let (d, has) = get_unique_lem a b u in
      let addrs = get_unique_mem_addrs_of_sets a b in
      let (l, g, w) =
        joined_may-Union ma mb addrs d (λ x h. present ma mb f f' x (sym (has x) ∙ h)) in
      (
        sort_mem_set_by_age l,
        rw (e, e', g),
        Unique-sort l w.unique,
        λ c z h. record {
          covered = λ x p.
              covers-sort x (age n x c) l
              ∙ cover c ma mb f f' l w has x (λ o. absurd (uncached x o c z p)) p h;
          unique = Unique-sort l w.unique;
        },
      )
    where
      present :
          (ma mb : AddrAgeMap)
          → ((x : ℕ) → find x ma ≡ age_in x a)
          → ((x : ℕ) → find x mb ≡ age_in x b)
          → (x : ℕ) → (if x == 0 then false else is_in_set x a || is_in_set x b) ≡ true
          → (find x ma ≢ none) ⊎ (find x mb ≢ none)
      present ma mb f f' x h = elim (Bool-cases (is_in_set x a)) [
        | inl o ↦ let (k, q) = mapped x ma a f (ground arith) o in inl (λ r. ground arith)
        | inr o ↦
            let (k, q) = mapped x mb b f' (ground arith) (ground arith) in inr (λ r. ground arith)
      ]

      cover :
          (c : List ℕ) (ma mb : AddrAgeMap)
          → ((x : ℕ) → find x ma ≡ age_in x a)
          → ((x : ℕ) → find x mb ≡ age_in x b)
          → (l : List AbsMemEntry) → Union ma mb (get_unique_mem_addrs_of_sets a b) l
          → ((x : ℕ)
              → has_addr x (get_unique_mem_addrs_of_sets a b)
                ≡ (if x == 0 then false else is_in_set x a || is_in_set x b))
          → (x : ℕ) → x ≢ 0
          → age n x c < n
          → MayState n c a ⊎ MayState n c b
          → covers x (age n x c) l ≡ true
      cover c ma mb f f' l w has x z p (inl s) =
          let (old, (k, q, small)) = mapped_age n x c ma a f s z p in
          covers_mono x k (age n x c) l small (w.least x k (has x ∙ ground arith) (inl q))
      cover c ma mb f f' l w has x z p (inr s) =
          let (old, (k, q, small)) = mapped_age n x c mb b f' s z p in
          covers_mono x k (age n x c) l small (w.least x k (has x ∙ ground arith) (inr q))
