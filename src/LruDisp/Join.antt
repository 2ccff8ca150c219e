-- ===== src/LruDisp/Join.antt =====
-- The join of abstract states at a node that several paths reach.
use isptap.Prelude.{
  ℕ, ◌≡◌, ◌≢◌, ◌⊎◌, refl, true, false, List, [], ◌∷◌, Option, some, none, ltb, if◌then◌else◌, ◌==◌,
  ◌||◌, arith, inl, inr, All, Bool-cases, sym, ◌∙◌, ap, >>=-eq-some, some_injective,
}
use mathlib.Core.Path.{subst}
use isptap.AbsSet.{
  AbsMemEntry, AbsMemSet, is_in_set, has_addr, sort_mem_set_by_age, AddrAgeMap, find,
  get_unique_mem_addrs_of_sets,
}
use isptap.AbsSet.Unique.{Unique, covers, covers_mono, is_in_set-covers}
use isptap.AbsSet.Sort.{All-sort, Unique-sort, covers-sort}
use isptap.AbsSet.Addresses.{get_unique_lem, age_in, age_in-All, age_in-le, add_map_lem}
use isptap.FifoCache.{in_content}
use isptap.LruCache.{may_line, joined_must, joined_may, join_must, join_may}
use isptap.LruCache.Join.Lines.{joined_must-All, joined_must-Unique, joined_may-Union, Union}
use isptap.LruCache.Join.Sets.{mapped}
use isptap.Disp.{DispParams}
use isptap.LruDisp.Concrete.{before}
use isptap.LruDisp.MustSet.{Lies, Holds}
use isptap.LruDisp.Access.{MayState}

may_line_age :
    (P : AbsMemEntry → Type 0) (a : ℕ) (o q : Option ℕ) (e : AbsMemEntry)
    → ((x : ℕ) → (o ≡ some x) ⊎ (q ≡ some x) → P (record { address = a; age = x }))
    → may_line a o q ≡ some e
    → P e
unfolding may_line
may_line_age P a (some x) (some y) e h m = elim (Bool-cases (ltb y x)) [
  | inl b ↦ subst P (some_injective (rw b at m)) (h y (inr refl))
  | inr b ↦ subst P (some_injective (rw b at m)) (h x (inl refl))
]
may_line_age P a (some x) none e h m = subst P (some_injective m) (h x (inl refl))
may_line_age P a none (some y) e h m = subst P (some_injective m) (h y (inr refl))
may_line_age P a none none e h m = cc

-- Every line of the joined may set has the age of one of the maps.
joined_may-All :
    (P : AbsMemEntry → Type 0) (ma mb : AddrAgeMap) (addrs : List ℕ) (l : List AbsMemEntry)
    → ((a x : ℕ)
        → (find a ma ≡ some x) ⊎ (find a mb ≡ some x)
        → P (record { address = a; age = x }))
    → joined_may ma mb addrs ≡ some l
    → All P l
unfolding joined_may
joined_may-All P ma mb [] l h e = subst (All P) (some_injective e) tt
joined_may-All P ma mb (a ∷ addrs) l h e =
    let (x, p, q) = >>=-eq-some (may_line a (find a ma) (find a mb)) _ e in
    let (k, p', q') = >>=-eq-some (joined_may ma mb addrs) _ q in
    subst (All P) (some_injective q')
      (may_line_age P a (find a ma) (find a mb) x (h a) p, joined_may-All P ma mb addrs k h p')

-- What the sets of a state that describes some scratchpad satisfy.
pub record WellFormed (p : DispParams) (s : AbsMemSet) : Type 0 where
  pub must_lies : All (Lies p) s.must_set
  pub must_unique : Unique s.must_set
  pub may_lies : All (Lies p) s.may_set
  pub may_unique : Unique s.may_set

pub both_All :
    (P Q : AbsMemEntry → Type 0) (l : List AbsMemEntry) → All P l → All Q l → All (λ e. P e × Q e) l
both_All P Q [] h k = tt
both_All P Q (e ∷ l) h k = ((h.0, k.0), both_All P Q l h.1 k.1)

pub first_All :
    (P Q : AbsMemEntry → Type 0) (l : List AbsMemEntry) → All (λ e. P e × Q e) l → All P l
first_All P Q [] h = tt
first_All P Q (e ∷ l) h = (h.0.0, first_All P Q l h.1)

module _ (p : DispParams) (a b : List AbsMemEntry) (ua : Unique a) (ub : Unique b)
    (la : All (Lies p) a) (lb : All (Lies p) b) where
  pub join_must_lem :
      (l : List AbsMemEntry) × (join_must a b ≡ some l)
      × Unique l
      × All (Lies p) l
      × ((c : List ℕ) → All (Holds p c) a ⊎ All (Holds p c) b → All (Holds p c) l)
  unfolding join_must
  join_must_lem =
      let (ma, e, f) = add_map_lem a ua in
      let (mb, e', f') = add_map_lem b ub in
      let (d, _) = get_unique_lem a b ua in
      let addrs = get_unique_mem_addrs_of_sets a b in
      (
        sort_mem_set_by_age (joined_must ma mb addrs),
        rw (e, e') refl,
        Unique-sort (joined_must ma mb addrs) (joined_must-Unique ma mb addrs d),
        All-sort _ (joined_must ma mb addrs) (
            joined_must-All _ ma mb addrs λ x i j q r.
              lies_greater x i j (age_in-All (Lies p) x i a la (sym (f x) ∙ q))
                (age_in-All (Lies p) x j b lb (sym (f' x) ∙ r))),
        λ c h.
            All-sort _ (joined_must ma mb addrs)
              (joined_must-All _ ma mb addrs (greater c h ma mb f f')),
      )
    where
      lies_greater :
          (x i j : ℕ)
          → Lies p (record { address = x; age = i })
          → Lies p (record { address = x; age = j })
          → Lies p (record { address = x; age = if ltb j i then i else j })
      lies_greater x i j h k = (ground (arith, h.0, k.0), h.1)

      greater :
          (c : List ℕ)
          → All (Holds p c) a ⊎ All (Holds p c) b
          → (ma mb : AddrAgeMap) → ((x : ℕ) → find x ma ≡ age_in x a)
          → ((x : ℕ) → find x mb ≡ age_in x b)
          → (x i j : ℕ) → find x ma ≡ some i
          → find x mb ≡ some j
          → Holds p c (record { address = x; age = if ltb j i then i else j })
      greater c (inl h) ma mb f f' x i j q r =
          let w = age_in-All (Holds p c) x i a h (sym (f x) ∙ q) in (w.0, ground (arith, w.1))
      greater c (inr h) ma mb f f' x i j q r =
          let w = age_in-All (Holds p c) x j b h (sym (f' x) ∙ r) in (w.0, ground (arith, w.1))

  pub join_may_lem :
      (l : List AbsMemEntry) × (join_may a b ≡ some l)
      × Unique l
      × All (Lies p) l
      × ((c : List ℕ)
          → in_content 0 c ≡ false
          → MayState p c a ⊎ MayState p c b
          → (g : ℕ) → in_content g c ≡ true
          → covers g (before p g c) l ≡ true)
  unfolding join_may
  join_may_lem =
      let (ma, e, f) = add_map_lem a ua in
      let (mb, e', f') = add_map_lem b ub in
      let (d, has) = get_unique_lem a b ua in
      let addrs = get_unique_mem_addrs_of_sets a b in
      let (l, q, w) =
        joined_may-Union ma mb addrs d (λ x h. present ma mb f f' x (sym (has x) ∙ h)) in
      (
        sort_mem_set_by_age l,
        rw (e, e', q) refl,
        Unique-sort l w.unique,
        All-sort _ l (
            joined_may-All (Lies p) ma mb addrs l
              (λ x i. elim [
                | inl r ↦ age_in-All (Lies p) x i a la (sym (f x) ∙ r)
                | inr r ↦ age_in-All (Lies p) x i b lb (sym (f' x) ∙ r)
              ])
              q),
        λ c z h g is_in.
            covers-sort g (before p g c) l
            ∙ cover c ma mb f f' l w has g
                (λ o. cc (sym (ap (λ x. in_content x c) o) ∙ is_in ∙ refl)) is_in h,
      )
    where
      present :
          (ma mb : AddrAgeMap)
          → ((x : ℕ) → find x ma ≡ age_in x a)
          → ((x : ℕ) → find x mb ≡ age_in x b)
          → (x : ℕ) → (if x == 0 then false else is_in_set x a || is_in_set x b) ≡ true
          → (find x ma ≢ none) ⊎ (find x mb ≢ none)
      present ma mb f f' x h = elim (Bool-cases (is_in_set x a)) [
        | inl o ↦ let (k, q) = mapped x ma a f (ground arith) o in inl (λ r. ground arith)
        | inr o ↦
            let (k, q) = mapped x mb b f' (ground arith) (ground arith) in inr (λ r. ground arith)
      ]

      cover :
          (c : List ℕ) (ma mb : AddrAgeMap)
          → ((x : ℕ) → find x ma ≡ age_in x a)
          → ((x : ℕ) → find x mb ≡ age_in x b)
          → (l : List AbsMemEntry) → Union ma mb (get_unique_mem_addrs_of_sets a b) l
          → ((x : ℕ)
              → has_addr x (get_unique_mem_addrs_of_sets a b)
                ≡ (if x == 0 then false else is_in_set x a || is_in_set x b))
          → (x : ℕ) → x ≢ 0
          → in_content x c ≡ true
          → MayState p c a ⊎ MayState p c b
          → covers x (before p x c) l ≡ true
      cover c ma mb f f' l w has x z h (inl s) =
          let cov = s.covered x h in
          let old = is_in_set-covers x (before p x c) a cov in
          let (k, q) = mapped x ma a f z old in
          let low = age_in-le x (before p x c) k a s.unique (sym (f x) ∙ q) cov in
          covers_mono x k (before p x c) l low (w.least x k (has x ∙ ground arith) (inl q))
      cover c ma mb f f' l w has x z h (inr s) =
          let cov = s.covered x h in
          let old = is_in_set-covers x (before p x c) b cov in
          let (k, q) = mapped x mb b f' z old in
          let low = age_in-le x (before p x c) k b s.unique (sym (f' x) ∙ q) cov in
          covers_mono x k (before p x c) l low (w.least x k (has x ∙ ground arith) (inr q))
