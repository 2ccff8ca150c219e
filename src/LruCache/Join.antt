-- ===== src/LruCache/Join.antt =====
-- The join of abstract states at a point that several paths reach: two of them, and a vector.
use isptap.Prelude.{
  ℕ, suc, ◌+◌, ◌-◌, ◌%◌, ◌^◌, ◌≤◌, ◌<◌, ◌≡◌, refl, List, [], ◌∷◌, ◌++◌, some, arith, All, AnyOf,
  AnyOf_only, AnyOf-reverse, All-reverse, length-reverse, length, ◌>>=◌, inl, inr, ◌⊎◌, ◌∙◌, ◌==◌,
  ap,
}
use mathlib.Core.List.{reverse}
use isptap.AbsSet.{AbsMemSet, Sizes, count_state}
use isptap.AbsSet.Unique.{Unique, Below}
use isptap.MemUsage.{MemoryUsageStats, allocated_memory_state}
use isptap.LruCache.{join_two, join_back, join, count_if_two}
use isptap.LruCache.Concrete.{age}
use isptap.LruCache.Must.{MustState}
use isptap.LruCache.May.{MayState}
use isptap.LruCache.Update.{Describes}
pub mod Lines
pub mod Sets
use Sets.{join_must-MustState, join_may-MayState}

-- What the sets of a state that describes some cache of `n` lines satisfy.
abbrev pub WellFormed : ℕ → AbsMemSet → Type 0
WellFormed n s = Unique s.must_set × Below n s.must_set × Unique s.may_set

-- The join of two states that are well formed returns a well-formed state, and it describes each
-- cache that one of them describes, if line 0 is not cached.
pub join_two-Describes :
    (n : ℕ) (a b : AbsMemSet)
    → WellFormed n a
    → WellFormed n b
    → (s : AbsMemSet) × (join_two a b ≡ some s)
      × WellFormed n s
      × ((c : List ℕ) → age n 0 c ≡ n → Describes n c a ⊎ Describes n c b → Describes n c s)
unfolding join_two
join_two-Describes n a b u v =
    let (l, e, d, low, h) = join_must-MustState n a.must_set b.must_set u.0 v.0 u.1 v.1 in
    let (l', e', d', h') = join_may-MayState n a.may_set b.may_set u.2 v.2 in
    (
      record { must_set = l; may_set = l' },
      rw (e, e'),
      (d, low, d'),
      λ c z. elim [
        | inl s ↦ record {
          fits = s.fits;
          must_ok = record { bounds = h c (inl s.must_ok.bounds); below = low; unique = d };
          may_ok = h' c z (inl s.may_ok);
        }
        | inr s ↦ record {
          fits = s.fits;
          must_ok = record { bounds = h c (inr s.must_ok.bounds); below = low; unique = d };
          may_ok = h' c z (inr s.may_ok);
        }
      ],
    )

-- What the join of the vector `states` gives.
abbrev Joins :
    ℕ
    → Sizes
    → List AbsMemSet
    → MemoryUsageStats
    → AbsMemSet
    → List AbsMemSet
    → MemoryUsageStats
    → Type 0
Joins n sizes states stats s left stats' =
    WellFormed n s
    × (length left ≡ 2)
    × (stats'.no_memory_states ≡ (stats.no_memory_states + (length states - 1)) % 2 ^ 64)
    × ((c : List ℕ) → age n 0 c ≡ n → AnyOf (Describes n c) states → Describes n c s)

counts :
    (sizes : Sizes) (s : AbsMemSet) (left : List AbsMemSet) (stats : MemoryUsageStats)
    → length left ≡ 2
    → count_if_two sizes s left stats ≡ count_state sizes s stats
unfolding count_if_two
counts sizes s left stats two = rw two

join_back-Joins :
    (n : ℕ) (sizes : Sizes) (states : List AbsMemSet) (stats : MemoryUsageStats)
    → All (WellFormed n) states
    → 2 ≤ length states
    → (s : AbsMemSet) × (left : List AbsMemSet) × (stats' : MemoryUsageStats) × (join_back sizes
          states stats
        ≡ some (s, left, stats'))
      × Joins n sizes states stats s left stats'
unfolding join_back count_state allocated_memory_state
join_back-Joins n sizes [] stats w h = absurd (omega arith)
join_back-Joins n sizes (b ∷ []) stats w h = absurd (omega arith)
join_back-Joins n sizes (b ∷ a ∷ []) stats w h =
    let (s, e, v, d) = join_two-Describes n a b w.1.0 w.0 in
    (
      s,
      b ∷ a ∷ [],
      count_state sizes s stats,
      rw e,
      (
        v,
        refl,
        omega arith,
        λ c z. elim [
          | inl p ↦ d c z (inr p)
          | inr p ↦ d c z (inl (AnyOf_only (Describes n c) a p))
        ],
      ),
    )
join_back-Joins n sizes (b ∷ c ∷ d ∷ states) stats w h =
    let enough : 2 ≤ length (c ∷ d ∷ states) = omega arith in
    let (a, left, stats', e, (v, two, counted, k)) =
      join_back-Joins n sizes (c ∷ d ∷ states) stats w.1 enough in
    let (s, e', v', k') = join_two-Describes n a b v w.0 in
    (
      s,
      left,
      count_state sizes s stats',
      rw (e, e') (ap (λ r. some (s, left, r)) (counts sizes s left stats' two)),
      (
        v',
        two,
        omega (arith, counted),
        λ x z. elim [ inl p ↦ k' x z (inr p) | inr p ↦ k' x z (inl (k x z p)) ],
      ),
    )

-- The join of at least two well-formed states returns a well-formed state that describes each cache
-- that one of them describes, if line 0 is not cached. It leaves the vector of states with two of
-- them, and has counted one state less than it was given.
pub join-Describes :
    (n : ℕ) (sizes : Sizes) (states : List AbsMemSet) (stats : MemoryUsageStats)
    → All (WellFormed n) states
    → 2 ≤ length states
    → (s : AbsMemSet) × (left : List AbsMemSet) × (stats' : MemoryUsageStats) × (join sizes states
          stats
        ≡ some (s, left, stats'))
      × WellFormed n s
      × (length left ≡ 2)
      × (stats'.no_memory_states ≡ (stats.no_memory_states + (length states - 1)) % 2 ^ 64)
      × ((c : List ℕ) → age n 0 c ≡ n → AnyOf (Describes n c) states → Describes n c s)
unfolding join
join-Describes n sizes states stats w h =
    let (s, left, stats', e, (v, two, counted, k)) =
      join_back-Joins n sizes (reverse states) stats (All-reverse _ states w)
        (omega (arith, length-reverse states)) in
    (
      s,
      left,
      stats',
      e,
      v,
      two,
      counted ∙ ap (λ (i : ℕ). (stats.no_memory_states + (i - 1)) % 2 ^ 64) (length-reverse states),
      λ c z p. k c z (AnyOf-reverse (Describes n c) states p),
    )
