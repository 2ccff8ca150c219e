-- ===== src/DmCache/JoinAll.antt =====
-- The join of a vector of abstract states of a direct mapped cache.
use isptap.Prelude.{
  ℕ, ◌+◌, ◌-◌, ◌%◌, ◌^◌, ◌≤◌, ◌≡◌, refl, ◌≢◌, List, [], ◌∷◌, some, arith, AnyOf, AnyOf_only,
  AnyOf-reverse, length-reverse, length, inl, inr, ◌∙◌, ap,
}
use mathlib.Core.List.{reverse}
use isptap.AbsSet.{AbsMemSet, Sizes, count_state}
use isptap.MemUsage.{MemoryUsageStats, allocated_memory_state}
use isptap.DmCache.{CacheParams, line_index, join_two, join_back, join}
use isptap.DmCache.Update.{Cache, Describes}
use isptap.DmCache.Join.{join_two-Describes}

-- What the join of the vector `states` gives.
abbrev Joins :
    CacheParams
    → List AbsMemSet
    → MemoryUsageStats
    → AbsMemSet
    → List AbsMemSet
    → MemoryUsageStats
    → Type 0
Joins p states stats s left stats' =
    (length left ≡ 2)
    × (stats'.no_memory_states ≡ (stats.no_memory_states + (length states - 1)) % 2 ^ 64)
    × ((c : Cache) → c (line_index p 0) ≢ some 0 → AnyOf (Describes p c) states → Describes p c s)

join_back-Joins :
    (p : CacheParams) (sizes : Sizes) (states : List AbsMemSet) (stats : MemoryUsageStats)
    → 2 ≤ length states
    → (s : AbsMemSet) × (left : List AbsMemSet) × (stats' : MemoryUsageStats) × (join_back p sizes
          states stats
        ≡ some (s, left, stats'))
      × Joins p states stats s left stats'
unfolding join_back count_state allocated_memory_state
join_back-Joins p sizes [] stats h = absurd (omega arith)
join_back-Joins p sizes (b ∷ []) stats h = absurd (omega arith)
join_back-Joins p sizes (b ∷ a ∷ []) stats h = (
  join_two p a b,
  b ∷ a ∷ [],
  count_state sizes (join_two p a b) stats,
  refl,
  (
    refl,
    omega arith,
    λ c z. elim [
      | inl d ↦ join_two-Describes p a b c z (inr d)
      | inr d ↦ join_two-Describes p a b c z (inl (AnyOf_only (Describes p c) a d))
    ],
  ),
)
join_back-Joins p sizes (b ∷ c ∷ d ∷ states) stats h =
    let enough : 2 ≤ length (c ∷ d ∷ states) = omega arith in
    let (a, left, stats', e, (two, counted, k)) =
      join_back-Joins p sizes (c ∷ d ∷ states) stats enough in
    (
      join_two p a b,
      left,
      count_state sizes (join_two p a b) stats',
      rw e,
      (
        two,
        omega (arith, counted),
        λ x z. elim [
          | inl q ↦ join_two-Describes p a b x z (inr q)
          | inr q ↦ join_two-Describes p a b x z (inl (k x z q))
        ],
      ),
    )

-- The join of at least two states returns a state that describes each cache that one of them
-- describes, if line 0 is not cached. It leaves the vector of states with two of them, and has
-- counted one state less than it was given.
pub dm_join-Describes :
    (p : CacheParams) (sizes : Sizes) (states : List AbsMemSet) (stats : MemoryUsageStats)
    → 2 ≤ length states
    → (s : AbsMemSet) × (left : List AbsMemSet) × (stats' : MemoryUsageStats) × (join p sizes states
          stats
        ≡ some (s, left, stats'))
      × (length left ≡ 2)
      × (stats'.no_memory_states ≡ (stats.no_memory_states + (length states - 1)) % 2 ^ 64)
      × ((c : Cache) → c (line_index p 0) ≢ some 0 → AnyOf (Describes p c) states → Describes p c s)
unfolding join
dm_join-Describes p sizes states stats h =
    let (s, left, stats', e, (two, counted, k)) =
      join_back-Joins p sizes (reverse states) stats (omega (arith, length-reverse states)) in
    (
      s,
      left,
      stats',
      e,
      two,
      counted ∙ ap (λ (i : ℕ). (stats.no_memory_states + (i - 1)) % 2 ^ 64) (length-reverse states),
      λ c z q. k c z (AnyOf-reverse (Describes p c) states q),
    )
