-- ===== src/LruDisp/JoinAll.antt =====
-- The join of two states and of a vector of states.
use isptap.Prelude.{
  ℕ, ◌+◌, ◌%◌, ◌^◌, ◌≤◌, ◌≡◌, ◌⊎◌, refl, false, List, [], ◌∷◌, some, arith, inl, inr, All, AnyOf,
  AnyOf_only, AnyOf-reverse, All-reverse, length-reverse, length,
}
use mathlib.Core.List.{reverse}
use isptap.MemUsage.{MemoryUsageStats, allocated_memory_state}
use isptap.AbsSet.{AbsMemSet, Sizes, count_state}
use isptap.FifoCache.{in_content}
use isptap.LruCache.{join_two}
use isptap.Disp.{DispParams}
use isptap.LruDisp.{join_back, join}
use isptap.LruDisp.Access.{DescribesPad}
use isptap.LruDisp.Join.{WellFormed, both_All, first_All, join_must_lem, join_may_lem}

module _ (p : DispParams) where
  join_two_lem :
      (a b : AbsMemSet)
      → WellFormed p a
      → WellFormed p b
      → (s : AbsMemSet) × (join_two a b ≡ some s)
        × WellFormed p s
        × ((c : List ℕ)
            → in_content 0 c ≡ false
            → DescribesPad p c a ⊎ DescribesPad p c b
            → DescribesPad p c s)
  unfolding join_two
  join_two_lem a b u v =
      let (l, e, d, lies, h) =
        join_must_lem p a.must_set b.must_set u.must_unique v.must_unique u.must_lies v.must_lies in
      let (l', e', d', lies', h') =
        join_may_lem p a.may_set b.may_set u.may_unique v.may_unique u.may_lies v.may_lies in
      (
        record { must_set = l; may_set = l' },
        rw (e, e') refl,
        record { must_lies = lies; must_unique = d; may_lies = lies'; may_unique = d' },
        λ c z. elim [
          | inl s ↦ record {
            fits = s.fits;
            must_ok = record {
              bounds = both_All _ _ l (h c (inl (first_All _ _ a.must_set s.must_ok.bounds))) lies;
              unique = d;
            };
            may_ok = record { covered = h' c z (inl s.may_ok); lies = lies'; unique = d' };
          }
          | inr s ↦ record {
            fits = s.fits;
            must_ok = record {
              bounds = both_All _ _ l (h c (inr (first_All _ _ b.must_set s.must_ok.bounds))) lies;
              unique = d;
            };
            may_ok = record { covered = h' c z (inr s.may_ok); lies = lies'; unique = d' };
          }
        ],
      )

  -- The state describes each scratchpad without a function at address 0 that one of `states` describes,
  -- and one state is counted.
  abbrev pub JoinsPad : List AbsMemSet → MemoryUsageStats → AbsMemSet → MemoryUsageStats → Type 0
  JoinsPad states stats s stats' =
      WellFormed p s
      × (stats'.no_memory_states ≡ (stats.no_memory_states + 1) % 2 ^ 64)
      × ((c : List ℕ)
          → in_content 0 c ≡ false
          → AnyOf (DescribesPad p c) states
          → DescribesPad p c s)

  join_back_lem :
      (sizes : Sizes) (states : List AbsMemSet) (stats : MemoryUsageStats)
      → All (WellFormed p) states
      → 2 ≤ length states
      → (s : AbsMemSet) × (left : List AbsMemSet) × (stats' : MemoryUsageStats) × (join_back sizes
            states stats
          ≡ some (s, left, stats'))
        × (length left ≡ 2)
        × JoinsPad states stats s stats'
  unfolding join_back count_state allocated_memory_state
  join_back_lem sizes [] stats w h = absurd (omega arith)
  join_back_lem sizes (b ∷ []) stats w h = absurd (omega arith)
  join_back_lem sizes (b ∷ a ∷ []) stats w h =
      let (s, e, v, d) = join_two_lem a b w.1.0 w.0 in
      (
        s,
        b ∷ a ∷ [],
        count_state sizes s stats,
        rw e refl,
        refl,
        (
          v,
          refl,
          λ c z. elim [
            | inl k ↦ d c z (inr k)
            | inr k ↦ d c z (inl (AnyOf_only (DescribesPad p c) a k))
          ],
        ),
      )
  join_back_lem sizes (b ∷ c ∷ d ∷ states) stats w h =
      let enough : 2 ≤ length (c ∷ d ∷ states) = omega arith in
      let (a, left, stats', e, kept, (v, counted, k)) =
        join_back_lem sizes (c ∷ d ∷ states) stats w.1 enough in
      let (s, e', v', k') = join_two_lem a b v w.0 in
      (
        s,
        left,
        stats',
        rw (e, e') refl,
        kept,
        (v', counted, λ x z. elim [ inl q ↦ k' x z (inr q) | inr q ↦ k' x z (inl (k x z q)) ]),
      )

  -- The join of at least two well-formed states returns a well-formed state, fails no assertion and
  -- counts one memory state; the result describes each scratchpad that one of the states describes and
  -- that has no function at address 0.
  pub join-DescribesPad :
      (sizes : Sizes) (states : List AbsMemSet) (stats : MemoryUsageStats)
      → All (WellFormed p) states
      → 2 ≤ length states
      → (s : AbsMemSet) × (left : List AbsMemSet) × (stats' : MemoryUsageStats) × (join sizes states
            stats
          ≡ some (s, left, stats'))
        × WellFormed p s
        × (stats'.no_memory_states ≡ (stats.no_memory_states + 1) % 2 ^ 64)
        × ((c : List ℕ)
            → in_content 0 c ≡ false
            → AnyOf (DescribesPad p c) states
            → DescribesPad p c s)
  unfolding join
  join-DescribesPad sizes states stats w h =
      let (s, left, stats', e, _, (v, counted, k)) =
        join_back_lem sizes (reverse states) stats (All-reverse _ states w)
          (omega (arith, h, length-reverse states)) in
      (s, left, stats', e, v, counted, λ c z q. k c z (AnyOf-reverse (DescribesPad p c) states q))
