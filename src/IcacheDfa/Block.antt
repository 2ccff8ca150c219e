-- ===== src/IcacheDfa/Block.antt =====
-- The costs of a block, against the accesses of each cache that its state describes.
use isptap.Prelude.{
  ℕ, suc, ◌+◌, ◌*◌, ◌%◌, ◌^◌, ◌≤◌, ◌<◌, ◌≡◌, refl, Bool, true, false, List, [], ◌∷◌, some, arith,
  length, inl, inr, Bool-cases,
}
use isptap.MemUsage.{MemoryUsageStats}
use isptap.AbsSet.{AbsMemSet, is_in_set}
use isptap.MemStateGraph.{MemStateGraph}
use isptap.IcacheDfa.{CacheStateMaintainer, CacheParams}
use isptap.IcacheDfa.Sound.{ConcreteCache, count_misses, SoundMaintainer}
use isptap.IcacheDfa.Costs.{BlockCosts, count_access, each_access}

-- The counters after `n` more accesses, `missed` of which missed.
pub record Counts (miss_cost n missed : ℕ) (k k' : BlockCosts) : Type 0 where
  pub cost_eq : k'.cache_cost ≡ miss_cost * (k'.misses + k'.ncs)
  pub all_counted : k'.hits + k'.misses + k'.ncs ≡ k.hits + k.misses + k.ncs + n
  pub hits_grow : k.hits ≤ k'.hits
  pub misses_sure : k'.misses ≤ k.misses + missed
  pub misses_covered : k.misses + k.ncs + missed ≤ k'.misses + k'.ncs

abbrev pub missed_one : Bool → ℕ
missed_one true = 0
missed_one false = 1

-- One access, whose line is cached (`hit`) or not.
count_access-Counts :
    (miss_cost : ℕ) (in_must in_may hit : Bool) (k : BlockCosts)
    → (in_must ≡ true → hit ≡ true)
    → (in_may ≡ false → hit ≡ false)
    → k.cache_cost ≡ miss_cost * (k.misses + k.ncs)
    → k.hits + k.misses + k.ncs + 1 < 2 ^ 16
    → k.cache_cost + miss_cost < 2 ^ 32
    → Counts miss_cost 1 (missed_one hit) k (count_access miss_cost in_must in_may k)
unfolding count_access
count_access-Counts c true in_may hit k must may e n b = record {
  cost_eq = e;
  all_counted = omega arith;
  hits_grow = omega arith;
  misses_sure = omega arith;
  misses_covered = rw (must refl) (omega arith);
}
count_access-Counts c false true hit k must may e n b = record {
  cost_eq = next_cost;
  all_counted = omega arith;
  hits_grow = omega arith;
  misses_sure = omega arith;
  misses_covered = at_most_one hit;
}
  where
    next_cost : (k.cache_cost + c) % 2 ^ 32 ≡ c * (k.misses + (k.ncs + 1) % 2 ^ 16)
    next_cost =
        let w : (k.ncs + 1) % 2 ^ 16 ≡ k.ncs + 1 = omega arith in
        let d : c * (k.misses + (k.ncs + 1)) ≡ c * (k.misses + k.ncs) + c = grind arith in
        rw w (omega (arith, d, e))

    at_most_one : (hit : Bool) → k.misses + k.ncs + missed_one hit ≤ k.misses + (k.ncs + 1) % 2 ^ 16
    at_most_one true = omega arith
    at_most_one false = omega arith
count_access-Counts c false false hit k must may e n b = record {
  cost_eq = next_cost;
  all_counted = omega arith;
  hits_grow = omega arith;
  misses_sure = rw (may refl) (omega arith);
  misses_covered = rw (may refl) (omega arith);
}
  where
    next_cost : (k.cache_cost + c) % 2 ^ 32 ≡ c * ((k.misses + 1) % 2 ^ 16 + k.ncs)
    next_cost =
        let w : (k.misses + 1) % 2 ^ 16 ≡ k.misses + 1 = omega arith in
        let d : c * (k.misses + 1 + k.ncs) ≡ c * (k.misses + k.ncs) + c = grind arith in
        rw w (omega (arith, d, e))

module _ {C : Type 0} (cache : ConcreteCache C) (m : CacheStateMaintainer)
    (Describes : C → AbsMemSet → Type 0) (sound : SoundMaintainer cache m Describes)
    (p : CacheParams) (g : MemStateGraph) (entry miss_cost : ℕ) where
  cost_step :
      (k k' : BlockCosts) (n hit : ℕ)
      → Counts miss_cost 1 hit k k'
      → k.cache_cost ≡ miss_cost * (k.misses + k.ncs)
      → k.cache_cost + suc n * miss_cost < 2 ^ 32
      → k'.cache_cost + n * miss_cost < 2 ^ 32
  cost_step k k' n hit s e b =
      let w : k'.misses + k'.ncs ≤ k.misses + k.ncs + 1 =
        omega (arith, s.all_counted, s.hits_grow) in
      let d : miss_cost * (k'.misses + k'.ncs) ≤ miss_cost * (k.misses + k.ncs + 1) =
        grind (arith, w) in
      let d' : miss_cost * (k.misses + k.ncs + 1) ≡ miss_cost * (k.misses + k.ncs) + miss_cost =
        grind arith in
      let d'' : suc n * miss_cost ≡ n * miss_cost + miss_cost = grind arith in
      omega (arith, s.cost_eq, d, d', d'', e)

  first_fits :
      (k : BlockCosts) (n : ℕ)
      → k.cache_cost + suc n * miss_cost < 2 ^ 32
      → k.cache_cost + miss_cost < 2 ^ 32
  first_fits k n b =
      let d : suc n * miss_cost ≡ n * miss_cost + miss_cost = grind arith in omega (arith, d)

  count_misses-cons :
      (a : ℕ) (l : List ℕ) (c : C)
      → count_misses cache (a ∷ l) c
        ≡ missed_one (cache.has_line a c) + count_misses cache l (cache.access a c)
  unfolding count_misses
  count_misses-cons a l c = elim (Bool-cases (cache.has_line a c)) [
    | inl h ↦ rw h (omega arith)
    | inr h ↦ rw h (omega arith)
  ]

  then_Counts :
      (n x y z : ℕ) (k k1 k' : BlockCosts)
      → Counts miss_cost 1 x k k1
      → Counts miss_cost n y k1 k'
      → z ≡ x + y
      → Counts miss_cost (suc n) z k k'
  then_Counts n x y z k k1 k' s t e = record {
    cost_eq = t.cost_eq;
    all_counted = omega (arith, s.all_counted, t.all_counted);
    hits_grow = omega (arith, s.hits_grow, t.hits_grow);
    misses_sure = omega (arith, s.misses_sure, t.misses_sure);
    misses_covered = omega (arith, s.misses_covered, t.misses_covered);
  }

  pub each_access-Counts :
      (l : List ℕ) (s : AbsMemSet) (c : C) (k : BlockCosts) (stats : MemoryUsageStats)
      → Describes c s
      → k.cache_cost ≡ miss_cost * (k.misses + k.ncs)
      → k.hits + k.misses + k.ncs + length l < 2 ^ 16
      → k.cache_cost + length l * miss_cost < 2 ^ 32
      → (k' : BlockCosts) × (stats' : MemoryUsageStats) × (each_access m p g entry
            (λ a. count_access miss_cost)
            l
            s
            k
            stats
          ≡ some (k', stats'))
        × Counts miss_cost (length l) (count_misses cache l c) k k'
  unfolding each_access count_misses
  each_access-Counts [] s c k stats d e n b = (
    k,
    stats,
    refl,
    record {
      cost_eq = e;
      all_counted = omega arith;
      hits_grow = omega arith;
      misses_sure = omega arith;
      misses_covered = omega arith;
    },
  )
  each_access-Counts (a ∷ l) s c k stats d e n b =
      let hit = cache.has_line a c in
      let first =
        count_access-Counts miss_cost (is_in_set a s.must_set) (is_in_set a s.may_set) hit k
          (sound.must_sound a c s d) (sound.may_sound a c s d) e (omega arith)
          (first_fits k (length l) b) in
      let (s', stats', r, d') = sound.update_one_sound s a false stats c d in
      let k1 = count_access miss_cost (is_in_set a s.must_set) (is_in_set a s.may_set) k in
      let (k', stats'', r', rest) =
        each_access-Counts l s' (cache.access a c) k1 stats' d' first.cost_eq
          (omega (arith, first.all_counted))
          (cost_step k k1 (length l) (missed_one hit) first e b) in
      (
        k',
        stats'',
        next_eq s' stats' k' stats'' r r',
        then_Counts (length l) (missed_one hit) (count_misses cache l (cache.access a c))
            (count_misses cache (a ∷ l) c) k k1 k' first rest (count_misses-cons a l c),
      )
    where
      next_eq :
          (s' : AbsMemSet) (stats' : MemoryUsageStats) (k' : BlockCosts)
          (stats'' : MemoryUsageStats)
          → m.update_one s a false stats ≡ some (s', stats')
          → each_access m p g entry
              (λ a. count_access miss_cost)
              l
              s'
              (count_access miss_cost (is_in_set a s.must_set) (is_in_set a s.may_set) k)
              stats'
            ≡ some (k', stats'')
          → each_access m p g entry (λ a. count_access miss_cost) (a ∷ l) s k stats
            ≡ some (k', stats'')
      next_eq s' stats' k' stats'' r r' = rw r r'
