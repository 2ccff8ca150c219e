-- ===== src/IcacheDfa/Penalty.antt =====
-- The penalties of the edges and the counters of the vertices, against the caches that reach them.
use isptap.Prelude.{
  map, ℕ, ◌+◌, ◌*◌, ◌^◌, ◌≤◌, ◌<◌, ◌≡◌, ◌≢◌, refl, ap, sym, ◌∙◌, true, false, List, [], ◌∷◌, some,
  arith, length, inl, inr, Bool-cases, ◌==◌,
}
use mathlib.Core.List.{Memᴰ}
use mathlib.Core.List.Memᴰ
use mathlib.Core.Path.{subst}
use isptap.MemUsage.{MemoryUsageStats}
use isptap.AbsSet.{AbsMemSet}
use isptap.MemStateGraph.{Edge, MemStateGraph, basic_block}
use isptap.IcacheDfa.{CacheStateMaintainer, CacheParams, DfaState, lines_of}
use isptap.IcacheDfa.Lines.{Laid}
use isptap.IcacheDfa.Loaded.{lines_loaded}
use isptap.IcacheDfa.Sound.{ConcreteCache, count_misses, SoundMaintainer}
use isptap.IcacheDfa.Arrives.{Arrives, Known}
use isptap.IcacheDfa.Block.{Counts, each_access-Counts}
use isptap.IcacheDfa.Costs.{BlockCosts, block_costs, put_on_edge, put_penalty}

-- The edges lead from and to the same vertices.
abbrev pub SameEnds : Edge → Edge → Type 0
SameEnds e e' = (e'.source ≡ e.source) × (e'.target ≡ e.target) × (e'.edge_type ≡ e.edge_type)

-- The edges of the one list are in the other one, with other penalties.
abbrev pub Keeps : List Edge → List Edge → Type 0
Keeps es es' = (e : Edge) → Memᴰ e es → (e' : Edge) × Memᴰ e' es' × SameEnds e e'

abbrev pub bare : Edge → Edge
bare e = record e { dynamic_mem_penalty = 0 }

-- The lists have the same edges in the same order, but for their penalties.
abbrev pub SameEdges : List Edge → List Edge → Type 0
SameEdges es es' = map bare es' ≡ map bare es

module _ (v cost : ℕ) where
  put_on_edge-SameEnds : (x : Edge) → SameEnds x (put_on_edge v cost x)
  unfolding put_on_edge
  put_on_edge-SameEnds x = elim (Bool-cases (x.source == v)) [
    | inl b ↦ rw b (refl, refl, refl)
    | inr b ↦ rw b (refl, refl, refl)
  ]

  put_on_edge-here : (x : Edge) → x.source ≡ v → (put_on_edge v cost x).dynamic_mem_penalty ≡ cost
  unfolding put_on_edge
  put_on_edge-here x h = let b : (x.source == v) ≡ true = ground arith in rw b refl

  put_on_edge-there : (x : Edge) → x.source ≢ v → put_on_edge v cost x ≡ x
  unfolding put_on_edge
  put_on_edge-there x h = let b : (x.source == v) ≡ false = ground arith in rw b refl

  source_of : (x e : Edge) → e ≡ put_on_edge v cost x → x.source ≡ e.source
  source_of x e q = sym (ap (λ (y : Edge). y.source) q ∙ (put_on_edge-SameEnds x).0)

  pub put_penalty-here :
      (es : List Edge) (e : Edge)
      → Memᴰ e (put_penalty v cost es)
      → e.source ≡ v
      → e.dynamic_mem_penalty ≡ cost
  unfolding put_penalty
  put_penalty-here [] e m h = absurd (Memᴰ.not-nil m)
  put_penalty-here (x ∷ es) e m h = elim (Memᴰ.cases_cons m) [
    | inl q ↦ ap (λ (y : Edge). y.dynamic_mem_penalty) q ∙ put_on_edge-here x (source_of x e q ∙ h)
    | inr m' ↦ put_penalty-here es e m' h
  ]

  pub put_penalty-there :
      (es : List Edge) (e : Edge) → Memᴰ e (put_penalty v cost es) → e.source ≢ v → Memᴰ e es
  unfolding put_penalty
  put_penalty-there [] e m h = absurd (Memᴰ.not-nil m)
  put_penalty-there (x ∷ es) e m h = elim (Memᴰ.cases_cons m) [
    | inl q ↦ Memᴰ.head (q ∙ put_on_edge-there x (λ r. h (sym (source_of x e q) ∙ r)))
    | inr m' ↦ Memᴰ.tail (put_penalty-there es e m' h)
  ]

  put_on_edge-bare : (x : Edge) → bare (put_on_edge v cost x) ≡ bare x
  unfolding put_on_edge
  put_on_edge-bare x = elim (Bool-cases (x.source == v)) [ inl b ↦ rw b refl | inr b ↦ rw b refl ]

  pub put_penalty-SameEdges : (es : List Edge) → SameEdges es (put_penalty v cost es)
  unfolding put_penalty
  put_penalty-SameEdges [] = refl
  put_penalty-SameEdges (x ∷ es) = rw (put_on_edge-bare x, put_penalty-SameEdges es) refl

  pub put_penalty-Keeps : (es : List Edge) → Keeps es (put_penalty v cost es)
  unfolding put_penalty
  put_penalty-Keeps [] e m = absurd (Memᴰ.not-nil m)
  put_penalty-Keeps (x ∷ es) e m = elim (Memᴰ.cases_cons m) [
    | inl q ↦ (put_on_edge v cost x, Memᴰ.head refl, rw q (put_on_edge-SameEnds x))
    | inr m' ↦ let (e', m'', h) = put_penalty-Keeps es e m' in (e', Memᴰ.tail m'', h)
  ]

-- Where an edge of the second list comes from.
pub SameEdges-mem :
    (es es' : List Edge) (e' : Edge)
    → SameEdges es es'
    → Memᴰ e' es'
    → (e : Edge) × Memᴰ e es × SameEnds e e'
SameEdges-mem [] [] e' q m = absurd (Memᴰ.not-nil m)
SameEdges-mem [] (x' ∷ es') e' q m = cc
SameEdges-mem (x ∷ es) [] e' q m = absurd (Memᴰ.not-nil m)
SameEdges-mem (x ∷ es) (x' ∷ es') e' q m = elim (Memᴰ.cases_cons m) [
  | inl r ↦
      let h : bare e' ≡ bare x = ap bare r ∙ heads q in
      (
        x,
        Memᴰ.head refl,
        (
          ap (λ (y : Edge). y.source) h,
          ap (λ (y : Edge). y.target) h,
          ap (λ (y : Edge). y.edge_type) h,
        ),
      )
  | inr m' ↦ let (e, k, s) = SameEdges-mem es es' e' (tails q) m' in (e, Memᴰ.tail k, s)
]
  where
    heads : {x y : Edge} {l l' : List Edge} → x ∷ l ≡ y ∷ l' → x ≡ y
    heads z = cc

    tails : {x y : Edge} {l l' : List Edge} → x ∷ l ≡ y ∷ l' → l ≡ l'
    tails z = cc

module _ {C : Type 0} (cache : ConcreteCache C) (m : CacheStateMaintainer)
    (Describes : C → AbsMemSet → Type 0) (sound : SoundMaintainer cache m Describes)
    (p : CacheParams) (g : MemStateGraph) (entry : ℕ)
    (blocks : (v : ℕ) → (g.cfg_node v).node_type ≡ basic_block → Laid p (g.cfg_node v))
    (miss_cost : ℕ) (d : DfaState) where
  -- The lines of the block are few enough for the counters.
  abbrev pub Small : ℕ → Type 0
  Small v =
      (l : List ℕ)
      → lines_of m p g entry v ≡ some l
      → (length l < 2 ^ 16) × (length l * miss_cost < 2 ^ 32)

  -- The costs hold for each cache that reaches the vertex.
  pub record Costs (v : ℕ) (k : BlockCosts) : Type 0 where
    pub cost_eq : k.cache_cost ≡ miss_cost * (k.misses + k.ncs)
    pub bounds :
        (c : C) (l : List ℕ)
        → Arrives cache m p g entry v c
        → lines_of m p g entry v ≡ some l
        → (k.hits + k.misses + k.ncs ≡ length l)
          × (k.misses ≤ count_misses cache l c)
          × (count_misses cache l c ≤ k.misses + k.ncs)

  abbrev zero_costs : BlockCosts
  zero_costs = record { cache_cost = 0; hits = 0; misses = 0; ncs = 0 }

  run_costs :
      (v : ℕ) (stats : MemoryUsageStats)
      → Known cache m p g entry Describes sound blocks d v
      → Small v
      → (c : C) (l : List ℕ) → Arrives cache m p g entry v c
      → lines_of m p g entry v ≡ some l
      → (k : BlockCosts) × (stats' : MemoryUsageStats) × (block_costs m p g entry miss_cost v d
            stats
          ≡ some (k, stats'))
        × Counts miss_cost (length l) (count_misses cache l c) zero_costs k
  unfolding block_costs
  run_costs v stats known small c l a r =
      let (few, cheap) = small l r in
      let (k, stats', e, w) =
        each_access-Counts cache m Describes sound p g entry miss_cost l (d.mem_state v) c
          zero_costs stats (known.describes c a) (omega arith) (omega (arith, few))
          (omega (arith, cheap)) in
      (k, stats', rw r e, w)

  pub block_costs-Costs :
      (v : ℕ) (stats : MemoryUsageStats)
      → Known cache m p g entry Describes sound blocks d v
      → Small v
      → (k : BlockCosts) × (stats' : MemoryUsageStats) × (block_costs m p g entry miss_cost v d
            stats
          ≡ some (k, stats'))
        × Costs v k
  block_costs-Costs v stats known small =
      let (c, a) = known.reached in
      let (l, r, h) = lines_loaded p (g.cfg_node v) (blocks v) in
      let (k, stats', e, w) = run_costs v stats known small c l a r in
      (
        k,
        stats',
        e,
        record {
          cost_eq = w.cost_eq;
          bounds = λ c' l' a' q.
              let (k', stats'', e', w') = run_costs v stats known small c' l' a' q in
              let same : k' ≡ k = cc (sym e' ∙ e) in
              of_counts l' c' k (
                subst (λ x. Counts miss_cost (length l') (count_misses cache l' c') zero_costs x)
                  same w');
        },
      )
    where
      of_counts :
          (l : List ℕ) (c : C) (k : BlockCosts)
          → Counts miss_cost (length l) (count_misses cache l c) zero_costs k
          → (k.hits + k.misses + k.ncs ≡ length l)
            × (k.misses ≤ count_misses cache l c)
            × (count_misses cache l c ≤ k.misses + k.ncs)
      of_counts l c k w = (
        omega (arith, w.all_counted),
        omega (arith, w.misses_sure),
        omega (arith, w.misses_covered),
      )
