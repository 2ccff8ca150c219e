-- ===== src/IcacheDfa/Paid.antt =====
-- The loop of `calculateCachePenalty` over the vertices.
use isptap.Prelude.{
  ℕ, ◌≡◌, ◌≢◌, refl, sym, ◌∙◌, true, false, List, [], ◌∷◌, some, arith, inl, inr, Bool-cases,
  ℕ_discrete, ◌==◌,
}
use mathlib.Core.List.{Memᴰ}
use mathlib.Core.List.Memᴰ
use mathlib.Core.Path.{subst}
use isptap.MemUsage.{MemoryUsageStats}
use isptap.AbsSet.{AbsMemSet}
use isptap.MemStateGraph.{Edge, MemStateGraph, basic_block}
use isptap.IcacheDfa.{CacheStateMaintainer, CacheParams, DfaState, is_basic_block}
use isptap.IcacheDfa.Lines.{Laid}
use isptap.IcacheDfa.Loaded.{is_basic_block-only, is_basic_block-true}
use isptap.IcacheDfa.Sound.{ConcreteCache, SoundMaintainer}
use isptap.IcacheDfa.Arrives.{Known}
use isptap.IcacheDfa.Costs.{BlockCosts, Penalties, add_penalty, add_penalties}
use isptap.IcacheDfa.Costs.{set_costs}
use isptap.IcacheDfa.Penalty.{
  SameEdges, put_penalty-SameEdges, Keeps, put_penalty-here, put_penalty-there, put_penalty-Keeps,
  Small, Costs, block_costs-Costs,
}

module _ {C : Type 0} (cache : ConcreteCache C) (m : CacheStateMaintainer)
    (Describes : C → AbsMemSet → Type 0) (sound : SoundMaintainer cache m Describes)
    (p : CacheParams) (g : MemStateGraph) (entry : ℕ)
    (blocks : (v : ℕ) → (g.cfg_node v).node_type ≡ basic_block → Laid p (g.cfg_node v))
    (miss_cost : ℕ) (d : DfaState) where
  -- What `calculateCachePenalty` has set for a vertex: the edges that leave it carry the costs of its
  -- block, and its counters are theirs.
  pub record Paid (v : ℕ) (r : Penalties) : Type 0 where
    pub costs : BlockCosts
    pub right : Costs cache m Describes sound p g entry blocks miss_cost d v costs
    pub on_edges :
        (e : Edge) → Memᴰ e r.edges → e.source ≡ v → e.dynamic_mem_penalty ≡ costs.cache_cost
    pub hits_eq : r.cache_hits v ≡ costs.hits
    pub misses_eq : r.cache_misses v ≡ costs.misses
    pub ncs_eq : r.cache_ncs v ≡ costs.ncs

  -- The vertices whose costs are computed: a state is known, and the lines are few.
  abbrev pub Computed : ℕ → Type 0
  Computed v =
      (g.cfg_node v).node_type ≡ basic_block
      → Known cache m p g entry Describes sound blocks d v
        × Small cache m Describes sound p g entry blocks miss_cost d v

  abbrev pub Grows : Penalties → Penalties → Type 0
  Grows r r' =
      (Keeps r.edges r'.edges × SameEdges r.edges r'.edges) × ((u : ℕ) → Paid u r → Paid u r')

  set_costs-other :
      (v u : ℕ) (k : BlockCosts) (stats : MemoryUsageStats) (r : Penalties)
      → u ≢ v
      → Paid u r
      → Paid u (set_costs v k stats r)
  set_costs-other v u k stats r n w =
      let b : (u == v) ≡ false = ground arith in
      record {
        costs = w.costs;
        right = w.right;
        on_edges = λ e y h.
            w.on_edges e (put_penalty-there v k.cache_cost r.edges e y (λ q. n (sym h ∙ q))) h;
        hits_eq = rw b w.hits_eq;
        misses_eq = rw b w.misses_eq;
        ncs_eq = rw b w.ncs_eq;
      }

  set_costs-Paid :
      (v : ℕ) (k : BlockCosts) (stats : MemoryUsageStats) (r : Penalties)
      → Costs cache m Describes sound p g entry blocks miss_cost d v k
      → Paid v (set_costs v k stats r)
  set_costs-Paid v k stats r right =
      let b : (v == v) ≡ true = ground arith in
      record {
        costs = k;
        right = right;
        on_edges = λ e y h. put_penalty-here v k.cache_cost r.edges e y h;
        hits_eq = rw b refl;
        misses_eq = rw b refl;
        ncs_eq = rw b refl;
      }

  add_penalty-Paid :
      (v : ℕ) (r : Penalties)
      → Computed v
      → (r' : Penalties) × (add_penalty m p g entry miss_cost d v r ≡ some r')
        × ((g.cfg_node v).node_type ≡ basic_block → Paid v r')
        × Grows r r'
  unfolding add_penalty
  add_penalty-Paid v r h = elim (Bool-cases (is_basic_block (g.cfg_node v).node_type)) [
    | inr other ↦ (
      r,
      rw other refl,
      (λ bb. absurd (no_block bb other)),
      (((λ e y. (e, y, (refl, refl, refl))), refl), (λ u w. w)),
    )
    | inl q ↦
        let (known, small) = h (is_basic_block-only (g.cfg_node v).node_type q) in
        let (k, stats', e, right) =
          block_costs-Costs cache m Describes sound p g entry blocks miss_cost d v r.stats known
            small in
        let paid = set_costs-Paid v k stats' r right in
        (
          set_costs v k stats' r,
          rw (q, e) refl,
          (λ bb. paid),
          (
            (
              put_penalty-Keeps v k.cache_cost r.edges,
              put_penalty-SameEdges v k.cache_cost r.edges,
            ),
            λ u w. elim (ℕ_discrete u v) [
              | yes same ↦ subst (λ x. Paid x (set_costs v k stats' r)) (sym same) paid
              | no n ↦ set_costs-other v u k stats' r n w
            ],
          ),
        )
  ]
    where
      no_block :
          (g.cfg_node v).node_type ≡ basic_block → is_basic_block (g.cfg_node v).node_type ≢ false
      no_block bb other = let b = is_basic_block-true (g.cfg_node v).node_type bb in cc

  pub add_penalties-Paid :
      (vs : List ℕ) (r : Penalties)
      → ((v : ℕ) → Memᴰ v vs → Computed v)
      → (r' : Penalties) × (add_penalties m p g entry miss_cost d vs r ≡ some r')
        × ((v : ℕ) → Memᴰ v vs → (g.cfg_node v).node_type ≡ basic_block → Paid v r')
        × Grows r r'
  unfolding add_penalties
  add_penalties-Paid [] r h = (
    r,
    refl,
    (λ v y. absurd (Memᴰ.not-nil y)),
    (((λ e y. (e, y, (refl, refl, refl))), refl), (λ u w. w)),
  )
  add_penalties-Paid (v ∷ vs) r h =
      let (r1, e, paid, ((keeps, same), grows)) = add_penalty-Paid v r (h v (Memᴰ.head refl)) in
      let (r', e', paid', ((keeps', same'), grows')) =
        add_penalties-Paid vs r1 (λ u y. h u (Memᴰ.tail y)) in
      (
        r',
        rw (e, e') refl,
        (λ u y bb. elim (Memᴰ.cases_cons y) [
          | inl q ↦ grows' u (
              subst (λ x. Paid x r1) (sym q)
                (paid (subst (λ x. (g.cfg_node x).node_type ≡ basic_block) q bb)))
          | inr y' ↦ paid' u y' bb
        ]),
        (
          (
            (λ x y.
                let (x', y', (s, t, z)) = keeps x y in
                let (x'', y'', (s', t', z')) = keeps' x' y' in
                (x'', y'', (s' ∙ s, t' ∙ t, z' ∙ z))),
            same' ∙ same,
          ),
          (λ u w. grows' u (grows u w)),
        ),
      )
