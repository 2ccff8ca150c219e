-- ===== src/IcacheDfa/Bound.antt =====
-- The whole of `analyzeCache`: the penalties that it puts on the edges bound the misses of each run.
use isptap.Prelude.{
  map, ℕ, zero, suc, ◌+◌, ◌*◌, ◌-◌, ◌^◌, ◌≤◌, ◌<◌, ◌≡◌, ◌≢◌, refl, ap, sym, ◌∙◌, false, List, [],
  ◌∷◌, some, arith, length, inl, inr, Bool-cases, ℕ_discrete, some_injective,
}
use mathlib.Core.List.{Memᴰ}
use mathlib.Core.List.Memᴰ
use mathlib.Core.Path.{subst}
use isptap.AbsSet.{AbsMemSet}
use isptap.MemStateGraph.{is_forward, Edge, MemStateGraph, basic_block}
use isptap.Dfa.Push.{work}
use isptap.Dfa.Loop.{Fed}
use isptap.IcacheDfa.{CacheStateMaintainer, CacheParams, DfaState, lines_of, is_basic_block}
use isptap.IcacheDfa.Loaded.{is_basic_block-only, skip_eq}
use isptap.IcacheDfa.Sound.{accesses, ConcreteCache, count_misses, SoundMaintainer}
use isptap.IcacheDfa.Arrives.{Arrives, here, step}
use isptap.IcacheDfa.Analysis.{Sane, analyze_loop-Known}
use isptap.IcacheDfa.Costs.{
  Penalties, vertices, get_cache_miss_cost, calculate_cache_penalty, analyze_cache,
}
use isptap.IcacheDfa.Penalty.{bare, SameEdges, SameEdges-mem, Keeps}
use isptap.IcacheDfa.Paid.{Paid, add_penalties-Paid}

pub vertices-mem : (n v : ℕ) → Memᴰ v (vertices n) → v < n
unfolding vertices
vertices-mem zero v m = absurd (Memᴰ.not-nil m)
vertices-mem (suc n) v m = elim (Memᴰ.append_cases (vertices n) m) [
  | inl h ↦ omega (arith, vertices-mem n v h)
  | inr h ↦ omega (arith, Memᴰ.eq_of_singleton h)
]

pub mem-vertices : (n v : ℕ) → v < n → Memᴰ v (vertices n)
unfolding vertices
mem-vertices zero v h = absurd (omega arith)
mem-vertices (suc n) v h = elim (ℕ_discrete v n) [
  | yes q ↦ Memᴰ.append_right (vertices n) (Memᴰ.head q)
  | no q ↦ Memᴰ.append_left (n ∷ []) (mem-vertices n v (omega arith))
]

mul_mono : (x i j : ℕ) → i ≤ j → x * i ≤ x * j
mul_mono x i j h = grind (arith, h)

-- the graph with the edges that the analysis leaves
abbrev pub with_edges : MemStateGraph → List Edge → MemStateGraph
with_edges g es = record g { edges = es }

module _ {C : Type 0} (cache : ConcreteCache C) (m : CacheStateMaintainer) (p : CacheParams)
    (g : MemStateGraph) (entry : ℕ) where
  -- the misses of a run up to a vertex
  unfoldable pub run_misses : {v : ℕ} {c : C} → Arrives cache m p g entry v c → ℕ
  run_misses here = 0
  run_misses (step e c l f a q) = run_misses a + count_misses cache l c

  -- the penalties of the edges that a run takes
  unfoldable pub run_penalty : {v : ℕ} {c : C} → Arrives cache m p g entry v c → ℕ
  run_penalty here = 0
  run_penalty (step e c l f a q) = run_penalty a + e.dynamic_mem_penalty

  -- A run along the edges that the analysis leaves is one along the edges of the graph.
  same_run :
      (es : List Edge)
      → SameEdges g.edges es
      → (v : ℕ) (c : C) → Arrives cache m p (with_edges g es) entry v c
      → Arrives cache m p g entry v c
  unfolding is_forward
  same_run es same v c here = here
  same_run es same v c (step e c' l f a q) =
      let (o, listed, (s, t, k)) = SameEdges-mem g.edges es e same f.listed in
      subst (λ u. Arrives cache m p g entry u (accesses cache l c')) (sym t)
        (step o c' l (record { listed = listed; ahead = rw k at f.ahead })
          (subst (λ u. Arrives cache m p g entry u c') s (same_run es same e.source c' a))
          (subst (λ u. lines_of m p g entry u ≡ some l) s q))

-- The blocks that the analysis counts: they are vertices of the graph, a run can reach them, and
-- their lines are few enough for the counters.
pub record Countable (m : CacheStateMaintainer) (p : CacheParams) (g : MemStateGraph)
    (entry exit miss_cost v : ℕ) : Type 0 where
  pub listed : v < g.no_vertices
  pub fed : Fed g.edges entry v
  pub inner : v ≢ exit
  pub small :
      (l : List ℕ)
      → lines_of m p g entry v ≡ some l
      → (length l < 2 ^ 16) × (length l * miss_cost < 2 ^ 32)

module _ {C : Type 0} (cache : ConcreteCache C) (m : CacheStateMaintainer)
    (Describes : C → AbsMemSet → Type 0) (sound : SoundMaintainer cache m Describes)
    (p : CacheParams) (g : MemStateGraph) (entry exit depth : ℕ) (level : ℕ → ℕ)
    (sane : Sane p g entry exit depth level) (miss_latency fuel : ℕ)
    (countable : (v : ℕ)
      → (g.cfg_node v).node_type ≡ basic_block
      → Countable m p g entry exit (get_cache_miss_cost miss_latency) v)
    (d : DfaState) (r : Penalties) (lines : 0 < p.line_no)
    (enough : work g.edges (depth - level entry) entry ≤ fuel)
    (fresh : (v : ℕ) → d.mem_state_valid v ≡ false) where
  -- What the analysis leaves.
  record Analyzed : Type 0 where
    pub d' : DfaState
    pub r' : Penalties
    pub returns : analyze_cache m p g entry exit miss_latency fuel d r ≡ some (d', r')
    pub keeps : Keeps r.edges r'.edges
    pub same_edges : SameEdges r.edges r'.edges
    pub paid :
        (v : ℕ)
        → (g.cfg_node v).node_type ≡ basic_block
        → Paid cache m Describes sound p g entry sane.blocks
            (get_cache_miss_cost miss_latency)
            d'
            v
            r'

  analyzed : Analyzed
  unfolding analyze_cache calculate_cache_penalty
  analyzed =
      let (d', e, valid, known) =
        analyze_loop-Known cache m Describes sound p g entry exit depth level sane fuel d lines
          enough fresh in
      let (r', e', paid, ((keeps, same), grows)) =
        add_penalties-Paid cache m Describes sound p g entry sane.blocks
          (get_cache_miss_cost miss_latency) d' (vertices g.no_vertices)
          (record r { stats = d'.stats })
          (λ v y bb. let c = countable v bb in (known v c.fed c.inner, c.small)) in
      record {
        d' = d';
        r' = r';
        returns = rw (e, e') refl;
        keeps = keeps;
        same_edges = same;
        paid = λ v bb. paid v (mem-vertices g.no_vertices v (countable v bb).listed) bb;
      }

  -- `analyzeCache` returns, and keeps the edges but for their penalties. For each block, and each
  -- cache with which a run along forward edges reaches it: the three counters of the vertex sum up to
  -- the number of the block's lines; no more accesses than the counted misses and the unclassified
  -- ones miss, and no fewer than the counted misses; and each edge that leaves the vertex carries a
  -- penalty of at least the miss cost of the accesses that miss. The conditions are those of
  -- `analyze_loop-describes` and `Countable`.
  pub analyze_cache-bounds_misses :
      (d' : DfaState) × (r' : Penalties) × (analyze_cache m p g entry exit miss_latency fuel d r
        ≡ some (d', r'))
      × Keeps r.edges r'.edges
      × ((v : ℕ) (c : C) (l : List ℕ)
          → (g.cfg_node v).node_type ≡ basic_block
          → Arrives cache m p g entry v c
          → lines_of m p g entry v ≡ some l
          → (r'.cache_hits v + r'.cache_misses v + r'.cache_ncs v ≡ length l)
            × (r'.cache_misses v ≤ count_misses cache l c)
            × (count_misses cache l c ≤ r'.cache_misses v + r'.cache_ncs v)
            × ((e : Edge)
                → Memᴰ e r'.edges
                → e.source ≡ v
                → get_cache_miss_cost miss_latency * count_misses cache l c
                  ≤ e.dynamic_mem_penalty))
  analyze_cache-bounds_misses =
      let w = analyzed in
      (
        w.d',
        w.r',
        w.returns,
        w.keeps,
        λ v c l bb a q.
            let t = w.paid v bb in
            let (all, sure, covered) = t.right.bounds c l a q in
            (
              omega (arith, all, t.hits_eq, t.misses_eq, t.ncs_eq),
              omega (arith, sure, t.misses_eq),
              omega (arith, covered, t.misses_eq, t.ncs_eq),
              λ e y h. rw (t.on_edges e y h, t.right.cost_eq) (mul_mono _ _ _ covered),
            ),
      )

  run_step :
      (w : Analyzed) (e : Edge) (c : C) (l : List ℕ)
      → Memᴰ e w.r'.edges
      → Arrives cache m p g entry e.source c
      → lines_of m p g entry e.source ≡ some l
      → get_cache_miss_cost miss_latency * count_misses cache l c ≤ e.dynamic_mem_penalty
  unfolding count_misses
  run_step w e c l listed a q = elim (Bool-cases (is_basic_block (g.cfg_node e.source).node_type)) [
    | inl b ↦
        let t = w.paid e.source (is_basic_block-only (g.cfg_node e.source).node_type b) in
        let (all, sure, covered) = t.right.bounds c l a q in
        rw (t.on_edges e listed refl, t.right.cost_eq)
          (mul_mono (get_cache_miss_cost miss_latency) (count_misses cache l c)
            (t.costs.misses + t.costs.ncs) covered)
    | inr b ↦
        let nothing : [] ≡ l = some_injective (sym (skip_eq p (g.cfg_node e.source) b) ∙ q) in
        subst
          (λ x. get_cache_miss_cost miss_latency * count_misses cache x c ≤ e.dynamic_mem_penalty)
          nothing (omega arith)
  ]

  run_bound :
      (w : Analyzed)
      → SameEdges g.edges w.r'.edges
      → (v : ℕ) (c : C) (a : Arrives cache m p (with_edges g w.r'.edges) entry v c)
      → get_cache_miss_cost miss_latency * run_misses cache m p (with_edges g w.r'.edges) entry a
        ≤ run_penalty cache m p (with_edges g w.r'.edges) entry a
  unfolding run_misses run_penalty
  run_bound w same v c here = omega arith
  run_bound w same v c (step e c' l f a q) =
      let before = run_bound w same e.source c' a in
      let now =
        run_step w e c' l f.listed (same_run cache m p g entry w.r'.edges same e.source c' a) q in
      let x = get_cache_miss_cost miss_latency in
      let d : x * (run_misses cache m p (with_edges g w.r'.edges) entry a + count_misses cache l c')
          ≡ x * run_misses cache m p (with_edges g w.r'.edges) entry a
            + x * count_misses cache l c' =
        grind arith in
      omega (arith, before, now, d)

  -- `analyzeCache` returns, and leaves the edges of the graph in their order, with new penalties. On
  -- each run along the forward edges that it leaves, the accesses that miss cost no more than the
  -- penalties of the edges that the run takes. The conditions are those of `analyze_loop-describes`
  -- and `Countable`, and that the edges to start with are those of the graph.
  pub analyze_cache-bounds_runs :
      r.edges ≡ g.edges
      → (d' : DfaState) × (r' : Penalties) × (analyze_cache m p g entry exit miss_latency fuel d r
          ≡ some (d', r'))
        × SameEdges g.edges r'.edges
        × ((v : ℕ) (c : C) (a : Arrives cache m p (with_edges g r'.edges) entry v c)
            → get_cache_miss_cost miss_latency
                * run_misses cache m p (with_edges g r'.edges) entry a
              ≤ run_penalty cache m p (with_edges g r'.edges) entry a)
  analyze_cache-bounds_runs same =
      let w = analyzed in
      let same' : SameEdges g.edges w.r'.edges = w.same_edges ∙ ap (map bare) same in
      (w.d', w.r', w.returns, same', λ v c a. run_bound w same' v c a)
