-- ===== src/IcacheDfa/Costs.antt =====
-- src/memory/icache_dfa.cpp: the classification of the accesses of each block, and the penalty that
-- is put on the edges that leave it.
use isptap.Prelude.{
  ℕ, zero, suc, ◌+◌, ◌%◌, ◌^◌, Bool, false, List, [], ◌∷◌, ◌++◌, Option, some, ◌==◌, if◌then◌else◌,
  ◌>>=◌, inc32, add32,
}
use isptap.MemUsage.{MemoryUsageStats}
use isptap.AbsSet.{AbsMemSet, is_in_set, has_addr}
use isptap.MemStateGraph.{Edge, MemStateGraph}
use isptap.IcacheDfa.{
  CacheStateMaintainer, CacheParams, DfaState, is_basic_block, lines_of, analyze_loop,
}

-- the counters of a block; hits, misses and unclassified accesses are of type uint16_t
pub record BlockCosts : Type 0 where
  pub cache_cost : ℕ
  pub hits : ℕ
  pub misses : ℕ
  pub ncs : ℕ

abbrev pub inc16 : ℕ → ℕ
inc16 a = (a + 1) % 2 ^ 16

-- an access, by whether its line is in the must set and in the may set
unfoldable pub count_access : ℕ → Bool → Bool → BlockCosts → BlockCosts
count_access miss_cost in_must in_may k =
    if in_must
    then record k { hits = inc16 k.hits }
    else if in_may
    then record k { cache_cost = add32 k.cache_cost miss_cost; ncs = inc16 k.ncs }
    else record k { cache_cost = add32 k.cache_cost miss_cost; misses = inc16 k.misses }

-- the counters of `categorizeCacheAccesses`, of type uint32_t, and the lines that were accessed
pub record Categories : Type 0 where
  pub cache_hit : ℕ
  pub cache_miss : ℕ
  pub cache_nc : ℕ
  pub unique_lines : List ℕ

unfoldable pub categorize : ℕ → Bool → Bool → Categories → Categories
categorize a in_must in_may k =
    let lines = if has_addr a k.unique_lines then k.unique_lines else k.unique_lines ++ a ∷ [] in
    if in_must
    then record k { cache_hit = inc32 k.cache_hit; unique_lines = lines }
    else if in_may
    then record k { cache_nc = inc32 k.cache_nc; unique_lines = lines }
    else record k { cache_miss = inc32 k.cache_miss; unique_lines = lines }

-- what `calculateCachePenalty` sets: the penalties of the edges, and the counters of the vertices
pub record Penalties : Type 0 where
  pub edges : List Edge
  pub cache_hits : ℕ → ℕ
  pub cache_misses : ℕ → ℕ
  pub cache_ncs : ℕ → ℕ
  pub stats : MemoryUsageStats

unfoldable pub put_on_edge : ℕ → ℕ → Edge → Edge
put_on_edge v cost e = if e.source == v then record e { dynamic_mem_penalty = cost } else e

-- `put` on all edges that leave a vertex
unfoldable pub put_penalty : ℕ → ℕ → List Edge → List Edge
put_penalty v cost [] = []
put_penalty v cost (e ∷ es) = put_on_edge v cost e ∷ put_penalty v cost es

-- the penalties of the edges that leave the vertex, and its counters
abbrev pub set_costs : ℕ → BlockCosts → MemoryUsageStats → Penalties → Penalties
set_costs v k stats r = record {
  edges = put_penalty v k.cache_cost r.edges;
  cache_hits = λ u. if u == v then k.hits else r.cache_hits u;
  cache_misses = λ u. if u == v then k.misses else r.cache_misses u;
  cache_ncs = λ u. if u == v then k.ncs else r.cache_ncs u;
  stats = stats;
}

unfoldable pub vertices : ℕ → List ℕ
vertices zero = []
vertices (suc n) = vertices n ++ n ∷ []

-- `getCacheMissCost`
unfoldable pub get_cache_miss_cost : ℕ → ℕ
get_cache_miss_cost miss_latency = add32 miss_latency 1

module _ (m : CacheStateMaintainer) (p : CacheParams) (g : MemStateGraph) (entry : ℕ) where
  -- The loop over the lines of a block, with `count` for the counters. The state is updated after
  -- each access.
  unfoldable pub each_access :
      {K : Type 0}
      → (ℕ → Bool → Bool → K → K)
      → List ℕ
      → AbsMemSet
      → K
      → MemoryUsageStats
      → Option (K × MemoryUsageStats)
  each_access count [] mem k stats = some (k, stats)
  each_access count (a ∷ as') mem k stats = do
    (mem', stats') ← m.update_one mem a false stats
    each_access count as' mem' (count a (is_in_set a mem.must_set) (is_in_set a mem.may_set) k)
        stats'

  -- the costs of the block of a vertex
  unfoldable pub block_costs :
      ℕ → ℕ → DfaState → MemoryUsageStats → Option (BlockCosts × MemoryUsageStats)
  block_costs miss_cost v d stats = do
    cache_addrs ← lines_of m p g entry v
    each_access (λ a. count_access miss_cost) cache_addrs (d.mem_state v)
        (record { cache_cost = 0; hits = 0; misses = 0; ncs = 0 }) stats

  -- the body of the loop of `calculateCachePenalty`
  unfoldable pub add_penalty : ℕ → DfaState → ℕ → Penalties → Option Penalties
  add_penalty miss_cost d v r =
      if is_basic_block (g.cfg_node v).node_type
      then (do (k, stats') ← block_costs miss_cost v d r.stats; some (set_costs v k stats' r))
      else some r

  unfoldable pub add_penalties : ℕ → DfaState → List ℕ → Penalties → Option Penalties
  add_penalties miss_cost d [] r = some r
  add_penalties miss_cost d (v ∷ vs) r = do
    r' ← add_penalty miss_cost d v r
    add_penalties miss_cost d vs r'

  unfoldable pub calculate_cache_penalty : ℕ → DfaState → Penalties → Option Penalties
  calculate_cache_penalty miss_latency d r =
      add_penalties (get_cache_miss_cost miss_latency) d (vertices g.no_vertices) r

  -- `analyzeCache`: the states of the vertices, and the penalties. The penalties and the counters
  -- are set on what the graph has of them before.
  unfoldable pub analyze_cache : ℕ → ℕ → ℕ → DfaState → Penalties → Option (DfaState × Penalties)
  analyze_cache exit miss_latency fuel d r = do
    d' ← analyze_loop m p g entry exit fuel d
    r' ← calculate_cache_penalty miss_latency d' (record r { stats = d'.stats })
    some (d', r')

  -- the loop of `categorizeCacheAccesses`
  unfoldable pub categorize_vertices :
      DfaState → List ℕ → Categories → MemoryUsageStats → Option (Categories × MemoryUsageStats)
  categorize_vertices d [] k stats = some (k, stats)
  categorize_vertices d (v ∷ vs) k stats =
      let skipped = categorize_vertices d vs k stats in
      if is_basic_block (g.cfg_node v).node_type
      then (do
        cache_addrs ← lines_of m p g entry v
        (k', stats') ← each_access categorize cache_addrs (d.mem_state v) k stats
        categorize_vertices d vs k' stats')
      else skipped

  unfoldable pub categorize_cache_accesses :
      DfaState → MemoryUsageStats → Option (Categories × MemoryUsageStats)
  categorize_cache_accesses d stats =
      categorize_vertices d (vertices g.no_vertices)
        (record { cache_hit = 0; cache_miss = 0; cache_nc = 0; unique_lines = [] }) stats
