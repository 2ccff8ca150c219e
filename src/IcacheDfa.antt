-- ===== src/IcacheDfa.antt =====
-- src/memory/icache_dfa.cpp: the data flow analysis of an instruction cache on the memory state graph.
-- Each vertex gets the abstract state of the cache before its basic block is executed.
use isptap.Prelude.{
  ℕ, zero, suc, ◌+◌, ◌*◌, ◌/◌, ◌%◌, ◌^◌, Bool, true, false, List, [], ◌∷◌, ◌++◌, Option, none, some,
  ltb, ◌==◌, if◌then◌else◌, ◌>>=◌, ◌>>◌, check, inc32, add32,
}
use isptap.MemUsage.{MemoryUsageStats}
use isptap.AbsSet.{AbsMemSet, is_in_set, has_addr}
use isptap.MemStateGraph.{
  NodeType, basic_block, Edge, CfgNode, MemStateGraph, is_forward, in_edges,
  get_forward_in_edge_count, in_degree,
}
use isptap.Dfa.{loop}
pub mod Costs
pub mod Arrives
pub mod Lines
pub mod Loaded
pub mod Sound
pub mod Maintainers
pub mod Invariant
pub mod Block
pub mod Penalty
pub mod Paid
pub mod Bound
mod Example
mod Tests
mod LoopTests
pub mod Analysis

-- The cache state maintainer that the analysis is configured with, by its virtual operations.
pub record CacheStateMaintainer : Type 0 where
  pub update : AbsMemSet → List ℕ → Bool → MemoryUsageStats → Option (AbsMemSet × MemoryUsageStats)
  pub update_one : AbsMemSet → ℕ → Bool → MemoryUsageStats → Option (AbsMemSet × MemoryUsageStats)
  pub join :
      List AbsMemSet → MemoryUsageStats → Option (AbsMemSet × List AbsMemSet × MemoryUsageStats)
  pub set_blank_mem_state : MemoryUsageStats → AbsMemSet × MemoryUsageStats

-- what the analysis reads of `cache_params_t`; the line size is `2 ^ line_size_bit`
pub record CacheParams : Type 0 where
  pub line_no : ℕ
  pub line_size_bit : ℕ
  pub use_bbs_instead_of_cache_lines : Bool

-- the properties of the vertices that the analysis sets, and the counters of the maintainer
pub record DfaState : Type 0 where
  pub mem_state : ℕ → AbsMemSet
  pub mem_state_valid : ℕ → Bool
  pub stats : MemoryUsageStats

-- `put` on both properties
abbrev pub put_state : ℕ → AbsMemSet → MemoryUsageStats → DfaState → DfaState
put_state v s stats d = record {
  mem_state = λ u. if u == v then s else d.mem_state u;
  mem_state_valid = λ u. if u == v then true else d.mem_state_valid u;
  stats = stats;
}

unfoldable pub is_basic_block : NodeType → Bool
is_basic_block basic_block = true
is_basic_block _ = false

-- The loop of `getCacheLinesOfCFGNode`, on fuel. It takes at most 2 ^ 32 turns before the address
-- repeats, so `none` is a loop that does not end.
unfoldable pub lines_from : ℕ → ℕ → ℕ → ℕ → Option (List ℕ)
lines_from zero line_size current end_addr = if ltb current end_addr then none else some []
lines_from (suc fuel) line_size current end_addr =
    let rest = lines_from fuel line_size (add32 current line_size) end_addr in
    if ltb current end_addr then (do l ← rest; some (current ∷ l)) else some []

-- `getCacheLinesOfCFGNode`
unfoldable pub get_cache_lines_of_cfg_node : CacheParams → CfgNode → Option (List ℕ)
get_cache_lines_of_cfg_node p node =
    let line_size = 2 ^ p.line_size_bit in
    if is_basic_block node.node_type
    then if p.use_bbs_instead_of_cache_lines
      then some (node.start_addr ∷ [])
      else lines_from (2 ^ 32) line_size (node.start_addr / line_size * line_size)
          (add32 node.start_addr node.bb_size)
    else some []

-- the edge that the loop of `setInitialMemState` stops at
unfoldable pub first_forward : List Edge → Option Edge
first_forward [] = none
first_forward (e ∷ es) = if is_forward e then some e else first_forward es

module _ (m : CacheStateMaintainer) (p : CacheParams) (g : MemStateGraph) (entry : ℕ) where
  abbrev pub lines_of : ℕ → Option (List ℕ)
  lines_of v = get_cache_lines_of_cfg_node p (g.cfg_node v)

  -- the state after the block of a vertex
  unfoldable pub state_after :
      ℕ → Bool → DfaState → MemoryUsageStats → Option (AbsMemSet × MemoryUsageStats)
  state_after v use_stats d stats = do cl ← lines_of v; m.update (d.mem_state v) cl use_stats stats

  -- the loop of `joinAndSetInitialMemState`: the states after the forward predecessors
  unfoldable pub prev_states :
      List Edge → DfaState → MemoryUsageStats → Option (List AbsMemSet × MemoryUsageStats)
  prev_states [] d stats = some ([], stats)
  prev_states (e ∷ es) d stats =
      let skipped = prev_states es d stats in
      if is_forward e
      then (do
        (tmp, stats') ← state_after e.source false d stats
        (states, stats'') ← prev_states es d stats'
        some (tmp ∷ states, stats''))
      else skipped

  unfoldable pub join_and_set_initial_mem_state : ℕ → DfaState → Option DfaState
  join_and_set_initial_mem_state v d = do
    (states, stats') ← prev_states (in_edges v g.edges) d d.stats
    (new_state, left, stats'') ← m.join states stats'
    some (put_state v new_state stats'' d)

  unfoldable pub set_initial_mem_state : ℕ → DfaState → Option DfaState
  set_initial_mem_state v d =
      if v == entry
      then (let (initial_state, stats') = m.set_blank_mem_state d.stats in
          some (put_state v initial_state stats' d))
      else (do
        check (get_forward_in_edge_count v g.edges == 1)
        e ← first_forward (in_edges v g.edges)
        (prev_state, stats') ← state_after e.source true d d.stats
        some (put_state v prev_state stats' d))

  -- what `analyzeCache` does with a vertex whose predecessors are known
  unfoldable pub process : ℕ → DfaState → Option DfaState
  process v d =
      if ltb 1 (get_forward_in_edge_count v g.edges)
      then join_and_set_initial_mem_state v d
      else set_initial_mem_state v d

  -- the loop of `analyzeCache`
  unfoldable pub analyze_loop : ℕ → ℕ → DfaState → Option DfaState
  analyze_loop exit fuel d =
      check (ltb 0 p.line_no)
      >> loop g.edges entry exit (λ d. d.mem_state_valid) process fuel (entry ∷ []) d
