-- ===== src/DispDfa.antt =====
-- src/memory/disp_dfa.cpp: the data flow analysis of a scratchpad of whole functions with LRU
-- replacement. Each vertex gets the abstract state of the scratchpad before its call or return is
-- handled, and the functions that are active there.
use isptap.Prelude.{
  ℕ, zero, suc, ◌+◌, ◌-◌, ◌*◌, ◌/◌, ◌%◌, ◌^◌, Bool, true, false, not, List, [], ◌∷◌, ◌++◌, Option,
  none, some, ltb, ◌==◌, if◌then◌else◌, ◌>>=◌, ◌>>◌, check, add32, inc32,
}
use isptap.MemUsage.{MemoryUsageStats}
use isptap.AbsSet.{AbsMemSet, Sizes, is_in_set, set_blank_mem_state}
use isptap.ContextStack as ContextStack
use isptap.Disp.{DispParams}
use isptap.LruDisp.{update, join}
use isptap.MemStateGraph.{
  NodeType, entry, exit, Edge, MemStateGraph, is_forward, in_edges, out_edges,
  get_forward_in_edge_count,
}
use isptap.Dfa.{loop}
use isptap.IcacheDfa.{first_forward}
pub mod Runs
pub mod States
pub mod Contexts
pub mod Invariant
pub mod HandOn
pub mod Analysis
pub mod Costs
pub mod Penalty
pub mod Paid
pub mod Turns
pub mod Bound
pub mod Whole
pub mod Categories
pub mod Counted
pub mod Tallies
pub mod Categorized
mod Example
mod Tests
mod CountTests

-- `out_addrs` are the start addresses of the targets of the edges that leave the node of a vertex in
-- the control flow graph.
pub record DispGraph : Type 0 where
  pub msg : MemStateGraph
  pub out_addrs : ℕ → List ℕ

-- the properties of the vertices that the analysis sets, `ctxMap`, and the counters of the maintainer
pub record DispDfaState : Type 0 where
  pub mem_state : ℕ → AbsMemSet
  pub mem_state_valid : ℕ → Bool
  pub ctx_map : ℕ → Option (List ℕ)
  pub stats : MemoryUsageStats

-- the types of a node that the analysis tells apart
pub data Handling : Type 0 where
  calls returns neither : Handling

unfoldable pub handling : NodeType → Handling
handling entry = calls
handling exit = returns
handling _ = neither

abbrev pub put_state : ℕ → AbsMemSet → MemoryUsageStats → DispDfaState → DispDfaState
put_state v s stats d = record d {
  mem_state = λ u. if u == v then s else d.mem_state u;
  mem_state_valid = λ u. if u == v then true else d.mem_state_valid u;
  stats = stats;
}

unfoldable pub or_empty : Option (List ℕ) → List ℕ
or_empty none = []
or_empty (some context) = context

-- A vertex without a context has the empty one.
unfoldable pub get_context_for_node : ℕ → DispDfaState → List ℕ
get_context_for_node v d = or_empty (d.ctx_map v)

unfoldable pub first_context : Option (List ℕ) → List ℕ → Option (List ℕ)
first_context none context = some context
first_context (some old) context = some old

-- A context that is there already stays.
unfoldable pub add_context_for_node : ℕ → List ℕ → DispDfaState → DispDfaState
add_context_for_node v context d = record d {
  ctx_map = λ u. if u == v then first_context (d.ctx_map v) context else d.ctx_map u;
}

-- the calls of `addContextForNode` in the loop of `analyzeDISP` over the out edges
unfoldable pub add_contexts : List Edge → List ℕ → DispDfaState → DispDfaState
add_contexts [] context d = d
add_contexts (e ∷ es) context d =
    add_contexts es context (if is_forward e then add_context_for_node e.target context d else d)

-- the assertions of `joinAndSetInitialMemState`: it cannot join after a call or a return
unfoldable pub joinable : Handling → Option (Unit {0})
joinable neither = some tt
joinable calls = none
joinable returns = none

-- the loop of `joinAndSetInitialMemState`
unfoldable pub prev_states : MemStateGraph → List Edge → DispDfaState → Option (List AbsMemSet)
prev_states g [] d = some []
prev_states g (e ∷ es) d = do
  states ← prev_states g es d
  if is_forward e
      then joinable (handling (g.cfg_node e.source).node_type)
        >> some (d.mem_state e.source ∷ states)
      else some states

unfoldable pub only_addr : List ℕ → Option ℕ
only_addr [] = none
only_addr (a ∷ []) = some a
only_addr (a ∷ b ∷ l) = none

-- the context behind a node, with the address of the function that an entry node calls
unfoldable pub context_after : Handling → Option ℕ → List ℕ → Option (List ℕ)
context_after calls function_addr context = do
  addr ← function_addr
  some (ContextStack.push addr context)
context_after returns function_addr context =
    check (not (ContextStack.empty context)) >> some (ContextStack.pop context).1
context_after neither function_addr context = some context

-- The assertion fails unless the node is an entry.
unfoldable pub entry_addr : Handling → List ℕ → Option ℕ
unfolding only_addr
entry_addr calls addrs = only_addr addrs
entry_addr returns addrs = none
entry_addr neither addrs = none

module _ (p : DispParams) (sizes : Sizes) (g : DispGraph) (super_entry : ℕ) where
  abbrev pub handling_of : ℕ → Handling
  handling_of v = handling (g.msg.cfg_node v).node_type

  unfoldable pub get_function_address : ℕ → Option ℕ
  get_function_address v = entry_addr (handling_of v) (g.out_addrs v)

  unfoldable pub join_and_set_initial_mem_state : ℕ → DispDfaState → Option DispDfaState
  join_and_set_initial_mem_state v d = do
    states ← prev_states g.msg (in_edges v g.msg.edges) d
    (new_state, left, stats') ← join sizes states d.stats
    some (put_state v new_state stats' d)

  -- the state after the return from a function, with the contexts that are left
  unfoldable pub after_return :
      List ℕ → AbsMemSet → MemoryUsageStats → Option (AbsMemSet × MemoryUsageStats)
  after_return ctx s stats =
      if not (ContextStack.empty ctx)
      then update p sizes s (ContextStack.top ctx) stats
      else some (s, stats)

  -- the state after a node, with its context and the address of the function that it calls
  unfoldable pub handle :
      Handling
      → Option ℕ
      → List ℕ
      → AbsMemSet
      → MemoryUsageStats
      → Option (AbsMemSet × MemoryUsageStats)
  handle calls function_addr ctx s stats = do addr ← function_addr; update p sizes s addr stats
  handle returns function_addr ctx s stats = after_return (ContextStack.pop ctx).1 s stats
  handle neither function_addr ctx s stats = some (s, stats)

  -- the state after a predecessor
  unfoldable pub state_after : ℕ → DispDfaState → Option (AbsMemSet × MemoryUsageStats)
  state_after u d =
      handle (handling_of u) (get_function_address u) (get_context_for_node u d) (d.mem_state u)
        d.stats

  unfoldable pub set_initial_mem_state : ℕ → DispDfaState → Option DispDfaState
  set_initial_mem_state v d =
      if v == super_entry
      then (let (initial_state, stats') = set_blank_mem_state sizes d.stats in
          some (add_context_for_node v [] (put_state v initial_state stats' d)))
      else (do
        check (get_forward_in_edge_count v g.msg.edges == 1)
        e ← first_forward (in_edges v g.msg.edges)
        check (d.mem_state_valid e.source)
        (prev_state, stats') ← state_after e.source d
        some (put_state v prev_state stats' d))

  unfoldable pub update_context_for_node : ℕ → DispDfaState → Option (List ℕ)
  update_context_for_node v d =
      context_after (handling_of v) (get_function_address v) (get_context_for_node v d)

  -- what `analyzeDISP` does with a vertex whose predecessors are known
  unfoldable pub process : ℕ → DispDfaState → Option DispDfaState
  process v d = do
    d' ←
        if ltb 1 (get_forward_in_edge_count v g.msg.edges)
        then join_and_set_initial_mem_state v d
        else set_initial_mem_state v d
    context ← update_context_for_node v d'
    some (add_contexts (out_edges v g.msg.edges) context d')

  -- the loop of `analyzeDISP`
  unfoldable pub analyze_loop : ℕ → ℕ → DispDfaState → Option DispDfaState
  analyze_loop super_exit fuel d =
      check (ltb 0 p.size)
      >> loop g.msg.edges super_entry super_exit (λ d. d.mem_state_valid) process fuel
          (super_entry ∷ []) d
