-- ===== src/DispDfa/Costs.antt =====
-- src/memory/disp_dfa.cpp: the penalties of calls and returns. The penalty of a call is put on the
-- edge that leaves the entry node, the one of a return on the edge that leads into the exit node.
use isptap.Prelude.{
  ℕ, ◌-◌, ◌*◌, ◌/◌, ◌%◌, ◌^◌, Bool, List, [], ◌∷◌, Option, some, ltb, ◌==◌, if◌then◌else◌, ◌>>=◌,
  ◌>>◌, check, add32, inc32, length,
}
use isptap.AbsSet.{Sizes, is_in_set}
use isptap.ContextStack as ContextStack
use isptap.MemStateGraph.{Edge, out_edges, in_degree}
use isptap.IcacheDfa.Costs.{vertices}
use isptap.Disp.{DispParams, Activation, call, back, get_function_mem_size}
use isptap.DispDfa.{
  DispGraph, DispDfaState, Handling, calls, returns, neither, handling_of, get_function_address,
  get_context_for_node, analyze_loop,
}

-- What the analysis asks the processor's configuration for; the latencies are those of the on-chip
-- memory.
pub record Timing : Type 0 where
  pub call_latency : ℕ
  pub return_latency : ℕ
  pub hit_cycles : ℕ
  pub miss_cycles : ℕ
  pub miss_latency : ℕ
  pub fetch_mem_independent : Bool

-- the cycles that the pipeline needs for the call or the return
unfoldable pub pipeline_latency : Timing → Activation → ℕ
pipeline_latency t call = inc32 t.call_latency
pipeline_latency t back = inc32 t.return_latency

unfoldable pub get_disp_hit_penalty : Timing → Activation → ℕ
get_disp_hit_penalty t act =
    let latency = pipeline_latency t act in
    if ltb latency t.hit_cycles then t.hit_cycles - latency else 0

unfoldable pub get_disp_miss_and_load_penalty : DispParams → Timing → ℕ → Activation → ℕ
get_disp_miss_and_load_penalty p t function_size_in_mem act =
    let latency = pipeline_latency t act in
    let function_load_cycles =
      ((function_size_in_mem / p.block_size) * inc32 t.miss_latency) % 2 ^ 32 in
    let loaded = add32 function_load_cycles t.miss_cycles in
    if t.fetch_mem_independent then if ltb latency loaded then loaded - latency else 0 else loaded

-- the penalty of an activation whose function is in the must set (`in_must`) or not; it is the same
-- whether the function is in the may set
unfoldable pub disp_cost : DispParams → Timing → Activation → ℕ → Bool → Option ℕ
disp_cost p t act f in_must =
    if in_must
    then some (get_disp_hit_penalty t act)
    else (do size ← get_function_mem_size p f; some (get_disp_miss_and_load_penalty p t size act))

-- `put` on the edges of a list that are among those of a vertex
unfoldable pub put_where : (Edge → Bool) → ℕ → List Edge → List Edge
put_where of_vertex cost [] = []
put_where of_vertex cost (e ∷ es) =
    (if of_vertex e then record e { dynamic_mem_penalty = cost } else e)
    ∷ put_where of_vertex cost es

abbrev pub leaves : ℕ → Edge → Bool
leaves v e = e.source == v

abbrev pub enters : ℕ → Edge → Bool
enters v e = e.target == v

module _ (p : DispParams) (sizes : Sizes) (t : Timing) (g : DispGraph) (super_entry : ℕ) where
  -- The assertion fails unless one edge leaves the entry node.
  unfoldable pub add_call_penalty : ℕ → DispDfaState → List Edge → Option (List Edge)
  add_call_penalty v d edges = do
    function_addr ← get_function_address p sizes g super_entry v
    cost ← disp_cost p t call function_addr (is_in_set function_addr (d.mem_state v).must_set)
    check (length (out_edges v g.msg.edges) == 1)
    some (put_where (leaves v) cost edges)

  -- The root function has no caller to return to.
  unfoldable pub add_return_penalty : List ℕ → ℕ → DispDfaState → List Edge → Option (List Edge)
  add_return_penalty [] v d edges = some edges
  add_return_penalty (function_addr ∷ ctx) v d edges = do
    cost ← disp_cost p t back function_addr (is_in_set function_addr (d.mem_state v).must_set)
    check (in_degree v g.msg.edges == 1)
    some (put_where (enters v) cost edges)

  unfoldable pub add_penalty : Handling → ℕ → DispDfaState → List Edge → Option (List Edge)
  add_penalty calls v d edges = add_call_penalty v d edges
  add_penalty returns v d edges =
      add_return_penalty (ContextStack.pop (get_context_for_node v d)).1 v d edges
  add_penalty neither v d edges = some edges

  unfoldable pub add_penalties : List ℕ → DispDfaState → List Edge → Option (List Edge)
  add_penalties [] d edges = some edges
  add_penalties (v ∷ vs) d edges = do
    edges' ← add_penalty (handling_of p sizes g super_entry v) v d edges
    add_penalties vs d edges'

  unfoldable pub calculate_mem_penalty : DispDfaState → List Edge → Option (List Edge)
  calculate_mem_penalty d edges = add_penalties (vertices g.msg.no_vertices) d edges

  -- `analyzeDISP`
  unfoldable pub analyze_disp : ℕ → ℕ → DispDfaState → Option (DispDfaState × List Edge)
  analyze_disp super_exit fuel d = do
    d' ← analyze_loop p sizes g super_entry super_exit fuel d
    edges ← calculate_mem_penalty d' g.msg.edges
    some (d', edges)
