-- ===== src/DispDfa/Tests.antt =====
-- Runs of the scratchpad analysis on the small program, and its theorems there.
use isptap.Prelude.{ℕ, ◌<◌, ◌≡◌, ◌≢◌, refl, true, List, [], ◌∷◌, Option, none, some, map, arith}
use isptap.MemUsage.{allocated_memory_state}
use isptap.AbsSet.{is_in_set, count_state, sort_mem_set_by_age, set_blank_mem_state}
use isptap.AbsSet
use isptap.LruCache
use isptap.ContextStack as ContextStack
use isptap.MemStateGraph.{Edge, is_forward, in_edges, out_edges, count_forward}
use isptap.Dfa.{push_targets, all_known, is_predecessor_mem_state_known, turn, loop}
use isptap.Dfa.Loop.{Fed}
use isptap.IcacheDfa.{first_forward}
use isptap.IcacheDfa.Costs.{vertices}
use isptap.Disp.{get_function_size, get_function_mem_size, block_round_up}
use isptap.LruDisp.{
  check_function_intersection, intersectional_age, get_intersectional_age, shifted_age,
  shift_entries, move_addr_to_front, age_and_evict, add_addr_to_mem_set, access_set, join_back,
}
use isptap.LruDisp as LruDisp
use isptap.LruDisp.Access.{DescribesPad}
use isptap.DispDfa.{
  DispDfaState, calls, returns, handling, or_empty, get_context_for_node, first_context,
  add_context_for_node, add_contexts, joinable, prev_states, only_addr, context_after, entry_addr,
  get_function_address, join_and_set_initial_mem_state, after_return, handle, state_after,
  set_initial_mem_state, update_context_for_node, process, analyze_loop,
}
use isptap.DispDfa.Runs.{kind, Arrives}
use isptap.DispDfa.Costs.{
  pipeline_latency, get_disp_hit_penalty, get_disp_miss_and_load_penalty, disp_cost, put_where,
  add_call_penalty, add_return_penalty, add_penalty, add_penalties, calculate_mem_penalty,
  analyze_disp,
}
use isptap.DispDfa.Analysis.{analyze_disp-describes}
use isptap.DispDfa.Paid.{Shape, CallPaid, ReturnPaid}
use isptap.DispDfa.Whole.{analyze_disp-bounds_costs}
use isptap.DispDfa.Example.{
  sizes, params, timing, addr, edges, graph, blank, level, context, sane, turns, priced,
}

unfoldable pub program : Unit {0}
unfolding allocated_memory_state is_in_set count_state sort_mem_set_by_age set_blank_mem_state
    AbsSet.get_unique_mem_addrs_of_sets AbsSet.add_unique_mem_addrs_to_list AbsSet.has_addr
    AbsSet.addrs_of_set AbsSet.add_addr_and_age_to_map AbsSet.find LruCache.take_out
    LruCache.join_two LruCache.join_must LruCache.join_may LruCache.joined_must LruCache.joined_may
    get_function_size get_function_mem_size block_round_up check_function_intersection
    intersectional_age get_intersectional_age shifted_age shift_entries move_addr_to_front
    age_and_evict add_addr_to_mem_set access_set LruDisp.update join_back LruDisp.join
    ContextStack.push ContextStack.pop ContextStack.top ContextStack.empty is_forward in_edges
    out_edges count_forward push_targets all_known is_predecessor_mem_state_known turn loop
    first_forward vertices handling or_empty get_context_for_node first_context add_context_for_node
    add_contexts joinable prev_states only_addr context_after entry_addr get_function_address
    join_and_set_initial_mem_state after_return handle state_after set_initial_mem_state
    update_context_for_node process analyze_loop pipeline_latency get_disp_hit_penalty
    get_disp_miss_and_load_penalty disp_cost put_where add_call_penalty add_return_penalty
    add_penalty add_penalties calculate_mem_penalty analyze_disp
program = tt

abbrev penalties_of : Option (DispDfaState × List Edge) → List ℕ
penalties_of none = []
penalties_of (some (d, es)) = map (λ (e : Edge). e.dynamic_mem_penalty) es

-- The two calls load two blocks each and miss; the return to the root function is a hit.
analyze_disp_runs :
    penalties_of (analyze_disp params sizes timing graph 0 8 40 blank)
    ≡ 23 ∷ 0 ∷ 0 ∷ 23 ∷ 1 ∷ 0 ∷ 0 ∷ 0 ∷ 0 ∷ []
unfolding program
analyze_disp_runs = refl

analyze_disp-describes_example :
    (d' : DispDfaState) × (analyze_loop params sizes graph 0 8 40 blank ≡ some d')
    × ((v : ℕ) → Fed edges 0 v → v ≢ 8 → d'.mem_state_valid v ≡ true)
    × ((v : ℕ) (c ctx : List ℕ)
        → Arrives params graph 0 addr v c ctx
        → v ≢ 8
        → DescribesPad params c (d'.mem_state v) × (d'.ctx_map v ≡ some ctx))
analyze_disp-describes_example =
    analyze_disp-describes params sizes graph 0 8 7 level addr context sane 40 blank (omega arith)
      turns (λ v. refl) (λ v. refl)

analyze_disp-bounds_costs_example :
    (d' : DispDfaState) × (es : List Edge) × (analyze_disp params sizes timing graph 0 8 40 blank
      ≡ some (d', es))
    × Shape params sizes timing graph 0 8 7 level addr context sane es
    × ((v : ℕ)
        → v < 9
        → v ≢ 8
        → (kind params graph 0 v ≡ calls
            → CallPaid params sizes timing graph 0 8 7 level addr context sane v es)
          × (kind params graph 0 v ≡ returns
              → ReturnPaid params sizes timing graph 0 8 7 level addr context sane v es))
analyze_disp-bounds_costs_example =
    analyze_disp-bounds_costs params sizes timing graph 0 8 7 level addr context sane priced 40
      blank (omega arith) turns (λ v. refl) (λ v. refl)
