-- ===== src/IcacheDfa/LoopTests.antt =====
-- A loop whose first iteration is unrolled once, as `vivug_creator.cpp` does, and what ignoring the
-- back edge of the other iterations misses: after the block at 64 each iteration loads one of the
-- lines 128, 192 and 256, then 64 is loaded again; the cache has three lines of 16 bytes.
use isptap.Prelude.{ℕ, zero, suc, ◌≡◌, refl, Bool, true, false, List, [], ◌∷◌, Option, none, some}
use isptap.AbsSet.{is_in_set, has_addr}
use isptap.MemStateGraph.{
  entry, exit, flow_join_node, forward_step, forward_step_unroll, forward_jump, backward_jump, Edge,
  CfgNode, MemStateGraph,
}
use isptap.IcacheDfa.{CacheParams, DfaState, analyze_loop}
use isptap.IcacheDfa.Maintainers.{lru_maintainer, lru_cache}
use isptap.IcacheDfa.Sound.{accesses}
use isptap.IcacheDfa.Example.{sizes, block, edge, blank, program}

abbrev params : CacheParams
params = record { line_no = 3; line_size_bit = 4; use_bbs_instead_of_cache_lines = false }

abbrev other : CfgNode
other = record { node_type = flow_join_node; start_addr = 0; bb_size = 0 }

abbrev node : ℕ → CfgNode
node zero = record { node_type = entry; start_addr = 0; bb_size = 0 }
node (suc zero) = block 64 16
node (suc (suc zero)) = block 128 16
node (suc (suc (suc zero))) = block 192 16
node (suc (suc (suc (suc zero)))) = block 256 16
node (suc (suc (suc (suc (suc zero))))) = other
node (suc (suc (suc (suc (suc (suc zero)))))) = block 128 16
node (suc (suc (suc (suc (suc (suc (suc zero))))))) = block 192 16
node (suc (suc (suc (suc (suc (suc (suc (suc zero)))))))) = block 256 16
node (suc (suc (suc (suc (suc (suc (suc (suc (suc zero))))))))) = other
node (suc (suc (suc (suc (suc (suc (suc (suc (suc (suc zero)))))))))) = block 64 16
node (suc (suc (suc (suc (suc (suc (suc (suc (suc (suc (suc v))))))))))) = record {
  node_type = exit;
  start_addr = 0;
  bb_size = 0;
}

-- 2, 3 and 4 are the first iteration, which 5 joins; 6, 7 and 8 are the other ones, which 9 joins
abbrev edges : List Edge
edges =
    edge 0 1 forward_step
    ∷ edge 1 2 forward_step
    ∷ edge 1 3 forward_jump
    ∷ edge 1 4 forward_jump
    ∷ edge 2 5 forward_jump
    ∷ edge 3 5 forward_jump
    ∷ edge 4 5 forward_step
    ∷ edge 5 6 forward_step_unroll
    ∷ edge 5 7 forward_step_unroll
    ∷ edge 5 8 forward_step_unroll
    ∷ edge 6 9 forward_jump
    ∷ edge 7 9 forward_jump
    ∷ edge 8 9 forward_step
    ∷ edge 9 6 backward_jump
    ∷ edge 9 7 backward_jump
    ∷ edge 9 8 backward_jump
    ∷ edge 5 10 forward_step
    ∷ edge 9 10 forward_step
    ∷ edge 10 11 forward_step
    ∷ []

abbrev graph : MemStateGraph
graph = record { no_vertices = 12; edges = edges; cfg_node = node }

must_at : ℕ → ℕ → Option DfaState → Bool
must_at a v none = false
must_at a v (some d) = is_in_set a (d.mem_state v).must_set

-- The analysis takes the line 64 for a sure hit after the loop.
taken_for_hit :
    must_at 64 10 (analyze_loop (lru_maintainer 3 sizes) params graph 0 11 200 blank) ≡ true
unfolding program must_at
taken_for_hit = refl

-- The iterations that load 128, 192 and 256 in turn evict it.
evicted : has_addr 64 (accesses (lru_cache 3) (64 ∷ 128 ∷ 192 ∷ 256 ∷ []) []) ≡ false
unfolding program accesses
evicted = refl
