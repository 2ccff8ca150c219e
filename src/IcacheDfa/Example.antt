-- ===== src/IcacheDfa/Example.antt =====
-- A small graph for the runs of the cache analysis: the line 64 is loaded, then one of the lines 128
-- and 160, then 64 again, in a loop; the cache has two lines of 16 bytes.
use isptap.Prelude.{
  ℕ, zero, suc, ◌≤◌, ◌<◌, ◌≡◌, ◌≢◌, refl, true, false, List, [], ◌∷◌, some, arith, ap,
  some_injective, length, inl, inr,
}
use mathlib.Core.List.{Memᴰ}
use isptap.MemUsage.{no_usage}
use isptap.AbsSet.{
  Sizes, is_in_set, has_addr, count_state, set_blank_mem_state, sort_mem_set_by_age,
  add_addr_and_age_to_map, get_unique_mem_addrs_of_sets, add_unique_mem_addrs_to_list, addrs_of_set,
  find,
}
use isptap.LruCache.{
  take_out, age_entries, age_and_evict, move_addr_to_front, add_addr_to_mem_set, access_set,
  access_line, access_lines, update, update_one, joined_must, joined_may, join_must, join_may,
  join_two, join_back, join,
}
use isptap.LruCache.Concrete.{age, access}
use isptap.MemStateGraph.{
  basic_block, entry, exit, EdgeType, forward_step, forward_jump, backward_jump, Edge, CfgNode,
  MemStateGraph, is_forward, in_edges, out_edges, count_forward,
}
use isptap.MemStateGraph.Edges.{Forward, of_Forward}
use isptap.Dfa.{push_targets, all_known, is_predecessor_mem_state_known, turn, loop}
use isptap.Dfa.Push.{work, total_ahead}
use isptap.Dfa.Loop.{Fed}
use isptap.IcacheDfa.{
  CacheParams, DfaState, is_basic_block, lines_from, get_cache_lines_of_cfg_node, first_forward,
  state_after, prev_states, join_and_set_initial_mem_state, set_initial_mem_state, process,
  analyze_loop, lines_of,
}
use isptap.IcacheDfa.Costs.{
  count_access, put_on_edge, put_penalty, vertices, get_cache_miss_cost, each_access, block_costs,
  add_penalty, add_penalties, calculate_cache_penalty, analyze_cache, Penalties, categorize,
  categorize_vertices, categorize_cache_accesses,
}
use isptap.IcacheDfa.Maintainers.{lru_maintainer}
use isptap.IcacheDfa.Lines.{Laid}
use isptap.IcacheDfa.Analysis.{Sane}
use isptap.IcacheDfa.Bound.{Countable}

abbrev pub sizes : Sizes
sizes = record { abs_mem_set = 56; abs_mem_entry = 8; entry_vector = 24 }

abbrev pub params : CacheParams
params = record { line_no = 2; line_size_bit = 4; use_bbs_instead_of_cache_lines = false }

abbrev pub block : ℕ → ℕ → CfgNode
block a size = record { node_type = basic_block; start_addr = a; bb_size = size }

abbrev pub node : ℕ → CfgNode
node zero = record { node_type = entry; start_addr = 0; bb_size = 0 }
node (suc zero) = block 64 16
node (suc (suc zero)) = block 136 8
node (suc (suc (suc zero))) = block 160 8
node (suc (suc (suc (suc zero)))) = block 72 4
node (suc (suc (suc (suc (suc v))))) = record { node_type = exit; start_addr = 0; bb_size = 0 }

abbrev pub edge : ℕ → ℕ → EdgeType → Edge
edge s t k = record { source = s; target = t; edge_type = k; dynamic_mem_penalty = 0 }

abbrev pub edges : List Edge
edges =
    edge 0 1 forward_step
    ∷ edge 1 2 forward_step
    ∷ edge 1 3 forward_jump
    ∷ edge 2 4 forward_jump
    ∷ edge 3 4 forward_step
    ∷ edge 4 1 backward_jump
    ∷ edge 4 5 forward_step
    ∷ []

abbrev pub graph : MemStateGraph
graph = record { no_vertices = 6; edges = edges; cfg_node = node }

abbrev pub blank : DfaState
blank = record {
  mem_state = λ v. record { must_set = []; may_set = [] };
  mem_state_valid = λ v. false;
  stats = no_usage;
}

abbrev pub no_penalties : Penalties
no_penalties = record {
  edges = edges;
  cache_hits = λ v. 0;
  cache_misses = λ v. 0;
  cache_ncs = λ v. 0;
  stats = no_usage;
}

unfoldable pub program : Unit {0}
unfolding take_out age_entries age_and_evict move_addr_to_front add_addr_to_mem_set access_set
    access_line access_lines update update_one joined_must joined_may join_must join_may join_two
    join_back join is_in_set has_addr count_state set_blank_mem_state sort_mem_set_by_age
    add_addr_and_age_to_map get_unique_mem_addrs_of_sets add_unique_mem_addrs_to_list addrs_of_set
    find age access is_forward in_edges out_edges count_forward push_targets all_known
    is_predecessor_mem_state_known turn loop is_basic_block lines_from get_cache_lines_of_cfg_node
    first_forward state_after prev_states join_and_set_initial_mem_state set_initial_mem_state
    process analyze_loop count_access put_on_edge put_penalty vertices get_cache_miss_cost
    each_access block_costs add_penalty add_penalties calculate_cache_penalty analyze_cache
    categorize categorize_vertices categorize_cache_accesses
program = tt

abbrev pub level : ℕ → ℕ
level zero = 0
level (suc zero) = 1
level (suc (suc zero)) = 2
level (suc (suc (suc zero))) = 2
level (suc (suc (suc (suc zero)))) = 3
level (suc (suc (suc (suc (suc v))))) = 4

-- what an edge of the graph satisfies
abbrev Climbs : Edge → Type 0
Climbs e = (level e.source < level e.target) × (level e.target ≤ 4)

edges_climb : (e : Edge) → Forward edges e → Climbs e
unfolding is_forward
edges_climb = of_Forward Climbs edges (
  (λ t. (omega arith, omega arith)),
  (
    (λ t. (omega arith, omega arith)),
    (
      (λ t. (omega arith, omega arith)),
      (
        (λ t. (omega arith, omega arith)),
        (
          (λ t. (omega arith, omega arith)),
          ((λ t. absurd (true_or_false t)), ((λ t. (omega arith, omega arith)), tt)),
        ),
      ),
    ),
  ),
)
  where
    true_or_false : false ≡ true → ⊥
    true_or_false t = cc

to_1 : Fed edges 0 1
unfolding is_forward
to_1 = inr (edge 0 1 forward_step, record { listed = Memᴰ.head refl; ahead = refl }, refl)

to_2 : Fed edges 0 2
unfolding is_forward
to_2 =
    inr (edge 1 2 forward_step, record { listed = Memᴰ.tail (Memᴰ.head refl); ahead = refl }, refl)

to_3 : Fed edges 0 3
unfolding is_forward
to_3 = inr (
  edge 1 3 forward_jump,
  record { listed = Memᴰ.tail (Memᴰ.tail (Memᴰ.head refl)); ahead = refl },
  refl,
)

to_4 : Fed edges 0 4
unfolding is_forward
to_4 = inr (
  edge 2 4 forward_jump,
  record { listed = Memᴰ.tail (Memᴰ.tail (Memᴰ.tail (Memᴰ.head refl))); ahead = refl },
  refl,
)

edges_through : (e : Edge) → Forward edges e → Fed edges 0 e.source × (e.source ≢ 5)
unfolding is_forward
edges_through =
    of_Forward (λ e. Fed edges 0 e.source × (e.source ≢ 5)) edges
      (
        (λ t. (inl refl, λ q. omega arith)),
        (
          (λ t. (to_1, λ q. omega arith)),
          (
            (λ t. (to_1, λ q. omega arith)),
            (
              (λ t. (to_2, λ q. omega arith)),
              (
                (λ t. (to_3, λ q. omega arith)),
                ((λ t. absurd (true_or_false t)), ((λ t. (to_4, λ q. omega arith)), tt)),
              ),
            ),
          ),
        ),
      )
  where
    true_or_false : false ≡ true → ⊥
    true_or_false t = cc

pub blocks-Laid : (v : ℕ) → (node v).node_type ≡ basic_block → Laid params (node v)
blocks-Laid zero h = cc
blocks-Laid (suc zero) h = record { filled = omega arith; low = omega arith; high = omega arith }
blocks-Laid (suc (suc zero)) h = record {
  filled = omega arith;
  low = omega arith;
  high = omega arith;
}
blocks-Laid (suc (suc (suc zero))) h = record {
  filled = omega arith;
  low = omega arith;
  high = omega arith;
}
blocks-Laid (suc (suc (suc (suc zero)))) h = record {
  filled = omega arith;
  low = omega arith;
  high = omega arith;
}
blocks-Laid (suc (suc (suc (suc (suc v))))) h = cc

pub sane : Sane params graph 0 5 4 level
unfolding in_edges
sane = record {
  source_only = refl;
  levels = record { climbs = λ e f. (edges_climb e f).0; bounded = λ e f. (edges_climb e f).1 };
  through = edges_through;
  blocks = blocks-Laid;
}

pub turns : work edges 4 0 ≤ 20
unfolding work total_ahead is_forward out_edges
turns = omega arith

few :
    (l : List ℕ) (v : ℕ)
    → lines_of (lru_maintainer 2 sizes) params graph 0 v ≡ some l
    → length l ≤ 1
unfolding program
few l zero q = omega (arith, ap length (some_injective q))
few l (suc zero) q = omega (arith, ap length (some_injective q))
few l (suc (suc zero)) q = omega (arith, ap length (some_injective q))
few l (suc (suc (suc zero))) q = omega (arith, ap length (some_injective q))
few l (suc (suc (suc (suc zero)))) q = omega (arith, ap length (some_injective q))
few l (suc (suc (suc (suc (suc v))))) q = omega (arith, ap length (some_injective q))

counted :
    (v : ℕ)
    → v < 6
    → Fed edges 0 v
    → v ≢ 5
    → Countable (lru_maintainer 2 sizes) params graph 0 5 (get_cache_miss_cost 9) v
unfolding get_cache_miss_cost
counted v h f n = record {
  listed = h;
  fed = f;
  inner = n;
  small = λ l q. (omega (arith, few l v q), omega (arith, few l v q));
}

pub countable :
    (v : ℕ)
    → (node v).node_type ≡ basic_block
    → Countable (lru_maintainer 2 sizes) params graph 0 5 (get_cache_miss_cost 9) v
unfolding get_cache_miss_cost
countable zero h = cc
countable (suc zero) h = counted 1 (omega arith) to_1 (λ q. omega arith)
countable (suc (suc zero)) h = counted 2 (omega arith) to_2 (λ q. omega arith)
countable (suc (suc (suc zero))) h = counted 3 (omega arith) to_3 (λ q. omega arith)
countable (suc (suc (suc (suc zero)))) h = counted 4 (omega arith) to_4 (λ q. omega arith)
countable (suc (suc (suc (suc (suc v))))) h = cc
