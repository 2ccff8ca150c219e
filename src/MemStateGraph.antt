-- ===== src/MemStateGraph.antt =====
-- src/graph/graph_structure.h: the graphs that the data flow analyses read. A memory state graph has
-- a vertex for each node of the control flow graph in each context; a vertex is its number.
use isptap.Prelude.{
  ℕ, zero, suc, ◌+◌, Bool, true, false, List, [], ◌∷◌, ◌==◌, if◌then◌else◌, length,
}
pub mod Edges

pub data NodeType : Type 0 where
  basic_block entry exit call_site call_point return_point flow_join_node unknown_jump_target :
      NodeType

pub data EdgeType : Type 0 where
  forward_step forward_step_unroll forward_jump backward_jump meta inducting_back_edge : EdgeType

pub record Edge : Type 0 where
  pub source : ℕ
  pub target : ℕ
  pub edge_type : EdgeType
  pub dynamic_mem_penalty : ℕ

-- what the analyses read of a node of the control flow graph
pub record CfgNode : Type 0 where
  pub node_type : NodeType
  pub start_addr : ℕ
  pub bb_size : ℕ

-- The program keeps a vertex together with the node it is mapped to; the node is `cfg_node` of the
-- vertex. The edges stand in the order in which they were inserted.
pub record MemStateGraph : Type 0 where
  pub no_vertices : ℕ
  pub edges : List Edge
  pub cfg_node : ℕ → CfgNode

-- `get(msgEdgeTypeEProp, e) != BackwardJump`
unfoldable pub is_forward : Edge → Bool
is_forward e = elim e.edge_type [ backward_jump ↦ false | _ ↦ true ]

unfoldable pub in_edges : ℕ → List Edge → List Edge
in_edges v [] = []
in_edges v (e ∷ es) = let rest = in_edges v es in if e.target == v then e ∷ rest else rest

unfoldable pub out_edges : ℕ → List Edge → List Edge
out_edges v [] = []
out_edges v (e ∷ es) = let rest = out_edges v es in if e.source == v then e ∷ rest else rest

abbrev pub in_degree : ℕ → List Edge → ℕ
in_degree v es = length (in_edges v es)

-- the loop of `getForwardInEdgeCount`
unfoldable pub count_forward : List Edge → ℕ
count_forward [] = 0
count_forward (e ∷ es) = let rest = count_forward es in if is_forward e then suc rest else rest

-- `getForwardInEdgeCount`
abbrev pub get_forward_in_edge_count : ℕ → List Edge → ℕ
get_forward_in_edge_count v es = count_forward (in_edges v es)
