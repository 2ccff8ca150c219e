-- ===== src/DispDfa/Categories.antt =====
-- src/memory/disp_dfa.cpp: categorizeMemAccesses, the count of the calls and returns that hit, that
-- miss, and that the analysis cannot tell, with the bytes that they load.
use isptap.Prelude.{ℕ, Bool, List, [], ◌∷◌, Option, some, if◌then◌else◌, ◌>>=◌, add32, inc32}
use isptap.AbsSet.{AbsMemSet, Sizes, is_in_set}
use isptap.ContextStack as ContextStack
use isptap.IcacheDfa.Costs.{vertices}
use isptap.Disp.{DispParams, get_function_mem_size}
use isptap.DispDfa.{
  DispGraph, DispDfaState, Handling, calls, returns, neither, handling_of, get_function_address,
  get_context_for_node,
}

-- the counters of the calls, or those of the returns, of type uint32_t
pub record ActivationCounts : Type 0 where
  pub hit : ℕ
  pub nc : ℕ
  pub nc_load_bytes : ℕ
  pub miss : ℕ
  pub miss_load_bytes : ℕ

pub record DispCounts : Type 0 where
  pub call_counts : ActivationCounts
  pub return_counts : ActivationCounts

abbrev pub no_counts : ActivationCounts
no_counts = record { hit = 0; nc = 0; nc_load_bytes = 0; miss = 0; miss_load_bytes = 0 }

unfoldable pub count_activation : ℕ → Bool → Bool → ActivationCounts → ActivationCounts
count_activation function_load_size in_must in_may k =
    if in_must
    then record k { hit = inc32 k.hit }
    else if in_may
    then record k { nc = inc32 k.nc; nc_load_bytes = add32 k.nc_load_bytes function_load_size }
    else record k {
      miss = inc32 k.miss;
      miss_load_bytes = add32 k.miss_load_bytes function_load_size;
    }

module _ (p : DispParams) where
  -- The function is looked up in the state of the vertex.
  unfoldable pub categorize_activation : ℕ → AbsMemSet → ActivationCounts → Option ActivationCounts
  categorize_activation function_addr mem k = do
    function_load_size ← get_function_mem_size p function_addr
    some (
        count_activation function_load_size (is_in_set function_addr mem.must_set)
          (is_in_set function_addr mem.may_set) k)

  -- The root function has no caller to return to.
  unfoldable pub categorize_return : List ℕ → AbsMemSet → ActivationCounts → Option ActivationCounts
  categorize_return [] mem k = some k
  categorize_return (function_addr ∷ ctx) mem k = categorize_activation function_addr mem k

module _ (p : DispParams) (sizes : Sizes) (g : DispGraph) (super_entry : ℕ) where
  unfoldable pub categorize_vertex : Handling → ℕ → DispDfaState → DispCounts → Option DispCounts
  categorize_vertex calls v d k = do
    function_addr ← get_function_address p sizes g super_entry v
    k' ← categorize_activation p function_addr (d.mem_state v) k.call_counts
    some (record k { call_counts = k' })
  categorize_vertex returns v d k = do
    k' ←
        categorize_return p (ContextStack.pop (get_context_for_node v d)).1 (d.mem_state v)
          k.return_counts
    some (record k { return_counts = k' })
  categorize_vertex neither v d k = some k

  unfoldable pub categorize_vertices : List ℕ → DispDfaState → DispCounts → Option DispCounts
  categorize_vertices [] d k = some k
  categorize_vertices (v ∷ vs) d k = do
    k' ← categorize_vertex (handling_of p sizes g super_entry v) v d k
    categorize_vertices vs d k'

  unfoldable pub categorize_mem_accesses : DispDfaState → Option DispCounts
  categorize_mem_accesses d =
      categorize_vertices (vertices g.msg.no_vertices) d
        (record { call_counts = no_counts; return_counts = no_counts })
