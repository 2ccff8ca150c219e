-- ===== src/Disp.antt =====
-- What the scratchpads of whole functions share: the sizes of functions in memory
-- (src/memory/disp_mem_state.cpp, src/graph/fcgobj.cpp), the ways to activate a function
-- (src/memory/bf_disp_state_maintainer.hpp), and the brute force maintainers over them
-- (src/memory/fifo_bf_disp_state_maintainer.cpp, src/memory/stack_bf_disp_state_maintainer.cpp), which differ
-- in the concrete state only.
use isptap.Prelude.{
  ℕ, ◌+◌, ◌*◌, ◌/◌, ◌%◌, ◌^◌, Bool, List, [], ◌∷◌, ◌++◌, Option, none, some, ◌==◌, if◌then◌else◌,
  ◌>>=◌, add32,
}
use isptap.Bf.{
  ConcreteState, Maintainer, get_abs_mem_state, add_abs_mem_state, is_in_all_sets, is_in_any_set,
  is_in_no_set, store,
}
pub mod Sizes
pub mod Exact
pub mod Join

-- `activation_type_t`
pub data Activation : Type 0 where
  call : Activation
  back : Activation

-- The parameters of the scratchpad, and the sizes of the functions of the call graph.
pub record DispParams : Type 0 where
  pub size : ℕ
  pub block_size : ℕ
  pub mapping_table_size : ℕ
  pub ignore_outsized_functions : Bool
  pub functions : List (ℕ × ℕ)

-- the lookup in `funcVMap`; a function that is not there has size 0
unfoldable pub get_function_size : ℕ → List (ℕ × ℕ) → ℕ
get_function_size addr [] = 0
get_function_size addr ((a, s) ∷ functions) =
    if a == addr then s else get_function_size addr functions

-- the size in whole blocks
unfoldable pub block_round_up : ℕ → ℕ → ℕ
block_round_up block_size f_size =
    add32 ((f_size / block_size) * block_size) (if f_size % block_size == 0 then 0 else block_size)

-- The assertion fails for a function without size.
unfoldable pub get_function_mem_size : DispParams → ℕ → Option ℕ
unfolding get_function_size block_round_up
get_function_mem_size p addr =
    let f_size = get_function_size addr p.functions in
    if f_size == 0 then none else some (block_round_up p.block_size f_size)

module _ {S : Type 0} (f : S → Option S) where
  -- a loop over the vector that changes each concrete state
  unfoldable pub each : List S → Option (List S)
  each [] = some []
  each (s ∷ x) = do s' ← f s; x' ← each x; some (s' ∷ x')

-- `activate` is `activateFunction` on a concrete state, and `start` a scratchpad without functions.
module _ {S : Type 0} (start : S) (activate : S → ℕ → Activation → ℕ → Option S) where
  -- `updateState`: the first activation makes a state of its own
  unfoldable pub update_state : List S → ℕ → Activation → ℕ → Option (List S)
  unfolding each
  update_state [] function_addr activation previous_function = do
    tmp ← activate start function_addr activation previous_function
    some (tmp ∷ [])
  update_state (s ∷ x) function_addr activation previous_function =
      each (λ t. activate t function_addr activation previous_function) (s ∷ x)

module _ {S : Type 0} where
  -- the loop of `join`
  unfoldable pub join_states : Maintainer S → List ℕ → Option (List S)
  unfolding get_abs_mem_state
  join_states m [] = some []
  join_states m (p ∷ predecessors) = do
    pre ← get_abs_mem_state m p
    others ← join_states m predecessors
    some (pre ++ others)

  unfoldable pub transfer : Maintainer S → ℕ → ℕ → Option (Maintainer S)
  unfolding get_abs_mem_state add_abs_mem_state
  transfer m predecessor node = do x ← get_abs_mem_state m predecessor; add_abs_mem_state m node x

module _ {S V : Type 0} (c : ConcreteState S V) where
  -- The end of `update` and `join`: `prepare` is what `removeDuplicates` does with a concrete state
  -- before it compares, and `vector` the size of the vector itself.
  unfoldable pub finish : (S → Option S) → ℕ → Maintainer S → ℕ → List S → Option (Maintainer S)
  unfolding each store
  finish prepare vector m node x = do x' ← each prepare x; store c vector m node x'

  unfoldable pub is_in_all : Maintainer S → ℕ → ℕ → Option Bool
  unfolding get_abs_mem_state is_in_all_sets
  is_in_all m addr node = do x ← get_abs_mem_state m node; some (is_in_all_sets c addr x)

  unfoldable pub is_in_any : Maintainer S → ℕ → ℕ → Option Bool
  unfolding get_abs_mem_state is_in_any_set
  is_in_any m addr node = do x ← get_abs_mem_state m node; some (is_in_any_set c addr x)

  unfoldable pub is_in_none : Maintainer S → ℕ → ℕ → Option Bool
  unfolding get_abs_mem_state is_in_no_set
  is_in_none m addr node = do x ← get_abs_mem_state m node; some (is_in_no_set c addr x)

-- What makes a maintainer: its concrete states, `vector`, `start`, `activate` and `prepare`.
pub record Policy (S V : Type 0) : Type 0 where
  pub concrete : ConcreteState S V
  pub vector : ℕ
  pub start : S
  pub activate : S → ℕ → Activation → ℕ → Option S
  pub prepare : S → Option S

module _ {S V : Type 0} (q : Policy S V) where
  unfoldable pub update : Maintainer S → ℕ → ℕ → ℕ → Activation → ℕ → Option (Maintainer S)
  unfolding update_state finish get_abs_mem_state
  update m predecessor node function_addr activation previous_function = do
    pred ← get_abs_mem_state m predecessor
    new ← update_state q.start q.activate pred function_addr activation previous_function
    finish q.concrete q.prepare q.vector m node new

  unfoldable pub join : Maintainer S → List ℕ → ℕ → Option (Maintainer S)
  unfolding join_states finish
  join m predecessors node = do
    new ← join_states m predecessors
    finish q.concrete q.prepare q.vector m node new
