-- ===== src/FifoDisp/Tests.antt =====
-- Runs of the scratchpad with FIFO replacement, and its theorems at concrete states.
use isptap.Prelude.{
  ℕ, ◌+◌, ◌%◌, ◌≤◌, ◌<◌, ◌≡◌, ◌≢◌, ◌↔◌, refl, true, false, List, [], ◌∷◌, none, some, arith, All,
}
use isptap.MemUsage.{no_usage}
use isptap.Bf.{Maintainer, get_abs_mem_state, is_in_all_sets, store, remove_duplicates}
use isptap.Bf.Sets.{Allows}
use isptap.FifoCache.{in_content, pop_back}
use isptap.FifoCache.Maintainer.{Sizes}
use isptap.Disp.{
  Activation, DispParams, get_function_size, get_function_mem_size, block_round_up, is_in_all,
  is_in_none,
}
use isptap.Disp
use isptap.Disp.Sizes.{get_function_mem_size_lem}
use isptap.Disp.Exact.{Stored}
use isptap.Disp.Join.{Arrives}
use isptap.FifoDisp.{
  FifoDispMemState, is_in_state, add_sizes, get_used_size, evict_last, insert_function,
  activate_function, same_state,
}
use isptap.FifoDisp.Maintainer.{fifo_disp, update, join}
use isptap.FifoDisp.Policy.{fifo_activate, Fits, Sound}
use isptap.FifoDisp.Sizes.{mem_size, total, fit}
use isptap.FifoDisp.Exact.{scratchpad_update_exact, scratchpad_join_exact, scratchpad_answers_exact}

program : Unit {0}
unfolding get_abs_mem_state is_in_all_sets store remove_duplicates in_content pop_back
    get_function_size get_function_mem_size block_round_up is_in_all is_in_none is_in_state
    add_sizes get_used_size evict_last insert_function activate_function same_state update join
    mem_size total fit fifo_activate Disp.each Disp.update_state Disp.join_states Disp.finish
    Disp.update Disp.join
program = tt

abbrev sizes : Sizes
sizes = record { entry = 4; object = 40; vector = 24 }

-- three functions of 20, 16 and 40 bytes, which take 32, 16 and 48, and one of 100
abbrev params : DispParams
params = record {
  size = 64;
  block_size = 16;
  mapping_table_size = 2;
  ignore_outsized_functions = true;
  functions = (4, 20) ∷ (8, 16) ∷ (12, 40) ∷ (16, 100) ∷ [];
}

abbrev pad : List ℕ → FifoDispMemState
pad l = record { content = l }

abbrev nodes : Maintainer FifoDispMemState
nodes = record {
  state_map =
      (0, []) ∷ (1, pad (8 ∷ 4 ∷ []) ∷ pad (12 ∷ 8 ∷ []) ∷ []) ∷ (2, pad (4 ∷ []) ∷ []) ∷ [];
  stats = no_usage;
}

-- a function that does not fit with both is loaded in place of the older one, and one that does not
-- fit at all is ignored
activate_runs :
    (activate_function params (pad (8 ∷ 4 ∷ [])) 12 Activation.call 8 ≡ some (pad (12 ∷ 8 ∷ [])))
    × (activate_function params (pad (8 ∷ 4 ∷ [])) 16 Activation.call 8 ≡ some (pad (8 ∷ 4 ∷ [])))
    × (activate_function params (pad (8 ∷ 4 ∷ [])) 99 Activation.call 8 ≡ none)
unfolding program
activate_runs = (refl, refl, refl)

answer_runs :
    (is_in_all (fifo_disp sizes) nodes 8 1 ≡ some true)
    × (is_in_all (fifo_disp sizes) nodes 4 1 ≡ some false)
unfolding program
answer_runs = (refl, refl)

pads_fit : All (Fits params) (pad (8 ∷ 4 ∷ []) ∷ pad (12 ∷ 8 ∷ []) ∷ [])
unfolding program
pads_fit = (
  record { known = (refl, (refl, tt)); mapped = omega arith; sized = omega arith },
  (record { known = (refl, (refl, tt)); mapped = omega arith; sized = omega arith }, tt),
)

pad-Fits : Fits params (pad (4 ∷ []))
unfolding program
pad-Fits = record { known = (refl, tt); mapped = omega arith; sized = omega arith }

loads_12 : Sound params 12
unfolding program
loads_12 = record {
  known = refl;
  table = omega arith;
  small = omega arith;
  outsized = λ h. absurd (omega arith);
}

get_function_mem_size_lem_example :
    ((get_function_size 12 params.functions ≡ 0) → get_function_mem_size params 12 ≡ none)
    × ((get_function_size 12 params.functions ≢ 0)
        → (s : ℕ) × (get_function_mem_size params 12 ≡ some s)
          × (s % 16 ≡ 0)
          × (get_function_size 12 params.functions ≤ s)
          × (s < get_function_size 12 params.functions + 16))
unfolding program
get_function_mem_size_lem_example = get_function_mem_size_lem params 12 (omega arith) (omega arith)

scratchpad_update_exact_example :
    Stored
      (fifo_disp sizes)
      (Fits params)
      []
      (fifo_activate params 12)
      (pad (8 ∷ 4 ∷ []) ∷ pad (12 ∷ 8 ∷ []) ∷ [])
      nodes
      3
      (update sizes params nodes 1 3 12 Activation.call 8)
unfolding program
scratchpad_update_exact_example =
    scratchpad_update_exact sizes params nodes 1 3 12 Activation.call 8
      (pad (8 ∷ 4 ∷ []) ∷ pad (12 ∷ 8 ∷ []) ∷ []) loads_12 refl refl pads_fit

scratchpad_join_exact_example :
    (m' : Maintainer FifoDispMemState) × (y : List FifoDispMemState) × (join sizes params nodes
        (1 ∷ 2 ∷ [])
        3
      ≡ some m')
    × (get_abs_mem_state m' 3 ≡ some y)
    × ((k : ℕ) → k ≢ 3 → get_abs_mem_state m' k ≡ get_abs_mem_state nodes k)
    × All (Fits params) y
    × ((v : List ℕ)
        → Allows (fifo_disp sizes) [] v y
          ↔ Arrives (fifo_disp sizes) (Fits params) nodes [] v (1 ∷ 2 ∷ []))
unfolding program
scratchpad_join_exact_example =
    scratchpad_join_exact sizes params nodes (1 ∷ 2 ∷ []) 3
      (
        (pad (8 ∷ 4 ∷ []) ∷ pad (12 ∷ 8 ∷ []) ∷ [], refl, pads_fit, λ e. cc),
        ((pad (4 ∷ []) ∷ [], refl, (pad-Fits, tt), λ e. cc), tt),
      )
      (λ e. cc) refl

scratchpad_answers_exact_example :
    ((is_in_all (fifo_disp sizes) nodes 8 1 ≡ some true) ↔ (
      (v : List ℕ)
      → Allows (fifo_disp sizes) [] v (pad (8 ∷ 4 ∷ []) ∷ pad (12 ∷ 8 ∷ []) ∷ [])
      → in_content 8 v ≡ true))
    × ((is_in_none (fifo_disp sizes) nodes 8 1 ≡ some true) ↔ (
        (v : List ℕ)
        → Allows (fifo_disp sizes) [] v (pad (8 ∷ 4 ∷ []) ∷ pad (12 ∷ 8 ∷ []) ∷ [])
        → in_content 8 v ≡ false))
unfolding program
scratchpad_answers_exact_example =
    scratchpad_answers_exact sizes params nodes 8 1 (pad (8 ∷ 4 ∷ []) ∷ pad (12 ∷ 8 ∷ []) ∷ []) refl
