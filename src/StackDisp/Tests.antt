-- ===== src/StackDisp/Tests.antt =====
-- Runs of the scratchpad with stack replacement, and its theorems at concrete states.
use isptap.Prelude.{
  map, ℕ, ◌<◌, ◌≡◌, ◌≢◌, ◌↔◌, refl, true, List, [], ◌∷◌, none, some, arith, All, AnyOf,
}
use isptap.MemUsage.{no_usage}
use isptap.Bf.{Maintainer, get_abs_mem_state, store, remove_duplicates}
use isptap.Bf.Sets.{Allows}
use isptap.FifoCache.Maintainer.{Sizes}
use isptap.Disp.{Activation, DispParams, get_function_mem_size}
use isptap.Disp
use isptap.Disp.Join.{Arrives}
use isptap.StackDisp.{
  Position, StackEntry, StackDispMemState, in_entries, is_in_state, check_function_intersection,
  touches_end, range, evict_functions_in_range, insert_behind, insert_before, insert_function,
  activate_function,
}
use isptap.StackDisp.Evict.{Laid}
use isptap.StackDisp.Disjoint.{LaidOut, Laid-LaidOut, Loads}
use isptap.StackDisp.Activate.{stack_activate_lem}
use isptap.StackDisp.Normalize.{align_with_offset, normalize, normalize_at, same_state}
use isptap.StackDisp.Normalize.Rotation.{moved, rotation_iff}
use isptap.StackDisp.Maintainer.{stack_disp, update, join}
use isptap.StackDisp.Maintainer.Join.{Loaded, normal_form, stack_join_exact}

program : Unit {0}
unfolding get_abs_mem_state store remove_duplicates get_function_mem_size Disp.get_function_size
    Disp.block_round_up Disp.each Disp.update_state Disp.join_states Disp.finish Disp.update
    Disp.join in_entries is_in_state check_function_intersection touches_end range
    evict_functions_in_range insert_behind insert_before insert_function activate_function
    align_with_offset normalize normalize_at same_state update join normal_form
program = tt

abbrev sizes : Sizes
sizes = record { entry = 12; object = 40; vector = 24 }

-- functions of 32, 16, 48 and 64 bytes in a memory of 64
abbrev params : DispParams
params = record {
  size = 64;
  block_size = 16;
  mapping_table_size = 8;
  ignore_outsized_functions = true;
  functions = (4, 20) ∷ (8, 16) ∷ (12, 40) ∷ (16, 64) ∷ [];
}

abbrev entry : ℕ → ℕ → ℕ → StackEntry
entry a b e = record { address = a; pos_begin = b; pos_end = e }

abbrev pad : List StackEntry → StackDispMemState
pad l = record { content = l }

abbrev two : List StackEntry
two = entry 4 0 32 ∷ entry 8 32 48 ∷ []

-- the called function of 48 bytes wraps around the end of the memory and evicts the first one
activate_runs :
    (activate_function params (pad two) 12 Activation.call 8
      ≡ some (pad (entry 8 32 48 ∷ entry 12 48 32 ∷ [])))
    × (activate_function params (pad two) 12 Activation.back 8
        ≡ some (pad (entry 12 48 32 ∷ entry 8 32 48 ∷ [])))
    × (activate_function params (pad []) 4 Activation.call 0 ≡ some (pad (entry 4 0 32 ∷ [])))
    × (activate_function params (pad []) 4 Activation.back 0 ≡ none)
unfolding program
activate_runs = (refl, refl, refl, refl)

-- the function that takes all of the memory leaves its caller, and the function before it, in place
full_size_run :
    activate_function params (pad two) 16 Activation.call 8
    ≡ some (pad (entry 4 0 32 ∷ entry 8 32 48 ∷ entry 16 48 48 ∷ []))
unfolding program
full_size_run = refl

normalize_runs :
    (normalize 64 (pad (entry 8 32 48 ∷ entry 12 48 32 ∷ []))
      ≡ some (pad (entry 8 0 16 ∷ entry 12 16 0 ∷ [])))
    × (normalize_at 64 12 (pad (entry 8 32 48 ∷ entry 12 48 32 ∷ []))
        ≡ pad (entry 8 48 0 ∷ entry 12 0 48 ∷ []))
unfolding program
normalize_runs = (refl, refl)

abbrev range_a : Position
range_a = record { pos_begin = 48; pos_end = 32 }

abbrev range_b : Position
range_b = record { pos_begin = 0; pos_end = 32 }

two-Laid : Laid 64 two
unfolding program
two-Laid = (
  (omega arith, omega arith, λ e. omega arith),
  ((refl, λ e. omega arith), tt),
  ((omega arith, omega arith, λ e. omega arith), tt, tt),
)

stack_activate_lem_example :
    (t : StackDispMemState) × (p : StackEntry) × (new : StackEntry) × (activate_function params
        (pad two)
        12
        Activation.call
        8
      ≡ some t)
    × AnyOf (λ g. g ≡ p) two
    × (p.address ≡ 8)
    × Loads 64 (omega arith) Activation.call 12 48 p new two t.content
    × LaidOut 64 t.content
unfolding program
stack_activate_lem_example =
    stack_activate_lem params (omega arith) Activation.call 12 48 8 (pad two) refl (omega arith)
      (omega arith) (Laid-LaidOut 64 (omega arith) two two-Laid) refl refl

rotation_iff_example :
    (normalize 64 (pad two) ≢ none)
    × ((normalize 64 (pad two) ≡ normalize 64 (pad (entry 4 16 48 ∷ entry 8 48 0 ∷ [])))
        ↔ ((k : ℕ) × (k < 64) × (two ≡ map (moved 64 k) (entry 4 16 48 ∷ entry 8 48 0 ∷ []))))
rotation_iff_example =
    rotation_iff 64 (omega arith) (entry 4 0 32) (entry 4 16 48) (entry 8 32 48 ∷ [])
      (entry 8 48 0 ∷ []) ((omega arith, omega arith), ((omega arith, omega arith), tt))
      ((omega arith, omega arith), ((omega arith, omega arith), tt))

abbrev nodes : Maintainer StackDispMemState
nodes = record {
  state_map = (1, pad two ∷ []) ∷ (2, pad (entry 4 16 48 ∷ entry 8 48 0 ∷ []) ∷ []) ∷ [];
  stats = no_usage;
}

-- the two scratchpads are rotations of each other, so one is left
join_run :
    (m : Maintainer StackDispMemState) × (join sizes params nodes (1 ∷ 2 ∷ []) 3 ≡ some m)
    × (get_abs_mem_state m 3 ≡ some (pad two ∷ []))
unfolding program
join_run = (_, refl, refl)

two-Loaded : All (Loaded 64) (pad two ∷ [])
two-Loaded = ((λ e. cc, ((omega arith, omega arith), ((omega arith, omega arith), tt))), tt)

turned-Loaded : All (Loaded 64) (pad (entry 4 16 48 ∷ entry 8 48 0 ∷ []) ∷ [])
turned-Loaded = ((λ e. cc, ((omega arith, omega arith), ((omega arith, omega arith), tt))), tt)

stack_join_exact_example :
    (m' : Maintainer StackDispMemState) × (y : List StackDispMemState) × (join sizes params nodes
        (1 ∷ 2 ∷ [])
        3
      ≡ some m')
    × (get_abs_mem_state m' 3 ≡ some y)
    × ((k : ℕ) → k ≢ 3 → get_abs_mem_state m' k ≡ get_abs_mem_state nodes k)
    × All (Loaded 64) y
    × ((v : List StackEntry)
        → Allows (stack_disp sizes) [] v y ↔ (
            (u : List StackEntry) × Arrives (stack_disp sizes) (Loaded 64) nodes [] u (1 ∷ 2 ∷ [])
            × (v ≡ normal_form 64 u)))
unfolding program
stack_join_exact_example =
    stack_join_exact sizes params (omega arith) nodes (1 ∷ 2 ∷ []) 3
      (
        (pad two ∷ [], refl, two-Loaded, λ e. cc),
        ((pad (entry 4 16 48 ∷ entry 8 48 0 ∷ []) ∷ [], refl, turned-Loaded, λ e. cc), tt),
      )
      (λ e. cc) refl
