-- ===== src/FifoCache/Tests.antt =====
-- Runs of the brute force FIFO analysis, and its theorems at concrete states.
use isptap.Prelude.{ℕ, ◌≡◌, ◌≢◌, ◌↔◌, refl, true, false, List, [], ◌∷◌, some, arith, inl, inr}
use isptap.MemUsage.{no_usage}
use isptap.Bf.{
  Maintainer, get_abs_mem_state, add_abs_mem_state, remove_duplicates, is_in_all_sets,
  is_in_any_set, is_in_no_set, store,
}
use isptap.Bf.Sets.{Has, NoTwins, Allows, remove_duplicates_lem}
use isptap.Bf.Nodes.{add_abs_mem_state_lem}
use isptap.FifoCache.{
  FifoCacheMemState, in_content, is_in_state, new_state, pop_back, access_address, same_state,
  get_allocated_size, get_number_of_maintained_references,
}
use isptap.FifoCache.Concrete.{fifo_access, access_address-eq-fifo}
use isptap.FifoCache.Maintainer.{
  Sizes, fifo, access_all, update_state, update_lines, update, join_states, join, is_in_must,
  is_in_none,
}
use isptap.FifoCache.Maintainer.Update.{
  Fits, Image, fifo_accesses, update_exact, classification_exact,
}
use isptap.FifoCache.Maintainer.Join.{Arrives, join_exact}

program : Unit {0}
unfolding get_abs_mem_state add_abs_mem_state remove_duplicates is_in_all_sets is_in_any_set
    is_in_no_set store in_content is_in_state new_state pop_back access_address same_state
    get_allocated_size get_number_of_maintained_references fifo_access access_all update_state
    update_lines update join_states join is_in_must is_in_none fifo_accesses
program = tt

abbrev sizes : Sizes
sizes = record { entry = 4; object = 40; vector = 24 }

abbrev cache : List ℕ → FifoCacheMemState
cache l = record { max_lines = 2; content = l }

-- nodes 0 and 1 have states: the blank one, and that of two possible caches
abbrev nodes : Maintainer FifoCacheMemState
nodes = record {
  state_map = (0, []) ∷ (1, cache (16 ∷ []) ∷ cache (32 ∷ 16 ∷ []) ∷ []) ∷ [];
  stats = no_usage;
}

-- a hit does not move the line to the front, and a miss drops the line that was loaded first
access_runs :
    (access_address (cache (32 ∷ 16 ∷ [])) 16 ≡ some (cache (32 ∷ 16 ∷ [])))
    × (access_address (cache (32 ∷ 16 ∷ [])) 48 ≡ some (cache (48 ∷ 32 ∷ [])))
unfolding program
access_runs = (refl, refl)

must_runs :
    (is_in_must sizes 2 nodes (32 ∷ []) 16 1 ≡ some true)
    × (is_in_must sizes 2 nodes (48 ∷ []) 16 1 ≡ some false)
unfolding program
must_runs = (refl, refl)

duplicates_run :
    remove_duplicates (fifo sizes) (cache (16 ∷ []) ∷ cache [] ∷ cache (16 ∷ []) ∷ [])
    ≡ cache (16 ∷ []) ∷ cache [] ∷ []
unfolding program
duplicates_run = refl

access_address-eq-fifo_example :
    access_address (cache (32 ∷ 16 ∷ [])) 48 ≡ some (cache (fifo_access 2 (32 ∷ 16 ∷ []) 48))
access_address-eq-fifo_example = access_address-eq-fifo (cache (32 ∷ 16 ∷ [])) 48 (omega arith)

remove_duplicates_lem_example :
    NoTwins (fifo sizes) (remove_duplicates (fifo sizes) (cache (16 ∷ []) ∷ cache (16 ∷ []) ∷ []))
    × ((v : List ℕ)
        → Has (fifo sizes) v (cache (16 ∷ []) ∷ cache (16 ∷ []) ∷ [])
          ↔ Has
              (fifo sizes)
              v
              (remove_duplicates (fifo sizes) (cache (16 ∷ []) ∷ cache (16 ∷ []) ∷ [])))
remove_duplicates_lem_example =
    remove_duplicates_lem (fifo sizes) (cache (16 ∷ []) ∷ cache (16 ∷ []) ∷ [])

add_abs_mem_state_lem_example :
    (m' : Maintainer FifoCacheMemState) × (add_abs_mem_state nodes 2 (cache [] ∷ []) ≡ some m')
    × (get_abs_mem_state m' 2 ≡ some (cache [] ∷ []))
    × ((k : ℕ) → k ≢ 2 → get_abs_mem_state m' k ≡ get_abs_mem_state nodes k)
    × (m'.stats ≡ no_usage)
unfolding program
add_abs_mem_state_lem_example = add_abs_mem_state_lem nodes 2 (cache [] ∷ []) refl

update_exact_example :
    (m' : Maintainer FifoCacheMemState) × (y : List FifoCacheMemState) × (update sizes 2 nodes 1 2
        (48 ∷ [])
      ≡ some m')
    × (get_abs_mem_state m' 2 ≡ some y)
    × ((k : ℕ) → k ≢ 2 → get_abs_mem_state m' k ≡ get_abs_mem_state nodes k)
    × Fits 2 y
    × Image sizes 2
        (λ u. fifo_accesses 2 u (48 ∷ []))
        (cache (16 ∷ []) ∷ cache (32 ∷ 16 ∷ []) ∷ [])
        y
unfolding program
update_exact_example =
    update_exact sizes 2 nodes 1 2 (48 ∷ []) (cache (16 ∷ []) ∷ cache (32 ∷ 16 ∷ []) ∷ []) refl refl
      ((refl, omega arith), ((refl, omega arith), tt))

classification_exact_example :
    ((is_in_must sizes 2 nodes (32 ∷ []) 16 1 ≡ some true) ↔ (
      (u : List ℕ)
      → Allows (fifo sizes) [] u (cache (16 ∷ []) ∷ cache (32 ∷ 16 ∷ []) ∷ [])
      → in_content 16 (fifo_accesses 2 u (32 ∷ [])) ≡ true))
    × ((is_in_none sizes 2 nodes (32 ∷ []) 16 1 ≡ some true) ↔ (
        (u : List ℕ)
        → Allows (fifo sizes) [] u (cache (16 ∷ []) ∷ cache (32 ∷ 16 ∷ []) ∷ [])
        → in_content 16 (fifo_accesses 2 u (32 ∷ [])) ≡ false))
unfolding program
classification_exact_example =
    classification_exact sizes 2 nodes (32 ∷ []) 16 1 (cache (16 ∷ []) ∷ cache (32 ∷ 16 ∷ []) ∷ [])
      refl ((refl, omega arith), ((refl, omega arith), tt))

join_exact_example :
    (m' : Maintainer FifoCacheMemState) × (y : List FifoCacheMemState) × (join sizes 2 nodes
        (0 ∷ 1 ∷ [])
        ((48 ∷ []) ∷ [] ∷ [])
        2
      ≡ some m')
    × (get_abs_mem_state m' 2 ≡ some y)
    × ((k : ℕ) → k ≢ 2 → get_abs_mem_state m' k ≡ get_abs_mem_state nodes k)
    × Fits 2 y
    × ((v : List ℕ)
        → Allows (fifo sizes) [] v y ↔ Arrives sizes 2 nodes v (0 ∷ 1 ∷ []) ((48 ∷ []) ∷ [] ∷ []))
unfolding program
join_exact_example =
    join_exact sizes 2 nodes (0 ∷ 1 ∷ []) ((48 ∷ []) ∷ [] ∷ []) 2
      (
        ([], refl, tt, inr (λ e. cc)),
        (
          (
            cache (16 ∷ []) ∷ cache (32 ∷ 16 ∷ []) ∷ [],
            refl,
            ((refl, omega arith), ((refl, omega arith), tt)),
            inl (λ e. cc),
          ),
          tt,
        ),
      )
      (λ e. cc) refl
