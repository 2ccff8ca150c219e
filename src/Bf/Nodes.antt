-- ===== src/Bf/Nodes.antt =====
-- The map from the nodes to their abstract states.
use isptap.Prelude.{ℕ, ◌≡◌, refl, ◌≢◌, List, ◌∷◌, none, some, arith}
use isptap.Bf.{
  ConcreteState, Maintainer, get_abs_mem_state, add_abs_mem_state, store, remove_duplicates,
  count_states,
}

module _ {S : Type 0} where
  -- A state is added to a node that has none; it is then the state of this node, and the other
  -- nodes keep theirs.
  pub add_abs_mem_state_lem :
      (m : Maintainer S) (node : ℕ) (x : List S)
      → get_abs_mem_state m node ≡ none
      → (m' : Maintainer S) × (add_abs_mem_state m node x ≡ some m')
        × (get_abs_mem_state m' node ≡ some x)
        × ((k : ℕ) → k ≢ node → get_abs_mem_state m' k ≡ get_abs_mem_state m k)
        × (m'.stats ≡ m.stats)
  unfolding get_abs_mem_state add_abs_mem_state
  add_abs_mem_state_lem m node x h = (
    record m { state_map = (node, x) ∷ m.state_map },
    rw h,
    ground arith,
    λ k n. ground arith,
    refl,
  )

  -- A node is given a state once: the second time the assertion fails.
  pub add_abs_mem_state_twice :
      (m : Maintainer S) (node : ℕ) (x y : List S)
      → get_abs_mem_state m node ≡ some y
      → add_abs_mem_state m node x ≡ none
  unfolding get_abs_mem_state add_abs_mem_state
  add_abs_mem_state_twice m node x y h = rw h

module _ {S V : Type 0} (c : ConcreteState S V) where
  pub store_lem :
      (size : ℕ) (m : Maintainer S) (node : ℕ) (x : List S)
      → get_abs_mem_state m node ≡ none
      → (m' : Maintainer S) × (store c size m node x ≡ some m')
        × (get_abs_mem_state m' node ≡ some (remove_duplicates c x))
        × ((k : ℕ) → k ≢ node → get_abs_mem_state m' k ≡ get_abs_mem_state m k)
        × (m'.stats ≡ count_states c size (remove_duplicates c x) m.stats)
  unfolding store get_abs_mem_state
  store_lem size m node x h = (
    record {
      state_map = (node, remove_duplicates c x) ∷ m.state_map;
      stats = count_states c size (remove_duplicates c x) m.stats;
    },
    rw h,
    ground arith,
    λ k n. ground arith,
    refl,
  )
