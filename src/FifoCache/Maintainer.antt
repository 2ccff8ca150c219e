-- ===== src/FifoCache/Maintainer.antt =====
-- src/memory/fifo_bf_cache_state_maintainer.cpp: the brute force maintainer of FIFO caches.
use isptap.Prelude.{
  ℕ, ◌≤◌, ◌≡◌, Bool, true, false, List, [], ◌∷◌, ◌++◌, Option, none, some, ◌==◌, ◌>>=◌, ◌>>◌, check,
  length,
}
use isptap.Bf.{
  ConcreteState, Maintainer, get_abs_mem_state, is_in_all_sets, is_in_any_set, is_in_no_set, store,
}
use isptap.FifoCache.{
  FifoCacheMemState, new_state, in_content, is_in_state, access_address, same_state,
  get_allocated_size, get_number_of_maintained_references,
}
use isptap.FifoCache.Concrete.{same_state_iff, is_in_state_lem}
pub mod Update
pub mod Join

-- `sizeof` of an entry, of a concrete state and of a vector of them
pub record Sizes : Type 0 where
  pub entry : ℕ
  pub object : ℕ
  pub vector : ℕ

abbrev pub fifo : Sizes → ConcreteState FifoCacheMemState (List ℕ)
fifo sizes = record {
  view = λ s. s.content;
  same = same_state;
  same_iff = same_state_iff;
  holds = in_content;
  is_in_state = is_in_state;
  is_in_state_lem = is_in_state_lem;
  allocated_size = get_allocated_size sizes.entry sizes.object;
  references = get_number_of_maintained_references;
}

unfoldable pub access_all : List FifoCacheMemState → ℕ → Option (List FifoCacheMemState)
access_all [] line_addr = some []
access_all (s ∷ state) line_addr = do
  s' ← access_address s line_addr
  state' ← access_all state line_addr
  some (s' ∷ state')

-- `updateState`: the first access makes a state of its own
unfoldable pub update_state : ℕ → List FifoCacheMemState → ℕ → Option (List FifoCacheMemState)
unfolding new_state access_all
update_state line_no [] line_addr = do
  tmp ← access_address (new_state line_no) line_addr
  some (tmp ∷ [])
update_state line_no (s ∷ state) line_addr = access_all (s ∷ state) line_addr

unfoldable pub update_lines : ℕ → List FifoCacheMemState → List ℕ → Option (List FifoCacheMemState)
update_lines line_no state [] = some state
update_lines line_no state (addr ∷ line_addrs) = do
  state' ← update_state line_no state addr
  update_lines line_no state' line_addrs

module _ (sizes : Sizes) (line_no : ℕ) where
  unfoldable pub update :
      Maintainer FifoCacheMemState → ℕ → ℕ → List ℕ → Option (Maintainer FifoCacheMemState)
  update m predecessor node line_addrs = do
    pred ← get_abs_mem_state m predecessor
    new ← update_lines line_no pred line_addrs
    m' ← store (fifo sizes) sizes.vector m node new
    pred' ← get_abs_mem_state m' predecessor
    check (length pred == length pred')
    some m'

  -- the loop of `join`; `at(i)` throws where there are fewer line vectors than predecessors
  unfoldable pub join_states :
      Maintainer FifoCacheMemState → List ℕ → List (List ℕ) → Option (List FifoCacheMemState)
  join_states m [] lines = some []
  join_states m (p ∷ predecessors) [] = none
  join_states m (p ∷ predecessors) (line_addrs ∷ lines) = do
    pre ← get_abs_mem_state m p
    post ← update_lines line_no pre line_addrs
    others ← join_states m predecessors lines
    some (post ++ others)

  unfoldable pub join :
      Maintainer FifoCacheMemState
      → List ℕ
      → List (List ℕ)
      → ℕ
      → Option (Maintainer FifoCacheMemState)
  join m predecessors predecessor_cache_lines node = do
    new ← join_states m predecessors predecessor_cache_lines
    store (fifo sizes) sizes.vector m node new

  -- `isInMust`, `isInMay` and `isInNoSet` after the lines `prev_addrs` are loaded
  unfoldable pub is_in_must : Maintainer FifoCacheMemState → List ℕ → ℕ → ℕ → Option Bool
  is_in_must m prev_addrs addr node = do
    x ← get_abs_mem_state m node
    state ← update_lines line_no x prev_addrs
    some (is_in_all_sets (fifo sizes) addr state)

  unfoldable pub is_in_may : Maintainer FifoCacheMemState → List ℕ → ℕ → ℕ → Option Bool
  is_in_may m prev_addrs addr node = do
    x ← get_abs_mem_state m node
    state ← update_lines line_no x prev_addrs
    some (is_in_any_set (fifo sizes) addr state)

  unfoldable pub is_in_none : Maintainer FifoCacheMemState → List ℕ → ℕ → ℕ → Option Bool
  is_in_none m prev_addrs addr node = do
    x ← get_abs_mem_state m node
    state ← update_lines line_no x prev_addrs
    some (is_in_no_set (fifo sizes) addr state)
