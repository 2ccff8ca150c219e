-- ===== src/Bf.antt =====
-- What the brute force state maintainers share (src/memory/fifo_bf_cache_state_maintainer.cpp,
-- src/memory/fifo_bf_disp_state_maintainer.cpp, src/memory/stack_bf_disp_state_maintainer.cpp): an abstract
-- state is the vector of the concrete memory states that are possible at a node, and a map holds
-- the abstract state of each node of the memory state graph. The empty vector stands for the memory
-- before the first access.
use isptap.Prelude.{
  ℕ, suc, zero, ◌+◌, ◌*◌, ◌≡◌, ◌↔◌, Bool, true, false, not, List, [], ◌∷◌, Option, none, some, ◌==◌,
  if◌then◌else◌, ◌>>=◌, length,
}
use isptap.MemUsage.{MemoryUsageStats, allocated_memory_state}
pub mod Sets
pub mod Nodes

-- What a maintainer needs of the concrete states `S`: the comparison `operator==` sees a state
-- through its view, and so does the search of an address.
pub record ConcreteState (S V : Type 0) : Type 0 where
  pub view : S → V
  pub same : S → S → Bool
  pub same_iff : (a b : S) → (same a b ≡ true) ↔ (view a ≡ view b)
  pub holds : ℕ → V → Bool
  pub is_in_state : ℕ → S → Bool
  pub is_in_state_lem : (a : ℕ) (s : S) → is_in_state a s ≡ holds a (view s)
  pub allocated_size : S → ℕ
  pub references : S → ℕ

-- `map<MSGVertex, …>`, and the counters of the maintainer
pub record Maintainer (S : Type 0) : Type 0 where
  pub state_map : List (ℕ × List S)
  pub stats : MemoryUsageStats

module _ {S : Type 0} where
  unfoldable pub find_state : ℕ → List (ℕ × List S) → Option (List S)
  find_state node [] = none
  find_state node ((n, x) ∷ m) = if node == n then some x else find_state node m

  -- The assertion fails where the node has no state.
  unfoldable pub get_abs_mem_state : Maintainer S → ℕ → Option (List S)
  unfolding find_state
  get_abs_mem_state m node = find_state node m.state_map

  insert_state : Option (List S) → ℕ → List S → Maintainer S → Option (Maintainer S)
  insert_state none node x m = some (record m { state_map = (node, x) ∷ m.state_map })
  insert_state (some old) node x m = none

  -- The assertion fails where the node has a state already.
  unfoldable pub add_abs_mem_state : Maintainer S → ℕ → List S → Option (Maintainer S)
  unfolding insert_state find_state
  add_abs_mem_state m node x = insert_state (find_state node m.state_map) node x m

  -- `size` is that of the vector itself
  unfoldable pub set_blank_mem_state : ℕ → Maintainer S → ℕ → Option (Maintainer S)
  unfolding add_abs_mem_state allocated_memory_state
  set_blank_mem_state size m node =
      add_abs_mem_state (record m { stats = allocated_memory_state 1 size 0 m.stats }) node []

module _ {S V : Type 0} (c : ConcreteState S V) where
  open c use {same, is_in_state, allocated_size, references}

  -- the inner loop of `removeDuplicates`
  unfoldable pub erase_same : S → List S → List S
  erase_same a [] = []
  erase_same a (b ∷ x) = if same a b then erase_same a x else b ∷ erase_same a x

  unfoldable pub dedup : ℕ → List S → List S
  unfolding erase_same
  dedup zero x = x
  dedup (suc n) [] = []
  dedup (suc n) (a ∷ x) = a ∷ dedup n (erase_same a x)

  -- The rounds of the outer loop are at most the entries of the vector.
  unfoldable pub remove_duplicates : List S → List S
  unfolding dedup
  remove_duplicates x = dedup (length x) x

  unfoldable pub all_in : ℕ → List S → Bool
  all_in addr [] = true
  all_in addr (s ∷ x) = if not (is_in_state addr s) then false else all_in addr x

  unfoldable pub is_in_all_sets : ℕ → List S → Bool
  unfolding all_in
  is_in_all_sets addr [] = false
  is_in_all_sets addr (s ∷ x) = all_in addr (s ∷ x)

  unfoldable pub is_in_any_set : ℕ → List S → Bool
  is_in_any_set addr [] = false
  is_in_any_set addr (s ∷ x) = if is_in_state addr s then true else is_in_any_set addr x

  unfoldable pub is_in_no_set : ℕ → List S → Bool
  is_in_no_set addr [] = true
  is_in_no_set addr (s ∷ x) = if is_in_state addr s then false else is_in_no_set addr x

  pub sum_of : (S → ℕ) → List S → ℕ
  sum_of f [] = 0
  sum_of f (s ∷ x) = f s + sum_of f x

  -- the counting at the end of `update` and `join`
  unfoldable pub count_states : ℕ → List S → MemoryUsageStats → MemoryUsageStats
  unfolding sum_of allocated_memory_state
  count_states size x stats =
      allocated_memory_state (length x) (size + sum_of allocated_size x) (sum_of references x) stats

  -- the end of `update` and `join`: the set without duplicates becomes the state of the node
  unfoldable pub store : ℕ → Maintainer S → ℕ → List S → Option (Maintainer S)
  unfolding remove_duplicates count_states add_abs_mem_state
  store size m node x =
      let new_state = remove_duplicates x in
      add_abs_mem_state (record m { stats = count_states size new_state m.stats }) node new_state
