-- ===== src/FifoDisp.antt =====
-- src/memory/fifo_disp_mem_state.cpp and src/memory/fifo_bf_disp_state_maintainer.cpp: the scratchpad that
-- loads whole functions and replaces them in the order in which they were loaded, the newest first.
use isptap.Prelude.{
  ◌^◌, ◌%◌, ℕ, suc, zero, Bool, true, false, not, List, [], ◌∷◌, Option, none, some, ltb, leb,
  if◌then◌else◌, ◌>>=◌, ◌>>◌, check, length, add32, ◌+◌, ◌*◌, ◌==◌,
}
use isptap.FifoCache.{in_content, pop_back, same_entries}
use isptap.Disp.{Activation, DispParams, get_function_mem_size}
pub mod Sizes
pub mod Policy
pub mod Maintainer
pub mod Exact
mod Tests

-- The parameters of the object are those of the maintainer; `content` holds the addresses of the
-- entries, which have no other field.
pub record FifoDispMemState : Type 0 where
  pub content : List ℕ

unfoldable pub is_in_state : ℕ → FifoDispMemState → Bool
unfolding in_content
is_in_state func_addr s = in_content func_addr s.content

module _ (p : DispParams) where
  -- the loop of `getUsedSize`, whose sum is a uint32_t
  unfoldable pub add_sizes : ℕ → List ℕ → Option ℕ
  unfolding get_function_mem_size
  add_sizes mem_set_size [] = some mem_set_size
  add_sizes mem_set_size (f ∷ content) = do
    s ← get_function_mem_size p f
    add_sizes (add32 mem_set_size s) content

  unfoldable pub get_used_size : List ℕ → Option ℕ
  unfolding add_sizes
  get_used_size content = add_sizes 0 content

  -- The loop that evicts functions while the scratchpad overflows, on fuel: a round removes one of
  -- the entries.
  unfoldable pub evict_last : ℕ → List ℕ → Option (List ℕ)
  unfolding get_used_size pop_back
  evict_last zero content = some content
  evict_last (suc n) content = do
    used ← get_used_size content
    elim (ltb p.size used) [ true ↦ evict_last n (pop_back content) | false ↦ some content ]

  -- the insertion of a function that is not in the state
  unfoldable pub insert_function : List ℕ → ℕ → Option (List ℕ)
  unfolding evict_last pop_back
  insert_function content func_addr = do
    let new = func_addr ∷ content
    let mapped = if ltb p.mapping_table_size (length new) then pop_back new else new
    kept ← evict_last (length mapped) mapped
    check (leb 1 (length kept))
    some kept

  unfoldable pub activate_function : FifoDispMemState → ℕ → Activation → ℕ → Option FifoDispMemState
  unfolding is_in_state insert_function get_function_mem_size
  activate_function s func_addr act predecessor = do
    size ← get_function_mem_size p func_addr
    if ltb p.size size
        then (if p.ignore_outsized_functions then some s else none)
        else if not (is_in_state func_addr s)
        then (do content ← insert_function s.content func_addr; some (record { content = content }))
        else some s

-- `operator==`
unfoldable pub same_state : FifoDispMemState → FifoDispMemState → Bool
unfolding same_entries
same_state a b =
    if length a.content == length b.content then same_entries a.content b.content else false

-- `sizes` are those of an entry and of the object.
unfoldable pub get_allocated_size : ℕ → ℕ → FifoDispMemState → ℕ
get_allocated_size entry object s = (length s.content * entry + object) % 2 ^ 32

unfoldable pub get_number_of_maintained_references : FifoDispMemState → ℕ
get_number_of_maintained_references s = length s.content
