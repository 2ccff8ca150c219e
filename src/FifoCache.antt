-- ===== src/FifoCache.antt =====
-- src/memory/fifo_cache_mem_state.cpp: the concrete state of a fully associative cache that replaces
-- its lines in the order in which they were loaded, the newest first.
use isptap.Prelude.{
  ◌%◌, ◌^◌, ℕ, ◌+◌, ◌*◌, Bool, true, false, not, List, [], ◌∷◌, Option, none, some, ltb, leb, ◌==◌,
  if◌then◌else◌, ◌>>=◌, ◌>>◌, check, length,
}
pub mod Concrete
pub mod Maintainer
mod Tests

-- `content` holds the addresses of the entries, which have no other field.
pub record FifoCacheMemState : Type 0 where
  pub max_lines : ℕ
  pub content : List ℕ

-- FIFOCacheMemState(uint32_t maxLines)
unfoldable pub new_state : ℕ → FifoCacheMemState
new_state max = record { max_lines = max; content = [] }

unfoldable pub in_content : ℕ → List ℕ → Bool
in_content addr [] = false
in_content addr (x ∷ content) = if x == addr then true else in_content addr content

unfoldable pub is_in_state : ℕ → FifoCacheMemState → Bool
unfolding in_content
is_in_state addr s = in_content addr s.content

-- `vector::pop_back`
unfoldable pub pop_back {ℓ} : {A : Type ℓ} → List A → List A
pop_back [] = []
pop_back (x ∷ []) = []
pop_back (x ∷ y ∷ l) = x ∷ pop_back (y ∷ l)

-- The assertion fails where one removal does not make the state small enough.
unfoldable pub access_address : FifoCacheMemState → ℕ → Option FifoCacheMemState
access_address s addr =
    let content = addr ∷ s.content in
    if not (is_in_state addr s)
    then (if ltb s.max_lines (length content)
        then (do
          check (leb (length (pop_back content)) s.max_lines)
          some (record s { content = pop_back content }))
        else some (record s { content = content }))
    else some s

-- the loop of `operator==`, after the sizes are compared
unfoldable pub same_entries : List ℕ → List ℕ → Bool
same_entries (x ∷ l) (y ∷ m) = if x == y then same_entries l m else false
same_entries _ _ = true

-- `operator==` compares the contents, not `max_lines`.
unfoldable pub same_state : FifoCacheMemState → FifoCacheMemState → Bool
unfolding same_entries
same_state a b =
    if length a.content == length b.content then same_entries a.content b.content else false

-- `sizes` are those of an entry and of the object.
unfoldable pub get_allocated_size : ℕ → ℕ → FifoCacheMemState → ℕ
get_allocated_size entry object s = (length s.content * entry + object) % 2 ^ 32

unfoldable pub get_number_of_maintained_references : FifoCacheMemState → ℕ
get_number_of_maintained_references s = length s.content
