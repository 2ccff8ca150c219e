-- ===== src/StackDisp/Normalize.antt =====
-- src/memory/stack_disp_mem_state.cpp (normalize, alignWithOffset, operator==) and
-- src/memory/stack_bf_disp_state_maintainer.cpp: scratchpads are compared up to a rotation of the memory.
use isptap.Prelude.{
  ℕ, ◌+◌, ◌-◌, ◌*◌, ◌%◌, ◌^◌, Bool, true, false, ◌&&◌, List, [], ◌∷◌, Option, none, some, ◌==◌,
  if◌then◌else◌, length, map, add32,
}
use isptap.StackDisp.{StackEntry, StackDispMemState}
pub mod Rotation

-- The sum is a uint32_t.
unfoldable pub align_position : ℕ → ℕ → ℕ → ℕ
align_position mem_size offset pos = ((add32 pos mem_size + 2 ^ 32 - offset) % 2 ^ 32) % mem_size

unfoldable pub align_entry : ℕ → ℕ → StackEntry → StackEntry
unfolding align_position
align_entry mem_size offset e = record e {
  pos_begin = align_position mem_size offset e.pos_begin;
  pos_end = align_position mem_size offset e.pos_end;
}

unfoldable pub align_with_offset : ℕ → ℕ → List StackEntry → List StackEntry
unfolding align_entry
align_with_offset mem_size offset content =
    if offset == 0 then content else map (align_entry mem_size offset) content

-- The first entry of an empty scratchpad is read out of bounds.
unfoldable pub normalize : ℕ → StackDispMemState → Option StackDispMemState
unfolding align_with_offset
normalize mem_size s = elim s.content as (λ _. Option StackDispMemState) [
  | [] ↦ none
  | e ∷ l ↦ some (record { content = align_with_offset mem_size e.pos_begin (e ∷ l) })
]

-- `normalize(func_addr)`: the last entry of the function decides, and none is offset 0.
unfoldable pub offset_of : ℕ → ℕ → List StackEntry → ℕ
offset_of func_addr offset [] = offset
offset_of func_addr offset (e ∷ content) =
    offset_of func_addr (if e.address == func_addr then e.pos_begin else offset) content

unfoldable pub normalize_at : ℕ → ℕ → StackDispMemState → StackDispMemState
unfolding align_with_offset offset_of
normalize_at mem_size func_addr s = record {
  content = align_with_offset mem_size (offset_of func_addr 0 s.content) s.content;
}

-- the loop of `operator==`, after the sizes are compared
unfoldable pub same_entries : List StackEntry → List StackEntry → Bool
same_entries (x ∷ l) (y ∷ m) =
    if x.address == y.address && x.pos_begin == y.pos_begin && x.pos_end == y.pos_end
    then same_entries l m
    else false
same_entries _ _ = true

unfoldable pub same_state : StackDispMemState → StackDispMemState → Bool
unfolding same_entries
same_state a b =
    if length a.content == length b.content then same_entries a.content b.content else false

-- `sizes` are those of an entry and of the object.
unfoldable pub get_allocated_size : ℕ → ℕ → StackDispMemState → ℕ
get_allocated_size entry object s = (length s.content * entry + object) % 2 ^ 32

unfoldable pub get_number_of_maintained_references : StackDispMemState → ℕ
get_number_of_maintained_references s = length s.content
