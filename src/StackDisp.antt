-- ===== src/StackDisp.antt =====
-- src/memory/stack_disp_mem_state.cpp: the scratchpad that loads whole functions as on a cyclic stack. A
-- called function is put behind its caller, a function that is returned to before its callee, and what
-- it overwrites is evicted.
use isptap.Prelude.{
  ℕ, ◌+◌, ◌-◌, ◌*◌, ◌%◌, ◌^◌, Bool, true, false, ◌&&◌, ◌||◌, not, List, [], ◌∷◌, Option, none, some,
  ltb, leb, ◌==◌, if◌then◌else◌, ◌>>=◌, ◌>>◌, check, length, add32,
}
use isptap.Disp.{Activation, DispParams, get_function_mem_size}
pub mod Overlap
pub mod Evict
pub mod Insert
pub mod Neighbour
pub mod Disjoint
pub mod Activate
pub mod Normalize
pub mod Maintainer
mod Tests

-- `position_t`, whose fields are uint16_t
pub record Position : Type 0 where
  pub pos_begin : ℕ
  pub pos_end : ℕ

-- `DISPMemEntryStack`, whose fields are uint32_t
pub record StackEntry : Type 0 where
  pub address : ℕ
  pub pos_begin : ℕ
  pub pos_end : ℕ

pub record StackDispMemState : Type 0 where
  pub content : List StackEntry

unfoldable pub in_entries : ℕ → List StackEntry → Bool
in_entries func_addr [] = false
in_entries func_addr (e ∷ content) =
    if e.address == func_addr then true else in_entries func_addr content

unfoldable pub is_in_state : ℕ → StackDispMemState → Bool
unfolding in_entries
is_in_state func_addr s = in_entries func_addr s.content

-- `checkFunctionIntersection`
unfoldable pub check_function_intersection : ℕ → Position → Position → Bool
check_function_intersection mem_size a b =
    let wrap_a = ltb a.pos_end a.pos_begin in
    let wrap_b = ltb b.pos_end b.pos_begin in
    if leb b.pos_begin a.pos_begin
      && (ltb a.pos_begin (if wrap_b then b.pos_end + mem_size else b.pos_end)
          || (wrap_a && ltb b.pos_begin a.pos_end))
    then true
    else if leb a.pos_begin b.pos_begin
        && (ltb b.pos_begin (if wrap_a then a.pos_end + mem_size else a.pos_end)
            || (wrap_b && ltb a.pos_begin b.pos_end))
    then true
    else false

abbrev position : ℕ → ℕ → Position
position b e = record { pos_begin = b; pos_end = e }

abbrev larger : ℕ → ℕ → ℕ
larger a b = if ltb b a then a else b

abbrev smaller : ℕ → ℕ → ℕ
smaller a b = if ltb a b then a else b

-- The part of `getFunctionIntersection` after the ranges are found to intersect.
unfoldable pub intersection_range : Position → Position → Position
intersection_range a b =
    let wrap_a = ltb a.pos_end a.pos_begin in
    let wrap_b = ltb b.pos_end b.pos_begin in
    let inner = position (larger a.pos_begin b.pos_begin) (smaller a.pos_end b.pos_end) in
    if not wrap_a && not wrap_b
    then inner
    else if wrap_a && not wrap_b
    then (if ltb b.pos_end a.pos_begin
        then position b.pos_begin (smaller a.pos_end b.pos_end)
        else position (larger a.pos_begin b.pos_begin) b.pos_end)
    else if not wrap_a && wrap_b
    then (if ltb a.pos_end b.pos_begin
        then position a.pos_begin (smaller b.pos_end a.pos_end)
        else position (larger b.pos_begin a.pos_begin) a.pos_end)
    else inner

unfoldable pub get_function_intersection : ℕ → Position → Position → Bool × Position
unfolding check_function_intersection intersection_range
get_function_intersection mem_size a b =
    if check_function_intersection mem_size a b
    then (true, intersection_range a b)
    else (false, position 0 0)

-- the assignment of an entry's positions to those of a `position_t`
unfoldable pub range : StackEntry → Position
range e = position (e.pos_begin % 2 ^ 16) (e.pos_end % 2 ^ 16)

-- The function is overwritten from the left or from the right.
unfoldable pub touches_end : ℕ → Position → Position → Bool
unfolding get_function_intersection
touches_end mem_size evict_range func_range =
    let intersection = (get_function_intersection mem_size evict_range func_range).1 in
    (func_range.pos_begin == intersection.pos_begin) || (func_range.pos_end == intersection.pos_end)

-- The entries that stay, and whether one was erased.
unfoldable pub evict_functions_in_range :
    ℕ → StackEntry → List StackEntry → Option (List StackEntry × Bool)
unfolding check_function_intersection touches_end range
evict_functions_in_range mem_size evict [] = some ([], false)
evict_functions_in_range mem_size evict (e ∷ content) = do
  if not (e.address == evict.address)
        && check_function_intersection mem_size (range evict) (range e)
      then (do
        check (touches_end mem_size (range evict) (range e))
        rest ← evict_functions_in_range mem_size evict content
        some (rest.0, true))
      else (do rest ← evict_functions_in_range mem_size evict content; some (e ∷ rest.0, rest.1))

module _ (mem_size func_addr size predecessor : ℕ) where
  -- the entry behind that of the caller
  unfoldable pub entry_behind : StackEntry → StackEntry
  entry_behind e = record {
    address = func_addr;
    pos_begin = e.pos_end;
    pos_end = add32 e.pos_end size % mem_size;
  }

  -- the entry before that of the callee
  unfoldable pub entry_before : StackEntry → StackEntry
  entry_before e = record {
    address = func_addr;
    pos_begin = ((add32 e.pos_begin mem_size + 2 ^ 32 - size) % 2 ^ 32) % mem_size;
    pos_end = e.pos_begin;
  }

  -- The search of the caller from the front: the new entry, and the entries with it behind the caller's.
  unfoldable pub insert_behind : List StackEntry → Option (StackEntry × List StackEntry)
  unfolding entry_behind
  insert_behind [] = none
  insert_behind (e ∷ content) =
      if e.address == predecessor
      then some (entry_behind e, e ∷ entry_behind e ∷ content)
      else (do found ← insert_behind content; some (found.0, e ∷ found.1))

  -- The search of the callee from the back: the entries with the new one before the callee's.
  unfoldable pub insert_before : List StackEntry → Option (StackEntry × List StackEntry)
  unfolding entry_before
  insert_before [] = none
  insert_before (e ∷ content) = elim (insert_before content) [
    | some found ↦ some (found.0, e ∷ found.1)
    | none ↦
        if e.address == predecessor
        then some (entry_before e, entry_before e ∷ e ∷ content)
        else none
  ]

  unfoldable pub insert_called : List StackEntry → Option (StackEntry × List StackEntry)
  unfolding insert_behind
  insert_called [] =
      let tmp : StackEntry = record { address = func_addr; pos_begin = 0; pos_end = size } in
      some (tmp, tmp ∷ [])
  insert_called (e ∷ content) = insert_behind (e ∷ content)

  unfoldable pub insert_function :
      Activation → List StackEntry → Option (StackEntry × List StackEntry)
  unfolding insert_called insert_before
  insert_function Activation.call content = insert_called content
  insert_function Activation.back content = insert_before content

unfoldable pub activate_function :
    DispParams → StackDispMemState → ℕ → Activation → ℕ → Option StackDispMemState
unfolding is_in_state get_function_mem_size insert_function evict_functions_in_range
activate_function p s func_addr act predecessor = do
  size ← get_function_mem_size p func_addr
  if ltb p.size size
      then (if p.ignore_outsized_functions then some s else none)
      else if not (is_in_state func_addr s)
      then (do
        placed ← insert_function p.size func_addr size predecessor act s.content
        kept ← evict_functions_in_range p.size placed.0 placed.1
        check (leb 1 (length kept.0))
        some (record { content = kept.0 }))
      else some s
