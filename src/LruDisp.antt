-- ===== src/LruDisp.antt =====
-- src/memory/lru_disp_state_maintainer.cpp: the must and may analysis of a scratchpad of whole
-- functions that replaces the least recently used one. The age of an entry bounds the number of
-- bytes that the functions take that were used after its own, from above in the must set and from
-- below in the may set.
use isptap.Prelude.{
  ℕ, ◌+◌, ◌-◌, ◌*◌, ◌%◌, ◌^◌, Bool, true, false, ◌&&◌, ◌||◌, List, [], ◌∷◌, ◌++◌, Option, none,
  some, ltb, leb, ◌==◌, if◌then◌else◌, ◌>>=◌, ◌>>◌, check, add32, length,
}
use mathlib.Core.List.{reverse}
use isptap.MemUsage.{MemoryUsageStats}
use isptap.AbsSet.{
  AbsMemEntry, AbsMemSet, AnalysisType, must, may, Sizes, is_in_set, count_state,
  sort_mem_set_by_age,
}
use isptap.LruCache.{take_out, front, join_two, Joined}
use isptap.Disp.{DispParams, get_function_mem_size}
pub mod Concrete
pub mod Shift
pub mod MustSet
pub mod Sets
pub mod Access
pub mod Update
pub mod Join
pub mod JoinAll
mod Tests

-- The assertions fail for ranges that end before they begin.
unfoldable pub check_function_intersection : ℕ → ℕ → ℕ → ℕ → Option Bool
check_function_intersection a_begin a_end b_begin b_end =
    if ltb a_end a_begin || ltb b_end b_begin
    then none
    else some (leb b_begin a_begin && ltb a_begin b_end || leb a_begin b_begin && ltb b_begin a_end)

-- the new age of `g`, whose range intersects that of the function `f` that moves to the front
unfoldable pub intersectional_age : AnalysisType → ℕ → ℕ → ℕ → ℕ → ℕ
intersectional_age must f_age f_size g_age g_size =
    let new_age = add32 (if ltb g_size f_age then f_age - g_size else 0) f_size in
    if ltb new_age g_age then g_age else new_age
intersectional_age may f_age f_size g_age g_size =
    add32 (if ltb g_age f_age then g_age else f_age) f_size

unfoldable pub get_intersectional_age : AnalysisType → ℕ → ℕ → ℕ → ℕ → Option ℕ
unfolding check_function_intersection intersectional_age
get_intersectional_age analysis f_age f_size g_age g_size = do
  i ← check_function_intersection f_age (add32 f_age f_size) g_age (add32 g_age g_size)
  check i
  some (intersectional_age analysis f_age f_size g_age g_size)

-- the new age of an entry in `moveAddrToFront`
unfoldable pub shifted_age : AnalysisType → ℕ → ℕ → ℕ → ℕ → Option ℕ
unfolding check_function_intersection get_intersectional_age
shifted_age analysis age_of_function size_of_function age it_size = do
  i ←
      check_function_intersection age_of_function (add32 age_of_function size_of_function) age
        (add32 age it_size)
  if i
      then get_intersectional_age analysis age_of_function size_of_function age it_size
      else some (if ltb age age_of_function then add32 age size_of_function else age)

unfoldable pub is_may : AnalysisType → Bool
is_may must = false
is_may may = true

module _ (p : DispParams) where
  -- the second loop of `moveAddrToFront`; the assertion fails for an eviction from the must set
  unfoldable pub shift_entries : AnalysisType → ℕ → ℕ → List AbsMemEntry → Option (List AbsMemEntry)
  unfolding shifted_age is_may get_function_mem_size
  shift_entries analysis age size [] = some []
  shift_entries analysis age size (e ∷ l) = do
    it_size ← get_function_mem_size p e.address
    new_age ← shifted_age analysis age size e.age it_size
    rest ← shift_entries analysis age size l
    if leb (add32 new_age it_size) p.size
        then some (record e { age = new_age } ∷ rest)
        else (do check (is_may analysis); some rest)

  -- The assertion fails where the function is not in the set.
  unfoldable pub move_addr_to_front :
      AnalysisType → ℕ → List AbsMemEntry → Option (List AbsMemEntry)
  unfolding shift_entries get_function_mem_size
  move_addr_to_front analysis f_addr mem_set = do
    size ← get_function_mem_size p f_addr
    found ← take_out f_addr mem_set
    rest ← shift_entries analysis found.0 size found.1
    some (rest ++ front f_addr ∷ [])

  -- the loop of `addAddrToMemSet`
  unfoldable pub age_and_evict : ℕ → List AbsMemEntry → Option (List AbsMemEntry)
  unfolding get_function_mem_size
  age_and_evict size [] = some []
  age_and_evict size (e ∷ l) = do
    it_size ← get_function_mem_size p e.address
    rest ← age_and_evict size l
    some (
        if ltb p.size (add32 (add32 e.age size) it_size)
        then rest
        else record e { age = add32 e.age size } ∷ rest)

  unfoldable pub add_addr_to_mem_set : ℕ → List AbsMemEntry → Option (List AbsMemEntry)
  unfolding age_and_evict get_function_mem_size
  add_addr_to_mem_set addr mem_set = do
    size ← get_function_mem_size p addr
    if ltb p.size size then (if p.ignore_outsized_functions then some mem_set else none) else (do
      kept ← age_and_evict size mem_set
      some (sort_mem_set_by_age (kept ++ front addr ∷ [])))

  -- one set of an update
  unfoldable pub access_set : AnalysisType → ℕ → List AbsMemEntry → Option (List AbsMemEntry)
  unfolding add_addr_to_mem_set move_addr_to_front
  access_set analysis function_addr mem_set =
      if is_in_set function_addr mem_set
      then move_addr_to_front analysis function_addr mem_set
      else add_addr_to_mem_set function_addr mem_set

  unfoldable pub update :
      Sizes → AbsMemSet → ℕ → MemoryUsageStats → Option (AbsMemSet × MemoryUsageStats)
  unfolding access_set count_state
  update sizes state function_addr stats = do
    must' ← access_set must function_addr state.must_set
    may' ← access_set may function_addr state.may_set
    let s : AbsMemSet = record {
      must_set = sort_mem_set_by_age must';
      may_set = sort_mem_set_by_age may';
    }
    some (s, count_state sizes s stats)

-- `join`, on the vector from its back to its front. A vector of more than two states loses its last
-- one and is joined first, in place; only the call that sees two states counts, which is the innermost
-- one. Returned are the joined state, the vector that the caller is left with, and the counters.
unfoldable pub join_back : Sizes → List AbsMemSet → MemoryUsageStats → Option Joined
unfolding join_two count_state
join_back sizes [] stats = none
join_back sizes (b ∷ []) stats = none
join_back sizes (b ∷ a ∷ []) stats = do
  s ← join_two a b
  some (s, b ∷ a ∷ [], count_state sizes s stats)
join_back sizes (b ∷ c ∷ d ∷ states) stats = do
  (a, left, stats') ← join_back sizes (c ∷ d ∷ states) stats
  s ← join_two a b
  some (s, left, stats')

unfoldable pub join : Sizes → List AbsMemSet → MemoryUsageStats → Option Joined
unfolding join_back
join sizes states stats = join_back sizes (reverse states) stats
