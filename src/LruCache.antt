-- ===== src/LruCache.antt =====
-- src/memory/lru_cache_state_maintainer.cpp: the must and may analysis of a fully associative cache
-- that replaces the least recently used line. The age of an entry bounds the age of its line in
-- the cache, from above in the must set and from below in the may set.
use isptap.Prelude.{
  ℕ, ◌+◌, ◌*◌, ◌%◌, ◌^◌, Bool, true, false, List, [], ◌∷◌, ◌++◌, Option, none, some, ltb, leb, ◌==◌,
  if◌then◌else◌, ◌>>=◌, ◌>>◌, check, inc32, length,
}
use mathlib.Core.List.{reverse}
use isptap.MemUsage.{MemoryUsageStats}
use isptap.AbsSet.{
  AbsMemEntry, AbsMemSet, AnalysisType, must, may, Sizes, is_in_set, sort_mem_set_by_age,
  get_unique_mem_addrs_of_sets, AddrAgeMap, find, add_addr_and_age_to_map, count_state,
}
pub mod Concrete
pub mod TakeOut
pub mod Must
pub mod May
pub mod Update
pub mod Join
mod Tests

-- the loop of `moveAddrToFront` that finds the address: its age, and the set without the entry
unfoldable pub take_out : ℕ → List AbsMemEntry → Option (ℕ × List AbsMemEntry)
take_out addr [] = none
take_out addr (e ∷ mem_set) =
    let rest = take_out addr mem_set in
    if e.address == addr then some (e.age, mem_set) else (do (age, l) ← rest; some (age, e ∷ l))

-- does an entry of this age grow older when an entry of age `age_of_addr` moves to the front?
unfoldable pub grows : AnalysisType → ℕ → ℕ → Bool
grows must age age_of_addr = ltb age age_of_addr
grows may age age_of_addr = leb age age_of_addr

unfoldable pub age_entries : AnalysisType → ℕ → List AbsMemEntry → List AbsMemEntry
unfolding grows
age_entries analysis age_of_addr [] = []
age_entries analysis age_of_addr (e ∷ l) =
    record e { age = if grows analysis e.age age_of_addr then inc32 e.age else e.age }
    ∷ age_entries analysis age_of_addr l

abbrev pub front : ℕ → AbsMemEntry
front addr = record { address = addr; age = 0 }

-- The assertion fails where the address is not in the set.
unfoldable pub move_addr_to_front : ℕ → List AbsMemEntry → AnalysisType → Option (List AbsMemEntry)
move_addr_to_front addr mem_set analysis = do
  (age_of_addr, rest) ← take_out addr mem_set
  some (age_entries analysis age_of_addr rest ++ front addr ∷ [])

-- the loop of `addAddrToMemSet`
unfoldable pub age_and_evict : ℕ → List AbsMemEntry → List AbsMemEntry
age_and_evict line_no [] = []
age_and_evict line_no (e ∷ l) =
    let rest = age_and_evict line_no l in
    if leb line_no (inc32 e.age) then rest else record e { age = inc32 e.age } ∷ rest

unfoldable pub add_addr_to_mem_set : ℕ → ℕ → List AbsMemEntry → List AbsMemEntry
add_addr_to_mem_set line_no addr mem_set = age_and_evict line_no mem_set ++ front addr ∷ []

-- one set of an update by one address
unfoldable pub access_set : ℕ → AnalysisType → ℕ → List AbsMemEntry → Option (List AbsMemEntry)
access_set line_no analysis addr mem_set =
    if is_in_set addr mem_set
    then move_addr_to_front addr mem_set analysis
    else some (add_addr_to_mem_set line_no addr mem_set)

unfoldable pub access_line : ℕ → AbsMemSet → ℕ → Option AbsMemSet
access_line line_no s addr = do
  must' ← access_set line_no must addr s.must_set
  may' ← access_set line_no may addr s.may_set
  some (record { must_set = must'; may_set = may' })

unfoldable pub access_lines : ℕ → AbsMemSet → List ℕ → Option AbsMemSet
access_lines line_no s [] = some s
access_lines line_no s (addr ∷ line_addrs) = do
  s' ← access_line line_no s addr
  access_lines line_no s' line_addrs

-- `update` by a vector of lines
unfoldable pub update :
    ℕ → Sizes → AbsMemSet → List ℕ → Bool → MemoryUsageStats → Option (AbsMemSet × MemoryUsageStats)
update line_no sizes state line_addrs use_stats stats = do
  s' ← access_lines line_no state line_addrs
  some (s', if use_stats then count_state sizes s' stats else stats)

-- `update` by one line
unfoldable pub update_one :
    ℕ → Sizes → AbsMemSet → ℕ → Bool → MemoryUsageStats → Option (AbsMemSet × MemoryUsageStats)
update_one line_no sizes state line_addr use_stats stats = do
  s' ← access_line line_no state line_addr
  some (s', if use_stats then count_state sizes s' stats else stats)

-- a line of the joined must set: it is in both sets, at the greater age
unfoldable pub must_line : ℕ → Option ℕ → Option ℕ → Option AbsMemEntry
must_line addr (some a) (some b) = some (record { address = addr; age = if ltb b a then a else b })
must_line addr _ _ = none

-- a line of the joined may set: it is in one of the sets, at the smaller age
unfoldable pub may_line : ℕ → Option ℕ → Option ℕ → Option AbsMemEntry
may_line addr (some a) (some b) = some (record { address = addr; age = if ltb b a then b else a })
may_line addr (some a) none = some (record { address = addr; age = a })
may_line addr none (some b) = some (record { address = addr; age = b })
may_line addr none none = none

abbrev pub cons_some : Option AbsMemEntry → List AbsMemEntry → List AbsMemEntry
cons_some none l = l
cons_some (some e) l = e ∷ l

unfoldable pub joined_must : AddrAgeMap → AddrAgeMap → List ℕ → List AbsMemEntry
unfolding must_line
joined_must a b [] = []
joined_must a b (addr ∷ addrs) =
    cons_some (must_line addr (find addr a) (find addr b)) (joined_must a b addrs)

-- The assertion fails where an address is in neither set.
unfoldable pub joined_may : AddrAgeMap → AddrAgeMap → List ℕ → Option (List AbsMemEntry)
unfolding may_line
joined_may a b [] = some []
joined_may a b (addr ∷ addrs) = do
  e ← may_line addr (find addr a) (find addr b)
  l ← joined_may a b addrs
  some (e ∷ l)

unfoldable pub join_must : List AbsMemEntry → List AbsMemEntry → Option (List AbsMemEntry)
join_must a b = do
  map_a ← add_addr_and_age_to_map [] a
  map_b ← add_addr_and_age_to_map [] b
  some (sort_mem_set_by_age (joined_must map_a map_b (get_unique_mem_addrs_of_sets a b)))

unfoldable pub join_may : List AbsMemEntry → List AbsMemEntry → Option (List AbsMemEntry)
join_may a b = do
  map_a ← add_addr_and_age_to_map [] a
  map_b ← add_addr_and_age_to_map [] b
  l ← joined_may map_a map_b (get_unique_mem_addrs_of_sets a b)
  some (sort_mem_set_by_age l)

-- the join of two states
unfoldable pub join_two : AbsMemSet → AbsMemSet → Option AbsMemSet
join_two a b = do
  must' ← join_must a.must_set b.must_set
  may' ← join_may a.may_set b.may_set
  some (record { must_set = must'; may_set = may' })

abbrev pub Joined : Type 0
Joined = AbsMemSet × List AbsMemSet × MemoryUsageStats

count_if_two : Sizes → AbsMemSet → List AbsMemSet → MemoryUsageStats → MemoryUsageStats
count_if_two sizes s states stats = if length states == 2 then count_state sizes s stats else stats

-- `join`, on the vector from its back to its front. A vector of more than two states loses its last
-- one and is joined first, in place: every call sees the vector that is left, so each of them
-- counts a state. Returned are the joined state, the vector that the caller is left with, and the
-- counters.
unfoldable pub join_back : Sizes → List AbsMemSet → MemoryUsageStats → Option Joined
unfolding count_if_two
join_back sizes [] stats = none
join_back sizes (b ∷ []) stats = none
join_back sizes (b ∷ a ∷ []) stats = do
  s ← join_two a b
  some (s, b ∷ a ∷ [], count_if_two sizes s (b ∷ a ∷ []) stats)
join_back sizes (b ∷ c ∷ d ∷ states) stats = do
  (a, left, stats') ← join_back sizes (c ∷ d ∷ states) stats
  s ← join_two a b
  some (s, left, count_if_two sizes s left stats')

unfoldable pub join : Sizes → List AbsMemSet → MemoryUsageStats → Option Joined
join sizes states stats = join_back sizes (reverse states) stats
