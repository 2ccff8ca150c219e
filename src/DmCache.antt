-- ===== src/DmCache.antt =====
-- src/memory/dm_cache_state_maintainer.cpp: the must and may analysis of a direct mapped cache. The
-- field `age` of an entry is its position, the index of its cache line.
use isptap.Prelude.{
  ℕ, ◌+◌, ◌*◌, ◌/◌, ◌%◌, ◌^◌, Bool, true, false, ◌&&◌, List, [], ◌∷◌, ◌++◌, Option, none, some,
  ◌==◌, if◌then◌else◌, ◌>>=◌, length,
}
use mathlib.Core.List.{reverse}
use isptap.MemUsage.{MemoryUsageStats}
use isptap.AbsSet.{
  AbsMemEntry, AbsMemSet, Sizes, is_in_set, sort_mem_set_by_position, get_unique_mem_addrs_of_sets,
  count_state,
}
pub mod Update
pub mod Join
pub mod JoinAll
mod Tests

-- what the maintainer reads of `cache_params_t`
pub record CacheParams : Type 0 where
  pub line_size_bit : ℕ
  pub line_no : ℕ

-- `get_block_addr(addr) % line_no`; the shift drops the offset in the line
unfoldable pub line_index : CacheParams → ℕ → ℕ
line_index p addr = (addr / 2 ^ p.line_size_bit) % p.line_no

-- the loop that erases the entries of one index: what is kept, and the evicted addresses
unfoldable pub erase_index : ℕ → List AbsMemEntry → List AbsMemEntry × List ℕ
erase_index index [] = ([], [])
erase_index index (e ∷ mem_set) =
    let (kept, evicted) = erase_index index mem_set in
    if e.age == index then (kept, e.address ∷ evicted) else (e ∷ kept, evicted)

unfoldable pub add_addr_to_mem_set :
    CacheParams → ℕ → List AbsMemEntry → Bool → List AbsMemEntry × List ℕ
add_addr_to_mem_set p addr mem_set evict =
    let tmp : AbsMemEntry = record { address = addr; age = line_index p addr } in
    let (kept, evicted) = erase_index (line_index p addr) mem_set in
    if evict
    then (sort_mem_set_by_position (kept ++ tmp ∷ []), evicted)
    else if is_in_set addr mem_set
    then (mem_set, [])
    else (sort_mem_set_by_position (mem_set ++ tmp ∷ []), [])

-- one set of an update by one line: both branches add the line and evict
unfoldable pub access_set : CacheParams → ℕ → List AbsMemEntry → List AbsMemEntry
access_set p addr mem_set =
    if is_in_set addr mem_set
    then (add_addr_to_mem_set p addr mem_set true).0
    else (add_addr_to_mem_set p addr mem_set true).0

unfoldable pub access_line : CacheParams → AbsMemSet → ℕ → AbsMemSet
access_line p s addr = record {
  must_set = access_set p addr s.must_set;
  may_set = access_set p addr s.may_set;
}

unfoldable pub access_lines : CacheParams → AbsMemSet → List ℕ → AbsMemSet
access_lines p s [] = s
access_lines p s (addr ∷ line_addrs) = access_lines p (access_line p s addr) line_addrs

-- `update` by a vector of lines
unfoldable pub update :
    CacheParams
    → Sizes
    → AbsMemSet
    → List ℕ
    → Bool
    → MemoryUsageStats
    → AbsMemSet × MemoryUsageStats
update p sizes state line_addrs use_stats stats =
    let s' = access_lines p state line_addrs in
    (s', if use_stats then count_state sizes s' stats else stats)

-- `update` by one line
unfoldable pub update_one :
    CacheParams → Sizes → AbsMemSet → ℕ → Bool → MemoryUsageStats → AbsMemSet × MemoryUsageStats
update_one p sizes state line_addr use_stats stats =
    let s' = access_line p state line_addr in
    (s', if use_stats then count_state sizes s' stats else stats)

-- the loop of the must join, from the set that is built so far
unfoldable pub joined_must :
    CacheParams → List AbsMemEntry → List AbsMemEntry → List ℕ → List AbsMemEntry → List AbsMemEntry
joined_must p a b [] new = new
joined_must p a b (addr ∷ addrs) new =
    joined_must p a b addrs (
      if is_in_set addr a && is_in_set addr b
      then (add_addr_to_mem_set p addr new false).0
      else new)

-- the loop of the may join
unfoldable pub joined_may : CacheParams → List ℕ → List AbsMemEntry → List AbsMemEntry
joined_may p [] new = new
joined_may p (addr ∷ addrs) new = joined_may p addrs (add_addr_to_mem_set p addr new false).0

-- the join of two states
unfoldable pub join_two : CacheParams → AbsMemSet → AbsMemSet → AbsMemSet
join_two p a b = record {
  must_set =
      sort_mem_set_by_position (
        joined_must p a.must_set b.must_set (get_unique_mem_addrs_of_sets a.must_set b.must_set)
          []);
  may_set =
      sort_mem_set_by_position (joined_may p (get_unique_mem_addrs_of_sets a.may_set b.may_set) []);
}

-- `join`, on the vector from its back to its front; the assertion wants at least two states. The
-- vector that the caller is left with is returned too. Each call counts a state.
unfoldable pub join_back :
    CacheParams
    → Sizes
    → List AbsMemSet
    → MemoryUsageStats
    → Option (AbsMemSet × List AbsMemSet × MemoryUsageStats)
join_back p sizes [] stats = none
join_back p sizes (b ∷ []) stats = none
join_back p sizes (b ∷ a ∷ []) stats =
    let s = join_two p a b in some (s, b ∷ a ∷ [], count_state sizes s stats)
join_back p sizes (b ∷ c ∷ d ∷ states) stats = do
  (a, left, stats') ← join_back p sizes (c ∷ d ∷ states) stats
  let s = join_two p a b
  some (s, left, count_state sizes s stats')

unfoldable pub join :
    CacheParams
    → Sizes
    → List AbsMemSet
    → MemoryUsageStats
    → Option (AbsMemSet × List AbsMemSet × MemoryUsageStats)
join p sizes states stats = join_back p sizes (reverse states) stats
