-- ===== src/AbsSet.antt =====
-- src/memory/mem_state_maintainer.cpp and the entries of src/graph/graph_structure.h: abstract memory sets
-- and what the state maintainers do with them. The field `age` shares its place with `position` in
-- the program's union, so a direct mapped cache reads it as the index of a line.
use isptap.Prelude.{
  ℕ, ◌+◌, ◌*◌, Bool, true, false, ◌&&◌, List, [], ◌∷◌, ◌++◌, Option, none, some, ltb, ◌==◌,
  if◌then◌else◌, ◌>>=◌, ◌>>◌, check, length,
}
use isptap.MemUsage.{MemoryUsageStats, allocated_memory_state}
pub mod Sort
pub mod Unique
pub mod Addresses

pub record AbsMemEntry : Type 0 where
  pub address : ℕ
  pub age : ℕ

pub record AbsMemSet : Type 0 where
  pub must_set : List AbsMemEntry
  pub may_set : List AbsMemEntry

-- `sizeof(abs_mem_set_t)`, `sizeof(abs_mem_entry_t)` and `sizeof(vector<abs_mem_entry_t>)`: the
-- compiler's choice.
pub record Sizes : Type 0 where
  pub abs_mem_set : ℕ
  pub abs_mem_entry : ℕ
  pub entry_vector : ℕ

pub data AnalysisType : Type 0 where
  must may : AnalysisType

unfoldable pub is_in_set : ℕ → List AbsMemEntry → Bool
is_in_set addr_to_find [] = false
is_in_set addr_to_find (e ∷ mem_set) =
    if addr_to_find == e.address then true else is_in_set addr_to_find mem_set

-- the comparison of the sort: by age, then by address
unfoldable pub sort_by_age : AbsMemEntry → AbsMemEntry → Bool
sort_by_age a b = if a.age == b.age then ltb a.address b.address else ltb a.age b.age

pub insert_by_age : AbsMemEntry → List AbsMemEntry → List AbsMemEntry
insert_by_age e [] = e ∷ []
insert_by_age e (x ∷ l) = if sort_by_age x e then x ∷ insert_by_age e l else e ∷ x ∷ l

-- `std::sort` with `sort_by_age`, an insertion sort
unfoldable pub sort_mem_set_by_age : List AbsMemEntry → List AbsMemEntry
unfolding insert_by_age sort_by_age
sort_mem_set_by_age [] = []
sort_mem_set_by_age (e ∷ l) = insert_by_age e (sort_mem_set_by_age l)

abbrev pub sort_mem_set_by_position : List AbsMemEntry → List AbsMemEntry
sort_mem_set_by_position = sort_mem_set_by_age

-- is the address in a vector of addresses?
unfoldable pub has_addr : ℕ → List ℕ → Bool
has_addr a [] = false
has_addr a (x ∷ xs) = if a == x then true else has_addr a xs

-- Address 0 marks a blank element and is left out.
unfoldable pub add_unique_mem_addrs_to_list : List ℕ → List AbsMemEntry → List ℕ
add_unique_mem_addrs_to_list addr_set [] = addr_set
add_unique_mem_addrs_to_list addr_set (e ∷ mem_set) =
    add_unique_mem_addrs_to_list
      (if e.address == 0
        then addr_set
        else if has_addr e.address addr_set
        then addr_set
        else addr_set ++ e.address ∷ [])
      mem_set

-- the first loop of `getUniqueMemAddrsOfSets`
unfoldable pub addrs_of_set : List AbsMemEntry → List ℕ
addrs_of_set [] = []
addrs_of_set (e ∷ set_a) =
    if e.address == 0 then addrs_of_set set_a else e.address ∷ addrs_of_set set_a

unfoldable pub get_unique_mem_addrs_of_sets : List AbsMemEntry → List AbsMemEntry → List ℕ
get_unique_mem_addrs_of_sets set_a set_b = add_unique_mem_addrs_to_list (addrs_of_set set_a) set_b

-- `map<uint32_t, uint32_t>`, by its keys
abbrev pub AddrAgeMap : Type 0
AddrAgeMap = List (ℕ × ℕ)

unfoldable pub find : ℕ → AddrAgeMap → Option ℕ
find a [] = none
find a ((k, v) ∷ m) = if a == k then some v else find a m

is_new : Option ℕ → Bool
is_new none = true
is_new (some v) = false

-- The assertion fails where an address is inserted twice.
unfoldable pub add_addr_and_age_to_map : AddrAgeMap → List AbsMemEntry → Option AddrAgeMap
unfolding is_new find
add_addr_and_age_to_map m [] = some m
add_addr_and_age_to_map m (e ∷ mem_set) =
    let inserted = add_addr_and_age_to_map ((e.address, e.age) ∷ m) mem_set in
    let skipped = add_addr_and_age_to_map m mem_set in
    if e.address == 0 then skipped else check (is_new (find e.address m)) >> inserted

-- the size and the number of references of an abstract state, as the maintainers count them
unfoldable pub count_state : Sizes → AbsMemSet → MemoryUsageStats → MemoryUsageStats
unfolding allocated_memory_state
count_state sizes s stats =
    let entries = length s.may_set + length s.must_set in
    allocated_memory_state 2 (sizes.abs_mem_set + entries * sizes.abs_mem_entry) entries stats

unfoldable pub set_blank_mem_state : Sizes → MemoryUsageStats → AbsMemSet × MemoryUsageStats
unfolding allocated_memory_state
set_blank_mem_state sizes stats = (
  record { must_set = []; may_set = [] },
  allocated_memory_state 2 (2 * sizes.entry_vector) 0 stats,
)
