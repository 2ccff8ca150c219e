-- ===== src/LruCache/Tests.antt =====
-- Runs of the LRU analysis, and its theorems at concrete states.
use isptap.Prelude.{
  ℕ, ◌+◌, ◌-◌, ◌%◌, ◌^◌, ◌≡◌, refl, sym, ◌∙◌, true, false, List, [], ◌∷◌, some, if◌then◌else◌,
  arith, length, AnyOf, ◌⊎◌,
}
use mathlib.Core.Path.{subst}
use isptap.MemUsage.{MemoryUsageStats, no_usage}
use isptap.AbsSet.{
  AbsMemEntry, AbsMemSet, Sizes, is_in_set, has_addr, count_state, set_blank_mem_state,
  sort_mem_set_by_age, add_addr_and_age_to_map, get_unique_mem_addrs_of_sets,
  add_unique_mem_addrs_to_list, addrs_of_set, find,
}
use isptap.LruCache.{
  take_out, age_entries, age_and_evict, move_addr_to_front, add_addr_to_mem_set, access_set,
  access_line, access_lines, update, update_one, joined_must, joined_may, join_must, join_may,
  join_two, join_back, join,
}
use isptap.LruCache.Concrete.{age, access, accesses}
use isptap.LruCache.Update.{
  Describes, update-Describes, update_one-eq-update, classification_sound, blank-Describes,
}
use isptap.LruCache.Join.{WellFormed, join_two-Describes, join-Describes}

program : Unit {0}
unfolding take_out age_entries age_and_evict move_addr_to_front add_addr_to_mem_set access_set
    access_line access_lines update update_one joined_must joined_may join_must join_may join_two
    join_back join is_in_set has_addr count_state set_blank_mem_state sort_mem_set_by_age
    add_addr_and_age_to_map get_unique_mem_addrs_of_sets add_unique_mem_addrs_to_list addrs_of_set
    find age accesses access
program = tt

abbrev sizes : Sizes
sizes = record { abs_mem_set = 56; abs_mem_entry = 8; entry_vector = 24 }

abbrev entry : ℕ → ℕ → AbsMemEntry
entry a k = record { address = a; age = k }

-- the state after the lines 16 and 32 are loaded into an empty cache
abbrev loaded : AbsMemSet
loaded = record { must_set = entry 16 1 ∷ entry 32 0 ∷ []; may_set = entry 16 1 ∷ entry 32 0 ∷ [] }

-- the state after the line 32 is loaded into an empty cache
abbrev short : AbsMemSet
short = record { must_set = entry 32 0 ∷ []; may_set = entry 32 0 ∷ [] }

abbrev blank : AbsMemSet
blank = record { must_set = []; may_set = [] }

update_runs : update 2 sizes blank (16 ∷ 32 ∷ []) false no_usage ≡ some (loaded, no_usage)
unfolding program
update_runs = refl

-- a third line evicts the oldest
update_evicts :
    update 2 sizes loaded (48 ∷ []) false no_usage
    ≡ some (
      record { must_set = entry 32 1 ∷ entry 48 0 ∷ []; may_set = entry 32 1 ∷ entry 48 0 ∷ [] },
      no_usage,
    )
unfolding program
update_evicts = refl

join-Runs :
    join_two loaded short
    ≡ some (record { must_set = entry 32 0 ∷ []; may_set = entry 32 0 ∷ entry 16 1 ∷ [] })
unfolding program
join-Runs = refl

update-Describes_example :
    (s' : AbsMemSet) × (update 2 sizes
        (set_blank_mem_state sizes no_usage).0
        (16 ∷ 32 ∷ [])
        true
        no_usage
      ≡ some (s', if true then count_state sizes s' no_usage else no_usage))
    × Describes 2 (accesses 2 (16 ∷ 32 ∷ []) []) s'
update-Describes_example =
    update-Describes 2 (omega arith) (omega arith) sizes (16 ∷ 32 ∷ []) true no_usage [] _
      (blank-Describes 2 sizes no_usage)

update_one-eq-update_example :
    update_one 2 sizes loaded 48 true no_usage ≡ update 2 sizes loaded (48 ∷ []) true no_usage
update_one-eq-update_example = update_one-eq-update 2 sizes loaded 48 true no_usage

loaded-Describes : Describes 2 (32 ∷ 16 ∷ []) loaded
unfolding program
loaded-Describes =
    let (s, e, d) =
      update-Describes 2 (omega arith) (omega arith) sizes (16 ∷ 32 ∷ []) false no_usage [] blank
        (blank-Describes 2 sizes no_usage) in
    let q : s ≡ loaded = cc (sym e ∙ update_runs) in subst (Describes 2 (32 ∷ 16 ∷ [])) q d

loaded-WellFormed : WellFormed 2 loaded
unfolding program
loaded-WellFormed = ((refl, (refl, tt)), (omega arith, (omega arith, tt)), (refl, (refl, tt)))

short-WellFormed : WellFormed 2 short
unfolding program
short-WellFormed = ((refl, tt), (omega arith, tt), (refl, tt))

classification_sound_example :
    (is_in_set 16 loaded.must_set ≡ true → has_addr 16 (32 ∷ 16 ∷ []) ≡ true)
    × (is_in_set 16 loaded.may_set ≡ false → has_addr 16 (32 ∷ 16 ∷ []) ≡ false)
classification_sound_example = classification_sound 2 16 (32 ∷ 16 ∷ []) loaded loaded-Describes

join_two-Describes_example :
    (s : AbsMemSet) × (join_two loaded short ≡ some s)
    × WellFormed 2 s
    × ((c : List ℕ) → age 2 0 c ≡ 2 → Describes 2 c loaded ⊎ Describes 2 c short → Describes 2 c s)
unfolding program
join_two-Describes_example = join_two-Describes 2 loaded short loaded-WellFormed short-WellFormed

-- Three states are joined, and two are counted.
join-Describes_example :
    (s : AbsMemSet) × (left : List AbsMemSet) × (stats' : MemoryUsageStats) × (join sizes
        (blank ∷ loaded ∷ short ∷ [])
        no_usage
      ≡ some (s, left, stats'))
    × WellFormed 2 s
    × (length left ≡ 2)
    × (stats'.no_memory_states ≡ (0 + (length (blank ∷ loaded ∷ short ∷ []) - 1)) % 2 ^ 64)
    × ((c : List ℕ)
        → age 2 0 c ≡ 2
        → AnyOf (Describes 2 c) (blank ∷ loaded ∷ short ∷ [])
        → Describes 2 c s)
unfolding program
join-Describes_example =
    join-Describes 2 sizes (blank ∷ loaded ∷ short ∷ []) no_usage
      ((tt, tt, tt), (loaded-WellFormed, (short-WellFormed, tt))) (omega arith)
