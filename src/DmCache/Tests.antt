-- ===== src/DmCache/Tests.antt =====
-- Runs of the analysis of a direct mapped cache, and its theorems at concrete states.
use isptap.Prelude.{
  ℕ, ◌+◌, ◌-◌, ◌%◌, ◌^◌, ◌≡◌, ◌≢◌, refl, true, false, List, [], ◌∷◌, some, none, arith, length,
  AnyOf, inr,
}
use isptap.MemUsage.{MemoryUsageStats, no_usage}
use isptap.AbsSet.{
  AbsMemEntry, AbsMemSet, Sizes, is_in_set, has_addr, sort_mem_set_by_age,
  get_unique_mem_addrs_of_sets, add_unique_mem_addrs_to_list, addrs_of_set,
}
use isptap.DmCache.{
  CacheParams, line_index, erase_index, add_addr_to_mem_set, access_set, access_line, access_lines,
  update, joined_must, joined_may, join_two, join,
}
use isptap.DmCache.Update.{
  Cache, Describes, load, loads, dm_update-Describes, dm_classification_sound,
}
use isptap.DmCache.Join.{join_two-Describes}
use isptap.DmCache.JoinAll.{dm_join-Describes}

program : Unit {0}
unfolding line_index erase_index add_addr_to_mem_set access_set access_line access_lines update
    joined_must joined_may join_two is_in_set has_addr sort_mem_set_by_age
    get_unique_mem_addrs_of_sets add_unique_mem_addrs_to_list addrs_of_set load loads
program = tt

abbrev sizes : Sizes
sizes = record { abs_mem_set = 56; abs_mem_entry = 8; entry_vector = 24 }

-- four lines of 16 bytes
abbrev params : CacheParams
params = record { line_size_bit = 4; line_no = 4 }

abbrev entry : ℕ → ℕ → AbsMemEntry
entry a i = record { address = a; age = i }

abbrev blank : AbsMemSet
blank = record { must_set = []; may_set = [] }

abbrev loaded : AbsMemSet
loaded = record { must_set = entry 16 1 ∷ entry 32 2 ∷ []; may_set = entry 16 1 ∷ entry 32 2 ∷ [] }

abbrev empty_cache : Cache
empty_cache = λ i. none

update_runs : update params sizes blank (32 ∷ 16 ∷ []) false no_usage ≡ (loaded, no_usage)
unfolding program
update_runs = refl

-- line 80 has the index of line 16
update_evicts : update params sizes loaded (80 ∷ []) false no_usage ≡ (
  record { must_set = entry 80 1 ∷ entry 32 2 ∷ []; may_set = entry 80 1 ∷ entry 32 2 ∷ [] },
  no_usage,
)
unfolding program
update_evicts = refl

join-Runs :
    join_two params loaded
      (record { must_set = entry 80 1 ∷ entry 32 2 ∷ []; may_set = entry 80 1 ∷ entry 32 2 ∷ [] })
    ≡ record { must_set = entry 32 2 ∷ []; may_set = entry 16 1 ∷ entry 80 1 ∷ entry 32 2 ∷ [] }
unfolding program
join-Runs = refl

blank-Describes : Describes params empty_cache blank
blank-Describes = record { must_ok = tt; may_ok = λ a h. cc; may_placed = tt }

dm_update-Describes_example :
    Describes params
      (loads params (32 ∷ 16 ∷ []) empty_cache)
      (update params sizes blank (32 ∷ 16 ∷ []) true no_usage).0
dm_update-Describes_example =
    dm_update-Describes params sizes (32 ∷ 16 ∷ []) true no_usage empty_cache blank blank-Describes

loaded-Describes : Describes params (loads params (32 ∷ 16 ∷ []) empty_cache) loaded
unfolding program
loaded-Describes =
    dm_update-Describes params sizes (32 ∷ 16 ∷ []) true no_usage empty_cache blank blank-Describes

dm_classification_sound_example :
    (is_in_set 16 loaded.must_set ≡ true
      → loads params (32 ∷ 16 ∷ []) empty_cache (line_index params 16) ≡ some 16)
    × (is_in_set 16 loaded.may_set ≡ false
        → loads params (32 ∷ 16 ∷ []) empty_cache (line_index params 16) ≢ some 16)
dm_classification_sound_example =
    dm_classification_sound params 16 (loads params (32 ∷ 16 ∷ []) empty_cache) loaded
      loaded-Describes

join_two-Describes_example :
    Describes params (loads params (32 ∷ 16 ∷ []) empty_cache) (join_two params blank loaded)
unfolding program
join_two-Describes_example =
    join_two-Describes params blank loaded (loads params (32 ∷ 16 ∷ []) empty_cache) (λ e. cc)
      (inr loaded-Describes)

dm_join-Describes_example :
    (s : AbsMemSet) × (left : List AbsMemSet) × (stats' : MemoryUsageStats) × (join params sizes
        (blank ∷ loaded ∷ loaded ∷ [])
        no_usage
      ≡ some (s, left, stats'))
    × (length left ≡ 2)
    × (stats'.no_memory_states ≡ (0 + (length (blank ∷ loaded ∷ loaded ∷ []) - 1)) % 2 ^ 64)
    × ((c : Cache)
        → c (line_index params 0) ≢ some 0
        → AnyOf (Describes params c) (blank ∷ loaded ∷ loaded ∷ [])
        → Describes params c s)
dm_join-Describes_example =
    dm_join-Describes params sizes (blank ∷ loaded ∷ loaded ∷ []) no_usage (omega arith)
