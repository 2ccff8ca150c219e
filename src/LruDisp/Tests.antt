-- ===== src/LruDisp/Tests.antt =====
-- Runs of the LRU scratchpad analysis, and its theorems at concrete states.
use isptap.Prelude.{ℕ, ◌+◌, ◌%◌, ◌^◌, ◌≡◌, refl, true, false, List, [], ◌∷◌, some, arith, AnyOf}
use isptap.MemUsage.{MemoryUsageStats, no_usage, allocated_memory_state}
use isptap.AbsSet.{
  AbsMemEntry, AbsMemSet, Sizes, is_in_set, count_state, sort_mem_set_by_age, sort_by_age,
}
use isptap.AbsSet
use isptap.AbsSet.Unique.{covers}
use isptap.FifoCache.{in_content}
use isptap.LruCache
use isptap.LruCache.Concrete.{remove}
use isptap.Disp.{DispParams, get_function_size, get_function_mem_size, block_round_up}
use isptap.FifoDisp.Policy.{Sound}
use isptap.FifoDisp.Sizes.{mem_size, total, fit}
use isptap.LruDisp.{
  check_function_intersection, intersectional_age, get_intersectional_age, shifted_age,
  shift_entries, move_addr_to_front, age_and_evict, add_addr_to_mem_set, access_set, update,
  join_back, join,
}
use isptap.LruDisp.Concrete.{lru_activate, before}
use isptap.LruDisp.Update.{update-DescribesPad, scratchpad_classification_sound}
use isptap.LruDisp.Access.{DescribesPad}
use isptap.LruDisp.Join.{WellFormed}
use isptap.LruDisp.JoinAll.{join-DescribesPad}

program : Unit {0}
unfolding allocated_memory_state is_in_set count_state sort_mem_set_by_age sort_by_age covers
    in_content remove get_function_size get_function_mem_size block_round_up mem_size total fit
    check_function_intersection intersectional_age get_intersectional_age shifted_age shift_entries
    move_addr_to_front age_and_evict add_addr_to_mem_set access_set update join_back join
    lru_activate before LruCache.take_out LruCache.join_two LruCache.join_must LruCache.join_may
    AbsSet.get_unique_mem_addrs_of_sets AbsSet.add_addr_and_age_to_map AbsSet.find
    LruCache.joined_must LruCache.joined_may
program = tt

abbrev sizes : Sizes
sizes = record { abs_mem_set = 48; abs_mem_entry = 8; entry_vector = 24 }

-- functions of 32, 16 and 48 bytes in a memory of 64
abbrev params : DispParams
params = record {
  size = 64;
  block_size = 16;
  mapping_table_size = 8;
  ignore_outsized_functions = true;
  functions = (4, 20) ∷ (8, 16) ∷ (12, 40) ∷ [];
}

abbrev entry : ℕ → ℕ → AbsMemEntry
entry a k = record { address = a; age = k }

abbrev two : AbsMemSet
two = record { must_set = entry 8 0 ∷ entry 4 16 ∷ []; may_set = entry 8 0 ∷ entry 4 16 ∷ [] }

abbrev one : AbsMemSet
one = record { must_set = entry 8 0 ∷ []; may_set = entry 8 0 ∷ [] }

-- the function of 48 bytes evicts the older one; the older one moves to the front
update_runs :
    (update params sizes two 12 no_usage
      ≡ some (
        record { must_set = entry 12 0 ∷ entry 8 48 ∷ []; may_set = entry 12 0 ∷ entry 8 48 ∷ [] },
        count_state sizes two no_usage,
      ))
    × (update params sizes two 4 no_usage
        ≡ some (
          record { must_set = entry 4 0 ∷ entry 8 32 ∷ []; may_set = entry 4 0 ∷ entry 8 32 ∷ [] },
          count_state sizes two no_usage,
        ))
unfolding program
update_runs = (refl, refl)

loads_12 : Sound params 12
unfolding program
loads_12 = record {
  known = refl;
  table = omega arith;
  small = omega arith;
  outsized = λ h. absurd (omega arith);
}

two-DescribesPad : DescribesPad params (8 ∷ 4 ∷ []) two
unfolding program
two-DescribesPad = record {
  fits = omega arith;
  must_ok = record {
    bounds = (
      ((refl, omega arith), (omega arith, refl)),
      (((refl, omega arith), (omega arith, refl)), tt),
    );
    unique = (refl, (refl, tt));
  };
  may_ok = record {
    covered = λ g h. ground arith;
    lies = ((omega arith, refl), ((omega arith, refl), tt));
    unique = (refl, (refl, tt));
  };
}

update-DescribesPad_example :
    (s' : AbsMemSet) × (update params sizes two 12 no_usage
      ≡ some (s', count_state sizes s' no_usage))
    × DescribesPad params (lru_activate params 12 (8 ∷ 4 ∷ [])) s'
update-DescribesPad_example =
    update-DescribesPad params sizes 12 no_usage (8 ∷ 4 ∷ []) two loads_12 two-DescribesPad

scratchpad_classification_sound_example :
    (is_in_set 8 two.must_set ≡ true → in_content 8 (8 ∷ 4 ∷ []) ≡ true)
    × (is_in_set 8 two.may_set ≡ false → in_content 8 (8 ∷ 4 ∷ []) ≡ false)
scratchpad_classification_sound_example =
    scratchpad_classification_sound params 8 (8 ∷ 4 ∷ []) two two-DescribesPad

two-WellFormed : WellFormed params two
unfolding program
two-WellFormed = record {
  must_lies = ((omega arith, refl), ((omega arith, refl), tt));
  must_unique = (refl, (refl, tt));
  may_lies = ((omega arith, refl), ((omega arith, refl), tt));
  may_unique = (refl, (refl, tt));
}

one-WellFormed : WellFormed params one
unfolding program
one-WellFormed = record {
  must_lies = ((omega arith, refl), tt);
  must_unique = (refl, tt);
  may_lies = ((omega arith, refl), tt);
  may_unique = (refl, tt);
}

join-DescribesPad_example :
    (s : AbsMemSet) × (left : List AbsMemSet) × (stats' : MemoryUsageStats) × (join sizes
        (one ∷ two ∷ two ∷ [])
        no_usage
      ≡ some (s, left, stats'))
    × WellFormed params s
    × (stats'.no_memory_states ≡ (no_usage.no_memory_states + 1) % 2 ^ 64)
    × ((c : List ℕ)
        → in_content 0 c ≡ false
        → AnyOf (DescribesPad params c) (one ∷ two ∷ two ∷ [])
        → DescribesPad params c s)
join-DescribesPad_example =
    join-DescribesPad params sizes (one ∷ two ∷ two ∷ []) no_usage
      (one-WellFormed, (two-WellFormed, (two-WellFormed, tt))) (omega arith)
