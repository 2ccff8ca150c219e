-- ===== src/MemUsage.antt =====
-- src/util/mem_usage_stats.cpp: the counters that every state maintainer keeps of the abstract states
-- that it has built. The counters are uint64_t.
use isptap.Prelude.{ℕ, add64}

pub record MemoryUsageStats : Type 0 where
  pub no_memory_states : ℕ
  pub no_representation_states : ℕ
  pub used_mem_size : ℕ
  pub used_mem_references : ℕ

-- MemoryUsageStats::MemoryUsageStats
abbrev pub no_usage : MemoryUsageStats
no_usage = record {
  no_memory_states = 0;
  no_representation_states = 0;
  used_mem_size = 0;
  used_mem_references = 0;
}

unfoldable pub allocated_memory_state : ℕ → ℕ → ℕ → MemoryUsageStats → MemoryUsageStats
allocated_memory_state number size references s = record {
  no_memory_states = add64 s.no_memory_states 1;
  no_representation_states = add64 s.no_representation_states number;
  used_mem_size = add64 s.used_mem_size size;
  used_mem_references = add64 s.used_mem_references references;
}
