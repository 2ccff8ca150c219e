-- ===== src/IcacheDfa/Tests.antt =====
-- Runs of the cache analysis on the small graph, and its theorems there.
use isptap.Prelude.{
  ℕ, ◌+◌, ◌*◌, ◌≤◌, ◌≡◌, ◌≢◌, refl, true, List, [], ◌∷◌, Option, none, some, map, ◌>>=◌, arith,
  length, All,
}
use mathlib.Core.List.{Memᴰ}
use isptap.MemUsage.{no_usage}
use isptap.LruCache.Update.{Describes}
use isptap.MemStateGraph.{basic_block, Edge}
use isptap.Dfa.Loop.{Fed}
use isptap.IcacheDfa.{DfaState, get_cache_lines_of_cfg_node, analyze_loop, lines_of}
use isptap.IcacheDfa.Costs.{
  get_cache_miss_cost, analyze_cache, Penalties, categorize_cache_accesses, Categories,
}
use isptap.DmCache.Update as DmUpdate
use isptap.IcacheDfa.Maintainers.{
  dm_cache, dm_maintainer, dm_maintainer-SoundMaintainer, lru_maintainer, lru_cache,
  lru_maintainer-SoundMaintainer,
}
use isptap.IcacheDfa.Analysis.{analyze_loop-describes}
use isptap.IcacheDfa.Example.{
  program, sizes, params, block, node, edges, graph, blank, no_penalties, level, sane, turns,
  countable, blocks-Laid,
}
use isptap.IcacheDfa.Lines.{line_of, InBlock, Ascending, get_cache_lines_exact}
use isptap.IcacheDfa.Sound.{count_misses, SoundMaintainer}
use isptap.IcacheDfa.Arrives.{Arrives}
use isptap.IcacheDfa.Penalty.{SameEdges, Keeps}
use isptap.IcacheDfa.Bound.{
  with_edges, run_misses, run_penalty, analyze_cache-bounds_misses, analyze_cache-bounds_runs,
}

lines_run : get_cache_lines_of_cfg_node params (block 60 24) ≡ some (48 ∷ 64 ∷ 80 ∷ [])
unfolding program
lines_run = refl

abbrev penalties_of : {A : Type 0} → Option (A × Penalties) → List ℕ
penalties_of none = []
penalties_of (some (d, r)) = map (λ (e : Edge). e.dynamic_mem_penalty) r.edges

-- With a miss latency of 9 a miss costs 10. The line 64 is missed once, the lines 128 and 160 once
-- each, and the second access to 64 is a hit.
analyze_runs :
    penalties_of (analyze_cache (lru_maintainer 2 sizes) params graph 0 5 9 20 blank no_penalties)
    ≡ 0 ∷ 10 ∷ 10 ∷ 10 ∷ 10 ∷ 0 ∷ 0 ∷ []
unfolding program
analyze_runs = refl

categories_of : Option (DfaState × Penalties) → Option Categories
categories_of none = none
categories_of (some (d, r)) = do
  (k, stats) ← categorize_cache_accesses (lru_maintainer 2 sizes) params graph 0 d no_usage
  some k

categories_run :
    categories_of (analyze_cache (lru_maintainer 2 sizes) params graph 0 5 9 20 blank no_penalties)
    ≡ some
        (record { cache_hit = 1; cache_miss = 3; cache_nc = 0; unique_lines = 64 ∷ 128 ∷ 160 ∷ [] })
unfolding program categories_of
categories_run = refl

get_cache_lines_exact_example :
    (l : List ℕ) × (get_cache_lines_of_cfg_node params (node 2) ≡ some l)
    × ((a : ℕ) → InBlock (node 2) a → Memᴰ (line_of params a) l)
    × All (λ x. (a : ℕ) × InBlock (node 2) a × (x ≡ line_of params a)) l
    × Ascending l
get_cache_lines_exact_example = get_cache_lines_exact params (node 2) refl refl (blocks-Laid 2 refl)

lru_maintainer-SoundMaintainer_example :
    SoundMaintainer (lru_cache 2) (lru_maintainer 2 sizes) (Describes 2)
lru_maintainer-SoundMaintainer_example =
    lru_maintainer-SoundMaintainer 2 sizes (omega arith) (omega arith)

dm_maintainer-SoundMaintainer_example :
    SoundMaintainer
      (dm_cache (record { line_size_bit = 4; line_no = 2 }))
      (dm_maintainer (record { line_size_bit = 4; line_no = 2 }) sizes)
      (DmUpdate.Describes (record { line_size_bit = 4; line_no = 2 }))
dm_maintainer-SoundMaintainer_example =
    dm_maintainer-SoundMaintainer (record { line_size_bit = 4; line_no = 2 }) sizes

sound : SoundMaintainer (lru_cache 2) (lru_maintainer 2 sizes) (Describes 2)
sound = lru_maintainer-SoundMaintainer 2 sizes (omega arith) (omega arith)

analyze_loop-describes_example :
    (d' : DfaState) × (analyze_loop (lru_maintainer 2 sizes) params graph 0 5 20 blank ≡ some d')
    × ((v : ℕ) → Fed edges 0 v → v ≢ 5 → d'.mem_state_valid v ≡ true)
    × ((v : ℕ) (c : List ℕ)
        → Arrives (lru_cache 2) (lru_maintainer 2 sizes) params graph 0 v c
        → v ≢ 5
        → Describes 2 c (d'.mem_state v))
analyze_loop-describes_example =
    analyze_loop-describes (lru_cache 2) (lru_maintainer 2 sizes) (Describes 2) sound params graph 0
      5 4 level sane 20 blank (omega arith) turns (λ v. refl)

analyze_cache-bounds_misses_example :
    (d' : DfaState) × (r' : Penalties) × (analyze_cache
        (lru_maintainer 2 sizes)
        params
        graph
        0
        5
        9
        20
        blank
        no_penalties
      ≡ some (d', r'))
    × Keeps edges r'.edges
    × ((v : ℕ) (c : List ℕ) (l : List ℕ)
        → (node v).node_type ≡ basic_block
        → Arrives (lru_cache 2) (lru_maintainer 2 sizes) params graph 0 v c
        → lines_of (lru_maintainer 2 sizes) params graph 0 v ≡ some l
        → (r'.cache_hits v + r'.cache_misses v + r'.cache_ncs v ≡ length l)
          × (r'.cache_misses v ≤ count_misses (lru_cache 2) l c)
          × (count_misses (lru_cache 2) l c ≤ r'.cache_misses v + r'.cache_ncs v)
          × ((e : Edge)
              → Memᴰ e r'.edges
              → e.source ≡ v
              → get_cache_miss_cost 9 * count_misses (lru_cache 2) l c ≤ e.dynamic_mem_penalty))
analyze_cache-bounds_misses_example =
    analyze_cache-bounds_misses (lru_cache 2) (lru_maintainer 2 sizes) (Describes 2) sound params
      graph 0 5 4 level sane 9 20 countable blank no_penalties (omega arith) turns (λ v. refl)

analyze_cache-bounds_runs_example :
    (d' : DfaState) × (r' : Penalties) × (analyze_cache
        (lru_maintainer 2 sizes)
        params
        graph
        0
        5
        9
        20
        blank
        no_penalties
      ≡ some (d', r'))
    × SameEdges edges r'.edges
    × ((v : ℕ) (c : List ℕ)
          (a : Arrives
            (lru_cache 2)
            (lru_maintainer 2 sizes)
            params
            (with_edges graph r'.edges)
            0
            v
            c)
        → get_cache_miss_cost 9
            * run_misses
                (lru_cache 2)
                (lru_maintainer 2 sizes)
                params
                (with_edges graph r'.edges)
                0
                a
          ≤ run_penalty
              (lru_cache 2)
              (lru_maintainer 2 sizes)
              params
              (with_edges graph r'.edges)
              0
              a)
analyze_cache-bounds_runs_example =
    analyze_cache-bounds_runs (lru_cache 2) (lru_maintainer 2 sizes) (Describes 2) sound params
      graph 0 5 4 level sane 9 20 countable blank no_penalties (omega arith) turns (λ v. refl) refl
