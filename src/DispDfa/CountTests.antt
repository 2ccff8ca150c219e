-- ===== src/DispDfa/CountTests.antt =====
-- A run of categorizeMemAccesses on the small program, and its theorem there.
use isptap.Prelude.{
  ℕ, zero, suc, ◌<◌, ◌≡◌, ◌≢◌, refl, List, [], ◌∷◌, Option, some, ◌>>=◌, arith, inl,
}
use mathlib.Core.List.{Memᴰ}
use isptap.Dfa.Loop.{Fed}
use isptap.FifoCache.{in_content}
use isptap.FifoDisp.Sizes.{mem_size, fit}
use isptap.IcacheDfa.Costs.{vertices}
use isptap.MemStateGraph.{is_forward}
use isptap.Disp.{get_function_size, get_function_mem_size, block_round_up}
use isptap.LruCache.Concrete.{remove}
use isptap.LruDisp.Concrete.{lru_activate}
use isptap.DispDfa.{DispDfaState, calls, neither, handling, analyze_loop}
use isptap.DispDfa.Runs.{kind, next_context, next_content, Arrives, here, step}
use isptap.DispDfa.Categories.{
  DispCounts, count_activation, categorize_activation, categorize_return, categorize_vertex,
  categorize_vertices, categorize_mem_accesses,
}
use isptap.DispDfa.Counted.{nothing_yet, Small, Counts, tally}
use isptap.DispDfa.Tallies.{tally_call, tally_return, tally_calls, tally_returns}
use isptap.DispDfa.Categorized.{categorize_mem_accesses-bounds}
use isptap.DispDfa.Example.{
  sizes, params, addr, edge, edges, graph, blank, level, context, sane, turns, to_2, to_4,
}
use isptap.DispDfa.Tests.{program}

abbrev counts_of : Option DispDfaState → Option DispCounts
counts_of r = do d ← r; categorize_mem_accesses params sizes graph 0 d

-- The two calls miss and load two blocks each; the return to the root function is a hit.
counts_run :
    counts_of (analyze_loop params sizes graph 0 8 40 blank)
    ≡ some (record {
      call_counts = record { hit = 0; nc = 0; nc_load_bytes = 0; miss = 2; miss_load_bytes = 64 };
      return_counts = record { hit = 1; nc = 0; nc_load_bytes = 0; miss = 0; miss_load_bytes = 0 };
    })
unfolding program count_activation categorize_activation categorize_return categorize_vertex
    categorize_vertices categorize_mem_accesses
counts_run = refl

-- the functions that are loaded before the calls and the returns
abbrev content : ℕ → List ℕ
content zero = []
content (suc zero) = []
content (suc (suc zero)) = 100 ∷ []
content (suc (suc (suc zero))) = []
content (suc (suc (suc (suc zero)))) = 200 ∷ 100 ∷ []
content (suc (suc (suc (suc (suc v))))) = []

before_call : Arrives params graph 0 addr 2 (100 ∷ []) (100 ∷ [])
unfolding handling next_context next_content lru_activate fit remove mem_size get_function_mem_size
    get_function_size block_round_up is_forward
before_call =
    step (edge 1 2) (100 ∷ []) (100 ∷ [])
      (record { listed = Memᴰ.tail (Memᴰ.head refl); ahead = refl })
      (step (edge 0 1) [] [] (record { listed = Memᴰ.head refl; ahead = refl }) here)

before_return : Arrives params graph 0 addr 4 (200 ∷ 100 ∷ []) (200 ∷ 100 ∷ [])
unfolding handling next_context next_content lru_activate fit remove mem_size get_function_mem_size
    get_function_size block_round_up is_forward
before_return =
    step (edge 3 4) (200 ∷ 100 ∷ []) (200 ∷ 100 ∷ [])
      (record {
        listed = Memᴰ.tail (Memᴰ.tail (Memᴰ.tail (Memᴰ.tail (Memᴰ.head refl))));
        ahead = refl;
      })
      (step (edge 2 3) (100 ∷ []) (100 ∷ [])
        (record { listed = Memᴰ.tail (Memᴰ.tail (Memᴰ.tail (Memᴰ.head refl))); ahead = refl })
        before_call)

runs :
    (v : ℕ)
    → v < 9
    → v ≢ 8
    → kind params graph 0 v ≢ neither
    → Fed edges 0 v × Arrives params graph 0 addr v (content v) (context v)
unfolding handling
runs zero b n h = (inl refl, here)
runs (suc zero) b n h = absurd (h refl)
runs (suc (suc zero)) b n h = (to_2, before_call)
runs (suc (suc (suc zero))) b n h = absurd (h refl)
runs (suc (suc (suc (suc zero)))) b n h = (to_4, before_return)
runs (suc (suc (suc (suc (suc zero))))) b n h = absurd (h refl)
runs (suc (suc (suc (suc (suc (suc zero)))))) b n h = absurd (h refl)
runs (suc (suc (suc (suc (suc (suc (suc zero))))))) b n h = absurd (h refl)
runs (suc (suc (suc (suc (suc (suc (suc (suc zero)))))))) b n h = absurd (n refl)
runs (suc (suc (suc (suc (suc (suc (suc (suc (suc v))))))))) b n h = absurd (h refl)

tally_calls-Small : Small (tally_calls params graph 0 addr context content (vertices 9) nothing_yet)
unfolding tally_calls tally_call tally vertices in_content handling mem_size get_function_mem_size
    get_function_size block_round_up
tally_calls-Small = record { few = omega arith; short = omega arith }

tally_returns-Small :
    Small (tally_returns params graph 0 addr context content (vertices 9) nothing_yet)
unfolding tally_returns tally_return tally vertices in_content handling mem_size
    get_function_mem_size get_function_size block_round_up
tally_returns-Small = record { few = omega arith; short = omega arith }

no_call : kind params graph 0 8 ≢ calls
unfolding handling
no_call z = cc

categorize_mem_accesses-bounds_example :
    (d' : DispDfaState) × (k : DispCounts) × (analyze_loop params sizes graph 0 8 40 blank
      ≡ some d')
    × (categorize_mem_accesses params sizes graph 0 d' ≡ some k)
    × Counts k.call_counts
        (tally_calls params graph 0 addr context content (vertices 9) nothing_yet)
    × Counts k.return_counts
        (tally_returns params graph 0 addr context content (vertices 9) nothing_yet)
categorize_mem_accesses-bounds_example =
    categorize_mem_accesses-bounds params sizes graph 0 8 7 level addr context sane 40 blank
      (omega arith) turns (λ v. refl) (λ v. refl) no_call (omega arith) content runs
      tally_calls-Small tally_returns-Small
