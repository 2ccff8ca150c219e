-- ===== src/DispDfa/Example.antt =====
-- A small program for the runs of the scratchpad analysis: the root function 100 calls the function
-- 200 or does not. The scratchpad has four blocks of 16 bytes, and each function takes two of them.
use isptap.Prelude.{
  ℕ, zero, suc, ◌≤◌, ◌<◌, ◌≡◌, ◌≢◌, refl, true, false, List, [], ◌∷◌, none, arith, ◌⊎◌, inl, inr,
  length, Bool-cases, ◌==◌,
}
use mathlib.Core.List.{Memᴰ}
use isptap.MemUsage.{no_usage}
use isptap.AbsSet.{Sizes}
use isptap.MemStateGraph.{
  NodeType, basic_block, entry, exit, flow_join_node, forward_step, Edge, CfgNode, is_forward,
  in_edges, out_edges, count_forward,
}
use isptap.MemStateGraph.Edges.{Forward, of_Forward, of_listed}
use isptap.Dfa.Push.{work, total_ahead}
use isptap.Dfa.Loop.{Fed}
use isptap.Disp.{DispParams, get_function_size, get_function_mem_size, block_round_up}
use isptap.FifoDisp.Sizes.{mem_size}
use isptap.FifoDisp.Policy.{Sound}
use isptap.DispDfa.{DispGraph, DispDfaState, calls, returns, neither, handling}
use isptap.DispDfa.Runs.{kind, next_context, Sane}
use isptap.DispDfa.Costs.{Timing}
use isptap.DispDfa.Penalty.{load_cycles, Faster}
use isptap.DispDfa.Paid.{Priced}

abbrev pub sizes : Sizes
sizes = record { abs_mem_set = 48; abs_mem_entry = 8; entry_vector = 24 }

abbrev pub params : DispParams
params = record {
  size = 64;
  block_size = 16;
  mapping_table_size = 4;
  ignore_outsized_functions = false;
  functions = (100, 20) ∷ (200, 32) ∷ [];
}

abbrev pub timing : Timing
timing = record {
  call_latency = 1;
  return_latency = 1;
  hit_cycles = 3;
  miss_cycles = 5;
  miss_latency = 9;
  fetch_mem_independent = true;
}

abbrev plain : NodeType → CfgNode
plain k = record { node_type = k; start_addr = 0; bb_size = 0 }

abbrev pub node : ℕ → CfgNode
node zero = plain entry
node (suc zero) = plain basic_block
node (suc (suc zero)) = plain entry
node (suc (suc (suc zero))) = plain basic_block
node (suc (suc (suc (suc zero)))) = plain exit
node (suc (suc (suc (suc (suc zero))))) = plain basic_block
node (suc (suc (suc (suc (suc (suc zero)))))) = plain basic_block
node (suc (suc (suc (suc (suc (suc (suc zero))))))) = plain basic_block
node (suc (suc (suc (suc (suc (suc (suc (suc zero)))))))) = plain exit
node (suc (suc (suc (suc (suc (suc (suc (suc (suc v))))))))) = plain flow_join_node

abbrev out_addrs : ℕ → List ℕ
out_addrs zero = 100 ∷ []
out_addrs (suc zero) = []
out_addrs (suc (suc zero)) = 200 ∷ []
out_addrs (suc (suc (suc v))) = []

abbrev pub addr : ℕ → ℕ
addr zero = 100
addr (suc zero) = 0
addr (suc (suc zero)) = 200
addr (suc (suc (suc v))) = 0

abbrev pub edge : ℕ → ℕ → Edge
edge s t = record { source = s; target = t; edge_type = forward_step; dynamic_mem_penalty = 0 }

abbrev pub edges : List Edge
edges =
    edge 0 1
    ∷ edge 1 2
    ∷ edge 1 5
    ∷ edge 2 3
    ∷ edge 3 4
    ∷ edge 4 7
    ∷ edge 5 6
    ∷ edge 7 6
    ∷ edge 6 8
    ∷ []

abbrev pub graph : DispGraph
graph = record {
  msg = record { no_vertices = 9; edges = edges; cfg_node = node };
  out_addrs = out_addrs;
}

abbrev pub blank : DispDfaState
blank = record {
  mem_state = λ v. record { must_set = []; may_set = [] };
  mem_state_valid = λ v. false;
  ctx_map = λ v. none;
  stats = no_usage;
}

abbrev pub level : ℕ → ℕ
level zero = 0
level (suc zero) = 1
level (suc (suc zero)) = 2
level (suc (suc (suc zero))) = 3
level (suc (suc (suc (suc zero)))) = 4
level (suc (suc (suc (suc (suc zero))))) = 2
level (suc (suc (suc (suc (suc (suc zero)))))) = 6
level (suc (suc (suc (suc (suc (suc (suc zero))))))) = 5
level (suc (suc (suc (suc (suc (suc (suc (suc zero)))))))) = 7
level (suc (suc (suc (suc (suc (suc (suc (suc (suc v))))))))) = 0

abbrev pub context : ℕ → List ℕ
context zero = []
context (suc zero) = 100 ∷ []
context (suc (suc zero)) = 100 ∷ []
context (suc (suc (suc zero))) = 200 ∷ 100 ∷ []
context (suc (suc (suc (suc zero)))) = 200 ∷ 100 ∷ []
context (suc (suc (suc (suc (suc zero))))) = 100 ∷ []
context (suc (suc (suc (suc (suc (suc zero)))))) = 100 ∷ []
context (suc (suc (suc (suc (suc (suc (suc zero))))))) = 100 ∷ []
context (suc (suc (suc (suc (suc (suc (suc (suc zero)))))))) = 100 ∷ []
context (suc (suc (suc (suc (suc (suc (suc (suc (suc v))))))))) = []

to_1 : Fed edges 0 1
unfolding is_forward
to_1 = inr (edge 0 1, record { listed = Memᴰ.head refl; ahead = refl }, refl)

pub to_2 : Fed edges 0 2
unfolding is_forward
to_2 = inr (edge 1 2, record { listed = Memᴰ.tail (Memᴰ.head refl); ahead = refl }, refl)

to_3 : Fed edges 0 3
unfolding is_forward
to_3 = inr (
  edge 2 3,
  record { listed = Memᴰ.tail (Memᴰ.tail (Memᴰ.tail (Memᴰ.head refl))); ahead = refl },
  refl,
)

pub to_4 : Fed edges 0 4
unfolding is_forward
to_4 = inr (
  edge 3 4,
  record { listed = Memᴰ.tail (Memᴰ.tail (Memᴰ.tail (Memᴰ.tail (Memᴰ.head refl)))); ahead = refl },
  refl,
)

to_5 : Fed edges 0 5
unfolding is_forward
to_5 =
    inr (edge 1 5, record { listed = Memᴰ.tail (Memᴰ.tail (Memᴰ.head refl)); ahead = refl }, refl)

to_6 : Fed edges 0 6
unfolding is_forward
to_6 = inr (
  edge 5 6,
  record {
    listed = Memᴰ.tail (Memᴰ.tail (Memᴰ.tail (Memᴰ.tail (Memᴰ.tail (Memᴰ.tail (Memᴰ.head refl))))));
    ahead = refl;
  },
  refl,
)

to_7 : Fed edges 0 7
unfolding is_forward
to_7 = inr (
  edge 4 7,
  record {
    listed = Memᴰ.tail (Memᴰ.tail (Memᴰ.tail (Memᴰ.tail (Memᴰ.tail (Memᴰ.head refl)))));
    ahead = refl;
  },
  refl,
)

to_8 : Fed edges 0 8
unfolding is_forward
to_8 = inr (
  edge 6 8,
  record {
    listed = Memᴰ.tail (
        Memᴰ.tail
          (Memᴰ.tail (Memᴰ.tail (Memᴰ.tail (Memᴰ.tail (Memᴰ.tail (Memᴰ.tail (Memᴰ.head refl))))))));
    ahead = refl;
  },
  refl,
)

-- what an edge of the graph satisfies
abbrev Fits : Edge → Type 0
Fits e = (level e.source < level e.target) × (level e.target ≤ 7)

edges-Fits : (e : Edge) → Forward edges e → Fits e
unfolding is_forward
edges-Fits = of_Forward Fits edges (
  (λ t. (omega arith, omega arith)),
  (
    (λ t. (omega arith, omega arith)),
    (
      (λ t. (omega arith, omega arith)),
      (
        (λ t. (omega arith, omega arith)),
        (
          (λ t. (omega arith, omega arith)),
          (
            (λ t. (omega arith, omega arith)),
            (
              (λ t. (omega arith, omega arith)),
              ((λ t. (omega arith, omega arith)), ((λ t. (omega arith, omega arith)), tt)),
            ),
          ),
        ),
      ),
    ),
  ),
)

edges_through : (e : Edge) → Forward edges e → Fed edges 0 e.source × (e.source ≢ 8)
unfolding is_forward
edges_through =
    of_Forward (λ e. Fed edges 0 e.source × (e.source ≢ 8)) edges
      (
        (λ t. (inl refl, λ q. omega arith)),
        (
          (λ t. (to_1, λ q. omega arith)),
          (
            (λ t. (to_1, λ q. omega arith)),
            (
              (λ t. (to_2, λ q. omega arith)),
              (
                (λ t. (to_3, λ q. omega arith)),
                (
                  (λ t. (to_4, λ q. omega arith)),
                  (
                    (λ t. (to_5, λ q. omega arith)),
                    ((λ t. (to_7, λ q. omega arith)), ((λ t. (to_6, λ q. omega arith)), tt)),
                  ),
                ),
              ),
            ),
          ),
        ),
      )

edges_follow :
    (e : Edge)
    → Forward edges e
    → context e.target
      ≡ next_context (kind params graph 0 e.source) (addr e.source) (context e.source)
unfolding is_forward handling next_context
edges_follow =
    of_Forward
      (λ e.
        context e.target
        ≡ next_context (kind params graph 0 e.source) (addr e.source) (context e.source))
      edges
      (
        (λ t. refl),
        (
          (λ t. refl),
          (
            (λ t. refl),
            (
              (λ t. refl),
              ((λ t. refl), ((λ t. refl), ((λ t. refl), ((λ t. refl), ((λ t. refl), tt))))),
            ),
          ),
        ),
      )

edges_join :
    (e : Edge)
    → Forward edges e
    → 1 < count_forward (in_edges e.target edges)
    → kind params graph 0 e.source ≡ neither
unfolding is_forward handling in_edges count_forward
edges_join =
    of_Forward
      (λ e. 1 < count_forward (in_edges e.target edges) → kind params graph 0 e.source ≡ neither)
      edges
      (
        (λ t h. absurd (omega arith)),
        (
          (λ t h. refl),
          (
            (λ t h. refl),
            (
              (λ t h. absurd (omega arith)),
              (
                (λ t h. refl),
                (
                  (λ t h. absurd (omega arith)),
                  ((λ t h. refl), ((λ t h. refl), ((λ t h. refl), tt))),
                ),
              ),
            ),
          ),
        ),
      )

edges_apart :
    (e : Edge)
    → Memᴰ e edges
    → kind params graph 0 e.source ≡ calls
    → kind params graph 0 e.target ≢ returns
unfolding handling
edges_apart =
    of_listed (λ e. kind params graph 0 e.source ≡ calls → kind params graph 0 e.target ≢ returns)
      edges
      (
        (λ h k. cc),
        (
          (λ h k. cc),
          (
            (λ h k. cc),
            (
              (λ h k. cc),
              ((λ h k. cc), ((λ h k. cc), ((λ h k. cc), ((λ h k. cc), ((λ h k. cc), tt))))),
            ),
          ),
        ),
      )

loads : (f : ℕ) → (f ≡ 100) ⊎ (f ≡ 200) → Sound params f
unfolding get_function_size get_function_mem_size block_round_up mem_size
loads f (inl q) = rw q (record {
  known = refl;
  table = omega arith;
  small = omega arith;
  outsized = λ h. absurd (omega arith);
})
loads f (inr q) = rw q (record {
  known = refl;
  table = omega arith;
  small = omega arith;
  outsized = λ h. absurd (omega arith);
})

called :
    (v : ℕ)
    → kind params graph 0 v ≡ calls
    → (out_addrs v ≡ addr v ∷ []) × Sound params (addr v) × (addr v ≢ 0)
unfolding handling
called zero h = (refl, loads 100 (inl refl), λ q. absurd (omega arith))
called (suc zero) h = cc
called (suc (suc zero)) h = (refl, loads 200 (inr refl), λ q. absurd (omega arith))
called (suc (suc (suc zero))) h = cc
called (suc (suc (suc (suc zero)))) h = cc
called (suc (suc (suc (suc (suc zero))))) h = cc
called (suc (suc (suc (suc (suc (suc zero)))))) h = cc
called (suc (suc (suc (suc (suc (suc (suc zero))))))) h = cc
called (suc (suc (suc (suc (suc (suc (suc (suc zero)))))))) h = cc
called (suc (suc (suc (suc (suc (suc (suc (suc (suc v))))))))) h = cc

inside : (v : ℕ) → kind params graph 0 v ≡ returns → v ≢ 8 → Fed edges 0 v → context v ≢ []
unfolding handling
inside zero h n f = cc
inside (suc zero) h n f = cc
inside (suc (suc zero)) h n f = cc
inside (suc (suc (suc zero))) h n f = cc
inside (suc (suc (suc (suc zero)))) h n f = λ q. cc
inside (suc (suc (suc (suc (suc zero))))) h n f = cc
inside (suc (suc (suc (suc (suc (suc zero)))))) h n f = cc
inside (suc (suc (suc (suc (suc (suc (suc zero))))))) h n f = cc
inside (suc (suc (suc (suc (suc (suc (suc (suc zero)))))))) h n f = absurd (n refl)
inside (suc (suc (suc (suc (suc (suc (suc (suc (suc v))))))))) h n f = cc

pub sane : Sane params graph 0 8 7 level addr context
unfolding in_edges
sane = record {
  source_only = refl;
  levels = record { climbs = λ e f. (edges-Fits e f).0; bounded = λ e f. (edges-Fits e f).1 };
  through = edges_through;
  called = called;
  root = refl;
  follows = edges_follow;
  inside = inside;
  joins = edges_join;
}

pub turns : work edges 7 0 ≤ 40
unfolding work total_ahead is_forward out_edges
turns = omega arith

reached : (v : ℕ) → kind params graph 0 v ≢ neither → (v ≡ 8) ⊎ Fed edges 0 v
unfolding handling
reached zero h = inr (inl refl)
reached (suc zero) h = inr to_1
reached (suc (suc zero)) h = inr to_2
reached (suc (suc (suc zero))) h = inr to_3
reached (suc (suc (suc (suc zero)))) h = inr to_4
reached (suc (suc (suc (suc (suc zero))))) h = inr to_5
reached (suc (suc (suc (suc (suc (suc zero)))))) h = inr to_6
reached (suc (suc (suc (suc (suc (suc (suc zero))))))) h = inr to_7
reached (suc (suc (suc (suc (suc (suc (suc (suc zero)))))))) h = inl refl
reached (suc (suc (suc (suc (suc (suc (suc (suc (suc v))))))))) h = absurd (h refl)

one_out : (v : ℕ) → kind params graph 0 v ≡ calls → length (out_edges v edges) ≡ 1
unfolding handling out_edges
one_out zero h = refl
one_out (suc zero) h = cc
one_out (suc (suc zero)) h = refl
one_out (suc (suc (suc zero))) h = cc
one_out (suc (suc (suc (suc zero)))) h = cc
one_out (suc (suc (suc (suc (suc zero))))) h = cc
one_out (suc (suc (suc (suc (suc (suc zero)))))) h = cc
one_out (suc (suc (suc (suc (suc (suc (suc zero))))))) h = cc
one_out (suc (suc (suc (suc (suc (suc (suc (suc zero)))))))) h = cc
one_out (suc (suc (suc (suc (suc (suc (suc (suc (suc v))))))))) h = cc

one_in : (v : ℕ) → kind params graph 0 v ≡ returns → length (in_edges v edges) ≡ 1
unfolding handling in_edges
one_in zero h = cc
one_in (suc zero) h = cc
one_in (suc (suc zero)) h = cc
one_in (suc (suc (suc zero))) h = cc
one_in (suc (suc (suc (suc zero)))) h = refl
one_in (suc (suc (suc (suc (suc zero))))) h = cc
one_in (suc (suc (suc (suc (suc (suc zero)))))) h = cc
one_in (suc (suc (suc (suc (suc (suc (suc zero))))))) h = cc
one_in (suc (suc (suc (suc (suc (suc (suc (suc zero)))))))) h = refl
one_in (suc (suc (suc (suc (suc (suc (suc (suc (suc v))))))))) h = cc

faster : (f : ℕ) → Faster params timing f
unfolding load_cycles mem_size get_function_mem_size get_function_size block_round_up
faster f = record {
  cycles = omega arith;
  call_small = omega arith;
  return_small = omega arith;
  miss_small = omega arith;
  small = elim (Bool-cases (100 == f)) [
    | inl b ↦ rw b (omega arith)
    | inr b ↦ elim (Bool-cases (200 == f)) [
      | inl c ↦ rw (b, c) (omega arith)
      | inr c ↦ rw (b, c) (omega arith)
    ]
  ];
}

pub priced : Priced params sizes timing graph 0 8 7 level addr context sane
unfolding handling
priced = record {
  reached = reached;
  exit_kind = λ h. cc;
  root_only = omega arith;
  one_out = one_out;
  one_in = one_in;
  apart = edges_apart;
  faster = faster;
}
