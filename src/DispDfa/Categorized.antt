-- ===== src/DispDfa/Categorized.antt =====
-- categorizeMemAccesses after the analysis: the counters of the calls and of the returns against runs
-- that reach them.
use isptap.Prelude.{
  ℕ, ◌-◌, ◌≤◌, ◌<◌, ◌≡◌, ◌≢◌, refl, ap, sym, ◌∙◌, false, List, [], ◌∷◌, none, some, arith, All,
  length, inl, inr, ◌⊎◌, ℕ_discrete,
}
use mathlib.Core.List.{Memᴰ}
use mathlib.Core.Path.{subst}
use isptap.AbsSet.{Sizes}
use isptap.ContextStack as ContextStack
use isptap.Dfa.Push.{work}
use isptap.Dfa.Loop.{Fed}
use isptap.IcacheDfa.Costs.{vertices}
use isptap.IcacheDfa.Bound.{vertices-mem}
use isptap.Disp.{DispParams}
use isptap.DispDfa.{
  DispGraph, DispDfaState, Handling, calls, returns, neither, get_context_for_node, or_empty,
  analyze_loop,
}
use isptap.DispDfa.Runs.{kind, Arrives, Sane, Good, context-Good}
use isptap.DispDfa.States as States
use isptap.DispDfa.Invariant.{Knows}
use isptap.DispDfa.Analysis.{analyze_disp-Known}
use isptap.DispDfa.Turns.{calls_any, returns_any}
use isptap.DispDfa.Bound.{tail_empty}
use isptap.DispDfa.Categories.{
  DispCounts, no_counts, categorize_return, categorize_vertex, categorize_vertices,
  categorize_mem_accesses,
}
use isptap.DispDfa.Counted.{
  Tally, nothing_yet, Small, Counts, UpTo-Small, tally, categorize_activation-Counts,
}
use isptap.DispDfa.Tallies.{
  tally_call, tally_return, tally_calls, tally_returns, tally_calls-UpTo, tally_returns-UpTo,
}

module _ (p : DispParams) (g : DispGraph) (super_entry : ℕ) (addr : ℕ → ℕ)
    (context content : ℕ → List ℕ) (sizes : Sizes) (super_exit depth : ℕ) (level : ℕ → ℕ)
    (sane : Sane p g super_entry super_exit depth level addr context) (d : DispDfaState)
    (known : (v : ℕ)
      → Fed g.msg.edges super_entry v
      → v ≢ super_exit
      → Knows p sizes g super_entry super_exit depth level addr context sane d v)
    (at_exit : (d.ctx_map super_exit ≡ none) ⊎ (d.ctx_map super_exit ≡ some (context super_exit)))
    (exit_kind : kind p g super_entry super_exit ≢ calls)
    (root_only : length (context super_exit) ≤ 1) where
  -- what the run that is chosen for a vertex is to be
  abbrev pub Chosen : ℕ → Type 0
  Chosen v =
      v ≢ super_exit
      → kind p g super_entry v ≢ neither
      → Fed g.msg.edges super_entry v × Arrives p g super_entry addr v (content v) (context v)

  -- A turn of the loop at the vertex `v`.
  abbrev pub Counted : ℕ → DispCounts → Tally → Tally → Type 0
  Counted v k t u =
      (k' : DispCounts) × (categorize_vertex p sizes g super_entry (kind p g super_entry v) v d k
        ≡ some k')
      × Counts k'.call_counts (tally_call p (kind p g super_entry v) (addr v) (content v) t)
      × Counts k'.return_counts (tally_return p (kind p g super_entry v) (context v) (content v) u)

  call-Counted :
      (v : ℕ) (k : DispCounts) (t u : Tally)
      → Chosen v
      → kind p g super_entry v ≡ calls
      → Counts k.call_counts t
      → Counts k.return_counts u
      → Small (tally_call p (kind p g super_entry v) (addr v) (content v) t)
      → Counted v k t u
  unfolding categorize_vertex tally_call tally_return
  call-Counted v k t u chosen q a b small =
      let inner : v ≢ super_exit =
        λ z. exit_kind (subst (λ k. kind p g super_entry k ≡ calls) z q) in
      let (fed, run) = chosen inner (λ z. calls_any (sym q ∙ z)) in
      let (_, loads, _) = sane.called v q in
      let small' : Small (tally p (addr v) (content v) t) =
        subst (λ h. Small (tally_call p h (addr v) (content v) t)) q small in
      let (k', e, c) =
        categorize_activation-Counts p (addr v) (content v) (d.mem_state v) k.call_counts t
          loads.known ((known v fed inner).describes (content v) (context v) run) a small' in
      rw q (
        record k { call_counts = k' },
        rw (States.address_eq p sizes g super_entry super_exit depth level addr context sane v q, e)
            refl,
        c,
        b,
      )

  same-Counted :
      (v : ℕ) (k : DispCounts) (t u : Tally)
      → categorize_vertex p sizes g super_entry (kind p g super_entry v) v d k ≡ some k
      → tally_call p (kind p g super_entry v) (addr v) (content v) t ≡ t
      → tally_return p (kind p g super_entry v) (context v) (content v) u ≡ u
      → Counts k.call_counts t
      → Counts k.return_counts u
      → Counted v k t u
  same-Counted v k t u e c r a b =
      (k, e, subst (Counts k.call_counts) (sym c) a, subst (Counts k.return_counts) (sym r) b)

  -- A return to no caller is not counted.
  no_caller-Counted :
      (v : ℕ) (k : DispCounts) (t u : Tally)
      → kind p g super_entry v ≡ returns
      → (ContextStack.pop (get_context_for_node v d)).1 ≡ []
      → length (context v) ≤ 1
      → Counts k.call_counts t
      → Counts k.return_counts u
      → Counted v k t u
  unfolding categorize_vertex categorize_return tally_call tally_return
  no_caller-Counted v k t u q empty short a b =
      same-Counted v k t u (rw (q, empty) refl) (rw q refl) (rw q (short_lem (context v) short)) a b
    where
      short_lem : (l : List ℕ) → length l ≤ 1 → tally_return p returns l (content v) u ≡ u
      short_lem [] h = refl
      short_lem (x ∷ []) h = refl
      short_lem (x ∷ y ∷ l) h = absurd (omega arith)

  caller-Counted :
      (v : ℕ) (k : DispCounts) (t u : Tally)
      → Chosen v
      → kind p g super_entry v ≡ returns
      → v ≢ super_exit
      → (l : List ℕ) → context v ≡ l
      → Counts k.call_counts t
      → Counts k.return_counts u
      → Small (tally_return p (kind p g super_entry v) (context v) (content v) u)
      → Counted v k t u
  unfolding categorize_vertex categorize_return tally_call tally_return get_context_for_node
      or_empty ContextStack.pop
  caller-Counted v k t u chosen q inner [] own a b small =
      let (fed, run) = chosen inner (λ z. returns_any (sym q ∙ z)) in
      no_caller-Counted v k t u q (rw ((known v fed inner).has_context, own) refl)
        (omega (arith, ap length own)) a b
  caller-Counted v k t u chosen q inner (x ∷ []) own a b small =
      let (fed, run) = chosen inner (λ z. returns_any (sym q ∙ z)) in
      no_caller-Counted v k t u q (rw ((known v fed inner).has_context, own) refl)
        (omega (arith, ap length own)) a b
  caller-Counted v k t u chosen q inner (x ∷ f ∷ ctx) own a b small =
      let (fed, run) = chosen inner (λ z. returns_any (sym q ∙ z)) in
      let at_v = known v fed inner in
      let good = subst (All (Good p g super_entry super_exit depth level addr context sane)) own (
        context-Good p g super_entry super_exit depth level addr context sane v (content v)
          (context v) run) in
      let small' : Small (tally p f (content v) u) =
        subst (λ l. Small (tally_return p returns l (content v) u)) own
          (subst (λ h. Small (tally_return p h (context v) (content v) u)) q small) in
      let (k', e, c) =
        categorize_activation-Counts p f (content v) (d.mem_state v) k.return_counts u
          good.1.0.0.known (at_v.describes (content v) (context v) run) b small' in
      (
        record k { return_counts = k' },
        rw (q, at_v.has_context, own) (rw e refl),
        rw q a,
        rw (q, own) c,
      )

  vertex-Counted :
      (v : ℕ) (k : DispCounts) (t u : Tally)
      → Chosen v
      → Counts k.call_counts t
      → Counts k.return_counts u
      → Small (tally_call p (kind p g super_entry v) (addr v) (content v) t)
      → Small (tally_return p (kind p g super_entry v) (context v) (content v) u)
      → Counted v k t u
  unfolding categorize_vertex tally_call tally_return get_context_for_node or_empty ContextStack.pop
  vertex-Counted v k t u chosen a b small small' = go (kind p g super_entry v) refl
    where
      at_end : v ≡ super_exit → (ContextStack.pop (get_context_for_node v d)).1 ≡ []
      at_end z = elim at_exit [
        | inl h ↦ rw (z, h) refl
        | inr h ↦ rw (z, h) (tail_empty (context super_exit) root_only)
      ]

      go : (h : Handling) → kind p g super_entry v ≡ h → Counted v k t u
      go calls q = call-Counted v k t u chosen q a b small
      go returns q = elim (ℕ_discrete v super_exit) [
        | no n ↦ caller-Counted v k t u chosen q n (context v) refl a b small'
        | yes z ↦
            no_caller-Counted v k t u q (at_end z)
              (subst (λ w. length (context w) ≤ 1) (sym z) root_only) a b
      ]
      go neither q = same-Counted v k t u (rw q refl) (rw q refl) (rw q refl) a b

  pub categorize_vertices-Counts :
      (vs : List ℕ) (k : DispCounts) (t u : Tally)
      → ((v : ℕ) → Memᴰ v vs → Chosen v)
      → Counts k.call_counts t
      → Counts k.return_counts u
      → Small (tally_calls p g super_entry addr context content vs t)
      → Small (tally_returns p g super_entry addr context content vs u)
      → (k' : DispCounts) × (categorize_vertices p sizes g super_entry vs d k ≡ some k')
        × Counts k'.call_counts (tally_calls p g super_entry addr context content vs t)
        × Counts k'.return_counts (tally_returns p g super_entry addr context content vs u)
  unfolding categorize_vertices tally_calls tally_returns
  categorize_vertices-Counts [] k t u chosen a b small small' = (k, refl, a, b)
  categorize_vertices-Counts (v ∷ vs) k t u chosen a b small small' =
      let t' = tally_call p (kind p g super_entry v) (addr v) (content v) t in
      let u' = tally_return p (kind p g super_entry v) (context v) (content v) u in
      let (k', e, a', b') =
        vertex-Counted v k t u (chosen v (Memᴰ.head refl)) a b
          (UpTo-Small t' (tally_calls p g super_entry addr context content vs t')
            (tally_calls-UpTo p g super_entry addr context content vs t') small)
          (UpTo-Small u' (tally_returns p g super_entry addr context content vs u')
            (tally_returns-UpTo p g super_entry addr context content vs u') small') in
      let (k'', e', a'', b'') =
        categorize_vertices-Counts vs k' t' u' (λ w m. chosen w (Memᴰ.tail m)) a' b' small small' in
      (k'', rw e e', a'', b'')

none_yet-Counts : Counts no_counts nothing_yet
none_yet-Counts = record {
  each = omega arith;
  least = omega arith;
  most = omega arith;
  least_bytes = omega arith;
  most_bytes = omega arith;
  below = omega arith;
}

-- After the analysis, which returns, `categorizeMemAccesses` counts the calls and the returns of the
-- graph. Choose a run along forward edges to each call and each return but the one of the super exit,
-- which reaches it with the scratchpad `content`. Then the counters of the calls, and those of the
-- returns to a caller, add up to their number; the counted misses are no more than the misses on the
-- runs, which are no more than the counted misses and the unclassified ones together; and the same
-- holds of the bytes that they load. The conditions are those of `Sane`, a memory that is not empty,
-- no state and no context known before, a super exit that is no entry node and whose context is at
-- most the root function, and numbers that fit into 32 bits.
pub categorize_mem_accesses-bounds :
    (p : DispParams) (sizes : Sizes) (g : DispGraph) (super_entry super_exit depth : ℕ)
    (level addr : ℕ → ℕ) (context : ℕ → List ℕ)
    (sane : Sane p g super_entry super_exit depth level addr context) (fuel : ℕ) (d : DispDfaState)
    → 0 < p.size
    → work g.msg.edges (depth - level super_entry) super_entry ≤ fuel
    → ((v : ℕ) → d.mem_state_valid v ≡ false)
    → ((v : ℕ) → d.ctx_map v ≡ none)
    → kind p g super_entry super_exit ≢ calls
    → length (context super_exit) ≤ 1
    → (content : ℕ → List ℕ)
    → ((v : ℕ)
        → v < g.msg.no_vertices
        → v ≢ super_exit
        → kind p g super_entry v ≢ neither
        → Fed g.msg.edges super_entry v × Arrives p g super_entry addr v (content v) (context v))
    → Small
        (tally_calls p g super_entry addr context content (vertices g.msg.no_vertices) nothing_yet)
    → Small (
        tally_returns p g super_entry addr context content (vertices g.msg.no_vertices) nothing_yet)
    → (d' : DispDfaState) × (k : DispCounts) × (analyze_loop p sizes g super_entry super_exit fuel d
        ≡ some d')
      × (categorize_mem_accesses p sizes g super_entry d' ≡ some k)
      × Counts k.call_counts (
          tally_calls p g super_entry addr context content (vertices g.msg.no_vertices) nothing_yet)
      × Counts k.return_counts (
          tally_returns p g super_entry addr context content
            (vertices g.msg.no_vertices)
            nothing_yet)
unfolding categorize_mem_accesses
categorize_mem_accesses-bounds p sizes g super_entry super_exit depth level addr context sane fuel d
      filled enough fresh no_context exit_kind root_only content runs small small' =
    let (d', e, known, at_exit) =
      analyze_disp-Known p sizes g super_entry super_exit depth level addr context sane fuel d
        filled enough fresh no_context in
    let (k, e', a, b) =
      categorize_vertices-Counts p g super_entry addr context content sizes super_exit depth level
        sane d' (λ v f n. (known v f n).1) (at_exit super_exit) exit_kind root_only
        (vertices g.msg.no_vertices) (record { call_counts = no_counts; return_counts = no_counts })
        nothing_yet nothing_yet (λ v m. runs v (vertices-mem g.msg.no_vertices v m)) none_yet-Counts
        none_yet-Counts small small' in
    (d', k, e, e', a, b)
