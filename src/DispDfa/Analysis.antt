-- ===== src/DispDfa/Analysis.antt =====
-- The loop of `analyzeDISP`: it ends, every vertex but the super exit gets a state, and the states
-- describe the runs.
use isptap.Prelude.{
  ℕ, ◌-◌, ◌≤◌, ◌<◌, ◌≡◌, ◌≢◌, refl, ap, sym, ◌∙◌, Bool, true, false, List, [], ◌∷◌, none, some,
  arith, inl, inr, if◌then◌else◌, ltb, ℕ_discrete, dec_lt,
}
use mathlib.Core.List.{Memᴰ}
use mathlib.Core.Path.{subst}
use isptap.AbsSet.{Sizes}
use isptap.MemStateGraph.{Edge, in_edges, get_forward_in_edge_count}
use isptap.MemStateGraph.Edges.{Forward, count_forward-pos, count_forward-none}
use isptap.Dfa.Loop.{Fed, Processes}
use isptap.Disp.{DispParams}
use isptap.LruDisp.Access.{DescribesPad}
use isptap.DispDfa.{
  DispGraph, DispDfaState, join_and_set_initial_mem_state, set_initial_mem_state, process,
}
use isptap.DispDfa.Runs.{Arrives, here, step, Sane, Arrives-context}
use isptap.DispDfa.Contexts.{Consistent}
use isptap.DispDfa.Invariant.{Knows, Runs, entering, join-Runs, single-Runs, entry-Runs}
use isptap.DispDfa.{analyze_loop}
use isptap.Dfa.Push.{work, total}
use isptap.Dfa.Ends.{loop-Ends, Closed-known}
use isptap.DispDfa.HandOn.{Held, some_run, handed_on}

module _ (p : DispParams) (sizes : Sizes) (g : DispGraph) (super_entry super_exit depth : ℕ)
    (level addr : ℕ → ℕ) (context : ℕ → List ℕ)
    (sane : Sane p g super_entry super_exit depth level addr context) where
  -- The first part of a turn: the state of the vertex.
  state-Runs :
      (v : ℕ) (d : DispDfaState)
      (inv : Held p sizes g super_entry super_exit depth level addr context sane d)
      (ready : (e : Edge)
        → Forward g.msg.edges e
        → e.target ≡ v
        → d.mem_state_valid e.source ≡ true)
      → Fed g.msg.edges super_entry v
      → Runs p sizes g super_entry super_exit depth level addr context sane v d (
          if ltb 1 (get_forward_in_edge_count v g.msg.edges)
          then join_and_set_initial_mem_state p sizes g super_entry v d
          else set_initial_mem_state p sizes g super_entry v d)
  state-Runs v d inv ready fed = elim (ℕ_discrete v super_entry) [
    | yes q ↦
        let w : get_forward_in_edge_count v g.msg.edges ≡ 0 =
          subst (λ u. get_forward_in_edge_count u g.msg.edges ≡ 0) (sym q)
            (count_forward-none (in_edges super_entry g.msg.edges) sane.source_only) in
        let b : ltb 1 (get_forward_in_edge_count v g.msg.edges) ≡ false = ground arith in
        rw b (
          entry-Runs p sizes g super_entry super_exit depth level addr context sane v d inv ready q)
    | no n ↦
        let (e, f, t) : (e : Edge) × Forward g.msg.edges e × (e.target ≡ v) = elim fed [
          | inl q ↦ absurd (n q)
          | inr r ↦ r
        ] in
        let some_edge =
          count_forward-pos (in_edges v g.msg.edges) e
            (entering p sizes g super_entry super_exit depth level addr context sane v d inv ready e
              f t)
            f.ahead in
        elim (dec_lt 1 (get_forward_in_edge_count v g.msg.edges)) [
          | yes many ↦
              let b : ltb 1 (get_forward_in_edge_count v g.msg.edges) ≡ true = ground arith in
              rw b (
                join-Runs p sizes g super_entry super_exit depth level addr context sane v d inv
                  ready e f t n many)
          | no few ↦
              let b : ltb 1 (get_forward_in_edge_count v g.msg.edges) ≡ false = ground arith in
              rw b (
                single-Runs p sizes g super_entry super_exit depth level addr context sane v d inv
                  ready e f t n (omega arith))
        ]
  ]

  process-Processes :
      Processes g.msg.edges super_entry super_exit
        (λ (d : DispDfaState). d.mem_state_valid)
        (process p sizes g super_entry)
        (Held p sizes g super_entry super_exit depth level addr context sane)
  unfolding process
  process-Processes = record {
    runs = λ v d inv fed ready far.
        let (d', e, left) = state-Runs v d inv ready fed in
        let run =
          some_run p sizes g super_entry super_exit depth level addr context sane v d inv fed
            ready in
        let (d'', e', inv', valid) =
          handed_on p sizes g super_entry super_exit depth level addr context sane v d d' inv run
            (λ q. sane.inside v q far fed) left in
        (d'', rw e e', inv', valid);
  }

  Arrives-Fed :
      (v : ℕ) (c ctx : List ℕ)
      → Arrives p g super_entry addr v c ctx
      → Fed g.msg.edges super_entry v
  Arrives-Fed v c ctx here = inl refl
  Arrives-Fed v c ctx (step e c' ctx' f a) = inr (e, f, refl)

  pub analyze_disp-Known :
      (fuel : ℕ) (d : DispDfaState)
      → 0 < p.size
      → work g.msg.edges (depth - level super_entry) super_entry ≤ fuel
      → ((v : ℕ) → d.mem_state_valid v ≡ false)
      → ((v : ℕ) → d.ctx_map v ≡ none)
      → (d' : DispDfaState) × (analyze_loop p sizes g super_entry super_exit fuel d ≡ some d')
        × ((v : ℕ)
            → Fed g.msg.edges super_entry v
            → v ≢ super_exit
            → (d'.mem_state_valid v ≡ true)
              × Knows p sizes g super_entry super_exit depth level addr context sane d' v)
        × Consistent context d'
  unfolding analyze_loop total
  analyze_disp-Known fuel d filled enough fresh no_context =
      let b : ltb 0 p.size ≡ true = ground arith in
      let ends =
        loop-Ends g.msg.edges super_entry super_exit (λ (d : DispDfaState). d.mem_state_valid)
          (process p sizes g super_entry)
          (Held p sizes g super_entry super_exit depth level addr context sane) process-Processes
          sane.source_only depth level sane.levels fuel (super_entry ∷ []) d (omega (arith, enough))
          (record {
            consistent = λ u. inl (no_context u);
            known = λ u h. absurd (true_or_false h (fresh u));
            passed = λ e f h. absurd (true_or_false h (fresh e.source));
          })
          (inl refl, tt)
          (record {
            begun = inr (inl (Memᴰ.head refl));
            follows = λ e f h far. absurd (true_or_false h (fresh e.source));
          }) in
      let known =
        Closed-known g.msg.edges super_entry super_exit (λ (d : DispDfaState). d.mem_state_valid)
          (process p sizes g super_entry)
          (Held p sizes g super_entry super_exit depth level addr context sane) process-Processes
          sane.source_only depth level sane.levels ends.result ends.closed sane.through in
      (
        ends.result,
        rw b ends.returns,
        (λ v fed far. (known v fed far, ends.inv.known v (known v fed far))),
        ends.inv.consistent,
      )
    where
      true_or_false : {b : Bool} → b ≡ true → b ≡ false → ⊥
      true_or_false t f = cc

  -- The loop of the scratchpad analysis ends within the number of the walks along forward edges from
  -- the super entry, and fails no assertion. Every vertex but the super exit that the entry leads to
  -- has a state and its context then. The state of a vertex describes each scratchpad that a run along
  -- forward edges reaches it with, which loads the called function at each entry node and the calling
  -- one at each exit node, and the context is the stack of the functions that are active on the run.
  -- The conditions are those of `Sane`, a memory that is not empty, and no state and no context known
  -- before.
  pub analyze_disp-describes :
      (fuel : ℕ) (d : DispDfaState)
      → 0 < p.size
      → work g.msg.edges (depth - level super_entry) super_entry ≤ fuel
      → ((v : ℕ) → d.mem_state_valid v ≡ false)
      → ((v : ℕ) → d.ctx_map v ≡ none)
      → (d' : DispDfaState) × (analyze_loop p sizes g super_entry super_exit fuel d ≡ some d')
        × ((v : ℕ) → Fed g.msg.edges super_entry v → v ≢ super_exit → d'.mem_state_valid v ≡ true)
        × ((v : ℕ) (c ctx : List ℕ)
            → Arrives p g super_entry addr v c ctx
            → v ≢ super_exit
            → DescribesPad p c (d'.mem_state v) × (d'.ctx_map v ≡ some ctx))
  analyze_disp-describes fuel d filled enough fresh no_context =
      let (d', e, known, _) = analyze_disp-Known fuel d filled enough fresh no_context in
      (
        d',
        e,
        (λ v fed far. (known v fed far).0),
        λ v c ctx a far.
            let k = (known v (Arrives-Fed v c ctx a) far).1 in
            (
              k.describes c ctx a,
              k.has_context
                  ∙ ap some (
                      sym (
                        Arrives-context p g super_entry super_exit depth level addr context sane v c
                          ctx a)),
            ),
      )
