-- ===== src/DispDfa/HandOn.antt =====
-- What a turn of `analyzeDISP` hands on to the successors of a vertex.
use isptap.Prelude.{
  ℕ, ◌≡◌, ◌≢◌, refl, ap, sym, ◌∙◌, Bool, true, List, [], some, arith, inl, inr, if◌then◌else◌,
  ◌>>=◌, ◌==◌, ℕ_discrete,
}
use mathlib.Core.List.{Memᴰ}
use mathlib.Core.Path.{subst}
use isptap.AbsSet.{AbsMemSet, Sizes}
use isptap.MemStateGraph.{Edge, is_forward, out_edges}
use isptap.MemStateGraph.Edges.{Forward, out_edges-mem, mem-out_edges}
use isptap.Dfa.Loop.{Fed}
use isptap.Disp.{DispParams}
use isptap.LruDisp.Access.{DescribesPad}
use isptap.DispDfa.{DispGraph, DispDfaState, returns, add_contexts, update_context_for_node}
use isptap.DispDfa.Runs.{next_context, next_content, kind, Arrives, here, step, Sane}
use isptap.DispDfa.States.{update_context-follows}
use isptap.DispDfa.Contexts.{add_contexts-Adds}
use isptap.DispDfa.Invariant.{Inv, Leaves}

module _ (p : DispParams) (sizes : Sizes) (g : DispGraph) (super_entry super_exit depth : ℕ)
    (level addr : ℕ → ℕ) (context : ℕ → List ℕ)
    (sane : Sane p g super_entry super_exit depth level addr context) where
  -- the names of Invariant, for this graph
  abbrev pub Held : DispDfaState → Type 0
  Held = Inv p sizes g super_entry super_exit depth level addr context sane

  abbrev pub Left : ℕ → DispDfaState → DispDfaState → Type 0
  Left = Leaves p sizes g super_entry super_exit depth level addr context sane

  pub some_run :
      (v : ℕ) (d : DispDfaState)
      → Held d
      → Fed g.msg.edges super_entry v
      → ((e : Edge) → Forward g.msg.edges e → e.target ≡ v → d.mem_state_valid e.source ≡ true)
      → (c : List ℕ) × (ctx : List ℕ) × Arrives p g super_entry addr v c ctx
  some_run v d inv (inl q) ready =
      ([], [], subst (λ u. Arrives p g super_entry addr u [] []) (sym q) here)
  some_run v d inv (inr (e, f, t)) ready =
      let (c, ctx, a) = (inv.known e.source (ready e f t)).reached in
      let c' = next_content p (kind p g super_entry e.source) (addr e.source) ctx c in
      let ctx' = next_context (kind p g super_entry e.source) (addr e.source) ctx in
      (c', ctx', subst (λ u. Arrives p g super_entry addr u c' ctx') t (step e c ctx f a))

  -- The contexts are handed on, and the invariant holds again.
  pub handed_on :
      (v : ℕ) (d d' : DispDfaState)
      → Held d
      → (c : List ℕ) × (ctx : List ℕ) × Arrives p g super_entry addr v c ctx
      → (kind p g super_entry v ≡ returns → context v ≢ [])
      → Left v d d'
      → (d'' : DispDfaState) × ((do
        ctx ← update_context_for_node p sizes g super_entry v d'
        some (add_contexts (out_edges v g.msg.edges) ctx d'))
          ≡ some d'')
        × Held d''
        × ((u : ℕ) → d''.mem_state_valid u ≡ (if u == v then true else d.mem_state_valid u))
  handed_on v d d' inv run inside left =
      let own =
        update_context-follows p sizes g super_entry super_exit depth level addr context sane v d'
          left.here_context inside in
      let ctx = next_context (kind p g super_entry v) (addr v) (context v) in
      let adds =
        add_contexts-Adds context (out_edges v g.msg.edges) ctx d' left.consistent next_eq in
      let valid : (u : ℕ)
          → (add_contexts (out_edges v g.msg.edges) ctx d').mem_state_valid u
            ≡ (if u == v then true else d.mem_state_valid u) =
        λ u. ap (λ (h : ℕ → Bool). h u) adds.same_valid ∙ left.valid_eq u in
      (
        add_contexts (out_edges v g.msg.edges) ctx d',
        rw own refl,
        record {
          consistent = adds.consistent;
          known = λ u h. elim (ℕ_discrete u v) [
            | yes q ↦ record {
              describes = λ c ctx a. rw (same_mem adds.same_state u) (
                  subst (λ w. DescribesPad p c (d'.mem_state w)) (sym q)
                    (left.here_state c ctx
                      (subst (λ w. Arrives p g super_entry addr w c ctx) q a)));
              reached =
                  let (c, ctx, a) = run in
                  (c, ctx, subst (λ w. Arrives p g super_entry addr w c ctx) (sym q) a);
              has_context =
                  adds.grows u (context u)
                    (subst (λ w. d'.ctx_map w ≡ some (context w)) (sym q) left.here_context);
            }
            | no n ↦
                let old = inv.known u (was_valid u n (sym (valid u) ∙ h)) in
                record {
                  describes = λ c ctx a.
                      rw (same_mem adds.same_state u, left.other_states u n)
                        (old.describes c ctx a);
                  reached = old.reached;
                  has_context = adds.grows u (context u) (left.grows u (context u) old.has_context);
                }
          ];
          passed = λ e f h. elim (ℕ_discrete e.source v) [
            | yes q ↦
                adds.added e
                  (subst (λ w. Memᴰ e (out_edges w g.msg.edges)) q
                    (mem-out_edges g.msg.edges e f.listed))
                  f.ahead
            | no n ↦ adds.grows e.target (context e.target) (
                left.grows e.target (context e.target)
                  (inv.passed e f (was_valid e.source n (sym (valid e.source) ∙ h))))
          ];
        },
        valid,
      )
    where
      next_eq :
          (e : Edge)
          → Memᴰ e (out_edges v g.msg.edges)
          → is_forward e ≡ true
          → context e.target ≡ next_context (kind p g super_entry v) (addr v) (context v)
      next_eq e i f =
          let (w, s) = out_edges-mem v g.msg.edges e i in
          sane.follows e (record { listed = w; ahead = f })
          ∙ ap (λ u. next_context (kind p g super_entry u) (addr u) (context u)) s

      same_mem : {x y : ℕ → AbsMemSet} → x ≡ y → (u : ℕ) → x u ≡ y u
      same_mem q u = ap (λ (h : ℕ → AbsMemSet). h u) q

      was_valid :
          (u : ℕ)
          → u ≢ v
          → (if u == v then true else d.mem_state_valid u) ≡ true
          → d.mem_state_valid u ≡ true
      was_valid u n h = ground arith
