-- ===== src/DispDfa/Invariant.antt =====
-- The invariant of the analysis of the scratchpad, and that each turn of its work list keeps it.
use isptap.Prelude.{
  ℕ, ◌<◌, ◌≡◌, ◌≢◌, refl, ap, sym, ◌∙◌, true, false, List, [], ◌∷◌, Option, some, arith, All, inl,
  inr, ◌⊎◌, if◌then◌else◌, ◌==◌,
}
use mathlib.Core.List.{Memᴰ}
use mathlib.Core.Path.{subst}
use isptap.MemUsage.{MemoryUsageStats}
use isptap.AbsSet.{AbsMemSet, Sizes, set_blank_mem_state}
use isptap.MemStateGraph.{Edge, is_forward, in_edges, get_forward_in_edge_count}
use isptap.MemStateGraph.Edges.{Forward, in_edges-mem, mem-in_edges, in_degree-zero}
use isptap.IcacheDfa.Invariant.{only_forward}
use isptap.Disp.{DispParams}
use isptap.LruDisp.Access.{DescribesPad}
use isptap.DispDfa.{
  DispGraph, DispDfaState, put_state, add_context_for_node, join_and_set_initial_mem_state,
  set_initial_mem_state,
}
use isptap.DispDfa.Runs.{next_content, kind, Arrives, here, step, Sane, Arrives-clear}
use isptap.DispDfa.States.{Known, After, state_after-After, prev_states-Collects}
use isptap.DispDfa.Contexts.{
  Consistent, Grows, add_context-Consistent, add_context-Grows, add_context_here,
}
use isptap.LruDisp.JoinAll.{join-DescribesPad}
use isptap.LruDisp.Join.{WellFormed}
use isptap.FifoCache.{in_content}
use isptap.FifoDisp.Sizes.{total}
use isptap.LruDisp.MustSet.{Holds, Lies}
use isptap.LruDisp.Update.{fst_All}

described-WellFormed :
    (p : DispParams) (states : List AbsMemSet)
    → All (λ s. (c : List ℕ) × DescribesPad p c s) states
    → All (WellFormed p) states
described-WellFormed p [] h = tt
described-WellFormed p (s ∷ states) h =
    let (c, d) = h.0 in
    (
      record {
        must_lies = fst_All (Holds p c) (Lies p) s.must_set d.must_ok.bounds;
        must_unique = d.must_ok.unique;
        may_lies = d.may_ok.lies;
        may_unique = d.may_ok.unique;
      },
      described-WellFormed p states h.1,
    )

blank-DescribesPad :
    (p : DispParams) (sizes : Sizes) (stats : MemoryUsageStats)
    → DescribesPad p [] (set_blank_mem_state sizes stats).0
unfolding set_blank_mem_state total in_content
blank-DescribesPad p sizes stats = record {
  fits = omega arith;
  must_ok = record { bounds = tt; unique = tt };
  may_ok = record { covered = λ g h. cc; lies = tt; unique = tt };
}

module _ (p : DispParams) (sizes : Sizes) (g : DispGraph) (super_entry super_exit depth : ℕ)
    (level addr : ℕ → ℕ) (context : ℕ → List ℕ)
    (sane : Sane p g super_entry super_exit depth level addr context) where
  abbrev pub Here : ℕ → List ℕ → List ℕ → Type 0
  Here = Arrives p g super_entry addr

  abbrev pub Knows : DispDfaState → ℕ → Type 0
  Knows d u = Known p sizes g super_entry super_exit depth level addr context sane d u

  pub record Inv (d : DispDfaState) : Type 0 where
    pub consistent : Consistent context d
    pub known : (u : ℕ) → d.mem_state_valid u ≡ true → Knows d u
    pub passed :
        (e : Edge)
        → Forward g.msg.edges e
        → d.mem_state_valid e.source ≡ true
        → d.ctx_map e.target ≡ some (context e.target)

  Arrives-cases :
      (v : ℕ) (c ctx : List ℕ)
      → Here v c ctx
      → ((v ≡ super_entry) × (c ≡ []))
        ⊎ ((e : Edge) × (c' : List ℕ) × (ctx' : List ℕ) × Forward g.msg.edges e
            × (e.target ≡ v)
            × Here e.source c' ctx'
            × (c ≡ next_content p (kind p g super_entry e.source) (addr e.source) ctx' c'))
  Arrives-cases v c ctx here = inl (refl, refl)
  Arrives-cases v c ctx (step e c' ctx' f a) = inr (e, c', ctx', f, refl, a, refl)

  -- A turn at the vertex `v` leaves it with the state `s` and the contexts of its successors.
  pub record Leaves (v : ℕ) (d d' : DispDfaState) : Type 0 where
    pub grows : Grows context d d'
    pub consistent : Consistent context d'
    pub here_context : d'.ctx_map v ≡ some (context v)
    pub here_state : (c ctx : List ℕ) → Here v c ctx → DescribesPad p c (d'.mem_state v)
    pub other_states : (u : ℕ) → u ≢ v → d'.mem_state u ≡ d.mem_state u
    pub valid_eq : (u : ℕ) → d'.mem_state_valid u ≡ (if u == v then true else d.mem_state_valid u)

  abbrev pub Runs : ℕ → DispDfaState → Option DispDfaState → Type 0
  Runs v d o = (d' : DispDfaState) × (o ≡ some d') × Leaves v d d'

  module _ (v : ℕ) (d : DispDfaState) (inv : Inv d)
      (ready : (e : Edge)
        → Forward g.msg.edges e
        → e.target ≡ v
        → d.mem_state_valid e.source ≡ true) where
    incoming :
        (e : Edge)
        → Memᴰ e (in_edges v g.msg.edges)
        → is_forward e ≡ true
        → Forward g.msg.edges e × (e.target ≡ v)
    incoming e i f =
        let (w, t) = in_edges-mem v g.msg.edges e i in (record { listed = w; ahead = f }, t)

    pub entering :
        (e : Edge) → Forward g.msg.edges e → e.target ≡ v → Memᴰ e (in_edges v g.msg.edges)
    entering e f t =
        subst (λ u. Memᴰ e (in_edges u g.msg.edges)) t (mem-in_edges g.msg.edges e f.listed)

    own_context : (e : Edge) → Forward g.msg.edges e → e.target ≡ v → d.ctx_map v ≡ some (context v)
    own_context e f t = subst (λ u. d.ctx_map u ≡ some (context u)) t (inv.passed e f (ready e f t))

    put-Leaves :
        (s : AbsMemSet) (stats : MemoryUsageStats)
        → d.ctx_map v ≡ some (context v)
        → ((c ctx : List ℕ) → Here v c ctx → DescribesPad p c s)
        → Leaves v d (put_state v s stats d)
    put-Leaves s stats own h =
        let b : (v == v) ≡ true = ground arith in
        record {
          grows = λ u x q. q;
          consistent = inv.consistent;
          here_context = own;
          here_state = λ c ctx a. rw b (h c ctx a);
          other_states = λ u n. let b' : (u == v) ≡ false = ground arith in rw b' refl;
          valid_eq = λ u. refl;
        }

    pub join-Runs :
        (e : Edge)
        → Forward g.msg.edges e
        → e.target ≡ v
        → v ≢ super_entry
        → 1 < get_forward_in_edge_count v g.msg.edges
        → Runs v d (join_and_set_initial_mem_state p sizes g super_entry v d)
    unfolding join_and_set_initial_mem_state next_content
    join-Runs e f t inner many =
        let w =
          prev_states-Collects p sizes g super_entry super_exit depth level addr context sane
            (in_edges v g.msg.edges) d
            (λ x i h.
              let (y, z) = incoming x i h in
              (
                inv.known x.source (ready x y z),
                sane.joins x y
                    (subst (λ u. 1 < get_forward_in_edge_count u g.msg.edges) (sym z) many),
              )) in
        let (s, left, stats', r, _, _, h) =
          join-DescribesPad p sizes w.states d.stats (described-WellFormed p w.states w.described)
            (omega (arith, w.sized)) in
        (
          put_state v s stats' d,
          rw (w.returned, r) refl,
          put-Leaves s stats' (own_context e f t) (λ c ctx a. elim (Arrives-cases v c ctx a) [
            | inl (q, _) ↦ absurd (inner q)
            | inr (x, c', ctx', f', t', a', z) ↦
                let plain =
                  sane.joins x f'
                    (subst (λ u. 1 < get_forward_in_edge_count u g.msg.edges) (sym t') many) in
                let same : c ≡ c' = z ∙ ap (λ k. next_content p k (addr x.source) ctx' c') plain in
                h c
                  (Arrives-clear p g super_entry super_exit depth level addr context sane v c ctx a)
                  (rw same (w.covered x (entering x f' t') f'.ahead c' ctx' a'))
          ]),
        )

    pub single-Runs :
        (e : Edge)
        → Forward g.msg.edges e
        → e.target ≡ v
        → v ≢ super_entry
        → get_forward_in_edge_count v g.msg.edges ≡ 1
        → Runs v d (set_initial_mem_state p sizes g super_entry v d)
    unfolding set_initial_mem_state After
    single-Runs e f t inner one =
        let b : (v == super_entry) ≡ false = ground arith in
        let b' : (get_forward_in_edge_count v g.msg.edges == 1) ≡ true = ground arith in
        let (x, first, i, f', u) = only_forward (in_edges v g.msg.edges) one in
        let (y, z) = incoming x i f' in
        let (s, stats', r, after) =
          state_after-After p sizes g super_entry super_exit depth level addr context sane x.source
            d (inv.known x.source (ready x y z)) in
        (
          put_state v s stats' d,
          rw (b, b', first, ready x y z, r) refl,
          put-Leaves s stats' (own_context e f t) (λ c ctx a. elim (Arrives-cases v c ctx a) [
            | inl (q, _) ↦ absurd (inner q)
            | inr (w, c', ctx', f'', t', a', q) ↦
                let same = u w (entering w f'' t') f''.ahead in
                subst (λ k. DescribesPad p k s)
                  (ap
                      (λ (k : Edge).
                        next_content p (kind p g super_entry k.source) (addr k.source) ctx' c')
                      same
                    ∙ sym q)
                  (after c' ctx' (subst (λ (k : Edge). Here k.source c' ctx') (sym same) a'))
          ]),
        )

    entry-Leaves :
        (s : AbsMemSet) (stats : MemoryUsageStats)
        → ((c ctx : List ℕ) → Here v c ctx → DescribesPad p c s)
        → Leaves v d (add_context_for_node v (context v) (put_state v s stats d))
    unfolding add_context_for_node
    entry-Leaves s stats h =
        let b : (v == v) ≡ true = ground arith in
        let put = put_state v s stats d in
        record {
          grows = add_context-Grows context v put inv.consistent;
          consistent = add_context-Consistent context v put inv.consistent;
          here_context = add_context_here context v put inv.consistent;
          here_state = λ c ctx a. rw b (h c ctx a);
          other_states = λ u n. let b' : (u == v) ≡ false = ground arith in rw b' refl;
          valid_eq = λ u. refl;
        }

    pub entry-Runs : v ≡ super_entry → Runs v d (set_initial_mem_state p sizes g super_entry v d)
    unfolding set_initial_mem_state
    entry-Runs q =
        let b : (v == super_entry) ≡ true = ground arith in
        let (s, stats') = set_blank_mem_state sizes d.stats in
        let root : context v ≡ [] = ap context q ∙ sane.root in
        (
          add_context_for_node v [] (put_state v s stats' d),
          rw b refl,
          subst (λ x. Leaves v d (add_context_for_node v x (put_state v s stats' d))) root
              (entry-Leaves s stats' (λ c ctx a. elim (Arrives-cases v c ctx a) [
                | inl (_, z) ↦ rw z (blank-DescribesPad p sizes d.stats)
                | inr (e, c', ctx', f, t, a', z) ↦
                    absurd
                      (in_degree-zero super_entry g.msg.edges e sane.source_only f.listed (t ∙ q))
              ])),
        )
