-- ===== src/DispDfa/Paid.antt =====
-- What the penalties of calls and returns are to bound, and that later ones leave it.
use isptap.Prelude.{ℕ, ◌≤◌, ◌≡◌, ◌≢◌, sym, ◌∙◌, Bool, false, List, ◌∷◌, length, inl, inr, ◌⊎◌}
use mathlib.Core.List.{Memᴰ}
use mathlib.Core.Path.{subst}
use isptap.AbsSet.{Sizes}
use isptap.MemStateGraph.{Edge, out_edges, in_degree}
use isptap.Dfa.Loop.{Fed}
use isptap.Disp.{DispParams, call, back}
use isptap.DispDfa.{DispGraph, Handling, calls, returns, neither}
use isptap.DispDfa.Runs.{kind, Arrives, Sane}
use isptap.DispDfa.Costs.{Timing, put_where}
use isptap.DispDfa.Penalty.{put_where-mem, activation_cost, Faster}

module _ (p : DispParams) (sizes : Sizes) (t : Timing) (g : DispGraph)
    (super_entry super_exit depth : ℕ) (level addr : ℕ → ℕ) (context : ℕ → List ℕ)
    (sane : Sane p g super_entry super_exit depth level addr context) where
  -- What the penalties take for granted of a graph: calls and returns are reached; one edge leaves an
  -- entry node, one enters an exit node, and none leads from an entry node to an exit node; at the
  -- super exit the root function only is active; hits are no slower than misses.
  pub record Priced : Type 0 where
    pub reached :
        (v : ℕ)
        → kind p g super_entry v ≢ neither
        → (v ≡ super_exit) ⊎ Fed g.msg.edges super_entry v
    pub exit_kind : kind p g super_entry super_exit ≢ calls
    pub root_only : (length (context super_exit)) ≤ 1
    pub one_out : (v : ℕ) → kind p g super_entry v ≡ calls → length (out_edges v g.msg.edges) ≡ 1
    pub one_in : (v : ℕ) → kind p g super_entry v ≡ returns → in_degree v g.msg.edges ≡ 1
    pub apart :
        (e : Edge)
        → Memᴰ e g.msg.edges
        → kind p g super_entry e.source ≡ calls
        → kind p g super_entry e.target ≢ returns
    pub faster : (f : ℕ) → Faster p t f

  -- The edges lead as those of the graph do.
  abbrev pub Shape : List Edge → Type 0
  Shape es =
      (e : Edge)
      → Memᴰ e es
      → (o : Edge) × Memᴰ o g.msg.edges × (e.source ≡ o.source) × (e.target ≡ o.target)

  -- What `calculateMemPenalty` has put on the edges of a call or of a return.
  abbrev pub CallPaid : ℕ → List Edge → Type 0
  CallPaid v es =
      (e : Edge)
      → Memᴰ e es
      → e.source ≡ v
      → (c ctx : List ℕ) → Arrives p g super_entry addr v c ctx
      → activation_cost p t call (addr v) c ≤ e.dynamic_mem_penalty

  abbrev pub ReturnPaid : ℕ → List Edge → Type 0
  ReturnPaid v es =
      (e : Edge)
      → Memᴰ e es
      → e.target ≡ v
      → (c : List ℕ) (callee caller : ℕ) (ctx : List ℕ)
      → Arrives p g super_entry addr v c (callee ∷ caller ∷ ctx)
      → activation_cost p t back caller c ≤ e.dynamic_mem_penalty

  abbrev pub Paid : Handling → ℕ → List Edge → Type 0
  Paid calls v es = CallPaid v es
  Paid returns v es = ReturnPaid v es
  Paid neither v es = Unit

  pub put-Shape :
      (of_vertex : Edge → Bool) (cost : ℕ) (es : List Edge)
      → Shape es
      → Shape (put_where of_vertex cost es)
  put-Shape of_vertex cost es shape e m =
      let (o, y, (s, x, _), _) = put_where-mem of_vertex cost es e m in
      let (o', y', s', x') = shape o y in (o', y', s ∙ s', x ∙ x')

  -- What is paid stays so, where the edges that change are not among those of the vertex.
  pub put-CallPaid :
      (of_vertex : Edge → Bool) (cost v : ℕ) (es : List Edge)
      → ((o : Edge) → Memᴰ o es → o.source ≡ v → of_vertex o ≡ false)
      → CallPaid v es
      → CallPaid v (put_where of_vertex cost es)
  put-CallPaid of_vertex cost v es other h e m s c ctx a =
      let (o, y, (s', _, _), w) = put_where-mem of_vertex cost es e m in
      let from_v : o.source ≡ v = sym s' ∙ s in
      elim w [
        | inl (b, _) ↦ let b' = other o y from_v in cc
        | inr (b, q) ↦
            subst (λ (k : Edge). activation_cost p t call (addr v) c ≤ k.dynamic_mem_penalty)
              (sym q) (h o y from_v c ctx a)
      ]

  pub put-ReturnPaid :
      (of_vertex : Edge → Bool) (cost v : ℕ) (es : List Edge)
      → ((o : Edge) → Memᴰ o es → o.target ≡ v → of_vertex o ≡ false)
      → ReturnPaid v es
      → ReturnPaid v (put_where of_vertex cost es)
  put-ReturnPaid of_vertex cost v es other h e m s c callee caller ctx a =
      let (o, y, (_, s', _), w) = put_where-mem of_vertex cost es e m in
      let into_v : o.target ≡ v = sym s' ∙ s in
      elim w [
        | inl (b, _) ↦ let b' = other o y into_v in cc
        | inr (b, q) ↦
            subst (λ (k : Edge). activation_cost p t back caller c ≤ k.dynamic_mem_penalty) (sym q)
              (h o y into_v c callee caller ctx a)
      ]
