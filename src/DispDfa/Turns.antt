-- ===== src/DispDfa/Turns.antt =====
-- The turns of the loop of `calculateMemPenalty`: a call and a return.
use isptap.Prelude.{
  ℕ, ◌≤◌, ◌≡◌, ◌≢◌, refl, ap, sym, ◌∙◌, Bool, true, false, List, ◌∷◌, none, some, arith, All,
  length, inl, inr, ◌⊎◌, ◌==◌, ℕ_discrete,
}
use mathlib.Core.List.{Memᴰ}
use mathlib.Core.Path.{subst}
use isptap.AbsSet.{Sizes, is_in_set}
use isptap.MemStateGraph.{Edge, out_edges, in_degree}
use isptap.Dfa.Loop.{Fed}
use isptap.Disp.{DispParams, call, back}
use isptap.LruDisp.Update.{scratchpad_classification_sound}
use isptap.DispDfa.{DispGraph, DispDfaState, Handling, calls, returns, neither}
use isptap.DispDfa.Runs.{kind, Sane, Good, Arrives-context, context-Good}
use isptap.DispDfa.States as States
use isptap.DispDfa.Invariant.{Knows}
use isptap.DispDfa.Costs.{
  Timing, put_where, leaves, enters, add_call_penalty, add_return_penalty, add_penalty,
}
use isptap.DispDfa.Penalty.{put_where-mem, activation_cost, disp_cost-covers}
use isptap.IcacheDfa.Penalty.{SameEnds}
use isptap.DispDfa.Paid.{
  Priced, Shape, CallPaid, ReturnPaid, Paid, put-Shape, put-CallPaid, put-ReturnPaid,
}

pub calls_any : calls ≡ neither → ⊥
calls_any z = cc

pub returns_any : returns ≡ neither → ⊥
returns_any z = cc

one_eq : {n : ℕ} → n ≡ 1 → (n == 1) ≡ true
one_eq z = ground arith

leaves_own : (v : ℕ) (o : Edge) → o.source ≡ v → leaves v o ≢ false
leaves_own v o s z = ground arith

enters_own : (v : ℕ) (o : Edge) → o.target ≡ v → enters v o ≢ false
enters_own v o s z = ground arith

leaves_other : (v : ℕ) (o : Edge) → o.source ≢ v → leaves v o ≡ false
leaves_other v o n = ground arith

enters_other : (v : ℕ) (o : Edge) → o.target ≢ v → enters v o ≡ false
enters_other v o n = ground arith

-- An edge of the vertex carries the penalty that was put on it.
set_here :
    (of_vertex : Edge → Bool) (cost : ℕ) (es : List Edge) (x : Edge)
    → Memᴰ x (put_where of_vertex cost es)
    → ((o : Edge) → SameEnds o x → of_vertex o ≢ false)
    → {n : ℕ} → n ≤ cost
    → n ≤ x.dynamic_mem_penalty
set_here of_vertex cost es x m own h =
    let (o, y, s, w) = put_where-mem of_vertex cost es x m in
    elim w [ inl (_, z) ↦ rw z h | inr (z, _) ↦ absurd (own o s z) ]

module _ (p : DispParams) (sizes : Sizes) (t : Timing) (g : DispGraph)
    (super_entry super_exit depth : ℕ) (level addr : ℕ → ℕ) (context : ℕ → List ℕ)
    (sane : Sane p g super_entry super_exit depth level addr context)
    (priced : Priced p sizes t g super_entry super_exit depth level addr context sane)
    (d : DispDfaState)
    (known : (v : ℕ)
      → Fed g.msg.edges super_entry v
      → v ≢ super_exit
      → Knows p sizes g super_entry super_exit depth level addr context sane d v)
    (at_exit : (d.ctx_map super_exit ≡ none)
      ⊎ (d.ctx_map super_exit ≡ some (context super_exit))) where
  abbrev pub Shaped : List Edge → Type 0
  Shaped = Shape p sizes t g super_entry super_exit depth level addr context sane

  abbrev pub PaidAt : ℕ → List Edge → Type 0
  PaidAt u es =
      Paid p sizes t g super_entry super_exit depth level addr context sane (kind p g super_entry u)
        u es

  -- A turn of the loop at the vertex `v`.
  pub record Turn (v : ℕ) (es : List Edge) : Type 0 where
    pub result : List Edge
    pub returned : add_penalty p sizes t g super_entry (kind p g super_entry v) v d es ≡ some result
    pub shaped : Shaped result
    pub paid : v ≢ super_exit → PaidAt v result
    pub keeps : (u : ℕ) → u ≢ v → PaidAt u es → PaidAt u result

  -- The edges of another call or return are not among those that `v` sets.
  keep :
      (of_vertex : Edge → Bool) (cost u : ℕ) (es : List Edge)
      → (kind p g super_entry u ≡ calls
          → (o : Edge) → Memᴰ o es
          → o.source ≡ u
          → of_vertex o ≡ false)
      → (kind p g super_entry u ≡ returns
          → (o : Edge) → Memᴰ o es
          → o.target ≡ u
          → of_vertex o ≡ false)
      → PaidAt u es
      → PaidAt u (put_where of_vertex cost es)
  keep of_vertex cost u es h h' w = go (kind p g super_entry u) refl w
    where
      go :
          (k : Handling)
          → kind p g super_entry u ≡ k
          → Paid p sizes t g super_entry super_exit depth level addr context sane k u es
          → Paid p sizes t g super_entry super_exit depth level addr context sane k u
              (put_where of_vertex cost es)
      go calls q w =
          put-CallPaid p sizes t g super_entry super_exit depth level addr context sane of_vertex
            cost u es (h q) w
      go returns q w =
          put-ReturnPaid p sizes t g super_entry super_exit depth level addr context sane of_vertex
            cost u es (h' q) w
      go neither q w = tt

  -- An edge that leaves an entry node does not enter an exit node.
  crosses :
      (es : List Edge)
      → Shaped es
      → (o : Edge) → Memᴰ o es
      → kind p g super_entry o.source ≡ calls
      → kind p g super_entry o.target ≢ returns
  crosses es shape o m q r =
      let (x, y, s, e) = shape o m in
      priced.apart x y (subst (λ k. kind p g super_entry k ≡ calls) s q)
        (subst (λ k. kind p g super_entry k ≡ returns) e r)

  pub reached_inner :
      (v : ℕ) → kind p g super_entry v ≢ neither → v ≢ super_exit → Fed g.msg.edges super_entry v
  reached_inner v k n = elim (priced.reached v k) [ inl z ↦ absurd (n z) | inr f ↦ f ]

  pub call-Turn :
      (v : ℕ) (es : List Edge)
      → Shaped es
      → kind p g super_entry v ≡ calls
      → (r : List Edge) × (add_penalty p sizes t g super_entry calls v d es ≡ some r)
        × Shaped r
        × CallPaid p sizes t g super_entry super_exit depth level addr context sane v r
        × ((u : ℕ) → u ≢ v → PaidAt u es → PaidAt u r)
  unfolding add_penalty add_call_penalty
  call-Turn v es shape q =
      let inner : v ≢ super_exit =
        λ z. priced.exit_kind (subst (λ k. kind p g super_entry k ≡ calls) z q) in
      let fed = reached_inner v (λ z. calls_any (sym q ∙ z)) inner in
      let at_v = known v fed inner in
      let (_, loads, _) = sane.called v q in
      let must = is_in_set (addr v) (d.mem_state v).must_set in
      let (cost, e, covers) =
        disp_cost-covers p t call (addr v) must loads.known (priced.faster (addr v)) in
      let b : (length (out_edges v g.msg.edges) == 1) ≡ true = one_eq (priced.one_out v q) in
      (
        put_where (leaves v) cost es,
        rw
            (
              States.address_eq p sizes g super_entry super_exit depth level addr context sane v q,
              e,
              b,
            )
            refl,
        put-Shape p sizes t g super_entry super_exit depth level addr context sane (leaves v) cost
            es shape,
        (λ x m s c ctx a.
            set_here (leaves v) cost es x m (λ o e z. leaves_own v o (sym e.0 ∙ s) z)
              (covers c (
                (scratchpad_classification_sound p (addr v) c (d.mem_state v)
                  (at_v.describes c ctx a)).0))),
        λ u n w.
            keep (leaves v) cost u es (λ _ o m s. leaves_other v o (λ w. n (sym s ∙ w)))
              (λ z o m s. elim (ℕ_discrete o.source v) [
                | yes w ↦ absurd (
                    crosses es shape o m (ap (kind p g super_entry) w ∙ q)
                      (ap (kind p g super_entry) s ∙ z))
                | no w ↦ leaves_other v o w
              ])
              w,
      )

  pub return-Turn :
      (v callee f : ℕ) (ctx : List ℕ) (es : List Edge)
      → Shaped es
      → kind p g super_entry v ≡ returns
      → v ≢ super_exit
      → context v ≡ callee ∷ f ∷ ctx
      → (r : List Edge) × (add_return_penalty p sizes t g super_entry (f ∷ ctx) v d es ≡ some r)
        × Shaped r
        × ReturnPaid p sizes t g super_entry super_exit depth level addr context sane v r
        × ((u : ℕ) → u ≢ v → PaidAt u es → PaidAt u r)
  unfolding add_return_penalty
  return-Turn v callee f ctx es shape q inner own =
      let at_v = known v (reached_inner v (λ z. returns_any (sym q ∙ z)) inner) inner in
      let (c0, ctx0, a0) = at_v.reached in
      let same =
        Arrives-context p g super_entry super_exit depth level addr context sane v c0 ctx0 a0 in
      let good =
        subst (All (Good p g super_entry super_exit depth level addr context sane)) (same ∙ own)
          (context-Good p g super_entry super_exit depth level addr context sane v c0 ctx0 a0) in
      let must = is_in_set f (d.mem_state v).must_set in
      let (cost, e, covers) = disp_cost-covers p t back f must good.1.0.0.known (priced.faster f) in
      let b : (in_degree v g.msg.edges == 1) ≡ true = one_eq (priced.one_in v q) in
      (
        put_where (enters v) cost es,
        rw (e, b) refl,
        put-Shape p sizes t g super_entry super_exit depth level addr context sane (enters v) cost
            es shape,
        (λ x m s c callee' caller ctx' a.
            set_here (enters v) cost es x m (λ o w z. enters_own v o (sym w.1 ∙ s) z)
              (caller_cost c caller
                (heads (
                  sym own
                  ∙ sym (
                      Arrives-context p g super_entry super_exit depth level addr context sane v c
                        (callee' ∷ caller ∷ ctx') a)))
                cost
                (covers c
                  (scratchpad_classification_sound p f c (d.mem_state v)
                    (at_v.describes c (callee' ∷ caller ∷ ctx') a)).0))),
        λ u n w.
            keep (enters v) cost u es
              (λ z o m s. elim (ℕ_discrete o.target v) [
                | yes w ↦ absurd (
                    crosses es shape o m (ap (kind p g super_entry) s ∙ z)
                      (ap (kind p g super_entry) w ∙ q))
                | no w ↦ enters_other v o w
              ])
              (λ _ o m s. enters_other v o (λ w. n (sym s ∙ w))) w,
      )
    where
      heads : {x y x' y' : ℕ} {l l' : List ℕ} → x ∷ y ∷ l ≡ x' ∷ y' ∷ l' → y ≡ y'
      heads z = cc

      caller_cost :
          (c : List ℕ) (caller : ℕ)
          → f ≡ caller
          → (cost : ℕ) → activation_cost p t back f c ≤ cost
          → activation_cost p t back caller c ≤ cost
      caller_cost c caller z cost h = subst (λ k. activation_cost p t back k c ≤ cost) z h
