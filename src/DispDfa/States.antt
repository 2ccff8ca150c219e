-- ===== src/DispDfa/States.antt =====
-- The steps of the analysis of the scratchpad, on states that describe the runs.
use isptap.Prelude.{
  ℕ, suc, ◌≡◌, ◌≢◌, refl, ap, sym, ◌∙◌, Bool, true, false, List, [], ◌∷◌, Option, some, arith, All,
  AnyOf, leb, ◌==◌, inl, inr, Bool-cases, length,
}
use mathlib.Core.List.{Memᴰ}
use mathlib.Core.List.Memᴰ
use mathlib.Core.Path.{subst}
use isptap.MemUsage.{MemoryUsageStats}
use isptap.AbsSet.{AbsMemSet, Sizes, count_state}
use isptap.ContextStack as ContextStack
use isptap.MemStateGraph.{Edge, is_forward, count_forward}
use isptap.Disp.{DispParams}
use isptap.FifoDisp.Policy.{Sound}
use isptap.LruDisp.{update}
use isptap.LruDisp.Concrete.{lru_activate}
use isptap.LruDisp.Access.{DescribesPad}
use isptap.LruDisp.Update.{update-DescribesPad}
use isptap.DispDfa.{
  DispGraph, DispDfaState, Handling, calls, returns, neither, only_addr, entry_addr, handle,
  joinable, context_after, get_function_address, get_context_for_node, or_empty, state_after,
  after_return, update_context_for_node, prev_states,
}
use isptap.DispDfa.Runs.{
  next_context, next_content, return_to, kind, Arrives, Sane, Good, Arrives-context, context-Good,
}

module _ (p : DispParams) (sizes : Sizes) (g : DispGraph) (super_entry super_exit depth : ℕ)
    (level addr : ℕ → ℕ) (context : ℕ → List ℕ)
    (sane : Sane p g super_entry super_exit depth level addr context) where
  -- The state of the vertex describes all scratchpads that reach it, some run reaches it, and its
  -- context is there.
  pub record Known (d : DispDfaState) (v : ℕ) : Type 0 where
    pub describes :
        (c ctx : List ℕ) → Arrives p g super_entry addr v c ctx → DescribesPad p c (d.mem_state v)
    pub reached : (c : List ℕ) × (ctx : List ℕ) × Arrives p g super_entry addr v c ctx
    pub has_context : d.ctx_map v ≡ some (context v)

  -- The state describes the scratchpads after the vertex.
  unfoldable pub After : ℕ → AbsMemSet → Type 0
  After u s =
      (c ctx : List ℕ)
      → Arrives p g super_entry addr u c ctx
      → DescribesPad p (next_content p (kind p g super_entry u) (addr u) ctx c) s

  pub address_eq :
      (u : ℕ)
      → kind p g super_entry u ≡ calls
      → get_function_address p sizes g super_entry u ≡ some (addr u)
  unfolding get_function_address entry_addr only_addr
  address_eq u q = rw (q, (sane.called u q).0) refl

  one_update :
      (s : AbsMemSet) (stats : MemoryUsageStats) (f : ℕ)
      → Sound p f
      → (c : List ℕ) → DescribesPad p c s
      → (s' : AbsMemSet) × (update p sizes s f stats ≡ some (s', count_state sizes s' stats))
        × ((c : List ℕ) → DescribesPad p c s → DescribesPad p (lru_activate p f c) s')
  one_update s stats f ok c d =
      let (s', e, d') = update-DescribesPad p sizes f stats c s ok d in
      (
        s',
        e,
        λ c' x.
            let (s'', e', d'') = update-DescribesPad p sizes f stats c' s ok x in
            let q : s'' ≡ s' = cc (sym e' ∙ e) in
            subst (DescribesPad p (lru_activate p f c')) q d'',
      )

  return_lem :
      (s : AbsMemSet) (stats : MemoryUsageStats) (ctx : List ℕ)
      → All (Good p g super_entry super_exit depth level addr context sane) ctx
      → (c : List ℕ) → DescribesPad p c s
      → (s' : AbsMemSet) × (stats' : MemoryUsageStats) × (after_return p sizes g super_entry ctx s
            stats
          ≡ some (s', stats'))
        × ((c : List ℕ) → DescribesPad p c s → DescribesPad p (return_to p ctx c) s')
  unfolding after_return return_to ContextStack.empty ContextStack.top
  return_lem s stats [] ok c d = (s, stats, refl, λ c x. x)
  return_lem s stats (f ∷ ctx) ok c d =
      let (s', e, h) = one_update s stats f ok.0.0 c d in
      (s', count_state sizes s' stats, shown e, h)
    where
      shown :
          {o : Option (AbsMemSet × MemoryUsageStats)}
          → update p sizes s f stats ≡ o
          → after_return p sizes g super_entry (f ∷ ctx) s stats ≡ o
      shown e =
          let b : (suc (length ctx) == 0) ≡ false = ground arith in
          let b' : leb (suc (length ctx)) 0 ≡ false = ground arith in rw (b, b') e

  handle-After :
      (k : Handling) (f : ℕ) (s : AbsMemSet) (stats : MemoryUsageStats) (ctx : List ℕ)
      → (k ≡ calls → Sound p f)
      → All (Good p g super_entry super_exit depth level addr context sane) ctx
      → (c : List ℕ) → DescribesPad p c s
      → (s' : AbsMemSet) × (stats' : MemoryUsageStats) × (handle p sizes g super_entry k
            (some f)
            ctx
            s
            stats
          ≡ some (s', stats'))
        × ((c : List ℕ) → DescribesPad p c s → DescribesPad p (next_content p k f ctx c) s')
  unfolding handle next_content ContextStack.pop return_to
  handle-After calls f s stats ctx h ok c d =
      let (s', e, t) = one_update s stats f (h refl) c d in (s', count_state sizes s' stats, e, t)
  handle-After returns f s stats [] h ok c d = return_lem s stats [] tt c d
  handle-After returns f s stats (x ∷ ctx) h ok c d = return_lem s stats ctx ok.1 c d
  handle-After neither f s stats ctx h ok c d = (s, stats, refl, λ c x. x)

  -- A node that is no entry does not look at the address.
  handle_any :
      (k : Handling) (u : ℕ) (s : AbsMemSet) (stats : MemoryUsageStats) (ctx : List ℕ)
      → kind p g super_entry u ≡ k
      → handle p sizes g super_entry k (get_function_address p sizes g super_entry u) ctx s stats
        ≡ handle p sizes g super_entry k (some (addr u)) ctx s stats
  unfolding handle
  handle_any calls u s stats ctx q = rw (address_eq u q) refl
  handle_any returns u s stats ctx q = refl
  handle_any neither u s stats ctx q = refl

  pub state_after-After :
      (u : ℕ) (d : DispDfaState)
      → Known d u
      → (s : AbsMemSet) × (stats' : MemoryUsageStats) × (state_after p sizes g super_entry u d
          ≡ some (s, stats'))
        × After u s
  unfolding state_after After get_context_for_node or_empty
  state_after-After u d known =
      let (c, ctx, a) = known.reached in
      let own =
        Arrives-context p g super_entry super_exit depth level addr context sane u c ctx a in
      let ok = context-Good p g super_entry super_exit depth level addr context sane u c ctx a in
      let (s', stats', e, h) =
        handle-After (kind p g super_entry u) (addr u) (d.mem_state u) d.stats ctx
          (λ q. (sane.called u q).1) ok c (known.describes c ctx a) in
      (
        s',
        stats',
        rw (known.has_context, ← own)
            (handle_any (kind p g super_entry u) u (d.mem_state u) d.stats ctx refl ∙ e),
        λ c' ctx' a'.
            let own' =
              Arrives-context p g super_entry super_exit depth level addr context sane u c' ctx'
                a' in
            let same : ctx ≡ ctx' = own ∙ sym own' in
            subst (λ x. DescribesPad p (next_content p (kind p g super_entry u) (addr u) x c') s')
              same (h c' (known.describes c' ctx' a')),
      )

  -- The context behind a vertex is the one that its forward successors have.
  pub update_context-follows :
      (v : ℕ) (d : DispDfaState)
      → d.ctx_map v ≡ some (context v)
      → (kind p g super_entry v ≡ returns → context v ≢ [])
      → update_context_for_node p sizes g super_entry v d
        ≡ some (next_context (kind p g super_entry v) (addr v) (context v))
  unfolding update_context_for_node get_context_for_node or_empty context_after next_context
      ContextStack.push ContextStack.empty ContextStack.pop
  update_context-follows v d h inside = rw h (go (kind p g super_entry v) (context v) refl inside)
    where
      go :
          (k : Handling) (ctx : List ℕ)
          → kind p g super_entry v ≡ k
          → (k ≡ returns → ctx ≢ [])
          → context_after k (get_function_address p sizes g super_entry v) ctx
            ≡ some (next_context k (addr v) ctx)
      go calls ctx q h = rw (address_eq v q) refl
      go returns [] q h = absurd (h refl refl)
      go returns (x ∷ ctx) q h = let b : (suc (length ctx) == 0) ≡ false = ground arith in rw b refl
      go neither ctx q h = refl

  -- What the loop of the join collects.
  pub record Collects (es : List Edge) (d : DispDfaState) : Type 0 where
    pub states : List AbsMemSet
    pub returned : prev_states g.msg es d ≡ some states
    pub sized : length states ≡ count_forward es
    pub described : All (λ s. (c : List ℕ) × DescribesPad p c s) states
    pub covered :
        (e : Edge)
        → Memᴰ e es
        → is_forward e ≡ true
        → (c ctx : List ℕ) → Arrives p g super_entry addr e.source c ctx
        → AnyOf (DescribesPad p c) states

  pub prev_states-Collects :
      (es : List Edge) (d : DispDfaState)
      → ((e : Edge)
          → Memᴰ e es
          → is_forward e ≡ true
          → Known d e.source × (kind p g super_entry e.source ≡ neither))
      → Collects es d
  unfolding prev_states count_forward joinable
  prev_states-Collects [] d h = record {
    states = [];
    returned = refl;
    sized = refl;
    described = tt;
    covered = λ e y. absurd (Memᴰ.not-nil y);
  }
  prev_states-Collects (x ∷ es) d h =
      let rest = prev_states-Collects es d (λ e y. h e (Memᴰ.tail y)) in
      elim (Bool-cases (is_forward x)) [
        | inl q ↦
            let (known, plain) = h x (Memᴰ.head refl) q in
            let (c, ctx, a) = known.reached in
            record {
              states = d.mem_state x.source ∷ rest.states;
              returned = rw (rest.returned, q, plain) refl;
              sized = rw q (ap suc rest.sized);
              described = ((c, known.describes c ctx a), rest.described);
              covered = λ e y f c' ctx' a'. elim (Memᴰ.cases_cons y) [
                | inl same ↦ inl (
                    known.describes c' ctx'
                      (subst (λ z. Arrives p g super_entry addr z.source c' ctx') same a'))
                | inr y' ↦ inr (rest.covered e y' f c' ctx' a')
              ];
            }
        | inr q ↦ record {
          states = rest.states;
          returned = rw (rest.returned, q) refl;
          sized = rw q rest.sized;
          described = rest.described;
          covered = λ e y f c' ctx' a'. elim (Memᴰ.cases_cons y) [
            | inl same ↦ absurd (true_or_false (subst (λ z. is_forward z ≡ true) same f) q)
            | inr y' ↦ rest.covered e y' f c' ctx' a'
          ];
        }
      ]
    where
      true_or_false : {b : Bool} → b ≡ true → b ≡ false → ⊥
      true_or_false t f = cc
