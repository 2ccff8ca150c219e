-- ===== src/DispDfa/Contexts.antt =====
-- The contexts that a turn of the analysis hands on.
use isptap.Prelude.{
  ℕ, ◌≡◌, ◌≢◌, refl, sym, ◌∙◌, Bool, true, false, List, [], ◌∷◌, none, some, arith, ◌==◌, inl, inr,
  ◌⊎◌, Bool-cases, ℕ_discrete,
}
use mathlib.Core.List.{Memᴰ}
use mathlib.Core.List.Memᴰ
use mathlib.Core.Path.{subst}
use isptap.MemStateGraph.{Edge, is_forward}
use isptap.DispDfa.{DispDfaState, first_context, add_context_for_node, add_contexts}

module _ (context : ℕ → List ℕ) where
  -- Each vertex has no context yet, or the one that it is to have.
  abbrev pub Consistent : DispDfaState → Type 0
  Consistent d = (u : ℕ) → (d.ctx_map u ≡ none) ⊎ (d.ctx_map u ≡ some (context u))

  abbrev pub Grows : DispDfaState → DispDfaState → Type 0
  Grows d d' = (u : ℕ) (x : List ℕ) → d.ctx_map u ≡ some x → d'.ctx_map u ≡ some x

  -- Only the contexts change, and each target has its context.
  pub record Adds (es : List Edge) (d d' : DispDfaState) : Type 0 where
    pub same_state : d'.mem_state ≡ d.mem_state
    pub same_valid : d'.mem_state_valid ≡ d.mem_state_valid
    pub consistent : Consistent d'
    pub grows : Grows d d'
    pub added :
        (e : Edge) → Memᴰ e es → is_forward e ≡ true → d'.ctx_map e.target ≡ some (context e.target)

  pub add_context_here :
      (v : ℕ) (d : DispDfaState)
      → Consistent d
      → (add_context_for_node v (context v) d).ctx_map v ≡ some (context v)
  unfolding add_context_for_node first_context
  add_context_here v d c =
      let b : (v == v) ≡ true = ground arith in
      rw b (elim (c v) [ inl h ↦ rw h refl | inr h ↦ rw h refl ])

  add_context_there :
      (v u : ℕ) (ctx : List ℕ) (d : DispDfaState)
      → u ≢ v
      → (add_context_for_node v ctx d).ctx_map u ≡ d.ctx_map u
  unfolding add_context_for_node
  add_context_there v u ctx d n = let b : (u == v) ≡ false = ground arith in rw b refl

  pub add_context-Consistent :
      (v : ℕ) (d : DispDfaState) → Consistent d → Consistent (add_context_for_node v (context v) d)
  add_context-Consistent v d c u = elim (ℕ_discrete u v) [
    | yes q ↦ inr (rw q (add_context_here v d c))
    | no n ↦ rw (add_context_there v u (context v) d n) (c u)
  ]

  pub add_context-Grows :
      (v : ℕ) (d : DispDfaState) → Consistent d → Grows d (add_context_for_node v (context v) d)
  add_context-Grows v d c u x h = elim (ℕ_discrete u v) [
    | yes q ↦ elim (c u) [
      | inl z ↦ cc
      | inr z ↦
          subst (λ w. (add_context_for_node v (context v) d).ctx_map w ≡ some x) (sym q)
            (add_context_here v d c
              ∙ sym (subst (λ w. d.ctx_map w ≡ some (context w)) q z)
              ∙ subst (λ w. d.ctx_map w ≡ some x) q h)
    ]
    | no n ↦ add_context_there v u (context v) d n ∙ h
  ]

  cons-Adds :
      (x : Edge) (es : List Edge) (d d' : DispDfaState)
      → Consistent d
      → Adds es (add_context_for_node x.target (context x.target) d) d'
      → Adds (x ∷ es) d d'
  unfolding add_context_for_node
  cons-Adds x es d d' c rest = record {
    same_state = rest.same_state;
    same_valid = rest.same_valid;
    consistent = rest.consistent;
    grows = λ u y q. rest.grows u y (add_context-Grows x.target d c u y q);
    added = λ e m f. elim (Memᴰ.cases_cons m) [
      | inl same ↦
          subst (λ z. d'.ctx_map z.target ≡ some (context z.target)) (sym same)
            (rest.grows x.target (context x.target) (add_context_here x.target d c))
      | inr m' ↦ rest.added e m' f
    ];
  }

  pub add_contexts-Adds :
      (es : List Edge) (ctx : List ℕ) (d : DispDfaState)
      → Consistent d
      → ((e : Edge) → Memᴰ e es → is_forward e ≡ true → context e.target ≡ ctx)
      → Adds es d (add_contexts es ctx d)
  unfolding add_contexts
  add_contexts-Adds [] ctx d c h = record {
    same_state = refl;
    same_valid = refl;
    consistent = c;
    grows = λ u x q. q;
    added = λ e m. absurd (Memᴰ.not-nil m);
  }
  add_contexts-Adds (x ∷ es) ctx d c h = elim (Bool-cases (is_forward x)) [
    | inl q ↦
        let own : context x.target ≡ ctx = h x (Memᴰ.head refl) q in
        rw (q, ← own)
          (cons-Adds x es d
            (add_contexts es (context x.target)
              (add_context_for_node x.target (context x.target) d))
            c
            (add_contexts-Adds es (context x.target)
              (add_context_for_node x.target (context x.target) d)
              (add_context-Consistent x.target d c) (λ e m f. h e (Memᴰ.tail m) f ∙ sym own)))
    | inr q ↦
        let rest = add_contexts-Adds es ctx d c (λ e m. h e (Memᴰ.tail m)) in
        rw q (record {
          same_state = rest.same_state;
          same_valid = rest.same_valid;
          consistent = rest.consistent;
          grows = rest.grows;
          added = λ e m f. elim (Memᴰ.cases_cons m) [
            | inl same ↦ absurd (true_or_false (subst (λ z. is_forward z ≡ true) same f) q)
            | inr m' ↦ rest.added e m' f
          ];
        })
  ]
    where
      true_or_false : {b : Bool} → b ≡ true → b ≡ false → ⊥
      true_or_false t f = cc
