-- ===== src/DispDfa/Bound.antt =====
-- The whole of `analyzeDISP`: the penalties on the edges bound the costs of calls and returns.
use isptap.Prelude.{
  ℕ, ◌≤◌, ◌≡◌, ◌≢◌, refl, ap, sym, ◌∙◌, List, [], ◌∷◌, none, some, arith, length, inl, inr, ◌⊎◌,
  ℕ_discrete,
}
use mathlib.Core.List.{Memᴰ}
use mathlib.Core.List.Memᴰ
use mathlib.Core.Path.{subst}
use isptap.AbsSet.{Sizes}
use isptap.ContextStack as ContextStack
use isptap.MemStateGraph.{Edge}
use isptap.Dfa.Loop.{Fed}
use isptap.Disp.{DispParams}
use isptap.DispDfa.{
  DispGraph, DispDfaState, Handling, calls, returns, neither, get_context_for_node, or_empty,
}
use isptap.DispDfa.Runs.{kind, Sane, Arrives-context}
use isptap.DispDfa.Invariant.{Knows}
use isptap.DispDfa.Costs.{Timing, add_return_penalty, add_penalty, add_penalties}
use isptap.DispDfa.Paid.{Priced}
use isptap.DispDfa.Turns.{Shaped, PaidAt, Turn, reached_inner, returns_any, call-Turn, return-Turn}

pub tail_empty : (l : List ℕ) → length l ≤ 1 → (ContextStack.pop l).1 ≡ []
unfolding ContextStack.pop
tail_empty [] h = refl
tail_empty (x ∷ []) h = refl
tail_empty (x ∷ y ∷ l) h = absurd (omega arith)

module _ (p : DispParams) (sizes : Sizes) (t : Timing) (g : DispGraph)
    (super_entry super_exit depth : ℕ) (level addr : ℕ → ℕ) (context : ℕ → List ℕ)
    (sane : Sane p g super_entry super_exit depth level addr context)
    (priced : Priced p sizes t g super_entry super_exit depth level addr context sane)
    (d : DispDfaState)
    (known : (v : ℕ)
      → Fed g.msg.edges super_entry v
      → v ≢ super_exit
      → Knows p sizes g super_entry super_exit depth level addr context sane d v)
    (at_exit : (d.ctx_map super_exit ≡ none)
      ⊎ (d.ctx_map super_exit ≡ some (context super_exit))) where
  -- A return to no caller has no penalty.
  no_caller :
      (v : ℕ) (es : List Edge)
      → Shaped p sizes t g super_entry super_exit depth level addr context sane priced d known
          at_exit es
      → kind p g super_entry v ≡ returns
      → (ContextStack.pop (get_context_for_node v d)).1 ≡ []
      → (v ≢ super_exit → length (context v) ≤ 1)
      → Turn p sizes t g super_entry super_exit depth level addr context sane priced d known at_exit
          v es
  unfolding add_penalty add_return_penalty
  no_caller v es shape q empty short = record {
    result = es;
    returned = rw (q, empty) refl;
    shaped = shape;
    paid = λ n. rw q (λ e m s c callee caller ctx a. absurd (
        omega (
          arith,
          short n,
          ap length (
              Arrives-context p g super_entry super_exit depth level addr context sane v c
                (callee ∷ caller ∷ ctx) a),
        )));
    keeps = λ u n w. w;
  }

  return_cases :
      (v : ℕ) (es : List Edge)
      → Shaped p sizes t g super_entry super_exit depth level addr context sane priced d known
          at_exit es
      → kind p g super_entry v ≡ returns
      → v ≢ super_exit
      → Fed g.msg.edges super_entry v
      → (l : List ℕ) → context v ≡ l
      → Turn p sizes t g super_entry super_exit depth level addr context sane priced d known at_exit
          v es
  unfolding add_penalty get_context_for_node or_empty ContextStack.pop
  return_cases v es shape q n fed [] own =
      no_caller v es shape q (rw ((known v fed n).has_context, own) refl)
        (λ _. omega (arith, ap length own))
  return_cases v es shape q n fed (x ∷ []) own =
      no_caller v es shape q (rw ((known v fed n).has_context, own) refl)
        (λ _. omega (arith, ap length own))
  return_cases v es shape q n fed (x ∷ y ∷ l) own =
      let (r, e, shape', paid, keeps) =
        return-Turn p sizes t g super_entry super_exit depth level addr context sane priced d known
          at_exit v x y l es shape q n own in
      record {
        result = r;
        returned = rw (q, (known v fed n).has_context, own) e;
        shaped = shape';
        paid = λ _. rw q paid;
        keeps = keeps;
      }

  exit_empty : (ContextStack.pop (get_context_for_node super_exit d)).1 ≡ []
  unfolding get_context_for_node or_empty ContextStack.pop
  exit_empty = elim at_exit [
    | inl h ↦ rw h refl
    | inr h ↦ rw h (tail_empty (context super_exit) priced.root_only)
  ]

  add_penalty-Turn :
      (v : ℕ) (es : List Edge)
      → Shaped p sizes t g super_entry super_exit depth level addr context sane priced d known
          at_exit es
      → Turn p sizes t g super_entry super_exit depth level addr context sane priced d known at_exit
          v es
  unfolding add_penalty get_context_for_node or_empty ContextStack.pop
  add_penalty-Turn v es shape = go (kind p g super_entry v) refl
    where
      go :
          (k : Handling)
          → kind p g super_entry v ≡ k
          → Turn p sizes t g super_entry super_exit depth level addr context sane priced d known
              at_exit v es
      go calls q =
          let (r, e, shape', paid, keeps) =
            call-Turn p sizes t g super_entry super_exit depth level addr context sane priced d
              known at_exit v es shape q in
          record {
            result = r;
            returned = rw q e;
            shaped = shape';
            paid = λ _. rw q paid;
            keeps = keeps;
          }
      go returns q = elim (ℕ_discrete v super_exit) [
        | no n ↦
            return_cases v es shape q n
              (reached_inner p sizes t g super_entry super_exit depth level addr context sane priced
                d known at_exit v (λ z. returns_any (sym q ∙ z)) n)
              (context v) refl
        | yes z ↦
            no_caller v es shape q
              (subst (λ u. (ContextStack.pop (get_context_for_node u d)).1 ≡ []) (sym z) exit_empty)
              (λ n. absurd (n z))
      ]
      go neither q = record {
        result = es;
        returned = rw q refl;
        shaped = shape;
        paid = λ _. rw q tt;
        keeps = λ u n w. w;
      }

  pub add_penalties-Paid :
      (vs : List ℕ) (es : List Edge)
      → Shaped p sizes t g super_entry super_exit depth level addr context sane priced d known
          at_exit es
      → (es' : List Edge) × (add_penalties p sizes t g super_entry vs d es ≡ some es')
        × Shaped p sizes t g super_entry super_exit depth level addr context sane priced d known
            at_exit es'
        × ((v : ℕ)
            → Memᴰ v vs
            → v ≢ super_exit
            → PaidAt p sizes t g super_entry super_exit depth level addr context sane priced d known
                at_exit v es')
        × ((v : ℕ)
            → v ≢ super_exit
            → PaidAt p sizes t g super_entry super_exit depth level addr context sane priced d known
                at_exit v es
            → PaidAt p sizes t g super_entry super_exit depth level addr context sane priced d known
                at_exit v es')
  unfolding add_penalties
  add_penalties-Paid [] es shape = (es, refl, shape, (λ v y. absurd (Memᴰ.not-nil y)), λ v n w. w)
  add_penalties-Paid (v ∷ vs) es shape =
      let r = add_penalty-Turn v es shape in
      let (es', e, shape', paid, keeps) = add_penalties-Paid vs r.result r.shaped in
      (
        es',
        rw r.returned e,
        shape',
        (λ u y n. elim (Memᴰ.cases_cons y) [
          | inl q ↦ keeps u n (
              subst
                (λ k.
                  PaidAt p sizes t g super_entry super_exit depth level addr context sane priced d
                    known at_exit k r.result)
                (sym q) (r.paid (λ z. n (q ∙ z))))
          | inr y' ↦ paid u y' n
        ]),
        λ u n w. elim (ℕ_discrete u v) [
          | yes q ↦ keeps u n (
              subst
                (λ k.
                  PaidAt p sizes t g super_entry super_exit depth level addr context sane priced d
                    known at_exit k r.result)
                (sym q) (r.paid (λ z. n (q ∙ z))))
          | no q ↦ keeps u n (r.keeps u q w)
        ],
      )
