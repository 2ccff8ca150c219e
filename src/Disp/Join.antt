-- ===== src/Disp/Join.antt =====
-- The join of the states of the predecessors of a node.
use isptap.Prelude.{
  ℕ, ◌≡◌, refl, ◌≢◌, ◌↔◌, ◌⊎◌, List, [], ◌∷◌, ◌++◌, some, none, All, All-append, AnyOf-append,
  AnyOf-unappend, inl, inr, ◌∙◌, sym, some_injective,
}
use mathlib.Core.Path.{subst}
use isptap.Bf.{ConcreteState, Maintainer, get_abs_mem_state}
use isptap.Bf.Sets.{Has, Allows, Allows-nonempty}
use isptap.Disp.{join_states, join, Policy}
use isptap.Disp.Exact.{Does, finish_lem}

append_ne : {S : Type 0} (y z : List S) → y ≢ [] → y ++ z ≢ []
append_ne [] z h = absurd (h refl)
append_ne (s ∷ y) z h = λ e. cc

module _ {S V : Type 0} (c : ConcreteState S V) (Ok : S → Type 0) (m : Maintainer S) where
  -- Each predecessor has a state that is not the blank one.
  abbrev pub Ready : List ℕ → Type 0
  Ready [] = Unit {0}
  Ready (p ∷ predecessors) =
      ((x : List S) × (get_abs_mem_state m p ≡ some x) × All Ok x × (x ≢ [])) × Ready predecessors

  -- The state of a predecessor allows `v`.
  abbrev pub Arrives : V → V → List ℕ → Type 0
  Arrives blank v [] = ⊥
  Arrives blank v (p ∷ predecessors) =
      ((x : List S) × (get_abs_mem_state m p ≡ some x) × Allows c blank v x)
      ⊎ Arrives blank v predecessors

  join_states_lem :
      (blank : V) (predecessors : List ℕ)
      → Ready predecessors
      → (y : List S) × (join_states m predecessors ≡ some y)
        × All Ok y
        × (predecessors ≢ [] → y ≢ [])
        × ((v : V) → Has c v y ↔ Arrives blank v predecessors)
  unfolding join_states
  join_states_lem blank [] r = ([], refl, tt, λ e. absurd (e refl), λ v. (λ e. e, λ e. e))
  join_states_lem blank (p ∷ predecessors) r =
      let x = r.0.0 in
      let (z, e, oks, _, arrive) = join_states_lem blank predecessors r.1 in
      (
        x ++ z,
        rw (r.0.1, e),
        All-append Ok x z r.0.2 oks,
        λ _. append_ne x z r.0.3,
        λ v. (
          λ k. elim (AnyOf-unappend _ x z k) [
            | inl w ↦ inl (x, r.0.1, (Allows-nonempty c blank v x r.0.3).1 w)
            | inr w ↦ inr ((arrive v).0 w)
          ],
          λ k.
              AnyOf-append _ x z
                (from x z v r.0.1 (Allows-nonempty c blank v x r.0.3).0 (arrive v).1 k),
        ),
      )
    where
      from :
          (x z : List S) (v : V)
          → get_abs_mem_state m p ≡ some x
          → (Allows c blank v x → Has c v x)
          → (Arrives blank v predecessors → Has c v z)
          → Arrives blank v (p ∷ predecessors)
          → Has c v x ⊎ Has c v z
      from x z v found f g (inl (x', found', a)) =
          inl (f (subst (Allows c blank v) (some_injective (sym found' ∙ found)) a))
      from x z v found f g (inr k) = inr (g k)

module _ {S V : Type 0} (q : Policy S V) (Ok : S → Type 0) where
  open q use {concrete, prepare}

  -- The state of the node after the join: its views are those that arrive, after `h`.
  abbrev pub Joined : V → (V → V) → Maintainer S → List ℕ → ℕ → Type 0
  Joined blank h m predecessors node =
      (m' : Maintainer S) × (y : List S) × (join q m predecessors node ≡ some m')
      × (get_abs_mem_state m' node ≡ some y)
      × ((k : ℕ) → k ≢ node → get_abs_mem_state m' k ≡ get_abs_mem_state m k)
      × All Ok y
      × ((v : V)
          → Allows concrete blank v y
            ↔ ((u : V) × Arrives concrete Ok m blank u predecessors × (v ≡ h u)))

  pub join_lem :
      (blank : V) (h : V → V)
      → Does concrete Ok prepare h
      → (m : Maintainer S) (predecessors : List ℕ) (node : ℕ) → Ready concrete Ok m predecessors
      → predecessors ≢ []
      → get_abs_mem_state m node ≡ none
      → Joined blank h m predecessors node
  unfolding join
  join_lem blank h d m predecessors node r some_predecessor fresh =
      let (x, e, oks, ne, arrive) = join_states_lem concrete Ok m blank predecessors r in
      let x_ne = ne some_predecessor in
      let (m', y, e', now, kept, oks', image) =
        finish_lem concrete Ok prepare h q.vector blank d m node x fresh x_ne oks in
      (
        m',
        y,
        rw (e, e'),
        now,
        kept,
        oks',
        λ v. (
          λ k.
              let (u, w, z) = (image v).0 k in
              (u, (arrive u).0 ((Allows-nonempty concrete blank u x x_ne).0 w), z),
          λ k.
              (image v).1
                (k.0, (Allows-nonempty concrete blank k.0 x x_ne).1 ((arrive k.0).1 k.1), k.2),
        ),
      )
