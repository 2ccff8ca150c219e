-- ===== src/FifoCache/Maintainer/Join.antt =====
-- The join of the abstract states of the predecessors of a node.
use isptap.Prelude.{
  ℕ, ◌≡◌, refl, ◌≢◌, ◌↔◌, ◌⊎◌, List, [], ◌∷◌, ◌++◌, some, none, All-append, AnyOf-append,
  AnyOf-unappend, inl, inr, ◌∙◌, sym, some_injective,
}
use mathlib.Core.Path.{subst}
use isptap.Bf.{Maintainer, get_abs_mem_state, remove_duplicates}
use isptap.Bf.Sets.{Has, Allows, Allows-nonempty, Allows-remove_duplicates, remove_duplicates-All}
use isptap.Bf.Nodes.{store_lem}
use isptap.FifoCache.{FifoCacheMemState}
use isptap.FifoCache.Maintainer.{Sizes, fifo, join_states, join}
use isptap.FifoCache.Maintainer.Update.{Fits, fifo_accesses, update_lines_lem}

module _ (sizes : Sizes) (n : ℕ) (m : Maintainer FifoCacheMemState) where
  -- Each predecessor has a state, which is that of caches of `n` lines, and is not the blank state
  -- of a predecessor that loads no line.
  abbrev pub Ready : List ℕ → List (List ℕ) → Type 0
  Ready [] lines = Unit {0}
  Ready (p ∷ predecessors) [] = ⊥
  Ready (p ∷ predecessors) (line_addrs ∷ lines) =
      ((x : List FifoCacheMemState) × (get_abs_mem_state m p ≡ some x)
        × Fits n x
        × ((x ≢ []) ⊎ (line_addrs ≢ [])))
      × Ready predecessors lines

  -- The cache `v` comes of a cache that the state of a predecessor allows by the predecessor's lines.
  abbrev pub Arrives : List ℕ → List ℕ → List (List ℕ) → Type 0
  Arrives v [] lines = ⊥
  Arrives v (p ∷ predecessors) [] = ⊥
  Arrives v (p ∷ predecessors) (line_addrs ∷ lines) =
      ((x : List FifoCacheMemState) × (u : List ℕ) × (get_abs_mem_state m p ≡ some x)
        × Allows (fifo sizes) [] u x
        × (v ≡ fifo_accesses n u line_addrs))
      ⊎ Arrives v predecessors lines

  join_states_lem :
      (predecessors : List ℕ) (lines : List (List ℕ))
      → Ready predecessors lines
      → (y : List FifoCacheMemState) × (join_states sizes n m predecessors lines ≡ some y)
        × Fits n y
        × (predecessors ≢ [] → y ≢ [])
        × ((v : List ℕ) → Has (fifo sizes) v y ↔ Arrives v predecessors lines)
  unfolding join_states
  join_states_lem [] lines r = ([], refl, tt, λ e. absurd (e refl), λ v. (λ e. e, λ e. e))
  join_states_lem (p ∷ predecessors) [] r = absurd r
  join_states_lem (p ∷ predecessors) (line_addrs ∷ lines) r =
      let x = r.0.0 in
      let (y, e, fits, some_state, image) = update_lines_lem sizes n x line_addrs r.0.2 in
      let (z, e', fits', _, arrive) = join_states_lem predecessors lines r.1 in
      let ne : y ≢ [] = some_state r.0.3 in
      (
        y ++ z,
        rw (r.0.1, e, e'),
        All-append _ y z fits fits',
        λ _. append_ne y z ne,
        λ v.
            let q = Allows-nonempty (fifo sizes) [] v y ne in
            (
              λ h. elim (AnyOf-unappend _ y z h) [
                | inl k ↦ let (u, a, w) = (image v).0 (q.1 k) in inl (x, u, r.0.1, a, w)
                | inr k ↦ inr ((arrive v).0 k)
              ],
              λ h.
                  AnyOf-append _ y z (back x y z v r.0.1 (λ k. q.0 ((image v).1 k)) (arrive v).1 h),
            ),
      )
    where
      append_ne : (y z : List FifoCacheMemState) → y ≢ [] → y ++ z ≢ []
      append_ne [] z h = absurd (h refl)
      append_ne (s ∷ y) z h = λ e. cc

      back :
          (x y z : List FifoCacheMemState) (v : List ℕ)
          → get_abs_mem_state m p ≡ some x
          → (((u : List ℕ) × Allows (fifo sizes) [] u x × (v ≡ fifo_accesses n u line_addrs))
              → Has (fifo sizes) v y)
          → (Arrives v predecessors lines → Has (fifo sizes) v z)
          → Arrives v (p ∷ predecessors) (line_addrs ∷ lines)
          → Has (fifo sizes) v y ⊎ Has (fifo sizes) v z
      back x y z v found f g (inl (x', u, found', a, w)) =
          let same : x' ≡ x = some_injective (sym found' ∙ found) in
          inl (f (u, subst (Allows (fifo sizes) [] u) same a, w))
      back x y z v found f g (inr h) = inr (g h)

  -- The join at a node that has no state fails no assertion, and the new state allows exactly the
  -- caches that arrive from the predecessors, of which there is at least one; none of them may have
  -- the blank state and load no line.
  pub join_exact :
      (predecessors : List ℕ) (lines : List (List ℕ)) (node : ℕ)
      → Ready predecessors lines
      → predecessors ≢ []
      → get_abs_mem_state m node ≡ none
      → (m' : Maintainer FifoCacheMemState) × (y : List FifoCacheMemState) × (join sizes n m
            predecessors lines node
          ≡ some m')
        × (get_abs_mem_state m' node ≡ some y)
        × ((k : ℕ) → k ≢ node → get_abs_mem_state m' k ≡ get_abs_mem_state m k)
        × Fits n y
        × ((v : List ℕ) → Allows (fifo sizes) [] v y ↔ Arrives v predecessors lines)
  unfolding join
  join_exact predecessors lines node r h fresh =
      let (z, e, fits, ne, arrive) = join_states_lem predecessors lines r in
      let (m', stored, now, kept, _) = store_lem (fifo sizes) sizes.vector m node z fresh in
      (
        m',
        remove_duplicates (fifo sizes) z,
        rw (e, stored),
        now,
        kept,
        remove_duplicates-All (fifo sizes) _ z fits,
        λ v.
            let d = Allows-remove_duplicates (fifo sizes) [] v z in
            let q = Allows-nonempty (fifo sizes) [] v z (ne h) in
            (λ k. (arrive v).0 (q.0 (d.1 k)), λ k. d.0 (q.1 ((arrive v).1 k))),
      )
