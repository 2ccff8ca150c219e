-- ===== src/Disp/Exact.antt =====
-- The brute force maintainers are exact where the concrete operations are those of the views.
use isptap.Prelude.{
  ℕ, ◌≡◌, refl, ◌≢◌, ◌↔◌, List, [], ◌∷◌, Option, some, none, All, inl, inr, sym, ◌∙◌, ap, length,
  arith,
}
use isptap.Bf.{ConcreteState, Maintainer, get_abs_mem_state, remove_duplicates}
use isptap.Bf.Sets.{Has, Allows, Allows-nonempty, Allows-remove_duplicates, remove_duplicates-All}
use isptap.Bf.Nodes.{store_lem}
use isptap.Disp.{Activation, each, update_state, finish, update, Policy}

module _ {S V : Type 0} (c : ConcreteState S V) (Ok : S → Type 0) where
  open c use {view}

  -- On states that are `Ok` the operation succeeds, does `g` to the view, and leaves a state that is
  -- `Ok`.
  abbrev pub Does : (S → Option S) → (V → V) → Type 0
  Does f g = (s : S) → Ok s → (t : S) × (f s ≡ some t) × Ok t × (view t ≡ g (view s))

  pub each_lem :
      (f : S → Option S) (g : V → V)
      → Does f g
      → (x : List S) → All Ok x
      → (y : List S) × (each f x ≡ some y)
        × All Ok y
        × (length y ≡ length x)
        × ((v : V) → Has c v y ↔ ((u : V) × Has c u x × (v ≡ g u)))
  unfolding each
  each_lem f g d [] h = ([], refl, tt, refl, λ v. (λ e. absurd e, λ e. absurd e.1))
  each_lem f g d (s ∷ x) h =
      let (t, e, ok, w) = d s h.0 in
      let (y, e', oks, len, image) = each_lem f g d x h.1 in
      (
        t ∷ y,
        rw (e, e'),
        (ok, oks),
        omega (arith, len),
        λ v. (
          elim [
            | inl p ↦ (view s, inl refl, sym p ∙ w)
            | inr p ↦ let (u, q, r) = (image v).0 p in (u, inr q, r)
          ],
          λ k. lift y t w v (image v).1 k.0 k.1 k.2,
        ),
      )
    where
      lift :
          (y : List S) (t : S)
          → view t ≡ g (view s)
          → (v : V) → (((u : V) × Has c u x × (v ≡ g u)) → Has c v y)
          → (u : V) → Has c u (s ∷ x)
          → v ≡ g u
          → Has c v (t ∷ y)
      lift y t w v f u (inl p) r = inl (w ∙ ap g p ∙ sym r)
      lift y t w v f u (inr p) r = inr (f (u, p, r))

  -- What the caches of `y` are, in the caches of `x`.
  abbrev pub Image : V → (V → V) → List S → List S → Type 0
  Image blank g x y = (v : V) → Allows c blank v y ↔ ((u : V) × Allows c blank u x × (v ≡ g u))

  update_state_lem :
      (start : S) (activate : S → ℕ → Activation → ℕ → Option S) (f : ℕ) (act : Activation)
      (prev : ℕ) (g : V → V)
      → Ok start
      → Does (λ s. activate s f act prev) g
      → (x : List S) → All Ok x
      → (y : List S) × (update_state start activate x f act prev ≡ some y)
        × All Ok y
        × (y ≢ [])
        × Image (view start) g x y
  unfolding update_state
  update_state_lem start activate f act prev g ok d [] h =
      let (t, e, ok', w) = d start ok in
      (
        t ∷ [],
        rw e,
        (ok', tt),
        λ q. cc,
        λ v. (
          elim [ inl p ↦ (view start, refl, sym p ∙ w) | inr p ↦ absurd p ],
          λ k. inl (w ∙ ap g (sym k.1) ∙ sym k.2),
        ),
      )
  update_state_lem start activate f act prev g ok d (s ∷ x) h =
      let (y, e, oks, len, image) = each_lem (λ t. activate t f act prev) g d (s ∷ x) h in
      let ne : y ≢ [] = λ q. absurd (omega (arith, len, ap length q)) in
      (
        y,
        e,
        oks,
        ne,
        λ v.
            let r = Allows-nonempty c (view start) v y ne in
            (λ k. (image v).0 (r.0 k), λ k. r.1 ((image v).1 k)),
      )

  -- The state of the node is that of `x` after `g` on each view.
  abbrev pub Stored : V → (V → V) → List S → Maintainer S → ℕ → Option (Maintainer S) → Type 0
  Stored blank g x m node result =
      (m' : Maintainer S) × (y : List S) × (result ≡ some m')
      × (get_abs_mem_state m' node ≡ some y)
      × ((k : ℕ) → k ≢ node → get_abs_mem_state m' k ≡ get_abs_mem_state m k)
      × All Ok y
      × Image blank g x y

  pub finish_lem :
      (prepare : S → Option S) (g : V → V) (vector : ℕ) (blank : V)
      → Does prepare g
      → (m : Maintainer S) (node : ℕ) (x : List S) → get_abs_mem_state m node ≡ none
      → x ≢ []
      → All Ok x
      → Stored blank g x m node (finish c prepare vector m node x)
  unfolding finish
  finish_lem prepare g vector blank d m node x fresh some_state h =
      let (y, e, oks, len, image) = each_lem prepare g d x h in
      let (m', stored, now, kept, _) = store_lem c vector m node y fresh in
      let ne : y ≢ [] = λ q. some_state (empty x (omega (arith, len, ap length q))) in
      (
        m',
        remove_duplicates c y,
        rw (e, stored),
        now,
        kept,
        remove_duplicates-All c Ok y oks,
        λ v.
            let r = Allows-remove_duplicates c blank v y in
            let r' = Allows-nonempty c blank v y ne in
            (
              λ k.
                  let (u, w, z) = (image v).0 (r'.0 (r.1 k)) in
                  (u, (Allows-nonempty c blank u x some_state).1 w, z),
              λ k.
                  r.0 (
                    r'.1
                      ((image v).1 (k.0, (Allows-nonempty c blank k.0 x some_state).0 k.1, k.2))),
            ),
      )
    where
      empty : (l : List S) → length l ≡ 0 → l ≡ []
      empty [] h = refl
      empty (s ∷ l) h = absurd (omega arith)

module _ {S V : Type 0} (q : Policy S V) (Ok : S → Type 0) where
  open q use {concrete, start, activate, prepare}

  -- From the state of the predecessor, `update` makes the state of a node that has none: the views
  -- of the new state are the old ones after the activation and what `removeDuplicates` does.
  pub update_lem :
      (f : ℕ) (act : Activation) (prev : ℕ) (g h : V → V)
      → Ok start
      → Does concrete Ok (λ s. activate s f act prev) (g)
      → Does concrete Ok prepare (h)
      → (m : Maintainer S) (predecessor node : ℕ) (x : List S)
      → get_abs_mem_state m predecessor ≡ some x
      → get_abs_mem_state m node ≡ none
      → All Ok x
      → Stored concrete Ok
          (concrete.view start)
          (λ v. h (g v))
          x
          m
          node
          (update q m predecessor node f act prev)
  unfolding update
  update_lem f act prev g h ok d d' m predecessor node x found fresh oks =
      let (y, e, oks', ne, image) =
        update_state_lem concrete Ok start activate f act prev (g) ok d x oks in
      let (m', z, e', now, kept, oks'', image') =
        finish_lem concrete Ok prepare (h) q.vector (concrete.view start) d' m node y fresh ne
          oks' in
      (
        m',
        z,
        rw (found, e, e'),
        now,
        kept,
        oks'',
        λ v. (
          λ k.
              let (u, w, r) = (image' v).0 k in
              let (t, w', r') = (image u).0 w in (t, w', r ∙ ap (h) r'),
          λ k. (image' v).1 (g k.0, (image (g k.0)).1 (k.0, k.1, refl), k.2),
        ),
      )
