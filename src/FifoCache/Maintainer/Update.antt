-- ===== src/FifoCache/Maintainer/Update.antt =====
-- The update of an abstract state is exact: it allows the caches that the block leaves, and no other.
use isptap.Prelude.{
  ℕ, ◌≤◌, ◌≡◌, refl, ◌≢◌, ◌↔◌, ◌⊎◌, true, false, List, [], ◌∷◌, some, none, arith, All, length, inl,
  inr, ◌∙◌, ap, sym, some_injective, ◌>>◌, check, ◌==◌,
}
use mathlib.Core.Path.{subst}
use isptap.Bf.{Maintainer, get_abs_mem_state, remove_duplicates}
use isptap.Bf.Sets.{
  Has, Allows, is_in_all_sets_iff, is_in_no_set_iff, Allows-nonempty, Allows-remove_duplicates,
  remove_duplicates-All,
}
use isptap.Bf.Nodes.{store_lem}
use isptap.FifoCache.{FifoCacheMemState, in_content, access_address}
use isptap.FifoCache.Concrete.{fifo_access, access_address-eq-fifo, length-fifo_access-le}
use isptap.FifoCache.Maintainer.{
  Sizes, fifo, access_all, update_state, update_lines, update, is_in_must, is_in_none,
}

-- what a cache of `n` lines holds after some accesses
unfoldable pub fifo_accesses : ℕ → List ℕ → List ℕ → List ℕ
fifo_accesses n l [] = l
fifo_accesses n l (a ∷ line_addrs) = fifo_accesses n (fifo_access n l a) line_addrs

-- The states are those of caches of `n` lines, none of which holds more.
abbrev pub Fits : ℕ → List FifoCacheMemState → Type 0
Fits n = All (λ s. (s.max_lines ≡ n) × (length s.content ≤ n))

check_same : (k : ℕ) (m : Maintainer FifoCacheMemState) → (check (k == k) >> some m) ≡ some m
check_same k m = ground arith

module _ (sizes : Sizes) (n : ℕ) where
  -- The caches that `y` allows are those that come of `x` by `f`.
  abbrev pub Image : (List ℕ → List ℕ) → List FifoCacheMemState → List FifoCacheMemState → Type 0
  Image f x y =
      (v : List ℕ)
      → Allows (fifo sizes) [] v y ↔ ((u : List ℕ) × Allows (fifo sizes) [] u x × (v ≡ f u))

  access_fits :
      (s : FifoCacheMemState) (a : ℕ)
      → s.max_lines ≡ n
      → length s.content ≤ n
      → access_address s a ≡ some (record s { content = fifo_access n s.content a })
  access_fits s a e h =
      rw (access_address-eq-fifo s a (rw e h))
        (ap (λ k. some (record s { content = fifo_access k s.content a })) e)

  access_all_lem :
      (x : List FifoCacheMemState) (a : ℕ)
      → Fits n x
      → (y : List FifoCacheMemState) × (access_all x a ≡ some y)
        × Fits n y
        × (length y ≡ length x)
        × ((v : List ℕ)
            → Has (fifo sizes) v y
              ↔ ((u : List ℕ) × Has (fifo sizes) u x × (v ≡ fifo_access n u a)))
  unfolding access_all
  access_all_lem [] a h = ([], refl, tt, refl, λ v. (λ e. absurd e, λ e. absurd e.1))
  access_all_lem (s ∷ x) a h =
      let (y, e, fits, len, image) = access_all_lem x a h.1 in
      let s' : FifoCacheMemState = record s { content = fifo_access n s.content a } in
      (
        s' ∷ y,
        rw (access_fits s a h.0.0 h.0.1, e),
        ((h.0.0, length-fifo_access-le n s.content a h.0.1), fits),
        omega (arith, len),
        λ v. (
          elim [
            | inl p ↦ (s.content, inl refl, sym p)
            | inr p ↦ let (u, q, r) = (image v).0 p in (u, inr q, r)
          ],
          λ w. back y s' (image v).1 refl w.0 w.1 w.2,
        ),
      )
    where
      back :
          (y : List FifoCacheMemState) (s' : FifoCacheMemState) {v : List ℕ}
          → (((u : List ℕ) × Has (fifo sizes) u x × (v ≡ fifo_access n u a)) → Has (fifo sizes) v y)
          → s'.content ≡ fifo_access n s.content a
          → (u : List ℕ) → Has (fifo sizes) u (s ∷ x)
          → v ≡ fifo_access n u a
          → Has (fifo sizes) v (s' ∷ y)
      back y s' f e u (inl p) r = inl (e ∙ ap (λ l. fifo_access n l a) p ∙ sym r)
      back y s' f e u (inr p) r = inr (f (u, p, r))

  pub update_state_lem :
      (x : List FifoCacheMemState) (a : ℕ)
      → Fits n x
      → (y : List FifoCacheMemState) × (update_state n x a ≡ some y)
        × Fits n y
        × (y ≢ [])
        × Image (λ u. fifo_access n u a) x y
  unfolding update_state
  update_state_lem [] a h =
      let s : FifoCacheMemState = record { max_lines = n; content = fifo_access n [] a } in
      (
        s ∷ [],
        rw (access_fits (record { max_lines = n; content = [] }) a refl (omega arith)),
        ((refl, length-fifo_access-le n [] a (omega arith)), tt),
        λ e. cc,
        λ v. (
          elim [ inl p ↦ ([], refl, sym p) | inr p ↦ absurd p ],
          λ w. inl (ap (λ l. fifo_access n l a) (sym w.1) ∙ sym w.2),
        ),
      )
  update_state_lem (s ∷ x) a h =
      let (y, e, fits, len, image) = access_all_lem (s ∷ x) a h in
      let some_state : y ≢ [] = λ q. absurd (omega (arith, len, ap length q)) in
      (
        y,
        e,
        fits,
        some_state,
        λ v.
            let r = Allows-nonempty (fifo sizes) [] v y some_state in
            (λ k. (image v).0 (r.0 k), λ k. r.1 ((image v).1 k)),
      )

  pub update_lines_lem :
      (x : List FifoCacheMemState) (line_addrs : List ℕ)
      → Fits n x
      → (y : List FifoCacheMemState) × (update_lines n x line_addrs ≡ some y)
        × Fits n y
        × ((x ≢ []) ⊎ (line_addrs ≢ []) → y ≢ [])
        × Image (λ u. fifo_accesses n u line_addrs) x y
  unfolding update_lines fifo_accesses
  update_lines_lem x [] h = (
    x,
    refl,
    h,
    elim [ inl p ↦ p | inr p ↦ absurd (p refl) ],
    λ v. (λ k. (v, k, refl), λ w. subst (λ u. Allows (fifo sizes) [] u x) (sym w.2) w.1),
  )
  update_lines_lem x (a ∷ line_addrs) h =
      let (y, e, fits, some_state, image) = update_state_lem x a h in
      let (z, e', fits', some_state', image') = update_lines_lem y line_addrs fits in
      (
        z,
        rw e e',
        fits',
        λ p. some_state' (inl some_state),
        λ v. (
          λ k.
              let (u, q, r) = (image' v).0 k in
              let (t, q', r') = (image u).0 q in
              (t, q', r ∙ ap (λ l. fifo_accesses n l line_addrs) r'),
          λ w.
              (image' v).1
                (fifo_access n w.0 a, (image (fifo_access n w.0 a)).1 (w.0, w.1, refl), w.2),
        ),
      )

  -- From the state of the predecessor, which is that of caches of `n` lines, `update` makes the state
  -- of a node that has none: no assertion fails, the new state allows exactly the caches that the
  -- lines of the block leave of those that the predecessor's allows, and no other node's state
  -- changes.
  pub update_exact :
      (m : Maintainer FifoCacheMemState) (predecessor node : ℕ) (line_addrs : List ℕ)
      (x : List FifoCacheMemState)
      → get_abs_mem_state m predecessor ≡ some x
      → get_abs_mem_state m node ≡ none
      → Fits n x
      → (m' : Maintainer FifoCacheMemState) × (y : List FifoCacheMemState) × (update sizes n m
            predecessor node line_addrs
          ≡ some m')
        × (get_abs_mem_state m' node ≡ some y)
        × ((k : ℕ) → k ≢ node → get_abs_mem_state m' k ≡ get_abs_mem_state m k)
        × Fits n y
        × Image (λ u. fifo_accesses n u line_addrs) x y
  unfolding update
  update_exact m predecessor node line_addrs x found fresh fits =
      let (z, e, fits', _, image) = update_lines_lem x line_addrs fits in
      let (m', stored, now, kept, _) = store_lem (fifo sizes) sizes.vector m node z fresh in
      let other : predecessor ≢ node = λ q. cc (sym found ∙ ap (get_abs_mem_state m) q ∙ fresh) in
      let old : get_abs_mem_state m' predecessor ≡ some x = kept predecessor other ∙ found in
      (
        m',
        remove_duplicates (fifo sizes) z,
        rw (found, e, stored, old) (check_same (length x) m'),
        now,
        kept,
        remove_duplicates-All (fifo sizes) _ z fits',
        λ v.
            let r = Allows-remove_duplicates (fifo sizes) [] v z in
            (λ k. (image v).0 (r.1 k), λ k. r.0 ((image v).1 k)),
      )

  -- The answers after the lines `prev_addrs`: an address is in the must set exactly where it is in
  -- each cache that these lines leave, and in no set exactly where it is in none of them.
  pub classification_exact :
      (m : Maintainer FifoCacheMemState) (prev_addrs : List ℕ) (a node : ℕ)
      (x : List FifoCacheMemState)
      → get_abs_mem_state m node ≡ some x
      → Fits n x
      → ((is_in_must sizes n m prev_addrs a node ≡ some true) ↔ (
          (u : List ℕ)
          → Allows (fifo sizes) [] u x
          → in_content a (fifo_accesses n u prev_addrs) ≡ true))
        × ((is_in_none sizes n m prev_addrs a node ≡ some true) ↔ (
            (u : List ℕ)
            → Allows (fifo sizes) [] u x
            → in_content a (fifo_accesses n u prev_addrs) ≡ false))
  unfolding is_in_must is_in_none in_content
  classification_exact m prev_addrs a node x found fits =
      let (y, e, _, _, image) = update_lines_lem x prev_addrs fits in
      let must_iff = is_in_all_sets_iff (fifo sizes) [] a y refl in
      let none_iff = (is_in_no_set_iff (fifo sizes) [] a y refl).0 in
      (
        (
          λ h u p.
              must_iff.0 (some_injective (rw (found, e) at h)) (fifo_accesses n u prev_addrs)
                ((image _).1 (u, p, refl)),
          λ h.
              rw (found, e)
                (ap some (must_iff.1 (λ v k. let (u, p, q) = (image v).0 k in rw q (h u p)))),
        ),
        (
          λ h u p.
              none_iff.0 (some_injective (rw (found, e) at h)) (fifo_accesses n u prev_addrs)
                ((image _).1 (u, p, refl)),
          λ h.
              rw (found, e)
                (ap some (none_iff.1 (λ v k. let (u, p, q) = (image v).0 k in rw q (h u p)))),
        ),
      )
