-- ===== src/Bf/Sets.antt =====
-- Which memories an abstract state allows, and what the questions to it mean.
use isptap.Prelude.{
  ℕ, suc, zero, ◌≤◌, ◌≡◌, refl, ◌↔◌, true, false, not, List, [], ◌∷◌, arith, length, AnyOf, All,
  Bool-cases, inl, inr, ◌∙◌, sym, ◌≢◌,
}
use isptap.Bf.{
  ConcreteState, erase_same, dedup, remove_duplicates, all_in, is_in_all_sets, is_in_any_set,
  is_in_no_set,
}

module _ {S V : Type 0} (c : ConcreteState S V) where
  open c use {view, same, same_iff, holds, is_in_state, is_in_state_lem}

  -- The vector has a state of view `v`.
  abbrev pub Has : V → List S → Type 0
  Has v = AnyOf (λ s. view s ≡ v)

  Has-erase : (v : V) (a : S) (x : List S) → Has v (a ∷ x) → Has v (a ∷ erase_same c a x)
  unfolding erase_same
  Has-erase v a x (inl h) = inl h
  Has-erase v a [] (inr h) = inr h
  Has-erase v a (b ∷ x) (inr (inl h)) = elim (Bool-cases (same a b)) [
    | inl e ↦ inl ((same_iff a b).0 e ∙ h)
    | inr n ↦ rw n (inr (inl h))
  ]
  Has-erase v a (b ∷ x) (inr (inr h)) = elim (Bool-cases (same a b)) [
    | inl e ↦ rw e (Has-erase v a x (inr h))
    | inr n ↦ rw n (skip (Has-erase v a x (inr h)))
  ]
    where
      skip : Has v (a ∷ erase_same c a x) → Has v (a ∷ b ∷ erase_same c a x)
      skip (inl h) = inl h
      skip (inr h) = inr (inr h)

  Has-unerase : (v : V) (a : S) (x : List S) → Has v (erase_same c a x) → Has v x
  unfolding erase_same
  Has-unerase v a [] h = h
  Has-unerase v a (b ∷ x) h = elim (Bool-cases (same a b)) [
    | inl e ↦ inr (Has-unerase v a x (rw e at h))
    | inr n ↦ split (Has-unerase v a x) (rw n at h)
  ]
    where
      split : (Has v (erase_same c a x) → Has v x) → Has v (b ∷ erase_same c a x) → Has v (b ∷ x)
      split f (inl k) = inl k
      split f (inr k) = inr (f k)

  Has-dedup : (v : V) (n : ℕ) (x : List S) → Has v x ↔ Has v (dedup c n x)
  unfolding dedup
  Has-dedup v zero x = (λ h. h, λ h. h)
  Has-dedup v (suc n) [] = (λ h. h, λ h. h)
  Has-dedup v (suc n) (a ∷ x) = (
    λ h. forth (Has-dedup v n (erase_same c a x)).0 (Has-erase v a x h),
    back (Has-dedup v n (erase_same c a x)).1,
  )
    where
      forth :
          (Has v (erase_same c a x) → Has v (dedup c n (erase_same c a x)))
          → Has v (a ∷ erase_same c a x)
          → Has v (a ∷ dedup c n (erase_same c a x))
      forth f (inl h) = inl h
      forth f (inr h) = inr (f h)

      back :
          (Has v (dedup c n (erase_same c a x)) → Has v (erase_same c a x))
          → Has v (a ∷ dedup c n (erase_same c a x))
          → Has v (a ∷ x)
      back f (inl h) = inl h
      back f (inr h) = inr (Has-unerase v a x (f h))

  -- No two states of the vector compare equal.
  abbrev pub NoTwins : List S → Type 0
  NoTwins [] = Unit {0}
  NoTwins (a ∷ x) = All (λ b. same a b ≡ false) x × NoTwins x

  erase-All : (P : S → Type 0) (a : S) (x : List S) → All P x → All P (erase_same c a x)
  unfolding erase_same
  erase-All P a [] h = tt
  erase-All P a (b ∷ x) h = elim (Bool-cases (same a b)) [
    | inl e ↦ rw e (erase-All P a x h.1)
    | inr n ↦ rw n (h.0, erase-All P a x h.1)
  ]

  dedup-All : (P : S → Type 0) (n : ℕ) (x : List S) → All P x → All P (dedup c n x)
  unfolding dedup
  dedup-All P zero x h = h
  dedup-All P (suc n) [] h = h
  dedup-All P (suc n) (a ∷ x) h = (h.0, dedup-All P n (erase_same c a x) (erase-All P a x h.1))

  erased : (a : S) (x : List S) → All (λ b. same a b ≡ false) (erase_same c a x)
  unfolding erase_same
  erased a [] = tt
  erased a (b ∷ x) = elim (Bool-cases (same a b)) [
    | inl e ↦ rw e (erased a x)
    | inr n ↦ rw n (n, erased a x)
  ]

  length-erase-le : (a : S) (x : List S) → length (erase_same c a x) ≤ length x
  unfolding erase_same
  length-erase-le a [] = omega arith
  length-erase-le a (b ∷ x) = ground (arith, length-erase-le a x)

  dedup-NoTwins : (n : ℕ) (x : List S) → length x ≤ n → NoTwins (dedup c n x)
  unfolding dedup
  dedup-NoTwins zero [] h = tt
  dedup-NoTwins zero (a ∷ x) h = absurd (omega arith)
  dedup-NoTwins (suc n) [] h = tt
  dedup-NoTwins (suc n) (a ∷ x) h = (
    dedup-All _ n (erase_same c a x) (erased a x),
    dedup-NoTwins n (erase_same c a x) (omega (arith, length-erase-le a x)),
  )

  -- `removeDuplicates` leaves no two equal states, and a state of each view that there was and of
  -- no other.
  pub remove_duplicates_lem :
      (x : List S)
      → NoTwins (remove_duplicates c x) × ((v : V) → Has v x ↔ Has v (remove_duplicates c x))
  unfolding remove_duplicates
  remove_duplicates_lem x =
      (dedup-NoTwins (length x) x (omega arith), λ v. Has-dedup v (length x) x)

  pub remove_duplicates-All :
      (P : S → Type 0) (x : List S) → All P x → All P (remove_duplicates c x)
  unfolding remove_duplicates
  remove_duplicates-All P x h = dedup-All P (length x) x h

  -- The memory of view `v` is possible in the abstract state; `blank` is the memory before the
  -- first access.
  abbrev pub Allows : V → V → List S → Type 0
  Allows blank v [] = v ≡ blank
  Allows blank v (s ∷ x) = Has v (s ∷ x)

  pub Allows-nonempty : (blank v : V) (x : List S) → x ≢ [] → Allows blank v x ↔ Has v x
  Allows-nonempty blank v [] h = absurd (h refl)
  Allows-nonempty blank v (s ∷ x) h = (λ e. e, λ e. e)

  pub remove_duplicates-ne-nil : (x : List S) → x ≢ [] → remove_duplicates c x ≢ []
  unfolding remove_duplicates dedup
  remove_duplicates-ne-nil [] h = h
  remove_duplicates-ne-nil (s ∷ x) h = λ e. cc

  -- The abstract state of a node allows the same memories with and without its duplicates.
  pub Allows-remove_duplicates :
      (blank v : V) (x : List S) → Allows blank v x ↔ Allows blank v (remove_duplicates c x)
  unfolding remove_duplicates dedup
  Allows-remove_duplicates blank v [] = (λ e. e, λ e. e)
  Allows-remove_duplicates blank v (s ∷ x) = (remove_duplicates_lem (s ∷ x)).1 v

  all_in_iff : (a : ℕ) (x : List S) → (all_in c a x ≡ true) ↔ ((v : V) → Has v x → holds a v ≡ true)
  unfolding all_in
  all_in_iff a [] = (λ e v. elim [ ], λ h. refl)
  all_in_iff a (s ∷ x) = (forth (all_in_iff a x).0, back (all_in_iff a x).1)
    where
      forth :
          (all_in c a x ≡ true → (v : V) → Has v x → holds a v ≡ true)
          → all_in c a (s ∷ x) ≡ true
          → (v : V) → Has v (s ∷ x)
          → holds a v ≡ true
      forth f e v (inl h) = rw (← h) (sym (is_in_state_lem a s) ∙ ground arith)
      forth f e v (inr h) = f (ground arith) v h

      back :
          (((v : V) → Has v x → holds a v ≡ true) → all_in c a x ≡ true)
          → ((v : V) → Has v (s ∷ x) → holds a v ≡ true)
          → all_in c a (s ∷ x) ≡ true
      back f h = rw (is_in_state_lem a s, h (view s) (inl refl)) (f (λ v k. h v (inr k)))

  -- The must question is answered `true` exactly where each possible memory holds the address.
  pub is_in_all_sets_iff :
      (blank : V) (a : ℕ) (x : List S)
      → holds a blank ≡ false
      → (is_in_all_sets c a x ≡ true) ↔ ((v : V) → Allows blank v x → holds a v ≡ true)
  unfolding is_in_all_sets
  is_in_all_sets_iff blank a [] e = (λ h v k. cc, λ h. cc (h blank refl))
  is_in_all_sets_iff blank a (s ∷ x) e = all_in_iff a (s ∷ x)

  no_set_iff :
      (a : ℕ) (x : List S) → (is_in_no_set c a x ≡ true) ↔ ((v : V) → Has v x → holds a v ≡ false)
  unfolding is_in_no_set
  no_set_iff a [] = (λ e v. elim [ ], λ h. refl)
  no_set_iff a (s ∷ x) = (forth (no_set_iff a x).0, back (no_set_iff a x).1)
    where
      forth :
          (is_in_no_set c a x ≡ true → (v : V) → Has v x → holds a v ≡ false)
          → is_in_no_set c a (s ∷ x) ≡ true
          → (v : V) → Has v (s ∷ x)
          → holds a v ≡ false
      forth f e v (inl h) = rw (← h) (sym (is_in_state_lem a s) ∙ ground arith)
      forth f e v (inr h) = f (ground arith) v h

      back :
          (((v : V) → Has v x → holds a v ≡ false) → is_in_no_set c a x ≡ true)
          → ((v : V) → Has v (s ∷ x) → holds a v ≡ false)
          → is_in_no_set c a (s ∷ x) ≡ true
      back f h = rw (is_in_state_lem a s, h (view s) (inl refl)) (f (λ v k. h v (inr k)))

  -- The answer that an address is in no set is `true` exactly where no possible memory holds it, and
  -- the may question is its negation.
  pub is_in_no_set_iff :
      (blank : V) (a : ℕ) (x : List S)
      → holds a blank ≡ false
      → ((is_in_no_set c a x ≡ true) ↔ ((v : V) → Allows blank v x → holds a v ≡ false))
        × (is_in_any_set c a x ≡ not (is_in_no_set c a x))
  unfolding is_in_no_set is_in_any_set
  is_in_no_set_iff blank a [] e = ((λ h v k. rw k e, λ h. refl), refl)
  is_in_no_set_iff blank a (s ∷ x) e = (no_set_iff a (s ∷ x), negated (s ∷ x))
    where
      negated : (y : List S) → is_in_any_set c a y ≡ not (is_in_no_set c a y)
      negated [] = refl
      negated (t ∷ y) = ground (arith, negated y)
