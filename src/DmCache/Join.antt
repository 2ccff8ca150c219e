-- ===== src/DmCache/Join.antt =====
-- The join of two abstract states of a direct mapped cache.
use isptap.Prelude.{
  ℕ, ◌≡◌, refl, ◌≢◌, true, false, ◌||◌, ◌&&◌, List, [], ◌∷◌, ◌++◌, some, ◌==◌, if◌then◌else◌, arith,
  All, All-append, Bool-cases, inl, inr, ◌⊎◌, ◌∙◌, ℕ_discrete,
}
use mathlib.Core.Path.{subst}
use isptap.AbsSet.{
  sort_mem_set_by_position, AbsMemEntry, AbsMemSet, is_in_set, has_addr,
  get_unique_mem_addrs_of_sets,
}
use isptap.AbsSet.Unique.{is_in_set-covers, is_in_set-append}
use isptap.AbsSet.Sort.{is_in_set-sort, All-sort}
use isptap.AbsSet.Addresses.{has_addr-get_unique}
use isptap.DmCache.{CacheParams, line_index, add_addr_to_mem_set, joined_must, joined_may, join_two}
use isptap.DmCache.Update.{covers-Placed, Cache, Holds, Placed, Describes, Holds-line}

module _ (p : CacheParams) where
  insert-All {κ} :
      (P : AbsMemEntry → Type κ) (a : ℕ) (l : List AbsMemEntry)
      → All P l
      → P (record { address = a; age = line_index p a })
      → All P (add_addr_to_mem_set p a l false).0
  unfolding add_addr_to_mem_set
  insert-All P a l h q = elim (Bool-cases (is_in_set a l)) [
    | inl r ↦ rw r h
    | inr r ↦ rw r (All-sort P (l ++ _) (All-append P l _ h (q, tt)))
  ]

  present :
      (b a : ℕ) (l : List AbsMemEntry)
      → is_in_set a l ≡ true
      → is_in_set b l ≡ (is_in_set b l || (b == a))
  present b a l r = elim (ℕ_discrete b a) [ yes e ↦ rw (e, r) | no n ↦ ground arith ]

  is_in_set-insert :
      (b a : ℕ) (l : List AbsMemEntry)
      → is_in_set b (add_addr_to_mem_set p a l false).0 ≡ (is_in_set b l || (b == a))
  unfolding add_addr_to_mem_set is_in_set
  is_in_set-insert b a l = elim (Bool-cases (is_in_set a l)) [
    | inl r ↦ rw r (present b a l r)
    | inr r ↦ rw r (is_in_set-sort b (l ++ _) ∙ is_in_set-append b l _ ∙ ground arith)
  ]

  joined_must-All {κ} :
      (P : AbsMemEntry → Type κ) (a b : List AbsMemEntry) (addrs : List ℕ) (new : List AbsMemEntry)
      → ((x : ℕ)
          → is_in_set x a ≡ true
          → is_in_set x b ≡ true
          → P (record { address = x; age = line_index p x }))
      → All P new
      → All P (joined_must p a b addrs new)
  unfolding joined_must
  joined_must-All P a b [] new h n = n
  joined_must-All P a b (x ∷ addrs) new h n = elim (Bool-cases (is_in_set x a && is_in_set x b)) [
    | inl r ↦
        rw r (
          joined_must-All P a b addrs _ h
            (insert-All P x new n (h x (ground arith) (ground arith))))
    | inr r ↦ rw r (joined_must-All P a b addrs new h n)
  ]

  joined_may-Placed :
      (addrs : List ℕ) (new : List AbsMemEntry)
      → All (Placed p) new
      → All (Placed p) (joined_may p addrs new)
  unfolding joined_may
  joined_may-Placed [] new n = n
  joined_may-Placed (x ∷ addrs) new n =
      joined_may-Placed addrs _ (insert-All (Placed p) x new n refl)

  is_in_set-joined_may :
      (b : ℕ) (addrs : List ℕ) (new : List AbsMemEntry)
      → is_in_set b (joined_may p addrs new) ≡ (is_in_set b new || has_addr b addrs)
  unfolding joined_may has_addr
  is_in_set-joined_may b [] new = ground arith
  is_in_set-joined_may b (x ∷ addrs) new =
      is_in_set-joined_may b addrs (add_addr_to_mem_set p x new false).0
      ∙ ground (arith, is_in_set-insert b x new)

  -- The join of two states describes each cache that one of them describes, if line 0 is not cached.
  pub join_two-Describes :
      (a b : AbsMemSet) (c : Cache)
      → c (line_index p 0) ≢ some 0
      → Describes p c a ⊎ Describes p c b
      → Describes p c (join_two p a b)
  unfolding join_two is_in_set
  join_two-Describes a b c z d = record {
    must_ok =
        All-sort _ (joined_must p a.must_set b.must_set _ [])
          (joined_must-All (Holds p c) a.must_set b.must_set _ [] (held d) tt);
    may_ok = λ x q.
        covers-Placed p x
          (sort_mem_set_by_position
            (joined_may p (get_unique_mem_addrs_of_sets a.may_set b.may_set) []))
          (All-sort _ (joined_may p _ [])
            (joined_may-Placed (get_unique_mem_addrs_of_sets a.may_set b.may_set) [] tt))
          (is_in_set-sort x (joined_may p (get_unique_mem_addrs_of_sets a.may_set b.may_set) [])
            ∙ is_in_set-joined_may x (get_unique_mem_addrs_of_sets a.may_set b.may_set) []
            ∙ has_addr-get_unique x a.may_set b.may_set
            ∙ cover x q d);
    may_placed =
        All-sort _ (joined_may p _ [])
          (joined_may-Placed (get_unique_mem_addrs_of_sets a.may_set b.may_set) [] tt);
  }
    where
      held :
          Describes p c a ⊎ Describes p c b
          → (x : ℕ) → is_in_set x a.must_set ≡ true
          → is_in_set x b.must_set ≡ true
          → Holds p c (record { address = x; age = line_index p x })
      held (inl s) x h k = (Holds-line p x c a.must_set s.must_ok h, refl)
      held (inr s) x h k = (Holds-line p x c b.must_set s.must_ok k, refl)

      nonzero : (x : ℕ) → c (line_index p x) ≡ some x → x ≢ 0
      nonzero x q o = z (subst (λ y. c (line_index p y) ≡ some y) o q)

      cover :
          (x : ℕ)
          → c (line_index p x) ≡ some x
          → Describes p c a ⊎ Describes p c b
          → (if x == 0 then false else is_in_set x a.may_set || is_in_set x b.may_set) ≡ true
      cover x q (inl s) =
          ground (arith, is_in_set-covers x (line_index p x) a.may_set (s.may_ok x q), nonzero x q)
      cover x q (inr s) =
          ground (arith, is_in_set-covers x (line_index p x) b.may_set (s.may_ok x q), nonzero x q)
