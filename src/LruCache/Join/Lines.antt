-- ===== src/LruCache/Join/Lines.antt =====
-- The loops of the join: the lines of the joined must set and of the joined may set.
use isptap.Prelude.{
  ℕ, ◌≤◌, ◌≡◌, refl, ◌≢◌, true, false, List, [], ◌∷◌, Option, some, none, ltb, if◌then◌else◌, arith,
  All, Option-cases, inl, inr, ◌⊎◌, ◌∙◌,
}
use isptap.AbsSet.{AbsMemEntry, is_in_set, has_addr, AddrAgeMap, find}
use isptap.AbsSet.Unique.{Unique, covers}
use isptap.AbsSet.Addresses.{Distinct}
use isptap.LruCache.{must_line, may_line, joined_must, joined_may}

-- Every line of the joined must set has an age in both maps, and the greater one.
pub joined_must-All {κ} :
    (P : AbsMemEntry → Type κ) (ma mb : AddrAgeMap) (addrs : List ℕ)
    → ((a x y : ℕ)
        → find a ma ≡ some x
        → find a mb ≡ some y
        → P (record { address = a; age = if ltb y x then x else y }))
    → All P (joined_must ma mb addrs)
unfolding joined_must
joined_must-All P ma mb [] h = tt
joined_must-All P ma mb (a ∷ addrs) h = elim (Option-cases (find a ma)) [
  | inl p ↦ rw (p, must_line) (joined_must-All P ma mb addrs h)
  | inr (x, p) ↦ elim (Option-cases (find a mb)) [
    | inl q ↦ rw (p, q) (joined_must-All P ma mb addrs h)
    | inr (y, q) ↦ rw (p, q) (h a x y p q, joined_must-All P ma mb addrs h)
  ]
]

is_in_set-joined_must :
    (b : ℕ) (ma mb : AddrAgeMap) (addrs : List ℕ)
    → has_addr b addrs ≡ false
    → is_in_set b (joined_must ma mb addrs) ≡ false
unfolding joined_must is_in_set has_addr
is_in_set-joined_must b ma mb [] h = refl
is_in_set-joined_must b ma mb (a ∷ addrs) h = ground (arith, is_in_set-joined_must b ma mb addrs)

pub joined_must-Unique :
    (ma mb : AddrAgeMap) (addrs : List ℕ) → Distinct addrs → Unique (joined_must ma mb addrs)
unfolding joined_must
joined_must-Unique ma mb [] d = tt
joined_must-Unique ma mb (a ∷ addrs) d =
    ground (arith, joined_must-Unique ma mb addrs d.1, is_in_set-joined_must a ma mb addrs d.0)

-- The joined may set is made without a failing assertion; it holds the given addresses, each at an
-- age that is at most its age in either map.
pub record Union (ma mb : AddrAgeMap) (addrs : List ℕ) (l : List AbsMemEntry) : Type 0 where
  pub same : (b : ℕ) → is_in_set b l ≡ has_addr b addrs
  pub least :
      (b k : ℕ)
      → has_addr b addrs ≡ true
      → (find b ma ≡ some k) ⊎ (find b mb ≡ some k)
      → covers b k l ≡ true
  pub unique : Unique l

may_line_total :
    (a : ℕ) (o p : Option ℕ)
    → (o ≢ none) ⊎ (p ≢ none)
    → (k : ℕ) × (may_line a o p ≡ some (record { address = a; age = k }))
      × ((j : ℕ) → (o ≡ some j) ⊎ (p ≡ some j) → k ≤ j)
unfolding may_line
may_line_total a (some x) (some y) h = (if ltb y x then y else x, refl, λ j e. ground arith)
may_line_total a (some x) none h = (x, refl, λ j e. ground arith)
may_line_total a none (some y) h = (y, refl, λ j e. ground arith)
may_line_total a none none h = absurd (ground arith)

pub joined_may-Union :
    (ma mb : AddrAgeMap) (addrs : List ℕ)
    → Distinct addrs
    → ((b : ℕ) → has_addr b addrs ≡ true → (find b ma ≢ none) ⊎ (find b mb ≢ none))
    → (l : List AbsMemEntry) × (joined_may ma mb addrs ≡ some l) × Union ma mb addrs l
unfolding joined_may has_addr is_in_set covers
joined_may-Union ma mb [] d h =
    ([], refl, record { same = λ b. refl; least = λ b k p q. absurd (ground arith); unique = tt })
joined_may-Union ma mb (a ∷ addrs) d h =
    let (k, e, small) = may_line_total a (find a ma) (find a mb) (h a (ground arith)) in
    let (l, f, u) = joined_may-Union ma mb addrs d.1 (λ b p. h b (ground arith)) in
    (
      record { address = a; age = k } ∷ l,
      rw (e, f),
      record {
        same = λ b. ground (arith, u.same b);
        least = λ b j p q. ground (arith, u.least b j, small j);
        unique = (u.same a ∙ d.0, u.unique);
      },
    )
