-- ===== src/AbsSet/Addresses.antt =====
-- The addresses of two sets as one vector, and the map from addresses to ages.
use isptap.Prelude.{
  ℕ, ◌≤◌, ◌≡◌, refl, ◌≢◌, true, false, ◌||◌, List, [], ◌∷◌, ◌++◌, Option, none, some, ◌==◌,
  if◌then◌else◌, arith, All, Bool-cases, inl, inr,
}
use isptap.AbsSet.{
  AbsMemEntry, is_in_set, has_addr, add_unique_mem_addrs_to_list, addrs_of_set,
  get_unique_mem_addrs_of_sets, AddrAgeMap, find, add_addr_and_age_to_map,
}
use isptap.AbsSet.Unique.{Unique, covers, is_in_set-covers}

abbrev pub Distinct : List ℕ → Type 0
Distinct [] = Unit {0}
Distinct (x ∷ xs) = (has_addr x xs ≡ false) × Distinct xs

has_addr-append :
    (a : ℕ) (xs ys : List ℕ) → has_addr a (xs ++ ys) ≡ (has_addr a xs || has_addr a ys)
unfolding has_addr
has_addr-append a [] ys = refl
has_addr-append a (x ∷ xs) ys = ground (arith, has_addr-append a xs ys)

Distinct-append :
    (xs : List ℕ) (y : ℕ) → Distinct xs → has_addr y xs ≡ false → Distinct (xs ++ y ∷ [])
unfolding has_addr
Distinct-append [] y d h = (refl, tt)
Distinct-append (x ∷ xs) y d h =
    (ground (arith, has_addr-append x xs (y ∷ [])), Distinct-append xs y d.1 (ground arith))

has_addr-addrs :
    (a : ℕ) (l : List AbsMemEntry)
    → has_addr a (addrs_of_set l) ≡ (if a == 0 then false else is_in_set a l)
unfolding addrs_of_set has_addr is_in_set
has_addr-addrs a [] = ground arith
has_addr-addrs a (e ∷ l) = ground (arith, has_addr-addrs a l)

addrs-Distinct : (l : List AbsMemEntry) → Unique l → Distinct (addrs_of_set l)
unfolding addrs_of_set
addrs-Distinct [] u = tt
addrs-Distinct (e ∷ l) u = ground (arith, addrs-Distinct l u.1, has_addr-addrs e.address l)

-- The list gets the addresses of the set, except 0.
pub has_addr-add_unique :
    (a : ℕ) (xs : List ℕ) (l : List AbsMemEntry)
    → has_addr a (add_unique_mem_addrs_to_list xs l)
      ≡ (has_addr a xs || (if a == 0 then false else is_in_set a l))
unfolding add_unique_mem_addrs_to_list has_addr is_in_set
has_addr-add_unique a xs [] = ground arith
has_addr-add_unique a xs (e ∷ l) = elim (Bool-cases (e.address == 0)) [
  | inl z ↦ rw z (ground (arith, has_addr-add_unique a xs l))
  | inr z ↦ rw z (elim (Bool-cases (has_addr e.address xs)) [
    | inl h ↦ rw h (ground (arith, has_addr-add_unique a xs l))
    | inr h ↦ rw h (
        ground (
          arith,
          has_addr-add_unique a (xs ++ e.address ∷ []) l,
          has_addr-append a xs (e.address ∷ []),
        ))
  ])
]

pub add_unique-Distinct :
    (xs : List ℕ) (l : List AbsMemEntry)
    → Distinct xs
    → Distinct (add_unique_mem_addrs_to_list xs l)
unfolding add_unique_mem_addrs_to_list
add_unique-Distinct xs [] d = d
add_unique-Distinct xs (e ∷ l) d = elim (Bool-cases (e.address == 0)) [
  | inl z ↦ rw z (add_unique-Distinct xs l d)
  | inr z ↦ rw z (elim (Bool-cases (has_addr e.address xs)) [
    | inl h ↦ rw h (add_unique-Distinct xs l d)
    | inr h ↦ rw h (add_unique-Distinct (xs ++ e.address ∷ []) l (Distinct-append xs e.address d h))
  ])
]

pub has_addr-get_unique :
    (a : ℕ) (set_a set_b : List AbsMemEntry)
    → has_addr a (get_unique_mem_addrs_of_sets set_a set_b)
      ≡ (if a == 0 then false else is_in_set a set_a || is_in_set a set_b)
unfolding get_unique_mem_addrs_of_sets
has_addr-get_unique a set_a set_b =
    ground (arith, has_addr-add_unique a (addrs_of_set set_a) set_b, has_addr-addrs a set_a)

-- The vector holds the addresses of both sets and no other, without the blank address 0, and holds
-- each once, where the addresses of the first set are distinct.
pub get_unique_lem :
    (set_a set_b : List AbsMemEntry)
    → Unique set_a
    → Distinct (get_unique_mem_addrs_of_sets set_a set_b)
      × ((a : ℕ)
          → has_addr a (get_unique_mem_addrs_of_sets set_a set_b)
            ≡ (if a == 0 then false else is_in_set a set_a || is_in_set a set_b))
unfolding get_unique_mem_addrs_of_sets
get_unique_lem set_a set_b u = (
  add_unique-Distinct (addrs_of_set set_a) set_b (addrs-Distinct set_a u),
  λ a. has_addr-get_unique a set_a set_b,
)

-- the age of an address in a set; none for the blank address 0
unfoldable pub age_in : ℕ → List AbsMemEntry → Option ℕ
age_in a [] = none
age_in a (e ∷ l) = if a == 0 then none else if a == e.address then some e.age else age_in a l

abbrev or_else : Option ℕ → Option ℕ → Option ℕ
or_else none o = o
or_else (some k) o = some k

age_in-none : (a : ℕ) (l : List AbsMemEntry) → is_in_set a l ≡ false → age_in a l ≡ none
unfolding age_in is_in_set
age_in-none a [] h = refl
age_in-none a (e ∷ l) h = ground (arith, age_in-none a l)

pub age_in-zero : (l : List AbsMemEntry) → age_in 0 l ≡ none
unfolding age_in
age_in-zero [] = refl
age_in-zero (e ∷ l) = refl

pub age_in_found :
    (a : ℕ) (l : List AbsMemEntry) → a ≢ 0 → is_in_set a l ≡ true → (k : ℕ) × (age_in a l ≡ some k)
unfolding age_in is_in_set
age_in_found a [] z h = absurd (ground arith)
age_in_found a (e ∷ l) z h = elim (Bool-cases (a == e.address)) [
  | inl q ↦ (e.age, ground arith)
  | inr q ↦ let (k, p) = age_in_found a l z (ground arith) in (k, ground arith)
]

pub age_in-All {κ} :
    (P : AbsMemEntry → Type κ) (a k : ℕ) (l : List AbsMemEntry)
    → All P l
    → age_in a l ≡ some k
    → P (record { address = a; age = k })
unfolding age_in
age_in-All P a k [] h e = absurd (ground arith)
age_in-All P a k (x ∷ l) h e = elim (Bool-cases (a == x.address)) [
  | inl q ↦
      let p : x.address ≡ a = ground arith in let r : x.age ≡ k = ground arith in rw (← p, ← r) h.0
  | inr q ↦ age_in-All P a k l h.1 (ground arith)
]

-- Where addresses are distinct, the age in the set is the least that covers the address.
pub age_in-le :
    (a j k : ℕ) (l : List AbsMemEntry)
    → Unique l
    → age_in a l ≡ some k
    → covers a j l ≡ true
    → k ≤ j
unfolding age_in covers
age_in-le a j k [] u e c = absurd (ground arith)
age_in-le a j k (x ∷ l) u e c = ground (arith, age_in-le a j k l u.1, is_in_set-covers a j l)

add_map-find :
    (m : AddrAgeMap) (l : List AbsMemEntry)
    → Unique l
    → ((b : ℕ) → is_in_set b l ≡ true → find b m ≡ none)
    → (m' : AddrAgeMap) × (add_addr_and_age_to_map m l ≡ some m')
      × ((b : ℕ) → find b m' ≡ or_else (age_in b l) (find b m))
unfolding add_addr_and_age_to_map find age_in is_in_set
add_map-find m [] u h = (m, refl, λ b. refl)
add_map-find m (e ∷ l) u h = elim (Bool-cases (e.address == 0)) [
  | inl z ↦
      let (m', p, f) = add_map-find m l u.1 (λ b q. h b (ground arith)) in
      (m', rw z p, λ b. ground (arith, f b, age_in-zero l))
  | inr z ↦
      let (m', p, f) = add_map-find ((e.address, e.age) ∷ m) l u.1 (λ b q. ground (arith, h b)) in
      (
        m',
        rw (z, h e.address (ground arith)) p,
        λ b. ground (arith, f b, age_in-none b l, age_in-zero l),
      )
]

-- A set of distinct addresses is written to an empty map with no failing assertion, and each
-- address finds its age.
pub add_map_lem :
    (l : List AbsMemEntry)
    → Unique l
    → (m : AddrAgeMap) × (add_addr_and_age_to_map [] l ≡ some m) × ((b : ℕ) → find b m ≡ age_in b l)
unfolding find
add_map_lem l u =
    let (m, e, f) = add_map-find [] l u (λ b h. refl) in (m, e, λ b. ground (arith, f b))
