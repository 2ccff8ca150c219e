-- ===== src/AbsSet/Sort.antt =====
-- The sort of abstract memory sets keeps the entries and orders them.
use isptap.Prelude.{
  ℕ, ◌≡◌, refl, true, false, List, [], ◌∷◌, ◌∙◌, ◌==◌, if◌then◌else◌, arith, All, ap, Bool-cases,
  inl, inr,
}
use isptap.AbsSet.{AbsMemEntry, is_in_set, sort_by_age, insert_by_age, sort_mem_set_by_age}
use isptap.AbsSet.Unique.{Unique, covers}

is_in_set-insert :
    (a : ℕ) (e : AbsMemEntry) (l : List AbsMemEntry)
    → is_in_set a (insert_by_age e l) ≡ is_in_set a (e ∷ l)
unfolding insert_by_age is_in_set
is_in_set-insert a e [] = refl
is_in_set-insert a e (x ∷ l) = ground (arith, is_in_set-insert a e l)

-- Sorting keeps the addresses of a set.
pub is_in_set-sort :
    (a : ℕ) (l : List AbsMemEntry) → is_in_set a (sort_mem_set_by_age l) ≡ is_in_set a l
unfolding sort_mem_set_by_age is_in_set
is_in_set-sort a [] = refl
is_in_set-sort a (e ∷ l) =
    is_in_set-insert a e (sort_mem_set_by_age l)
    ∙ ap (λ b. if a == e.address then true else b) (is_in_set-sort a l)

covers-insert :
    (a k : ℕ) (e : AbsMemEntry) (l : List AbsMemEntry)
    → covers a k (insert_by_age e l) ≡ covers a k (e ∷ l)
unfolding insert_by_age covers
covers-insert a k e [] = refl
covers-insert a k e (x ∷ l) = ground (arith, covers-insert a k e l)

pub covers-sort :
    (a k : ℕ) (l : List AbsMemEntry) → covers a k (sort_mem_set_by_age l) ≡ covers a k l
unfolding sort_mem_set_by_age covers
covers-sort a k [] = refl
covers-sort a k (e ∷ l) =
    ground (arith, covers-insert a k e (sort_mem_set_by_age l), covers-sort a k l)

module _ {κ} (P : AbsMemEntry → Type κ) where
  All-insert : (e : AbsMemEntry) (l : List AbsMemEntry) → P e → All P l → All P (insert_by_age e l)
  unfolding insert_by_age
  All-insert e [] p h = (p, tt)
  All-insert e (x ∷ l) p h =
      elim (sort_by_age x e) as (λ b. All P (if b then x ∷ insert_by_age e l else e ∷ x ∷ l)) [
        | true ↦ (h.0, All-insert e l p h.1)
        | false ↦ (p, h)
      ]

  pub All-sort : (l : List AbsMemEntry) → All P l → All P (sort_mem_set_by_age l)
  unfolding sort_mem_set_by_age
  All-sort [] h = h
  All-sort (e ∷ l) h = All-insert e (sort_mem_set_by_age l) h.0 (All-sort l h.1)

Unique-insert :
    (e : AbsMemEntry) (l : List AbsMemEntry)
    → Unique l
    → is_in_set e.address l ≡ false
    → Unique (insert_by_age e l)
unfolding insert_by_age is_in_set
Unique-insert e [] u h = (refl, tt)
Unique-insert e (x ∷ l) u h = ground (arith, is_in_set-insert x.address e l, Unique-insert e l u.1)

pub Unique-sort : (l : List AbsMemEntry) → Unique l → Unique (sort_mem_set_by_age l)
unfolding sort_mem_set_by_age
Unique-sort [] u = u
Unique-sort (e ∷ l) u =
    Unique-insert e (sort_mem_set_by_age l) (Unique-sort l u.1) (is_in_set-sort e.address l ∙ u.0)

-- the order of the sort: no entry comes before an older one of a smaller address
abbrev pub Sorted : List AbsMemEntry → Type 0
Sorted [] = Unit {0}
Sorted (e ∷ l) = All (λ x. sort_by_age x e ≡ false) l × Sorted l

sort_by_age_trans :
    (a b c : AbsMemEntry)
    → sort_by_age b a ≡ false
    → sort_by_age c b ≡ false
    → sort_by_age c a ≡ false
unfolding sort_by_age
sort_by_age_trans a b c p q = ground arith

sort_by_age_asym : (a b : AbsMemEntry) → sort_by_age a b ≡ true → sort_by_age b a ≡ false
unfolding sort_by_age
sort_by_age_asym a b h = ground arith

All-after :
    (a b : AbsMemEntry) (l : List AbsMemEntry)
    → sort_by_age b a ≡ false
    → All (λ x. sort_by_age x b ≡ false) l
    → All (λ x. sort_by_age x a ≡ false) l
All-after a b [] p h = tt
All-after a b (x ∷ l) p h = (sort_by_age_trans a b x p h.0, All-after a b l p h.1)

insert-Sorted : (e : AbsMemEntry) (l : List AbsMemEntry) → Sorted l → Sorted (insert_by_age e l)
unfolding insert_by_age
insert-Sorted e [] s = (tt, tt)
insert-Sorted e (x ∷ l) s = elim (Bool-cases (sort_by_age x e)) [
  | inl h ↦ rw h (
    All-insert (λ y. sort_by_age y x ≡ false) e l (sort_by_age_asym x e h) s.0,
    insert-Sorted e l s.1,
  )
  | inr h ↦ rw h ((h, All-after e x l h s.0), s)
]

pub sort-Sorted : (l : List AbsMemEntry) → Sorted (sort_mem_set_by_age l)
unfolding sort_mem_set_by_age
sort-Sorted [] = tt
sort-Sorted (e ∷ l) = insert-Sorted e (sort_mem_set_by_age l) (sort-Sorted l)
