-- ===== src/AbsSet/Unique.antt =====
-- Sets in which each address stands once, sets whose ages stay below a bound, and the question
-- whether a set holds an address at an age of at most `k`.
use isptap.Prelude.{
  ℕ, ◌≤◌, ◌<◌, ◌≡◌, refl, Bool, true, false, List, [], ◌∷◌, ◌++◌, leb, ◌==◌, if◌then◌else◌, arith,
  All, ◌&&◌, ◌||◌,
}
use isptap.AbsSet.{AbsMemEntry, is_in_set}

abbrev pub Unique : List AbsMemEntry → Type 0
Unique [] = Unit {0}
Unique (e ∷ l) = (is_in_set e.address l ≡ false) × Unique l

abbrev pub Below : ℕ → List AbsMemEntry → Type 0
Below n = All (λ e. e.age < n)

-- does the set hold address `a` at an age of at most `k`?
unfoldable pub covers : ℕ → ℕ → List AbsMemEntry → Bool
covers a k [] = false
covers a k (e ∷ l) = if (a == e.address) && leb e.age k then true else covers a k l

pub is_in_set-append :
    (a : ℕ) (l m : List AbsMemEntry) → is_in_set a (l ++ m) ≡ (is_in_set a l || is_in_set a m)
unfolding is_in_set
is_in_set-append a [] m = refl
is_in_set-append a (e ∷ l) m = ground (arith, is_in_set-append a l m)

pub covers-append :
    (a k : ℕ) (l m : List AbsMemEntry) → covers a k (l ++ m) ≡ (covers a k l || covers a k m)
unfolding covers
covers-append a k [] m = refl
covers-append a k (e ∷ l) m = ground (arith, covers-append a k l m)

-- What a set covers stands in it.
pub is_in_set-covers : (a k : ℕ) (l : List AbsMemEntry) → covers a k l ≡ true → is_in_set a l ≡ true
unfolding covers is_in_set
is_in_set-covers a k [] h = h
is_in_set-covers a k (e ∷ l) h = ground (arith, is_in_set-covers a k l)

pub covers_mono :
    (a j k : ℕ) (l : List AbsMemEntry) → j ≤ k → covers a j l ≡ true → covers a k l ≡ true
unfolding covers
covers_mono a j k [] h c = c
covers_mono a j k (e ∷ l) h c = ground (arith, covers_mono a j k l h)

-- A fresh entry at the end of a set keeps its addresses distinct.
pub Unique-append :
    (l : List AbsMemEntry) (e : AbsMemEntry)
    → Unique l
    → is_in_set e.address l ≡ false
    → Unique (l ++ e ∷ [])
unfolding is_in_set
Unique-append [] e u h = (refl, tt)
Unique-append (x ∷ l) e u h =
    (ground (arith, is_in_set-append x.address l (e ∷ [])), Unique-append l e u.1 (ground arith))
