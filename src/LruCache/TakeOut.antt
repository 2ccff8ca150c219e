-- ===== src/LruCache/TakeOut.antt =====
-- What the loop of `moveAddrToFront` takes out of a set, and what it leaves.
use isptap.Prelude.{
  ℕ, ◌≤◌, ◌≡◌, refl, ◌≢◌, true, false, List, [], ◌∷◌, some, ◌==◌, arith, All, Bool-cases, inl, inr,
}
use isptap.AbsSet.{AbsMemEntry, is_in_set}
use isptap.AbsSet.Unique.{Unique, covers, is_in_set-covers}
use isptap.LruCache.{take_out}

-- The first entry of address `a`, of age `k`, goes.
pub data TakesOut (a k : ℕ) : List AbsMemEntry → List AbsMemEntry → Type 0 where
  here :
      (e : AbsMemEntry) (l : List AbsMemEntry) → e.address ≡ a → e.age ≡ k → TakesOut a k (e ∷ l) l
  there :
      (e : AbsMemEntry) {l rest : List AbsMemEntry}
      → e.address ≢ a
      → TakesOut a k l rest
      → TakesOut a k (e ∷ l) (e ∷ rest)

-- It finds each address of the set.
pub take_out-TakesOut :
    (a : ℕ) (l : List AbsMemEntry)
    → is_in_set a l ≡ true
    → (k : ℕ) × (rest : List AbsMemEntry) × (take_out a l ≡ some (k, rest)) × TakesOut a k l rest
unfolding is_in_set take_out
take_out-TakesOut a [] h = absurd (ground arith)
take_out-TakesOut a (e ∷ l) h = elim (Bool-cases (e.address == a)) [
  | inl eq ↦ (e.age, l, rw eq, here e l (ground arith) refl)
  | inr ne ↦
      let (k, rest, found, t) = take_out-TakesOut a l (ground arith) in
      (k, e ∷ rest, rw (ne, found), there e (ground arith) t)
]

pub TakesOut-All {κ} :
    (P : AbsMemEntry → Type κ) {a k : ℕ} {l rest : List AbsMemEntry}
    → TakesOut a k l rest
    → All P l
    → P (record { address = a; age = k }) × All P rest
TakesOut-All P (here e l p q) h = (rw (← p, ← q) h.0, h.1)
TakesOut-All P (there e p t) h = let (x, y) = TakesOut-All P t h.1 in (x, (h.0, y))

pub is_in_set-TakesOut :
    (b : ℕ) {a k : ℕ} {l rest : List AbsMemEntry}
    → TakesOut a k l rest
    → is_in_set b l ≡ false
    → is_in_set b rest ≡ false
unfolding is_in_set
is_in_set-TakesOut b (here e l p q) h = ground arith
is_in_set-TakesOut b (there e p t) h = ground (arith, is_in_set-TakesOut b t)

pub TakesOut-Unique :
    {a k : ℕ} {l rest : List AbsMemEntry}
    → TakesOut a k l rest
    → Unique l
    → Unique rest × (is_in_set a rest ≡ false)
unfolding is_in_set
TakesOut-Unique (here e l p q) u = (u.1, rw (← p) u.0)
TakesOut-Unique (there e p t) u =
    let (v, h) = TakesOut-Unique t u.1 in ((is_in_set-TakesOut e.address t u.0, v), ground arith)

-- The other entries stay.
pub covers-TakesOut_ne :
    (b j : ℕ) {a k : ℕ} {l rest : List AbsMemEntry}
    → TakesOut a k l rest
    → b ≢ a
    → covers b j rest ≡ covers b j l
unfolding covers
covers-TakesOut_ne b j (here e l p q) h = ground arith
covers-TakesOut_ne b j (there e p t) h = ground (arith, covers-TakesOut_ne b j t h)

-- Where addresses are distinct, the age that is taken out is the only one of its address.
pub TakesOut-le :
    (j : ℕ) {a k : ℕ} {l rest : List AbsMemEntry}
    → TakesOut a k l rest
    → Unique l
    → covers a j l ≡ true
    → k ≤ j
unfolding covers
TakesOut-le j {a} (here e l p q) u c = ground (arith, is_in_set-covers a j l)
TakesOut-le j (there e p t) u c = ground (arith, TakesOut-le j t u.1)
