-- ===== src/LruCache/Concrete.antt =====
-- The cache that the analysis is about: its lines, the most recently used first.
use isptap.Prelude.{
  ℕ, zero, suc, ◌≤◌, ◌<◌, ◌≡◌, refl, ap, ◌≢◌, ℕ_discrete, List, [], ◌∷◌, ltb, ◌==◌, if◌then◌else◌,
  arith, length, take,
}

unfoldable pub remove : ℕ → List ℕ → List ℕ
remove a [] = []
remove a (x ∷ c) = if a == x then c else x ∷ remove a c

-- an access to line `a` of a cache of `n` lines
unfoldable pub access : ℕ → ℕ → List ℕ → List ℕ
unfolding remove
access n a c = take n (a ∷ remove a c)

unfoldable pub accesses : ℕ → List ℕ → List ℕ → List ℕ
accesses n [] c = c
accesses n (a ∷ as') c = accesses n as' (access n a c)

-- the age of a line in a cache of `n` lines; `n` if the line is not in it
unfoldable pub age : ℕ → ℕ → List ℕ → ℕ
age zero a c = 0
age (suc n) a [] = suc n
age (suc n) a (x ∷ c) = if a == x then 0 else suc (age n a c)

pub age-le : (n a : ℕ) (c : List ℕ) → age n a c ≤ n
unfolding age
age-le zero a c = omega arith
age-le (suc n) a [] = omega arith
age-le (suc n) a (x ∷ c) = ground (arith, age-le n a c)

age-take : (n a : ℕ) (c : List ℕ) → age n a (take n c) ≡ age n a c
unfolding age
age-take zero a c = refl
age-take (suc n) a [] = refl
age-take (suc n) a (x ∷ c) = ap (λ k. if a == x then 0 else suc k) (age-take n a c)

pub length-access : (n a : ℕ) (c : List ℕ) → length (access n a c) ≤ n
unfolding access
length-access n a c = go n (a ∷ remove a c)
  where
    go : (n : ℕ) (l : List ℕ) → length (take n l) ≤ n
    go zero l = omega arith
    go (suc n) [] = omega arith
    go (suc n) (x ∷ l) = omega (arith, go n l)

pub age-access_self : (n a : ℕ) (c : List ℕ) → age n a (access n a c) ≡ 0
unfolding access age
age-access_self zero a c = refl
age-access_self (suc n) a c = ground arith

age-remove :
    (n a b : ℕ) (c : List ℕ)
    → b ≢ a
    → length c ≤ suc n
    → suc (age n b (remove a c))
      ≡ (if ltb (age (suc n) b c) (age (suc n) a c) then suc (age (suc n) b c) else age (suc n) b c)
unfolding age remove
age-remove zero a b [] h l = ground arith
age-remove (suc n) a b [] h l = ground arith
age-remove zero a b (x ∷ c) h l = ground arith
age-remove (suc n) a b (x ∷ c) h l = ground (arith, age-remove n a b c h)

-- An access makes the lines older that were younger than the accessed one, and no other.
pub age-access_ne :
    (n a b : ℕ) (c : List ℕ)
    → b ≢ a
    → length c ≤ n
    → age n b (access n a c) ≡ (if ltb (age n b c) (age n a c) then suc (age n b c) else age n b c)
unfolding access age
age-access_ne zero a b c h l = refl
age-access_ne (suc n) a b c h l = ground (arith, age-remove n a b c h l, age-take n b (remove a c))

pub age-access-le :
    (n a b : ℕ) (c : List ℕ) → length c ≤ n → age n b (access n a c) ≤ suc (age n b c)
age-access-le n a b c l = elim (ℕ_discrete b a) [
  | yes e ↦ rw e (omega (arith, age-access_self n a c))
  | no h ↦ ground (arith, age-access_ne n a b c h l)
]

-- Two lines of a cache have two ages.
pub age_injective : (n a b : ℕ) (c : List ℕ) → age n a c ≡ age n b c → age n a c < n → a ≡ b
unfolding age
age_injective zero a b c e h = absurd (omega arith)
age_injective (suc n) a b [] e h = absurd (omega arith)
age_injective (suc n) a b (x ∷ c) e h = ground (arith, age_injective n a b c)
