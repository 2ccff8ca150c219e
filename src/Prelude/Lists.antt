-- ===== src/Prelude/Lists.antt =====
-- Lists measured and indexed by native numbers, under the library's names.
use Prim.Native.Nat.{ℕ, zero, suc, ◌+◌}
use mathlib.Core.Path.{◌≡◌, refl, ap}
use mathlib.Core.Logic.{◌⊎◌, inl, inr}
use mathlib.Core.List.{List, [], ◌∷◌, ◌++◌, reverse, reverse-cons}
use native.Mathlib.Omega.{arith}

module _ {ℓ} {A : Type ℓ} where
  abbrev pub length : List A → ℕ
  length [] = 0
  length (x ∷ xs) = suc (length xs)

  abbrev pub take : ℕ → List A → List A
  take zero xs = []
  take (suc n) [] = []
  take (suc n) (x ∷ xs) = x ∷ take n xs

  pub length-append : (xs ys : List A) → length (xs ++ ys) ≡ length xs + length ys
  length-append [] ys = omega arith
  length-append (x ∷ xs) ys = omega (arith, length-append xs ys)

-- A predicate that holds of every element, by recursion.
abbrev pub All {ℓ κ} : {A : Type ℓ} → (A → Type κ) → List A → Type κ
All P [] = Unit
All P (x ∷ xs) = P x × All P xs

module _ {ℓ κ} {A : Type ℓ} (P : A → Type κ) where
  pub All-append : (xs ys : List A) → All P xs → All P ys → All P (xs ++ ys)
  All-append [] ys hx hy = hy
  All-append (x ∷ xs) ys hx hy = (hx.0, All-append xs ys hx.1 hy)

-- A predicate that holds of some element.
abbrev pub AnyOf {ℓ} : {A : Type ℓ} → (A → Type 0) → List A → Type 0
AnyOf P [] = ⊥
AnyOf P (x ∷ xs) = P x ⊎ AnyOf P xs

module _ {ℓ} {A : Type ℓ} where
  pub length-reverse : (l : List A) → length (reverse l) ≡ length l
  length-reverse [] = refl
  length-reverse (x ∷ l) =
      omega
        (arith, ap length (reverse-cons x l), length-append (reverse l) (x ∷ []), length-reverse l)

  pub All-reverse {κ} : (P : A → Type κ) (l : List A) → All P l → All P (reverse l)
  All-reverse P [] h = tt
  All-reverse P (x ∷ l) h =
      rw (reverse-cons x l) (All-append P (reverse l) (x ∷ []) (All-reverse P l h.1) (h.0, tt))

  pub AnyOf-append : (P : A → Type 0) (l m : List A) → AnyOf P l ⊎ AnyOf P m → AnyOf P (l ++ m)
  AnyOf-append P [] m (inl h) = absurd h
  AnyOf-append P [] m (inr h) = h
  AnyOf-append P (x ∷ l) m (inl (inl h)) = inl h
  AnyOf-append P (x ∷ l) m (inl (inr h)) = inr (AnyOf-append P l m (inl h))
  AnyOf-append P (x ∷ l) m (inr h) = inr (AnyOf-append P l m (inr h))

  pub AnyOf-reverse : (P : A → Type 0) (l : List A) → AnyOf P l → AnyOf P (reverse l)
  AnyOf-reverse P [] h = h
  AnyOf-reverse P (x ∷ l) (inl h) =
      rw (reverse-cons x l) (AnyOf-append P (reverse l) (x ∷ []) (inr (inl h)))
  AnyOf-reverse P (x ∷ l) (inr h) =
      rw (reverse-cons x l) (AnyOf-append P (reverse l) (x ∷ []) (inl (AnyOf-reverse P l h)))

  pub AnyOf_only : (P : A → Type 0) (x : A) → AnyOf P (x ∷ []) → P x
  AnyOf_only P x (inl h) = h
  AnyOf_only P x (inr h) = absurd h

  pub AnyOf-unappend : (P : A → Type 0) (l m : List A) → AnyOf P (l ++ m) → AnyOf P l ⊎ AnyOf P m
  AnyOf-unappend P [] m h = inr h
  AnyOf-unappend P (x ∷ l) m (inl h) = inl (inl h)
  AnyOf-unappend P (x ∷ l) m (inr h) = elim (AnyOf-unappend P l m h) [
    | inl k ↦ inl (inr k)
    | inr k ↦ inr k
  ]
