-- ===== src/FifoCache/Concrete.antt =====
-- The concrete FIFO cache against its policy: a miss puts the line before the others and drops the
-- one that was loaded first, a hit changes nothing.
use isptap.Prelude.{
  ℕ, zero, suc, ◌≤◌, ◌<◌, ◌≡◌, refl, ◌↔◌, true, List, [], ◌∷◌, some, ltb, if◌then◌else◌, arith,
  length, take, ap, Bool-cases, inl, inr, ◌∙◌,
}
use isptap.FifoCache.{
  FifoCacheMemState, in_content, is_in_state, pop_back, access_address, same_entries, same_state,
}

-- The policy: what a cache of `n` lines holds after an access.
unfoldable pub fifo_access : ℕ → List ℕ → ℕ → List ℕ
fifo_access n l a = if in_content a l then l else take n (a ∷ l)

pub pop_back-take : {A : Type 0} (x : A) (l : List A) → pop_back (x ∷ l) ≡ take (length l) (x ∷ l)
unfolding pop_back
pop_back-take x [] = refl
pop_back-take x (y ∷ l) = ap (◌∷◌ x) (pop_back-take y l)

pub take_all : {A : Type 0} (n : ℕ) (l : List A) → length l ≤ n → take n l ≡ l
take_all zero [] h = refl
take_all zero (x ∷ l) h = absurd (omega arith)
take_all (suc n) [] h = refl
take_all (suc n) (x ∷ l) h = ap (◌∷◌ x) (take_all n l (omega arith))

pub length-pop_back : {A : Type 0} (x : A) (l : List A) → length (pop_back (x ∷ l)) ≡ length l
unfolding pop_back
length-pop_back x [] = refl
length-pop_back x (y ∷ l) = ap suc (length-pop_back y l)

pub length-take-le : {A : Type 0} (n : ℕ) (l : List A) → length (take n l) ≤ n
length-take-le zero l = omega arith
length-take-le (suc n) [] = omega arith
length-take-le (suc n) (x ∷ l) = omega (arith, length-take-le n l)

-- On a state that fits its cache, `accessAddress` fails no assertion and does what the policy says.
pub access_address-eq-fifo :
    (s : FifoCacheMemState) (a : ℕ)
    → length s.content ≤ s.max_lines
    → access_address s a ≡ some (record s { content = fifo_access s.max_lines s.content a })
unfolding access_address fifo_access is_in_state
access_address-eq-fifo s a h = elim (Bool-cases (in_content a s.content)) [
  | inl hit ↦ rw hit
  | inr miss ↦ rw miss (elim (Bool-cases (ltb s.max_lines (suc (length s.content)))) [
    | inl full ↦
        let e : length s.content ≡ s.max_lines = ground arith in
        ground (
          arith,
          length-pop_back a s.content,
          pop_back-take a s.content ∙ ap (λ n. take n (a ∷ s.content)) e,
        )
    | inr room ↦ ground (arith, take_all s.max_lines (a ∷ s.content))
  ])
]

pub length-fifo_access-le :
    (n : ℕ) (l : List ℕ) (a : ℕ) → length l ≤ n → length (fifo_access n l a) ≤ n
unfolding fifo_access
length-fifo_access-le n l a h = ground (arith, length-take-le n (a ∷ l))

-- The accessed line is in a cache of at least one line afterwards.
pub in_content-fifo_access :
    (n : ℕ) (l : List ℕ) (a : ℕ) → 0 < n → in_content a (fifo_access n l a) ≡ true
unfolding fifo_access in_content
in_content-fifo_access zero l a h = absurd (omega arith)
in_content-fifo_access (suc n) l a h = ground arith

pub same_entries_iff : (l m : List ℕ) → length l ≡ length m → (same_entries l m ≡ true) ↔ (l ≡ m)
unfolding same_entries
same_entries_iff [] [] h = (λ e. refl, λ e. refl)
same_entries_iff [] (y ∷ m) h = absurd (omega arith)
same_entries_iff (x ∷ l) [] h = absurd (omega arith)
same_entries_iff (x ∷ l) (y ∷ m) h =
    let f = same_entries_iff l m (omega arith) in
    (λ e. ground (arith, f.0), λ e. ground (arith, f.1))

-- `operator==` is equality of the contents.
pub same_state_iff : (a b : FifoCacheMemState) → (same_state a b ≡ true) ↔ (a.content ≡ b.content)
unfolding same_state
same_state_iff a b = (
  λ e.
      let l : length a.content ≡ length b.content = ground arith in
      (same_entries_iff a.content b.content l).0 (ground arith),
  λ e.
      let l : length a.content ≡ length b.content = ap length e in
      ground (arith, l, (same_entries_iff a.content b.content l).1 e),
)

pub is_in_state_lem : (a : ℕ) (s : FifoCacheMemState) → is_in_state a s ≡ in_content a s.content
unfolding is_in_state
is_in_state_lem a s = refl
