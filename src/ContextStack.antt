-- ===== src/ContextStack.antt =====
-- src/graph/context_stack.cpp: the stack of call sites by which virtual unrolling tells contexts apart.
-- The back of the vector, which is the top of the stack, is the first element of the list.
use isptap.Prelude.{
  ℕ, zero, suc, ◌+◌, ◌-◌, ◌<◌, ◌≤◌, ◌≡◌, ◌≢◌, ◌↔◌, refl, Bool, true, false, not, List, [], ◌∷◌, leb,
  ltb, ◌==◌, if◌then◌else◌, length, arith, ap,
}
mod Tests

unfoldable pub push : ℕ → List ℕ → List ℕ
push new_top stack = new_top ∷ stack

-- `stack[stack.size() - 1 - position]`
unfoldable pub get_elem : ℕ → List ℕ → ℕ
get_elem i [] = 0
get_elem zero (x ∷ stack) = x
get_elem (suc i) (x ∷ stack) = get_elem i stack

-- A position that is not in the stack has 0.
unfoldable pub top_at : ℕ → List ℕ → ℕ
unfolding get_elem
top_at position stack = if leb (length stack) position then 0 else get_elem position stack

unfoldable pub top : List ℕ → ℕ
unfolding top_at
top stack = top_at 0 stack

unfoldable pub depth : List ℕ → ℕ
depth stack = length stack

unfoldable pub empty : List ℕ → Bool
unfolding depth
empty stack = if not (depth stack == 0) then false else true

-- The value that is returned, and the stack that is left.
unfoldable pub pop : List ℕ → ℕ × List ℕ
pop [] = (0, [])
pop (x ∷ stack) = (x, stack)

-- the loop of `compare` over `n` positions from `i` on
unfoldable pub compare_from : ℕ → ℕ → List ℕ → List ℕ → Bool
unfolding top_at
compare_from zero i a b = true
compare_from (suc n) i a b =
    if not (top_at i a == top_at i b) then false else compare_from n (suc i) a b

unfoldable pub compare : List ℕ → List ℕ → Bool
unfolding depth compare_from
compare a b = if depth a == depth b then compare_from (depth a) 0 a b else false

top_at-cons : (x i : ℕ) (a : List ℕ) → top_at (suc i) (x ∷ a) ≡ top_at i a
unfolding top_at
top_at-cons x i a = ground arith

compare_from-cons :
    (n i x y : ℕ) (a b : List ℕ) → compare_from n (suc i) (x ∷ a) (y ∷ b) ≡ compare_from n i a b
unfolding compare_from
compare_from-cons zero i x y a b = refl
compare_from-cons (suc n) i x y a b =
    rw (top_at-cons x i a, top_at-cons y i b)
      (ap (λ r. if not (top_at i a == top_at i b) then false else r)
        (compare_from-cons n (suc i) x y a b))

same_depth_iff :
    (a b : List ℕ) → length a ≡ length b → (compare_from (length a) 0 a b ≡ true) ↔ (a ≡ b)
unfolding compare_from top_at
same_depth_iff [] [] h = (λ e. refl, λ e. refl)
same_depth_iff [] (y ∷ b) h = absurd (omega arith)
same_depth_iff (x ∷ a) [] h = absurd (omega arith)
same_depth_iff (x ∷ a) (y ∷ b) h =
    let r = same_depth_iff a b (omega arith) in
    let c = compare_from-cons (length a) 0 x y a b in
    (λ e. ground (arith, c, r.0), λ e. ground (arith, c, r.1))

-- Two stacks compare equal exactly where they are equal, and a push is undone by a pop: the stack that
-- is left is the old one, the value is the one that was pushed and that was on top.
pub compare_iff :
    (a b : List ℕ) (x : ℕ)
    → ((compare a b ≡ true) ↔ (a ≡ b))
      × (pop (push x a) ≡ (top (push x a), a))
      × (empty (push x a) ≡ false)
unfolding compare depth pop push top top_at empty
compare_iff a b x = (
  (
    λ e. let l : length a ≡ length b = ground arith in (same_depth_iff a b l).0 (ground arith),
    λ e. let l : length a ≡ length b = ap length e in ground (arith, l, (same_depth_iff a b l).1 e),
  ),
  ground arith,
  ground arith,
)
