-- ===== src/ContextStack/Tests.antt =====
-- The context stack at concrete values.
use isptap.Prelude.{ℕ, ◌≡◌, ◌↔◌, refl, true, false, List, [], ◌∷◌}
use isptap.ContextStack.{push, top_at, top, depth, empty, pop, compare, compare_iff}

stack_runs :
    (top_at 1 (push 8 (push 4 [])) ≡ 4)
    × (top_at 2 (push 8 (push 4 [])) ≡ 0)
    × (pop [] ≡ (0, []))
    × (compare (8 ∷ 4 ∷ []) (8 ∷ 5 ∷ []) ≡ false)
unfolding push top_at depth pop compare
stack_runs = (refl, refl, refl, refl)

abbrev two : List ℕ
two = 8 ∷ 4 ∷ []

compare_iff_example :
    ((compare two two ≡ true) ↔ (two ≡ two))
    × (pop (push 2 two) ≡ (top (push 2 two), two))
    × (empty (push 2 two) ≡ false)
compare_iff_example = compare_iff two two 2
