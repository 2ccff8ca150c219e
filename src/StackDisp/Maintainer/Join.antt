-- ===== src/StackDisp/Maintainer/Join.antt =====
-- The join of the scratchpads of the predecessors, up to rotation.
use isptap.Prelude.{ℕ, ◌^◌, ◌≤◌, ◌≡◌, ◌≢◌, ◌↔◌, refl, List, [], ◌∷◌, some, none, All}
use isptap.Bf.{Maintainer, get_abs_mem_state}
use isptap.Bf.Sets.{Allows}
use isptap.FifoCache.Maintainer.{Sizes}
use isptap.Disp.{DispParams}
use isptap.Disp.Exact.{Does}
use isptap.Disp.Join.{Ready, Arrives, join_lem}
use isptap.StackDisp.{StackEntry, StackDispMemState}
use isptap.StackDisp.Normalize.{align_with_offset, normalize}
use isptap.StackDisp.Normalize.Rotation.{Inside, align_with_offset-Inside}
use isptap.StackDisp.Maintainer.{stack_disp, stack_policy, join}

-- A scratchpad that has loaded a function, with its entries in the memory.
abbrev pub Loaded : ℕ → StackDispMemState → Type 0
Loaded m s = (s.content ≢ []) × All (Inside m) s.content

-- The rotation that puts the first entry at the begin of the memory.
unfoldable pub normal_form : ℕ → List StackEntry → List StackEntry
normal_form m [] = []
normal_form m (e ∷ l) = align_with_offset m e.pos_begin (e ∷ l)

normalize-Does :
    (sizes : Sizes) (m : ℕ)
    → m ≤ 2 ^ 16
    → Does (stack_disp sizes) (Loaded m) (normalize m) (normal_form m)
unfolding normalize normal_form
normalize-Does sizes m small s ok = go s.content ok
  where
    go :
        (l : List StackEntry)
        → (l ≢ []) × All (Inside m) l
        → (t : StackDispMemState) × (normalize m (record { content = l }) ≡ some t)
          × Loaded m t
          × (t.content ≡ normal_form m l)
    go [] k = absurd (k.0 refl)
    go (e ∷ l) k =
        let w = align_with_offset-Inside m small e.pos_begin (e ∷ l) k.1.0.0 k.1 (λ q. cc) in
        (record { content = align_with_offset m e.pos_begin (e ∷ l) }, refl, (w.1, w.0), refl)

module _ (sizes : Sizes) (p : DispParams) (small : p.size ≤ 2 ^ 16) where
  -- The join at a node that has no state fails no assertion; the new state allows exactly the normal
  -- forms of the scratchpads that a predecessor's state allows, where each of these states has loaded
  -- scratchpads and there is at least one.
  pub stack_join_exact :
      (m : Maintainer StackDispMemState) (predecessors : List ℕ) (node : ℕ)
      → Ready (stack_disp sizes) (Loaded p.size) m predecessors
      → predecessors ≢ []
      → get_abs_mem_state m node ≡ none
      → (m' : Maintainer StackDispMemState) × (y : List StackDispMemState) × (join sizes p m
            predecessors node
          ≡ some m')
        × (get_abs_mem_state m' node ≡ some y)
        × ((k : ℕ) → k ≢ node → get_abs_mem_state m' k ≡ get_abs_mem_state m k)
        × All (Loaded p.size) y
        × ((v : List StackEntry)
            → Allows (stack_disp sizes) [] v y ↔ (
                (u : List StackEntry) × Arrives
                  (stack_disp sizes)
                  (Loaded p.size)
                  m
                  []
                  u
                  predecessors
                × (v ≡ normal_form p.size u)))
  unfolding join
  stack_join_exact m predecessors node r some_predecessor fresh =
      join_lem (stack_policy sizes p) (Loaded p.size) [] (normal_form p.size)
        (normalize-Does sizes p.size small) m predecessors node r some_predecessor fresh
