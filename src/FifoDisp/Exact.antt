-- ===== src/FifoDisp/Exact.antt =====
-- The brute force analysis of the scratchpad: update, join and the answers are exact.
use isptap.Prelude.{
  ℕ, ◌≡◌, refl, ◌≢◌, ◌↔◌, true, false, List, [], some, none, arith, All, sym, ap, some_injective,
}
use isptap.Bf.{Maintainer, get_abs_mem_state}
use isptap.Bf.Sets.{Allows, is_in_all_sets_iff, is_in_no_set_iff}
use isptap.FifoCache.{in_content}
use isptap.Disp.{Activation, DispParams, is_in_all, is_in_none}
use isptap.FifoCache.Maintainer.{Sizes}
use mathlib.Core.Path.{subst}
use isptap.Disp.Join.{Ready, Arrives, join_lem}
use isptap.Disp.Exact.{Does, Stored, update_lem}
use isptap.FifoDisp.{FifoDispMemState}
use isptap.FifoDisp.Maintainer.{fifo_disp, fifo_policy, update, join}
use isptap.FifoDisp.Policy.{fifo_activate, Fits, Sound, activate_function-eq-policy}
use isptap.FifoDisp.Sizes.{total}

module _ (sizes : Sizes) (p : DispParams) where
  keep : Does (fifo_disp sizes) (Fits p) (λ s. some s) (λ l. l)
  keep s ok = (s, refl, ok, refl)

  start-Fits : Fits p (record { content = [] })
  unfolding total
  start-Fits = record { known = tt; mapped = omega arith; sized = omega arith }

  -- The update of the scratchpads that fit, by a function that can be loaded or is ignored, makes the
  -- state of a node that has none: it fails no assertion and the new state allows exactly the
  -- scratchpads that the policy leaves of those that the predecessor's state allows; the other nodes
  -- keep their states.
  pub scratchpad_update_exact :
      (m : Maintainer FifoDispMemState) (predecessor node f : ℕ) (act : Activation) (prev : ℕ)
      (x : List FifoDispMemState)
      → Sound p f
      → get_abs_mem_state m predecessor ≡ some x
      → get_abs_mem_state m node ≡ none
      → All (Fits p) x
      → Stored
          (fifo_disp sizes)
          (Fits p)
          []
          (fifo_activate p f)
          x
          m
          node
          (update sizes p m predecessor node f act prev)
  unfolding update
  scratchpad_update_exact m predecessor node f act prev x g found fresh ok =
      update_lem (fifo_policy sizes p) (Fits p) f act prev (fifo_activate p f) (λ l. l) start-Fits
        (λ s h.
          let (t, e, w, ok') = activate_function-eq-policy p s f act prev h g in (t, e, ok', w))
        keep m predecessor node x found fresh ok

  -- The join at a node that has no state fails no assertion; the new state allows exactly the
  -- scratchpads that a predecessor's state allows, where each of them has a state other than the blank
  -- one and there is at least one.
  pub scratchpad_join_exact :
      (m : Maintainer FifoDispMemState) (predecessors : List ℕ) (node : ℕ)
      → Ready (fifo_disp sizes) (Fits p) m predecessors
      → predecessors ≢ []
      → get_abs_mem_state m node ≡ none
      → (m' : Maintainer FifoDispMemState) × (y : List FifoDispMemState) × (join sizes p m
            predecessors node
          ≡ some m')
        × (get_abs_mem_state m' node ≡ some y)
        × ((k : ℕ) → k ≢ node → get_abs_mem_state m' k ≡ get_abs_mem_state m k)
        × All (Fits p) y
        × ((v : List ℕ)
            → Allows (fifo_disp sizes) [] v y
              ↔ Arrives (fifo_disp sizes) (Fits p) m [] v predecessors)
  unfolding join
  scratchpad_join_exact m predecessors node r some_predecessor fresh =
      let (m', y, e, now, kept, ok, image) =
        join_lem (fifo_policy sizes p) (Fits p) [] (λ l. l) keep m predecessors node r
          some_predecessor fresh in
      (
        m',
        y,
        e,
        now,
        kept,
        ok,
        λ v. (
          λ k.
              let (u, w, z) = (image v).0 k in
              subst (λ t. Arrives (fifo_disp sizes) (Fits p) m [] t predecessors) (sym z) w,
          λ k. (image v).1 (v, k, refl),
        ),
      )

  -- A function is in all scratchpads of a node, by `isInAllSets`, exactly where each scratchpad that the
  -- state allows has loaded it, and in none of them, by `isInNoSet`, exactly where none has.
  pub scratchpad_answers_exact :
      (m : Maintainer FifoDispMemState) (f node : ℕ) (x : List FifoDispMemState)
      → get_abs_mem_state m node ≡ some x
      → ((is_in_all (fifo_disp sizes) m f node ≡ some true)
          ↔ ((v : List ℕ) → Allows (fifo_disp sizes) [] v x → in_content f v ≡ true))
        × ((is_in_none (fifo_disp sizes) m f node ≡ some true)
            ↔ ((v : List ℕ) → Allows (fifo_disp sizes) [] v x → in_content f v ≡ false))
  unfolding is_in_all is_in_none in_content
  scratchpad_answers_exact m f node x found =
      let must_iff = is_in_all_sets_iff (fifo_disp sizes) [] f x refl in
      let none_iff = (is_in_no_set_iff (fifo_disp sizes) [] f x refl).0 in
      (
        (λ h. must_iff.0 (some_injective (rw found at h)), λ h. rw found (ap some (must_iff.1 h))),
        (λ h. none_iff.0 (some_injective (rw found at h)), λ h. rw found (ap some (none_iff.1 h))),
      )
