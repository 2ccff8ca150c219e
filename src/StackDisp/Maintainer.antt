-- ===== src/StackDisp/Maintainer.antt =====
-- src/memory/stack_bf_disp_state_maintainer.cpp
use isptap.Prelude.{
  ℕ, ◌≡◌, ◌≢◌, refl, ◌↔◌, Bool, true, false, List, [], ◌∷◌, Option, none, some, ◌==◌, ◌&&◌, arith,
  length, ap,
}
use isptap.Bf.{ConcreteState, Maintainer}
use isptap.FifoCache.Maintainer.{Sizes}
use isptap.Disp.{Activation, DispParams, Policy}
use isptap.Disp
use isptap.StackDisp.{StackEntry, StackDispMemState, in_entries, is_in_state, activate_function}
use isptap.StackDisp.Normalize.{
  normalize, same_entries, same_state, get_allocated_size, get_number_of_maintained_references,
}
pub mod Join

entry_eq :
    (x y : StackEntry)
    → x.address ≡ y.address
    → x.pos_begin ≡ y.pos_begin
    → x.pos_end ≡ y.pos_end
    → x ≡ y
entry_eq x y p q r = λ i. record { address = p i; pos_begin = q i; pos_end = r i }

same_entries_sound : (l m : List StackEntry) → length l ≡ length m → same_entries l m ≡ true → l ≡ m
unfolding same_entries
same_entries_sound [] [] h e = refl
same_entries_sound [] (y ∷ m) h e = absurd (omega arith)
same_entries_sound (x ∷ l) [] h e = absurd (omega arith)
same_entries_sound (x ∷ l) (y ∷ m) h e =
    let f = same_entries_sound l m (omega arith) (ground arith) in
    let g : x ≡ y = entry_eq x y (ground arith) (ground arith) (ground arith) in cc

same_entries_refl : (l : List StackEntry) → same_entries l l ≡ true
unfolding same_entries
same_entries_refl [] = refl
same_entries_refl (x ∷ l) = ground (arith, same_entries_refl l)

-- `operator==` is equality of the contents.
pub same_state_iff : (a b : StackDispMemState) → (same_state a b ≡ true) ↔ (a.content ≡ b.content)
unfolding same_state
same_state_iff a b = (
  λ e.
      let l : length a.content ≡ length b.content = ground arith in
      same_entries_sound a.content b.content l (ground arith),
  λ e. rw e (ground (arith, same_entries_refl b.content)),
)

pub is_in_state_lem : (f : ℕ) (s : StackDispMemState) → is_in_state f s ≡ in_entries f s.content
unfolding is_in_state
is_in_state_lem f s = refl

abbrev pub stack_disp : Sizes → ConcreteState StackDispMemState (List StackEntry)
stack_disp sizes = record {
  view = λ s. s.content;
  same = same_state;
  same_iff = same_state_iff;
  holds = in_entries;
  is_in_state = is_in_state;
  is_in_state_lem = is_in_state_lem;
  allocated_size = get_allocated_size sizes.entry sizes.object;
  references = get_number_of_maintained_references;
}

-- `removeDuplicates` normalizes the states before it compares them.
abbrev pub stack_policy : Sizes → DispParams → Policy StackDispMemState (List StackEntry)
stack_policy sizes p = record {
  concrete = stack_disp sizes;
  vector = sizes.vector;
  start = record { content = [] };
  activate = activate_function p;
  prepare = normalize p.size;
}

module _ (sizes : Sizes) (p : DispParams) where
  unfoldable pub update :
      Maintainer StackDispMemState
      → ℕ
      → ℕ
      → ℕ
      → Activation
      → ℕ
      → Option (Maintainer StackDispMemState)
  unfolding Disp.update
  update = Disp.update (stack_policy sizes p)

  unfoldable pub join :
      Maintainer StackDispMemState → List ℕ → ℕ → Option (Maintainer StackDispMemState)
  unfolding Disp.join
  join = Disp.join (stack_policy sizes p)
