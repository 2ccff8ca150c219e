-- ===== src/FifoDisp/Maintainer.antt =====
-- src/memory/fifo_bf_disp_state_maintainer.cpp
use isptap.Prelude.{ℕ, List, [], Option, some}
use isptap.Bf.{ConcreteState, Maintainer}
use isptap.FifoCache.{in_content}
use isptap.FifoCache.Maintainer.{Sizes}
use isptap.Disp.{Activation, DispParams, Policy}
use isptap.Disp
use isptap.FifoDisp.{
  FifoDispMemState, is_in_state, activate_function, same_state, get_allocated_size,
  get_number_of_maintained_references,
}
use isptap.FifoDisp.Policy.{same_state_iff, is_in_state_lem}

abbrev pub fifo_disp : Sizes → ConcreteState FifoDispMemState (List ℕ)
fifo_disp sizes = record {
  view = λ s. s.content;
  same = same_state;
  same_iff = same_state_iff;
  holds = in_content;
  is_in_state = is_in_state;
  is_in_state_lem = is_in_state_lem;
  allocated_size = get_allocated_size sizes.entry sizes.object;
  references = get_number_of_maintained_references;
}

-- `removeDuplicates` compares the states as they are.
abbrev pub fifo_policy : Sizes → DispParams → Policy FifoDispMemState (List ℕ)
fifo_policy sizes p = record {
  concrete = fifo_disp sizes;
  vector = sizes.vector;
  start = record { content = [] };
  activate = activate_function p;
  prepare = λ s. some s;
}

module _ (sizes : Sizes) (p : DispParams) where
  unfoldable pub update :
      Maintainer FifoDispMemState
      → ℕ
      → ℕ
      → ℕ
      → Activation
      → ℕ
      → Option (Maintainer FifoDispMemState)
  unfolding Disp.update
  update = Disp.update (fifo_policy sizes p)

  unfoldable pub join :
      Maintainer FifoDispMemState → List ℕ → ℕ → Option (Maintainer FifoDispMemState)
  unfolding Disp.join
  join = Disp.join (fifo_policy sizes p)
