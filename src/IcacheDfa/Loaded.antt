-- ===== src/IcacheDfa/Loaded.antt =====
-- The lines that a node loads, of whatever type it is.
use isptap.Prelude.{
  ℕ, ◌≤◌, ◌≡◌, ◌≢◌, refl, sym, ◌∙◌, true, false, List, [], ◌∷◌, some, arith, All, inl, inr,
  Bool-cases,
}
use native.Mathlib.Nat.{lt-div-mul-add}
use isptap.MemStateGraph.{NodeType, CfgNode, basic_block}
use isptap.IcacheDfa.{CacheParams, is_basic_block, get_cache_lines_of_cfg_node}
use isptap.IcacheDfa.Lines.{Laid, line_size, line_of, All-map, power_pos, get_cache_lines_exact}

pub is_basic_block-only : (t : NodeType) → is_basic_block t ≡ true → t ≡ basic_block
unfolding is_basic_block
is_basic_block-only basic_block q = refl
is_basic_block-only _ q = cc

pub is_basic_block-true : (t : NodeType) → t ≡ basic_block → is_basic_block t ≡ true
unfolding is_basic_block
is_basic_block-true t h = rw h refl

pub skip_eq :
    (p : CacheParams) (node : CfgNode)
    → is_basic_block node.node_type ≡ false
    → get_cache_lines_of_cfg_node p node ≡ some []
unfolding get_cache_lines_of_cfg_node
skip_eq p node h = rw h refl

start_eq :
    (p : CacheParams) (node : CfgNode)
    → p.use_bbs_instead_of_cache_lines ≡ true
    → is_basic_block node.node_type ≡ true
    → get_cache_lines_of_cfg_node p node ≡ some (node.start_addr ∷ [])
unfolding get_cache_lines_of_cfg_node
start_eq p node h q = rw (q, h) refl

far : (p : CacheParams) (a : ℕ) → line_size p ≤ a → line_of p a ≢ 0
far p a h z =
    let past = lt-div-mul-add {a = a} (power_pos p.line_size_bit) in
    absurd (omega (arith, z, h, past))

-- The lines of a block that is laid so are computed, and line 0 is not one of them.
pub lines_loaded :
    (p : CacheParams) (node : CfgNode)
    → (node.node_type ≡ basic_block → Laid p node)
    → (l : List ℕ) × (get_cache_lines_of_cfg_node p node ≡ some l) × All (λ x. x ≢ 0) l
lines_loaded p node laid = elim (Bool-cases (is_basic_block node.node_type)) [
  | inr other ↦ ([], skip_eq p node other, tt)
  | inl q ↦
      let bb = is_basic_block-only node.node_type q in
      let h = laid bb in
      elim (Bool-cases p.use_bbs_instead_of_cache_lines) [
        | inl whole ↦ (node.start_addr ∷ [], start_eq p node whole q, (positive h, tt))
        | inr lines ↦
            let (l, r, covers, inside, order) = get_cache_lines_exact p node bb lines h in
            (l, r, All-map l (λ x (a, b, e) z. far p a (above h a b.0) (sym e ∙ z)) inside)
      ]
]
  where
    positive : Laid p node → node.start_addr ≢ 0
    positive h z = absurd (omega (arith, h.low, power_pos p.line_size_bit))

    above : Laid p node → (a : ℕ) → node.start_addr ≤ a → line_size p ≤ a
    above h a b = omega (arith, h.low)
