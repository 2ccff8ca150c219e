-- ===== src/IcacheDfa/Lines.antt =====
-- The cache lines of a basic block: all lines that hold a byte of it, each once, in their order.
use isptap.Prelude.{
  ℕ, zero, suc, ◌+◌, ◌*◌, ◌/◌, ◌^◌, ◌≤◌, ◌<◌, ◌≡◌, refl, ap, sym, true, false, List, [], ◌∷◌, some,
  ltb, arith, All, ℕ_discrete, dec_lt, add32,
}
use mathlib.Core.List.{Memᴰ}
use native.Mathlib.Nat.{le-div_iff_mul-le, div-mul-le_self, lt-div-mul-add, mul-div_cancel}
use isptap.MemStateGraph.{CfgNode, basic_block}
use isptap.IcacheDfa.{CacheParams, is_basic_block, lines_from, get_cache_lines_of_cfg_node}

abbrev pub Ascending : List ℕ → Type 0
Ascending [] = Unit
Ascending (x ∷ l) = All (λ y. x < y) l × Ascending l

-- The list has the multiples of `line_size` from the `j`th on that are less than `end_addr`.
record Multiples (line_size j end_addr : ℕ) (l : List ℕ) : Type 0 where
  inside : All (λ x. (k : ℕ) × (x ≡ k * line_size) × (j ≤ k) × (x < end_addr)) l
  all_in : (k : ℕ) → j ≤ k → k * line_size < end_addr → Memᴰ (k * line_size) l
  ascending : Ascending l

pub All-map : {P Q : ℕ → Type 0} (l : List ℕ) → ((x : ℕ) → P x → Q x) → All P l → All Q l
All-map [] f h = tt
All-map (x ∷ l) f h = (f x h.0, All-map l f h.1)

module _ (line_size : ℕ) (pos : 0 < line_size) where
  mul_mono : (j k : ℕ) → j ≤ k → j * line_size ≤ k * line_size
  mul_mono j k h = grind (arith, h)

  mul-next : (j k : ℕ) → j < k → j * line_size + line_size ≤ k * line_size
  mul-next j k h =
      let e : suc j * line_size ≡ j * line_size + line_size = grind arith in
      omega (arith, e, mul_mono (suc j) k h)

  none_left : (j end_addr : ℕ) → end_addr ≤ j * line_size → Multiples line_size j end_addr []
  none_left j end_addr h = record {
    inside = tt;
    all_in = λ k le lt. absurd (omega (arith, mul_mono j k le));
    ascending = tt;
  }

  one_more :
      (j end_addr : ℕ) (l : List ℕ)
      → j * line_size < end_addr
      → Multiples line_size (suc j) end_addr l
      → Multiples line_size j end_addr (j * line_size ∷ l)
  one_more j end_addr l lt h = record {
    inside = (
      (j, refl, omega arith, lt),
      All-map l (λ x (k, q, le, less). (k, q, omega arith, less)) h.inside,
    );
    all_in = λ k le less. elim (ℕ_discrete j k) [
      | yes q ↦ Memᴰ.head (ap (λ i. i * line_size) (sym q))
      | no n ↦ Memᴰ.tail (h.all_in k (omega arith) less)
    ];
    ascending = (
      All-map l (λ x (k, q, le, less). omega (arith, mul-next j k (omega arith), q)) h.inside,
      h.ascending,
    );
  }

  turn_eq :
      (fuel j end_addr : ℕ) (l : List ℕ)
      → j * line_size < end_addr
      → end_addr + line_size ≤ 2 ^ 32
      → lines_from fuel line_size (suc j * line_size) end_addr ≡ some l
      → lines_from (suc fuel) line_size (j * line_size) end_addr ≡ some (j * line_size ∷ l)
  unfolding lines_from
  turn_eq fuel j end_addr l lt room r =
      let e : suc j * line_size ≡ j * line_size + line_size = grind arith in
      let w : add32 (j * line_size) line_size ≡ suc j * line_size = omega (arith, e) in
      let b : ltb (j * line_size) end_addr ≡ true = ground arith in rw (b, w, r) refl

  lines_from-Multiples :
      (fuel j end_addr : ℕ)
      → end_addr ≤ j * line_size + fuel
      → end_addr + line_size ≤ 2 ^ 32
      → (l : List ℕ) × (lines_from fuel line_size (j * line_size) end_addr ≡ some l)
        × Multiples line_size j end_addr l
  unfolding lines_from
  lines_from-Multiples zero j end_addr enough room =
      let b : ltb (j * line_size) end_addr ≡ false = ground arith in
      ([], rw b refl, none_left j end_addr (omega arith))
  lines_from-Multiples (suc fuel) j end_addr enough room = elim (dec_lt (j * line_size) end_addr) [
    | no n ↦
        let b : ltb (j * line_size) end_addr ≡ false = ground arith in
        ([], rw b refl, none_left j end_addr (omega arith))
    | yes lt ↦
        let e : suc j * line_size ≡ j * line_size + line_size = grind arith in
        let (l, r, h) = lines_from-Multiples fuel (suc j) end_addr (omega (arith, e)) room in
        (j * line_size ∷ l, turn_eq fuel j end_addr l lt room r, one_more j end_addr l lt h)
  ]

abbrev pub line_size : CacheParams → ℕ
line_size p = 2 ^ p.line_size_bit

-- The line of the address `a` is the address of its first byte.
abbrev pub line_of : CacheParams → ℕ → ℕ
line_of p a = a / line_size p * line_size p

-- `a` is the address of a byte of the block.
abbrev pub InBlock : CfgNode → ℕ → Type 0
InBlock node a = (node.start_addr ≤ a) × (a < node.start_addr + node.bb_size)

-- The block is not empty, it does not reach into the last line of the address space, and its first
-- line is not the line of address 0.
pub record Laid (p : CacheParams) (node : CfgNode) : Type 0 where
  pub filled : 0 < node.bb_size
  pub low : line_size p ≤ node.start_addr
  pub high : node.start_addr + node.bb_size + line_size p ≤ 2 ^ 32

pub power_pos : (k : ℕ) → 0 < 2 ^ k
power_pos zero = omega arith
power_pos (suc k) = let e : 2 ^ suc k ≡ 2 * 2 ^ k = omega arith in omega (arith, power_pos k, e)

-- The list of the lines of a basic block that does not reach into the last line of the address space
-- is computed in finitely many turns. It has the line of each byte of the block, no other line, and
-- its lines ascend, so that none comes twice.
pub get_cache_lines_exact :
    (p : CacheParams) (node : CfgNode)
    → node.node_type ≡ basic_block
    → p.use_bbs_instead_of_cache_lines ≡ false
    → Laid p node
    → (l : List ℕ) × (get_cache_lines_of_cfg_node p node ≡ some l)
      × ((a : ℕ) → InBlock node a → Memᴰ (line_of p a) l)
      × All (λ x. (a : ℕ) × InBlock node a × (x ≡ line_of p a)) l
      × Ascending l
unfolding get_cache_lines_of_cfg_node is_basic_block
get_cache_lines_exact p node bb lines laid =
    let pos = power_pos p.line_size_bit in
    let first = node.start_addr / line_size p in
    let end_addr = node.start_addr + node.bb_size in
    let below = div-mul-le_self node.start_addr (line_size p) in
    let (l, r, h) =
      lines_from-Multiples (line_size p) pos (2 ^ 32) first end_addr (omega (arith, laid.high))
        laid.high in
    (
      l,
      unfold_eq l r,
      λ a b.
          h.all_in (a / line_size p) ((le-div_iff_mul-le pos).1 (omega (arith, below, b.0)))
            (omega (arith, div-mul-le_self a (line_size p), b.1)),
      All-map l (λ x (k, q, le, less). byte k x q le less) h.inside,
      h.ascending,
    )
  where
    unfold_eq :
        (l : List ℕ)
        → lines_from
            (2 ^ 32)
            (line_size p)
            (node.start_addr / line_size p * line_size p)
            (node.start_addr + node.bb_size)
          ≡ some l
        → get_cache_lines_of_cfg_node p node ≡ some l
    unfold_eq l r =
        let pos = power_pos p.line_size_bit in
        let w : add32 node.start_addr node.bb_size ≡ node.start_addr + node.bb_size =
          omega (arith, laid.high, pos) in
        rw (bb, lines, w) r

    byte :
        (k x : ℕ)
        → x ≡ k * line_size p
        → node.start_addr / line_size p ≤ k
        → x < node.start_addr + node.bb_size
        → (a : ℕ) × InBlock node a × (x ≡ line_of p a)
    byte k x q le less = elim (ℕ_discrete (node.start_addr / line_size p) k) [
      | yes e ↦ (node.start_addr, (omega arith, omega (arith, laid.filled)), rw e q)
      | no n ↦
          let pos = power_pos p.line_size_bit in
          let past = lt-div-mul-add {a = node.start_addr} pos in
          let next = mul-next (line_size p) pos (node.start_addr / line_size p) k (omega arith) in
          (
            x,
            (omega (arith, past, next, q), less),
            rw q (ap (λ i. i * line_size p) (sym (mul-div_cancel k pos))),
          )
    ]
