-- ===== src/DispDfa/Penalty.antt =====
-- The penalties of calls and returns bound what they cost on each run.
use isptap.Prelude.{
  ℕ, ◌+◌, ◌-◌, ◌*◌, ◌/◌, ◌^◌, ◌≤◌, ◌<◌, ◌≡◌, refl, ap, Bool, true, false, List, [], ◌∷◌, some,
  arith, if◌then◌else◌, inl, inr, ◌⊎◌, Bool-cases, inc32,
}
use mathlib.Core.List.{Memᴰ}
use mathlib.Core.List.Memᴰ
use isptap.MemStateGraph.{Edge}
use isptap.IcacheDfa.Penalty.{SameEnds}
use isptap.FifoCache.{in_content}
use isptap.FifoDisp.Sizes.{mem_size, Known}
use isptap.Disp.{DispParams, Activation, call, back}
use isptap.DispDfa.Costs.{
  Timing, pipeline_latency, get_disp_hit_penalty, get_disp_miss_and_load_penalty, disp_cost,
  put_where,
}

module _ (of_vertex : Edge → Bool) (cost : ℕ) where
  -- Where an edge comes from: it got the penalty, or it is as before.
  pub put_where-mem :
      (es : List Edge) (e : Edge)
      → Memᴰ e (put_where of_vertex cost es)
      → (o : Edge) × Memᴰ o es
        × SameEnds o e
        × (((of_vertex o ≡ true) × (e.dynamic_mem_penalty ≡ cost))
            ⊎ ((of_vertex o ≡ false) × (e ≡ o)))
  unfolding put_where
  put_where-mem [] e m = absurd (Memᴰ.not-nil m)
  put_where-mem (x ∷ es) e m = elim (Memᴰ.cases_cons m) [
    | inl q ↦ let (s, h) = from_here (Bool-cases (of_vertex x)) q in (x, Memᴰ.head refl, s, h)
    | inr m' ↦ let (o, y, s, h) = put_where-mem es e m' in (o, Memᴰ.tail y, s, h)
  ]
    where
      from_here :
          (of_vertex x ≡ true) ⊎ (of_vertex x ≡ false)
          → e ≡ (if of_vertex x then record x { dynamic_mem_penalty = cost } else x)
          → SameEnds x e
            × (((of_vertex x ≡ true) × (e.dynamic_mem_penalty ≡ cost))
                ⊎ ((of_vertex x ≡ false) × (e ≡ x)))
      from_here (inl b) = rw b λ q. (
        (
          ap (λ (y : Edge). y.source) q,
          ap (λ (y : Edge). y.target) q,
          ap (λ (y : Edge). y.edge_type) q,
        ),
        inl (refl, ap (λ (y : Edge). y.dynamic_mem_penalty) q),
      )
      from_here (inr b) = rw b λ q. (
        (
          ap (λ (y : Edge). y.source) q,
          ap (λ (y : Edge). y.target) q,
          ap (λ (y : Edge). y.edge_type) q,
        ),
        inr (refl, q),
      )

-- the cycles that a call or a return takes without the scratchpad
unfoldable pub own_cycles : Timing → Activation → ℕ
own_cycles t call = 1 + t.call_latency
own_cycles t back = 1 + t.return_latency

module _ (p : DispParams) (t : Timing) where
  -- the cycles that the control needs to load a function, block by block
  unfoldable pub load_cycles : ℕ → ℕ
  load_cycles f = ((mem_size p f / p.block_size) * (1 + t.miss_latency)) + t.miss_cycles

  -- What the activation of a function costs in a scratchpad that holds it or not, beyond its own
  -- cycles: the control works while the pipeline handles the call or the return, but for the loads
  -- of a memory that the pipeline fetches from too.
  unfoldable pub activation_cost : Activation → ℕ → List ℕ → ℕ
  activation_cost act f c =
      if in_content f c
      then t.hit_cycles - own_cycles t act
      else if t.fetch_mem_independent
      then load_cycles f - own_cycles t act
      else load_cycles f

  -- A hit is no slower than a miss, even without the loads, and no number of cycles is too large for
  -- its type.
  pub record Faster (f : ℕ) : Type 0 where
    pub cycles : t.hit_cycles ≤ t.miss_cycles
    pub call_small : 1 + t.call_latency < 2 ^ 32
    pub return_small : 1 + t.return_latency < 2 ^ 32
    pub miss_small : 1 + t.miss_latency < 2 ^ 32
    pub small : load_cycles f < 2 ^ 32

  pipeline_latency-cycles :
      (f : ℕ) (act : Activation) → Faster f → pipeline_latency t act ≡ own_cycles t act
  unfolding pipeline_latency own_cycles
  pipeline_latency-cycles f call h = omega (arith, h.call_small)
  pipeline_latency-cycles f back h = omega (arith, h.return_small)

  hit_penalty :
      (f : ℕ) (act : Activation)
      → Faster f
      → get_disp_hit_penalty t act ≡ t.hit_cycles - own_cycles t act
  unfolding get_disp_hit_penalty
  hit_penalty f act h = rw (pipeline_latency-cycles f act h) (ground arith)

  miss_penalty :
      (f : ℕ) (act : Activation)
      → Faster f
      → get_disp_miss_and_load_penalty p t (mem_size p f) act
        ≡ (if t.fetch_mem_independent then load_cycles f - own_cycles t act else load_cycles f)
  unfolding get_disp_miss_and_load_penalty load_cycles
  miss_penalty f act h =
      let w : inc32 t.miss_latency ≡ 1 + t.miss_latency = omega (arith, h.miss_small) in
      rw (pipeline_latency-cycles f act h, w) (ground (arith, h.small))

  hit-le-miss :
      (f : ℕ) (act : Activation) (c : List ℕ)
      → Faster f
      → t.hit_cycles - own_cycles t act
        ≤ (if t.fetch_mem_independent then load_cycles f - own_cycles t act else load_cycles f)
  unfolding load_cycles
  hit-le-miss f act c h = ground (arith, h.cycles)

  -- The penalty that the analysis computes is at least the cost in each scratchpad whose functions
  -- it rightly takes for loaded.
  pub disp_cost-covers :
      (act : Activation) (f : ℕ) (in_must : Bool)
      → Known p f
      → Faster f
      → (cost : ℕ) × (disp_cost p t act f in_must ≡ some cost)
        × ((c : List ℕ) → (in_must ≡ true → in_content f c ≡ true) → activation_cost act f c ≤ cost)
  unfolding disp_cost activation_cost
  disp_cost-covers act f true known fast =
      (get_disp_hit_penalty t act, refl, λ c h. rw (h refl, hit_penalty f act fast) (omega arith))
  disp_cost-covers act f false known fast = (
    get_disp_miss_and_load_penalty p t (mem_size p f) act,
    rw known refl,
    λ c h. rw (miss_penalty f act fast) (elim (Bool-cases (in_content f c)) [
      | inl b ↦ rw b (hit-le-miss f act c fast)
      | inr b ↦ rw b (omega arith)
    ]),
  )
