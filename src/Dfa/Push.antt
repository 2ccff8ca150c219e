-- ===== src/Dfa/Push.antt =====
-- The pushes of a turn, and the measure that bounds the number of turns.
use isptap.Prelude.{
  ℕ, zero, suc, ◌+◌, ◌-◌, ◌≤◌, ◌<◌, ◌≡◌, refl, ap, List, [], ◌∷◌, if◌then◌else◌, arith, inl, inr,
  Bool-cases, All, ℕ_discrete,
}
use mathlib.Core.List.{Memᴰ}
use mathlib.Core.List.Memᴰ
use isptap.MemStateGraph.{Edge, is_forward, out_edges}
use isptap.MemStateGraph.Edges.{Forward, out_edges-mem}
use isptap.Dfa.{push_targets}

pub push_targets-keeps :
    (es : List Edge) (l : List ℕ) (t : ℕ) → Memᴰ t l → Memᴰ t (push_targets es l)
unfolding push_targets
push_targets-keeps [] l t m = m
push_targets-keeps (e ∷ es) l t m = elim (Bool-cases (is_forward e)) [
  | inl q ↦ rw q (push_targets-keeps es (e.target ∷ l) t (Memᴰ.tail m))
  | inr q ↦ rw q (push_targets-keeps es l t m)
]

pub mem-push_targets :
    (es : List Edge) (l : List ℕ) (e : Edge) → Forward es e → Memᴰ e.target (push_targets es l)
unfolding push_targets
mem-push_targets es l e f = go es l f.listed
  where
    go : (es : List Edge) (l : List ℕ) → Memᴰ e es → Memᴰ e.target (push_targets es l)
    go [] l m = absurd (Memᴰ.not-nil m)
    go (x ∷ es) l (Memᴰ.head r) =
        rw (← r, f.ahead) (push_targets-keeps es (e.target ∷ l) e.target (Memᴰ.head refl))
    go (x ∷ es) l (Memᴰ.tail m) = go es (if is_forward x then x.target ∷ l else l) m

pub push_targets-All :
    (P : ℕ → Type 0) (es : List Edge) (l : List ℕ)
    → ((e : Edge) → Forward es e → P e.target)
    → All P l
    → All P (push_targets es l)
unfolding push_targets
push_targets-All P [] l f h = h
push_targets-All P (e ∷ es) l f h =
    let rest : (x : Edge) → Forward es x → P x.target =
      λ x k. f x (record { listed = Memᴰ.tail k.listed; ahead = k.ahead }) in
    elim (Bool-cases (is_forward e)) [
      | inl q ↦ rw q (
          push_targets-All P es (e.target ∷ l) rest
            (f e (record { listed = Memᴰ.head refl; ahead = q }), h))
      | inr q ↦ rw q (push_targets-All P es l rest h)
    ]

unfoldable pub total : (ℕ → ℕ) → List ℕ → ℕ
total w [] = 0
total w (v ∷ l) = w v + total w l

-- the sum over the targets of the forward edges
unfoldable pub total_ahead : (ℕ → ℕ) → List Edge → ℕ
total_ahead w [] = 0
total_ahead w (e ∷ es) =
    let rest = total_ahead w es in if is_forward e then w e.target + rest else rest

pub total-push_targets :
    (w : ℕ → ℕ) (es : List Edge) (l : List ℕ)
    → total w (push_targets es l) ≡ total_ahead w es + total w l
unfolding push_targets total total_ahead
total-push_targets w [] l = omega arith
total-push_targets w (e ∷ es) l = elim (Bool-cases (is_forward e)) [
  | inl q ↦ rw q (omega (arith, total-push_targets w es (e.target ∷ l)))
  | inr q ↦ rw q (omega (arith, total-push_targets w es l))
]

total_ahead-le :
    (w w' : ℕ → ℕ) (es : List Edge)
    → ((e : Edge) → Forward es e → w e.target ≤ w' e.target)
    → total_ahead w es ≤ total_ahead w' es
unfolding total_ahead
total_ahead-le w w' [] h = omega arith
total_ahead-le w w' (e ∷ es) h =
    let rest =
      total_ahead-le w w' es
        (λ x k. h x (record { listed = Memᴰ.tail k.listed; ahead = k.ahead })) in
    elim (Bool-cases (is_forward e)) [
      | inl q ↦ rw q (omega (arith, rest, h e (record { listed = Memᴰ.head refl; ahead = q })))
      | inr q ↦ rw q rest
    ]

-- The turns that a vertex costs, itself and what it pushes, where `k` levels are ahead of it.
unfoldable pub work : List Edge → ℕ → ℕ → ℕ
work edges zero v = 1
work edges (suc k) v = suc (total_ahead (work edges k) (out_edges v edges))

work-suc : (edges : List Edge) (k v : ℕ) → work edges k v ≤ work edges (suc k) v
unfolding work
work-suc edges zero v = omega arith
work-suc edges (suc k) v = omega (
  arith,
  total_ahead-le (work edges k) (work edges (suc k)) (out_edges v edges)
      (λ e f. work-suc edges k e.target),
)

pub work_mono : (edges : List Edge) (k j v : ℕ) → k ≤ j → work edges k v ≤ work edges j v
work_mono edges k zero v h = let e : k ≡ 0 = omega arith in rw e (omega arith)
work_mono edges k (suc j) v h = elim (ℕ_discrete k (suc j)) [
  | yes e ↦ rw e (omega arith)
  | no n ↦ omega (arith, work_mono edges k j v (omega arith), work-suc edges j v)
]

zeros : (es : List Edge) → total_ahead (λ v. 0) es ≡ 0
unfolding total_ahead
zeros [] = refl
zeros (e ∷ es) = ground (arith, zeros es)

-- The forward edges lead from level to level, up to the level `depth`: they have no cycle.
pub record Levels (edges : List Edge) (depth : ℕ) (level : ℕ → ℕ) : Type 0 where
  pub climbs : (e : Edge) → Forward edges e → level e.source < level e.target
  pub bounded : (e : Edge) → Forward edges e → level e.target ≤ depth

module _ (edges : List Edge) (depth : ℕ) (level : ℕ → ℕ) (lv : Levels edges depth level) where
  abbrev pub weight : ℕ → ℕ
  weight v = work edges (depth - level v) v

  -- A vertex weighs more than all that it pushes.
  pub weight-out_edges : (v : ℕ) → total_ahead weight (out_edges v edges) < weight v
  unfolding work
  weight-out_edges v = go (depth - level v) refl
    where
      ahead : (e : Edge) → Forward (out_edges v edges) e → Forward edges e × (e.source ≡ v)
      ahead e f =
          let (m, s) = out_edges-mem v edges e f.listed in
          (record { listed = m; ahead = f.ahead }, s)

      go : (k : ℕ) → depth - level v ≡ k → total_ahead weight (out_edges v edges) < work edges k v
      go zero h =
          let none_ahead =
            total_ahead-le weight (λ u. 0) (out_edges v edges)
              (λ e f.
                let (g, s) = ahead e f in
                absurd (omega (arith, lv.climbs e g, lv.bounded e g, h, ap level s))) in
          omega (arith, none_ahead, zeros (out_edges v edges))
      go (suc k) h =
          let below = total_ahead-le weight (work edges k) (out_edges v edges) (λ e f.
            let (g, s) = ahead e f in
            work_mono edges (depth - level e.target) k e.target
              (omega (arith, lv.climbs e g, lv.bounded e g, h, ap level s))) in
          omega (arith, below)
