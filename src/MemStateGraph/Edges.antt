-- ===== src/MemStateGraph/Edges.antt =====
-- Which edges the edge lists of a vertex hold.
use isptap.Prelude.{
  ℕ, ◌<◌, ◌≡◌, ◌≢◌, refl, sym, true, List, [], ◌∷◌, ◌==◌, arith, length, inl, inr, Bool-cases, All,
}
use mathlib.Core.List.{Memᴰ}
use mathlib.Core.List.Memᴰ
use mathlib.Core.Path.{subst}
use isptap.MemStateGraph.{Edge, is_forward, in_edges, out_edges, in_degree, count_forward}

-- The edge is one of the list, and no backward jump.
pub record Forward (es : List Edge) (e : Edge) : Type 0 where
  pub listed : Memᴰ e es
  pub ahead : is_forward e ≡ true

pub in_edges-mem :
    (v : ℕ) (es : List Edge) (e : Edge) → Memᴰ e (in_edges v es) → Memᴰ e es × (e.target ≡ v)
unfolding in_edges
in_edges-mem v [] e = λ m. absurd (Memᴰ.not-nil m)
in_edges-mem v (x ∷ es) e = elim (Bool-cases (x.target == v)) [
  | inl q ↦ rw q λ m. elim (Memᴰ.cases_cons m) [
    | inl r ↦ (Memᴰ.head r, rw r (ground arith))
    | inr r ↦ let (k, h) = in_edges-mem v es e r in (Memᴰ.tail k, h)
  ]
  | inr q ↦ rw q λ m. let (k, h) = in_edges-mem v es e m in (Memᴰ.tail k, h)
]

pub mem-in_edges : (es : List Edge) (e : Edge) → Memᴰ e es → Memᴰ e (in_edges e.target es)
unfolding in_edges
mem-in_edges [] e m = absurd (Memᴰ.not-nil m)
mem-in_edges (x ∷ es) e (Memᴰ.head r) =
    let q : (x.target == e.target) ≡ true = rw r (ground arith) in rw q (Memᴰ.head r)
mem-in_edges (x ∷ es) e (Memᴰ.tail m) = elim (Bool-cases (x.target == e.target)) [
  | inl q ↦ rw q (Memᴰ.tail (mem-in_edges es e m))
  | inr q ↦ rw q (mem-in_edges es e m)
]

pub out_edges-mem :
    (v : ℕ) (es : List Edge) (e : Edge) → Memᴰ e (out_edges v es) → Memᴰ e es × (e.source ≡ v)
unfolding out_edges
out_edges-mem v [] e = λ m. absurd (Memᴰ.not-nil m)
out_edges-mem v (x ∷ es) e = elim (Bool-cases (x.source == v)) [
  | inl q ↦ rw q λ m. elim (Memᴰ.cases_cons m) [
    | inl r ↦ (Memᴰ.head r, rw r (ground arith))
    | inr r ↦ let (k, h) = out_edges-mem v es e r in (Memᴰ.tail k, h)
  ]
  | inr q ↦ rw q λ m. let (k, h) = out_edges-mem v es e m in (Memᴰ.tail k, h)
]

pub mem-out_edges : (es : List Edge) (e : Edge) → Memᴰ e es → Memᴰ e (out_edges e.source es)
unfolding out_edges
mem-out_edges [] e m = absurd (Memᴰ.not-nil m)
mem-out_edges (x ∷ es) e (Memᴰ.head r) =
    let q : (x.source == e.source) ≡ true = rw r (ground arith) in rw q (Memᴰ.head r)
mem-out_edges (x ∷ es) e (Memᴰ.tail m) = elim (Bool-cases (x.source == e.source)) [
  | inl q ↦ rw q (Memᴰ.tail (mem-out_edges es e m))
  | inr q ↦ rw q (mem-out_edges es e m)
]

pub count_forward-pos :
    (es : List Edge) (e : Edge) → Memᴰ e es → is_forward e ≡ true → 0 < count_forward es
unfolding count_forward
count_forward-pos [] e m h = absurd (Memᴰ.not-nil m)
count_forward-pos (x ∷ es) e (Memᴰ.head r) h =
    let q : is_forward x ≡ true = rw (sym r) h in ground arith
count_forward-pos (x ∷ es) e (Memᴰ.tail m) h = ground (arith, count_forward-pos es e m h)

pub in_degree-zero :
    (v : ℕ) (es : List Edge) (e : Edge) → in_degree v es ≡ 0 → Memᴰ e es → e.target ≢ v
in_degree-zero v es e z m h =
    let k = mem-in_edges es e m in
    absurd (
      Memᴰ.not-nil
        (subst (λ l. Memᴰ e l) (nil (in_edges v es) z) (subst (λ u. Memᴰ e (in_edges u es)) h k)))
  where
    nil : (l : List Edge) → length l ≡ 0 → l ≡ []
    nil [] q = refl
    nil (x ∷ l) q = absurd (omega arith)

pub count_forward-zero :
    (es : List Edge) (e : Edge) → count_forward es ≡ 0 → Memᴰ e es → is_forward e ≢ true
count_forward-zero es e z m h = absurd (omega (arith, count_forward-pos es e m h, z))

pub count_forward-none : (es : List Edge) → length es ≡ 0 → count_forward es ≡ 0
unfolding count_forward
count_forward-none [] h = refl
count_forward-none (x ∷ es) h = absurd (omega arith)

-- What holds of each listed edge that is no backward jump.
pub of_Forward :
    (P : Edge → Type 0) (es : List Edge)
    → All (λ e. is_forward e ≡ true → P e) es
    → (e : Edge) → Forward es e
    → P e
of_Forward P es h e f = go es h f.listed
  where
    go : (es : List Edge) → All (λ e. is_forward e ≡ true → P e) es → Memᴰ e es → P e
    go [] h m = absurd (Memᴰ.not-nil m)
    go (x ∷ es) h (Memᴰ.head q) = subst P (sym q) (h.0 (subst (λ y. is_forward y ≡ true) q f.ahead))
    go (x ∷ es) h (Memᴰ.tail m) = go es h.1 m

-- What holds of each listed edge.
pub of_listed : (P : Edge → Type 0) (es : List Edge) → All P es → (e : Edge) → Memᴰ e es → P e
of_listed P [] h e m = absurd (Memᴰ.not-nil m)
of_listed P (x ∷ es) h e (Memᴰ.head q) = subst P (sym q) h.0
of_listed P (x ∷ es) h e (Memᴰ.tail m) = of_listed P es h.1 e m
