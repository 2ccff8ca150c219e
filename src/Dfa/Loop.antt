-- ===== src/Dfa/Loop.antt =====
-- The work list returns, whatever a turn does with a vertex, and leaves no vertex behind whose
-- predecessors are known.
use isptap.Prelude.{
  ℕ, ◌≡◌, ◌≢◌, refl, sym, ◌∙◌, Bool, true, false, List, [], ◌∷◌, Option, some, ltb, ◌==◌,
  if◌then◌else◌, arith, inl, inr, Bool-cases, ◌⊎◌, ℕ_discrete, length,
}
use mathlib.Core.Path.{subst}
use mathlib.Core.List.{Memᴰ}
use mathlib.Core.List.Memᴰ
use isptap.MemStateGraph.{Edge, is_forward, in_edges, out_edges, in_degree}
use isptap.MemStateGraph.Edges.{Forward, in_edges-mem, mem-in_edges, in_degree-zero, mem-out_edges}
use isptap.Dfa.{push_targets, all_known, is_predecessor_mem_state_known, loop}
use isptap.Dfa.Push.{push_targets-keeps, mem-push_targets}

-- A vertex that a turn can reach: the entry, or the target of a forward edge.
abbrev pub Fed : List Edge → ℕ → ℕ → Type 0
Fed edges entry v = (v ≡ entry) ⊎ ((e : Edge) × Forward edges e × (e.target ≡ v))

module _ {D : Type 0} (edges : List Edge) (entry exit : ℕ) (valid : D → ℕ → Bool)
    (process : ℕ → D → Option D) where
  -- The states of all forward predecessors are known.
  abbrev pub Ready : D → ℕ → Type 0
  Ready d v = (e : Edge) → Forward edges e → e.target ≡ v → valid d e.source ≡ true

  abbrev pub Waits : D → ℕ → Type 0
  Waits d v = (e : Edge) × Forward edges e × (e.target ≡ v) × (valid d e.source ≡ false)

  -- What the loop needs of `process`: on a vertex that is ready it returns, it keeps the invariant,
  -- and the vertex is known from then on.
  pub record Processes (Inv : D → Type 0) : Type 0 where
    pub runs :
        (v : ℕ) (d : D)
        → Inv d
        → Fed edges entry v
        → Ready d v
        → v ≢ exit
        → (d' : D) × (process v d ≡ some d')
          × Inv d'
          × ((u : ℕ) → valid d' u ≡ (if u == v then true else valid d u))

  -- Each vertex that a known vertex leads to is known, on the list, or waits for another one.
  pub record Closed (processing : List ℕ) (d : D) : Type 0 where
    pub begun : (entry ≡ exit) ⊎ (Memᴰ entry processing ⊎ (valid d entry ≡ true))
    pub follows :
        (e : Edge)
        → Forward edges e
        → valid d e.source ≡ true
        → e.target ≢ exit
        → (Memᴰ e.target processing ⊎ (valid d e.target ≡ true)) ⊎ Waits d e.target

  -- The loop's result.
  pub record Ends (Inv : D → Type 0) (fuel : ℕ) (processing : List ℕ) (d : D) : Type 0 where
    pub result : D
    pub returns : loop edges entry exit valid process fuel processing d ≡ some result
    pub inv : Inv result
    pub closed : Closed [] result

  all_known-true :
      (d : D) (es : List Edge)
      → all_known edges entry exit valid process d es ≡ true
      → (e : Edge) → Memᴰ e es
      → is_forward e ≡ true
      → valid d e.source ≡ true
  unfolding all_known
  all_known-true d [] h e m f = absurd (Memᴰ.not-nil m)
  all_known-true d (x ∷ es) h e (Memᴰ.head r) f =
      let g : is_forward x ≡ true = rw (sym r) f in rw r (ground arith)
  all_known-true d (x ∷ es) h e (Memᴰ.tail m) f = ground (
    arith,
    λ (k : all_known edges entry exit valid process d es ≡ true). all_known-true d es k e m f,
  )

  all_known-false :
      (d : D) (es : List Edge)
      → all_known edges entry exit valid process d es ≡ false
      → (e : Edge) × Memᴰ e es × (is_forward e ≡ true) × (valid d e.source ≡ false)
  unfolding all_known
  all_known-false d [] h = cc
  all_known-false d (x ∷ es) h = elim (Bool-cases (is_forward x)) [
    | inl f ↦ elim (Bool-cases (valid d x.source)) [
      | inl g ↦ let (e, m, r, r') = all_known-false d es (ground arith) in (e, Memᴰ.tail m, r, r')
      | inr g ↦ (x, Memᴰ.head refl, f, g)
    ]
    | inr f ↦ let (e, m, r, r') = all_known-false d es (ground arith) in (e, Memᴰ.tail m, r, r')
  ]

  module _ (source_only : in_degree entry edges ≡ 0) where
    no_way_in : (e : Edge) → Memᴰ e edges → e.target ≢ entry
    no_way_in e m = in_degree-zero entry edges e source_only m

    pub known-cases :
        (v : ℕ) (d : D)
        → Fed edges entry v
        → ((is_predecessor_mem_state_known edges entry exit valid process v d ≡ some true)
            × Ready d v)
          ⊎ ((is_predecessor_mem_state_known edges entry exit valid process v d ≡ some false)
              × Waits d v)
    unfolding is_predecessor_mem_state_known
    known-cases v d fed = elim (ℕ_discrete v entry) [
      | yes q ↦
          inl ((rw (q, source_only) (ground arith)), λ e f t. absurd (no_way_in e f.listed (t ∙ q)))
      | no q ↦
          let b : (v == entry) ≡ false = ground arith in
          let (e, f, t) : (e : Edge) × Forward edges e × (e.target ≡ v) = elim fed [
            | inl r ↦ absurd (q r)
            | inr r ↦ r
          ] in
          let some_edge : ltb 0 (in_degree v edges) ≡ true =
            nonempty (in_edges v edges) e
              (subst (λ u. Memᴰ e (in_edges u edges)) t (mem-in_edges edges e f.listed)) in
          elim (Bool-cases (all_known edges entry exit valid process d (in_edges v edges))) [
            | inl k ↦ inl (
              rw (b, some_edge, k) refl,
              λ e f t.
                  all_known-true d (in_edges v edges) k e
                    (subst (λ u. Memᴰ e (in_edges u edges)) t (mem-in_edges edges e f.listed))
                    f.ahead,
            )
            | inr k ↦
                let (e, m, ahead, s) = all_known-false d (in_edges v edges) k in
                let (m', t) = in_edges-mem v edges e m in
                inr (rw (b, some_edge, k) refl, (e, record { listed = m'; ahead = ahead }, t, s))
          ]
    ]
      where
        nonempty : (l : List Edge) (e : Edge) → Memᴰ e l → ltb 0 (length l) ≡ true
        nonempty [] e m = absurd (Memᴰ.not-nil m)
        nonempty (x ∷ l) e m = ground arith

    module _ (Inv : D → Type 0) (laws : Processes Inv) where
      pub visited :
          (v : ℕ) (processing : List ℕ) (d d' : D)
          → Fed edges entry v
          → ((u : ℕ) → valid d' u ≡ (if u == v then true else valid d u))
          → Closed (v ∷ processing) d
          → Closed (push_targets (out_edges v edges) processing) d'
      visited v processing d d' fed h c = record {
        begun = elim c.begun [
          | inl q ↦ inl q
          | inr (inl q) ↦ elim (Memᴰ.cases_cons q) [
            | inl r ↦ inr (inr (rw h (ground arith)))
            | inr r ↦ inr (inl (push_targets-keeps (out_edges v edges) processing entry r))
          ]
          | inr (inr q) ↦ inr (inr (keeps entry q))
        ];
        follows = λ e f known far. elim (ℕ_discrete e.source v) [
          | yes q ↦ inl (inl (pushed e f q))
          | no q ↦ elim (c.follows e f (old e.source q known) far) [
            | inl (inl m) ↦ elim (Memᴰ.cases_cons m) [
              | inl r ↦ inl (inr (rw h (ground arith)))
              | inr r ↦ inl (inl (push_targets-keeps (out_edges v edges) processing e.target r))
            ]
            | inl (inr k) ↦ inl (inr (keeps e.target k))
            | inr (g, k, t, s) ↦ elim (ℕ_discrete g.source v) [
              | yes r ↦ inl (
                  inl (
                    subst (λ u. Memᴰ u (push_targets (out_edges v edges) processing)) t
                      (pushed g k r)))
              | no r ↦ inr (g, k, t, rw h (ground arith))
            ]
          ]
        ];
      }
        where
          keeps : (u : ℕ) → valid d u ≡ true → valid d' u ≡ true
          keeps u k = rw h (ground arith)

          old : (u : ℕ) → u ≢ v → valid d' u ≡ true → valid d u ≡ true
          old u q k = let r = h u in ground arith

          pushed :
              (e : Edge)
              → Forward edges e
              → e.source ≡ v
              → Memᴰ e.target (push_targets (out_edges v edges) processing)
          pushed e f q = mem-push_targets (out_edges v edges) processing e (record {
            listed = subst (λ u. Memᴰ e (out_edges u edges)) q (mem-out_edges edges e f.listed);
            ahead = f.ahead;
          })

      -- A vertex that is skipped is the exit or waits.
      pub skipped :
          (v : ℕ) (processing : List ℕ) (d : D)
          → Fed edges entry v
          → (v ≡ exit) ⊎ Waits d v
          → Closed (v ∷ processing) d
          → Closed processing d
      skipped v processing d fed h c = record {
        begun = elim c.begun [
          | inl q ↦ inl q
          | inr (inl q) ↦ elim (Memᴰ.cases_cons q) [
            | inl r ↦ elim h [
              | inl k ↦ inl (r ∙ k)
              | inr (e, f, t, s) ↦ absurd (no_way_in e f.listed (t ∙ sym r))
            ]
            | inr r ↦ inr (inl r)
          ]
          | inr (inr q) ↦ inr (inr q)
        ];
        follows = λ e f known far. elim (c.follows e f known far) [
          | inl (inl m) ↦ elim (Memᴰ.cases_cons m) [
            | inl r ↦ elim h [
              | inl k ↦ absurd (far (r ∙ k))
              | inr (g, k, t, s) ↦ inr (g, k, t ∙ sym r, s)
            ]
            | inr r ↦ inl (inl r)
          ]
          | inl (inr k) ↦ inl (inr k)
          | inr k ↦ inr k
        ];
      }
