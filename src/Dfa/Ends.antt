-- ===== src/Dfa/Ends.antt =====
-- The work list ends with a known state at each vertex.
use isptap.Prelude.{
  ℕ, zero, suc, ◌≤◌, ◌<◌, ◌≡◌, ◌≢◌, refl, ap, sym, ◌∙◌, Bool, true, false, List, [], ◌∷◌, Option,
  some, ◌==◌, arith, inl, inr, All, ℕ_discrete,
}
use mathlib.Core.List.Memᴰ
use isptap.MemStateGraph.{Edge, out_edges, in_degree}
use isptap.MemStateGraph.Edges.{Forward, out_edges-mem}
use isptap.Dfa.{push_targets, turn, loop}
use isptap.Dfa.Push.{push_targets-All, total, total-push_targets, Levels, weight, weight-out_edges}
use isptap.Dfa.Loop.{Fed, Processes, Closed, Ends, known-cases, visited, skipped}

module _ {D : Type 0} (edges : List Edge) (entry exit : ℕ) (valid : D → ℕ → Bool)
    (process : ℕ → D → Option D) (Inv : D → Type 0)
    (laws : Processes edges entry exit valid process Inv) (source_only : in_degree entry edges ≡ 0)
    (depth : ℕ) (level : ℕ → ℕ) (lv : Levels edges depth level) where
  record Progress (v : ℕ) (processing : List ℕ) (d : D) : Type 0 where
    pub processing' : List ℕ
    pub next_state : D
    pub turns : turn edges entry exit valid process v processing d ≡ some (processing', next_state)
    pub inv : Inv next_state
    pub fed : All (Fed edges entry) processing'
    pub closed : Closed edges entry exit valid process processing' next_state
    pub less :
        total (weight edges depth level lv) processing'
        < total (weight edges depth level lv) (v ∷ processing)

  turn-Progress :
      (v : ℕ) (processing : List ℕ) (d : D)
      → Inv d
      → All (Fed edges entry) (v ∷ processing)
      → Closed edges entry exit valid process (v ∷ processing) d
      → Progress v processing d
  unfolding turn total
  turn-Progress v processing d inv fed c =
      let heavy = weight-out_edges edges depth level lv v in
      elim (known-cases edges entry exit valid process source_only v d fed.0) [
        | inl (k, ready) ↦ elim (ℕ_discrete v exit) [
          | yes q ↦
              let b : (v == exit) ≡ true = ground arith in
              record {
                processing' = processing;
                next_state = d;
                turns = rw (k, b) refl;
                inv = inv;
                fed = fed.1;
                closed =
                    skipped edges entry exit valid process source_only Inv laws v processing d fed.0
                      (inl q) c;
                less = omega (arith, heavy);
              }
          | no q ↦
              let b : (v == exit) ≡ false = ground arith in
              let (d', e, inv', h) = laws.runs v d inv fed.0 ready q in
              record {
                processing' = push_targets (out_edges v edges) processing;
                next_state = d';
                turns = rw (k, b, e) refl;
                inv = inv';
                fed =
                    push_targets-All (Fed edges entry) (out_edges v edges) processing
                      (λ e f. inr (
                        e,
                        record { listed = (out_edges-mem v edges e f.listed).0; ahead = f.ahead },
                        refl,
                      ))
                      fed.1;
                closed =
                    visited edges entry exit valid process source_only Inv laws v processing d d'
                      fed.0 h c;
                less = omega (
                  arith,
                  heavy,
                  total-push_targets (weight edges depth level lv) (out_edges v edges) processing,
                );
              }
        ]
        | inr (k, waits) ↦ record {
          processing' = processing;
          next_state = d;
          turns = rw k refl;
          inv = inv;
          fed = fed.1;
          closed =
              skipped edges entry exit valid process source_only Inv laws v processing d fed.0
                (inr waits) c;
          less = omega (arith, heavy);
        }
      ]

  pub loop-Ends :
      (fuel : ℕ) (processing : List ℕ) (d : D)
      → total (weight edges depth level lv) processing ≤ fuel
      → Inv d
      → All (Fed edges entry) processing
      → Closed edges entry exit valid process processing d
      → Ends edges entry exit valid process Inv fuel processing d
  unfolding loop
  loop-Ends fuel [] d enough inv fed c = record {
    result = d;
    returns = refl;
    inv = inv;
    closed = c;
  }
  loop-Ends zero (v ∷ processing) d enough inv fed c =
      let p = turn-Progress v processing d inv fed c in absurd (omega (arith, p.less))
  loop-Ends (suc fuel) (v ∷ processing) d enough inv fed c =
      let p = turn-Progress v processing d inv fed c in
      let r =
        loop-Ends fuel p.processing' p.next_state (omega (arith, p.less)) p.inv p.fed p.closed in
      record { result = r.result; returns = rw p.turns r.returns; inv = r.inv; closed = r.closed }

  -- In a graph whose forward edges start at vertices that the entry leads to, and none at the exit,
  -- all vertices but the exit are known at the end.
  pub Closed-known :
      (d : D)
      → Closed edges entry exit valid process [] d
      → ((e : Edge) → Forward edges e → Fed edges entry e.source × (e.source ≢ exit))
      → (v : ℕ) → Fed edges entry v
      → v ≢ exit
      → valid d v ≡ true
  Closed-known d c through v fed far = go (suc (level v)) v (omega arith) fed far
    where
      go : (n v : ℕ) → level v < n → Fed edges entry v → v ≢ exit → valid d v ≡ true
      go zero v h fed far = absurd (omega arith)
      go (suc n) v h (inl q) far = elim c.begun [
        | inl r ↦ absurd (far (q ∙ r))
        | inr (inl m) ↦ absurd (Memᴰ.not-nil m)
        | inr (inr k) ↦ rw q k
      ]
      go (suc n) v h (inr (e, f, t)) far =
          let before : (x : Edge) → Forward edges x → x.target ≡ v → valid d x.source ≡ true =
            λ x g s.
              let (w, y) = through x g in
              go n x.source (omega (arith, lv.climbs x g, ap level s)) w y in
          elim (c.follows e f (before e f t) (λ q. far (sym t ∙ q))) [
            | inl (inl m) ↦ absurd (Memᴰ.not-nil m)
            | inl (inr k) ↦ rw (← t) k
            | inr (g, k, s, u) ↦ cc (before g k (s ∙ t))
          ]
