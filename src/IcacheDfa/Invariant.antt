-- ===== src/IcacheDfa/Invariant.antt =====
-- The work list of the cache analysis: it returns, every vertex but the exit gets a state, and the
-- state describes every cache that a run along forward edges reaches the vertex with.
use isptap.Prelude.{
  ℕ, ◌<◌, ◌≡◌, ◌≢◌, refl, sym, ◌∙◌, Bool, true, false, List, [], ◌∷◌, Option, some, arith, inl, inr,
  ◌⊎◌, Bool-cases, if◌then◌else◌, ltb, ◌==◌, ℕ_discrete, dec_lt,
}
use mathlib.Core.List.{Memᴰ}
use mathlib.Core.List.Memᴰ
use mathlib.Core.Path.{subst}
use isptap.MemUsage.{MemoryUsageStats}
use isptap.AbsSet.{AbsMemSet}
use isptap.MemStateGraph.{
  Edge, MemStateGraph, basic_block, is_forward, count_forward, in_edges, in_degree,
  get_forward_in_edge_count,
}
use isptap.MemStateGraph.Edges.{
  Forward, in_edges-mem, mem-in_edges, in_degree-zero, count_forward-pos, count_forward-zero,
  count_forward-none,
}
use isptap.Dfa.Loop.{Fed, Processes}
use isptap.IcacheDfa.{
  CacheStateMaintainer, CacheParams, DfaState, put_state, lines_of, join_and_set_initial_mem_state,
  set_initial_mem_state, first_forward, process,
}
use isptap.IcacheDfa.Lines.{Laid}
use isptap.IcacheDfa.Loaded.{lines_loaded}
use isptap.IcacheDfa.Sound.{ConcreteCache, accesses, SoundMaintainer}
use isptap.IcacheDfa.Arrives.{
  Arrives, here, step, clear, Known, After, state_after_lem, prev_states-Collects,
}

-- The only forward edge is the one that the search of `setInitialMemState` stops at.
pub only_forward :
    (es : List Edge)
    → count_forward es ≡ 1
    → (e : Edge) × (first_forward es ≡ some e)
      × Memᴰ e es
      × (is_forward e ≡ true)
      × ((x : Edge) → Memᴰ x es → is_forward x ≡ true → e ≡ x)
unfolding first_forward count_forward
only_forward [] h = absurd (omega arith)
only_forward (x ∷ es) h = elim (Bool-cases (is_forward x)) [
  | inl q ↦
      let none_left : count_forward es ≡ 0 = ground arith in
      (
        x,
        rw q refl,
        Memᴰ.head refl,
        q,
        λ y k f. elim (Memᴰ.cases_cons k) [
          | inl same ↦ sym same
          | inr k' ↦ absurd (count_forward-zero es y none_left k' f)
        ],
      )
  | inr q ↦
      let (e, r, k, f, u) = only_forward es (ground arith) in
      (
        e,
        rw q r,
        Memᴰ.tail k,
        f,
        λ y k' f'. elim (Memᴰ.cases_cons k') [
          | inl same ↦ absurd (true_or_false (subst (λ z. is_forward z ≡ true) same f') q)
          | inr k'' ↦ u y k'' f'
        ],
      )
]
  where
    true_or_false : {b : Bool} → b ≡ true → b ≡ false → ⊥
    true_or_false t f = cc

module _ {C : Type 0} (k : ConcreteCache C) (m : CacheStateMaintainer) (p : CacheParams)
    (g : MemStateGraph) (entry exit : ℕ) (Describes : C → AbsMemSet → Type 0)
    (sound : SoundMaintainer k m Describes)
    (blocks : (v : ℕ) → (g.cfg_node v).node_type ≡ basic_block → Laid p (g.cfg_node v))
    (source_only : in_degree entry g.edges ≡ 0) where
  abbrev pub Inv : DfaState → Type 0
  Inv d = (u : ℕ) → d.mem_state_valid u ≡ true → Known k m p g entry Describes sound blocks d u

  -- How a run ends at a vertex.
  Arrives-cases :
      (v : ℕ) (c : C)
      → Arrives k m p g entry v c
      → ((v ≡ entry) × (c ≡ k.start))
        ⊎ ((e : Edge) × (c' : C) × (l : List ℕ) × Forward g.edges e
            × (e.target ≡ v)
            × Arrives k m p g entry e.source c'
            × (lines_of m p g entry e.source ≡ some l)
            × (c ≡ accesses k l c'))
  Arrives-cases v c here = inl (refl, refl)
  Arrives-cases v c (step e c' l f a q) = inr (e, c', l, f, refl, a, q, refl)

  Arrives-next :
      (d : DfaState) (e : Edge)
      → Forward g.edges e
      → Known k m p g entry Describes sound blocks d e.source
      → (c : C) × Arrives k m p g entry e.target c
  Arrives-next d e f known =
      let (c, a) = known.reached in
      let (l, r, h) = lines_loaded p (g.cfg_node e.source) (blocks e.source) in
      (accesses k l c, step e c l f a r)

  put-Inv :
      (v : ℕ) (s : AbsMemSet) (stats : MemoryUsageStats) (d : DfaState)
      → Inv d
      → ((c : C) → Arrives k m p g entry v c → Describes c s)
      → (c : C) × Arrives k m p g entry v c
      → Inv (put_state v s stats d)
  put-Inv v s stats d inv all reached u h = elim (ℕ_discrete u v) [
    | yes q ↦
        let b : (u == v) ≡ true = ground arith in
        record {
          describes = λ c a. rw b (all c (subst (λ w. Arrives k m p g entry w c) q a));
          reached = let (c, a) = reached in (c, subst (λ w. Arrives k m p g entry w c) (sym q) a);
        }
    | no q ↦
        let b : (u == v) ≡ false = ground arith in
        let old = inv u (ground arith) in
        record { describes = λ c a. rw b (old.describes c a); reached = old.reached }
  ]

  abbrev Runs : ℕ → DfaState → Option DfaState → Type 0
  Runs v d o =
      (d' : DfaState) × (o ≡ some d')
      × Inv d'
      × ((u : ℕ) → d'.mem_state_valid u ≡ (if u == v then true else d.mem_state_valid u))

  module _ (v : ℕ) (d : DfaState) (inv : Inv d)
      (ready : (e : Edge)
        → Forward g.edges e
        → e.target ≡ v
        → d.mem_state_valid e.source ≡ true) where
    incoming :
        (e : Edge)
        → Memᴰ e (in_edges v g.edges)
        → is_forward e ≡ true
        → Forward g.edges e × (e.target ≡ v)
    incoming e i f =
        let (w, t) = in_edges-mem v g.edges e i in (record { listed = w; ahead = f }, t)

    entering : (e : Edge) → Forward g.edges e → e.target ≡ v → Memᴰ e (in_edges v g.edges)
    entering e f t = subst (λ u. Memᴰ e (in_edges u g.edges)) t (mem-in_edges g.edges e f.listed)

    before :
        (e : Edge)
        → Memᴰ e (in_edges v g.edges)
        → is_forward e ≡ true
        → Known k m p g entry Describes sound blocks d e.source
    before e i f = let (w, t) = incoming e i f in inv e.source (ready e w t)

    join-Runs :
        (e : Edge)
        → Forward g.edges e
        → e.target ≡ v
        → v ≢ entry
        → 1 < get_forward_in_edge_count v g.edges
        → Runs v d (join_and_set_initial_mem_state m p g entry v d)
    unfolding join_and_set_initial_mem_state
    join-Runs e f t inner many =
        let w =
          prev_states-Collects k m p g entry Describes sound blocks (in_edges v g.edges) d d.stats
            before in
        let (s, left, stats', r, h) =
          sound.join_sound w.states w.stats' w.described (omega (arith, w.sized)) in
        (
          put_state v s stats' d,
          rw (w.returns, r) refl,
          put-Inv v s stats' d inv
              (λ c a. elim (Arrives-cases v c a) [
                | inl (q, _) ↦ absurd (inner q)
                | inr (x, c', l, f', t', a', y, z) ↦
                    h c (clear k m p g entry Describes sound blocks v c a)
                      (rw z (w.covered x (entering x f' t') f'.ahead c' l a' y))
              ])
              (let (c, a) = Arrives-next d e f (before e (entering e f t) f.ahead) in
                (c, subst (λ u. Arrives k m p g entry u c) t a)),
          λ u. refl,
        )

    single-Runs :
        (e : Edge)
        → Forward g.edges e
        → e.target ≡ v
        → v ≢ entry
        → get_forward_in_edge_count v g.edges ≡ 1
        → Runs v d (set_initial_mem_state m p g entry v d)
    unfolding set_initial_mem_state After
    single-Runs e f t inner one =
        let b : (v == entry) ≡ false = ground arith in
        let b' : (get_forward_in_edge_count v g.edges == 1) ≡ true = ground arith in
        let (x, first, i, f', u) = only_forward (in_edges v g.edges) one in
        let (s, stats', r, after, _) =
          state_after_lem k m p g entry Describes sound blocks x true d d.stats (before x i f') in
        (
          put_state v s stats' d,
          rw (b, b', first, r) refl,
          put-Inv v s stats' d inv
              (λ c a. elim (Arrives-cases v c a) [
                | inl (q, _) ↦ absurd (inner q)
                | inr (y, c', l, f'', t', a', q, z) ↦
                    let same = u y (entering y f'' t') f''.ahead in
                    rw z (
                      after c' l (subst (λ w. Arrives k m p g entry w.source c') (sym same) a')
                        (subst (λ w. lines_of m p g entry w.source ≡ some l) (sym same) q))
              ])
              (let (c, a) = Arrives-next d e f (before e (entering e f t) f.ahead) in
                (c, subst (λ u. Arrives k m p g entry u c) t a)),
          λ u. refl,
        )

    entry-Runs : v ≡ entry → Runs v d (set_initial_mem_state m p g entry v d)
    unfolding set_initial_mem_state
    entry-Runs q =
        let b : (v == entry) ≡ true = ground arith in
        let (s, stats') = m.set_blank_mem_state d.stats in
        (
          put_state v s stats' d,
          rw b refl,
          put-Inv v s stats' d inv
              (λ c a. elim (Arrives-cases v c a) [
                | inl (_, z) ↦ rw z (sound.blank_sound d.stats)
                | inr (e, c', l, f, t, a', y, z) ↦
                    absurd (in_degree-zero entry g.edges e source_only f.listed (t ∙ q))
              ])
              (k.start, subst (λ u. Arrives k m p g entry u k.start) (sym q) here),
          λ u. refl,
        )

    process-Runs : Fed g.edges entry v → Runs v d (process m p g entry v d)
    unfolding process
    process-Runs fed = elim (ℕ_discrete v entry) [
      | yes q ↦
          let w : get_forward_in_edge_count v g.edges ≡ 0 = no_way v q in
          let b : ltb 1 (get_forward_in_edge_count v g.edges) ≡ false = ground arith in
          rw b (entry-Runs q)
      | no n ↦
          let (e, f, t) : (e : Edge) × Forward g.edges e × (e.target ≡ v) = elim fed [
            | inl q ↦ absurd (n q)
            | inr r ↦ r
          ] in
          let some_edge = count_forward-pos (in_edges v g.edges) e (entering e f t) f.ahead in
          elim (dec_lt 1 (get_forward_in_edge_count v g.edges)) [
            | yes many ↦
                let b : ltb 1 (get_forward_in_edge_count v g.edges) ≡ true = ground arith in
                rw b (join-Runs e f t n many)
            | no few ↦
                let b : ltb 1 (get_forward_in_edge_count v g.edges) ≡ false = ground arith in
                rw b (single-Runs e f t n (omega arith))
          ]
    ]
      where
        no_way : (v : ℕ) → v ≡ entry → get_forward_in_edge_count v g.edges ≡ 0
        no_way v q =
            subst (λ u. get_forward_in_edge_count u g.edges ≡ 0) (sym q)
              (count_forward-none (in_edges entry g.edges) source_only)

  pub process-Processes :
      Processes g.edges entry exit (λ (d : DfaState). d.mem_state_valid) (process m p g entry) Inv
  process-Processes = record { runs = λ v d inv fed ready far. process-Runs v d inv ready fed }
