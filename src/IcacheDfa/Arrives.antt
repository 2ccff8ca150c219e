-- ===== src/IcacheDfa/Arrives.antt =====
-- The caches that reach a vertex, and the states after its predecessors.
use isptap.Prelude.{
  ℕ, suc, ◌≡◌, ◌≢◌, refl, ap, sym, ◌∙◌, Bool, true, false, List, [], ◌∷◌, some, All, AnyOf, length,
  inl, inr, Bool-cases, some_injective,
}
use mathlib.Core.List.{Memᴰ}
use mathlib.Core.List.Memᴰ
use mathlib.Core.Path.{subst}
use isptap.MemUsage.{MemoryUsageStats}
use isptap.AbsSet.{AbsMemSet}
use isptap.MemStateGraph.{Edge, MemStateGraph, basic_block, is_forward, count_forward}
use isptap.MemStateGraph.Edges.{Forward}
use isptap.IcacheDfa.{
  CacheStateMaintainer, CacheParams, DfaState, lines_of, state_after, prev_states,
}
use isptap.IcacheDfa.Lines.{Laid}
use isptap.IcacheDfa.Loaded.{lines_loaded}
use isptap.IcacheDfa.Sound.{ConcreteCache, accesses, Clear, SoundMaintainer}

module _ {C : Type 0} (k : ConcreteCache C) (m : CacheStateMaintainer) (p : CacheParams)
    (g : MemStateGraph) (entry : ℕ) where
  -- A run along forward edges reaches the vertex with this cache.
  pub data Arrives : ℕ → C → Type 0 where
    here : Arrives entry k.start
    step :
        (e : Edge) (c : C) (l : List ℕ)
        → Forward g.edges e
        → Arrives e.source c
        → lines_of m p g entry e.source ≡ some l
        → Arrives e.target (accesses k l c)

  module _ (Describes : C → AbsMemSet → Type 0) (sound : SoundMaintainer k m Describes)
      (blocks : (v : ℕ) → (g.cfg_node v).node_type ≡ basic_block → Laid p (g.cfg_node v)) where
    accesses-Clear :
        (l : List ℕ) (c : C) → All (λ x. x ≢ 0) l → Clear k c → Clear k (accesses k l c)
    unfolding accesses
    accesses-Clear [] c h z = z
    accesses-Clear (a ∷ l) c h z =
        accesses-Clear l (k.access a c) h.1 (sound.access_clear a c h.0 z)

    pub clear : (v : ℕ) (c : C) → Arrives v c → Clear k c
    clear v c here = sound.start_clear
    clear v c (step e c' l f a q) =
        let (l', r, h) = lines_loaded p (g.cfg_node e.source) (blocks e.source) in
        let same : l' ≡ l = some_injective (sym r ∙ q) in
        accesses-Clear l c' (subst (All (λ x. x ≢ 0)) same h) (clear e.source c' a)

    -- The state of the vertex describes all caches that reach it, and some cache does.
    pub record Known (d : DfaState) (v : ℕ) : Type 0 where
      pub describes : (c : C) → Arrives v c → Describes c (d.mem_state v)
      pub reached : (c : C) × Arrives v c

    unfoldable pub After : Edge → AbsMemSet → Type 0
    After e s =
        (c : C) (l : List ℕ)
        → Arrives e.source c
        → lines_of m p g entry e.source ≡ some l
        → Describes (accesses k l c) s

    pub state_after_lem :
        (e : Edge) (use_stats : Bool) (d : DfaState) (stats : MemoryUsageStats)
        → Known d e.source
        → (s : AbsMemSet) × (stats' : MemoryUsageStats) × (state_after m p g entry e.source
              use_stats d stats
            ≡ some (s, stats'))
          × After e s
          × ((c : C) × Describes c s)
    unfolding state_after After
    state_after_lem e use_stats d stats known =
        let (c, a) = known.reached in
        let (l, r, h) = lines_loaded p (g.cfg_node e.source) (blocks e.source) in
        let (s, stats', u, t) =
          sound.update_sound (d.mem_state e.source) l use_stats stats (c, known.describes c a) in
        (
          s,
          stats',
          rw r u,
          λ c' l' a' q.
              let same : l ≡ l' = some_injective (sym r ∙ q) in
              subst (λ x. Describes (accesses k x c') s) same (t c' (known.describes c' a')),
          (accesses k l c, t c (known.describes c a)),
        )

    -- What the loop of the join collects.
    pub record Collects (es : List Edge) (d : DfaState) (stats : MemoryUsageStats) : Type 0 where
      pub states : List AbsMemSet
      pub stats' : MemoryUsageStats
      pub returns : prev_states m p g entry es d stats ≡ some (states, stats')
      pub sized : length states ≡ count_forward es
      pub described : All (λ s. (c : C) × Describes c s) states
      pub covered :
          (e : Edge)
          → Memᴰ e es
          → is_forward e ≡ true
          → (c : C) (l : List ℕ) → Arrives e.source c
          → lines_of m p g entry e.source ≡ some l
          → AnyOf (Describes (accesses k l c)) states

    pub prev_states-Collects :
        (es : List Edge) (d : DfaState) (stats : MemoryUsageStats)
        → ((e : Edge) → Memᴰ e es → is_forward e ≡ true → Known d e.source)
        → Collects es d stats
    unfolding prev_states count_forward After
    prev_states-Collects [] d stats h = record {
      states = [];
      stats' = stats;
      returns = refl;
      sized = refl;
      described = tt;
      covered = λ e y. absurd (Memᴰ.not-nil y);
    }
    prev_states-Collects (x ∷ es) d stats h = elim (Bool-cases (is_forward x)) [
      | inl q ↦
          let (s, stats', r, after, some_cache) =
            state_after_lem x false d stats (h x (Memᴰ.head refl) q) in
          let rest = prev_states-Collects es d stats' (λ e y. h e (Memᴰ.tail y)) in
          record {
            states = s ∷ rest.states;
            stats' = rest.stats';
            returns = rw (q, r, rest.returns) refl;
            sized = rw q (ap suc rest.sized);
            described = (some_cache, rest.described);
            covered = λ e y f c l a t. elim (Memᴰ.cases_cons y) [
              | inl same ↦ inl (
                  after c l (subst (λ z. Arrives z.source c) same a)
                    (subst (λ z. lines_of m p g entry z.source ≡ some l) same t))
              | inr y' ↦ inr (rest.covered e y' f c l a t)
            ];
          }
      | inr q ↦
          let rest = prev_states-Collects es d stats (λ e y. h e (Memᴰ.tail y)) in
          record {
            states = rest.states;
            stats' = rest.stats';
            returns = rw q rest.returns;
            sized = rw q rest.sized;
            described = rest.described;
            covered = λ e y f c l a t. elim (Memᴰ.cases_cons y) [
              | inl same ↦ absurd (true_or_false (subst (λ z. is_forward z ≡ true) same f) q)
              | inr y' ↦ rest.covered e y' f c l a t
            ];
          }
    ]
      where
        true_or_false : {b : Bool} → b ≡ true → b ≡ false → ⊥
        true_or_false t f = cc
