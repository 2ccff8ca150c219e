-- ===== src/IcacheDfa/Analysis.antt =====
-- The loop of `analyzeCache`, from a graph on which no state is known.
use isptap.Prelude.{
  ℕ, ◌-◌, ◌≤◌, ◌<◌, ◌≡◌, ◌≢◌, refl, true, false, [], ◌∷◌, some, arith, inl, inr, ltb,
}
use mathlib.Core.List.{Memᴰ}
use isptap.AbsSet.{AbsMemSet}
use isptap.MemStateGraph.{Edge, MemStateGraph, basic_block, in_degree}
use isptap.MemStateGraph.Edges.{Forward}
use isptap.Dfa.Push.{Levels, work, total}
use isptap.Dfa.Loop.{Fed}
use isptap.Dfa.Ends.{loop-Ends, Closed-known}
use isptap.IcacheDfa.{CacheStateMaintainer, CacheParams, DfaState, process, analyze_loop}
use isptap.IcacheDfa.Lines.{Laid}
use isptap.IcacheDfa.Sound.{ConcreteCache, SoundMaintainer}
use isptap.IcacheDfa.Arrives.{Arrives, here, step, Known}
use isptap.IcacheDfa.Invariant.{Inv, process-Processes}

-- What the analysis takes for granted of a memory state graph: nothing leads into the entry; its
-- forward edges have no cycle, they start at vertices that the entry leads to, and none at the exit;
-- its blocks are not empty and lie within the address space.
pub record Sane (p : CacheParams) (g : MemStateGraph) (entry exit depth : ℕ) (level : ℕ → ℕ)
    : Type 0 where
  pub source_only : in_degree entry g.edges ≡ 0
  pub levels : Levels g.edges depth level
  pub through : (e : Edge) → Forward g.edges e → Fed g.edges entry e.source × (e.source ≢ exit)
  pub blocks : (v : ℕ) → (g.cfg_node v).node_type ≡ basic_block → Laid p (g.cfg_node v)

Arrives-Fed :
    {C : Type 0} (k : ConcreteCache C) (m : CacheStateMaintainer) (p : CacheParams)
    (g : MemStateGraph) (entry v : ℕ) (c : C)
    → Arrives k m p g entry v c
    → Fed g.edges entry v
Arrives-Fed k m p g entry v c here = inl refl
Arrives-Fed k m p g entry v c (step e c' l f a q) = inr (e, f, refl)

pub analyze_loop-Known :
    {C : Type 0} (k : ConcreteCache C) (m : CacheStateMaintainer)
    (Describes : C → AbsMemSet → Type 0) (sound : SoundMaintainer k m Describes) (p : CacheParams)
    (g : MemStateGraph) (entry exit depth : ℕ) (level : ℕ → ℕ)
    (sane : Sane p g entry exit depth level) (fuel : ℕ) (d : DfaState)
    → 0 < p.line_no
    → work g.edges (depth - level entry) entry ≤ fuel
    → ((v : ℕ) → d.mem_state_valid v ≡ false)
    → (d' : DfaState) × (analyze_loop m p g entry exit fuel d ≡ some d')
      × ((v : ℕ) → Fed g.edges entry v → v ≢ exit → d'.mem_state_valid v ≡ true)
      × ((v : ℕ)
          → Fed g.edges entry v
          → v ≢ exit
          → Known k m p g entry Describes sound sane.blocks d' v)
unfolding analyze_loop total
analyze_loop-Known k m Describes sound p g entry exit depth level sane fuel d lines enough fresh =
    let laws = process-Processes k m p g entry exit Describes sound sane.blocks sane.source_only in
    let b : ltb 0 p.line_no ≡ true = ground arith in
    let ends =
      loop-Ends g.edges entry exit (λ (d : DfaState). d.mem_state_valid) (process m p g entry)
        (Inv k m p g entry exit Describes sound sane.blocks sane.source_only) laws sane.source_only
        depth level sane.levels fuel (entry ∷ []) d (omega (arith, enough))
        (λ u h. absurd (true_or_false h (fresh u))) (inl refl, tt)
        (record {
          begun = inr (inl (Memᴰ.head refl));
          follows = λ e f h far. absurd (true_or_false h (fresh e.source));
        }) in
    let known =
      Closed-known g.edges entry exit (λ (d : DfaState). d.mem_state_valid) (process m p g entry)
        (Inv k m p g entry exit Describes sound sane.blocks sane.source_only) laws sane.source_only
        depth level sane.levels ends.result ends.closed sane.through in
    (ends.result, rw b ends.returns, known, λ v fed far. ends.inv v (known v fed far))
  where
    true_or_false : {b : _} → b ≡ true → b ≡ false → ⊥
    true_or_false t f = cc

-- The loop of the analysis ends. It takes at most `work` turns, the number of the walks along forward
-- edges from the entry; with that fuel it fails no assertion. Every vertex but the exit that the entry
-- leads to has a state then. The state of a vertex describes each cache that a run from the entry
-- along forward edges reaches it with, where the cache is empty at the entry. The conditions are
-- those of `Sane`, a cache of at least one line, a sound maintainer, and no state known before.
pub analyze_loop-describes :
    {C : Type 0} (k : ConcreteCache C) (m : CacheStateMaintainer)
    (Describes : C → AbsMemSet → Type 0) (sound : SoundMaintainer k m Describes) (p : CacheParams)
    (g : MemStateGraph) (entry exit depth : ℕ) (level : ℕ → ℕ)
    (sane : Sane p g entry exit depth level) (fuel : ℕ) (d : DfaState)
    → 0 < p.line_no
    → work g.edges (depth - level entry) entry ≤ fuel
    → ((v : ℕ) → d.mem_state_valid v ≡ false)
    → (d' : DfaState) × (analyze_loop m p g entry exit fuel d ≡ some d')
      × ((v : ℕ) → Fed g.edges entry v → v ≢ exit → d'.mem_state_valid v ≡ true)
      × ((v : ℕ) (c : C) → Arrives k m p g entry v c → v ≢ exit → Describes c (d'.mem_state v))
analyze_loop-describes k m Describes sound p g entry exit depth level sane fuel d lines enough
      fresh =
    let (d', e, valid, known) =
      analyze_loop-Known k m Describes sound p g entry exit depth level sane fuel d lines enough
        fresh in
    (d', e, valid, λ v c a far. (known v (Arrives-Fed k m p g entry v c a) far).describes c a)
