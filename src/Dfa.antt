-- ===== src/Dfa.antt =====
-- src/memory/icache_dfa.cpp, icache_dfa_map.cpp, disp_dfa.cpp and disp_dfa_map.cpp: the work list
-- that the four data flow analyses share, `analyzeCache` and `analyzeDISP`. What is done with a
-- vertex, `process`, and the state `D` are theirs.
use isptap.Prelude.{
  ℕ, zero, suc, Bool, true, false, ◌&&◌, not, List, [], ◌∷◌, Option, none, some, ltb, ◌==◌,
  if◌then◌else◌, ◌>>=◌, ◌>>◌, check,
}
use isptap.MemStateGraph.{Edge, is_forward, in_edges, out_edges, in_degree}
pub mod Push
pub mod Ends
pub mod Loop

-- The targets of the forward edges are pushed one by one; the head of the list is the vector's back.
unfoldable pub push_targets : List Edge → List ℕ → List ℕ
push_targets [] processing = processing
push_targets (e ∷ es) processing =
    push_targets es (if is_forward e then e.target ∷ processing else processing)

module _ {D : Type 0} (edges : List Edge) (entry exit : ℕ) (valid : D → ℕ → Bool)
    (process : ℕ → D → Option D) where
  -- the loop of `isPredecessorMemStateKnown`
  unfoldable pub all_known : D → List Edge → Bool
  all_known d [] = true
  all_known d (e ∷ es) =
      let rest = all_known d es in
      if is_forward e then (if valid d e.source then rest else false) else rest

  unfoldable pub is_predecessor_mem_state_known : ℕ → D → Option Bool
  is_predecessor_mem_state_known v d =
      if v == entry
      then check (in_degree v edges == 0) >> some true
      else check (ltb 0 (in_degree v edges)) >> some (all_known d (in_edges v edges))

  -- a turn of the loop, for the vertex that left the list
  unfoldable pub turn : ℕ → List ℕ → D → Option (List ℕ × D)
  turn v processing d = do
    known ← is_predecessor_mem_state_known v d
    if known && not (v == exit)
        then (do d' ← process v d; some (push_targets (out_edges v edges) processing, d'))
        else some (processing, d)

  -- The loop, on fuel; `none` is a failed assertion or the end of the fuel.
  unfoldable pub loop : ℕ → List ℕ → D → Option D
  loop fuel [] d = some d
  loop zero (v ∷ processing) d = none
  loop (suc fuel) (v ∷ processing) d = do
    (processing', d') ← turn v processing d
    loop fuel processing' d'
