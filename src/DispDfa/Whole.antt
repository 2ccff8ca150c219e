-- ===== src/DispDfa/Whole.antt =====
-- The whole of `analyzeDISP`: the penalties on the edges bound the costs of calls and returns.
use isptap.Prelude.{ℕ, ◌-◌, ◌≤◌, ◌<◌, ◌≡◌, ◌≢◌, refl, false, List, none, some}
use mathlib.Core.Path.{subst}
use isptap.AbsSet.{Sizes}
use isptap.MemStateGraph.{Edge}
use isptap.Dfa.Push.{work}
use isptap.IcacheDfa.Costs.{vertices}
use isptap.IcacheDfa.Bound.{mem-vertices}
use isptap.Disp.{DispParams}
use isptap.DispDfa.{DispGraph, DispDfaState, calls, returns}
use isptap.DispDfa.Runs.{kind, Sane}
use isptap.DispDfa.Analysis.{analyze_disp-Known}
use isptap.DispDfa.Costs.{Timing, calculate_mem_penalty, analyze_disp}
use isptap.DispDfa.Paid.{Priced, Shape, CallPaid, ReturnPaid, Paid}
use isptap.DispDfa.Bound.{add_penalties-Paid}

-- `analyzeDISP` returns. The edges that it returns are edges of the graph, with penalties. For each
-- vertex of the graph but the super exit, and each run along forward edges that reaches it: where it
-- is an entry node, the penalty of each edge that leaves it is at least what the call costs on the
-- run, and where it is an exit node, the penalty of each edge that enters it is at least what the
-- return to the calling function costs. The cost counts the cycles of the control, beyond those of
-- the call or the return itself, for a hit if the run has the function loaded and for loading its
-- blocks otherwise. The conditions are those of `Sane` and `Priced`, a memory that is not empty, and
-- no state and no context known before.
pub analyze_disp-bounds_costs :
    (p : DispParams) (sizes : Sizes) (t : Timing) (g : DispGraph) (super_entry super_exit depth : ℕ)
    (level addr : ℕ → ℕ) (context : ℕ → List ℕ)
    (sane : Sane p g super_entry super_exit depth level addr context)
    (priced : Priced p sizes t g super_entry super_exit depth level addr context sane) (fuel : ℕ)
    (d : DispDfaState)
    → 0 < p.size
    → work g.msg.edges (depth - level super_entry) super_entry ≤ fuel
    → ((v : ℕ) → d.mem_state_valid v ≡ false)
    → ((v : ℕ) → d.ctx_map v ≡ none)
    → (d' : DispDfaState) × (es : List Edge) × (analyze_disp p sizes t g super_entry super_exit fuel
          d
        ≡ some (d', es))
      × Shape p sizes t g super_entry super_exit depth level addr context sane es
      × ((v : ℕ)
          → v < g.msg.no_vertices
          → v ≢ super_exit
          → (kind p g super_entry v ≡ calls
              → CallPaid p sizes t g super_entry super_exit depth level addr context sane v es)
            × (kind p g super_entry v ≡ returns
                → ReturnPaid p sizes t g super_entry super_exit depth level addr context sane v es))
unfolding analyze_disp calculate_mem_penalty
analyze_disp-bounds_costs p sizes t g super_entry super_exit depth level addr context sane priced
      fuel d filled enough fresh no_context =
    let (d', e, known, at_exit) =
      analyze_disp-Known p sizes g super_entry super_exit depth level addr context sane fuel d
        filled enough fresh no_context in
    let (es, e', shape, paid, keeps) =
      add_penalties-Paid p sizes t g super_entry super_exit depth level addr context sane priced d'
        (λ v f n. (known v f n).1) (at_exit super_exit) (vertices g.msg.no_vertices) g.msg.edges
        (λ x m. (x, m, refl, refl)) in
    (
      d',
      es,
      rw (e, e') refl,
      shape,
      λ v h n.
          let w = paid v (mem-vertices g.msg.no_vertices v h) n in
          (
            (λ q.
                subst
                  (λ k.
                    Paid p sizes t g super_entry super_exit depth level addr context sane k v es)
                  q w),
            (λ q.
                subst
                  (λ k.
                    Paid p sizes t g super_entry super_exit depth level addr context sane k v es)
                  q w),
          ),
    )
