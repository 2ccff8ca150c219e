-- ===== src/DispDfa/Tallies.antt =====
-- The walk over the vertices of a graph that tallies the calls and the returns on given runs.
use isptap.Prelude.{ℕ, List, [], ◌∷◌}
use isptap.Disp.{DispParams}
use isptap.DispDfa.{DispGraph, Handling, calls, returns, neither}
use isptap.DispDfa.Runs.{kind}
use isptap.DispDfa.Counted.{Tally, UpTo, same-UpTo, trans-UpTo, tally, tally-UpTo}

module _ (p : DispParams) where
  -- the call of a vertex, in the scratchpad of a run that reaches it
  unfoldable pub tally_call : Handling → ℕ → List ℕ → Tally → Tally
  tally_call calls f c t = tally p f c t
  tally_call returns f c t = t
  tally_call neither f c t = t

  -- the return of a vertex to the function that is second on its context
  unfoldable pub tally_return : Handling → List ℕ → List ℕ → Tally → Tally
  tally_return calls ctx c t = t
  tally_return returns [] c t = t
  tally_return returns (callee ∷ []) c t = t
  tally_return returns (callee ∷ f ∷ ctx) c t = tally p f c t
  tally_return neither ctx c t = t

  tally_call-UpTo : (k : Handling) (f : ℕ) (c : List ℕ) (t : Tally) → UpTo t (tally_call k f c t)
  unfolding tally_call
  tally_call-UpTo calls f c t = tally-UpTo p f c t
  tally_call-UpTo returns f c t = same-UpTo t
  tally_call-UpTo neither f c t = same-UpTo t

  tally_return-UpTo : (k : Handling) (ctx c : List ℕ) (t : Tally) → UpTo t (tally_return k ctx c t)
  unfolding tally_return
  tally_return-UpTo calls ctx c t = same-UpTo t
  tally_return-UpTo returns [] c t = same-UpTo t
  tally_return-UpTo returns (callee ∷ []) c t = same-UpTo t
  tally_return-UpTo returns (callee ∷ f ∷ ctx) c t = tally-UpTo p f c t
  tally_return-UpTo neither ctx c t = same-UpTo t

module _ (p : DispParams) (g : DispGraph) (super_entry : ℕ) (addr : ℕ → ℕ)
    (context content : ℕ → List ℕ) where
  -- the calls of the vertices; `content` is the scratchpad that a run reaches a vertex with
  unfoldable pub tally_calls : List ℕ → Tally → Tally
  tally_calls [] t = t
  tally_calls (v ∷ vs) t =
      tally_calls vs (tally_call p (kind p g super_entry v) (addr v) (content v) t)

  unfoldable pub tally_returns : List ℕ → Tally → Tally
  tally_returns [] t = t
  tally_returns (v ∷ vs) t =
      tally_returns vs (tally_return p (kind p g super_entry v) (context v) (content v) t)

  pub tally_calls-UpTo : (vs : List ℕ) (t : Tally) → UpTo t (tally_calls vs t)
  unfolding tally_calls
  tally_calls-UpTo [] t = same-UpTo t
  tally_calls-UpTo (v ∷ vs) t =
      let t' = tally_call p (kind p g super_entry v) (addr v) (content v) t in
      trans-UpTo t t' (tally_calls vs t')
        (tally_call-UpTo p (kind p g super_entry v) (addr v) (content v) t) (tally_calls-UpTo vs t')

  pub tally_returns-UpTo : (vs : List ℕ) (t : Tally) → UpTo t (tally_returns vs t)
  unfolding tally_returns
  tally_returns-UpTo [] t = same-UpTo t
  tally_returns-UpTo (v ∷ vs) t =
      let t' = tally_return p (kind p g super_entry v) (context v) (content v) t in
      trans-UpTo t t' (tally_returns vs t')
        (tally_return-UpTo p (kind p g super_entry v) (context v) (content v) t)
        (tally_returns-UpTo vs t')
