-- ===== src/DispDfa/Runs.antt =====
-- The runs that the analysis of the scratchpad is about: the functions that they load, and the
-- functions that are active.
use isptap.Prelude.{ℕ, ◌<◌, ◌≡◌, ◌≢◌, refl, ap, sym, ◌∙◌, false, List, [], ◌∷◌, arith, All}
use isptap.FifoCache.{in_content}
use isptap.MemStateGraph.{Edge, get_forward_in_edge_count, in_degree}
use isptap.MemStateGraph.Edges.{Forward}
use isptap.Dfa.Push.{Levels}
use isptap.Dfa.Loop.{Fed}
use isptap.Disp.{DispParams}
use isptap.FifoDisp.Policy.{Sound}
use isptap.LruCache.Concrete.{remove}
use isptap.LruDisp.Concrete.{lru_activate, in_content-fit, in_content-remove}
use isptap.DispDfa.{DispGraph, Handling, calls, returns, neither, handling_of}

-- A function is called at the entry node of its code, and left at the exit node.
unfoldable pub next_context : Handling → ℕ → List ℕ → List ℕ
next_context calls addr ctx = addr ∷ ctx
next_context returns addr [] = []
next_context returns addr (f ∷ ctx) = ctx
next_context neither addr ctx = ctx

-- The return to the function that is on top of the stack; the root function has none below it.
unfoldable pub return_to : DispParams → List ℕ → List ℕ → List ℕ
return_to p [] c = c
return_to p (f ∷ ctx) c = lru_activate p f c

-- The call loads the called function, the return the calling one.
unfoldable pub next_content : DispParams → Handling → ℕ → List ℕ → List ℕ → List ℕ
next_content p calls addr ctx c = lru_activate p addr c
next_content p returns addr [] c = c
next_content p returns addr (f ∷ ctx) c = return_to p ctx c
next_content p neither addr ctx c = c

module _ (p : DispParams) (g : DispGraph) (super_entry : ℕ) where
  abbrev pub kind : ℕ → Handling
  kind v =
      handling_of p (record { abs_mem_set = 0; abs_mem_entry = 0; entry_vector = 0 }) g super_entry
        v

  -- A run along forward edges reaches the vertex with these loaded functions and these active ones.
  -- `addr` is the address of the function that an entry node calls.
  pub data Arrives (addr : ℕ → ℕ) : ℕ → List ℕ → List ℕ → Type 0 where
    here : Arrives addr super_entry [] []
    step :
        (e : Edge) (c ctx : List ℕ)
        → Forward g.msg.edges e
        → Arrives addr e.source c ctx
        → Arrives addr e.target
            (next_content p (kind e.source) (addr e.source) ctx c)
            (next_context (kind e.source) (addr e.source) ctx)

  -- What the analysis takes for granted of the graph: nothing leads into the super entry; the forward
  -- edges have no cycle, they start at vertices that the super entry leads to, and none at the super
  -- exit; an entry node has one successor, and its function can be loaded or is ignored; a vertex has
  -- one context, for functions are inlined; a function is active at an exit node; no paths join right
  -- after a call or a return.
  pub record Sane (super_exit depth : ℕ) (level addr : ℕ → ℕ) (context : ℕ → List ℕ) : Type 0 where
    pub source_only : in_degree super_entry g.msg.edges ≡ 0
    pub levels : Levels g.msg.edges depth level
    pub through :
        (e : Edge)
        → Forward g.msg.edges e
        → Fed g.msg.edges super_entry e.source × (e.source ≢ super_exit)
    pub called :
        (v : ℕ) → kind v ≡ calls → (g.out_addrs v ≡ addr v ∷ []) × Sound p (addr v) × (addr v ≢ 0)
    pub root : context super_entry ≡ []
    pub follows :
        (e : Edge)
        → Forward g.msg.edges e
        → context e.target ≡ next_context (kind e.source) (addr e.source) (context e.source)
    pub inside :
        (v : ℕ) → kind v ≡ returns → v ≢ super_exit → Fed g.msg.edges super_entry v → context v ≢ []
    pub joins :
        (e : Edge)
        → Forward g.msg.edges e
        → 1 < get_forward_in_edge_count e.target g.msg.edges
        → kind e.source ≡ neither

  module _ (super_exit depth : ℕ) (level addr : ℕ → ℕ) (context : ℕ → List ℕ)
      (sane : Sane super_exit depth level addr context) where
    -- The stack of the run is the one of the vertex.
    pub Arrives-context : (v : ℕ) (c ctx : List ℕ) → Arrives addr v c ctx → ctx ≡ context v
    Arrives-context v c ctx here = sym sane.root
    Arrives-context v c ctx (step e c' ctx' f a) =
        ap (next_context (kind e.source) (addr e.source)) (Arrives-context e.source c' ctx' a)
        ∙ sym (sane.follows e f)

    -- A function that can be loaded, and whose address is not 0.
    abbrev pub Good : ℕ → Type 0
    Good f = Sound p f × (f ≢ 0)

    next_context-All :
        (k : Handling) (f : ℕ) (ctx : List ℕ)
        → (k ≡ calls → Good f)
        → All Good ctx
        → All Good (next_context k f ctx)
    unfolding next_context
    next_context-All calls f ctx h w = (h refl, w)
    next_context-All returns f [] h w = tt
    next_context-All returns f (x ∷ ctx) h w = w.1
    next_context-All neither f ctx h w = w

    pub context-Good : (v : ℕ) (c ctx : List ℕ) → Arrives addr v c ctx → All Good ctx
    context-Good v c ctx here = tt
    context-Good v c ctx (step e c' ctx' f a) =
        next_context-All (kind e.source) (addr e.source) ctx'
          (λ q. let (_, s, n) = sane.called e.source q in (s, n)) (context-Good e.source c' ctx' a)

    activate_clear :
        (f : ℕ) (c : List ℕ)
        → f ≢ 0
        → in_content 0 c ≡ false
        → in_content 0 (lru_activate p f c) ≡ false
    unfolding lru_activate in_content
    activate_clear f c n z =
        let w = in_content-fit p 0 p.size (f ∷ remove f c) in
        ground (arith, w.0, in_content-remove p f 0 c (λ q. n (sym q)))

    content_clear :
        (k : Handling) (f : ℕ) (ctx c : List ℕ)
        → (k ≡ calls → Good f)
        → All Good ctx
        → in_content 0 c ≡ false
        → in_content 0 (next_content p k f ctx c) ≡ false
    unfolding next_content return_to
    content_clear calls f ctx c h w z = activate_clear f c (h refl).1 z
    content_clear returns f [] c h w z = z
    content_clear returns f (x ∷ []) c h w z = z
    content_clear returns f (x ∷ y ∷ ctx) c h w z = activate_clear y c w.1.0.1 z
    content_clear neither f ctx c h w z = z

    -- Address 0 is not loaded.
    pub Arrives-clear : (v : ℕ) (c ctx : List ℕ) → Arrives addr v c ctx → in_content 0 c ≡ false
    unfolding in_content
    Arrives-clear v c ctx here = refl
    Arrives-clear v c ctx (step e c' ctx' f a) =
        content_clear (kind e.source) (addr e.source) ctx' c'
          (λ q. let (_, s, n) = sane.called e.source q in (s, n)) (context-Good e.source c' ctx' a)
          (Arrives-clear e.source c' ctx' a)
