-- ===== src/StackDisp/Activate.antt =====
-- The activation of a function in the scratchpad with stack replacement.
use isptap.StackDisp.Disjoint.{LaidOut, LaidOut-Laid, Laid-LaidOut, Loads, Activated-Loads}
use isptap.Prelude.{
  inl, ℕ, ◌^◌, ◌≤◌, ◌<◌, ◌≡◌, refl, true, false, List, [], ◌∷◌, some, arith, AnyOf, length, leb,
  ltb,
}
use isptap.Disp.{Activation, DispParams, get_function_mem_size}
use isptap.StackDisp.{
  StackEntry, StackDispMemState, in_entries, is_in_state, entry_behind, entry_before, insert_called,
  insert_function, activate_function,
}
use isptap.StackDisp.Overlap.{Placed}
use isptap.StackDisp.Evict.{Laid, kept}
use isptap.StackDisp.Insert.{Laid-Apart, Inserts, insert_behind_lem, insert_before_lem}
use isptap.StackDisp.Neighbour.{
  Activated, some_entry, Next, evicted, behind_neighbour, before_neighbour, neighbour_size,
}

module _ (q : DispParams) (small : q.size ≤ 2 ^ 16) where
  abbrev pub make : Activation → ℕ → ℕ → ℕ → StackEntry → StackEntry
  make Activation.call f size pred = entry_behind q.size f size pred
  make Activation.back f size pred = entry_before q.size f size pred

  insert_function_lem :
      (act : Activation) (f size pred : ℕ) (l : List StackEntry)
      → in_entries pred l ≡ true
      → Inserts q.size f size pred
          (make act f size pred)
          l
          (insert_function q.size f size pred act l)
  unfolding insert_function insert_called in_entries
  insert_function_lem Activation.call f size pred [] h = cc
  insert_function_lem Activation.call f size pred (e ∷ l) h =
      insert_behind_lem q.size f size pred (e ∷ l) h
  insert_function_lem Activation.back f size pred l h = insert_before_lem q.size f size pred l h

  make_neighbour :
      (act : Activation) (f size pred : ℕ) (p : StackEntry)
      → Placed q.size p
      → size ≤ q.size
      → ((make act f size pred p).address ≡ f)
        × Next q.size small act size p (make act f size pred p)
        × ((make act f size pred p).pos_begin < q.size)
        × ((make act f size pred p).pos_end < q.size)
  unfolding entry_behind entry_before
  make_neighbour Activation.call f size pred p pp h =
      let (n, b) = behind_neighbour q.size small f size pred p pp h in (refl, n, pp.1, b)
  make_neighbour Activation.back f size pred p pp h =
      let (n, b) = before_neighbour q.size small f size pred p pp h in (refl, n, b, pp.0)

  -- The activation of a function that may take all of the memory, up to the code's own test of the
  -- overlap.
  activate_lem :
      (act : Activation) (f size pred : ℕ) (s : StackDispMemState)
      → get_function_mem_size q f ≡ some size
      → 0 < size
      → size ≤ q.size
      → Laid q.size s.content
      → in_entries pred s.content ≡ true
      → in_entries f s.content ≡ false
      → (t : StackDispMemState) × (p : StackEntry) × (new : StackEntry) × (activate_function q s f
            act pred
          ≡ some t)
        × AnyOf (λ g. g ≡ p) s.content
        × (p.address ≡ pred)
        × Activated q.size small act f size p new s.content t.content
        × (size < q.size → Laid q.size t.content)
  unfolding activate_function is_in_state
  activate_lem act f size pred s known pos fits laid has fresh =
      let (p, l', placed, i, is_in, named) = insert_function_lem act f size pred s.content has in
      let new = make act f size pred p in
      let (_, pp) = Laid-Apart q.size s.content p laid is_in in
      let (its, n, b, e) = make_neighbour act f size pred p pp fits in
      let (flag, done, after, laid') =
        evicted q.size small act f size p new s.content l' laid is_in fresh its n b e pos fits i in
      let k : ltb q.size size ≡ false = ground arith in
      let one : leb 1 (length (kept q.size new l')) ≡ true =
        some_entry f (kept q.size new l') after.loaded in
      (
        record { content = kept q.size new l' },
        p,
        new,
        rw (known, k, fresh, placed, done, one) refl,
        is_in,
        named,
        after,
        λ h. laid' (neighbour_size q.size small act size p new pp b n pos h),
      )

  -- A function that is not loaded and is smaller than the memory is activated in a scratchpad that is
  -- laid out and has the predecessor loaded: no assertion fails, the function is put behind the
  -- predecessor where it is called and before it where it is returned to, and the functions that stay
  -- are those whose ranges have no position of the memory in common with its range. The scratchpad is
  -- laid out afterwards.
  pub stack_activate_lem :
      (act : Activation) (f size pred : ℕ) (s : StackDispMemState)
      → get_function_mem_size q f ≡ some size
      → 0 < size
      → size < q.size
      → LaidOut q.size s.content
      → in_entries pred s.content ≡ true
      → in_entries f s.content ≡ false
      → (t : StackDispMemState) × (p : StackEntry) × (new : StackEntry) × (activate_function q s f
            act pred
          ≡ some t)
        × AnyOf (λ g. g ≡ p) s.content
        × (p.address ≡ pred)
        × Loads q.size small act f size p new s.content t.content
        × LaidOut q.size t.content
  stack_activate_lem act f size pred s known pos fits laid has fresh =
      let laid' = LaidOut-Laid q.size small s.content laid in
      let (t, p, new, e, is_in, named, after, after_laid) =
        activate_lem act f size pred s known pos (omega arith) laid' has fresh in
      let new_laid = after_laid fits in
      let placed =
        (Laid-Apart q.size t.content new new_laid ((after.entries new).1 (inl refl))).1 in
      (
        t,
        p,
        new,
        e,
        is_in,
        named,
        Activated-Loads q.size small act f size p new s.content t.content laid' placed after,
        Laid-LaidOut q.size small t.content new_laid,
      )
