-- ===== src/StackDisp/Normalize/Rotation.antt =====
-- Two scratchpads have the same normal form exactly where one is a rotation of the other.
use isptap.Prelude.{
  ℕ, ◌+◌, ◌-◌, ◌%◌, ◌^◌, ◌≤◌, ◌<◌, ◌≡◌, ◌≢◌, ◌↔◌, refl, List, [], ◌∷◌, some, none, ◌==◌, arith, All,
  map, sym, ◌∙◌, ap, add32, Bool-cases, inl, inr, some_injective,
}
use native.Mathlib.Nat.{mod-lt}
use isptap.StackDisp.{StackEntry}
use isptap.StackDisp.Insert.{wrap}
use isptap.StackDisp.Normalize.{align_position, align_entry, align_with_offset, normalize}

-- The positions of the entry are in the memory.
abbrev pub Inside : ℕ → StackEntry → Type 0
Inside m e = (e.pos_begin < m) × (e.pos_end < m)

-- the entry whose range is moved by `k` positions on the cycle
unfoldable pub moved : ℕ → ℕ → StackEntry → StackEntry
moved m k e = record e { pos_begin = (e.pos_begin + k) % m; pos_end = (e.pos_end + k) % m }

module _ (m : ℕ) (small : m ≤ 2 ^ 16) where
  -- the position that is `k` before `x` on the cycle
  rot : ℕ → ℕ → ℕ
  rot k x = (x + m - k) % m

  align_position_lem : (k x : ℕ) → k < m → x < m → align_position m k x ≡ rot k x
  unfolding align_position rot
  align_position_lem k x h g =
      let e : (add32 x m + 2 ^ 32 - k) % 2 ^ 32 ≡ x + m - k = omega (arith, small) in
      ap (λ y. y % m) e

  rot-rot : (j k x : ℕ) → j < m → k < m → x < m → rot j (rot k x) ≡ rot ((j + k) % m) x
  unfolding rot
  rot-rot j k x hj hk hx =
      let w = wrap (x + m - k) m (omega arith) (omega arith) in
      let v = wrap ((x + m - k) % m + m - j) m (omega (arith, w.0)) (omega arith) in
      let u = wrap (j + k) m (omega arith) (omega arith) in
      let t = wrap (x + m - (j + k) % m) m (omega (arith, u.0)) (omega arith) in
      ground (arith, w.0, w.1, v.0, v.1, u.0, u.1, t.0, t.1)

  rot_less : (k x : ℕ) → x < m → rot k x < m
  unfolding rot
  rot_less k x h = mod-lt (x + m - k) (omega arith)

  rot_zero : (x : ℕ) → x < m → rot 0 x ≡ x
  unfolding rot
  rot_zero x h = let w = wrap (x + m - 0) m (omega arith) (omega arith) in ground (arith, w.0, w.1)

  rot_back : (k x : ℕ) → k < m → x < m → (rot k x + k) % m ≡ x
  unfolding rot
  rot_back k x hk hx =
      let w = wrap (x + m - k) m (omega arith) (omega arith) in
      let v = wrap ((x + m - k) % m + k) m (omega (arith, w.0)) (omega arith) in
      ground (arith, w.0, w.1, v.0, v.1)

  rot_forth : (k x : ℕ) → k < m → x < m → rot k ((x + k) % m) ≡ x
  unfolding rot
  rot_forth k x hk hx =
      let w = wrap (x + k) m (omega arith) (omega arith) in
      let v = wrap ((x + k) % m + m - k) m (omega (arith, w.0)) (omega arith) in
      ground (arith, w.0, w.1, v.0, v.1)

  moved-align : (k : ℕ) (e : StackEntry) → k < m → Inside m e → moved m k (align_entry m k e) ≡ e
  unfolding moved align_entry
  moved-align k e h i =
      rw
        (
          align_position_lem k e.pos_begin h i.0,
          align_position_lem k e.pos_end h i.1,
          rot_back k e.pos_begin h i.0,
          rot_back k e.pos_end h i.1,
        )
        refl

  align-moved : (k : ℕ) (e : StackEntry) → k < m → Inside m e → align_entry m k (moved m k e) ≡ e
  unfolding moved align_entry
  align-moved k e h i =
      let w = wrap (e.pos_begin + k) m (omega (arith, i.0)) (omega arith) in
      let v = wrap (e.pos_end + k) m (omega (arith, i.1)) (omega arith) in
      rw
        (
          align_position_lem k ((e.pos_begin + k) % m) h w.0,
          align_position_lem k ((e.pos_end + k) % m) h v.0,
          rot_forth k e.pos_begin h i.0,
          rot_forth k e.pos_end h i.1,
        )
        refl

  align_twice :
      (j k : ℕ) (e : StackEntry)
      → j < m
      → k < m
      → Inside m e
      → align_entry m j (align_entry m k e) ≡ align_entry m ((j + k) % m) e
  unfolding align_entry
  align_twice j k e hj hk i = rw (twice e.pos_begin i.0, twice e.pos_end i.1) refl
    where
      twice :
          (x : ℕ)
          → x < m
          → align_position m j (align_position m k x) ≡ align_position m ((j + k) % m) x
      twice x h =
          let w = wrap (x + m - k) m (omega arith) (omega arith) in
          let u = wrap (j + k) m (omega arith) (omega arith) in
          rw
            (
              align_position_lem k x hk h,
              align_position_lem j (rot k x) hj (rot_less k x h),
              align_position_lem ((j + k) % m) x u.0 h,
            )
            (rot-rot j k x hj hk h)

  align_zero : (e : StackEntry) → Inside m e → align_entry m 0 e ≡ e
  unfolding align_entry
  align_zero e i =
      rw
        (
          align_position_lem 0 e.pos_begin (omega (arith, i.0)) i.0,
          align_position_lem 0 e.pos_end (omega (arith, i.0)) i.1,
          rot_zero e.pos_begin i.0,
          rot_zero e.pos_end i.1,
        )
        refl

  align-Inside : (k : ℕ) (e : StackEntry) → k < m → Inside m e → Inside m (align_entry m k e)
  unfolding align_entry
  align-Inside k e h i =
      rw (align_position_lem k e.pos_begin h i.0, align_position_lem k e.pos_end h i.1)
        (rot_less k e.pos_begin i.0, rot_less k e.pos_end i.1)

  turn : ℕ → List StackEntry → List StackEntry
  turn k l = map (align_entry m k) l

  turn_twice :
      (j k : ℕ) (l : List StackEntry)
      → j < m
      → k < m
      → All (Inside m) l
      → turn j (turn k l) ≡ turn ((j + k) % m) l
  unfolding turn
  turn_twice j k [] hj hk i = refl
  turn_twice j k (e ∷ l) hj hk i = rw (align_twice j k e hj hk i.0, turn_twice j k l hj hk i.1) refl

  moved-turn :
      (k : ℕ) (l : List StackEntry) → k < m → All (Inside m) l → map (moved m k) (turn k l) ≡ l
  unfolding turn
  moved-turn k [] h i = refl
  moved-turn k (e ∷ l) h i = rw (moved-align k e h i.0, moved-turn k l h i.1) refl

  turn-moved :
      (k : ℕ) (l : List StackEntry) → k < m → All (Inside m) l → turn k (map (moved m k) l) ≡ l
  unfolding turn
  turn-moved k [] h i = refl
  turn-moved k (e ∷ l) h i = rw (align-moved k e h i.0, turn-moved k l h i.1) refl

  turn_zero : (l : List StackEntry) → All (Inside m) l → turn 0 l ≡ l
  unfolding turn
  turn_zero [] i = refl
  turn_zero (e ∷ l) i = rw (align_zero e i.0, turn_zero l i.1) refl

  align_with_offset_lem :
      (k : ℕ) (l : List StackEntry) → All (Inside m) l → align_with_offset m k l ≡ turn k l
  unfolding align_with_offset turn
  align_with_offset_lem k l i = elim (Bool-cases (k == 0)) [
    | inl z ↦ let e : k ≡ 0 = ground arith in rw (z, e) (sym (turn_zero l i))
    | inr n ↦ rw n refl
  ]

  -- `normalize` succeeds on scratchpads with entries in the memory, of which there is one at least.
  -- Two of them have the same normal form exactly where they hold the same functions in the same
  -- order, and all ranges of the one are those of the other, moved by one number of positions on the
  -- cycle of the memory.
  pub rotation_iff :
      (a b : StackEntry) (la lb : List StackEntry)
      → All (Inside m) (a ∷ la)
      → All (Inside m) (b ∷ lb)
      → (normalize m (record { content = a ∷ la }) ≢ none)
        × ((normalize m (record { content = a ∷ la }) ≡ normalize m (record { content = b ∷ lb }))
            ↔ ((k : ℕ) × (k < m) × (a ∷ la ≡ map (moved m k) (b ∷ lb))))
  unfolding normalize turn align_entry
  rotation_iff a b la lb ia ib =
      let a' = align_with_offset_lem a.pos_begin (a ∷ la) ia in
      let b' = align_with_offset_lem b.pos_begin (b ∷ lb) ib in
      (
        λ e. cc,
        (
          λ e. forth (sym a' ∙ ap (λ s. s.content) (some_injective e) ∙ b'),
          λ w.
              ap (λ l. some (record { content = l }))
                (a'
                  ∙ back w.0 w.1 (sym (turn-moved w.0 (b ∷ lb) w.1 ib) ∙ ap (turn w.0) (sym w.2))
                  ∙ sym b'),
        ),
      )
    where
      pos : 0 < m
      pos = omega (arith, ia.0.0)

      begin_of : List StackEntry → ℕ
      begin_of [] = 0
      begin_of (x ∷ l) = x.pos_begin

      first_begin :
          (k : ℕ) → b ∷ lb ≡ turn k (a ∷ la) → b.pos_begin ≡ align_position m k a.pos_begin
      first_begin k e = ap begin_of e

      forth :
          turn a.pos_begin (a ∷ la) ≡ turn b.pos_begin (b ∷ lb)
          → (k : ℕ) × (k < m) × (a ∷ la ≡ map (moved m k) (b ∷ lb))
      forth e =
          let k = rot b.pos_begin 0 in
          let w =
            wrap (k + a.pos_begin) m (omega (arith, rot_less b.pos_begin 0 pos, ia.0.0)) pos in
          let q : b ∷ lb ≡ turn ((k + a.pos_begin) % m) (a ∷ la) =
            sym (turn_zero (b ∷ lb) ib)
            ∙ ap (λ x. turn x (b ∷ lb)) (sym (rot_back b.pos_begin 0 ib.0.0 pos))
            ∙ sym (turn_twice k b.pos_begin (b ∷ lb) (rot_less b.pos_begin 0 pos) ib.0.0 ib)
            ∙ ap (turn k) (sym e)
            ∙ turn_twice k a.pos_begin (a ∷ la) (rot_less b.pos_begin 0 pos) ia.0.0 ia in
          (
            (k + a.pos_begin) % m,
            w.0,
            sym (moved-turn ((k + a.pos_begin) % m) (a ∷ la) w.0 ia)
                ∙ ap (map (moved m ((k + a.pos_begin) % m))) (sym q),
          )

      back :
          (k : ℕ)
          → k < m
          → b ∷ lb ≡ turn k (a ∷ la)
          → turn a.pos_begin (a ∷ la) ≡ turn b.pos_begin (b ∷ lb)
      back k h e =
          let first : b.pos_begin ≡ rot k a.pos_begin =
            first_begin k e ∙ align_position_lem k a.pos_begin h ia.0.0 in
          let sum : (b.pos_begin + k) % m ≡ a.pos_begin =
            rw first (rot_back k a.pos_begin h ia.0.0) in
          sym (
            ap (turn b.pos_begin) e
            ∙ turn_twice b.pos_begin k (a ∷ la) ib.0.0 h ia
            ∙ ap (λ x. turn x (a ∷ la)) sum)

  pub align_with_offset-Inside :
      (k : ℕ) (l : List StackEntry)
      → k < m
      → All (Inside m) l
      → (l ≢ [])
      → All (Inside m) (align_with_offset m k l) × (align_with_offset m k l ≢ [])
  unfolding turn
  align_with_offset-Inside k [] h i n = absurd (n refl)
  align_with_offset-Inside k (e ∷ l) h i n =
      rw (align_with_offset_lem k (e ∷ l) i) ((align-Inside k e h i.0, rest l i.1), λ q. cc)
    where
      rest : (x : List StackEntry) → All (Inside m) x → All (Inside m) (turn k x)
      rest [] w = tt
      rest (y ∷ x) w = (align-Inside k y h w.0, rest x w.1)
