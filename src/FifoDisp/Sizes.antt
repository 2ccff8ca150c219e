-- ===== src/FifoDisp/Sizes.antt =====
-- src/memory/fifo_disp_mem_state.cpp: the sizes of the loaded functions, and the eviction of the oldest.
use isptap.Prelude.{
  ℕ, zero, suc, ◌+◌, ◌-◌, ◌^◌, ◌≤◌, ◌<◌, ◌≡◌, refl, List, [], ◌∷◌, Option, none, some, leb,
  if◌then◌else◌, arith, length, take, ap, ◌∙◌, All, sym, dec_lt,
}
use isptap.FifoCache.{pop_back}
use isptap.FifoCache.Concrete.{length-pop_back}
use isptap.Disp.{DispParams, get_function_mem_size}
use isptap.FifoDisp.{add_sizes, get_used_size, evict_last}

abbrev or_zero : Option ℕ → ℕ
or_zero none = 0
or_zero (some s) = s

module _ (p : DispParams) where
  -- the size of a function in memory
  unfoldable pub mem_size : ℕ → ℕ
  mem_size f = or_zero (get_function_mem_size p f)

  -- The function has a size in memory.
  abbrev pub Known : ℕ → Type 0
  Known f = get_function_mem_size p f ≡ some (mem_size f)

  unfoldable pub total : List ℕ → ℕ
  total [] = 0
  total (f ∷ l) = mem_size f + total l

  -- The policy: the newest functions stay that fit in `room` bytes together.
  unfoldable pub fit : ℕ → List ℕ → List ℕ
  fit room [] = []
  fit room (f ∷ l) = if leb (mem_size f) room then f ∷ fit (room - mem_size f) l else []

  fit_all : (room : ℕ) (l : List ℕ) → total l ≤ room → fit room l ≡ l
  unfolding total fit
  fit_all room [] h = refl
  fit_all room (f ∷ l) h = ground (arith, fit_all (room - mem_size f) l)

  fit-pop_back :
      (room : ℕ) (f : ℕ) (l : List ℕ)
      → room < total (f ∷ l)
      → fit room (pop_back (f ∷ l)) ≡ fit room (f ∷ l)
  unfolding total fit pop_back
  fit-pop_back room f [] h = ground arith
  fit-pop_back room f (g ∷ l) h = ground (arith, fit-pop_back (room - mem_size f) g l)

  total-pop_back : (l : List ℕ) → total (pop_back l) ≤ total l
  unfolding total pop_back
  total-pop_back [] = omega arith
  total-pop_back (f ∷ []) = omega arith
  total-pop_back (f ∷ g ∷ l) = omega (arith, total-pop_back (g ∷ l))

  pub total-take : (n : ℕ) (l : List ℕ) → total (take n l) ≤ total l
  unfolding total
  total-take zero l = omega arith
  total-take (suc n) [] = omega arith
  total-take (suc n) (f ∷ l) = omega (arith, total-take n l)

  All-pop_back : (P : ℕ → Type 0) (l : List ℕ) → All P l → All P (pop_back l)
  unfolding pop_back
  All-pop_back P [] h = tt
  All-pop_back P (f ∷ []) h = tt
  All-pop_back P (f ∷ g ∷ l) h = (h.0, All-pop_back P (g ∷ l) h.1)

  add_sizes_lem :
      (acc : ℕ) (l : List ℕ)
      → All Known l
      → acc + total l < 2 ^ 32
      → add_sizes p acc l ≡ some (acc + total l)
  unfolding add_sizes total
  add_sizes_lem acc [] h b = ap some (omega arith)
  add_sizes_lem acc (f ∷ l) h b = rw h.0 (ground (arith, add_sizes_lem (acc + mem_size f) l h.1))

  get_used_size_lem :
      (l : List ℕ) → All Known l → total l < 2 ^ 32 → get_used_size p l ≡ some (total l)
  unfolding get_used_size
  get_used_size_lem l k b = add_sizes_lem 0 l k (omega arith) ∙ ap some (omega arith)

  total-nil : total [] ≤ p.size
  unfolding total
  total-nil = omega arith

  evict_over :
      (n : ℕ) (l : List ℕ) (t : ℕ)
      → get_used_size p l ≡ some t
      → p.size < t
      → evict_last p (suc n) l ≡ evict_last p n (pop_back l)
  unfolding evict_last
  evict_over n l t e h = ground (arith, e)

  evict_done :
      (n : ℕ) (l : List ℕ) (t : ℕ)
      → get_used_size p l ≡ some t
      → t ≤ p.size
      → evict_last p (suc n) l ≡ some l
  unfolding evict_last
  evict_done n l t e h = ground (arith, e)

  pub evict_last_lem :
      (n : ℕ) (l : List ℕ)
      → length l ≤ n
      → All Known l
      → total l < 2 ^ 32
      → evict_last p n l ≡ some (fit p.size l)
  unfolding evict_last fit
  evict_last_lem zero [] h k b = refl
  evict_last_lem zero (f ∷ l) h k b = absurd (omega arith)
  evict_last_lem (suc n) [] h k b = evict_done n [] (total []) (get_used_size_lem [] k b) total-nil
  evict_last_lem (suc n) (f ∷ l) h k b =
      let used = get_used_size_lem (f ∷ l) k b in
      elim (dec_lt p.size (total (f ∷ l))) [
        | yes over ↦
            evict_over n (f ∷ l) (total (f ∷ l)) used over
            ∙ evict_last_lem n (pop_back (f ∷ l)) (omega (arith, h, length-pop_back f l))
                (All-pop_back Known (f ∷ l) k) (omega (arith, b, total-pop_back (f ∷ l)))
            ∙ ap some (fit-pop_back p.size f l over)
        | no n' ↦
            let fits : total (f ∷ l) ≤ p.size = omega arith in
            evict_done n (f ∷ l) (total (f ∷ l)) used fits
            ∙ ap some (sym (fit_all p.size (f ∷ l) fits))
      ]
