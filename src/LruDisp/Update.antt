-- ===== src/LruDisp/Update.antt =====
-- The update of an abstract state by the activation of a function, against the scratchpad.
use isptap.Prelude.{
  ℕ, ◌≤◌, ◌<◌, ◌≡◌, refl, true, false, List, [], ◌∷◌, some, ltb, arith, inl, inr, All, Bool-cases,
  ◌∙◌, ap, ℕ_discrete,
}
use isptap.MemUsage.{MemoryUsageStats}
use isptap.AbsSet.{
  AbsMemEntry, AbsMemSet, AnalysisType, must, may, Sizes, is_in_set, count_state,
  sort_mem_set_by_age,
}
use isptap.AbsSet.Sort.{All-sort, Unique-sort, covers-sort}
use isptap.FifoCache.{in_content}
use isptap.LruCache.Concrete.{remove}
use isptap.Disp.{DispParams}
use isptap.FifoDisp.Policy.{Sound, total-fit}
use isptap.FifoDisp.Sizes.{mem_size, Known, total}
use isptap.LruDisp.{access_set, add_addr_to_mem_set, update}
use isptap.LruDisp.Concrete.{lru_activate, before}
use isptap.LruDisp.MustSet.{Lies, Holds}
use isptap.LruDisp.Access.{MustState, MayState, DescribesPad, uncovered, set_lem}

small_not_in :
    (p : DispParams) (f : ℕ) (l : List AbsMemEntry)
    → p.size < mem_size p f
    → All (Lies p) l
    → is_in_set f l ≡ false
unfolding is_in_set
small_not_in p f [] h a = refl
small_not_in p f (e ∷ l) h a = elim (ℕ_discrete f e.address) [
  | yes q ↦ absurd (omega (arith, a.0.0, ap (mem_size p) q))
  | no n ↦ ground (arith, small_not_in p f l h a.1)
]

total-activate :
    (p : DispParams) (f : ℕ) (c : List ℕ)
    → total p c ≤ p.size
    → total p (lru_activate p f c) ≤ p.size
unfolding lru_activate
total-activate p f c h = elim (Bool-cases (ltb p.size (mem_size p f))) [
  | inl out ↦ rw out h
  | inr small ↦ rw small (total-fit p p.size (f ∷ remove f c))
]

pub fst_All : (P Q : AbsMemEntry → Type 0) (l : List AbsMemEntry) → All (λ e. P e × Q e) l → All Q l
fst_All P Q [] h = tt
fst_All P Q (e ∷ l) h = (h.0.1, fst_All P Q l h.1)

abbrev sorted : List AbsMemEntry → List AbsMemEntry → AbsMemSet
sorted l l' = record { must_set = sort_mem_set_by_age l; may_set = sort_mem_set_by_age l' }

unchanged :
    (p : DispParams) (f : ℕ) (c : List ℕ)
    → ltb p.size (mem_size p f) ≡ true
    → lru_activate p f c ≡ c
unfolding lru_activate
unchanged p f c out = rw out refl

skipped :
    (p : DispParams) (f : ℕ)
    → Known p f
    → (l : List AbsMemEntry) (t : AnalysisType) → is_in_set f l ≡ false
    → ltb p.size (mem_size p f) ≡ true
    → p.ignore_outsized_functions ≡ true
    → access_set p t f l ≡ some l
unfolding access_set add_addr_to_mem_set
skipped p f known l t miss out ignored = rw (miss, known, out, ignored) refl

result :
    (p : DispParams) (l l' : List AbsMemEntry) (c : List ℕ)
    → total p c ≤ p.size
    → MustState p c l
    → MayState p c l'
    → DescribesPad p c (sorted l l')
result p l l' c fits m m' = record {
  fits = fits;
  must_ok = record { bounds = All-sort _ l m.bounds; unique = Unique-sort l m.unique };
  may_ok = record {
    covered = λ h is_in. covers-sort h (before p h c) l' ∙ m'.covered h is_in;
    lies = All-sort _ l' m'.lies;
    unique = Unique-sort l' m'.unique;
  };
}

-- For each scratchpad that the state describes, the update by a function that can be loaded or is
-- ignored returns a state (no assertion fails, nor does the one that forbids an eviction from the must
-- set) that describes the scratchpad after the activation. The memory is smaller than 2 ^ 31 bytes.
pub update-DescribesPad :
    (p : DispParams) (sizes : Sizes) (f : ℕ) (stats : MemoryUsageStats) (c : List ℕ) (s : AbsMemSet)
    → Sound p f
    → DescribesPad p c s
    → (s' : AbsMemSet) × (update p sizes s f stats ≡ some (s', count_state sizes s' stats))
      × DescribesPad p (lru_activate p f c) s'
unfolding update
update-DescribesPad p sizes f stats c s g d = elim (Bool-cases (ltb p.size (mem_size p f))) [
  | inl out ↦
      let must_miss =
        small_not_in p f s.must_set (ground arith)
          (fst_All (Holds p c) (Lies p) s.must_set d.must_ok.bounds) in
      let may_miss = small_not_in p f s.may_set (ground arith) d.may_ok.lies in
      let ignored = g.outsized (ground arith) in
      let e = skipped p f g.known s.must_set must must_miss out ignored in
      let e' = skipped p f g.known s.may_set may may_miss out ignored in
      let same : lru_activate p f c ≡ c = unchanged p f c out in
      (
        sorted s.must_set s.may_set,
        rw (e, e') refl,
        rw same (result p s.must_set s.may_set c d.fits d.must_ok d.may_ok),
      )
  | inr small ↦
      let (l, l', e, e', m, m') = set_lem p f c g (ground arith) d.fits s d in
      (
        sorted l l',
        rw (e, e') refl,
        result p l l' (lru_activate p f c) (total-activate p f c d.fits) m m',
      )
]

held_of_must :
    (p : DispParams) (f : ℕ) (c : List ℕ) (l : List AbsMemEntry)
    → All (λ e. Holds p c e × Lies p e) l
    → is_in_set f l ≡ true
    → in_content f c ≡ true
unfolding is_in_set
held_of_must p f c [] a h = cc
held_of_must p f c (e ∷ l) a h = elim (ℕ_discrete f e.address) [
  | yes q ↦ rw q a.0.0.0
  | no n ↦ held_of_must p f c l a.1 (ground arith)
]

-- In each scratchpad that the state describes, a function of the must set is loaded, and a function
-- outside of the may set is not.
pub scratchpad_classification_sound :
    (p : DispParams) (f : ℕ) (c : List ℕ) (s : AbsMemSet)
    → DescribesPad p c s
    → (is_in_set f s.must_set ≡ true → in_content f c ≡ true)
      × (is_in_set f s.may_set ≡ false → in_content f c ≡ false)
scratchpad_classification_sound p f c s d =
    (held_of_must p f c s.must_set d.must_ok.bounds, λ h. uncovered p c f s.may_set h d.may_ok)
