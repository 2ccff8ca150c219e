-- ===== src/DmCache/Update.antt =====
-- The update of an abstract state against a direct mapped cache.
use isptap.Prelude.{
  leb, ℕ_discrete, ℕ, ◌≡◌, refl, ◌≢◌, true, false, Bool, List, [], ◌∷◌, ◌++◌, Option, some, ◌==◌,
  if◌then◌else◌, arith, All, All-append, Bool-cases, inl, inr, ◌∙◌, ap,
}
use isptap.MemUsage.{MemoryUsageStats}
use isptap.AbsSet.{AbsMemEntry, AbsMemSet, Sizes, is_in_set, sort_mem_set_by_position}
use isptap.AbsSet.Unique.{covers, is_in_set-covers, is_in_set-append}
use isptap.AbsSet.Sort.{is_in_set-sort, All-sort}
use isptap.DmCache.{
  CacheParams, line_index, erase_index, add_addr_to_mem_set, access_set, access_line, access_lines,
  update,
}

-- A direct mapped cache: the line that each index holds.
abbrev pub Cache : Type 0
Cache = ℕ → Option ℕ

unfoldable pub load : CacheParams → ℕ → Cache → Cache
load p a c = λ i. if i == line_index p a then some a else c i

unfoldable pub loads : CacheParams → List ℕ → Cache → Cache
loads p [] c = c
loads p (a ∷ as') c = loads p as' (load p a c)

-- An entry of the must set: its line is in the cache, at the entry's position.
abbrev pub Holds : CacheParams → Cache → AbsMemEntry → Type 0
Holds p c e = (c e.age ≡ some e.address) × (e.age ≡ line_index p e.address)

abbrev pub Placed : CacheParams → AbsMemEntry → Type 0
Placed p e = e.age ≡ line_index p e.address

-- The abstract state describes the cache: what the must set holds is cached, and what is cached
-- stands in the may set, at its index at most.
pub record Describes (p : CacheParams) (c : Cache) (s : AbsMemSet) : Type 0 where
  pub must_ok : All (Holds p c) s.must_set
  pub may_ok : (a : ℕ) → c (line_index p a) ≡ some a → covers a (line_index p a) s.may_set ≡ true
  pub may_placed : All (Placed p) s.may_set

-- In a set of placed entries each line stands at its index.
pub covers-Placed :
    (p : CacheParams) (a : ℕ) (l : List AbsMemEntry)
    → All (Placed p) l
    → is_in_set a l ≡ true
    → covers a (line_index p a) l ≡ true
unfolding is_in_set covers
covers-Placed p a [] h q = q
covers-Placed p a (e ∷ l) h q = elim (ℕ_discrete a e.address) [
  | yes r ↦
      let b : (a == e.address) ≡ true = ground arith in
      let k : leb e.age (line_index p a) ≡ true = rw (h.0, r) (ground arith) in rw (b, k) refl
  | no n ↦
      let b : (a == e.address) ≡ false = ground arith in rw b (covers-Placed p a l h.1 (rw b at q))
]

module _ (p : CacheParams) (a : ℕ) where
  erase-Holds :
      (c : Cache) (l : List AbsMemEntry)
      → All (Holds p c) l
      → All (Holds p (load p a c)) (erase_index (line_index p a) l).0
  unfolding erase_index load
  erase-Holds c [] h = tt
  erase-Holds c (e ∷ l) h = elim (Bool-cases (e.age == line_index p a)) [
    | inl q ↦ rw q (erase-Holds c l h.1)
    | inr q ↦ rw q ((rw q h.0.0, h.0.1), erase-Holds c l h.1)
  ]

  erase-All {κ} :
      (P : AbsMemEntry → Type κ) (i : ℕ) (l : List AbsMemEntry)
      → All P l
      → All P (erase_index i l).0
  unfolding erase_index
  erase-All P i [] h = tt
  erase-All P i (e ∷ l) h = elim (Bool-cases (e.age == i)) [
    | inl q ↦ rw q (erase-All P i l h.1)
    | inr q ↦ rw q (h.0, erase-All P i l h.1)
  ]

  -- An address of another index is not erased.
  is_in_set-erase :
      (b : ℕ) (l : List AbsMemEntry)
      → All (Placed p) l
      → line_index p b ≢ line_index p a
      → is_in_set b l ≡ true
      → is_in_set b (erase_index (line_index p a) l).0 ≡ true
  unfolding erase_index is_in_set
  is_in_set-erase b [] h n q = q
  is_in_set-erase b (e ∷ l) h n q = elim (Bool-cases (e.age == line_index p a)) [
    | inl r ↦
        rw r (is_in_set-erase b l h.1 n (ground (arith, ap (line_index p) {x = b} {y = e.address})))
    | inr r ↦ rw r (ground (arith, is_in_set-erase b l h.1 n))
  ]

  -- Whether the line was in the set or not, it replaces what its index held.
  access_set_lem :
      (l : List AbsMemEntry)
      → access_set p a l
        ≡ sort_mem_set_by_position (
            (erase_index (line_index p a) l).0 ++ record { address = a; age = line_index p a } ∷ [])
  unfolding access_set add_addr_to_mem_set
  access_set_lem l = elim (Bool-cases (is_in_set a l)) [ inl h ↦ rw h | inr h ↦ rw h ]

  access_set-must :
      (c : Cache) (l : List AbsMemEntry)
      → All (Holds p c) l
      → All (Holds p (load p a c)) (access_set p a l)
  unfolding load
  access_set-must c l h = rw (access_set_lem l) (
      All-sort _ ((erase_index (line_index p a) l).0 ++ _) (
        All-append _ (erase_index (line_index p a) l).0 _ (erase-Holds c l h)
          ((ground arith, refl), tt)))

  access_set-Placed : (l : List AbsMemEntry) → All (Placed p) l → All (Placed p) (access_set p a l)
  access_set-Placed l h = rw (access_set_lem l) (
      All-sort _ ((erase_index (line_index p a) l).0 ++ _) (
        All-append _ (erase_index (line_index p a) l).0 _
          (erase-All (Placed p) (line_index p a) l h) (refl, tt)))

  access_set-may :
      (c : Cache) (l : List AbsMemEntry)
      → All (Placed p) l
      → ((b : ℕ) → c (line_index p b) ≡ some b → is_in_set b l ≡ true)
      → (b : ℕ) → load p a c (line_index p b) ≡ some b
      → is_in_set b (access_set p a l) ≡ true
  unfolding load is_in_set
  access_set-may c l pl h b q =
      let kept = (erase_index (line_index p a) l).0 in
      let new : AbsMemEntry = record { address = a; age = line_index p a } in
      rw (access_set_lem l) (
        is_in_set-sort b (kept ++ new ∷ [])
        ∙ is_in_set-append b kept (new ∷ [])
        ∙ ground (arith, h b, is_in_set-erase b l pl))

  pub access_line-Describes :
      (c : Cache) (s : AbsMemSet) → Describes p c s → Describes p (load p a c) (access_line p s a)
  unfolding access_line
  access_line-Describes c s d = record {
    must_ok = access_set-must c s.must_set d.must_ok;
    may_ok = λ b q.
        covers-Placed p b (access_set p a s.may_set) (access_set-Placed s.may_set d.may_placed) (
          access_set-may c s.may_set d.may_placed
            (λ x r. is_in_set-covers x (line_index p x) s.may_set (d.may_ok x r)) b q);
    may_placed = access_set-Placed s.may_set d.may_placed;
  }

access_lines-Describes :
    (p : CacheParams) (as' : List ℕ) (c : Cache) (s : AbsMemSet)
    → Describes p c s
    → Describes p (loads p as' c) (access_lines p s as')
unfolding access_lines loads
access_lines-Describes p [] c s d = d
access_lines-Describes p (a ∷ as') c s d =
    access_lines-Describes p as' (load p a c) (access_line p s a) (access_line-Describes p a c s d)

-- `update` turns a description of the cache into one of the cache after the lines of the block are
-- loaded, one by one.
pub dm_update-Describes :
    (p : CacheParams) (sizes : Sizes) (line_addrs : List ℕ) (use_stats : Bool)
    (stats : MemoryUsageStats) (c : Cache) (s : AbsMemSet)
    → Describes p c s
    → Describes p (loads p line_addrs c) (update p sizes s line_addrs use_stats stats).0
unfolding update
dm_update-Describes p sizes line_addrs use_stats stats c s d =
    access_lines-Describes p line_addrs c s d

pub Holds-line :
    (p : CacheParams) (a : ℕ) (c : Cache) (l : List AbsMemEntry)
    → All (Holds p c) l
    → is_in_set a l ≡ true
    → c (line_index p a) ≡ some a
unfolding is_in_set
Holds-line p a c [] h q = absurd (ground arith)
Holds-line p a c (e ∷ l) h q = elim (Bool-cases (a == e.address)) [
  | inl r ↦ let z : a ≡ e.address = ground arith in rw (z, ← h.0.1) h.0.0
  | inr r ↦ Holds-line p a c l h.1 (ground arith)
]

-- A line of the must set is in the cache, and a line outside of the may set is not.
pub dm_classification_sound :
    (p : CacheParams) (a : ℕ) (c : Cache) (s : AbsMemSet)
    → Describes p c s
    → (is_in_set a s.must_set ≡ true → c (line_index p a) ≡ some a)
      × (is_in_set a s.may_set ≡ false → c (line_index p a) ≢ some a)
dm_classification_sound p a c s d = (
  Holds-line p a c s.must_set d.must_ok,
  λ h q. cc (is_in_set-covers a (line_index p a) s.may_set (d.may_ok a q)),
)
