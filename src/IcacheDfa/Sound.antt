-- ===== src/IcacheDfa/Sound.antt =====
-- What the analysis relies on in a cache state maintainer: its abstract states describe concrete
-- caches, and its operations follow them.
use isptap.Prelude.{
  suc, ℕ, ◌≤◌, ◌≡◌, ◌≢◌, Bool, true, false, List, [], ◌∷◌, some, All, AnyOf, length, if◌then◌else◌,
}
use isptap.MemUsage.{MemoryUsageStats}
use isptap.AbsSet.{AbsMemSet, is_in_set}
use isptap.IcacheDfa.{CacheStateMaintainer}

-- A concrete cache: empty at the start, an access to a line, and whether a line is cached.
pub record ConcreteCache (C : Type 0) : Type 0 where
  pub start : C
  pub access : ℕ → C → C
  pub has_line : ℕ → C → Bool

module _ {C : Type 0} (k : ConcreteCache C) where
  unfoldable pub accesses : List ℕ → C → C
  accesses [] c = c
  accesses (a ∷ as') c = accesses as' (k.access a c)

  -- the misses of the accesses to some lines
  unfoldable pub count_misses : List ℕ → C → ℕ
  count_misses [] c = 0
  count_misses (a ∷ as') c =
      let rest = count_misses as' (k.access a c) in if k.has_line a c then rest else suc rest

  -- Line 0 is not cached. Its address marks a blank entry of an abstract set.
  abbrev pub Clear : C → Type 0
  Clear c = k.has_line 0 c ≡ false

  pub record SoundMaintainer (m : CacheStateMaintainer) (Describes : C → AbsMemSet → Type 0)
      : Type 0 where
    pub start_clear : Clear k.start
    pub access_clear : (a : ℕ) (c : C) → a ≢ 0 → Clear c → Clear (k.access a c)
    pub blank_sound : (stats : MemoryUsageStats) → Describes k.start (m.set_blank_mem_state stats).0
    pub update_sound :
        (s : AbsMemSet) (l : List ℕ) (use_stats : Bool) (stats : MemoryUsageStats)
        → (c : C) × Describes c s
        → (s' : AbsMemSet) × (stats' : MemoryUsageStats) × (m.update s l use_stats stats
            ≡ some (s', stats'))
          × ((c : C) → Describes c s → Describes (accesses l c) s')
    pub update_one_sound :
        (s : AbsMemSet) (a : ℕ) (use_stats : Bool) (stats : MemoryUsageStats) (c : C)
        → Describes c s
        → (s' : AbsMemSet) × (stats' : MemoryUsageStats) × (m.update_one s a use_stats stats
            ≡ some (s', stats'))
          × Describes (k.access a c) s'
    pub join_sound :
        (states : List AbsMemSet) (stats : MemoryUsageStats)
        → All (λ s. (c : C) × Describes c s) states
        → 2 ≤ length states
        → (s : AbsMemSet) × (left : List AbsMemSet) × (stats' : MemoryUsageStats) × (m.join states
              stats
            ≡ some (s, left, stats'))
          × ((c : C) → Clear c → AnyOf (Describes c) states → Describes c s)
    pub must_sound :
        (a : ℕ) (c : C) (s : AbsMemSet)
        → Describes c s
        → is_in_set a s.must_set ≡ true
        → k.has_line a c ≡ true
    pub may_sound :
        (a : ℕ) (c : C) (s : AbsMemSet)
        → Describes c s
        → is_in_set a s.may_set ≡ false
        → k.has_line a c ≡ false
