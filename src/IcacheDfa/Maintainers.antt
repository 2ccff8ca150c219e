-- ===== src/IcacheDfa/Maintainers.antt =====
-- `setCacheParameters`: the maintainers of the two replacement policies that the analysis has, and
-- that both are sound.
use isptap.Prelude.{
  ℕ, zero, suc, ◌^◌, ◌<◌, ◌≡◌, ◌≢◌, refl, ap, sym, ◌∙◌, Bool, true, false, List, [], ◌∷◌, Option,
  some, none, All, AnyOf, if◌then◌else◌, ◌==◌, arith, take, Bool-cases, inl, inr, ==_iff,
  some_injective, ◌↔◌,
}
use mathlib.Core.Path.{subst}
use isptap.MemUsage.{MemoryUsageStats}
use isptap.AbsSet.{AbsMemSet, Sizes, has_addr, set_blank_mem_state, count_state}
use isptap.IcacheDfa.{CacheStateMaintainer}
use isptap.IcacheDfa.Sound.{ConcreteCache, accesses, SoundMaintainer}
use isptap.LruCache.{update, update_one, join}
use isptap.LruCache.Concrete.{age, age-le, access, remove}
use isptap.LruCache.Concrete as Lru
use isptap.LruCache.Update.{
  Describes, update-Describes, update_one-eq-update, classification_sound, blank-Describes,
  has_addr-age,
}
use isptap.LruCache.Join.{WellFormed, join-Describes}
use isptap.DmCache as Dm
use isptap.DmCache.Update as DmUpdate
use isptap.DmCache.JoinAll.{dm_join-Describes}

abbrev pub lru_maintainer : ℕ → Sizes → CacheStateMaintainer
lru_maintainer line_no sizes = record {
  update = update line_no sizes;
  update_one = update_one line_no sizes;
  join = join sizes;
  set_blank_mem_state = set_blank_mem_state sizes;
}

abbrev pub dm_maintainer : Dm.CacheParams → Sizes → CacheStateMaintainer
dm_maintainer p sizes = record {
  update = λ s l use_stats stats. some (Dm.update p sizes s l use_stats stats);
  update_one = λ s a use_stats stats. some (Dm.update_one p sizes s a use_stats stats);
  join = Dm.join p sizes;
  set_blank_mem_state = set_blank_mem_state sizes;
}

-- A fully associative cache that replaces the least recently used line.
abbrev pub lru_cache : ℕ → ConcreteCache (List ℕ)
lru_cache n = record { start = []; access = access n; has_line = has_addr }

has_addr-take : (n a : ℕ) (c : List ℕ) → has_addr a c ≡ false → has_addr a (take n c) ≡ false
unfolding has_addr
has_addr-take zero a c h = refl
has_addr-take (suc n) a [] h = refl
has_addr-take (suc n) a (x ∷ c) h = ground (arith, has_addr-take n a c)

has_addr-remove : (a b : ℕ) (c : List ℕ) → has_addr a c ≡ false → has_addr a (remove b c) ≡ false
unfolding has_addr remove
has_addr-remove a b [] h = refl
has_addr-remove a b (x ∷ c) h = ground (arith, has_addr-remove a b c)

lru_accesses : (n : ℕ) (l c : List ℕ) → accesses (lru_cache n) l c ≡ Lru.accesses n l c
unfolding accesses Lru.accesses
lru_accesses n [] c = refl
lru_accesses n (a ∷ l) c = lru_accesses n l (access n a c)

wellformed :
    (n : ℕ) (states : List AbsMemSet)
    → All (λ s. (c : List ℕ) × Describes n c s) states
    → All (WellFormed n) states
wellformed n [] h = tt
wellformed n (s ∷ states) h =
    let (c, d) = h.0 in
    ((d.must_ok.unique, d.must_ok.below, d.may_ok.unique), wellformed n states h.1)

clear_age :
    (n : ℕ) (c : List ℕ) (s : AbsMemSet) → Describes n c s → has_addr 0 c ≡ false → age n 0 c ≡ n
clear_age n c s d z = ground (arith, has_addr-age n 0 c d.fits, age-le n 0 c)

described :
    (n : ℕ) (c : List ℕ) (states : List AbsMemSet)
    → AnyOf (Describes n c) states
    → (s : AbsMemSet) × Describes n c s
described n c [] h = absurd h
described n c (s ∷ states) (inl d) = (s, d)
described n c (s ∷ states) (inr h) = described n c states h

-- The maintainer of the LRU cache keeps the laws that the analysis relies on, with an LRU cache of at
-- least one line and fewer than 2 ^ 32 as the concrete cache: no assertion fails on a state that
-- describes a cache, and the state that is returned describes the cache after the accesses, or each
-- cache that one of the joined states describes.
pub lru_maintainer-SoundMaintainer :
    (n : ℕ) (sizes : Sizes)
    → 0 < n
    → n < 2 ^ 32
    → SoundMaintainer (lru_cache n) (lru_maintainer n sizes) (Describes n)
unfolding access has_addr Lru.accesses
lru_maintainer-SoundMaintainer n sizes pos range = record {
  start_clear = refl;
  access_clear =
      λ a c h q. has_addr-take n 0 (a ∷ remove a c) (ground (arith, has_addr-remove 0 a c q));
  blank_sound = λ stats. blank-Describes n sizes stats;
  update_sound = λ s l use_stats stats (c, d).
      let (s', e, d') = update-Describes n pos range sizes l use_stats stats c s d in
      (
        s',
        if use_stats then count_state sizes s' stats else stats,
        e,
        λ c' x.
            let (s'', e', d'') = update-Describes n pos range sizes l use_stats stats c' s x in
            let q : s'' ≡ s' = cc (sym e' ∙ e) in
            rw (lru_accesses n l c') (subst (Describes n (Lru.accesses n l c')) q d''),
      );
  update_one_sound = λ s a use_stats stats c d.
      let (s', e, d') = update-Describes n pos range sizes (a ∷ []) use_stats stats c s d in
      (
        s',
        if use_stats then count_state sizes s' stats else stats,
        update_one-eq-update n sizes s a use_stats stats ∙ e,
        d',
      );
  join_sound = λ states stats h two.
      let (s, left, stats', e, w, k, j, d) =
        join-Describes n sizes states stats (wellformed n states h) two in
      (
        s,
        left,
        stats',
        e,
        λ c z a. let (x, y) = described n c states a in d c (clear_age n c x y z) a,
      );
  must_sound = λ a c s d. (classification_sound n a c s d).0;
  may_sound = λ a c s d. (classification_sound n a c s d).1;
}

abbrev pub holds : Option ℕ → ℕ → Bool
holds none a = false
holds (some b) a = a == b

-- A direct mapped cache.
abbrev pub dm_cache : Dm.CacheParams → ConcreteCache DmUpdate.Cache
dm_cache p = record {
  start = λ i. none;
  access = DmUpdate.load p;
  has_line = λ a c. holds (c (Dm.line_index p a)) a;
}

holds_iff : (o : Option ℕ) (a : ℕ) → (holds o a ≡ true) ↔ (o ≡ some a)
holds_iff none a = (λ h. cc, λ h. cc)
holds_iff (some b) a =
    (λ h. ap some (sym ((==_iff a b).0 h)), λ h. (==_iff a b).1 (sym (some_injective h)))

holds_not : (o : Option ℕ) (a : ℕ) → o ≢ some a → holds o a ≡ false
holds_not o a h = elim (Bool-cases (holds o a)) [
  | inl e ↦ absurd (h ((holds_iff o a).0 e))
  | inr e ↦ e
]

dm_accesses :
    (p : Dm.CacheParams) (l : List ℕ) (c : DmUpdate.Cache)
    → accesses (dm_cache p) l c ≡ DmUpdate.loads p l c
unfolding accesses DmUpdate.loads
dm_accesses p [] c = refl
dm_accesses p (a ∷ l) c = dm_accesses p l (DmUpdate.load p a c)

load_clear :
    (p : Dm.CacheParams) (a : ℕ) (c : DmUpdate.Cache)
    → a ≢ 0
    → holds (c (Dm.line_index p 0)) 0 ≡ false
    → holds (DmUpdate.load p a c (Dm.line_index p 0)) 0 ≡ false
unfolding DmUpdate.load
load_clear p a c h q = elim (Bool-cases (Dm.line_index p 0 == Dm.line_index p a)) [
  | inl e ↦ rw e (holds_not (some a) 0 (λ r. h (some_injective r)))
  | inr e ↦ rw e q
]

dm_blank :
    (p : Dm.CacheParams) (sizes : Sizes) (stats : MemoryUsageStats)
    → DmUpdate.Describes p (λ i. none) (set_blank_mem_state sizes stats).0
unfolding set_blank_mem_state
dm_blank p sizes stats = record { must_ok = tt; may_ok = λ a h. cc; may_placed = tt }

-- The maintainer of the direct mapped cache keeps the laws that the analysis relies on, with the direct
-- mapped cache as the concrete one.
pub dm_maintainer-SoundMaintainer :
    (p : Dm.CacheParams) (sizes : Sizes)
    → SoundMaintainer (dm_cache p) (dm_maintainer p sizes) (DmUpdate.Describes p)
unfolding Dm.update Dm.update_one Dm.access_lines
dm_maintainer-SoundMaintainer p sizes = record {
  start_clear = holds_not none 0 (λ h. cc);
  access_clear = λ a c h q. load_clear p a c h q;
  blank_sound = λ stats. dm_blank p sizes stats;
  update_sound = λ s l use_stats stats x.
      let s' = Dm.update p sizes s l use_stats stats in
      (
        s'.0,
        s'.1,
        refl,
        λ c d.
            rw (dm_accesses p l c) (DmUpdate.dm_update-Describes p sizes l use_stats stats c s d),
      );
  update_one_sound = λ s a use_stats stats c d.
      let s' = Dm.update_one p sizes s a use_stats stats in
      (s'.0, s'.1, refl, DmUpdate.access_line-Describes p a c s d);
  join_sound = λ states stats h two.
      let (s, left, stats', e, k, j, d) = dm_join-Describes p sizes states stats two in
      (
        s,
        left,
        stats',
        e,
        λ c z a.
            d c
              (λ q.
                let w : holds (c (Dm.line_index p 0)) 0 ≡ true =
                  (holds_iff (c (Dm.line_index p 0)) 0).1 q in
                cc)
              a,
      );
  must_sound = λ a c s d h.
      (holds_iff (c (Dm.line_index p a)) a).1 ((DmUpdate.dm_classification_sound p a c s d).0 h);
  may_sound = λ a c s d h.
      holds_not (c (Dm.line_index p a)) a ((DmUpdate.dm_classification_sound p a c s d).1 h);
}
