-- ===== src/DispDfa/Counted.antt =====
-- The counters of categorizeMemAccesses bound the misses and the loaded bytes of the runs that reach
-- the calls and the returns.
use isptap.Prelude.{
  ℕ, ◌+◌, ◌^◌, ◌≤◌, ◌<◌, ◌≡◌, refl, Bool, true, false, List, some, arith, if◌then◌else◌, inl, inr,
  Bool-cases,
}
use isptap.AbsSet.{AbsMemSet, is_in_set}
use isptap.FifoCache.{in_content}
use isptap.Disp.{DispParams}
use isptap.FifoDisp.Sizes.{mem_size, Known}
use isptap.LruDisp.Access.{DescribesPad}
use isptap.LruDisp.Update.{scratchpad_classification_sound}
use isptap.DispDfa.Categories.{ActivationCounts, count_activation, categorize_activation}

-- what happens at the activations on the runs, without a limit on the numbers: how many there are,
-- how many of them miss, the bytes that these load, and the bytes that all of them would load
pub record Tally : Type 0 where
  pub activations : ℕ
  pub misses : ℕ
  pub bytes : ℕ
  pub all_bytes : ℕ

abbrev pub nothing_yet : Tally
nothing_yet = record { activations = 0; misses = 0; bytes = 0; all_bytes = 0 }

-- The numbers fit into 32 bits.
pub record Small (t : Tally) : Type 0 where
  pub few : t.activations < 2 ^ 32
  pub short : t.all_bytes < 2 ^ 32

-- The counters against the activations on the runs.
pub record Counts (k : ActivationCounts) (t : Tally) : Type 0 where
  pub each : k.hit + k.nc + k.miss ≡ t.activations
  pub least : k.miss ≤ t.misses
  pub most : t.misses ≤ k.miss + k.nc
  pub least_bytes : k.miss_load_bytes ≤ t.bytes
  pub most_bytes : t.bytes ≤ k.miss_load_bytes + k.nc_load_bytes
  pub below : k.miss_load_bytes + k.nc_load_bytes ≤ t.all_bytes

-- The numbers grow from the one tally to the other.
pub record UpTo (t t' : Tally) : Type 0 where
  pub more : t.activations ≤ t'.activations
  pub longer : t.all_bytes ≤ t'.all_bytes

pub same-UpTo : (t : Tally) → UpTo t t
same-UpTo t = record { more = omega arith; longer = omega arith }

pub trans-UpTo : (t t' t'' : Tally) → UpTo t t' → UpTo t' t'' → UpTo t t''
trans-UpTo t t' t'' a b = record {
  more = omega (arith, a.more, b.more);
  longer = omega (arith, a.longer, b.longer);
}

pub UpTo-Small : (t t' : Tally) → UpTo t t' → Small t' → Small t
UpTo-Small t t' a s = record {
  few = omega (arith, a.more, s.few);
  short = omega (arith, a.longer, s.short);
}

module _ (p : DispParams) where
  -- the activation of a function in a scratchpad that holds it or not
  unfoldable pub tally : ℕ → List ℕ → Tally → Tally
  tally f c t = record {
    activations = t.activations + 1;
    misses = if in_content f c then t.misses else t.misses + 1;
    bytes = if in_content f c then t.bytes else t.bytes + mem_size p f;
    all_bytes = t.all_bytes + mem_size p f;
  }

  pub tally-UpTo : (f : ℕ) (c : List ℕ) (t : Tally) → UpTo t (tally f c t)
  unfolding tally
  tally-UpTo f c t = record { more = omega arith; longer = omega arith }

  count_activation-Counts :
      (f : ℕ) (c : List ℕ) (in_must in_may : Bool) (k : ActivationCounts) (t : Tally)
      → (in_must ≡ true → in_content f c ≡ true)
      → (in_may ≡ false → in_content f c ≡ false)
      → Counts k t
      → Small (tally f c t)
      → Counts (count_activation (mem_size p f) in_must in_may k) (tally f c t)
  unfolding count_activation tally
  count_activation-Counts f c true in_may k t must may s small = rw (must refl) (record {
    each = omega (arith, s.each, small.few);
    least = s.least;
    most = s.most;
    least_bytes = s.least_bytes;
    most_bytes = s.most_bytes;
    below = omega (arith, s.below);
  })
  count_activation-Counts f c false false k t must may s small = rw (may refl) (record {
    each = omega (arith, s.each, small.few);
    least = omega (arith, s.each, small.few, s.least);
    most = omega (arith, s.each, small.few, s.most);
    least_bytes = omega (arith, s.below, small.short, s.least_bytes);
    most_bytes = omega (arith, s.below, small.short, s.most_bytes);
    below = omega (arith, s.below, small.short);
  })
  count_activation-Counts f c false true k t must may s small = elim (Bool-cases (in_content f c)) [
    | inl b ↦ rw b (record {
      each = omega (arith, s.each, small.few);
      least = s.least;
      most = omega (arith, s.each, small.few, s.most);
      least_bytes = s.least_bytes;
      most_bytes = omega (arith, s.below, small.short, s.most_bytes);
      below = omega (arith, s.below, small.short);
    })
    | inr b ↦ rw b (record {
      each = omega (arith, s.each, small.few);
      least = omega (arith, s.least);
      most = omega (arith, s.each, small.few, s.most);
      least_bytes = omega (arith, s.least_bytes);
      most_bytes = omega (arith, s.below, small.short, s.most_bytes);
      below = omega (arith, s.below, small.short);
    })
  ]

  -- An activation in a state that describes the scratchpad of the run.
  pub categorize_activation-Counts :
      (f : ℕ) (c : List ℕ) (mem : AbsMemSet) (k : ActivationCounts) (t : Tally)
      → Known p f
      → DescribesPad p c mem
      → Counts k t
      → Small (tally f c t)
      → (k' : ActivationCounts) × (categorize_activation p f mem k ≡ some k')
        × Counts k' (tally f c t)
  unfolding categorize_activation
  categorize_activation-Counts f c mem k t known d s small =
      let (must, may) = scratchpad_classification_sound p f c mem d in
      (
        count_activation (mem_size p f) (is_in_set f mem.must_set) (is_in_set f mem.may_set) k,
        rw known refl,
        count_activation-Counts f c (is_in_set f mem.must_set) (is_in_set f mem.may_set) k t must
            may s small,
      )
