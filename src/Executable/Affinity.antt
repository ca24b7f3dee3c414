-- ===== src/Executable/Affinity.antt =====
-- Which CPUs a mask stands for.
use hashpipe.Base.{ℕ, zero, suc, ◌+◌, ◌/◌, ◌%◌, ◌<◌, ◌≡◌, refl, inl, inr, ap, ◌∙◌, arith, ◌==◌}
use hashpipe.Base.{Bool, true, false, if◌then◌else◌, bit_and, bit_and_mask, ℤ, ◌≢◌, Bool-cases}
use hashpipe.Databuf.Mask.{bit}
use hashpipe.Executable.{cpus_from, set_cpu_affinity, negative_or_0}

lowest : (mask : ℕ) → bit_and mask 1 ≡ mask % 2
lowest mask = bit_and_mask 1 mask

cpus_from-before :
    (n i mask : ℕ) (cpuset : ℕ → Bool) (j : ℕ) → j < i → cpus_from n i mask cpuset j ≡ cpuset j
unfolding cpus_from
cpus_from-before zero i mask cpuset j h = refl
cpus_from-before (suc n) i mask cpuset j h =
    cpus_from-before n (i + 1) (mask / 2) _ j (omega arith) ∙ ground arith

cpus_from-bit :
    (n i mask : ℕ) (cpuset : ℕ → Bool) (k : ℕ)
    → k < n
    → cpus_from n i mask cpuset (i + k) ≡ (if bit mask k == 0 then cpuset (i + k) else true)
unfolding cpus_from
cpus_from-bit zero i mask cpuset k h = absurd (omega arith)
cpus_from-bit (suc n) i mask cpuset zero h =
    cpus_from-before n (i + 1) (mask / 2) _ (i + 0) (omega arith) ∙ ground (arith, lowest mask)
cpus_from-bit (suc n) i mask cpuset (suc k) h =
    ap (cpus_from n (i + 1) (mask / 2) _) (omega arith)
    ∙ cpus_from-bit n (i + 1) (mask / 2) _ k (omega arith)
    ∙ later (bit (mask / 2) k == 0) (bit_and mask 1 == 0)
  where
    moved : cpuset (i + 1 + k) ≡ cpuset (i + suc k)
    moved = ap cpuset (omega arith)

    later :
        (clear skipped : Bool)
        → (if clear
            then (if skipped then cpuset else λ j. if i == j then true else cpuset j) (i + 1 + k)
            else true)
          ≡ (if clear then cpuset (i + suc k) else true)
    later false skipped = refl
    later true true = moved
    later true false = ground (arith, moved)

set_cpu_affinity-some :
    (setaffinity : (ℕ → Bool) → ℤ) (mask : ℕ)
    → mask ≢ 0
    → set_cpu_affinity setaffinity mask
      ≡ negative_or_0 (setaffinity (cpus_from 32 0 mask (λ j. false)))
unfolding set_cpu_affinity
set_cpu_affinity-some setaffinity mask h = elim (Bool-cases (mask == 0)) [
  | inl z ↦ absurd (h (ground (arith, z)))
  | inr nz ↦ rw nz refl
]

-- For a mask other than 0, the set that the kernel is given has each of the 32 CPUs exactly if the
-- mask's bit is set, and the result is negative exactly if the kernel's is, and 0 otherwise.
pub set_cpu_affinity-bit :
    (setaffinity : (ℕ → Bool) → ℤ) (mask i : ℕ)
    → mask ≢ 0
    → i < 32
    → (cpuset : ℕ → Bool) × (set_cpu_affinity setaffinity mask ≡ negative_or_0 (setaffinity cpuset))
      × (cpuset i ≡ (if bit mask i == 0 then false else true))
set_cpu_affinity-bit setaffinity mask i h fits = (
  cpus_from 32 0 mask (λ j. false),
  set_cpu_affinity-some setaffinity mask h,
  ap (cpus_from 32 0 mask (λ j. false)) (omega arith) ∙ cpus_from-bit 32 0 mask (λ j. false) i fits,
)
