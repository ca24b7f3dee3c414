-- ===== src/Databuf/Totals.antt =====
-- `hashpipe_databuf_total_mask` and `hashpipe_databuf_total_status` against the blocks' semaphores.
use hashpipe.Base.{
  ℕ, zero, suc, ◌+◌, ◌-◌, ◌/◌, ◌%◌, ◌^◌, ◌≤◌, ◌<◌, min, ◌≡◌, ◌≢◌, arith, ◌==◌, if◌then◌else◌,
}
use hashpipe.Base.{
  some, List, [], ◌∷◌, ◌++◌, length, get_or, take, ap, ◌∙◌, bit_or, bit_or_fields, bit_or_comm,
  subst,
}
use native.Mathlib.Nat.{zero-add}
use hashpipe.Base.{take-all, ap₂, length-append}
use hashpipe.Ipc.{ok, Ipc, IsIpc}
use hashpipe.Databuf.Blocks.{sem}
use hashpipe.Databuf.Locks.{int_bit, mask_from, sum_from, all_values, total_mask, total_status}
use hashpipe.Databuf.Mask.{bit, pack, bit-pack, mask_from-pack, pack-lt, mask_from-append}

-- How many of the `n` values from `i` on are not 0.
abbrev pub filled_from : (ℕ → ℕ) → ℕ → ℕ → ℕ
filled_from f i zero = 0
filled_from f i (suc n) = (if f i == 0 then 0 else 1) + filled_from f (i + 1) n

filled_from-le : (f : ℕ → ℕ) (i n : ℕ) → filled_from f i n ≤ n
filled_from-le f i zero = omega arith
filled_from-le f i (suc n) = ground (arith, filled_from-le f (i + 1) n)

-- A sum of zeros and ones, below the wrap of 32 bits.
sum_from-filled :
    (f : ℕ → ℕ) (vs : List ℕ) (tot i : ℕ)
    → ((j : ℕ) → j < length vs → get_or vs j 0 ≡ f (i + j))
    → ((j : ℕ) → f j ≤ 1)
    → tot + length vs < 2 ^ 32
    → sum_from tot vs ≡ tot + filled_from f i (length vs)
unfolding sum_from
sum_from-filled f [] tot i h p q = omega arith
sum_from-filled f (v ∷ vs) tot i h p q =
    let here : v ≡ f i = h 0 (omega arith) ∙ ap f (omega arith) in
    let rest = λ (j : ℕ) (lt : j < length vs). h (suc j) (omega arith) ∙ ap f (shift i j) in
    ap (λ t. sum_from t vs) (small tot v (here_le here (p i)) (omega arith))
    ∙ sum_from-filled f vs (tot + v) (i + 1) rest p (omega (arith, here, p i))
    ∙ ground (arith, here, p i)
  where
    shift : (i j : ℕ) → i + suc j ≡ i + 1 + j
    shift i j = omega arith

    here_le : {a b : ℕ} → a ≡ b → b ≤ 1 → a ≤ 1
    here_le e l = omega arith

    small : (t v : ℕ) → v ≤ 1 → t + 1 < 2 ^ 32 → (t + v) % 2 ^ 32 ≡ t + v
    small t v a b = omega arith

block31 : (p v : ℕ) → v ≢ 0 → mask_from p 31 (v ∷ []) ≡ some (bit_or p (2 ^ 64 - 2 ^ 31))
unfolding mask_from int_bit
block31 p v h = ground arith

sign_extended : (p : ℕ) → p < 2 ^ 31 → bit_or p (2 ^ 64 - 2 ^ 31) ≡ 2 ^ 64 - 2 ^ 31 + p
sign_extended p h = bit_or_comm p (2 ^ 64 - 2 ^ 31) ∙ bit_or_fields 31 (2 ^ 33 - 1) p h

module _ (k : Ipc) (l : IsIpc k) where
  all_values_ok :
      (w : k.World) (d : ℕ) (vs : List ℕ)
      → k.getall w (k.header w d).semid (k.header w d).n_block ≡ ok vs
      → all_values k w d ≡ vs
  unfolding all_values
  all_values_ok w d vs e = ground arith

  -- With at most 31 blocks, and if the kernel hands the values out, the mask is defined and its
  -- bit `i` says whether block `i` is filled.
  pub total_mask-bit :
      (w : k.World) (d i : ℕ) (vs : List ℕ)
      → k.getall w (k.header w d).semid (k.header w d).n_block ≡ ok vs
      → (k.header w d).n_block ≤ 31
      → i < (k.header w d).n_block
      → (m : ℕ) × (total_mask k w d ≡ some m) × (bit m i ≡ (if sem k w d i == 0 then 0 else 1))
  unfolding total_mask
  total_mask-bit w d i vs e few lt = (pack vs, defined, named)
    where
      size : length vs ≡ (k.header w d).n_block
      size = l.length-getall w _ _ vs e

      defined : total_mask k w d ≡ some (pack vs)
      defined =
          ap (λ o. mask_from 0 0 (take (min (k.header w d).n_block 64) o)) (all_values_ok w d vs e)
          ∙ ap (mask_from 0 0) (take-all vs _ (omega (arith, size)))
          ∙ mask_from-pack vs 0 0 (omega arith) (omega (arith, size))
          ∙ ap some (omega arith)

      named : bit (pack vs) i ≡ (if sem k w d i == 0 then 0 else 1)
      named = bit-pack vs i ∙ ap (λ v. if v == 0 then 0 else 1) (l.getall-value w _ _ vs i e lt)

  -- If every semaphore is 0 or 1, and the kernel hands the values out, the total status of fewer
  -- than 2 ^ 32 blocks is the number of filled blocks.
  pub total_status-filled :
      (w : k.World) (d : ℕ) (vs : List ℕ)
      → k.getall w (k.header w d).semid (k.header w d).n_block ≡ ok vs
      → (k.header w d).n_block < 2 ^ 32
      → ((j : ℕ) → sem k w d j ≤ 1)
      → total_status k w d ≡ filled_from (sem k w d) 0 (k.header w d).n_block
  unfolding total_status
  total_status-filled w d vs e small binary =
      ap (sum_from 0) (all_values_ok w d vs e)
      ∙ sum_from-filled (sem k w d) vs 0 0 values binary (omega (arith, size))
      ∙ zero-add _
      ∙ ap (filled_from (sem k w d) 0) size
    where
      size : length vs ≡ (k.header w d).n_block
      size = l.length-getall w _ _ vs e

      values : (j : ℕ) → j < length vs → get_or vs j 0 ≡ sem k w d (0 + j)
      values j lt = l.getall-value w _ _ vs j e (omega (arith, size)) ∙ ap (sem k w d) (omega arith)

  -- With 32 blocks of which the last is filled, the shift by 31 is that of a negative `int`: the
  -- mask also shows the 32 blocks 32 to 63, which do not exist, as filled.
  total_mask-block31 :
      (w : k.World) (d : ℕ) (vs : List ℕ) (v : ℕ)
      → k.getall w (k.header w d).semid (k.header w d).n_block ≡ ok (vs ++ v ∷ [])
      → (k.header w d).n_block ≡ 32
      → length vs ≡ 31
      → v ≢ 0
      → (m : ℕ) × (total_mask k w d ≡ some m) × (m / 2 ^ 32 ≡ 2 ^ 32 - 1)
  unfolding total_mask
  total_mask-block31 w d vs v e n size filled =
      (2 ^ 64 - 2 ^ 31 + pack vs, defined, omega (arith, pack-lt vs, pack_small))
    where
      pack_small : pack vs < 2 ^ 31
      pack_small = subst (λ j. pack vs < 2 ^ j) size (pack-lt vs)

      count : length (vs ++ v ∷ []) ≡ 32
      count = length-append vs (v ∷ []) ∙ omega (arith, size)

      defined : total_mask k w d ≡ some (2 ^ 64 - 2 ^ 31 + pack vs)
      defined =
          ap (λ o. mask_from 0 0 (take (min (k.header w d).n_block 64) o)) (all_values_ok w d _ e)
          ∙ ap (mask_from 0 0) (take-all (vs ++ v ∷ []) _ (omega (arith, count, n)))
          ∙ mask_from-append vs (v ∷ []) 0 0 (omega arith) (omega (arith, size))
          ∙ ap₂ (λ t j. mask_from t j (v ∷ [])) (omega arith) (omega (arith, size))
          ∙ block31 (pack vs) v filled
          ∙ ap some (sign_extended (pack vs) pack_small)
