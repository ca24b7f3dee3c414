-- ===== src/Databuf/Locks.antt =====
-- The locking functions of hashpipe_databuf.c over the semaphores of a buffer.
use hashpipe.Base.{ℕ, zero, suc, ◌+◌, ◌-◌, ◌%◌, ◌^◌, ◌==◌, ltb, if◌then◌else◌, min, bit_or}
use hashpipe.Base.{
  Bool, true, false, Option, none, some, List, [], ◌∷◌, replicate, take, pos, negsuc,
}
use hashpipe.Ipc.{eagain, Answer, ok, err, SemBuf, Timespec, Ipc}
use hashpipe.Databuf.{Status, hashpipe_ok, hashpipe_timeout, hashpipe_err_sys}

-- A quarter of a second.
abbrev pub quarter : Timespec
quarter = record { tv_sec = 0; tv_nsec = 250000000 }

-- Wait for 0.
abbrev pub free_ops : ℕ → Bool → List SemBuf
free_ops block nowait = record { sem_num = block; sem_op = pos 0; nowait = nowait } ∷ []

-- Take one and give it back, atomically.
abbrev pub filled_ops : ℕ → Bool → List SemBuf
filled_ops block nowait =
    record { sem_num = block; sem_op = negsuc 0; nowait = nowait }
    ∷ record { sem_num = block; sem_op = pos 1; nowait = nowait }
    ∷ []

-- `1 << i` of an `int`, made a `uint64_t`: -2^31 at 31, and undefined (`none`) from 32 on.
unfoldable pub int_bit : ℕ → Option ℕ
int_bit i = if ltb i 31 then some (2 ^ i) else if i == 31 then some (2 ^ 64 - 2 ^ 31) else none

-- The loop of `hashpipe_databuf_total_mask` from index `i` on.
unfoldable pub mask_from : ℕ → ℕ → List ℕ → Option ℕ
mask_from tot i [] = some tot
mask_from tot i (v ∷ vs) = elim (if v == 0 then some 0 else int_bit i) [
  | none ↦ none
  | some b ↦ mask_from (if v == 0 then tot else bit_or tot b) (i + 1) vs
]

unfoldable pub sum_from : ℕ → List ℕ → ℕ
sum_from tot [] = tot
sum_from tot (v ∷ vs) = sum_from ((tot + v) % 2 ^ 32) vs

module _ (k : Ipc) where
  -- GETVAL; `none` is the -1 of a failed call.
  unfoldable pub block_status : k.World → ℕ → ℕ → Option ℕ
  block_status w d block_id = elim (k.getval w (k.header w d).semid block_id) [
    | ok v ↦ some v
    | err e ↦ none
  ]

  -- The array that GETALL fills; a failed call leaves its zeros.
  unfoldable pub all_values : k.World → ℕ → List ℕ
  all_values w d = elim (k.getall w (k.header w d).semid (k.header w d).n_block) [
    | ok vs ↦ vs
    | err e ↦ replicate (k.header w d).n_block 0
  ]

  unfoldable pub total_status : k.World → ℕ → ℕ
  unfolding all_values sum_from
  total_status w d = sum_from 0 (all_values w d)

  -- `none`: undefined, a shift of an `int` by 32 or more.
  unfoldable pub total_mask : k.World → ℕ → Option ℕ
  unfolding all_values mask_from
  total_mask w d = mask_from 0 0 (take (min (k.header w d).n_block 64) (all_values w d))

  -- How the callers of semtimedop(2) read its answer.
  abbrev pub wait_status : Answer (Unit {0}) × k.World → Status × k.World
  wait_status (ok _, w) = (hashpipe_ok, w)
  wait_status (err eagain, w) = (hashpipe_timeout, w)
  wait_status (err _, w) = (hashpipe_err_sys, w)

  unfoldable pub wait_free_timeout : k.World → ℕ → ℕ → Timespec → Status × k.World
  wait_free_timeout w d block_id timeout =
      wait_status (k.semtimedop w (k.header w d).semid (free_ops block_id false) (some timeout))

  unfoldable pub wait_free : k.World → ℕ → ℕ → Status × k.World
  unfolding wait_free_timeout
  wait_free w d block_id = wait_free_timeout w d block_id quarter

  unfoldable pub wait_filled_timeout : k.World → ℕ → ℕ → Timespec → Status × k.World
  wait_filled_timeout w d block_id timeout =
      wait_status (k.semtimedop w (k.header w d).semid (filled_ops block_id false) (some timeout))

  unfoldable pub wait_filled : k.World → ℕ → ℕ → Status × k.World
  unfolding wait_filled_timeout
  wait_filled w d block_id = wait_filled_timeout w d block_id quarter

  -- The test `rv == -1 && errno == EAGAIN` and the code after the loop; `again` goes round once
  -- more.
  abbrev pub settle :
      Answer (Unit {0}) × k.World → Option (Status × k.World) → Option (Status × k.World)
  settle (err eagain, w) again = again
  settle (ok _, w) again = some (hashpipe_ok, w)
  settle (err _, w) again = some (hashpipe_err_sys, w)

  -- The spinning loop on `fuel` attempts (`none`: it still spins). `others i w` is what the other
  -- processes make of the state `w` before attempt `i`; semop(2) is semtimedop(2) with no timeout.
  unfoldable pub spin :
      (ℕ → k.World → k.World) → List SemBuf → ℕ → ℕ → k.World → ℕ → Option (Status × k.World)
  spin others ops zero i w d = none
  spin others ops (suc fuel) i w d =
      let w' = others i w in
      let a = k.semtimedop w' (k.header w' d).semid ops none in
      settle a (spin others ops fuel (i + 1) a.1 d)

  unfoldable pub busywait_free :
      (ℕ → k.World → k.World) → ℕ → k.World → ℕ → ℕ → Option (Status × k.World)
  unfolding spin
  busywait_free others fuel w d block_id = spin others (free_ops block_id true) fuel 0 w d

  unfoldable pub busywait_filled :
      (ℕ → k.World → k.World) → ℕ → k.World → ℕ → ℕ → Option (Status × k.World)
  unfolding spin
  busywait_filled others fuel w d block_id = spin others (filled_ops block_id true) fuel 0 w d

  abbrev pub set_status : Answer (Unit {0}) × k.World → Status × k.World
  set_status (ok _, w) = (hashpipe_ok, w)
  set_status (err _, w) = (hashpipe_err_sys, w)

  unfoldable pub set_free : k.World → ℕ → ℕ → Status × k.World
  set_free w d block_id = set_status (k.setval w (k.header w d).semid block_id 0)

  unfoldable pub set_filled : k.World → ℕ → ℕ → Status × k.World
  set_filled w d block_id = set_status (k.setval w (k.header w d).semid block_id 1)
