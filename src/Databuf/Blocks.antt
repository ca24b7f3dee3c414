-- ===== src/Databuf/Blocks.antt =====
-- What the locking functions of a data buffer do to its blocks, on every branch.
use hashpipe.Base.{ℕ, ◌<◌, ◌≡◌, refl, ◌≢◌, arith}
use hashpipe.Base.{Bool, false, Option, none, some, List, ap, some}
use hashpipe.Base.{update}
use hashpipe.Ipc.{eagain, Answer, ok, err, SemBuf, Timespec, Ipc, IsIpc, apply_ops}
use hashpipe.Databuf.{Status, hashpipe_ok, hashpipe_timeout, hashpipe_err_gen, hashpipe_err_sys}
use hashpipe.Databuf.Locks.{
  free_ops, filled_ops, wait_status, wait_free_timeout, wait_filled_timeout,
}
use hashpipe.Databuf.Locks.{set_status, set_free, set_filled}

-- The value at `j` of a result.
abbrev value_at : Option (ℕ → ℕ) → ℕ → ℕ
value_at none j = 0
value_at (some f) j = f j

-- An array of operations that succeeds shows the values it met and leaves.
free_ops-some :
    (f g : ℕ → ℕ) (b : ℕ) (x : Bool)
    → apply_ops f (free_ops b x) ≡ some g
    → (f b ≡ 0) × ((j : ℕ) → g j ≡ f j)
free_ops-some f g b x h = (ground arith, λ j. ground (arith, ap (λ o. value_at o j) h))

filled_ops-some :
    (f g : ℕ → ℕ) (b : ℕ) (x : Bool)
    → apply_ops f (filled_ops b x) ≡ some g
    → (0 < f b) × ((j : ℕ) → g j ≡ f j)
filled_ops-some f g b x h = (ground arith, λ j. ground (arith, ap (λ o. value_at o j) h))

free_ops-ne-none : (f : ℕ → ℕ) (b : ℕ) (x : Bool) → f b ≡ 0 → apply_ops f (free_ops b x) ≢ none
free_ops-ne-none f b x h = ground arith

filled_ops-ne-none : (f : ℕ → ℕ) (b : ℕ) (x : Bool) → 0 < f b → apply_ops f (filled_ops b x) ≢ none
filled_ops-ne-none f b x h = ground arith

-- A wait for a value that passes `good`: the array succeeds only there, and always there.
pub record Awaits (good : ℕ → Type 0) (b : ℕ) (ops : List SemBuf) : Type 0 where
  pub met : (f g : ℕ → ℕ) → apply_ops f ops ≡ some g → good (f b) × ((j : ℕ) → g j ≡ f j)
  pub goes : (f : ℕ → ℕ) → good (f b) → apply_ops f ops ≢ none

pub free_ops-Awaits : (b : ℕ) (x : Bool) → Awaits (λ v. v ≡ 0) b (free_ops b x)
free_ops-Awaits b x = record {
  met = λ f g. free_ops-some f g b x;
  goes = λ f. free_ops-ne-none f b x;
}

pub filled_ops-Awaits : (b : ℕ) (x : Bool) → Awaits (λ v. 0 < v) b (filled_ops b x)
filled_ops-Awaits b x = record {
  met = λ f g. filled_ops-some f g b x;
  goes = λ f. filled_ops-ne-none f b x;
}

-- What a status says of a value: success that it passes `good`, a timeout that it does not.
abbrev pub Verdict : (ℕ → Type 0) → ℕ → Status → Type 0
Verdict good v hashpipe_ok = good v
Verdict good v hashpipe_timeout = ¬ good v
Verdict good v hashpipe_err_sys = Unit
Verdict good v hashpipe_err_gen = ⊥

abbrev pub IsFree : ℕ → Type 0
IsFree v = v ≡ 0

abbrev pub IsFilled : ℕ → Type 0
IsFilled v = 0 < v

module _ (k : Ipc) where
  abbrev pub sem : k.World → ℕ → ℕ → ℕ
  sem w d b = k.value w (k.header w d).semid b

  -- What a wait left: its status is true of the block's value, and no semaphore changed.
  abbrev pub Waited : (ℕ → Type 0) → k.World → ℕ → ℕ → Status × k.World → Type 0
  Waited good w d b out =
      Verdict good (sem w d b) out.0 × ((j : ℕ) → k.value out.1 (k.header w d).semid j ≡ sem w d j)

  module _ (l : IsIpc k) {good : ℕ → Type 0} {b : ℕ} {ops : List SemBuf}
      (a : Awaits good b ops) where
    pub wait_status-Waited :
        (w : k.World) (d : ℕ) (t : Option Timespec) (r : Answer (Unit {0})) (w' : k.World)
        → k.semtimedop w (k.header w d).semid ops t ≡ (r, w')
        → Waited good w d b (wait_status k (r, w'))
    wait_status-Waited w d t (ok u) w' e =
        let p : (k.semtimedop w (k.header w d).semid ops t).0 ≡ ok tt = ap (λ z. z.0) e in
        let (now, same) = a.met _ _ (l.value-semtimedop w (k.header w d).semid ops t p) in
        (now, λ j. rw (← ap (λ z. z.1) e) (same j))
    wait_status-Waited w d t (err eagain) w' e =
        let p : (k.semtimedop w (k.header w d).semid ops t).0 ≡ err eagain = ap (λ z. z.0) e in
        (
          λ now. a.goes _ now (l.semtimedop-eagain w (k.header w d).semid ops t p),
          λ j.
              rw (← ap (λ z. z.1) e)
                (l.value-semtimedop_err w (k.header w d).semid ops t eagain p j),
        )
    wait_status-Waited w d t (err x) w' e =
        let p : (k.semtimedop w (k.header w d).semid ops t).0 ≡ err x = ap (λ z. z.0) e in
        (
          tt,
          λ j. rw (← ap (λ z. z.1) e) (l.value-semtimedop_err w (k.header w d).semid ops t x p j),
        )

  module _ (l : IsIpc k) where
    pub wait_free_timeout-Waited :
        (w : k.World) (d b : ℕ) (t : Timespec) → Waited IsFree w d b (wait_free_timeout k w d b t)
    unfolding wait_free_timeout
    wait_free_timeout-Waited w d b t =
        wait_status-Waited l (free_ops-Awaits b false) w d (some t) _ _ refl

    pub wait_filled_timeout-Waited :
        (w : k.World) (d b : ℕ) (t : Timespec)
        → Waited IsFilled w d b (wait_filled_timeout k w d b t)
    unfolding wait_filled_timeout
    wait_filled_timeout-Waited w d b t =
        wait_status-Waited l (filled_ops-Awaits b false) w d (some t) _ _ refl

    -- With a kernel that keeps the laws of `IsIpc`, waiting for a free block and for a filled one,
    -- whatever the timeout: success says that the block was in the state that is waited for, a
    -- timeout that it was in the other one; on no branch a semaphore is changed, although the wait for a
    -- filled block takes it and gives it back.
    pub wait_timeouts-Waited :
        (w : k.World) (d b : ℕ) (t : Timespec)
        → Waited IsFree w d b (wait_free_timeout k w d b t)
          × Waited IsFilled w d b (wait_filled_timeout k w d b t)
    wait_timeouts-Waited w d b t =
        (wait_free_timeout-Waited w d b t, wait_filled_timeout-Waited w d b t)

    -- What a set leaves: on success the block's value is `v`, on an error it is what it was; no
    -- other block's changes.
    abbrev pub SetTo : ℕ → k.World → ℕ → ℕ → Status × k.World → Type 0
    SetTo v w d b (hashpipe_ok, w') =
        (j : ℕ) → k.value w' (k.header w d).semid j ≡ update (sem w d) b v j
    SetTo v w d b (hashpipe_err_sys, w') = (j : ℕ) → k.value w' (k.header w d).semid j ≡ sem w d j
    SetTo v w d b _ = ⊥

    set_status-SetTo :
        (w : k.World) (d b v : ℕ) (r : Answer (Unit {0})) (w' : k.World)
        → k.setval w (k.header w d).semid b v ≡ (r, w')
        → SetTo v w d b (set_status k (r, w'))
    set_status-SetTo w d b v (ok u) w' e =
        λ j. rw (← ap (λ z. z.1) e) (l.value-setval w (k.header w d).semid b v j (ap (λ z. z.0) e))
    set_status-SetTo w d b v (err x) w' e = λ j.
        rw (← ap (λ z. z.1) e) (l.value-setval_err w (k.header w d).semid b v j x (ap (λ z. z.0) e))

    -- With a kernel that keeps the laws of `IsIpc`, marking a block free, in whatever state it was:
    -- on success its semaphore is 0 and no other one has changed; on an error none has.
    pub set_free-SetTo : (w : k.World) (d b : ℕ) → SetTo 0 w d b (set_free k w d b)
    unfolding set_free
    set_free-SetTo w d b = set_status-SetTo w d b 0 _ _ refl

    -- With a kernel that keeps the laws of `IsIpc`, marking a block filled, in whatever state it
    -- was: on success its semaphore is 1 and no other one has changed; on an error none has.
    pub set_filled-SetTo : (w : k.World) (d b : ℕ) → SetTo 1 w d b (set_filled k w d b)
    unfolding set_filled
    set_filled-SetTo w d b = set_status-SetTo w d b 1 _ _ refl
