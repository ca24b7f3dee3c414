-- ===== src/Sink/Calls.antt =====
-- What the calls that the two threads of a pipeline make leave of the header and the semaphores.
use hashpipe.Base.{ℕ, ◌≡◌, refl, arith, ap, ◌∙◌, subst, fun_ext}
use hashpipe.Base.{update}
use hashpipe.Ipc.{Answer, ok, err, eagain, Ipc, IsIpc}
use hashpipe.Databuf.{Status, hashpipe_ok, hashpipe_timeout}
use hashpipe.Databuf.Locks.{
  quarter, wait_free, wait_filled, wait_free_timeout, wait_filled_timeout, set_filled, set_free,
  wait_status, set_status,
}
use hashpipe.Databuf.Blocks.{
  sem, IsFree, IsFilled, Verdict, SetTo, wait_free_timeout-Waited, wait_filled_timeout-Waited,
  set_free-SetTo, set_filled-SetTo,
}

module _ (k : Ipc) (l : IsIpc k) where
  -- A call that leaves the header of `d` alone and its semaphores with the values `f`.
  pub record Leaves (w : k.World) (d : ℕ) (f : ℕ → ℕ) (w' : k.World) : Type 0 where
    pub header : k.header w' d ≡ k.header w d
    pub sems : sem k w' d ≡ f

  leaves :
      (w : k.World) (d : ℕ) (f : ℕ → ℕ) (w' : k.World)
      → k.header w' d ≡ k.header w d
      → ((j : ℕ) → k.value w' (k.header w d).semid j ≡ f j)
      → Leaves w d f w'
  leaves w d f w' h p = record {
    header = h;
    sems = fun_ext (λ j. ap (λ x. k.value w' x.semid j) h ∙ p j);
  }

  wait_status-world : (a : Answer (Unit {0}) × k.World) → (wait_status k a).1 ≡ a.1
  wait_status-world (ok u, w) = refl
  wait_status-world (err eagain, w) = refl
  wait_status-world (err e, w) = ground arith

  set_status-world : (a : Answer (Unit {0}) × k.World) → (set_status k a).1 ≡ a.1
  set_status-world (ok u, w) = refl
  set_status-world (err e, w) = refl

  module _ (w : k.World) (d b : ℕ) where
    pub wait_free-Leaves : Leaves w d (sem k w d) (wait_free k w d b).1
    unfolding wait_free wait_free_timeout
    wait_free-Leaves =
        leaves w d (sem k w d) _
          (ap (λ x. k.header x d) (wait_status-world _) ∙ l.header-semtimedop w d _ _ _)
          (wait_free_timeout-Waited k l w d b quarter).1

    pub wait_free-IsFree : (wait_free k w d b).0 ≡ hashpipe_ok → IsFree (sem k w d b)
    unfolding wait_free
    wait_free-IsFree e =
        subst (Verdict IsFree (sem k w d b)) e (wait_free_timeout-Waited k l w d b quarter).0

    pub wait_free-timeout : (wait_free k w d b).0 ≡ hashpipe_timeout → ¬ IsFree (sem k w d b)
    unfolding wait_free
    wait_free-timeout e =
        subst (Verdict IsFree (sem k w d b)) e (wait_free_timeout-Waited k l w d b quarter).0

    pub wait_filled-Leaves : Leaves w d (sem k w d) (wait_filled k w d b).1
    unfolding wait_filled wait_filled_timeout
    wait_filled-Leaves =
        leaves w d (sem k w d) _
          (ap (λ x. k.header x d) (wait_status-world _) ∙ l.header-semtimedop w d _ _ _)
          (wait_filled_timeout-Waited k l w d b quarter).1

    pub wait_filled-Verdict : Verdict IsFilled (sem k w d b) (wait_filled k w d b).0
    unfolding wait_filled
    wait_filled-Verdict = (wait_filled_timeout-Waited k l w d b quarter).0

    SetTo-ok :
        (v : ℕ) (r : Status) (w' : k.World)
        → SetTo k l v w d b (r, w')
        → r ≡ hashpipe_ok
        → (j : ℕ) → k.value w' (k.header w d).semid j ≡ update (sem k w d) b v j
    SetTo-ok v r w' f e = subst (λ x. SetTo k l v w d b (x, w')) e f

    pub set_free-Leaves :
        (set_free k w d b).0 ≡ hashpipe_ok
        → Leaves w d (update (sem k w d) b 0) (set_free k w d b).1
    set_free-Leaves e = leaves w d _ _ kept (SetTo-ok 0 _ _ (set_free-SetTo k l w d b) e)
      where
        kept : k.header (set_free k w d b).1 d ≡ k.header w d
        kept =
            unfold set_free in
            (ap (λ x. k.header x d) (set_status-world _) ∙ l.header-setval w d _ _ _)

    pub set_filled-Leaves :
        (set_filled k w d b).0 ≡ hashpipe_ok
        → Leaves w d (update (sem k w d) b 1) (set_filled k w d b).1
    set_filled-Leaves e = leaves w d _ _ kept (SetTo-ok 1 _ _ (set_filled-SetTo k l w d b) e)
      where
        kept : k.header (set_filled k w d b).1 d ≡ k.header w d
        kept =
            unfold set_filled in
            (ap (λ x. k.header x d) (set_status-world _) ∙ l.header-setval w d _ _ _)
