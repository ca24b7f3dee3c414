-- ===== src/Databuf/Handshake.antt =====
-- The hand-over of a block between the thread that fills it and the thread that empties it.
use hashpipe.Base.{ℕ, ◌≡◌, ◌≢◌, arith, ap, ◌∙◌, subst}
use hashpipe.Ipc.{Timespec, Ipc, IsIpc}
use hashpipe.Databuf.{Status, hashpipe_ok, hashpipe_timeout, hashpipe_err_sys, hashpipe_err_gen}
use hashpipe.Databuf.Locks.{wait_free_timeout, wait_filled_timeout, set_free, set_filled}
use hashpipe.Databuf.Blocks.{
  IsFree, IsFilled, Verdict, sem, SetTo, wait_free_timeout-Waited, wait_filled_timeout-Waited,
  set_free-SetTo, set_filled-SetTo,
}

module _ (k : Ipc) (l : IsIpc k) where
  set-value :
      (v : ℕ) (w : k.World) (d b : ℕ) (s : Status) (w' : k.World)
      → SetTo k l v w d b (s, w')
      → s ≡ hashpipe_ok
      → k.header w' d ≡ k.header w d
      → sem k w' d b ≡ v
  set-value v w d b hashpipe_ok w' f e h = ap (λ x. k.value w' x.semid b) h ∙ f b ∙ ground arith
  set-value v w d b hashpipe_timeout w' f e h = cc
  set-value v w d b hashpipe_err_gen w' f e h = cc
  set-value v w d b hashpipe_err_sys w' f e h = cc

  Verdict-ok :
      (good : ℕ → Type 0) (v : ℕ) (s : Status) → Verdict good v s → s ≡ hashpipe_ok → good v
  Verdict-ok good v s p e = subst (λ x. Verdict good v x) e p

  Verdict-timeout :
      (good : ℕ → Type 0) (v : ℕ) (s : Status) → Verdict good v s → s ≡ hashpipe_timeout → ¬ good v
  Verdict-timeout good v s p e = subst (λ x. Verdict good v x) e p

  -- With a kernel that keeps the laws of `IsIpc`, after a block has been marked filled, with
  -- success and with the header as it was, a wait for it to be free does not succeed, and a wait
  -- for it to be filled does not time out, at the state that the marking left.
  pub set_filled-wait :
      (w : k.World) (d b : ℕ) (t : Timespec)
      → (set_filled k w d b).0 ≡ hashpipe_ok
      → k.header (set_filled k w d b).1 d ≡ k.header w d
      → ((wait_free_timeout k (set_filled k w d b).1 d b t).0 ≢ hashpipe_ok)
        × ((wait_filled_timeout k (set_filled k w d b).1 d b t).0 ≢ hashpipe_timeout)
  set_filled-wait w d b t s h =
      let one = set-value 1 w d b _ _ (set_filled-SetTo k l w d b) s h in
      (
        λ e. omega (
          arith,
          one,
          Verdict-ok IsFree (sem k (set_filled k w d b).1 d b) _
              (wait_free_timeout-Waited k l _ d b t).0 e,
        ),
        λ e.
            Verdict-timeout IsFilled _ _ (wait_filled_timeout-Waited k l _ d b t).0 e
              (omega (arith, one)),
      )

  -- With a kernel that keeps the laws of `IsIpc`, after a block has been marked free, with success
  -- and with the header as it was, a wait for it to be filled does not succeed, and a wait for it
  -- to be free does not time out, at the state that the marking left.
  pub set_free-wait :
      (w : k.World) (d b : ℕ) (t : Timespec)
      → (set_free k w d b).0 ≡ hashpipe_ok
      → k.header (set_free k w d b).1 d ≡ k.header w d
      → ((wait_filled_timeout k (set_free k w d b).1 d b t).0 ≢ hashpipe_ok)
        × ((wait_free_timeout k (set_free k w d b).1 d b t).0 ≢ hashpipe_timeout)
  set_free-wait w d b t s h =
      let none_ = set-value 0 w d b _ _ (set_free-SetTo k l w d b) s h in
      (
        λ e. omega (
          arith,
          none_,
          Verdict-ok IsFilled (sem k (set_free k w d b).1 d b) _
              (wait_filled_timeout-Waited k l _ d b t).0 e,
        ),
        λ e.
            Verdict-timeout IsFree _ _ (wait_free_timeout-Waited k l _ d b t).0 e
              (omega (arith, none_)),
      )
