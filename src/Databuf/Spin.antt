-- ===== src/Databuf/Spin.antt =====
-- The busy-waiting loops: what they report, and when they end.
use hashpipe.Base.{
  ℕ, zero, suc, ◌+◌, ◌<◌, ◌≡◌, refl, ◌≢◌, arith, true, Option, none, some, List, ap, subst,
}
use hashpipe.Ipc.{eagain, Answer, ok, err, SemBuf, Ipc, IsIpc}
use mathlib.Core.Option.{some-injective}
use native.Mathlib.Nat.{add-zero, zero-add}
use hashpipe.Databuf.{Status, hashpipe_timeout}
use hashpipe.Databuf.Locks.{settle, spin, busywait_free, busywait_filled}
use hashpipe.Databuf.Blocks.{
  IsFree, IsFilled, sem, Waited, Awaits, free_ops-Awaits, filled_ops-Awaits, wait_status-Waited,
}

shift : (i n : ℕ) → i + 1 + n ≡ i + suc n
shift i n = omega arith

module _ (k : Ipc) (l : IsIpc k) (others : ℕ → k.World → k.World) where
  -- The last attempt, made at the state `at`, decided.
  abbrev pub Spun : (ℕ → Type 0) → ℕ → ℕ → Status × k.World → Type 0
  Spun good d b out = (at : k.World) × Waited k good at d b out × (out.0 ≢ hashpipe_timeout)

  module _ {good : ℕ → Type 0} {b : ℕ} {ops : List SemBuf} (a : Awaits good b ops) where
    settle-Spun :
        (w : k.World) (d : ℕ) (r : Answer (Unit {0})) (w' : k.World)
        (again : Option (Status × k.World)) (out : Status × k.World)
        → k.semtimedop w (k.header w d).semid ops none ≡ (r, w')
        → (again ≡ some out → Spun good d b out)
        → settle k (r, w') again ≡ some out
        → Spun good d b out
    settle-Spun w d (err eagain) w' again out e ih h = ih h
    settle-Spun w d (ok u) w' again out e ih h =
        subst (λ o. Spun good d b o) (some-injective _ _ h)
          (w, wait_status-Waited k l a w d none (ok u) w' e, λ q. cc)
    settle-Spun w d (err x) w' again out e ih h =
        subst (λ o. Spun good d b o) (some-injective _ _ h)
          (w, wait_status-Waited k l a w d none (err x) w' e, λ q. cc)

    spin-Spun :
        (fuel i : ℕ) (w : k.World) (d : ℕ) (out : Status × k.World)
        → spin k others ops fuel i w d ≡ some out
        → Spun good d b out
    unfolding spin
    spin-Spun zero i w d out h = cc
    spin-Spun (suc fuel) i w d out h =
        settle-Spun (others i w) d _ _ _ out refl (spin-Spun fuel (i + 1) _ d out) h

    settle-ne-none :
        (w : k.World) (d : ℕ) (r : Answer (Unit {0})) (w' : k.World)
        (again : Option (Status × k.World))
        → k.semtimedop w (k.header w d).semid ops none ≡ (r, w')
        → (¬ good (sem k w d b) → again ≢ none)
        → settle k (r, w') again ≢ none
    settle-ne-none w d (err eagain) w' again e ih =
        ih (λ now. a.goes _ now (l.semtimedop-eagain w _ ops none (ap (λ z. z.0) e)))
    settle-ne-none w d (ok u) w' again e ih = λ q. cc
    settle-ne-none w d (err x) w' again e ih = λ q. cc

    spin-ne-none :
        (fuel n i : ℕ) (w : k.World) (d : ℕ)
        → n < fuel
        → ((v : k.World) → good (sem k (others (i + n) v) d b))
        → spin k others ops fuel i w d ≢ none
    unfolding spin
    spin-ne-none zero n i w d p q = absurd (omega arith)
    spin-ne-none (suc fuel) zero i w d p q =
        settle-ne-none (others i w) d _ _ _ refl λ no_. absurd (no_ (rw add-zero at (q w)))
    spin-ne-none (suc fuel) (suc n) i w d p q =
        settle-ne-none (others i w) d _ _ _ refl
          λ no_. spin-ne-none fuel n (i + 1) _ d (omega arith) (λ v. rw (shift i n) (q v))

  -- With a kernel that keeps the laws of `IsIpc`, when the spinning wait for a free block ends, its
  -- last attempt was made at a state where, on success, the block was free; it never reports a
  -- timeout and changes no semaphore.
  pub busywait_free-Spun :
      (fuel : ℕ) (w : k.World) (d b : ℕ) {out : Status × k.World}
      → busywait_free k others fuel w d b ≡ some out
      → Spun IsFree d b out
  unfolding busywait_free
  busywait_free-Spun fuel w d b {out} h = spin-Spun (free_ops-Awaits b true) fuel 0 w d out h

  -- With a kernel that keeps the laws of `IsIpc`, when the spinning wait for a filled block ends,
  -- its last attempt was made at a state where, on success, the block was filled; it never reports
  -- a timeout and changes no semaphore.
  pub busywait_filled-Spun :
      (fuel : ℕ) (w : k.World) (d b : ℕ) {out : Status × k.World}
      → busywait_filled k others fuel w d b ≡ some out
      → Spun IsFilled d b out
  unfolding busywait_filled
  busywait_filled-Spun fuel w d b {out} h = spin-Spun (filled_ops-Awaits b true) fuel 0 w d out h

  -- With a kernel that keeps the laws of `IsIpc`, if the other processes have freed the block by
  -- attempt `n`, whatever else they do, the spinning wait for a free block ends within `n + 1`
  -- attempts.
  pub busywait_free-ends :
      (n fuel : ℕ) (w : k.World) (d b : ℕ)
      → n < fuel
      → ((v : k.World) → IsFree (sem k (others n v) d b))
      → busywait_free k others fuel w d b ≢ none
  unfolding busywait_free
  busywait_free-ends n fuel w d b p q =
      spin-ne-none (free_ops-Awaits b true) fuel n 0 w d p (λ v. rw zero-add (q v))

  -- With a kernel that keeps the laws of `IsIpc`, if the other processes have filled the block by
  -- attempt `n`, whatever else they do, the spinning wait for a filled block ends within `n + 1`
  -- attempts.
  pub busywait_filled-ends :
      (n fuel : ℕ) (w : k.World) (d b : ℕ)
      → n < fuel
      → ((v : k.World) → IsFilled (sem k (others n v) d b))
      → busywait_filled k others fuel w d b ≢ none
  unfolding busywait_filled
  busywait_filled-ends n fuel w d b p q =
      spin-ne-none (filled_ops-Awaits b true) fuel n 0 w d p (λ v. rw zero-add (q v))
