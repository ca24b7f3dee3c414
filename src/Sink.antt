-- ===== src/Sink.antt =====
-- null_output_thread.c: the thread that empties the last buffer of a pipeline. Its run function is a
-- machine that makes one call on the buffer in a step.
pub mod Attach
pub mod Pipeline
pub mod Ring
pub mod Calls
pub mod Fifo
use hashpipe.Base.{ℕ, ◌+◌, ◌%◌, if◌then◌else◌, Bool, true, false, Option, none, some}
use hashpipe.Ipc.{Ipc}
use hashpipe.Databuf.{
  Status, hashpipe_ok, hashpipe_timeout, hashpipe_err_gen, hashpipe_err_sys, detach,
}
use hashpipe.Databuf.Locks.{wait_filled, set_free}

-- Where the run function is: at the head of the main loop, in the loop that waits for a block, at a
-- block that is filled, returned with THREAD_OK, or in pthread_exit(3) after an error.
pub data Place : Type 0 where
  top waiting processing returned failed : Place

-- What the thread's key in the status buffer says.
pub data Shown : Type 0 where
  shows_init shows_waiting shows_blocked shows_processing : Shown

-- `nulblkin` is the value of the key NULBLKIN.
pub record Sink : Type 0 where
  pub place : Place
  pub block_idx : ℕ
  pub shown : Shown
  pub nulblkin : Option ℕ

-- The test of the main loop, and the status that it writes.
unfoldable pub enter_loop : Bool → Sink → Sink
enter_loop true s = record s { place = waiting; shown = shows_waiting }
enter_loop false s = record s { place = returned }

-- After the block is marked free, whatever that returned.
unfoldable pub next_block : ℕ → Sink → Sink
next_block n_block s = record s { place = top; block_idx = (s.block_idx + 1) % n_block }

module _ (k : Ipc) where
  -- After a wait for the block to be filled. On an error the thread leaves, and the clean-up function
  -- that it pushed detaches the buffer at `d`.
  unfoldable pub after_wait : ℕ → Sink → Status × k.World → Sink × k.World
  after_wait d s (hashpipe_ok, w) =
      (record s { place = processing; shown = shows_processing; nulblkin = some s.block_idx }, w)
  after_wait d s (hashpipe_timeout, w) = (record s { place = waiting; shown = shows_blocked }, w)
  after_wait d s (hashpipe_err_gen, w) = (record s { place = failed }, (detach k w (some d)).1)
  after_wait d s (hashpipe_err_sys, w) = (record s { place = failed }, (detach k w (some d)).1)

  unfoldable pub after_set : ℕ → Sink → Status × k.World → Sink × k.World
  unfolding next_block
  after_set d s (r, w) = (next_block (k.header w d).n_block s, w)

  -- One step at a place, on the buffer at `d`; `run` is what run_threads() returns.
  unfoldable pub step_at : Place → Bool → ℕ → Sink → k.World → Sink × k.World
  unfolding enter_loop after_wait after_set
  step_at top true d s w = (enter_loop true s, w)
  step_at top false d s w = (enter_loop false s, (detach k w (some d)).1)
  step_at waiting run d s w = after_wait d s (wait_filled k w d s.block_idx)
  step_at processing run d s w = after_set d s (set_free k w d s.block_idx)
  step_at returned run d s w = (s, w)
  step_at failed run d s w = (s, w)

  unfoldable pub step : Bool → ℕ → Sink → k.World → Sink × k.World
  unfolding step_at
  step run d s w = step_at s.place run d s w
