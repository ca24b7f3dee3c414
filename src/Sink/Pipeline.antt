-- ===== src/Sink/Pipeline.antt =====
-- A pipeline of two threads on one buffer: an upstream thread that waits for a block to be free,
-- writes it and marks it filled, as the buffer's protocol has it, and the sink thread.
use hashpipe.Base.{ℕ, ◌+◌, ◌%◌, ◌≡◌, ◌≢◌, ◌==◌, if◌then◌else◌, true}
use hashpipe.Ipc.{Ipc}
use hashpipe.Databuf.{hashpipe_ok, hashpipe_timeout, hashpipe_err_sys}
use hashpipe.Databuf.Locks.{wait_free, wait_filled, set_filled}
use hashpipe.Sink.{Sink, top, waiting, processing, step}

-- Where the upstream thread is: waiting for its block, writing it, or about to mark it filled.
pub data Writer : Type 0 where
  wants writes wrote : Writer

abbrev pub put {ℓ} : {A : Type ℓ} → (ℕ → A) → ℕ → A → ℕ → A
put f i v j = if i == j then v else f j

-- `sent` and `received` count the blocks that were marked filled and free; `written` and `read` are
-- their contents, by number. They are not part of the program: they say what happened.
pub record Pipeline (A : Type 0) (k : Ipc) : Type 0 where
  pub world : k.World
  pub content : ℕ → A
  pub writer : Writer
  pub write_idx : ℕ
  pub sink : Sink
  pub sent : ℕ
  pub written : ℕ → A
  pub received : ℕ
  pub read : ℕ → A

module _ {A : Type 0} (k : Ipc) (d n : ℕ) where
  -- A step of one of the two. A wait that times out is repeated, and one that fails with another error
  -- is the thread's last step, after which it makes none here. Neither thread looks at what its
  -- marks return: it goes on also if they fail.
  pub data Step (s : Pipeline A k) : Pipeline A k → Type 0 where
    write_wait :
        s.writer ≡ wants
        → (wait_free k s.world d s.write_idx).0 ≡ hashpipe_ok
        → Step s (record s { world = (wait_free k s.world d s.write_idx).1; writer = writes })
    write_blocked :
        s.writer ≡ wants
        → (wait_free k s.world d s.write_idx).0 ≡ hashpipe_timeout
        → Step s (record s { world = (wait_free k s.world d s.write_idx).1 })
    write_block :
        (x : A)
        → s.writer ≡ writes
        → Step s (record s {
          content = put s.content s.write_idx x;
          writer = wrote;
          written = put s.written s.sent x;
        })
    write_done :
        s.writer ≡ wrote
        → Step s (record s {
          world = (set_filled k s.world d s.write_idx).1;
          writer = wants;
          write_idx = (s.write_idx + 1) % n;
          sent = s.sent + 1;
        })
    sink_top :
        s.sink.place ≡ top
        → Step s (record s {
          world = (step k true d s.sink s.world).1;
          sink = (step k true d s.sink s.world).0;
        })
    sink_wait :
        s.sink.place ≡ waiting
        → (wait_filled k s.world d s.sink.block_idx).0 ≢ hashpipe_err_sys
        → Step s (record s {
          world = (step k true d s.sink s.world).1;
          sink = (step k true d s.sink s.world).0;
        })
    sink_free :
        s.sink.place ≡ processing
        → Step s (record s {
          world = (step k true d s.sink s.world).1;
          sink = (step k true d s.sink s.world).0;
          received = s.received + 1;
          read = put s.read s.received (s.content s.sink.block_idx);
        })
