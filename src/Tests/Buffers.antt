-- ===== src/Tests/Buffers.antt =====
-- The theorems on data buffers, on the kernel of Ipc/Table.
use hashpipe.Base.{ℕ, ◌≤◌, ◌≡◌, refl, ◌≢◌, arith, ◌==◌, if◌then◌else◌}
use hashpipe.Base.{false, none, some, pos}
use hashpipe.Ipc.{Header, Timespec, databuf_bytes}
use hashpipe.Ipc.Table.{Table, table, table-IsIpc}
use hashpipe.IpcKey.{Env, keyfile, ipckey, databuf_proj_id, databuf_key}
use hashpipe.Databuf.{
  segment_key, get_plain, get_2mb, get_existing, get_segment, after_setall, after_semget,
  after_lock, after_attach, after_segment, create,
}
use hashpipe.Databuf.Locks.{wait_free_timeout, wait_filled_timeout, busywait_filled}
use hashpipe.Databuf.Blocks.{IsFree, IsFilled, Waited, wait_timeouts-Waited}
use hashpipe.Databuf.Spin.{busywait_filled-ends}
use hashpipe.Databuf.Create.{create-IsReady, IsReady, request, created}

abbrev pub head : ℕ → Header
head n = record {
  data_type = "unknown";
  header_size = 128;
  block_size = 4096;
  n_block = n;
  shmid = pos 1;
  semid = pos 7;
}

-- A buffer of `n` blocks whose semaphores all have the value `v`.
abbrev pub state : ℕ → ℕ → Table
state n v = record { there = λ _. false; headers = λ _. head n; sems = λ _ _. v }

abbrev one_second : Timespec
one_second = record { tv_sec = 1; tv_nsec = 0 }

-- Another process sets every semaphore to `v` before the second attempt.
abbrev helper : ℕ → ℕ → Table → Table
helper v i w = if i == 1 then record w { sems = λ _ _. v } else w

abbrev pub plain : Env
plain = record { getenv = λ _. none; ftok = λ f p. p; strtoul = λ s. 0 }

wait_timeouts-Waited_example :
    Waited table IsFree (state 4 0) 1000 2 (wait_free_timeout table (state 4 0) 1000 2 one_second)
    × Waited table IsFilled
        (state 4 0)
        1000
        2
        (wait_filled_timeout table (state 4 0) 1000 2 one_second)
wait_timeouts-Waited_example = wait_timeouts-Waited table table-IsIpc (state 4 0) 1000 2 one_second

busywait_filled-ends_example : busywait_filled table (helper 1) 2 (state 4 0) 1000 2 ≢ none
busywait_filled-ends_example =
    busywait_filled-ends table table-IsIpc (helper 1) 1 2 (state 4 0) 1000 2 (omega arith)
      (λ v. omega arith)

creates : (created table table-IsIpc plain (state 4 1) 0 1 128 4096 4).0 ≡ some 128
unfolding create get_segment get_2mb get_plain get_existing after_segment after_attach after_lock
    after_semget after_setall segment_key databuf_key ipckey keyfile databuf_proj_id
creates = refl

create-IsReady_example :
    (databuf_bytes ≤ 128)
    × IsReady table table-IsIpc
        (request table table-IsIpc plain (state 4 1) 0 1 128 4096 4)
        (created table table-IsIpc plain (state 4 1) 0 1 128 4096 4).1
        128
create-IsReady_example =
    create-IsReady table table-IsIpc plain (state 4 1) 0 1 128 4096 4 128 creates
