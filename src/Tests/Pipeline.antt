-- ===== src/Tests/Pipeline.antt =====
-- A block that goes through the pipeline on the kernel of Ipc/Table.
use hashpipe.Base.{ℕ, ◌+◌, ◌%◌, ◌≤◌, ◌<◌, ◌≡◌, ◌≢◌, ◌⊎◌, refl, arith, true, false, none, some, pos}
use hashpipe.Ipc.Table.{Table, table, table-IsIpc}
use hashpipe.IpcKey.{Env, keyfile, ipckey, databuf_proj_id, databuf_key}
use hashpipe.Databuf.{
  Request, hashpipe_timeout, segment_key, get_plain, get_2mb, get_existing, get_segment,
  after_setall, after_semget, after_lock, after_attach, after_segment, create,
}
use hashpipe.Databuf.Create.{create-IsReady, IsReady, request, created}
use hashpipe.Databuf.Locks.{
  wait_free, wait_filled, wait_free_timeout, wait_filled_timeout, set_filled, set_free,
}
use hashpipe.Sink.{step, step_at, enter_loop, after_wait, after_set, next_block}
use hashpipe.Sink.Pipeline.{
  Pipeline, writes, wrote, wants, put, write_wait, write_block, write_done, sink_top, sink_wait,
  sink_free,
}
use hashpipe.Sink.Fifo.{Reach, here, then_, start, AlwaysMarks, pipeline-fifo, no_deadlock}

abbrev env : Env
env = record { getenv = λ _. none; ftok = λ f p. p; strtoul = λ s. 0 }

abbrev nowhere : Table
nowhere = record {
  there = λ _. false;
  headers = λ _. record {
    data_type = "unknown";
    header_size = 0;
    block_size = 0;
    n_block = 0;
    shmid = pos 0;
    semid = pos 0;
  };
  sems = λ _ _. 1;
}

abbrev wanted : Request table
wanted = request table table-IsIpc env nowhere 0 1 128 4096 2

abbrev world : Table
world = (created table table-IsIpc env nowhere 0 1 128 4096 2).1

makes : (created table table-IsIpc env nowhere 0 1 128 4096 2).0 ≡ some 128
unfolding create get_segment get_2mb get_plain get_existing after_segment after_attach after_lock
    after_semget after_setall segment_key databuf_key ipckey keyfile databuf_proj_id
makes = refl

is_ready : IsReady table table-IsIpc wanted world 128
is_ready = (create-IsReady table table-IsIpc env nowhere 0 1 128 4096 2 128 makes).1

abbrev System : Type 0
System = Pipeline ℕ table

abbrev s0 : System
s0 = start table table-IsIpc 128 2 (omega arith) world (λ _. 0)

abbrev s1 : System
s1 = record s0 { world = (wait_free table world 128 0).1; writer = writes }

abbrev s2 : System
s2 = record s1 { content = put s1.content 0 42; writer = wrote; written = put s1.written 0 42 }

abbrev s3 : System
s3 = record s2 {
  world = (set_filled table s2.world 128 0).1;
  writer = wants;
  write_idx = (s2.write_idx + 1) % 2;
  sent = s2.sent + 1;
}

abbrev sunk : System → System
sunk s = record s {
  world = (step table true 128 s.sink s.world).1;
  sink = (step table true 128 s.sink s.world).0;
}

abbrev s4 : System
s4 = sunk s3

abbrev s5 : System
s5 = sunk s4

abbrev s6 : System
s6 = record (sunk s5) {
  received = s5.received + 1;
  read = put s5.read s5.received (s5.content s5.sink.block_idx);
}

run : Reach table table-IsIpc 128 2 (omega arith) s0 s6
unfolding create get_segment get_2mb get_plain get_existing after_segment after_attach after_lock
    after_semget after_setall segment_key databuf_key ipckey keyfile databuf_proj_id wait_free
    wait_filled wait_free_timeout wait_filled_timeout set_filled set_free step step_at enter_loop
    after_wait after_set next_block
run =
    then_
      (then_
        (then_
          (then_ (then_ (then_ here (write_wait refl refl)) (write_block 42 refl))
            (write_done refl))
          (sink_top refl))
        (sink_wait refl (λ e. cc e)))
      (sink_free refl)

marks : AlwaysMarks table 128 2
unfolding set_free set_filled
marks w b n small = (refl, refl)

pipeline-fifo_example :
    ((j : ℕ) → j < s6.received → s6.read j ≡ s6.written j)
    × (s6.received ≤ s6.sent)
    × (s6.sent ≤ s6.received + 2)
pipeline-fifo_example =
    pipeline-fifo table table-IsIpc 128 2 (omega arith) wanted world (λ _. 0) marks is_ready refl
      run

no_deadlock_example :
    ((wait_free table s6.world 128 s6.write_idx).0 ≢ hashpipe_timeout)
    ⊎ ((wait_filled table s6.world 128 s6.sink.block_idx).0 ≢ hashpipe_timeout)
no_deadlock_example =
    no_deadlock table table-IsIpc 128 2 (omega arith) wanted world (λ _. 0) marks is_ready refl run
