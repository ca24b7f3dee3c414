-- ===== src/Tests/Threads.antt =====
-- The theorems on threads, the executable, the status buffer's attachment and InfiniBand verbs.
use hashpipe.Base.{◌+◌}
use hashpipe.Base.{ℕ, ◌≤◌, ◌≡◌, ◌≢◌, ◌⊎◌, refl, arith, ◌==◌, if◌then◌else◌, bit_and}
use hashpipe.Base.{true, false, Option, none, some, List, [], ◌∷◌, fun_ext, pos}
use hashpipe.Ipc.Table.{Table, table, put_sems, put_sems_lem}
use hashpipe.IpcKey.{key_error, status_key}
use hashpipe.Databuf.{hashpipe_ok}
use hashpipe.StatusBuf.{codes, Buffer}
use hashpipe.StatusBuf.Attach.{
  StatusArea, status_attach, Attached, FindsClean, status_attach-Attached,
}
use hashpipe.StatusBuf.{status_total_size}
use hashpipe.StatusBuf.Records.{find_end-zero}
use hashpipe.Ipc.{ipc_creat}
use hashpipe.IpcKey.{status_proj_id, ipckey, keyfile}
use hashpipe.Tests.Names.{one_value, one_value-IsFits, unset}
use hashpipe.Thread.{ThreadDesc}
use hashpipe.Executable.{
  Resource, ibuf, obuf, InitCalls, thread_init, gone, thread_error, left_mapped, status, RunCalls,
  thread_run,
}
use hashpipe.Executable.Resources.{
  left_count, acquired_count, released_count, thread_init-released, thread_run-released,
}
use hashpipe.Ibv.{Context, qps_init, Poll, get_pkts}
use hashpipe.Ibv.Packets.{IsFreeList, AreNew, IsSplit, onto, polled, get_pkts-polled}
use hashpipe.Ibv.{make_all_ready, make_ready, from_init, from_rtr}
use hashpipe.Ibv.Device.{swap64, Device, open_device_for_interface_id}
use hashpipe.Ibv.Device.Search.{IsOpened, open_device_for_interface_id-IsOpened}

abbrev filter : ThreadDesc
filter = record {
  name = codes "filter";
  skey = some (codes "FILTSTAT");
  init = true;
  ibuf_create = true;
  obuf_create = true;
}

-- The output buffer cannot be created.
abbrev no_obuf : Resource → Option ℕ
no_obuf ibuf = some 4096
no_obuf _ = none

abbrev half_way : InitCalls
half_way = record {
  status_attach = pos 0;
  create = no_obuf;
  leaves = λ r. true;
  init = pos 0;
  detach = λ r. true;
}

thread_init-released_example :
    (acquired_count ibuf (thread_init filter half_way).1
      ≡ released_count ibuf (thread_init filter half_way).1)
    × (acquired_count ibuf (thread_init filter half_way).1
          + left_count ibuf (thread_init filter half_way).1
        ≤ 1)
    × ((left_count ibuf (thread_init filter half_way).1 ≡ 0)
        ⊎ ((thread_init filter half_way).0 ≢ pos 0))
thread_init-released_example = thread_init-released filter half_way ibuf

-- The thread is cancelled.
abbrev cancelled : RunCalls
cancelled = record {
  affinity_set = true;
  status_attached = true;
  leaves_status = true;
  error_gone = λ r. false;
  exit_gone = false;
  attach = λ r. some 4096;
  run = gone;
  detach = λ r. true;
}

thread_run-released_example :
    (acquired_count obuf (thread_run filter cancelled).1
      ≡ released_count obuf (thread_run filter cancelled).1)
    × (acquired_count obuf (thread_run filter cancelled).1
          + left_count obuf (thread_run filter cancelled).1
        ≤ 1)
    × ((left_count obuf (thread_run filter cancelled).1 ≡ 0)
        ⊎ (thread_run filter cancelled ≡ (thread_error, left_mapped status ∷ [])))
thread_run-released_example = thread_run-released filter cancelled obuf

-- The bytes of the one status buffer are kept where a header would not be.
abbrev pub bytes_at : Table → ℕ → Buffer
bytes_at w a offs = w.sems (pos a) offs

abbrev pub put_bytes : Table → ℕ → Buffer → Table
put_bytes w a b = put_sems w (pos a) b

abbrev pub blank_kernel : Table
blank_kernel = record {
  there = λ _. false;
  headers = λ _. record {
    data_type = "";
    header_size = 0;
    block_size = 0;
    n_block = 0;
    shmid = pos 0;
    semid = pos 0;
  };
  sems = λ _ _. 0;
}

abbrev pub area : StatusArea
area = record { instance_id = 0; shmid = pos 0; lock = none; buf = 0 }

pub bytes_at-put_bytes : (w : Table) (a : ℕ) (b : Buffer) → bytes_at (put_bytes w a b) a ≡ b
bytes_at-put_bytes w a b = fun_ext (put_sems_lem w (pos a) b)

abbrev pub open_lock : Table → List ℕ → Option ℕ × Table
open_lock w name = (some 9, w)

-- There are no bytes there but zeros.
nothing_found :
    FindsClean table bytes_at put_bytes open_lock one_value unset one_value-IsFits
      bytes_at-put_bytes
      (bit_and 3 0x3f)
      (table.shmget blank_kernel
        (status_key unset (bit_and 3 0x3f))
        status_total_size
        (ipc_creat ∷ []))
unfolding status_key status_proj_id ipckey keyfile
nothing_found = λ h. absurd (h (find_end-zero _ (λ o. refl)))

status_attach-Attached_example :
    ((status_key unset (bit_and 3 0x3f) ≡ key_error)
      × (status_attach table bytes_at put_bytes open_lock one_value unset blank_kernel 3 area
          ≡ (hashpipe_ok, record area { instance_id = bit_and 3 0x3f }, blank_kernel)))
    ⊎ ((status_key unset (bit_and 3 0x3f) ≢ key_error)
        × Attached table bytes_at put_bytes open_lock one_value unset one_value-IsFits
            bytes_at-put_bytes
            (bit_and 3 0x3f)
            (status_attach table bytes_at put_bytes open_lock one_value unset blank_kernel 3 area))
status_attach-Attached_example =
    status_attach-Attached table bytes_at put_bytes open_lock one_value unset one_value-IsFits
      bytes_at-put_bytes blank_kernel 3 area nothing_found

-- Packets 0 and 1 are free, 2 is completed.
abbrev context : Context
context = record {
  send_pkt_num = 3;
  send_pkt_head = some 0;
  next = λ p. if p == 0 then some 1 else none;
}

abbrev polls : List Poll
polls = record { completed = 2 ∷ []; drained = true } ∷ []

two_free : IsFreeList context (0 ∷ 1 ∷ [])
two_free = ((refl, (refl, tt)), ((λ e. omega (arith, e), tt), (tt, tt)))

two_new : AreNew (polled (λ i s. true) polls (qps_init ∷ []) 2) (0 ∷ 1 ∷ [])
unfolding make_all_ready make_ready from_init from_rtr
two_new = ((λ e. omega (arith, e), (λ e. omega (arith, e), tt)), tt)

get_pkts-polled_example :
    let (p, d, _) = get_pkts (λ i s. true) polls context (qps_init ∷ []) 2 in
    (m : ℕ) × (m ≤ 2)
    × IsSplit m (onto (polled (λ i s. true) polls (qps_init ∷ []) 2) (0 ∷ 1 ∷ [])) (p, d)
get_pkts-polled_example =
    get_pkts-polled (λ i s. true) polls context (qps_init ∷ []) 2 (0 ∷ 1 ∷ []) two_free two_new

abbrev device : Device
device = record {
  opens = true;
  queried = true;
  closes = true;
  ports =
      record {
        queried = true;
        gids = none ∷ some (record { subnet_prefix = 0x80fe; interface_id = swap64 77 }) ∷ [];
      }
      ∷ [];
}

open_device_for_interface_id-IsOpened_example :
    IsOpened (swap64 77) (device ∷ []) (open_device_for_interface_id 77 (some (device ∷ [])))
open_device_for_interface_id-IsOpened_example =
    open_device_for_interface_id-IsOpened 77 (device ∷ [])
