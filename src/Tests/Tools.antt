-- ===== src/Tests/Tools.antt =====
-- The theorems on the command-line tools.
use hashpipe.Base.{ℕ, ◌+◌, ◌^◌, ◌≡◌, refl, arith, leb, if◌then◌else◌}
use hashpipe.Base.{true, pos}
use hashpipe.Ipc.Table.{table, table-IsIpc}
use hashpipe.IpcKey.{keyfile, ipckey, databuf_proj_id, databuf_key}
use hashpipe.Databuf.{
  create, get_segment, get_2mb, get_plain, get_existing, after_segment, after_attach, after_lock,
  after_semget, after_setall, segment_key,
}
use hashpipe.Tools.Dump.{Dump, dump_defaults, dump}
use hashpipe.Tools.Dump.Range.{IsInBlock, dump-InBlock}
use hashpipe.Tools.Write.{Write, write_defaults, Reads, write_block_of}
use hashpipe.Tools.Write.Fill.{IsAtMost}
use hashpipe.Tools.Write.Place.{IsWritten, write_block_of-IsWritten}
use hashpipe.Tools.CheckDatabuf.{Check, check_defaults, create_asked, check}
use hashpipe.Tools.CheckDatabuf.Swapped.{IsSwapped, check-IsSwapped}
use hashpipe.Tests.Buffers.{head, plain, state}

abbrev third_block : Dump
third_block = record dump_defaults { block = pos 2; skip = pos 10; num = pos 100 }

dump-InBlock_example : IsInBlock 1000 (head 4) 2 (pos 10) (pos 100) (dump 1000 (head 4) third_block)
dump-InBlock_example =
    dump-InBlock 1000 (head 4) third_block (omega arith) (omega arith) (omega arith) 2 refl refl

-- A read returns 256 bytes at most.
abbrev urandom : Reads
urandom i n = record { result = pos (if leb n 256 then n else 256); bytes = λ j. i + j }

urandom-IsAtMost : (i n : ℕ) → IsAtMost 256 n (urandom i n).result
urandom-IsAtMost i n = (ground arith, ground arith)

abbrev second_block : Write
second_block = record write_defaults { block = pos 1; num = pos 1000 }

write_block_of-IsWritten_example :
    IsWritten 1000
      (head 4)
      1
      (pos 0)
      (pos 1000)
      256
      (λ a. 7)
      (write_block_of (2 ^ 31) urandom 1000 (head 4) second_block (λ a. 7))
write_block_of-IsWritten_example =
    write_block_of-IsWritten 1000 (head 4) second_block (omega arith) (omega arith) (omega arith)
      urandom 256 urandom-IsAtMost 1 (2 ^ 31) (λ a. 7) refl refl (omega arith) (omega arith)

-- 128 blocks of a MiB are asked for, and buffer 4.
abbrev asked : Check
asked = record check_defaults {
  db_id = pos 4;
  nblock = pos 128;
  blocksize = pos 1;
  header_size = 100;
  creates = true;
}

check-code : (check table (λ v. plain) asked (state 4 1)).0 ≡ 0
unfolding check create_asked create get_segment get_2mb get_plain get_existing after_segment
    after_attach after_lock after_semget after_setall segment_key databuf_key ipckey keyfile
    databuf_proj_id
check-code = refl

check-IsSwapped_example :
    (d : ℕ) × IsSwapped table table-IsIpc
      (λ v. plain)
      asked
      (state 4 1)
      d
      (check table (λ v. plain) asked (state 4 1)).1
check-IsSwapped_example =
    check-IsSwapped table table-IsIpc (λ v. plain) asked (state 4 1) refl refl check-code
