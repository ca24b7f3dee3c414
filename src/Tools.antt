-- ===== src/Tools.antt =====
-- The command-line tools: hashpipe_check_databuf.c, hashpipe_check_status.c, hashpipe_clean_shmem.c,
-- hashpipe_dump_databuf.c and hashpipe_write_databuf.c. What they print is left out.
pub mod CheckDatabuf
pub mod CheckStatus
pub mod Clean
pub mod Dump
pub mod Write
use hashpipe.Base.{ℕ, ◌+◌, ◌-◌, ◌%◌, ◌^◌, ◌==◌, ltb, if◌then◌else◌, not, ◌&&◌}
use hashpipe.Base.{Bool, true, false, Option, none, some, List, [], ◌∷◌, ◌++◌, take, ℤ, pos, negsuc}
use hashpipe.Base.{to_size_t, to_int, at_least, eq_ℤ}
use hashpipe.StatusBuf.{codes}
use hashpipe.Ipc.{Header}

-- atoi(3) and strtol(3) with base 0, as an `int`.
pub record Numbers : Type 0 where
  pub atoi : List ℕ → ℤ
  pub strtol : List ℕ → ℤ

-- What putenv(3) is given for a key file: the buffer has 1000 bytes.
abbrev pub keyfile_var : List ℕ → List ℕ
keyfile_var v = take 999 (codes "HASHPIPE_KEYFILE=" ++ v)

-- `db->block_size - skip`, as a `size_t`
abbrev pub room : Header → ℤ → ℕ
room h skip = (h.block_size + 2 ^ 64 - to_size_t skip) % 2 ^ 64

-- The tests of a block number, a number of bytes to skip and a number of bytes, 0 for all: `none` if
-- the tool refuses, else the number of bytes.
unfoldable pub settle_bytes : Header → ℤ → ℤ → ℤ → Bool → Option ℤ
settle_bytes h block skip bytes force =
    if at_least block h.n_block && not force
    then none
    else if ltb h.block_size (to_size_t skip) && not force
    then none
    else if eq_ℤ bytes (pos 0)
    then some (to_int (room h skip))
    else if ltb (room h skip) (to_size_t bytes) && not force
    then none
    else some bytes
