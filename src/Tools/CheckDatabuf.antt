-- ===== src/Tools/CheckDatabuf.antt =====
-- hashpipe_check_databuf.c: a data buffer is made, or attached to, and its header is printed.
pub mod Swapped
use hashpipe.Base.{ℕ, ◌+◌, ◌*◌, ◌^◌, ◌%◌, if◌then◌else◌}
use hashpipe.Base.{
  Bool, true, false, Option, none, some, List, [], ◌∷◌, ℤ, pos, int_pattern, to_size_t, to_int,
}
use hashpipe.Ipc.{Ipc, databuf_bytes}
use hashpipe.IpcKey.{Env}
use hashpipe.Databuf.{create, attach}
use hashpipe.Tools.{Numbers, keyfile_var}

-- What getopt_long(3) hands over.
pub data CheckOption : Type 0 where
  check_help check_quiet check_show_shmkey check_create : CheckOption
  check_keyfile check_instance check_db check_blksize check_nblock check_hdrsize :
      List ℕ → CheckOption

-- `header_size` is a `size_t`.
pub record Check : Type 0 where
  pub instance_id : ℤ
  pub db_id : ℤ
  pub blocksize : ℤ
  pub nblock : ℤ
  pub header_size : ℕ
  pub creates : Bool
  pub quiet : Bool
  pub show_shmkey : Bool
  pub keyfile : Option (List ℕ)

abbrev pub check_defaults : Check
check_defaults = record {
  instance_id = pos 0;
  db_id = pos 1;
  blocksize = pos 32;
  nblock = pos 24;
  header_size = databuf_bytes;
  creates = false;
  quiet = false;
  show_shmkey = false;
  keyfile = none;
}

-- One option; `none`: the usage text is printed, and the tool exits with 0.
unfoldable pub check_option : Numbers → Check → CheckOption → Option Check
check_option n c check_help = none
check_option n c check_quiet = some (record c { quiet = true })
check_option n c check_show_shmkey = some (record c { show_shmkey = true })
check_option n c check_create = some (record c { creates = true })
check_option n c (check_keyfile v) = some (record c { keyfile = some (keyfile_var v) })
check_option n c (check_instance v) = some (record c { instance_id = n.atoi v })
check_option n c (check_db v) = some (record c { db_id = n.atoi v })
check_option n c (check_blksize v) = some (record c { blocksize = n.atoi v })
check_option n c (check_nblock v) = some (record c { nblock = n.atoi v })
check_option n c (check_hdrsize v) = some (record c { header_size = to_size_t (n.atoi v) })

unfoldable pub check_options : Numbers → Check → List CheckOption → Option Check
unfolding check_option
check_options n c [] = some c
check_options n c (o ∷ rest) = elim (check_option n c o) [
  | none ↦ none
  | some c' ↦ check_options n c' rest
]

-- `blocksize*1024*1024`, an `int`, which is taken to wrap around.
abbrev pub mebibytes : ℤ → ℤ
mebibytes z = to_int (int_pattern z * 2 ^ 20)

-- NULL ends the tool with 1; what is printed otherwise changes nothing.
abbrev pub code_of : {W : Type 0} → Option ℕ × W → ℕ × W
code_of (none, w) = (1, w)
code_of (some d, w) = (0, w)

module _ (k : Ipc) (env : Option (List ℕ) → Env) where
  -- `hashpipe_databuf_create(instance_id, header_size, nblock, blocksize*1024*1024, db_id)`: the first of
  -- these is the databuf_id, the second the header size, and the last the number of blocks.
  unfoldable pub create_asked : Check → k.World → Option ℕ × k.World
  create_asked c w =
      create k (env c.keyfile) w (int_pattern c.instance_id) (int_pattern (to_int c.header_size))
        (to_size_t c.nblock) (to_size_t (mebibytes c.blocksize)) (to_size_t c.db_id)

  -- What follows the options.
  unfoldable pub check : Check → k.World → ℕ × k.World
  unfolding create_asked
  check c w =
      if c.show_shmkey
      then (0, w)
      else if c.creates
      then code_of (create_asked c w)
      else code_of (attach k (env c.keyfile) w (int_pattern c.instance_id) (int_pattern c.db_id))

  unfoldable pub check_databuf : Numbers → List CheckOption → k.World → ℕ × k.World
  unfolding check_options check
  check_databuf n given w = elim (check_options n check_defaults given) [
    | none ↦ (0, w)
    | some c ↦ check c w
  ]
