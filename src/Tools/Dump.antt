-- ===== src/Tools/Dump.antt =====
-- hashpipe_dump_databuf.c: the header or a block of a data buffer, written to standard output.
pub mod Range
pub mod HeaderBytes
use hashpipe.Base.{ℕ, zero, ◌+◌, ◌-◌, ◌*◌, ◌%◌, ◌^◌, ◌==◌, if◌then◌else◌}
use hashpipe.Base.{
  Bool, true, false, Option, none, some, List, [], ◌∷◌, ℤ, pos, negsuc, int_pattern,
}
use hashpipe.Base.{to_size_t, to_int, eq_ℤ}
use hashpipe.Ipc.{Header, Ipc}
use hashpipe.IpcKey.{Env}
use hashpipe.Databuf.{attach}
use hashpipe.Tools.{Numbers, keyfile_var, room, settle_bytes}

-- What getopt_long(3) hands over.
pub data DumpOption : Type 0 where
  dump_help dump_force : DumpOption
  dump_keyfile dump_instance dump_db dump_block dump_skip dump_bytes : List ℕ → DumpOption

pub record Dump : Type 0 where
  pub instance_id : ℤ
  pub db_id : ℤ
  pub block : ℤ
  pub skip : ℤ
  pub num : ℤ
  pub force : Bool
  pub keyfile : Option (List ℕ)

abbrev pub dump_defaults : Dump
dump_defaults = record {
  instance_id = pos 0;
  db_id = pos 1;
  block = negsuc 1;
  skip = pos 0;
  num = pos 0;
  force = false;
  keyfile = none;
}

-- One option; `none`: the usage text is printed, and the tool exits with 0.
unfoldable pub dump_option : Numbers → Dump → DumpOption → Option Dump
dump_option n c dump_help = none
dump_option n c dump_force = some (record c { force = true })
dump_option n c (dump_keyfile v) = some (record c { keyfile = some (keyfile_var v) })
dump_option n c (dump_instance v) = some (record c { instance_id = n.atoi v })
dump_option n c (dump_db v) = some (record c { db_id = n.atoi v })
dump_option n c (dump_block v) = some (record c { block = n.atoi v })
dump_option n c (dump_skip v) = some (record c { skip = n.strtol v })
dump_option n c (dump_bytes v) = some (record c { num = n.strtol v })

unfoldable pub dump_options : Numbers → Dump → List DumpOption → Option Dump
unfolding dump_option
dump_options n c [] = some c
dump_options n c (o ∷ rest) = elim (dump_option n c o) [
  | none ↦ none
  | some c' ↦ dump_options n c' rest
]

-- What the tool does to a buffer: it prints the header's fields, refuses, or calls write(2) with an
-- address and a count.
pub data Dumped : Type 0 where
  prints_stats refuses : Dumped
  writes : ℕ → ℕ → Dumped

-- The address and the count, for the header (-1) or a block.
unfoldable pub dump_from : ℕ → Header → Dump → ℤ → Dumped
dump_from d h c num =
    let p = (d + to_size_t c.skip) % 2 ^ 64 in
    if eq_ℤ c.block (negsuc 0)
    then writes p (
        to_size_t (
          if to_size_t num == room h c.skip
          then to_int ((h.header_size + 2 ^ 64 - to_size_t c.skip) % 2 ^ 64)
          else num))
    else writes ((p + h.header_size + to_size_t c.block * h.block_size) % 2 ^ 64) (to_size_t num)

abbrev pub or_refuses : Option ℤ → (ℤ → Dumped) → Dumped
or_refuses none f = refuses
or_refuses (some n) f = f n

-- `block <= -2`
abbrev pub no_block : ℤ → Bool
no_block (pos b) = false
no_block (negsuc zero) = false
no_block (negsuc _) = true

-- On the buffer that is attached at `d`.
unfoldable pub dump : ℕ → Header → Dump → Dumped
unfolding settle_bytes dump_from
dump d h c =
    if no_block c.block
    then prints_stats
    else or_refuses (settle_bytes h c.block c.skip c.num c.force) (dump_from d h c)

-- From the options on; write(2) answers through `written`. The exit code, and what was done.
abbrev pub dump_code : (ℕ → ℕ → Bool) → Dumped → ℕ
dump_code written prints_stats = 0
dump_code written refuses = 1
dump_code written (writes a n) = if written a n then 0 else 1

module _ (k : Ipc) (env : Option (List ℕ) → Env) where
  unfoldable pub dump_attached : (ℕ → ℕ → Bool) → Dump → Option ℕ × k.World → ℕ × k.World
  unfolding dump
  dump_attached written c (none, w) = (1, w)
  dump_attached written c (some d, w) = (dump_code written (dump d (k.header w d) c), w)

  unfoldable pub dump_databuf : (ℕ → ℕ → Bool) → Numbers → List DumpOption → k.World → ℕ × k.World
  unfolding dump_options dump_attached
  dump_databuf written n given w = elim (dump_options n dump_defaults given) [
    | none ↦ (0, w)
    | some c ↦
        dump_attached written c
          (attach k (env c.keyfile) w (int_pattern c.instance_id) (int_pattern c.db_id))
  ]
