-- ===== src/Tools/Write.antt =====
-- hashpipe_write_databuf.c: a block of a data buffer is filled from /dev/urandom.
pub mod Fill
pub mod Place
use hashpipe.Base.{ℕ, zero, suc, ◌+◌, ◌-◌, ◌*◌, ◌%◌, ◌^◌, ◌==◌, ltb, leb, ◌&&◌, if◌then◌else◌}
use hashpipe.Base.{
  Bool, true, false, Option, none, some, List, [], ◌∷◌, ℤ, pos, negsuc, int_pattern,
}
use hashpipe.Base.{to_size_t}
use hashpipe.Ipc.{Header, Ipc}
use hashpipe.IpcKey.{Env}
use hashpipe.Databuf.{attach}
use hashpipe.Tools.{Numbers, settle_bytes}

-- What getopt_long(3) hands over.
pub data WriteOption : Type 0 where
  write_help write_force : WriteOption
  write_instance write_db write_block write_skip write_bytes : List ℕ → WriteOption

pub record Write : Type 0 where
  pub instance_id : ℤ
  pub db_id : ℤ
  pub block : ℤ
  pub skip : ℤ
  pub num : ℤ
  pub force : Bool

abbrev pub write_defaults : Write
write_defaults = record {
  instance_id = pos 0;
  db_id = pos 1;
  block = pos 0;
  skip = pos 0;
  num = pos 0;
  force = false;
}

-- One option; `none`: the usage text is printed, and the tool exits with 0.
unfoldable pub write_option : Numbers → Write → WriteOption → Option Write
write_option n c write_help = none
write_option n c write_force = some (record c { force = true })
write_option n c (write_instance v) = some (record c { instance_id = n.atoi v })
write_option n c (write_db v) = some (record c { db_id = n.atoi v })
write_option n c (write_block v) = some (record c { block = n.atoi v })
write_option n c (write_skip v) = some (record c { skip = n.strtol v })
write_option n c (write_bytes v) = some (record c { num = n.strtol v })

unfoldable pub write_options : Numbers → Write → List WriteOption → Option Write
unfolding write_option
write_options n c [] = some c
write_options n c (o ∷ rest) = elim (write_option n c o) [
  | none ↦ none
  | some c' ↦ write_options n c' rest
]

-- An answer of read(2): what it returns, and the bytes that it stores.
pub record ReadAnswer : Type 0 where
  pub result : ℤ
  pub bytes : ℕ → ℕ

-- read(2) on the descriptor of /dev/urandom: the number of the call and the count that it is given.
abbrev pub Reads : Type 0
Reads = ℕ → ℕ → ReadAnswer

-- Bytes, from address to byte.
abbrev pub Bytes : Type 0
Bytes = ℕ → ℕ

-- `n` bytes are stored at `p`.
abbrev pub stored : Bytes → ℕ → ℕ → (ℕ → ℕ) → Bytes
stored m p n bytes a = if leb p a && ltb a (p + n) then bytes (a - p) else m a

-- The loop of reads, `num` bytes at address `p`; each round is given fuel, and `none` is the end of it.
unfoldable pub fill : ℕ → Reads → ℕ → ℕ → ℕ → Bytes → Option Bytes
fill zero read p num i m = none
fill (suc fuel) read p zero i m = some m
fill (suc fuel) read p (suc num) i m =
    let r = read i (suc num) in
    elim r.result [
      | pos zero ↦ some m
      | pos (suc n) ↦ fill fuel read p (num - n) (suc i) (stored m p (suc n) r.bytes)
      | negsuc _ ↦ some m
    ]

-- The loop runs while `num > 0`.
abbrev pub above_0 : ℤ → ℕ
above_0 (pos n) = n
above_0 (negsuc n) = 0

-- The address behind the header, the blocks before this one and the bytes that are skipped.
unfoldable pub write_start : ℕ → Header → ℤ → ℤ → ℕ
write_start d h block skip =
    ((d + h.header_size) % 2 ^ 64 + to_size_t block * h.block_size + to_size_t skip) % 2 ^ 64

-- The exit code, and the memory when the tool ends; `none`: the loop has not ended.
abbrev pub with_code : ℕ → Option Bytes → Option (ℕ × Bytes)
with_code code none = none
with_code code (some m) = some (code, m)

-- What follows the tests of the options.
abbrev pub fill_settled : ℕ → Reads → ℕ → Header → Write → Bytes → Option ℤ → Option (ℕ × Bytes)
fill_settled fuel read d h c m none = some (1, m)
fill_settled fuel read d h c m (some num) =
    with_code 0 (fill fuel read (write_start d h c.block c.skip) (above_0 num) 0 m)

-- On the buffer that is attached at `d`.
unfoldable pub write_block_of : ℕ → Reads → ℕ → Header → Write → Bytes → Option (ℕ × Bytes)
unfolding settle_bytes fill write_start
write_block_of fuel read d h c m =
    fill_settled fuel read d h c m (settle_bytes h c.block c.skip c.num c.force)

-- From the command line on; `environ` is the process's environment, which no option changes.
module _ (k : Ipc) (environ : Env) where
  unfoldable pub write_attached :
      ℕ → Reads → Write → Option ℕ × k.World → Bytes → Option (ℕ × Bytes) × k.World
  unfolding write_block_of
  write_attached fuel read c (none, w) m = (some (1, m), w)
  write_attached fuel read c (some d, w) m = (write_block_of fuel read d (k.header w d) c m, w)

  unfoldable pub write_databuf :
      ℕ → Reads → Numbers → List WriteOption → k.World → Bytes → Option (ℕ × Bytes) × k.World
  unfolding write_options write_attached
  write_databuf fuel read n given w m = elim (write_options n write_defaults given) [
    | none ↦ (some (0, m), w)
    | some c ↦
        write_attached fuel read c
          (attach k environ w (int_pattern c.instance_id) (int_pattern c.db_id)) m
  ]
