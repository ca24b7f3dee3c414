-- ===== src/Tools/Clean.antt =====
-- hashpipe_clean_shmem.c: the status buffer of an instance is cleared or deleted, and its data buffers are
-- deleted.
pub mod Gone
pub mod Whole
use hashpipe.Base.{ℕ, zero, suc, ◌+◌, ◌==◌, if◌then◌else◌, not, bit_or}
use hashpipe.Base.{Bool, true, false, Option, none, some, List, [], ◌∷◌, ℤ, pos, int_pattern, eq_ℤ}
use hashpipe.Ipc.{Answer, ok, err, Ipc}
use hashpipe.IpcKey.{Env}
use hashpipe.Databuf.{Status, hashpipe_ok, attach}
use hashpipe.StatusBuf.{semname, Buffer, Fits}
use hashpipe.StatusBuf.Attach.{StatusArea, status_attach, name_max}
use hashpipe.Tools.{Numbers, keyfile_var}

-- What getopt_long(3) hands over.
pub data CleanOption : Type 0 where
  clean_delete clean_help clean_unknown : CleanOption
  clean_keyfile clean_instance : List ℕ → CleanOption

pub record Clean : Type 0 where
  pub instance_id : ℤ
  pub delete_status : Bool
  pub keyfile : Option (List ℕ)

abbrev pub clean_defaults : Clean
clean_defaults = record { instance_id = pos 0; delete_status = false; keyfile = none }

-- The tool goes on, or exits with a code.
pub data OrExit : Type 0 where
  goes_on : Clean → OrExit
  exits : ℕ → OrExit

unfoldable pub clean_option : Numbers → Clean → CleanOption → OrExit
clean_option n c clean_delete = goes_on (record c { delete_status = true })
clean_option n c (clean_keyfile v) = goes_on (record c { keyfile = some (keyfile_var v) })
clean_option n c (clean_instance v) = goes_on (record c { instance_id = n.atoi v })
clean_option n c clean_help = exits 0
clean_option n c clean_unknown = exits 1

unfoldable pub clean_options : Numbers → Clean → List CleanOption → OrExit
unfolding clean_option
clean_options n c [] = goes_on c
clean_options n c (o ∷ rest) = elim (clean_option n c o) [
  | goes_on c' ↦ clean_options n c' rest
  | exits code ↦ exits code
]

-- The exit code, and the state of the kernel.
abbrev pub Ended : Ipc → Type 0
Ended k = ℕ × k.World

module _ (k : Ipc) where
  -- `if (rv==-1) ex=1;`
  unfoldable pub or_1 : ℕ → Answer (Unit {0}) × k.World → Ended k
  or_1 ex (ok _, w) = (ex, w)
  or_1 ex (err e, w) = (1, w)

  -- The semaphores, unless their identifier is 0, then the segment.
  unfoldable pub remove_sems : ℕ → k.World → ℕ → Ended k
  unfolding or_1
  remove_sems ex w d =
      if eq_ℤ (k.header w d).semid (pos 0)
      then (ex, w)
      else or_1 ex (k.sem_rmid w (k.header w d).semid)

  unfoldable pub remove_segment : ℕ → Ended k → Ended k
  unfolding or_1
  remove_segment d (ex, w) = or_1 ex (k.shm_rmid w (k.header w d).shmid)

  -- After hashpipe_databuf_attach.
  unfoldable pub remove_buffer : ℕ → Option ℕ × k.World → Ended k
  unfolding remove_sems remove_segment
  remove_buffer ex (none, w) = (ex, w)
  remove_buffer ex (some d, w) = remove_segment d (remove_sems ex w d)

  -- The loop for `n` numbers from `i` on.
  unfoldable pub remove_buffers : Env → ℕ → ℕ → ℕ → Ended k → Ended k
  unfolding remove_buffer
  remove_buffers env instance_id zero i r = r
  remove_buffers env instance_id (suc n) i (ex, w) =
      remove_buffers env instance_id n (i + 1) (remove_buffer ex (attach k env w instance_id i))

  module _ (buffer : k.World → ℕ → Buffer) (put : k.World → ℕ → Buffer → k.World)
      (sem_open : k.World → List ℕ → Option ℕ × k.World)
      (sem_unlink : k.World → List ℕ → Answer (Unit {0}) × k.World) (fits : Fits) where
    -- `if (rv==-1) ex|=bit;`
    unfoldable pub or_bit : ℕ → ℕ → Answer (Unit {0}) × k.World → Ended k
    or_bit bit ex (ok _, w) = (ex, w)
    or_bit bit ex (err e, w) = (bit_or ex bit, w)

    -- The segment of the status buffer, then its semaphore.
    unfoldable pub unlink_status : List ℕ → Ended k → Ended k
    unfolding or_bit
    unlink_status name (ex, w) = or_bit 2 ex (sem_unlink w name)

    unfoldable pub delete_buffer : List ℕ → k.World → StatusArea → Ended k
    unfolding unlink_status
    delete_buffer name w s = unlink_status name (or_bit 1 0 (k.shm_rmid w s.shmid))

    -- `hashpipe_status_clear`, between its lock and unlock.
    unfoldable pub clear_buffer : k.World → StatusArea → Ended k
    clear_buffer w s =
        (0, put w s.buf (hashpipe.StatusBuf.clear fits s.instance_id (buffer w s.buf)))

    -- After hashpipe_status_attach.
    unfoldable pub clean_attached : Env → Clean → List ℕ → Status × StatusArea × k.World → Ended k
    unfolding delete_buffer clear_buffer remove_buffers
    clean_attached env c name (hashpipe_ok, s, w) =
        remove_buffers env (int_pattern c.instance_id) 20 1
          (if c.delete_status then delete_buffer name w s else clear_buffer w s)
    clean_attached env c name (_, s, w) = (1, w)

    -- After the name of the semaphore is known; `s` is what the uninitialised `hashpipe_status_t` holds.
    unfoldable pub clean_named : Env → Clean → StatusArea → k.World → List ℕ × ℕ → Ended k
    unfolding clean_attached
    clean_named env c s w (name, truncated) =
        if not (truncated == 0)
        then (1, w)
        else clean_attached env c name (
            status_attach k buffer put sem_open fits env (sem_unlink w name).1
              (int_pattern c.instance_id) s)

    unfoldable pub clean_shmem :
        (Option (List ℕ) → Env) → Numbers → List CleanOption → StatusArea → k.World → Ended k
    unfolding clean_options clean_named
    clean_shmem env n given s w = elim (clean_options n clean_defaults given) [
      | exits code ↦ (code, w)
      | goes_on c ↦
          clean_named (env c.keyfile) c s w
            (semname (env c.keyfile) (int_pattern c.instance_id) name_max)
    ]
