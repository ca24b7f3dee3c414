-- ===== src/Sink/Attach.antt =====
-- The sink thread attaches to a buffer that its upstream thread makes.
use hashpipe.Base.{ℕ, zero, suc, ◌+◌, Option, none, some}
use hashpipe.Ipc.{Ipc}
use hashpipe.IpcKey.{Env}
use hashpipe.Databuf.{attach}

-- The thread sleeps 1 microsecond between two tries.
abbrev pub max_tries : ℕ
max_tries = 1000000

abbrev pub or_again : {A B : Type 0} → Option A × B → (B → Option A × B) → Option A × B
or_again (some a, w) again = (some a, w)
or_again (none, w) again = again w

module _ (k : Ipc) (env : Env) (others : ℕ → k.World → k.World) where
  -- The tries from number `i` on, `n` at most; `others i` is what the other processes do before it.
  unfoldable pub attach_from : ℕ → ℕ → k.World → ℕ → ℕ → Option ℕ × k.World
  attach_from zero i w instance_id input_buffer = (none, w)
  attach_from (suc n) i w instance_id input_buffer =
      or_again (attach k env (others i w) instance_id input_buffer)
        (λ w'. attach_from n (i + 1) w' instance_id input_buffer)
