-- ===== src/Ibv/Init/Acquire.antt =====
-- The calls of `hashpipe_ibv_init`, and what one of them leaves.
use hashpipe.Base.{ℕ, zero, suc, ◌+◌, if◌then◌else◌}
use hashpipe.Base.{Bool, Option, List, ◌∷◌}
use hashpipe.Ibv.Shutdown.{Release, Context}

-- The calls. `gives r` is whether the one succeeds that gets what `r` gives back; the others are whether
-- they succeed, by queue pair.
pub record Calls : Type 0 where
  pub interface_info : Bool
  pub max_qp_wr : ℕ
  pub gives : Release → Bool
  pub nonblocking : Bool
  pub notify : ℕ → Bool
  pub modify : ℕ → Bool
  pub mlock_send : Bool
  pub mlock_recv : Bool
  pub post_recv : ℕ → Bool
  pub socket : Option ℕ

-- The context, and what was got, each by the call that gives it back.
pub record Got : Type 0 where
  pub context : Context
  pub gained : List Release

-- After a call: the function goes on, or jumps to cleanup_and_return_error.
pub data Progress : Type 0 where
  goes : Got → Progress
  stops : Got → Progress

abbrev pub and_next : Progress → (Got → Progress) → Progress
and_next (goes g) f = f g
and_next (stops g) f = stops g

abbrev pub gain : Release → (Context → Context) → Got → Got
gain q set g = record { context = set g.context; gained = q ∷ g.gained }

unfoldable pub acquire : Calls → Release → (Context → Context) → Got → Progress
acquire k q set g = if k.gives q then goes (gain q set g) else stops g

unfoldable pub test : Bool → Got → Progress
test b g = if b then goes g else stops g

-- `step i` for `n` values of `i`.
unfoldable pub each_step : ℕ → ℕ → (ℕ → Got → Progress) → Got → Progress
each_step zero i step g = goes g
each_step (suc n) i step g = and_next (step i g) (each_step n (i + 1) step)
