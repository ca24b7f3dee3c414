-- ===== src/Executable.antt =====
-- hashpipe.c: setting a thread's CPUs, and the general functions that initialise and run every
-- thread. The calls of the other parts answer through a record; what these functions acquire and
-- release is listed in order. A status buffer that is attached is taken to be mapped.
pub mod Affinity
pub mod Resources
pub mod Command
use hashpipe.Base.{ℕ, zero, suc, ◌+◌, ◌/◌, ◌==◌, if◌then◌else◌, bit_and}
use hashpipe.Base.{Bool, true, false, Option, none, some, List, [], ◌∷◌, ℤ, pos, negsuc, minus_one}
use hashpipe.Thread.{ThreadDesc}

-- The loop of `set_cpu_affinity` over `n` CPUs from `i` on; a `cpu_set_t` is its test CPU_ISSET.
unfoldable pub cpus_from : ℕ → ℕ → ℕ → (ℕ → Bool) → ℕ → Bool
cpus_from zero i mask cpuset = cpuset
cpus_from (suc n) i mask cpuset =
    cpus_from n (i + 1) (mask / 2)
      (if bit_and mask 1 == 0 then cpuset else λ j. if i == j then true else cpuset j)

-- A negative result is returned, another one is 0.
abbrev pub negative_or_0 : ℤ → ℤ
negative_or_0 (pos n) = pos 0
negative_or_0 (negsuc n) = negsuc n

-- `setaffinity` is what sched_setaffinity(2) returns for a set.
unfoldable pub set_cpu_affinity : ((ℕ → Bool) → ℤ) → ℕ → ℤ
unfolding cpus_from
set_cpu_affinity setaffinity mask =
    if mask == 0 then pos 0 else negative_or_0 (setaffinity (cpus_from 32 0 mask (λ j. false)))

-- What a thread holds.
pub data Resource : Type 0 where
  status ibuf obuf : Resource

pub data Event : Type 0 where
  acquired released : Resource → Event
  -- a call that fails leaves the memory mapped that it has attached to, as hashpipe_status_attach does
  -- after shmat(2), and hashpipe_databuf_create
  left_mapped : Resource → Event
  -- the status key is set to "init" or to "exit"
  key_init key_exit : Event
  -- the thread's own functions are called
  user_init user_run : Event
  -- hashpipe_thread_set_finished and clear_run_threads
  finished stopped : Event
  -- set_exit_status is called with the address of `args->st`, which is not that of its argument
  -- type
  misdirected_exit : Event

-- What is returned, behind an event.
abbrev pub after_event {ℓ} : {A : Type ℓ} → Event → A × List Event → A × List Event
after_event e (a, es) = (a, e ∷ es)

-- The answers to `hashpipe_thread_init`: codes of hashpipe_error.h, pointers (`none` is NULL), the
-- result of the thread's own function, and whether a detach returns 0. `leaves r` is whether the call
-- for `r` leaves memory mapped if it fails.
pub record InitCalls : Type 0 where
  pub status_attach : ℤ
  pub create : Resource → Option ℕ
  pub leaves : Resource → Bool
  pub init : ℤ
  pub detach : Resource → Bool

-- The events of a call that failed.
abbrev pub after_failure {ℓ} : {A : Type ℓ} → Bool → Resource → A × List Event → A × List Event
after_failure true r o = after_event (left_mapped r) o
after_failure false r o = o

-- `if(!rv) rv = HASHPIPE_ERR_GEN` after a detach that failed
abbrev pub keep_error : Bool → ℤ → ℤ
keep_error true rv = rv
keep_error false (pos zero) = minus_one
keep_error false rv = rv

-- From the label `ibuf_error` on.
unfoldable pub ibuf_error : InitCalls → ℤ → ℤ × List Event
ibuf_error c rv = (keep_error (c.detach status) rv, released status ∷ [])

-- From the label `obuf_error` on; detaching NULL does nothing and returns 0.
unfoldable pub obuf_error : InitCalls → Option ℕ → ℤ → ℤ × List Event
unfolding ibuf_error
obuf_error c none rv = ibuf_error c rv
obuf_error c (some p) rv =
    after_event (released ibuf) (ibuf_error c (keep_error (c.detach ibuf) rv))

unfoldable pub detach_obuf : InitCalls → Option ℕ → Option ℕ → ℤ → ℤ × List Event
unfolding obuf_error
detach_obuf c ip none rv = obuf_error c ip rv
detach_obuf c ip (some q) rv =
    after_event (released obuf) (obuf_error c ip (keep_error (c.detach obuf) rv))

-- The thread's own function, if there is one; else `rv` is still the HASHPIPE_OK of the attach.
unfoldable pub call_init : ThreadDesc → InitCalls → Option ℕ → Option ℕ → ℤ × List Event
unfolding detach_obuf
call_init d c ip op =
    if d.init
    then after_event user_init (detach_obuf c ip op c.init)
    else detach_obuf c ip op (pos 0)

unfoldable pub create_obuf : ThreadDesc → InitCalls → Option ℕ → ℤ × List Event
unfolding call_init obuf_error
create_obuf d c ip =
    if d.obuf_create
    then (elim (c.create obuf) [
      | none ↦ after_failure (c.leaves obuf) obuf (obuf_error c ip minus_one)
      | some q ↦ after_event (acquired obuf) (call_init d c ip (some q))
    ])
    else call_init d c ip none

unfoldable pub create_ibuf : ThreadDesc → InitCalls → ℤ × List Event
unfolding create_obuf ibuf_error
create_ibuf d c =
    if d.ibuf_create
    then (elim (c.create ibuf) [
      | none ↦ after_failure (c.leaves ibuf) ibuf (ibuf_error c minus_one)
      | some p ↦ after_event (acquired ibuf) (create_obuf d c (some p))
    ])
    else create_obuf d c none

unfoldable pub thread_init : ThreadDesc → InitCalls → ℤ × List Event
unfolding create_ibuf
thread_init d c = elim c.status_attach [
  | pos zero ↦
      after_event (acquired status)
        (elim d.skey [ none ↦ create_ibuf d c | some key ↦ after_event key_init (create_ibuf d c) ])
  | rv ↦ after_failure (c.leaves status) status (rv, [])
]

-- What the thread's own run function does: it returns THREAD_OK or another pointer, or it never
-- returns, because the thread is cancelled or calls pthread_exit(3).
pub data Outcome : Type 0 where
  thread_ok thread_error gone : Outcome

-- `leaves_status` is whether the attach to the status buffer leaves it mapped if it fails. Outside
-- its run function, the thread may be cancelled where it reports that a data buffer is not attached
-- (`error_gone`), and where it waits for the lock to set the exit status (`exit_gone`).
pub record RunCalls : Type 0 where
  pub affinity_set : Bool
  pub status_attached : Bool
  pub leaves_status : Bool
  pub error_gone : Resource → Bool
  pub exit_gone : Bool
  pub attach : Resource → Option ℕ
  pub run : Outcome
  pub detach : Resource → Bool

-- A detach that fails makes the result THREAD_ERROR.
abbrev pub error_unless : Bool → Outcome → Outcome
error_unless true rv = rv
error_unless false rv = thread_error

unfoldable pub detach_status : ThreadDesc → RunCalls → Outcome → Outcome × List Event
detach_status d c rv = elim d.skey [
  | none ↦ (rv, released status ∷ [])
  | some key ↦
      if c.exit_gone
      then (gone, misdirected_exit ∷ released status ∷ [])
      else (rv, key_exit ∷ released status ∷ [])
]

unfoldable pub run_detach_ibuf : ThreadDesc → RunCalls → Option ℕ → Outcome → Outcome × List Event
unfolding detach_status
run_detach_ibuf d c none rv = detach_status d c rv
run_detach_ibuf d c (some p) rv =
    after_event (released ibuf) (detach_status d c (error_unless (c.detach ibuf) rv))

unfoldable pub run_detach_obuf :
    ThreadDesc → RunCalls → Option ℕ → Option ℕ → Outcome → Outcome × List Event
unfolding run_detach_ibuf
run_detach_obuf d c ip none rv = run_detach_ibuf d c ip rv
run_detach_obuf d c ip (some q) rv =
    after_event (released obuf) (run_detach_ibuf d c ip (error_unless (c.detach obuf) rv))

-- The functions pushed by pthread_cleanup_push(3), the last one first.
abbrev pub release : Resource → Option ℕ → List Event → List Event
release r none es = es
release r (some p) es = released r ∷ es

unfoldable pub cleanup : Option ℕ → Option ℕ → List Event
cleanup ip op =
    finished ∷ release obuf op (release ibuf ip (misdirected_exit ∷ released status ∷ []))

-- After the run function: it returned, or the pushed functions are called.
unfoldable pub after_run :
    ThreadDesc → RunCalls → Option ℕ → Option ℕ → Outcome → Outcome × List Event
unfolding run_detach_obuf cleanup
after_run d c ip op gone = (gone, cleanup ip op)
after_run d c ip op rv = after_event finished (after_event stopped (run_detach_obuf d c ip op rv))

-- The run function is called only if every buffer that is wanted is attached.
unfoldable pub run_obuf :
    ThreadDesc → RunCalls → Outcome → Option ℕ → Option ℕ → Outcome × List Event
unfolding after_run
run_obuf d c thread_ok ip op = after_event user_run (after_run d c ip op c.run)
run_obuf d c rv ip op = after_run d c ip op thread_error

unfoldable pub attach_obuf : ThreadDesc → RunCalls → Outcome → Option ℕ → Outcome × List Event
unfolding run_obuf
attach_obuf d c rv ip =
    if d.obuf_create
    then (elim (c.attach obuf) [
      | none ↦
          if c.error_gone obuf
          then (gone, release ibuf ip (misdirected_exit ∷ released status ∷ []))
          else run_obuf d c thread_error ip none
      | some q ↦ after_event (acquired obuf) (run_obuf d c rv ip (some q))
    ])
    else run_obuf d c rv ip none

unfoldable pub attach_ibuf : ThreadDesc → RunCalls → Outcome × List Event
unfolding attach_obuf
attach_ibuf d c =
    if d.ibuf_create
    then (elim (c.attach ibuf) [
      | none ↦
          if c.error_gone ibuf
          then (gone, misdirected_exit ∷ released status ∷ [])
          else attach_obuf d c thread_error none
      | some p ↦ after_event (acquired ibuf) (attach_obuf d c thread_ok (some p))
    ])
    else attach_obuf d c thread_ok none

unfoldable pub thread_run : ThreadDesc → RunCalls → Outcome × List Event
unfolding attach_ibuf
thread_run d c =
    if c.affinity_set
    then (if c.status_attached
        then after_event (acquired status) (attach_ibuf d c)
        else after_failure c.leaves_status status (thread_error, []))
    else (thread_error, [])
