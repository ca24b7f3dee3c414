-- ===== src/Executable/Resources.antt =====
-- What a thread acquires and releases on the ways through its initialisation and its run.
use hashpipe.Base.{ℕ, ◌+◌, ◌≤◌, ◌≡◌, ◌≢◌, ◌⊎◌, arith, if◌then◌else◌}
use hashpipe.Base.{Bool, true, false, none, List, [], ◌∷◌, pos}
use hashpipe.Thread.{ThreadDesc}
use hashpipe.Executable.{
  Resource, status, ibuf, obuf, Event, acquired, released, left_mapped, thread_error, user_run,
  finished, InitCalls, ibuf_error, obuf_error, detach_obuf, call_init, create_obuf, create_ibuf,
  thread_init, thread_ok, RunCalls, detach_status, run_detach_ibuf, run_detach_obuf, cleanup,
  after_run, run_obuf, attach_obuf, attach_ibuf, thread_run,
}

abbrev pub same : Resource → Resource → Bool
same status status = true
same ibuf ibuf = true
same obuf obuf = true
same _ _ = false

-- How often a resource is acquired, and how often it is released.
abbrev pub acquired_count : Resource → List Event → ℕ
acquired_count r [] = 0
acquired_count r (acquired q ∷ es) = (if same r q then 1 else 0) + acquired_count r es
acquired_count r (_ ∷ es) = acquired_count r es

abbrev pub released_count : Resource → List Event → ℕ
released_count r [] = 0
released_count r (released q ∷ es) = (if same r q then 1 else 0) + released_count r es
released_count r (_ ∷ es) = released_count r es

abbrev pub left_count : Resource → List Event → ℕ
left_count r [] = 0
left_count r (left_mapped q ∷ es) = (if same r q then 1 else 0) + left_count r es
left_count r (_ ∷ es) = left_count r es

-- However the initialisation ends, each of the status buffer and the two data buffers has been
-- released as often as a call gave it, which is at most once. What a call leaves mapped that fails is
-- not released, and it leaves something only once, and only if the initialisation does not return 0.
pub thread_init-released :
    (d : ThreadDesc) (c : InitCalls) (r : Resource)
    → (acquired_count r (thread_init d c).1 ≡ released_count r (thread_init d c).1)
      × (acquired_count r (thread_init d c).1 + left_count r (thread_init d c).1 ≤ 1)
      × ((left_count r (thread_init d c).1 ≡ 0) ⊎ ((thread_init d c).0 ≢ pos 0))
unfolding thread_init create_ibuf create_obuf call_init detach_obuf obuf_error ibuf_error
thread_init-released d c status = ground arith
thread_init-released d c ibuf = ground arith
thread_init-released d c obuf = ground arith

-- However a thread ends, cancelled in its run function, in its reports that a data buffer is not
-- attached, in the wait for the lock before its exit status, or not at all, each of the status buffer
-- and the two data buffers has been released as often as a call gave it, which is at most once, if
-- set_exit_status, which a cancelled thread calls with a wrong address, comes back. What a failing
-- attach to the status buffer leaves mapped is not released; then the thread ends with an error
-- before its run function.
pub thread_run-released :
    (d : ThreadDesc) (c : RunCalls) (r : Resource)
    → (acquired_count r (thread_run d c).1 ≡ released_count r (thread_run d c).1)
      × (acquired_count r (thread_run d c).1 + left_count r (thread_run d c).1 ≤ 1)
      × ((left_count r (thread_run d c).1 ≡ 0)
          ⊎ ((thread_run d c ≡ (thread_error, left_mapped status ∷ []))))
unfolding thread_run attach_ibuf attach_obuf run_obuf after_run cleanup run_detach_obuf
    run_detach_ibuf detach_status
thread_run-released d c status = ground arith
thread_run-released d c ibuf = ground arith
thread_run-released d c obuf = ground arith

-- If the initialisation returns 0, the status buffer was attached, every data buffer that is wanted
-- was created, and the thread's own function, if there is one, returned 0.
pub thread_init-ok :
    (d : ThreadDesc) (c : InitCalls)
    → (thread_init d c).0 ≡ pos 0
    → (c.status_attach ≡ pos 0)
      × ((d.ibuf_create ≡ false) ⊎ (c.create ibuf ≢ none))
      × ((d.obuf_create ≡ false) ⊎ (c.create obuf ≢ none))
      × ((d.init ≡ false) ⊎ (c.init ≡ pos 0))
unfolding thread_init create_ibuf create_obuf call_init detach_obuf obuf_error ibuf_error
thread_init-ok d c h = ground arith

-- How often the run function is called, and how often the thread is marked finished.
abbrev pub run_count : List Event → ℕ
run_count [] = 0
run_count (user_run ∷ es) = 1 + run_count es
run_count (_ ∷ es) = run_count es

abbrev pub finished_count : List Event → ℕ
finished_count [] = 0
finished_count (finished ∷ es) = 1 + finished_count es
finished_count (_ ∷ es) = finished_count es

-- If the CPUs were set and the status buffer attached, and the thread is not cancelled in a report of an
-- error, it is marked finished exactly once,
-- cancelled or not, and whether or not its run function was called; that is called only if every
-- data buffer that is wanted was attached, and if the result is THREAD_OK it was called and
-- returned that.
pub thread_run-finished :
    (d : ThreadDesc) (c : RunCalls)
    → c.affinity_set ≡ true
    → c.status_attached ≡ true
    → ((r : Resource) → c.error_gone r ≡ false)
    → (finished_count (thread_run d c).1 ≡ 1)
      × ((run_count (thread_run d c).1 ≡ 0)
          ⊎ ((run_count (thread_run d c).1 ≡ 1)
              × ((d.ibuf_create ≡ false) ⊎ (c.attach ibuf ≢ none))
              × ((d.obuf_create ≡ false) ⊎ (c.attach obuf ≢ none))))
      × (((thread_run d c).0 ≢ thread_ok)
          ⊎ ((run_count (thread_run d c).1 ≡ 1) × (c.run ≡ thread_ok)))
unfolding thread_run attach_ibuf attach_obuf run_obuf after_run cleanup run_detach_obuf
    run_detach_ibuf detach_status
thread_run-finished d c a s alive = ground (arith, alive ibuf, alive obuf)
