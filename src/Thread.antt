-- ===== src/Thread.antt =====
-- hashpipe_thread.c: the threads that the plugins register, and the flag that keeps them running;
-- hashpipe_thread_args.c: the arguments of a thread and its finished flag. A string is its bytes
-- before the NUL; a function pointer is whether it is set.
pub mod Listing
use hashpipe.Base.{ℕ, zero, suc, ◌+◌, ◌*◌, ◌==◌, ltb, if◌then◌else◌, not, ◌&&◌, length}
use hashpipe.Base.{Bool, true, false, Option, none, some, List, [], ◌∷◌, ◌++◌}
use hashpipe.Ipc.{Timespec}
use hashpipe.StatusBuf.{codes}

-- `hashpipe_thread_desc_t`
pub record ThreadDesc : Type 0 where
  pub name : List ℕ
  pub skey : Option (List ℕ)
  pub init : Bool
  pub ibuf_create : Bool
  pub obuf_create : Bool

-- The static variables: `thread_list` has its first `num_threads` entries.
pub record Registry : Type 0 where
  pub run_threads_flag : Bool
  pub thread_list : List ThreadDesc

-- MAX_HASHPIPE_THREADS
abbrev pub max_hashpipe_threads : ℕ
max_hashpipe_threads = 1024

-- `strcmp(a, b) == 0`
unfoldable pub same_name : List ℕ → List ℕ → Bool
same_name [] [] = true
same_name [] (b ∷ bs) = false
same_name (a ∷ as_) [] = false
same_name (a ∷ as_) (b ∷ bs) = a == b && same_name as_ bs

unfoldable pub set_run_threads : Registry → Registry
set_run_threads r = record r { run_threads_flag = true }

unfoldable pub clear_run_threads : Registry → Registry
clear_run_threads r = record r { run_threads_flag = false }

-- The return code, and the registry after the call; `allocated` is whether malloc(3) succeeds.
unfoldable pub register_hashpipe_thread : Bool → ThreadDesc → Registry → ℕ × Registry
register_hashpipe_thread allocated ptm r =
    if ltb (length r.thread_list) max_hashpipe_threads
    then (if allocated then (0, record r { thread_list = r.thread_list ++ ptm ∷ [] }) else (1, r))
    else (1, r)

unfoldable pub find_hashpipe_thread : List ℕ → List ThreadDesc → Option ThreadDesc
find_hashpipe_thread name [] = none
find_hashpipe_thread name (d ∷ ds) =
    let rest = find_hashpipe_thread name ds in if same_name name d.name then some d else rest

-- One loop of the listing: the names of the descriptors that pass a test.
unfoldable pub names_of : (ThreadDesc → Bool) → List ThreadDesc → List (List ℕ)
names_of shown [] = []
names_of shown (d ∷ ds) = let rest = names_of shown ds in if shown d then d.name ∷ rest else rest

abbrev pub null_output_thread : List ℕ
null_output_thread = codes "null_output_thread"

abbrev pub is_input_only : ThreadDesc → Bool
is_input_only d = not d.ibuf_create && d.obuf_create

abbrev pub is_input_output : ThreadDesc → Bool
is_input_output d = d.ibuf_create && d.obuf_create

abbrev pub is_output_only : ThreadDesc → Bool
is_output_only d = d.ibuf_create && not d.obuf_create

abbrev pub is_utility : ThreadDesc → Bool
is_utility d = not (same_name d.name null_output_thread) && (not d.ibuf_create && not d.obuf_create)

-- The names that `list_hashpipe_threads` prints to its file, in order.
unfoldable pub list_hashpipe_threads : List ThreadDesc → List (List ℕ)
list_hashpipe_threads ds =
    names_of is_input_only ds
    ++ names_of is_input_output ds
    ++ (null_output_thread ∷ names_of is_output_only ds)
    ++ names_of is_utility ds

-- `get_cpu_affinity`, after sched_getaffinity(2) (`none`: it failed): `mask` is 0 when it is
-- tested.
unfoldable pub get_cpu_affinity : Option (ℕ → Bool) → ℕ
get_cpu_affinity none = 0
get_cpu_affinity (some cpuset) = 0

-- The fields of `hashpipe_thread_args_t` that these functions set.
pub record ThreadArgs : Type 0 where
  pub thread_desc : Option ThreadDesc
  pub instance_id : ℕ
  pub input_buffer : ℕ
  pub output_buffer : ℕ
  pub cpu_mask : ℕ
  pub finished : Bool
  pub ibuf : Option ℕ
  pub obuf : Option ℕ

unfoldable pub args_init : ThreadArgs → ThreadArgs
args_init a = record a {
  thread_desc = none;
  instance_id = 0;
  cpu_mask = 0;
  finished = false;
  ibuf = none;
  obuf = none;
}

unfoldable pub args_destroy : ThreadArgs → ThreadArgs
args_destroy a = record a { finished = true }

unfoldable pub set_finished : ThreadArgs → ThreadArgs
set_finished a = record a { finished = true }

-- When `hashpipe_thread_finished` stops waiting: the time of day in seconds and microseconds, and
-- the timeout as the integers that its whole part and its fraction (of 1e9) are cut to.
unfoldable pub wait_until : ℕ → ℕ → ℕ → ℕ → Timespec
wait_until now_sec now_usec whole fraction = record {
  tv_sec = now_sec + whole;
  tv_nsec = now_usec * 1000 + fraction;
}

-- What `hashpipe_thread_finished` returns: if it has to wait, pthread_cond_timedwait(3) gives the
-- mutex away until that time, and `wait t` is what the flag is when it returns.
unfoldable pub thread_finished : (Timespec → Bool) → ℕ → ℕ → ℕ → ℕ → ThreadArgs → Bool
thread_finished wait now_sec now_usec whole fraction a =
    if a.finished then true else wait (wait_until now_sec now_usec whole fraction)
