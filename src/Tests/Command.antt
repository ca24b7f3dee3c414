-- ===== src/Tests/Command.antt =====
-- The theorems on the command line and on UDP sockets.
use hashpipe.Base.{◌≤◌, ◌⊎◌, ℕ, ◌+◌, ◌<◌, ◌≡◌, refl, pos, length, none, some, [], ◌∷◌}
use hashpipe.Base.{true, false, List}
use hashpipe.StatusBuf.{codes}
use hashpipe.Thread.{ThreadDesc, ThreadArgs, args_init, max_hashpipe_threads}
use hashpipe.Executable.Command.{
  join, run_all, Given, thread, mask, instance, Calls, Main, go_on, handle, handle_all, first,
  take_thread, set_up_next, next_args, instance_number,
}
use hashpipe.Executable.Command.Buffers.{
  instances, given_instances, AreLinked, handle_all-AreLinked,
}
use hashpipe.Executable.Command.Lives.{count, lived, run_all-lived}
use hashpipe.Udp.{Params, Address, udp_init}
use hashpipe.Udp.Bound.{IsInit, udp_init-IsInit}

abbrev source : ThreadDesc
source = record {
  name = codes "source";
  skey = none;
  init = true;
  ibuf_create = false;
  obuf_create = true;
}

abbrev answers : Calls
answers = record {
  find = λ n. some source;
  thread_init = λ a. pos 0;
  status_attach = λ i. true;
  strtol = λ s. pos 70;
  strtoul = λ s. 6;
  whole_long = λ s. none;
  whole_double = λ s. none;
  drop_privileges = true;
  load = λ s. true;
  restore_privileges = true;
}

abbrev unused : ThreadArgs
unused = record {
  thread_desc = none;
  instance_id = 0;
  input_buffer = 0;
  output_buffer = 0;
  cpu_mask = 0;
  finished = false;
  ibuf = none;
  obuf = none;
}

-- hashpipe -I 70 -m 6 source sink
abbrev line : List Given
line =
    instance (codes "70") ∷ mask (codes "6") ∷ thread (codes "source") ∷ thread (codes "sink") ∷ []

abbrev thread_args : ℕ → ℕ → ThreadArgs
thread_args number m = record {
  thread_desc = some source;
  instance_id = 6;
  input_buffer = number;
  output_buffer = number + 1;
  cpu_mask = m;
  finished = false;
  ibuf = none;
  obuf = none;
}

abbrev after_line : Main
after_line = record {
  instance_id = 6;
  input_buffer = 2;
  output_buffer = 3;
  ready = thread_args 0 6 ∷ thread_args 1 0 ∷ [];
  current = record (thread_args 2 0) { thread_desc = none };
  keyfile_var = none;
  stored = [];
  loaded = [];
}

runs : handle_all answers unused (first unused) line ≡ go_on after_line
unfolding handle_all handle take_thread set_up_next next_args instance_number args_init
runs = refl

handle_all-AreLinked_example :
    AreLinked answers 0 after_line.ready
    × (length after_line.ready < max_hashpipe_threads)
    × (instances after_line.ready ≡ given_instances answers 0 line)
handle_all-AreLinked_example = handle_all-AreLinked answers unused line after_line runs

run_all-lived_example :
    let (acts, code) = run_all true (λ i. true) 2 in
    ((code ≡ 0) × (count (join 1) acts ≡ lived 2 (join 1)))
    ⊎ ((code ≡ 1) × (count (join 1) acts ≤ 0))
run_all-lived_example = run_all-lived true (λ i. true) 2 (join 1)

-- The first address gives no socket, the second one that is taken, the third works.
abbrev addresses : List Address
addresses =
    record { socket = none; binds = false }
    ∷ record { socket = some 5; binds = false }
    ∷ record { socket = some 6; binds = true }
    ∷ []

abbrev params : Params
params = record { bindport = 60000; sock = pos 0; pfd_fd = pos 0; pfd_events = 0 }

udp_init-IsInit_example : IsInit (some 6) (udp_init params (some addresses))
udp_init-IsInit_example = udp_init-IsInit params addresses
