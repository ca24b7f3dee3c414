-- ===== src/Executable/Command.antt =====
-- The command line of hashpipe.c's `main`: what each option does to the thread that is being set up,
-- and to the ones behind it. getopt_long(3) and the conversions of texts to numbers are outside.
pub mod Buffers
pub mod Options
pub mod Lives
use hashpipe.Base.{
  ℕ, zero, suc, ◌+◌, ◌-◌, ◌%◌, ◌^◌, ◌==◌, ltb, leb, if◌then◌else◌, bit_and, length, take,
}
use hashpipe.Base.{
  Bool, true, false, Option, none, some, List, [], ◌∷◌, ◌++◌, ℤ, pos, negsuc, ◌||◌, int_pattern,
}
use hashpipe.StatusBuf.{codes}
use hashpipe.Thread.{ThreadDesc, ThreadArgs, args_init, max_hashpipe_threads, same_name}

-- What getopt_long(3) hands over; a text is its bytes.
pub data Given : Type 0 where
  thread : List ℕ → Given
  help list version buffer unknown : Given
  keyfile instance option mask cpu plugin : List ℕ → Given

-- What `-o` stores in the status buffer.
pub data Value : Type 0 where
  long : ℤ → Value
  double : ℕ → Value
  text : List ℕ → Value

-- The calls. `strtol` and `strtoul` are as `int` and `unsigned int`; `whole_long` and `whole_double`
-- (the bits of a `double`) convert a whole text, and are `none` if something is left over.
pub record Calls : Type 0 where
  pub find : List ℕ → Option ThreadDesc
  pub thread_init : ThreadArgs → ℤ
  pub status_attach : ℕ → Bool
  pub strtol : List ℕ → ℤ
  pub strtoul : List ℕ → ℕ
  pub whole_long : List ℕ → Option ℤ
  pub whole_double : List ℕ → Option ℕ
  pub drop_privileges : Bool
  pub load : List ℕ → Bool
  pub restore_privileges : Bool

-- The variables of `main`: `ready` holds `args[0]` to `args[num_threads-1]`, `current` is
-- `args[num_threads]`; `stored` are the calls of hputi8, hputr8 and hputs, by instance.
pub record Main : Type 0 where
  pub instance_id : ℕ
  pub input_buffer : ℕ
  pub output_buffer : ℕ
  pub ready : List ThreadArgs
  pub current : ThreadArgs
  pub keyfile_var : Option (List ℕ)
  pub stored : List (ℕ × List ℕ × Value)
  pub loaded : List (List ℕ)

-- The loop goes on, `main` ends with a code, or what follows is undefined.
pub data Next : Type 0 where
  go_on : Main → Next
  ends : ℕ → Next
  undefined : Next

unfoldable pub instance_number : ℤ → ℕ
instance_number (pos n) = if ltb 63 n then bit_and (int_pattern (pos n)) 0x3f else n
instance_number (negsuc n) = bit_and (int_pattern (negsuc n)) 0x3f

-- `1<<i` as an `unsigned int`
unfoldable pub cpu_bit : ℤ → Option ℕ
cpu_bit (pos i) = if ltb i 32 then some (2 ^ i) else none
cpu_bit (negsuc i) = none

-- The arguments of the next thread.
unfoldable pub next_args : ℕ → ℕ → ℕ → ThreadArgs → ThreadArgs
unfolding args_init
next_args instance_id input_buffer output_buffer a = record (args_init a) {
  instance_id = instance_id;
  input_buffer = input_buffer;
  output_buffer = output_buffer;
}

-- `args` has MAX_HASHPIPE_THREADS elements, and no test keeps `num_threads` below that.
unfoldable pub set_up_next : Main → ThreadArgs → ThreadArgs → Next
unfolding next_args
set_up_next m done blank =
    if leb max_hashpipe_threads (length m.ready + 1)
    then undefined
    else go_on (record m {
      ready = m.ready ++ done ∷ [];
      input_buffer = m.input_buffer + 1;
      output_buffer = m.output_buffer + 1;
      current = next_args m.instance_id (m.input_buffer + 1) (m.output_buffer + 1) blank;
    })

module _ (c : Calls) where
  -- A thread's name; `blank` is what the next element of `args` holds before.
  unfoldable pub take_thread : ThreadArgs → Main → Option ThreadDesc → Next
  unfolding set_up_next
  take_thread blank m none = ends 1
  take_thread blank m (some d) =
      let a = record m.current { thread_desc = some d } in
      elim (c.thread_init a) [ pos zero ↦ set_up_next m a blank | _ ↦ ends 1 ]

  -- The number, the number with a fraction, or the text that a value is.
  unfoldable pub classify : List ℕ → Value
  classify v = elim (c.whole_long v) [
    | some n ↦ long n
    | none ↦ elim (c.whole_double v) [ some x ↦ double x | none ↦ text v ]
  ]

abbrev pub and_then : Next → (Main → Next) → Next
and_then (go_on m) f = f m
and_then (ends n) f = ends n
and_then undefined f = undefined

-- strchr(3) of an equal sign: what is before it and what is behind it.
unfoldable pub split_equal : List ℕ → Option (List ℕ × List ℕ)
split_equal [] = none
split_equal (b ∷ bs) =
    if b == b'='
    then some ([], bs)
    else elim (split_equal bs) [ none ↦ none | some (key, value) ↦ some (b ∷ key, value) ]

-- `strrchr(s, '.')`: the text from the last dot on.
unfoldable pub last_dot : List ℕ → Option (List ℕ)
last_dot [] = none
last_dot (b ∷ bs) = elim (last_dot bs) [
  | some s ↦ some s
  | none ↦ if b == b'.' then some (b ∷ bs) else none
]

-- MAX_PLUGIN_NAME and PLUGIN_EXT
unfoldable pub plugin_file : List ℕ → List ℕ
unfolding last_dot same_name
plugin_file name = elim (last_dot (take 1024 name)) [
  | none ↦ take 1024 name ++ codes ".so"
  | some s ↦ if same_name s (codes ".so") then take 1024 name else take 1024 name ++ codes ".so"
]

module _ (c : Calls) where
  -- The key and the value that `-o` stores.
  unfoldable pub option_entry : List ℕ → List ℕ × Value
  unfolding split_equal classify
  option_entry arg = elim (split_equal arg) [
    | none ↦ (arg, text [])
    | some (key, []) ↦ (arg, text [])
    | some (key, (b ∷ bs)) ↦ (key, classify c (b ∷ bs))
  ]

  unfoldable pub handle : ThreadArgs → Main → Given → Next
  unfolding take_thread instance_number cpu_bit plugin_file option_entry
  handle blank m (thread name) = take_thread c blank m (c.find name)
  handle blank m help = ends 0
  handle blank m list = ends 0
  handle blank m version = ends 0
  handle blank m buffer = go_on m
  handle blank m unknown = ends 1
  handle blank m (keyfile v) =
      go_on (record m { keyfile_var = some (take 999 (codes "HASHPIPE_KEYFILE=" ++ v)) })
  handle blank m (instance v) =
      let id = instance_number (c.strtol v) in
      go_on (record m { instance_id = id; current = record m.current { instance_id = id } })
  handle blank m (option v) =
      if c.status_attach m.instance_id
      then (let (key, value) = option_entry v in
          go_on (record m { stored = m.stored ++ (m.instance_id, key, value) ∷ [] }))
      else ends 1
  handle blank m (mask v) =
      go_on (record m { current = record m.current { cpu_mask = c.strtoul v } })
  handle blank m (cpu v) = elim (cpu_bit (c.strtol v)) [
    | none ↦ undefined
    | some b ↦ go_on (record m { current = record m.current { cpu_mask = b } })
  ]
  handle blank m (plugin v) =
      if c.drop_privileges
      then (if c.load (plugin_file v)
          then (if c.restore_privileges
              then go_on (record m { loaded = m.loaded ++ plugin_file v ∷ [] })
              else ends 1)
          else ends 1)
      else ends 1

  -- All of the command line.
  unfoldable pub handle_all : ThreadArgs → Main → List Given → Next
  handle_all blank m [] = go_on m
  handle_all blank m (g ∷ gs) = and_then (handle blank m g) (λ m'. handle_all blank m' gs)

-- Before the loop.
abbrev pub first : ThreadArgs → Main
first blank = record {
  instance_id = 0;
  input_buffer = 0;
  output_buffer = 1;
  ready = [];
  current = next_args 0 0 1 blank;
  keyfile_var = none;
  stored = [];
  loaded = [];
}

-- What becomes of the threads: they are created from the last to the first, and when the run flag is
-- cleared they are cancelled, signalled and joined in the same order, and their arguments destroyed.
pub data Act : Type 0 where
  create cancel signal join destroy : ℕ → Act

-- From number `n - 1` down to 0.
unfoldable pub down : (ℕ → Act) → ℕ → List Act
down act zero = []
down act (suc n) = act n ∷ down act n

-- pthread_create(3) from the last on; `false` if one failed, and `main` exits.
unfoldable pub create_all : (ℕ → Bool) → ℕ → List Act × Bool
create_all works zero = ([], true)
create_all works (suc n) =
    let (acts, all) = create_all works n in if works n then (create n ∷ acts, all) else ([], false)

-- From the end of the command line on, until `main` exits; its exit code.
unfoldable pub run_all : Bool → (ℕ → Bool) → ℕ → List Act × ℕ
unfolding create_all down
run_all drops works n =
    let (acts, all) = create_all works n in
    if drops
    then (if n == 0
        then ([], 1)
        else if all
        then (
          acts ++ (down cancel n ++ (down signal n ++ (down join n ++ down destroy (n + 1)))),
          0,
        )
        else (acts, 1))
    else ([], 1)
