-- ===== src/Tools/CheckStatus.antt =====
-- hashpipe_check_status.c: records of a status buffer are shown and set. The options are carried out as
-- they are read.
pub mod Edits
pub mod Ready
use hashpipe.Base.{ℕ, ◌^◌, if◌then◌else◌, not, bit_and}
use hashpipe.Base.{Bool, true, false, Option, none, some, List, [], ◌∷◌, ◌++◌, ℤ, pos, int_pattern}
use hashpipe.Ipc.{Ipc}
use hashpipe.IpcKey.{Env}
use hashpipe.Databuf.{Status, hashpipe_ok}
use hashpipe.StatusBuf.{Buffer, Fits, clear}
use hashpipe.StatusBuf.Attach.{StatusArea, exists, status_attach}
use hashpipe.Tools.{Numbers, keyfile_var}

-- What getopt_long(3) hands over.
pub data StatusOption : Type 0 where
  stat_help stat_unknown stat_show_lock stat_show_shmkey stat_verbose stat_clear stat_delete :
      StatusOption
  stat_keyfile stat_instance stat_key stat_query stat_get : List ℕ → StatusOption
  stat_string stat_float stat_double stat_int : List ℕ → StatusOption

-- The functions of fitshead.h, with a keyword that the user gives; a `float` or `double` is its bits. The
-- last two find a record or not.
pub record Cards : Type 0 where
  pub hputs : Buffer → List ℕ → List ℕ → Buffer
  pub hputr4 : Buffer → List ℕ → ℕ → Buffer
  pub hputr8 : Buffer → List ℕ → ℕ → Buffer
  pub hputi4 : Buffer → List ℕ → ℤ → Buffer
  pub hdel : Buffer → List ℕ → Buffer
  pub hgets : Buffer → List ℕ → Option (List ℕ)
  pub hgetr8 : Buffer → List ℕ → Option ℕ

-- atof(3), and a `double` as a `float`.
pub record Floats : Type 0 where
  pub atof : List ℕ → ℕ
  pub to_float : ℕ → ℕ

-- What is printed for -Q and -g; a number is `none` if the variable was never set.
pub data Printed : Type 0 where
  text : List ℕ → Printed
  number : Option ℕ → Printed

-- The variables of `main`.
pub record Asked : Type 0 where
  pub instance_id : ℤ
  pub key : Option (List ℕ)
  pub keyfile : Option (List ℕ)
  pub value : List ℕ
  pub dbltmp : Option ℕ
  pub verbose : Bool
  pub clears : Bool
  pub show_lock : Bool
  pub show_shmkey : Bool

abbrev pub asked_defaults : Asked
asked_defaults = record {
  instance_id = pos 0;
  key = none;
  keyfile = none;
  value = [];
  dbltmp = none;
  verbose = false;
  clears = false;
  show_lock = false;
  show_shmkey = false;
}

module _ (k : Ipc) where
  -- The variables, the static `hashpipe_status_t`, the kernel, and what was printed.
  pub record Shell : Type 0 where
    pub asked : Asked
    pub area : StatusArea
    pub world : k.World
    pub printed : List Printed

  -- The tool goes on, or exits with a code.
  pub data Stepped : Type 0 where
    goes_on : Shell → Stepped
    exits : ℕ → k.World → Stepped

  -- After hashpipe_status_attach.
  abbrev pub or_exit_1 : Shell → Status × StatusArea × k.World → Stepped
  or_exit_1 s (hashpipe_ok, a, w) = goes_on (record s { area = a; world = w })
  or_exit_1 s (_, a, w) = exits 1 w

  -- What is done between lock and unlock.
  abbrev pub and_then : Stepped → (Shell → Shell) → Stepped
  and_then (goes_on s) f = goes_on (f s)
  and_then (exits code w) f = exits code w

  abbrev pub or_refuse : Shell → (Shell → ℕ × k.World) → Bool × k.World → ℕ × k.World
  or_refuse s f (false, w) = (1, w)
  or_refuse s f (true, w) = f (record s { world = w })

module _ (k : Ipc) (buffer : k.World → ℕ → Buffer) (put : k.World → ℕ → Buffer → k.World)
    (sem_open : k.World → List ℕ → Option ℕ × k.World) (fits : Fits)
    (env : Option (List ℕ) → Env) where
  -- The status buffer is attached each time, since last_used_instance_id is never set.
  unfoldable pub get_status_buffer : Shell k → Stepped k
  get_status_buffer s = or_exit_1 k s (
      status_attach k buffer put sem_open fits (env s.asked.keyfile) s.world
        (bit_and (int_pattern s.asked.instance_id) 0x3f) s.area)

  unfoldable pub edit : (Buffer → Buffer) → Shell k → Shell k
  edit f s = record s { world = put s.world s.area.buf (f (buffer s.world s.area.buf)) }

  -- An option that stores something under the key that was given, if one was.
  unfoldable pub keyed : Shell k → (List ℕ → Buffer → Buffer) → Stepped k
  unfolding get_status_buffer edit
  keyed s f = elim s.asked.key [
    | none ↦ goes_on s
    | some key ↦ and_then k (get_status_buffer s) (edit (f key))
  ]

  -- hgets and hgetr8 leave the variable as it is if there is no record.
  unfoldable pub query : Cards → List ℕ → Shell k → Shell k
  query c name s =
      let value = elim (c.hgets (buffer s.world s.area.buf) name) as (λ _. List ℕ) [
        | none ↦ s.asked.value
        | some v ↦ v
      ] in
      record s {
        asked = record s.asked { value = value };
        printed = s.printed ++ (text value ∷ []);
      }

  unfoldable pub get_number : Cards → List ℕ → Shell k → Shell k
  get_number c name s =
      let number' = elim (c.hgetr8 (buffer s.world s.area.buf) name) as (λ _. Option ℕ) [
        | none ↦ s.asked.dbltmp
        | some v ↦ some v
      ] in
      record s {
        asked = record s.asked { dbltmp = number' };
        printed = s.printed ++ (number number' ∷ []);
      }

  unfoldable pub status_option : Cards → Numbers → Floats → Shell k → StatusOption → Stepped k
  unfolding keyed query get_number
  status_option c n fl s (stat_keyfile v) =
      goes_on (record s { asked = record s.asked { keyfile = some (keyfile_var v) } })
  status_option c n fl s (stat_instance v) =
      goes_on (record s { asked = record s.asked { instance_id = n.atoi v } })
  status_option c n fl s (stat_key v) =
      goes_on (record s { asked = record s.asked { key = some v } })
  status_option c n fl s (stat_query v) = and_then k (get_status_buffer s) (query c v)
  status_option c n fl s (stat_get v) = and_then k (get_status_buffer s) (get_number c v)
  status_option c n fl s stat_show_lock =
      goes_on (record s { asked = record s.asked { show_lock = true } })
  status_option c n fl s stat_show_shmkey =
      goes_on (record s { asked = record s.asked { show_shmkey = true } })
  status_option c n fl s (stat_string v) = keyed s (λ key b. c.hputs b key v)
  status_option c n fl s (stat_float v) =
      keyed s (λ key b. c.hputr4 b key (fl.to_float (fl.atof v)))
  status_option c n fl s (stat_double v) =
      keyed (record s { asked = record s.asked { dbltmp = some (fl.atof v) } })
        (λ key b. c.hputr8 b key (fl.atof v))
  status_option c n fl s (stat_int v) = keyed s (λ key b. c.hputi4 b key (n.atoi v))
  status_option c n fl s stat_delete = keyed s (λ key b. c.hdel b key)
  status_option c n fl s stat_clear =
      goes_on (record s { asked = record s.asked { clears = true } })
  status_option c n fl s stat_verbose =
      goes_on (record s { asked = record s.asked { verbose = true } })
  status_option c n fl s stat_help = exits 0 s.world
  status_option c n fl s stat_unknown = exits 1 s.world

  unfoldable pub status_options : Cards → Numbers → Floats → Shell k → List StatusOption → Stepped k
  unfolding status_option
  status_options c n fl s [] = goes_on s
  status_options c n fl s (o ∷ rest) = elim (status_option c n fl s o) [
    | goes_on s' ↦ status_options c n fl s' rest
    | exits code w ↦ exits code w
  ]

  -- What is done with the attached buffer at the end; `getvalue` is sem_getvalue(3). A buffer that is
  -- printed (-v) does not change.
  unfoldable pub show_or_clear : (Option ℕ → Option ℤ) → Stepped k → ℕ × k.World
  unfolding edit
  show_or_clear getvalue (exits code w) = (code, w)
  show_or_clear getvalue (goes_on s) =
      if s.asked.show_lock
      then (elim (getvalue s.area.lock) [ none ↦ (1, s.world) | some v ↦ (0, s.world) ])
      else if s.asked.clears
      then (0, (edit (clear fits s.area.instance_id) s).world)
      else (0, s.world)

  -- What follows the options.
  unfoldable pub finish : (Option ℕ → Option ℤ) → Shell k → ℕ × k.World
  unfolding get_status_buffer show_or_clear
  finish getvalue s =
      if s.asked.show_shmkey
      then (0, s.world)
      else or_refuse k s (λ s'. show_or_clear getvalue (get_status_buffer s'))
          (exists k buffer put sem_open fits (env s.asked.keyfile) s.world
            (int_pattern s.asked.instance_id))

  unfoldable pub check_status :
      Cards
      → Numbers
      → Floats
      → (Option ℕ → Option ℤ)
      → StatusArea
      → List StatusOption
      → k.World
      → ℕ × k.World
  unfolding status_options finish
  check_status c n fl getvalue a given w =
      elim (status_options c n fl
        (record { asked = asked_defaults; area = a; world = w; printed = [] }) given) [
          | exits code w' ↦ (code, w')
          | goes_on s ↦ finish getvalue s
        ]
