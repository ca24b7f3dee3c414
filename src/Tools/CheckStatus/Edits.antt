-- ===== src/Tools/CheckStatus/Edits.antt =====
-- Command lines that leave the kernel alone.
use hashpipe.Base.{ℕ, ◌≡◌, refl, sym, ap, ◌∙◌, subst, if◌then◌else◌, ◌||◌, Bool-cases, inl, inr}
use hashpipe.Base.{Bool, true, false, Option, none, some, List, [], ◌∷◌, ℤ, int_pattern}
use hashpipe.Ipc.{Ipc}
use hashpipe.IpcKey.{Env}
use hashpipe.StatusBuf.{Buffer, Fits}
use hashpipe.StatusBuf.Attach.{StatusArea, exists}
use hashpipe.Tools.{Numbers}
use hashpipe.Tools.CheckStatus.{
  StatusOption, stat_help, stat_unknown, stat_show_lock, stat_show_shmkey, stat_verbose, stat_clear,
  stat_delete, stat_keyfile, stat_instance, stat_key, stat_query, stat_get, stat_string, stat_float,
  stat_double, stat_int, Cards, Floats, asked_defaults, Shell, Stepped, goes_on, exits, or_refuse,
  and_then, get_status_buffer, edit, keyed, status_option, status_options, finish, show_or_clear,
  check_status,
}

-- Whether a command line shows a record, or sets or deletes one under a key, if a key was given before.
abbrev pub touches : Bool → List StatusOption → Bool
touches key [] = false
touches key (stat_key v ∷ rest) = touches true rest
touches key (stat_query v ∷ rest) = true
touches key (stat_get v ∷ rest) = true
touches key (stat_string v ∷ rest) = key || touches key rest
touches key (stat_float v ∷ rest) = key || touches key rest
touches key (stat_double v ∷ rest) = key || touches key rest
touches key (stat_int v ∷ rest) = key || touches key rest
touches key (stat_delete ∷ rest) = key || touches key rest
touches key (_ ∷ rest) = touches key rest

abbrev pub given_key : Option (List ℕ) → Bool
given_key none = false
given_key (some v) = true

module _ (k : Ipc) (buffer : k.World → ℕ → Buffer) (put : k.World → ℕ → Buffer → k.World)
    (sem_open : k.World → List ℕ → Option ℕ × k.World) (fits : Fits) (env : Option (List ℕ) → Env)
    (c : Cards) (n : Numbers) (fl : Floats) where
  abbrev IsUntouched : k.World → Stepped k → Type 0
  IsUntouched w (goes_on s) = s.world ≡ w
  IsUntouched w (exits code w') = w' ≡ w

  -- Without a key, an option that needs one does nothing.
  keyed_lem :
      (s : Shell k) (f : List ℕ → Buffer → Buffer) (rest : Bool) (key : Option (List ℕ))
      → s.asked.key ≡ key
      → (given_key key || rest) ≡ false
      → (keyed k buffer put sem_open fits env s f ≡ goes_on s) × (rest ≡ false)
  unfolding keyed
  keyed_lem s f rest none q e = (
    ap
        (λ x. elim x as (λ _. Stepped k) [
          | none ↦ goes_on s
          | some key ↦
              and_then k (get_status_buffer k buffer put sem_open fits env s)
                (edit k buffer put sem_open fits env (f key))
        ])
        q,
    e,
  )
  keyed_lem s f rest (some v) q e = cc

  keyed-IsUntouched :
      (s : Shell k) (f : List ℕ → Buffer → Buffer) (rest : List StatusOption)
      → (given_key s.asked.key || touches (given_key s.asked.key) rest) ≡ false
      → (touches (given_key s.asked.key) rest ≡ false
          → IsUntouched s.world (status_options k buffer put sem_open fits env c n fl s rest))
      → IsUntouched s.world (elim (keyed k buffer put sem_open fits env s f) [
        | goes_on s' ↦ status_options k buffer put sem_open fits env c n fl s' rest
        | exits code w ↦ exits code w
      ])
  keyed-IsUntouched s f rest e after =
      let (same, t) = keyed_lem s f (touches (given_key s.asked.key) rest) s.asked.key refl e in
      subst
        (λ o. IsUntouched s.world (elim o as (λ _. Stepped k) [
          | goes_on s' ↦ status_options k buffer put sem_open fits env c n fl s' rest
          | exits code w ↦ exits code w
        ]))
        (sym same) (after t)

  options-IsUntouched :
      (given : List StatusOption) (s : Shell k)
      → touches (given_key s.asked.key) given ≡ false
      → IsUntouched s.world (status_options k buffer put sem_open fits env c n fl s given)
  unfolding status_options status_option keyed
  options-IsUntouched [] s e = refl
  options-IsUntouched (stat_help ∷ rest) s e = refl
  options-IsUntouched (stat_unknown ∷ rest) s e = refl
  options-IsUntouched (stat_key v ∷ rest) s e = options-IsUntouched rest _ e
  options-IsUntouched (stat_keyfile v ∷ rest) s e = options-IsUntouched rest _ e
  options-IsUntouched (stat_instance v ∷ rest) s e = options-IsUntouched rest _ e
  options-IsUntouched (stat_show_lock ∷ rest) s e = options-IsUntouched rest _ e
  options-IsUntouched (stat_show_shmkey ∷ rest) s e = options-IsUntouched rest _ e
  options-IsUntouched (stat_verbose ∷ rest) s e = options-IsUntouched rest _ e
  options-IsUntouched (stat_clear ∷ rest) s e = options-IsUntouched rest _ e
  options-IsUntouched (stat_query v ∷ rest) s e = cc
  options-IsUntouched (stat_get v ∷ rest) s e = cc
  options-IsUntouched (stat_string v ∷ rest) s e =
      keyed-IsUntouched s (λ key b. c.hputs b key v) rest e (λ t. options-IsUntouched rest s t)
  options-IsUntouched (stat_float v ∷ rest) s e =
      keyed-IsUntouched s (λ key b. c.hputr4 b key (fl.to_float (fl.atof v))) rest e
        (λ t. options-IsUntouched rest s t)
  options-IsUntouched (stat_double v ∷ rest) s e =
      keyed-IsUntouched _ (λ key b. c.hputr8 b key (fl.atof v)) rest e
        (λ t. options-IsUntouched rest _ t)
  options-IsUntouched (stat_int v ∷ rest) s e =
      keyed-IsUntouched s (λ key b. c.hputi4 b key (n.atoi v)) rest e
        (λ t. options-IsUntouched rest s t)
  options-IsUntouched (stat_delete ∷ rest) s e =
      keyed-IsUntouched s (λ key b. c.hdel b key) rest e (λ t. options-IsUntouched rest s t)

  finish_lem :
      (getvalue : Option ℕ → Option ℤ) (s : Shell k)
      → exists k buffer put sem_open fits
          (env s.asked.keyfile)
          s.world
          (int_pattern s.asked.instance_id)
        ≡ (false, s.world)
      → (finish k buffer put sem_open fits env getvalue s).1 ≡ s.world
  unfolding finish
  finish_lem getvalue s absent = elim (Bool-cases s.asked.show_shmkey) [
    | inl shown ↦ ap (λ b. (if b then (0, s.world) else refuse).1) shown
    | inr not_shown ↦
        ap (λ b. (if b then (0, s.world) else refuse).1) not_shown
        ∙ ap
            (λ r.
              (or_refuse k s
                (λ s'.
                  show_or_clear k buffer put sem_open fits env getvalue
                    (get_status_buffer k buffer put sem_open fits env s'))
                r).1)
            absent
  ]
    where
      refuse : ℕ × k.World
      refuse =
          or_refuse k s
            (λ s'.
              show_or_clear k buffer put sem_open fits env getvalue
                (get_status_buffer k buffer put sem_open fits env s'))
            (exists k buffer put sem_open fits (env s.asked.keyfile) s.world
              (int_pattern s.asked.instance_id))

  -- If no instance has a status buffer, as `hashpipe_status_exists` finds, which changes nothing, then a
  -- command line without -Q and -g, and without -s, -f, -d, -i and -D behind a -k, leaves the state
  -- of the kernel as it is: no buffer is made, whatever the other options and their order are.
  pub check_status-untouched :
      (getvalue : Option ℕ → Option ℤ) (a : StatusArea) (given : List StatusOption) (w : k.World)
      → ((v : Option (List ℕ)) (i : ℕ) → exists k buffer put sem_open fits (env v) w i ≡ (false, w))
      → touches false given ≡ false
      → (check_status k buffer put sem_open fits env c n fl getvalue a given w).1 ≡ w
  unfolding check_status
  check_status-untouched getvalue a given w absent t = go _ (options-IsUntouched given start t)
    where
      start : Shell k
      start = record { asked = asked_defaults; area = a; world = w; printed = [] }

      go :
          (o : Stepped k)
          → IsUntouched w o
          → (elim o as (λ _. ℕ × k.World) [
            | exits code w' ↦ (code, w')
            | goes_on s ↦ finish k buffer put sem_open fits env getvalue s
          ]).1
            ≡ w
      go (exits code w') e = e
      go (goes_on s) e =
          finish_lem getvalue s (
            subst
              (λ x.
                exists k buffer put sem_open fits (env s.asked.keyfile) x
                  (int_pattern s.asked.instance_id)
                ≡ (false, x))
              (sym e) (absent _ _))
          ∙ e
