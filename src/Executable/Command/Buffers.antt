-- ===== src/Executable/Command/Buffers.antt =====
-- Which buffers and which instance the threads of a command line are given.
use hashpipe.Base.{ap, sym, ◌∙◌}
use mathlib.Core.List.{append_assoc, append-nil}
use hashpipe.Base.{
  int_pattern, ℕ, zero, suc, ◌+◌, ◌≤◌, ◌<◌, ◌≡◌, refl, arith, subst, inl, inr, Bool-cases, leb,
}
use hashpipe.Base.{
  Bool, true, false, Option, none, some, List, [], ◌∷◌, ◌++◌, ℤ, pos, negsuc, length, length-append,
  bit_and_mask, if◌then◌else◌,
}
use hashpipe.Thread.{ThreadDesc, ThreadArgs, max_hashpipe_threads}
use hashpipe.Executable.Command.{
  Given, thread, help, list, version, buffer, unknown, keyfile, instance, option, mask, cpu, plugin,
  Calls, Main, Next, go_on, ends, undefined, instance_number, cpu_bit, next_args, set_up_next,
  take_thread, plugin_file, handle, and_then, handle_all, first,
}

-- Threads in order: each was initialised, and the one with number `i` reads buffer `i` and writes
-- buffer `i + 1`, which is what the next one reads.
abbrev pub AreLinked : Calls → ℕ → List ThreadArgs → Type 0
AreLinked c i [] = Unit
AreLinked c i (a ∷ as_) =
    (a.input_buffer ≡ i)
    × (a.output_buffer ≡ i + 1)
    × (a.instance_id ≤ 63)
    × (c.thread_init a ≡ pos 0)
    × AreLinked c (i + 1) as_

abbrev pub instances : List ThreadArgs → List ℕ
instances [] = []
instances (a ∷ as_) = a.instance_id ∷ instances as_

instances-append :
    (as_ : List ThreadArgs) (a : ThreadArgs)
    → instances (as_ ++ a ∷ []) ≡ instances as_ ++ a.instance_id ∷ []
instances-append [] a = refl
instances-append (b ∷ bs) a = ap (λ l. b.instance_id ∷ l) (instances-append bs a)

-- The instances that a command line gives to the threads that it names, from instance `i` on: each has
-- that of the last -I before it.
abbrev pub given_instances : Calls → ℕ → List Given → List ℕ
given_instances c i [] = []
given_instances c i (thread name ∷ gs) = i ∷ given_instances c i gs
given_instances c i (instance t ∷ gs) = given_instances c (instance_number (c.strtol t)) gs
given_instances c i (_ ∷ gs) = given_instances c i gs

AreLinked-append :
    (c : Calls) (i : ℕ) (as_ : List ThreadArgs) (a : ThreadArgs)
    → AreLinked c i as_
    → AreLinked c (i + length as_) (a ∷ [])
    → AreLinked c i (as_ ++ a ∷ [])
AreLinked-append c i [] a h (p, q, r, t, u) = (omega (arith, p), omega (arith, q), r, t, tt)
AreLinked-append c i (b ∷ bs) a (p, q, r, t, h) (p', q', r', t', u) = (
  p,
  q,
  r,
  t,
  AreLinked-append c (i + 1) bs a h (omega (arith, p'), omega (arith, q'), r', t', tt),
)

-- What the variables of `main` that concern buffers and instances satisfy.
pub record InOrder (c : Calls) (ready : List ThreadArgs)
    (next_input next_output number own_input own_output own_instance : ℕ) : Type 0 where
  pub linked : AreLinked c 0 ready
  pub fits : length ready < max_hashpipe_threads
  pub input : next_input ≡ length ready
  pub output : next_output ≡ length ready + 1
  pub small : number ≤ 63
  pub current_input : own_input ≡ next_input
  pub current_output : own_output ≡ next_output
  pub current_instance : own_instance ≡ number

abbrev pub Inv : Calls → Main → Type 0
Inv c m =
    InOrder c m.ready m.input_buffer m.output_buffer m.instance_id m.current.input_buffer
      m.current.output_buffer m.current.instance_id

instance_number-small : (z : ℤ) → instance_number z ≤ 63
unfolding instance_number
instance_number-small (pos n) = ground (arith, bit_and_mask 6 (int_pattern (pos n)))
instance_number-small (negsuc n) = omega (arith, bit_and_mask 6 (int_pattern (negsuc n)))

-- A result that leaves the invariant, if it goes on.
abbrev Keeps : Calls → Next → Type 0
Keeps c (go_on m) = Inv c m
Keeps c (ends n) = Unit
Keeps c undefined = Unit

or_exit : (c : Calls) (b : Bool) (r : Next) → Keeps c r → Keeps c (if b then r else ends 1)
or_exit c true r v = v
or_exit c false r v = tt

module _ (c : Calls) (blank : ThreadArgs) where
  set_up_next-Keeps :
      (m : Main) (a : ThreadArgs)
      → Inv c m
      → a.input_buffer ≡ m.current.input_buffer
      → a.output_buffer ≡ m.current.output_buffer
      → a.instance_id ≡ m.current.instance_id
      → c.thread_init a ≡ pos 0
      → Keeps c (set_up_next m a blank)
  unfolding set_up_next next_args
  set_up_next-Keeps m a v p q r t =
      elim (Bool-cases (leb max_hashpipe_threads (length m.ready + 1))) [
        | inl full ↦ rw full tt
        | inr room ↦ rw room (record {
          linked = AreLinked-append c 0 m.ready a v.linked (
            omega (arith, p, v.current_input, v.input),
            omega (arith, q, v.current_output, v.output),
            omega (arith, r, v.current_instance, v.small),
            t,
            tt,
          );
          fits = ground (arith, length-append m.ready (a ∷ []));
          input = omega (arith, v.input, length-append m.ready (a ∷ []));
          output = omega (arith, v.output, length-append m.ready (a ∷ []));
          small = v.small;
          current_input = refl;
          current_output = refl;
          current_instance = refl;
        })
      ]

  take_thread-Keeps :
      (m : Main) (o : Option ThreadDesc) → Inv c m → Keeps c (take_thread c blank m o)
  unfolding take_thread
  take_thread-Keeps m none v = tt
  take_thread-Keeps m (some d) v =
      go (c.thread_init (record m.current { thread_desc = some d })) refl
    where
      go :
          (z : ℤ)
          → c.thread_init (record m.current { thread_desc = some d }) ≡ z
          → Keeps c (elim z [
            | pos zero ↦ set_up_next m (record m.current { thread_desc = some d }) blank
            | _ ↦ ends 1
          ])
      go (pos zero) e = set_up_next-Keeps m _ v refl refl refl e
      go (pos (suc n)) e = tt
      go (negsuc n) e = tt

  handle-Keeps : (m : Main) (g : Given) → Inv c m → Keeps c (handle c blank m g)
  unfolding handle
  handle-Keeps m (thread name) v = take_thread-Keeps m (c.find name) v
  handle-Keeps m help v = tt
  handle-Keeps m list v = tt
  handle-Keeps m version v = tt
  handle-Keeps m buffer v = v
  handle-Keeps m unknown v = tt
  handle-Keeps m (keyfile t) v = v
  handle-Keeps m (instance t) v = record {
    linked = v.linked;
    fits = v.fits;
    input = v.input;
    output = v.output;
    small = instance_number-small (c.strtol t);
    current_input = v.current_input;
    current_output = v.current_output;
    current_instance = refl;
  }
  handle-Keeps m (option t) v = elim (Bool-cases (c.status_attach m.instance_id)) [
    | inl yes_ ↦ rw yes_ v
    | inr no_ ↦ rw no_ tt
  ]
  handle-Keeps m (mask t) v = v
  handle-Keeps m (cpu t) v = go (cpu_bit (c.strtol t))
    where
      go :
          (o : Option ℕ)
          → Keeps c (elim o [
            | none ↦ undefined
            | some b ↦ go_on (record m { current = record m.current { cpu_mask = b } })
          ])
      go none = tt
      go (some b) = v
  handle-Keeps m (plugin t) v =
      let done = go_on (record m { loaded = m.loaded ++ plugin_file t ∷ [] }) in
      let restored = if c.restore_privileges then done else ends 1 in
      or_exit c c.drop_privileges (if c.load (plugin_file t) then restored else ends 1)
        (or_exit c (c.load (plugin_file t)) restored (or_exit c c.restore_privileges done v))

  and_then-Keeps :
      (r : Next) (f : Main → Next)
      → Keeps c r
      → ((m : Main) → Inv c m → Keeps c (f m))
      → Keeps c (and_then r f)
  and_then-Keeps (go_on m) f v h = h m v
  and_then-Keeps (ends n) f v h = tt
  and_then-Keeps undefined f v h = tt

  handle_all-Keeps : (m : Main) (gs : List Given) → Inv c m → Keeps c (handle_all c blank m gs)
  unfolding handle_all
  handle_all-Keeps m [] v = v
  handle_all-Keeps m (g ∷ gs) v =
      and_then-Keeps _ _ (handle-Keeps m g v) (λ m' v'. handle_all-Keeps m' gs v')

  first-Inv : Inv c (first blank)
  unfolding next_args
  first-Inv = record {
    linked = tt;
    fits = omega arith;
    input = refl;
    output = refl;
    small = omega arith;
    current_input = refl;
    current_output = refl;
    current_instance = refl;
  }

  -- What an option adds to the instances of the threads, with `gs` behind it.
  abbrev Tells : Main → Given → List Given → Next → Type 0
  Tells m g gs (go_on n) =
      instances n.ready ++ given_instances c n.instance_id gs
      ≡ instances m.ready ++ given_instances c m.instance_id (g ∷ gs)
  Tells m g gs (ends k) = Unit
  Tells m g gs undefined = Unit

  or_exit-Tells :
      (m : Main) (g : Given) (gs : List Given) (b : Bool) (r : Next)
      → Tells m g gs r
      → Tells m g gs (if b then r else ends 1)
  or_exit-Tells m g gs true r t = t
  or_exit-Tells m g gs false r t = tt

  take_thread-Tells :
      (m : Main) (name : List ℕ) (gs : List Given) (o : Option ThreadDesc)
      → Inv c m
      → Tells m (thread name) gs (take_thread c blank m o)
  unfolding take_thread set_up_next next_args
  take_thread-Tells m name gs none v = tt
  take_thread-Tells m name gs (some d) v =
      go (c.thread_init (record m.current { thread_desc = some d }))
    where
      added :
          (a : ThreadArgs)
          → a.instance_id ≡ m.instance_id
          → Tells m (thread name) gs (set_up_next m a blank)
      added a e = elim (Bool-cases (leb max_hashpipe_threads (length m.ready + 1))) [
        | inl full ↦ rw full tt
        | inr room ↦ rw room (
            ap (λ l. l ++ given_instances c m.instance_id gs) (instances-append m.ready a)
            ∙ append_assoc (instances m.ready) (a.instance_id ∷ [])
                (given_instances c m.instance_id gs)
            ∙ ap (λ i. instances m.ready ++ i ∷ given_instances c m.instance_id gs) e)
      ]

      go :
          (z : ℤ)
          → Tells m (thread name) gs (elim z [
            | pos zero ↦ set_up_next m (record m.current { thread_desc = some d }) blank
            | _ ↦ ends 1
          ])
      go (pos zero) = added _ v.current_instance
      go (pos (suc n)) = tt
      go (negsuc n) = tt

  handle-Tells :
      (m : Main) (g : Given) (gs : List Given) → Inv c m → Tells m g gs (handle c blank m g)
  unfolding handle
  handle-Tells m (thread name) gs v = take_thread-Tells m name gs (c.find name) v
  handle-Tells m help gs v = tt
  handle-Tells m list gs v = tt
  handle-Tells m version gs v = tt
  handle-Tells m buffer gs v = refl
  handle-Tells m unknown gs v = tt
  handle-Tells m (keyfile t) gs v = refl
  handle-Tells m (instance t) gs v = refl
  handle-Tells m (option t) gs v = elim (Bool-cases (c.status_attach m.instance_id)) [
    | inl yes_ ↦ rw yes_ refl
    | inr no_ ↦ rw no_ tt
  ]
  handle-Tells m (mask t) gs v = refl
  handle-Tells m (cpu t) gs v = go (cpu_bit (c.strtol t))
    where
      go :
          (o : Option ℕ)
          → Tells m (cpu t) gs (elim o [
            | none ↦ undefined
            | some b ↦ go_on (record m { current = record m.current { cpu_mask = b } })
          ])
      go none = tt
      go (some b) = refl
  handle-Tells m (plugin t) gs v =
      let done = go_on (record m { loaded = m.loaded ++ plugin_file t ∷ [] }) in
      let restored = if c.restore_privileges then done else ends 1 in
      or_exit-Tells m (plugin t) gs c.drop_privileges
        (if c.load (plugin_file t) then restored else ends 1)
        (or_exit-Tells m (plugin t) gs (c.load (plugin_file t)) restored
          (or_exit-Tells m (plugin t) gs c.restore_privileges done refl))

  -- The whole command line.
  abbrev TellsAll : Main → List Given → Next → Type 0
  TellsAll m gs (go_on n) =
      instances n.ready ≡ instances m.ready ++ given_instances c m.instance_id gs
  TellsAll m gs (ends k) = Unit
  TellsAll m gs undefined = Unit

  then-TellsAll :
      (m : Main) (g : Given) (gs : List Given) (r : Next) (f : Main → Next)
      → Keeps c r
      → Tells m g gs r
      → ((n : Main) → Inv c n → TellsAll n gs (f n))
      → TellsAll m (g ∷ gs) (and_then r f)
  then-TellsAll m g gs (go_on n) f v t h = go (f n) (h n v)
    where
      go : (q : Next) → TellsAll n gs q → TellsAll m (g ∷ gs) q
      go (go_on x) e = e ∙ t
      go (ends k) e = tt
      go undefined e = tt
  then-TellsAll m g gs (ends k) f v t h = tt
  then-TellsAll m g gs undefined f v t h = tt

  handle_all-TellsAll :
      (m : Main) (gs : List Given) → Inv c m → TellsAll m gs (handle_all c blank m gs)
  unfolding handle_all
  handle_all-TellsAll m [] v = sym (append-nil (instances m.ready))
  handle_all-TellsAll m (g ∷ gs) v =
      then-TellsAll m g gs (handle c blank m g) _ (handle-Keeps m g v) (handle-Tells m g gs v)
        (λ n v'. handle_all-TellsAll n gs v')

  -- When `main` gets through a command line, the threads that it named form a chain: each was
  -- initialised with success; the first reads buffer 0, each writes the buffer with the next number,
  -- and the next thread reads the buffer with that number. Each is of the instance, of 0 to 63, of
  -- the last -I before its name, or of instance 0 if there is none: it is one chain of buffers
  -- for the threads between which no -I stands that changes the instance.
  pub handle_all-AreLinked :
      (gs : List Given) (m : Main)
      → handle_all c blank (first blank) gs ≡ go_on m
      → AreLinked c 0 m.ready
        × (length m.ready < max_hashpipe_threads)
        × (instances m.ready ≡ given_instances c 0 gs)
  handle_all-AreLinked gs m e =
      let v : Inv c m = subst (Keeps c) e (handle_all-Keeps (first blank) gs first-Inv) in
      (
        v.linked,
        v.fits,
        subst (TellsAll (first blank) gs) e (handle_all-TellsAll (first blank) gs first-Inv),
      )
