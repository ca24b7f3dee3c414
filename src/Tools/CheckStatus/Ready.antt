-- ===== src/Tools/CheckStatus/Ready.antt =====
-- The status buffer when the tool ends.
use hashpipe.Base.{
  ℕ, ◌≡◌, ◌≢◌, ◌⊎◌, inl, inr, refl, sym, ap, subst, arith, ◌==◌, ==_iff, if◌then◌else◌, bit_and,
  bit_and_mask, Bool-cases,
}
use hashpipe.Base.{Bool, true, false, Option, none, some, List, ℤ, int_pattern}
use hashpipe.Ipc.{Ipc}
use hashpipe.IpcKey.{Env, key_error, status_key}
use hashpipe.Databuf.{Status, hashpipe_ok, hashpipe_timeout, hashpipe_err_gen, hashpipe_err_sys}
use hashpipe.StatusBuf.{Buffer, Fits, clear}
use hashpipe.StatusBuf.Chkinit.{IsFits, IsReady, clear-IsReady}
use hashpipe.StatusBuf.Attach.{
  StatusArea, exists, status_attach, Attached, FindsClean, status_attach-Attached,
}
use hashpipe.StatusBuf.{status_total_size}
use hashpipe.Ipc.{ipc_creat}
use hashpipe.Base.{◌<◌, [], ◌∷◌}
use hashpipe.Tools.CheckStatus.{
  Shell, goes_on, or_exit_1, get_status_buffer, edit, show_or_clear, or_refuse, finish,
}

masked_twice : (p : ℕ) → bit_and (bit_and p 0x3f) 0x3f ≡ bit_and p 0x3f
masked_twice p = omega (arith, bit_and_mask 6 p, bit_and_mask 6 (bit_and p 0x3f))

module _ (k : Ipc) (buffer : k.World → ℕ → Buffer) (put : k.World → ℕ → Buffer → k.World)
    (sem_open : k.World → List ℕ → Option ℕ × k.World) (fits : Fits) (env : Option (List ℕ) → Env)
    (l : IsFits fits)
    (buffer-put : (w : k.World) (a : ℕ) (b : Buffer) → buffer (put w a b) a ≡ b) where
  -- After the tool: an exit code above 0, or the buffer of instance `id` at `a` is in order.
  abbrev pub EndsReady : ℕ → ℕ → ℕ × k.World → Type 0
  EndsReady id a r = (r.0 ≢ 0) ⊎ IsReady fits l id (buffer r.1 a)

  clears_or_not :
      (s : Shell k) (getvalue : Option ℕ → Option ℤ)
      → s.area.instance_id < 64
      → IsReady fits l s.area.instance_id (buffer s.world s.area.buf)
      → EndsReady s.area.instance_id s.area.buf
          (show_or_clear k buffer put sem_open fits env getvalue (goes_on s))
  unfolding show_or_clear edit
  clears_or_not s getvalue small r = go s.asked.show_lock s.asked.clears (getvalue s.area.lock)
    where
      cleared : k.World
      cleared = put s.world s.area.buf (clear fits s.area.instance_id (buffer s.world s.area.buf))

      go :
          (b c : Bool) (o : Option ℤ)
          → EndsReady s.area.instance_id s.area.buf (
              if b
              then (elim o [ none ↦ (1, s.world) | some v ↦ (0, s.world) ])
              else if c
              then (0, cleared)
              else (0, s.world))
      go true c none = inl (λ e. omega (arith, e))
      go true c (some v) = inr r
      go false true o = inr (
          subst (IsReady fits l s.area.instance_id) (sym (buffer-put s.world s.area.buf _))
            (clear-IsReady fits l s.area.instance_id _ small))
      go false false o = inr r

  exists-key :
      (e : Env) (w : k.World) (i : ℕ)
      → (exists k buffer put sem_open fits e w i).0 ≡ true
      → (status_key e (bit_and i 0x3f) == key_error) ≡ false
  unfolding exists
  exists-key e w i = elim (Bool-cases (status_key e (bit_and i 0x3f) == key_error)) [
    | inl bad ↦ rw (exists, bad) (λ t. cc)
    | inr good ↦ λ t. good
  ]

  -- The attached buffer, in order, is in order at the end.
  or_exit_1-EndsReady :
      (s : Shell k) (getvalue : Option ℕ → Option ℤ) (id : ℕ) (r : Status × StatusArea × k.World)
      → id < 64
      → Attached k buffer put sem_open fits (env s.asked.keyfile) l buffer-put id r
      → EndsReady id r.1.buf
          (show_or_clear k buffer put sem_open fits env getvalue (or_exit_1 k s r))
  unfolding show_or_clear
  or_exit_1-EndsReady s getvalue id (hashpipe_ok, a, w) small (same, locked, ready) =
      subst
        (λ i. EndsReady i a.buf (
          show_or_clear k buffer put sem_open fits env getvalue
            (goes_on (record s { area = a; world = w }))))
        same
        (clears_or_not (record s { area = a; world = w }) getvalue
          (subst (λ i. i < 64) (sym same) small)
          (subst (λ i. IsReady fits l i (buffer w a.buf)) (sym same) ready))
  or_exit_1-EndsReady s getvalue id (hashpipe_timeout, a, w) small t = inl (λ e. omega (arith, e))
  or_exit_1-EndsReady s getvalue id (hashpipe_err_gen, a, w) small t = inl (λ e. omega (arith, e))
  or_exit_1-EndsReady s getvalue id (hashpipe_err_sys, a, w) small t = inl (λ e. omega (arith, e))

  module _ (s : Shell k) (getvalue : Option ℕ → Option ℤ) where
    abbrev pub number_of_instance : ℕ
    number_of_instance = bit_and (int_pattern s.asked.instance_id) 0x3f

    -- The last attachment, in the state that the search for the buffer leaves.
    abbrev pub last_attach : k.World → Status × StatusArea × k.World
    last_attach w =
        status_attach k buffer put sem_open fits (env s.asked.keyfile) w number_of_instance s.area

    abbrev pub searched : Bool × k.World
    searched =
        exists k buffer put sem_open fits (env s.asked.keyfile) s.world
          (int_pattern s.asked.instance_id)

    -- What the last attachment finds in that state is clean.
    abbrev pub IsCleanNow : k.World → Type 0
    IsCleanNow w =
        FindsClean k buffer put sem_open fits (env s.asked.keyfile) l buffer-put number_of_instance
          (k.shmget w (status_key (env s.asked.keyfile) number_of_instance) status_total_size
            (ipc_creat ∷ []))

    last_attach-Attached :
        (w : k.World)
        → IsCleanNow w
        → (status_key (env s.asked.keyfile) number_of_instance == key_error) ≡ false
        → Attached k buffer put sem_open fits
            (env s.asked.keyfile)
            l
            buffer-put
            number_of_instance
            (last_attach w)
    last_attach-Attached w clean good =
        elim (status_attach-Attached k buffer put sem_open fits (env s.asked.keyfile) l buffer-put w
          number_of_instance s.area
          (subst
            (λ i.
              FindsClean k buffer put sem_open fits (env s.asked.keyfile) l buffer-put i (
                k.shmget w (status_key (env s.asked.keyfile) i) status_total_size (ipc_creat ∷ [])))
            (sym twice) clean)) [
              | inl bad ↦
                  absurd (
                    no_key
                      (subst (λ i. status_key (env s.asked.keyfile) i ≡ key_error) twice bad.0))
              | inr fine ↦
                  subst
                    (λ i.
                      Attached k buffer put sem_open fits (env s.asked.keyfile) l buffer-put i
                        (last_attach w))
                    twice fine.1
            ]
      where
        twice :
            bit_and (bit_and (int_pattern s.asked.instance_id) 0x3f) 0x3f
            ≡ bit_and (int_pattern s.asked.instance_id) 0x3f
        twice = masked_twice (int_pattern s.asked.instance_id)

        no_key :
            status_key (env s.asked.keyfile) (bit_and (int_pattern s.asked.instance_id) 0x3f)
            ≢ key_error
        no_key e = cc (good, (==_iff _ _).1 e)

    -- If hputi4 and hgeti4 keep what `IsFits` says, the bytes that the tool attaches to have no END
    -- record or are a header with room for one more record, and the tool, not given -S, ends with 0
    -- after its options, then the status buffer that it attached to has an END record and this
    -- instance's number modulo 64, whether it was cleared or not.
    pub finish-IsReady :
        s.asked.show_shmkey ≡ false
        → IsCleanNow searched.1
        → (finish k buffer put sem_open fits env getvalue s).0 ≡ 0
        → IsReady fits l number_of_instance (
            buffer
              (finish k buffer put sem_open fits env getvalue s).1
              (last_attach searched.1).1.buf)
    unfolding finish get_status_buffer
    finish-IsReady shown clean e = elim (subst Ends (sym past_shmkey) (all searched refl)) [
      | inl bad ↦ absurd (bad e)
      | inr good ↦ good
    ]
      where
        Ends : ℕ × k.World → Type 0
        Ends = EndsReady number_of_instance (last_attach searched.1).1.buf

        small : number_of_instance < 64
        small = omega (arith, bit_and_mask 6 (int_pattern s.asked.instance_id))

        ending : Shell k → ℕ × k.World
        ending s' =
            show_or_clear k buffer put sem_open fits env getvalue
              (get_status_buffer k buffer put sem_open fits env s')

        past_shmkey :
            finish k buffer put sem_open fits env getvalue s ≡ or_refuse k s ending searched
        past_shmkey = ap (λ b. if b then (0, s.world) else or_refuse k s ending searched) shown

        all :
            (r : Bool × k.World)
            → searched ≡ r
            → EndsReady number_of_instance (last_attach r.1).1.buf (or_refuse k s ending r)
        all (false, w) q = inl (λ e. omega (arith, e))
        all (true, w) q =
            or_exit_1-EndsReady (record s { world = w }) getvalue number_of_instance (last_attach w)
              small
              (last_attach-Attached w (subst (λ o. IsCleanNow o.1) q clean) (
                exists-key (env s.asked.keyfile) s.world (int_pattern s.asked.instance_id)
                  (ap (λ r. r.0) q)))
