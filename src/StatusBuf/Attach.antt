-- ===== src/StatusBuf/Attach.antt =====
-- hashpipe_status_exists, hashpipe_status_attach and hashpipe_status_detach.
use hashpipe.Base.{
  ℕ, ◌-◌, ◌^◌, ◌≡◌, ◌≢◌, ◌⊎◌, inl, inr, ◌==◌, if◌then◌else◌, not, bit_and, bit_and_mask, ◌<◌, arith,
}
use hashpipe.Base.{
  Bool, true, false, Option, none, some, List, [], ◌∷◌, ℤ, pos, minus_one, subst, sym, refl,
  Bool-cases, ==_iff,
}
use hashpipe.Ipc.{Answer, ok, err, ipc_creat, Ipc}
use hashpipe.IpcKey.{Env, key_error, status_key}
use hashpipe.Databuf.{Status, hashpipe_ok, hashpipe_err_sys}
use hashpipe.StatusBuf.{status_total_size, semname, Buffer, Fits, chkinit}
use hashpipe.StatusBuf.Chkinit.{IsFits, IsReady, IsClean, chkinit-IsReady}

-- `hashpipe_status_t`: `buf` is an address, 0 for NULL; `lock` is `none` for SEM_FAILED.
pub record StatusArea : Type 0 where
  pub instance_id : ℕ
  pub shmid : ℤ
  pub lock : Option ℕ
  pub buf : ℕ

abbrev pub name_max : ℕ
name_max = 255

-- What shmat(2) returns on failure, (void *)-1.
abbrev pub no_address : ℕ
no_address = 2 ^ 64 - 1

-- The bytes at an address of the kernel's state, and sem_open(3), which makes the semaphore with
-- the value 1 if there is none (`none`: it failed).
module _ (k : Ipc) (buffer : k.World → ℕ → Buffer) (put : k.World → ℕ → Buffer → k.World)
    (sem_open : k.World → List ℕ → Option ℕ × k.World) (fits : Fits) (env : Env) where
  unfoldable pub exists_answer : Answer ℕ × k.World → Bool × k.World
  exists_answer (ok i, w') = (true, w')
  exists_answer (err e, w') = (false, w')

  unfoldable pub exists : k.World → ℕ → Bool × k.World
  unfolding exists_answer
  exists w instance_id =
      let id = bit_and instance_id 0x3f in
      if status_key env id == key_error
      then (false, w)
      else exists_answer (k.shmget w (status_key env id) status_total_size [])

  unfoldable pub after_sem_open : StatusArea → Option ℕ × k.World → Status × StatusArea × k.World
  after_sem_open s (none, w) = (hashpipe_err_sys, record s { lock = none }, w)
  after_sem_open s (some l, w) = (
    hashpipe_ok,
    record s { lock = some l },
    put w s.buf (chkinit fits s.instance_id (buffer w s.buf)),
  )

  unfoldable pub after_shmat : StatusArea → Answer ℕ × k.World → Status × StatusArea × k.World
  unfolding after_sem_open
  after_shmat s (err e, w) = (hashpipe_err_sys, record s { buf = no_address }, w)
  after_shmat s (ok a, w) =
      let (name, truncated) = semname env s.instance_id name_max in
      if not (truncated == 0)
      then (hashpipe_err_sys, record s { buf = a }, w)
      else after_sem_open (record s { buf = a }) (sem_open w name)

  unfoldable pub after_shmget : StatusArea → Answer ℕ × k.World → Status × StatusArea × k.World
  unfolding after_shmat
  after_shmget s (err e, w) = (hashpipe_err_sys, record s { shmid = minus_one }, w)
  after_shmget s (ok i, w) = after_shmat (record s { shmid = pos i }) (k.shmat w i)

  unfoldable pub status_attach : k.World → ℕ → StatusArea → Status × StatusArea × k.World
  unfolding after_shmget
  status_attach w instance_id s =
      let s' = record s { instance_id = bit_and instance_id 0x3f } in
      if status_key env s'.instance_id == key_error
      then (hashpipe_ok, s', w)
      else after_shmget s'
          (k.shmget w (status_key env s'.instance_id) status_total_size (ipc_creat ∷ []))

  unfoldable pub detached :
      StatusArea → Answer (Unit {0}) × k.World → Status × Option StatusArea × k.World
  detached s (ok _, w') = (hashpipe_ok, some (record s { buf = 0 }), w')
  detached s (err e, w') = (hashpipe_err_sys, some s, w')

  unfoldable pub status_detach : k.World → Option StatusArea → Status × Option StatusArea × k.World
  unfolding detached
  status_detach w none = (hashpipe_ok, none, w)
  status_detach w (some s) =
      if s.buf == 0 then (hashpipe_ok, some s, w) else detached s (k.shmdt w s.buf)

  module _ (l : IsFits fits)
      (buffer-put : (w : k.World) (a : ℕ) (b : Buffer) → buffer (put w a b) a ≡ b) where
    -- The bytes that the check finds behind a key, if it gets so far, are clean: after shmat(2), and
    -- after shmget(2).
    abbrev pub FoundClean : ℕ → Answer ℕ × k.World → Type 0
    FoundClean id (err e, w) = Unit
    FoundClean id (ok a, w) = IsClean (buffer (sem_open w (semname env id name_max).0).1 a)

    abbrev pub FindsClean : ℕ → Answer ℕ × k.World → Type 0
    FindsClean id (err e, w) = Unit
    FindsClean id (ok i, w) = FoundClean id (k.shmat w i)

    -- A result: an error, or an attached buffer that is in order.
    abbrev pub Attached : ℕ → Status × StatusArea × k.World → Type 0
    Attached id (hashpipe_ok, s, w) =
        (s.instance_id ≡ id) × (s.lock ≢ none) × IsReady fits l id (buffer w s.buf)
    Attached id (_, s, w) = Unit

    after_sem_open-Attached :
        (s : StatusArea) (r : Option ℕ × k.World)
        → s.instance_id < 64
        → IsClean (buffer r.1 s.buf)
        → Attached s.instance_id (after_sem_open s r)
    unfolding after_sem_open
    after_sem_open-Attached s (none, w) small clean = tt
    after_sem_open-Attached s (some x, w) small clean = (
      refl,
      λ e. cc,
      subst (λ b. IsReady fits l s.instance_id b) (sym (buffer-put w s.buf _))
          (chkinit-IsReady fits l s.instance_id (buffer w s.buf) small clean).0,
    )

    after_shmat-Attached :
        (s : StatusArea) (r : Answer ℕ × k.World)
        → s.instance_id < 64
        → FoundClean s.instance_id r
        → Attached s.instance_id (after_shmat s r)
    unfolding after_shmat
    after_shmat-Attached s (err e, w) small clean = tt
    after_shmat-Attached s (ok a, w) small clean =
        elim (Bool-cases ((semname env s.instance_id name_max).1 == 0)) [
          | inl whole ↦ rw whole (
              after_sem_open-Attached (record s { buf = a })
                (sem_open w (semname env s.instance_id name_max).0) small clean)
          | inr cut ↦ rw cut tt
        ]

    after_shmget-Attached :
        (s : StatusArea) (r : Answer ℕ × k.World)
        → s.instance_id < 64
        → FindsClean s.instance_id r
        → Attached s.instance_id (after_shmget s r)
    unfolding after_shmget
    after_shmget-Attached s (err e, w) small clean = tt
    after_shmget-Attached s (ok i, w) small clean =
        after_shmat-Attached (record s { shmid = pos i }) (k.shmat w i) small clean

    masked_small : (n : ℕ) → bit_and n 0x3f < 64
    masked_small n = omega (arith, bit_and_mask 6 n)

    -- If hputi4 and hgeti4 keep what `IsFits` says, the bytes that the attach finds have no END record or
    -- are a header with room for one more record, and it returns HASHPIPE_OK, then either there was
    -- no key, and nothing is attached, or the buffer is attached with a semaphore, and it has an END
    -- record and this instance's number modulo 64.
    pub status_attach-Attached :
        (w : k.World) (instance_id : ℕ) (s : StatusArea)
        → FindsClean (bit_and instance_id 0x3f) (
            k.shmget w
              (status_key env (bit_and instance_id 0x3f))
              status_total_size
              (ipc_creat ∷ []))
        → let id = bit_and instance_id 0x3f in
          ((status_key env id ≡ key_error)
            × (status_attach w instance_id s ≡ (hashpipe_ok, record s { instance_id = id }, w)))
          ⊎ ((status_key env id ≢ key_error) × Attached id (status_attach w instance_id s))
    unfolding status_attach
    status_attach-Attached w instance_id s clean =
        elim (Bool-cases (status_key env (bit_and instance_id 0x3f) == key_error)) [
          | inl no_key ↦ inl ((==_iff _ _).0 no_key, rw no_key refl)
          | inr key ↦ inr (
            λ e. cc (key, (==_iff _ _).1 e),
            rw key (
                after_shmget-Attached (record s { instance_id = bit_and instance_id 0x3f }) _
                  (masked_small instance_id) clean),
          )
        ]
