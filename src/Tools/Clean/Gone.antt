-- ===== src/Tools/Clean/Gone.antt =====
-- What is left of an instance.
use hashpipe.Base.{
  ℕ, zero, suc, ◌+◌, ◌≤◌, ◌<◌, ◌≡◌, refl, ap, ◌∙◌, subst, arith, ◌==◌, inl, inr, ◌⊎◌, Bool-cases,
}
use hashpipe.Base.{false, Option, none, some, [], ℤ, pos, eq_ℤ}
use hashpipe.Ipc.{Errno, Answer, ok, err, Ipc}
use hashpipe.IpcKey.{Env, key_error, databuf_key}
use hashpipe.Databuf.{segment_key, attach}
use hashpipe.Tools.Clean.{Ended, or_1, remove_sems, remove_segment, remove_buffer, remove_buffers}

module _ (k : Ipc) where
  -- A key has a segment, or none, as shmget(2) finds without flags.
  abbrev pub Found : k.World → ℕ → ℕ → Type 0
  Found w key i = (k.shmget w key 0 []).0 ≡ ok i

  pub record IsAbsent (w : k.World) (key : ℕ) : Type 0 where
    pub errno : Errno
    pub answer : (k.shmget w key 0 []).0 ≡ err errno

  -- What the manual pages say of the removal of segments: a search or an attachment makes none, a
  -- removed one is not found again, and the semaphores are something else.
  pub record IsRemoving : Type 0 where
    pub absent-shmget :
        (w : k.World) (key key' : ℕ) → IsAbsent w key → IsAbsent (k.shmget w key' 0 []).1 key
    pub absent-shmat : (w : k.World) (key i : ℕ) → IsAbsent w key → IsAbsent (k.shmat w i).1 key
    pub absent-shm_rmid :
        (w : k.World) (key : ℕ) (s : ℤ) → IsAbsent w key → IsAbsent (k.shm_rmid w s).1 key
    pub absent-sem_rmid :
        (w : k.World) (key : ℕ) (s : ℤ) → IsAbsent w key → IsAbsent (k.sem_rmid w s).1 key
    pub found-shmget :
        (w : k.World) (key i : ℕ) → Found w key i → Found (k.shmget w key 0 []).1 key i
    pub found-shmat : (w : k.World) (key i : ℕ) → Found w key i → Found (k.shmat w i).1 key i
    pub found-sem_rmid :
        (w : k.World) (key i : ℕ) (s : ℤ) → Found w key i → Found (k.sem_rmid w s).1 key i
    pub header-sem_rmid :
        (w : k.World) (a : ℕ) (s : ℤ) → k.header (k.sem_rmid w s).1 a ≡ k.header w a
    pub removed :
        (w : k.World) (key i : ℕ)
        → Found w key i
        → (k.shm_rmid w (pos i)).0 ≡ ok tt
        → IsAbsent (k.shm_rmid w (pos i)).1 key

  -- A segment that has the key can be attached to, and has its own identifier in its header, where
  -- hashpipe_databuf_create puts it.
  abbrev pub IsAttachable : ℕ → Type 0
  IsAttachable key =
      (w : k.World)
      → (i : ℕ) → Found w key i
      → (d : ℕ) × ((k.shmat w i).0 ≡ ok d) × ((k.header (k.shmat w i).1 d).shmid ≡ pos i)

  or_1-world : (ex : ℕ) (r : Answer (Unit {0}) × k.World) → (or_1 k ex r).1 ≡ r.1
  unfolding or_1
  or_1-world ex (ok _, w) = refl
  or_1-world ex (err e, w) = refl

  or_1-ok :
      (ex : ℕ) (r : Answer (Unit {0}) × k.World) → (or_1 k ex r).0 ≡ 0 → (ex ≡ 0) × (r.0 ≡ ok tt)
  unfolding or_1
  or_1-ok ex (ok tt, w) e = (e, refl)
  or_1-ok ex (err x, w) e = absurd (omega (arith, e))

  -- A property that every removal of semaphores keeps.
  remove_sems-keeps :
      (P : k.World → Type 0)
      → ((w : k.World) (s : ℤ) → P w → P (k.sem_rmid w s).1)
      → (ex : ℕ) (w : k.World) (d : ℕ) → P w
      → P (remove_sems k ex w d).1
  unfolding remove_sems
  remove_sems-keeps P keeps ex w d p = elim (Bool-cases (eq_ℤ (k.header w d).semid (pos 0))) [
    | inl none_there ↦ rw (remove_sems, none_there) p
    | inr there ↦
        rw (remove_sems, there, or_1-world ex (k.sem_rmid w (k.header w d).semid)) (keeps w _ p)
  ]

  remove_sems-0 : (ex : ℕ) (w : k.World) (d : ℕ) → (remove_sems k ex w d).0 ≡ 0 → ex ≡ 0
  unfolding remove_sems
  remove_sems-0 ex w d = elim (Bool-cases (eq_ℤ (k.header w d).semid (pos 0))) [
    | inl none_there ↦ rw (remove_sems, none_there) (λ e. e)
    | inr there ↦
        rw (remove_sems, there) (λ e. (or_1-ok ex (k.sem_rmid w (k.header w d).semid) e).0)
  ]

  module _ (l : IsRemoving) where
    -- What stays gone.
    remove_buffer-IsAbsent :
        (ex key : ℕ) (r : Option ℕ × k.World)
        → IsAbsent r.1 key
        → IsAbsent (remove_buffer k ex r).1 key
    unfolding remove_buffer remove_segment
    remove_buffer-IsAbsent ex key (none, w) a = a
    remove_buffer-IsAbsent ex key (some d, w) a =
        rw
          (
            remove_buffer,
            remove_segment,
            or_1-world _
                (k.shm_rmid (remove_sems k ex w d).1 (k.header (remove_sems k ex w d).1 d).shmid),
          )
          (l.absent-shm_rmid _ key _
            (remove_sems-keeps (λ x. IsAbsent x key) (λ x s. l.absent-sem_rmid x key s) ex w d a))

    remove_buffer-0 : (ex : ℕ) (r : Option ℕ × k.World) → (remove_buffer k ex r).0 ≡ 0 → ex ≡ 0
    unfolding remove_buffer remove_segment
    remove_buffer-0 ex (none, w) e = e
    remove_buffer-0 ex (some d, w) e =
        remove_sems-0 ex w d
          (or_1-ok _
            (k.shm_rmid (remove_sems k ex w d).1 (k.header (remove_sems k ex w d).1 d).shmid) e).0

    -- A segment that is attached and removed.
    remove_buffer-gone :
        (ex : ℕ) (w : k.World) (d key i : ℕ)
        → Found w key i
        → (k.header w d).shmid ≡ pos i
        → (remove_buffer k ex (some d, w)).0 ≡ 0
        → IsAbsent (remove_buffer k ex (some d, w)).1 key
    unfolding remove_buffer remove_segment
    remove_buffer-gone ex w d key i there label e =
        let w' = (remove_sems k ex w d).1 in
        let ex' = (remove_sems k ex w d).0 in
        let kept : Found w' key i =
          remove_sems-keeps (λ x. Found x key i) (λ x s. l.found-sem_rmid x key i s) ex w d there in
        let same : (k.header w' d).shmid ≡ pos i =
          remove_sems-keeps (λ x. (k.header x d).shmid ≡ pos i)
            (λ x s p. ap (λ h. h.shmid) (l.header-sem_rmid x d s) ∙ p) ex w d label in
        let done = (or_1-ok ex' (k.shm_rmid w' (k.header w' d).shmid) e).1 in
        rw
          (
            remove_buffer,
            remove_segment,
            or_1-world ex' (k.shm_rmid w' (k.header w' d).shmid),
            same,
          )
          (l.removed w' key i kept (subst (λ s. (k.shm_rmid w' s).0 ≡ ok tt) same done))

    module _ (env : Env) (id : ℕ) where
      -- The segment's key of a data buffer.
      abbrev pub key_of : ℕ → ℕ
      key_of i = segment_key (databuf_key env id) i

      attach-IsAbsent :
          (w : k.World) (i key : ℕ) → IsAbsent w key → IsAbsent (attach k env w id i).1 key
      unfolding attach
      attach-IsAbsent w i key a = elim (Bool-cases (databuf_key env id == key_error)) [
        | inl no_key ↦ rw (attach, no_key) a
        | inr a_key ↦ rw (attach, a_key) (go (k.shmget w (key_of i) 0 []).0)
      ]
        where
          w1 : k.World
          w1 = (k.shmget w (key_of i) 0 []).1

          after :
              (q : Answer ℕ × k.World)
              → IsAbsent q.1 key
              → IsAbsent
                  (elim q.0 as (λ _. Option ℕ × k.World) [
                    | err e ↦ (none, q.1)
                    | ok d ↦ (some d, q.1)
                  ]).1
                  key
          after (ok d, w) a = a
          after (err e, w) a = a

          go :
              (r : Answer ℕ)
              → IsAbsent
                  (elim r as (λ _. Option ℕ × k.World) [
                    | err e ↦ (none, w1)
                    | ok s ↦ (elim (k.shmat w1 s).0 as (λ _. Option ℕ × k.World) [
                      | err e ↦ (none, (k.shmat w1 s).1)
                      | ok d ↦ (some d, (k.shmat w1 s).1)
                    ])
                  ]).1
                  key
          go (err e) = l.absent-shmget w key (key_of i) a
          go (ok s) =
              after (k.shmat w1 s) (l.absent-shmat w1 key s (l.absent-shmget w key (key_of i) a))

      -- One round of the loop: if the code is still 0, the segment is gone.
      round-gone :
          (ex : ℕ) (w : k.World) (i : ℕ)
          → IsAttachable (key_of i)
          → (databuf_key env id == key_error) ≡ false
          → (remove_buffer k ex (attach k env w id i)).0 ≡ 0
          → IsAbsent (remove_buffer k ex (attach k env w id i)).1 (key_of i)
      unfolding attach
      round-gone ex w i can a_key = rw (attach, a_key) (go (k.shmget w (key_of i) 0 []).0 refl)
        where
          w1 : k.World
          w1 = (k.shmget w (key_of i) 0 []).1

          there : (s : ℕ) → Found w (key_of i) s → Found w1 (key_of i) s
          there s f = l.found-shmget w (key_of i) s f

          Goal : Answer ℕ → Type 0
          Goal r =
              let o = elim r as (λ _. Option ℕ × k.World) [
                | err e ↦ (none, w1)
                | ok s ↦ (elim (k.shmat w1 s).0 as (λ _. Option ℕ × k.World) [
                  | err e ↦ (none, (k.shmat w1 s).1)
                  | ok d ↦ (some d, (k.shmat w1 s).1)
                ])
              ] in
              (remove_buffer k ex o).0 ≡ 0 → IsAbsent (remove_buffer k ex o).1 (key_of i)

          go : (r : Answer ℕ) → (k.shmget w (key_of i) 0 []).0 ≡ r → Goal r
          go (err e) q = λ z.
              remove_buffer-IsAbsent ex (key_of i) (none, w1)
                (l.absent-shmget w (key_of i) (key_of i) record { errno = e; answer = q })
          go (ok s) q =
              let (d, at, label) = can w1 s (there s q) in
              rw (at) (
                remove_buffer-gone ex (k.shmat w1 s).1 d (key_of i) s
                  (l.found-shmat w1 (key_of i) s (there s q)) label)

      -- The loop.
      loop-0 : (n i : ℕ) (r : Ended k) → (remove_buffers k env id n i r).0 ≡ 0 → r.0 ≡ 0
      unfolding remove_buffers
      loop-0 zero i r e = e
      loop-0 (suc n) i (ex, w) e = remove_buffer-0 ex (attach k env w id i) (loop-0 n (i + 1) _ e)

      loop-IsAbsent :
          (n i key : ℕ) (r : Ended k)
          → IsAbsent r.1 key
          → IsAbsent (remove_buffers k env id n i r).1 key
      unfolding remove_buffers
      loop-IsAbsent zero i key r a = a
      loop-IsAbsent (suc n) i key (ex, w) a =
          loop-IsAbsent n (i + 1) key _
            (remove_buffer-IsAbsent ex key (attach k env w id i) (attach-IsAbsent w i key a))

      pub loop-gone :
          (n i : ℕ) (r : Ended k)
          → ((j : ℕ) → i ≤ j → j < i + n → IsAttachable (key_of j))
          → (databuf_key env id == key_error) ≡ false
          → (remove_buffers k env id n i r).0 ≡ 0
          → (j : ℕ) → i ≤ j
          → j < i + n
          → IsAbsent (remove_buffers k env id n i r).1 (key_of j)
      unfolding remove_buffers
      loop-gone zero i r can a_key e j le lt = absurd (omega (arith, le, lt))
      loop-gone (suc n) i (ex, w) can a_key e j le lt = elim (first_or_later i j le) [
        | inl now ↦
            subst (λ x. IsAbsent (remove_buffers k env id (suc n) i (ex, w)).1 (key_of x)) now
              (loop-IsAbsent n (i + 1) (key_of i) _ (
                round-gone ex w i (can i (omega arith) (omega arith)) a_key (loop-0 n (i + 1) _ e)))
        | inr later ↦
            loop-gone n (i + 1) _ (λ m a b. can m (omega arith) (omega arith)) a_key e j later
              (omega (arith, lt))
      ]
        where
          first_or_later : (i j : ℕ) → i ≤ j → (i ≡ j) ⊎ (i + 1 ≤ j)
          first_or_later i j l = ground (arith, l)

      pub attach-none :
          (w : k.World) (j : ℕ)
          → ((databuf_key env id == key_error) ≡ false → IsAbsent w (key_of j))
          → (attach k env w id j).0 ≡ none
      unfolding attach
      attach-none w j a = elim (Bool-cases (databuf_key env id == key_error)) [
        | inl no_key ↦ rw (attach, no_key) refl
        | inr a_key ↦ rw (attach, a_key, (a a_key).answer) refl
      ]
