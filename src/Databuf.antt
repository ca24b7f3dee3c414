-- ===== src/Databuf.antt =====
-- hashpipe_databuf.c: a ring of data blocks in a shared segment, with one semaphore for each block
-- (0: the block is free, above 0: it is filled). The calls of the kernel are the parameter `Ipc`.
-- Messages (hashpipe_error, hashpipe_info, perror) are left out: they change no state.
pub mod Locks
pub mod Blocks
pub mod Spin
pub mod Handshake
pub mod Mask
pub mod Totals
pub mod Create
pub mod Layout
use hashpipe.Base.{ℕ, zero, suc, ◌+◌, ◌-◌, ◌*◌, ◌%◌, ◌^◌, ◌==◌, ltb, if◌then◌else◌, not, ◌||◌, ◌&&◌}
use hashpipe.Base.{Bool, true, false, Option, none, some, List, [], ◌∷◌, length, get_or, replicate}
use hashpipe.Base.{ℤ, pos, negsuc, bit_or, minus_one}
use hashpipe.Ipc.{Errno, eexist, enomem, eagain, eintr, Answer, ok, err, SemBuf, Timespec, ShmFlag}
use hashpipe.Ipc.{ipc_creat, ipc_excl, shm_hugetlb, shm_huge_1gb, shm_huge_2mb, Header, Ipc}
use hashpipe.Ipc.{databuf_bytes}
use hashpipe.IpcKey.{Env, key_error, databuf_key}

-- The codes of hashpipe_error.h that the calls return.
pub data Status : Type 0 where
  hashpipe_ok hashpipe_timeout hashpipe_err_gen hashpipe_err_sys : Status

-- `size_t` arithmetic
abbrev pub size_t : ℕ → ℕ
size_t n = n % 2 ^ 64

-- `total_size + ((-total_size) % (1 << shift))`
unfoldable pub page_align : ℕ → ℕ → ℕ
page_align shift total = size_t (total + (2 ^ 64 - total) % 2 ^ 64 % 2 ^ shift)

-- `header_size + block_size*n_block`
unfoldable pub total_size : ℕ → ℕ → ℕ → ℕ
total_size header_size block_size n_block = size_t (header_size + block_size * n_block)

-- `key + databuf_id - 1`, as 32-bit patterns
unfoldable pub segment_key : ℕ → ℕ → ℕ
segment_key key databuf_id = (key + databuf_id + 2 ^ 32 - 1) % 2 ^ 32

module _ (k : Ipc) where
  -- The state of `hashpipe_databuf_create` after its calls of shmget(2).
  pub record Segment : Type 0 where
    pub shmid : Answer ℕ
    pub newly_created : Bool
    pub verify_sizing : Bool
    pub world : k.World

  -- A segment without huge pages, or none.
  unfoldable pub get_plain : k.World → ℕ → ℕ → Segment
  get_plain w key total =
      let (r, w') = k.shmget w key total (ipc_creat ∷ ipc_excl ∷ []) in
      elim r [
        | ok i ↦ record { shmid = ok i; newly_created = true; verify_sizing = false; world = w' }
        | err e ↦ record { shmid = err e; newly_created = false; verify_sizing = false; world = w' }
      ]

  -- 2 MB pages, and on ENOMEM none.
  unfoldable pub get_2mb : k.World → ℕ → ℕ → Segment
  unfolding get_plain
  get_2mb w key total =
      let (r, w') =
        k.shmget w key (page_align 21 total)
          (ipc_creat ∷ ipc_excl ∷ shm_hugetlb ∷ shm_huge_2mb ∷ []) in
      elim r [
        | ok i ↦ record { shmid = ok i; newly_created = true; verify_sizing = false; world = w' }
        | err enomem ↦ get_plain w' key total
        | err e ↦ record { shmid = err e; newly_created = false; verify_sizing = false; world = w' }
      ]

  -- An existing segment, of at least `total` bytes.
  unfoldable pub get_existing : k.World → ℕ → ℕ → Segment
  get_existing w key total =
      let (r, w') = k.shmget w key total [] in
      record { shmid = r; newly_created = false; verify_sizing = true; world = w' }

  -- 1 GB pages; an existing segment; 2 MB pages; no huge pages.
  unfoldable pub get_segment : k.World → ℕ → ℕ → Segment
  unfolding get_2mb get_existing
  get_segment w key total =
      let (r, w') =
        k.shmget w key (page_align 30 total)
          (ipc_creat ∷ ipc_excl ∷ shm_hugetlb ∷ shm_huge_1gb ∷ []) in
      elim r [
        | ok i ↦ record { shmid = ok i; newly_created = true; verify_sizing = false; world = w' }
        | err eexist ↦ get_existing w' key total
        | err enomem ↦ get_2mb w' key total
        | err e ↦ record { shmid = err e; newly_created = false; verify_sizing = false; world = w' }
      ]

  -- The sizes of an existing segment differ from the requested ones.
  abbrev pub size_mismatch : Header → ℕ → ℕ → ℕ → Bool
  size_mismatch h header_size block_size n_block =
      not (h.header_size == header_size)
      || not (h.block_size == block_size)
      || not (h.n_block == n_block)

  -- After semctl(2) with SETALL.
  unfoldable pub after_setall : ℕ → Answer (Unit {0}) × k.World → Option ℕ × k.World
  after_setall d (ok _, w) = (some d, w)
  after_setall d (err e, w) = (none, w)

  -- After semget(2): its answer goes to `semid`, -1 included, and the semaphores are set to 0.
  unfoldable pub after_semget : ℕ → ℕ → Answer ℕ × k.World → Option ℕ × k.World
  unfolding after_setall
  after_semget d n_block (err e, w) =
      (none, k.store w d (record (k.header w d) { semid = minus_one }))
  after_semget d n_block (ok s, w) = after_setall d (
      k.setall (k.store w d (record (k.header w d) { semid = pos s })) (pos s)
        (replicate n_block 0))

  -- A new segment is zeroed and its header filled in.
  unfoldable pub fill_header : k.World → ℕ → ℕ → ℕ → ℕ → ℕ → k.World
  fill_header w d i header_size block_size n_block =
      let w' = k.clear w d (total_size header_size block_size n_block) in
      k.store w' d (record (k.header w' d) {
        data_type = "unknown";
        header_size = header_size;
        block_size = block_size;
        n_block = n_block;
        shmid = pos i;
        semid = pos 0;
      })

  -- What a call of `hashpipe_databuf_create` asks for.
  pub record Request : Type 0 where
    pub key : ℕ
    pub header_size : ℕ
    pub block_size : ℕ
    pub n_block : ℕ

  -- After shmctl(2) with SHM_LOCK: only a new segment is filled in.
  unfoldable pub after_lock :
      Bool → ℕ → ℕ → Request → Answer (Unit {0}) × k.World → Option ℕ × k.World
  unfolding after_semget fill_header
  after_lock newly_created i d q (err e, w) = (none, w)
  after_lock newly_created i d q (ok _, w) =
      let w' =
        if newly_created then fill_header w d i q.header_size q.block_size q.n_block else w in
      after_semget d q.n_block (k.semget w' q.key q.n_block)

  -- After shmat(2): an existing segment must have the requested sizes.
  unfoldable pub after_attach : Bool → Bool → ℕ → Request → Answer ℕ × k.World → Option ℕ × k.World
  unfolding after_lock
  after_attach newly_created verify_sizing i q (err e, w) = (none, w)
  after_attach newly_created verify_sizing i q (ok d, w) =
      if verify_sizing && size_mismatch (k.header w d) q.header_size q.block_size q.n_block
      then (none, (k.shmdt w d).1)
      else after_lock newly_created i d q (k.shm_lock w i)

  -- After the calls of shmget(2).
  unfoldable pub after_segment : Request → Segment → Option ℕ × k.World
  unfolding after_attach
  after_segment q seg = elim seg.shmid [
    | err e ↦ (none, seg.world)
    | ok i ↦ after_attach seg.newly_created seg.verify_sizing i q (k.shmat seg.world i)
  ]

  module _ (env : Env) where
    -- `none` is NULL.
    unfoldable pub create : k.World → ℕ → ℕ → ℕ → ℕ → ℕ → Option ℕ × k.World
    unfolding get_segment after_segment
    create w instance_id databuf_id header_size block_size n_block =
        if ltb header_size databuf_bytes
        then (none, w)
        else if databuf_key env instance_id == key_error
        then (none, w)
        else (let key = segment_key (databuf_key env instance_id) databuf_id in
            after_segment
              (record {
                key = key;
                header_size = header_size;
                block_size = block_size;
                n_block = n_block;
              })
              (get_segment w key (total_size header_size block_size n_block)))

    -- An existing buffer, whatever its sizes.
    unfoldable pub attach : k.World → ℕ → ℕ → Option ℕ × k.World
    attach w instance_id databuf_id =
        if databuf_key env instance_id == key_error
        then (none, w)
        else (let (r, w1) =
              k.shmget w (segment_key (databuf_key env instance_id) databuf_id) 0 [] in
            elim r [
              | err e ↦ (none, w1)
              | ok i ↦
                  (let (q, w2) = k.shmat w1 i in
                    elim q [ err e ↦ (none, w2) | ok d ↦ (some d, w2) ])
            ])

  -- NULL is accepted.
  unfoldable pub detach : k.World → Option ℕ → Status × k.World
  detach w none = (hashpipe_ok, w)
  detach w (some d) =
      let (r, w') = k.shmdt w d in
      elim r [ ok _ ↦ (hashpipe_ok, w') | err e ↦ (hashpipe_err_sys, w') ]

  -- All semaphores to 0; the answer of semctl(2) is not looked at.
  unfoldable pub clear : k.World → ℕ → k.World
  clear w d = (k.setall w (k.header w d).semid (replicate (k.header w d).n_block 0)).1

  -- The address of a block's data.
  unfoldable pub data_address : k.World → ℕ → ℕ → ℕ
  data_address w d block_id =
      size_t (d + (k.header w d).header_size + (k.header w d).block_size * block_id)
