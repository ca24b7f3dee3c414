-- ===== src/Ipc.antt =====
-- The kernel's System V IPC calls (shmget(2), shmat(2), shmctl(2), semget(2), semctl(2), semop(2)),
-- which databuf.c and status.c call and do not implement. They are the parameter `Ipc`; what the
-- manual pages promise, as far as the code relies on it, is the record `IsIpc`.
pub mod Table
use hashpipe.Base.{update}
use hashpipe.Base.{ℕ, suc, ◌+◌, ◌-◌, ◌<◌, ◌≡◌, ◌==◌, leb, if◌then◌else◌, Bool, true, false}
use hashpipe.Base.{Option, none, some, List, [], ◌∷◌, length, get_or, ℤ, pos, negsuc}
use Prim.Native.String.{String}

-- The values of `errno` that the code tests, and any other.
pub data Errno : Type 0 where
  eexist enoent enomem eagain eintr einval : Errno
  errno : ℕ → Errno

-- A call succeeds with a value, or returns -1 and sets `errno`.
pub data Answer {ℓ} (A : Type ℓ) : Type ℓ where
  ok : A → Answer A
  err : Errno → Answer A

-- `struct sembuf`; `nowait` is IPC_NOWAIT in `sem_flg`.
pub record SemBuf : Type 0 where
  pub sem_num : ℕ
  pub sem_op : ℤ
  pub nowait : Bool

pub record Timespec : Type 0 where
  pub tv_sec : ℕ
  pub tv_nsec : ℕ

-- Flags of shmget(2), beside the mode 0666.
pub data ShmFlag : Type 0 where
  ipc_creat ipc_excl shm_hugetlb shm_huge_1gb shm_huge_2mb : ShmFlag

-- `hashpipe_databuf_t`, the head of a data buffer's segment. An identifier is an `int`: -1 is what
-- a failed semget(2) leaves in `semid`.
pub record Header : Type 0 where
  pub data_type : String
  pub header_size : ℕ
  pub block_size : ℕ
  pub n_block : ℕ
  pub shmid : ℤ
  pub semid : ℤ

-- sizeof(hashpipe_databuf_t): 64 + 8 + 8 + 4 + 4 + 4, rounded up to a multiple of 8
abbrev pub databuf_bytes : ℕ
databuf_bytes = 96

-- semop(2), one operation on a value: a positive one adds, zero waits for zero, a negative one
-- waits until its size can be subtracted. `none`: it cannot proceed now.
abbrev pub apply_op : ℕ → ℤ → Option ℕ
apply_op v (pos n) = if n == 0 then (if v == 0 then some 0 else none) else some (v + n)
apply_op v (negsuc n) = if leb (suc n) v then some (v - suc n) else none

-- semop(2), an array of operations: performed in order, all or none.
abbrev pub apply_ops : (ℕ → ℕ) → List SemBuf → Option (ℕ → ℕ)
apply_ops vals [] = some vals
apply_ops vals (b ∷ bs) = elim (apply_op (vals b.sem_num) b.sem_op) [
  | none ↦ none
  | some v ↦ apply_ops (update vals b.sem_num v) bs
]

-- The calls over a kernel state. A blocking call is given the state of the moment at which it
-- completes. `header w a` reads, and `store` and `clear` write, the segment attached at `a`.
pub record Ipc : Type 1 where
  pub World : Type 0
  pub shmget : World → ℕ → ℕ → List ShmFlag → Answer ℕ × World
  pub shmat : World → ℕ → Answer ℕ × World
  pub shmdt : World → ℕ → Answer (Unit {0}) × World
  pub shm_lock : World → ℕ → Answer (Unit {0}) × World
  pub shm_rmid : World → ℤ → Answer (Unit {0}) × World
  pub header : World → ℕ → Header
  pub store : World → ℕ → Header → World
  pub clear : World → ℕ → ℕ → World
  pub semget : World → ℕ → ℕ → Answer ℕ × World
  pub sem_rmid : World → ℤ → Answer (Unit {0}) × World
  pub value : World → ℤ → ℕ → ℕ
  pub semtimedop : World → ℤ → List SemBuf → Option Timespec → Answer (Unit {0}) × World
  pub setval : World → ℤ → ℕ → ℕ → Answer (Unit {0}) × World
  pub setall : World → ℤ → List ℕ → Answer (Unit {0}) × World
  pub getval : World → ℤ → ℕ → Answer ℕ
  pub getall : World → ℤ → ℕ → Answer (List ℕ)

-- What the manual pages say of them.
pub record IsIpc (k : Ipc) : Type 0 where
  pub header-store : (w : k.World) (a : ℕ) (h : Header) → k.header (k.store w a h) a ≡ h
  pub header-semget : (w : k.World) (a key n : ℕ) → k.header (k.semget w key n).1 a ≡ k.header w a
  pub header-setall :
      (w : k.World) (a : ℕ) (s : ℤ) (vs : List ℕ) → k.header (k.setall w s vs).1 a ≡ k.header w a
  pub header-shm_lock : (w : k.World) (a i : ℕ) → k.header (k.shm_lock w i).1 a ≡ k.header w a
  pub header-semtimedop :
      (w : k.World) (a : ℕ) (s : ℤ) (ops : List SemBuf) (t : Option Timespec)
      → k.header (k.semtimedop w s ops t).1 a ≡ k.header w a
  pub header-setval :
      (w : k.World) (a : ℕ) (s : ℤ) (i v : ℕ) → k.header (k.setval w s i v).1 a ≡ k.header w a
  pub value-semtimedop :
      (w : k.World) (s : ℤ) (ops : List SemBuf) (t : Option Timespec)
      → (k.semtimedop w s ops t).0 ≡ ok tt
      → apply_ops (k.value w s) ops ≡ some (k.value (k.semtimedop w s ops t).1 s)
  pub value-semtimedop_err :
      (w : k.World) (s : ℤ) (ops : List SemBuf) (t : Option Timespec) (e : Errno)
      → (k.semtimedop w s ops t).0 ≡ err e
      → (j : ℕ) → k.value (k.semtimedop w s ops t).1 s j ≡ k.value w s j
  pub semtimedop-eagain :
      (w : k.World) (s : ℤ) (ops : List SemBuf) (t : Option Timespec)
      → (k.semtimedop w s ops t).0 ≡ err eagain
      → apply_ops (k.value w s) ops ≡ none
  pub value-setval :
      (w : k.World) (s : ℤ) (i v j : ℕ)
      → (k.setval w s i v).0 ≡ ok tt
      → k.value (k.setval w s i v).1 s j ≡ update (k.value w s) i v j
  pub value-setval_err :
      (w : k.World) (s : ℤ) (i v j : ℕ) (e : Errno)
      → (k.setval w s i v).0 ≡ err e
      → k.value (k.setval w s i v).1 s j ≡ k.value w s j
  pub value-setall :
      (w : k.World) (s : ℤ) (vs : List ℕ) (j : ℕ)
      → (k.setall w s vs).0 ≡ ok tt
      → j < length vs
      → k.value (k.setall w s vs).1 s j ≡ get_or vs j 0
  pub getval-value : (w : k.World) (s : ℤ) (i v : ℕ) → k.getval w s i ≡ ok v → v ≡ k.value w s i
  pub getall-value :
      (w : k.World) (s : ℤ) (n : ℕ) (vs : List ℕ) (j : ℕ)
      → k.getall w s n ≡ ok vs
      → j < n
      → get_or vs j 0 ≡ k.value w s j
  pub length-getall :
      (w : k.World) (s : ℤ) (n : ℕ) (vs : List ℕ) → k.getall w s n ≡ ok vs → length vs ≡ n
