-- ===== src/Ipc/Table.antt =====
-- A small kernel that keeps the promises of `IsIpc`: a segment's key is its identifier and its
-- address, there are no huge pages, and a wait that cannot proceed times out at once.
use native.Mathlib.Nat.{zero-add}
use hashpipe.Base.{
  fun_ext, sym, ℕ, zero, suc, ◌+◌, ◌<◌, ◌≡◌, refl, arith, ◌==◌, ==_iff, if◌then◌else◌, Bool, true,
  false, ap,
}
use hashpipe.Base.{Option, none, some, List, [], ◌∷◌, length, get_or, ℤ, pos, negsuc, eq_ℤ, ◌∙◌}
use hashpipe.Ipc.{Errno, eexist, enoent, enomem, eagain, Answer, ok, err, SemBuf, ShmFlag}
use hashpipe.Base.{update}
use hashpipe.Ipc.{ipc_creat, ipc_excl, shm_hugetlb, Header, Ipc, IsIpc, apply_ops}

pub record Table : Type 0 where
  pub there : ℕ → Bool
  pub headers : ℕ → Header
  pub sems : ℤ → ℕ → ℕ

abbrev is_creat : List ShmFlag → Bool
is_creat [] = false
is_creat (ipc_creat ∷ fs) = true
is_creat (_ ∷ fs) = is_creat fs

abbrev is_excl : List ShmFlag → Bool
is_excl [] = false
is_excl (ipc_excl ∷ fs) = true
is_excl (_ ∷ fs) = is_excl fs

abbrev is_huge : List ShmFlag → Bool
is_huge [] = false
is_huge (shm_hugetlb ∷ fs) = true
is_huge (_ ∷ fs) = is_huge fs

abbrev shmget : Table → ℕ → List ShmFlag → Answer ℕ × Table
shmget w key fs =
    if w.there key
    then (if is_excl fs then (err eexist, w) else (ok key, w))
    else if is_creat fs
    then (if is_huge fs
        then (err enomem, w)
        else (ok key, record w { there = λ j. if key == j then true else w.there j }))
    else (err enoent, w)

abbrev store : Table → ℕ → Header → Table
store w a h = record w { headers = λ j. if a == j then h else w.headers j }

abbrev pub put_sems : Table → ℤ → (ℕ → ℕ) → Table
put_sems w s f = record w { sems = λ t. if eq_ℤ s t then f else w.sems t }

abbrev performed : Table → ℤ → Option (ℕ → ℕ) → Answer (Unit {0}) × Table
performed w s none = (err eagain, w)
performed w s (some f) = (ok tt, put_sems w s f)

abbrev semop : Table → ℤ → List SemBuf → Answer (Unit {0}) × Table
semop w s ops = performed w s (apply_ops (w.sems s) ops)

abbrev values : (ℕ → ℕ) → ℕ → ℕ → List ℕ
values f i zero = []
values f i (suc n) = f i ∷ values f (i + 1) n

abbrev pub table : Ipc
table = record {
  World = Table;
  shmget = λ w key size fs. shmget w key fs;
  shmat = λ w i. (ok i, w);
  shmdt = λ w a. (ok tt, w);
  shm_lock = λ w i. (ok tt, w);
  shm_rmid = λ w i. (ok tt, w);
  header = λ w a. w.headers a;
  store = store;
  clear = λ w a n. w;
  semget = λ w key n. (ok key, w);
  sem_rmid = λ w s. (ok tt, w);
  value = λ w s j. w.sems s j;
  semtimedop = λ w s ops t. semop w s ops;
  setval = λ w s i v. (ok tt, put_sems w s (update (w.sems s) i v));
  setall = λ w s vs. (ok tt, put_sems w s (λ j. get_or vs j 0));
  getval = λ w s i. ok (w.sems s i);
  getall = λ w s n. ok (values (w.sems s) 0 n);
}

eq_ℤ-refl : (s : ℤ) → eq_ℤ s s ≡ true
eq_ℤ-refl (pos n) = ground arith
eq_ℤ-refl (negsuc n) = ground arith

pub put_sems_lem : (w : Table) (s : ℤ) (f : ℕ → ℕ) (j : ℕ) → (put_sems w s f).sems s j ≡ f j
put_sems_lem w s f j = ap (λ b. (if b then f else w.sems s) j) (eq_ℤ-refl s)

length-values : (f : ℕ → ℕ) (i n : ℕ) → length (values f i n) ≡ n
length-values f i zero = refl
length-values f i (suc n) = ap suc (length-values f (i + 1) n)

get_or-values : (f : ℕ → ℕ) (i n j : ℕ) → j < n → get_or (values f i n) j 0 ≡ f (i + j)
get_or-values f i zero j h = absurd (omega arith)
get_or-values f i (suc n) zero h = ap f (omega arith)
get_or-values f i (suc n) (suc j) h = get_or-values f (i + 1) n j (omega arith) ∙ ap f (omega arith)

module _ (w : Table) (s : ℤ) where
  performed_ok :
      (o : Option (ℕ → ℕ)) → (performed w s o).0 ≡ ok tt → o ≡ some ((performed w s o).1.sems s)
  performed_ok none h = ground arith
  performed_ok (some f) h = ap some (sym (fun_ext (put_sems_lem w s f)))

  header-performed : (a : ℕ) (o : Option (ℕ → ℕ)) → (performed w s o).1.headers a ≡ w.headers a
  header-performed a none = refl
  header-performed a (some f) = refl

  performed_err :
      (o : Option (ℕ → ℕ)) (e : Errno)
      → (performed w s o).0 ≡ err e
      → (j : ℕ) → (performed w s o).1.sems s j ≡ w.sems s j
  performed_err none e h j = refl
  performed_err (some f) e h j = ground arith

  performed-eagain : (o : Option (ℕ → ℕ)) → (performed w s o).0 ≡ err eagain → o ≡ none
  performed-eagain none h = refl
  performed-eagain (some f) h = ground arith

answer-injective : {a b : List ℕ} → ok a ≡ ok b → a ≡ b
answer-injective h = cc

-- The hypotheses on the kernel can be met.
pub table-IsIpc : IsIpc table
table-IsIpc = record {
  header-store = λ w a h. ap (λ b. if b then h else w.headers a) ((==_iff a a).1 refl);
  header-semget = λ w a key n. refl;
  header-setall = λ w a s vs. refl;
  header-shm_lock = λ w a i. refl;
  header-semtimedop = λ w a s ops t. header-performed w s a _;
  header-setval = λ w a s i v. refl;
  value-semtimedop = λ w s ops t. performed_ok w s _;
  value-semtimedop_err = λ w s ops t e. performed_err w s _ e;
  semtimedop-eagain = λ w s ops t. performed-eagain w s _;
  value-setval = λ w s i v j h. put_sems_lem w s _ j;
  value-setval_err = λ w s i v j e h. cc;
  value-setall = λ w s vs j h lt. put_sems_lem w s _ j;
  getval-value = λ w s i v h. cc;
  getall-value = λ w s n vs j h lt.
      ap (λ l. get_or l j 0) (sym (answer-injective h))
      ∙ get_or-values (w.sems s) 0 n j lt
      ∙ ap (w.sems s) (zero-add j);
  length-getall = λ w s n vs h. ap length (sym (answer-injective h)) ∙ length-values (w.sems s) 0 n;
}
