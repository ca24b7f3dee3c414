-- ===== src/StatusBuf/Lock.antt =====
-- Threads that take and give back the status buffer's lock, interleaved in any order.
use hashpipe.Base.{update}
use hashpipe.Base.{ℕ, ◌-◌, ◌≤◌, ◌<◌, ◌≡◌, refl, ◌⊎◌, inl, inr, arith}
use hashpipe.Base.{Bool, true, false, Option, none, some}
use hashpipe.StatusBuf.{after_getvalue}

-- Where a thread is: without the lock, between lock and unlock, or in unlock with what
-- sem_getvalue(3) said.
pub data Pc : Type 0 where
  idle : Pc
  holding : Pc
  looked : Option ℕ → Pc

pub record System : Type 0 where
  pub value : ℕ
  pub pc : ℕ → Pc

-- The lock is created with the value 1.
abbrev pub init : System
init = record { value = 1; pc = λ _. idle }

-- A step of thread `i`, at whose place it is named by an equation: sem_wait(3) or a sem_trywait(3)
-- that succeeds; sem_getvalue(3), which may fail; and the rest of unlock.
pub data Step (s : System) : System → Type 0 where
  lock :
      (i : ℕ)
      → s.pc i ≡ idle
      → 0 < s.value
      → Step s (record { value = s.value - 1; pc = update s.pc i holding })
  look :
      (i : ℕ)
      → s.pc i ≡ holding
      → Step s (record { value = s.value; pc = update s.pc i (looked (some s.value)) })
  look_failed :
      (i : ℕ)
      → s.pc i ≡ holding
      → Step s (record { value = s.value; pc = update s.pc i (looked none) })
  unlock :
      (i : ℕ) (v : Option ℕ)
      → s.pc i ≡ looked v
      → Step s (record { value = after_getvalue v s.value; pc = update s.pc i idle })

pub data Reach : System → Type 0 where
  start : Reach init
  next : {s t : System} → Reach s → Step s t → Reach t

-- A thread that has the lock.
abbrev pub owns : Pc → Bool
owns idle = false
owns holding = true
owns (looked v) = true

record Inv (s : System) : Type 0 where
  low : s.value ≤ 1
  alone : (i j : ℕ) → owns (s.pc i) ≡ true → owns (s.pc j) ≡ true → i ≡ j
  taken : (i : ℕ) → owns (s.pc i) ≡ true → s.value ≡ 0
  saw : (i v : ℕ) → s.pc i ≡ looked (some v) → v ≡ 0
  free : (s.value ≡ 1) ⊎ ((i : ℕ) × (owns (s.pc i) ≡ true))

init-Inv : Inv init
init-Inv = record {
  low = omega arith;
  alone = λ i j p q. cc;
  taken = λ i p. cc;
  saw = λ i v p. cc;
  free = inl refl;
}

Step-Inv : {s t : System} → Step s t → Inv s → Inv t
unfolding after_getvalue
Step-Inv (lock i e p) v = record {
  low = omega (arith, v.low);
  alone = λ a b q r. ground (arith, v.taken a, v.taken b);
  taken = λ a q. omega (arith, v.low);
  saw = λ a x q. ground (arith, v.saw a x);
  free = inr (i, ground arith);
}
Step-Inv (look i e) v = record {
  low = v.low;
  alone = λ a b q r. ground (arith, v.alone a b, v.alone i b, v.alone a i);
  taken = λ a q. ground (arith, v.taken a, v.taken i);
  saw = λ a x q. ground (arith, v.saw a x, v.taken i);
  free = inr (i, ground arith);
}
Step-Inv (look_failed i e) v = record {
  low = v.low;
  alone = λ a b q r. ground (arith, v.alone a b, v.alone i b, v.alone a i);
  taken = λ a q. ground (arith, v.taken a, v.taken i);
  saw = λ a x q. ground (arith, v.saw a x, v.taken i);
  free = inr (i, ground arith);
}
Step-Inv (unlock i none e) v = record {
  low = ground (arith, v.taken i, v.low);
  alone = λ a b q r. ground (arith, v.alone a b, v.alone i b, v.alone a i);
  taken = λ a q. ground (arith, v.taken a, v.taken i, v.alone a i);
  saw = λ a x q. ground (arith, v.saw a x, v.taken i);
  free = inl (ground (arith, v.taken i));
}
Step-Inv (unlock i (some w) e) v = record {
  low = ground (arith, v.taken i, v.low);
  alone = λ a b q r. ground (arith, v.alone a b, v.alone i b, v.alone a i);
  taken = λ a q. ground (arith, v.taken a, v.taken i, v.alone a i);
  saw = λ a x q. ground (arith, v.saw a x, v.taken i);
  free = inl (ground (arith, v.taken i, v.saw i w));
}

Reach-Inv : {s : System} → Reach s → Inv s
Reach-Inv start = init-Inv
Reach-Inv (next r st) = Step-Inv st (Reach-Inv r)

-- In every state that the threads can reach from the start, two of them never have the lock
-- together.
pub mutual_exclusion :
    {s : System} → Reach s → (i j : ℕ) → owns (s.pc i) ≡ true → owns (s.pc j) ≡ true → i ≡ j
mutual_exclusion r = (Reach-Inv r).alone
