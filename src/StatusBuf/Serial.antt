-- ===== src/StatusBuf/Serial.antt =====
-- Threads that edit the status buffer between lock and unlock, in small steps that are interleaved in any
-- order with the steps of the other threads.
use hashpipe.Base.{ℕ, ◌-◌, ◌<◌, ◌⊎◌, ◌≡◌}
use hashpipe.Base.{true, false, Option, none, some, List, [], ◌∷◌}
use hashpipe.StatusBuf.{Buffer, after_getvalue}
use hashpipe.Base.{update}
use hashpipe.StatusBuf.Lock.{idle, holding, looked, System, init, Reach, owns}

-- An edit: what the thread knows, which is of the type `L`, and its steps, each of which may read
-- the buffer into what the thread knows and may change the buffer.
pub record Edit (L : Type 0) : Type 0 where
  pub known : L
  pub steps : List (L × Buffer → L × Buffer)

-- The edit alone, from a buffer to a buffer.
unfoldable pub run_steps : {L : Type 0} → List (L × Buffer → L × Buffer) → L × Buffer → Buffer
run_steps [] (k, buf) = buf
run_steps (f ∷ fs) s = run_steps fs (f s)

abbrev pub run : {L : Type 0} → Edit L → Buffer → Buffer
run e buf = run_steps e.steps (e.known, buf)

-- Edits one after another, the last one in front.
unfoldable pub run_all : {L : Type 0} → List (Edit L) → Buffer → Buffer
run_all [] buf = buf
run_all (e ∷ es) buf = run e (run_all es buf)

-- The lock, the buffer, the edit that each thread has begun and what is left of it, and the edits that
-- were unlocked, the last one in front.
pub record Shared (L : Type 0) : Type 0 where
  pub system : System
  pub buf : Buffer
  pub whole : ℕ → Edit L
  pub left : ℕ → Edit L
  pub ended : List (Edit L)

-- A thread locks the buffer and begins an edit; it does the next step of it; it calls unlock
-- when no step is left, which is the steps `look` or `look_failed` of the lock; and unlock returns.
pub data Turn {L : Type 0} (s : Shared L) : Shared L → Type 0 where
  enter :
      (i : ℕ) (e : Edit L)
      → s.system.pc i ≡ idle
      → 0 < s.system.value
      → Turn s (record s {
        system = record { value = s.system.value - 1; pc = update s.system.pc i holding };
        whole = update s.whole i e;
        left = update s.left i e;
      })
  go :
      (i : ℕ) (k : L) (f : L × Buffer → L × Buffer) (fs : List (L × Buffer → L × Buffer))
      → s.system.pc i ≡ holding
      → s.left i ≡ record { known = k; steps = f ∷ fs }
      → Turn s (record s {
        buf = (f (k, s.buf)).1;
        left = update s.left i (record { known = (f (k, s.buf)).0; steps = fs });
      })
  leave :
      (i : ℕ) (v : Option ℕ)
      → s.system.pc i ≡ holding
      → (s.left i).steps ≡ []
      → ((v ≡ none) ⊎ (v ≡ some s.system.value))
      → Turn s (record s {
        system = record { value = s.system.value; pc = update s.system.pc i (looked v) };
      })
  left_it :
      (i : ℕ) (v : Option ℕ)
      → s.system.pc i ≡ looked v
      → Turn s (record s {
        system = record { value = after_getvalue v s.system.value; pc = update s.system.pc i idle };
        ended = s.whole i ∷ s.ended;
      })

pub data Run {L : Type 0} (buf : Buffer) (e : Edit L) : Shared L → Type 0 where
  begin : Run buf e (record { system = init; buf = buf; whole = λ i. e; left = λ i. e; ended = [] })
  more : {s t : Shared L} → Run buf e s → Turn s t → Run buf e t

-- What holds after every turn.
record IsSerial {L : Type 0} (buf : Buffer) (s : Shared L) : Type 0 where
  lockable : Reach s.system
  quiet : ((i : ℕ) → owns (s.system.pc i) ≡ false) → s.buf ≡ run_all s.ended buf
  busy :
      (i : ℕ)
      → owns (s.system.pc i) ≡ true
      → run (s.left i) s.buf ≡ run (s.whole i) (run_all s.ended buf)
  done : (i : ℕ) (v : Option ℕ) → s.system.pc i ≡ looked v → (s.left i).steps ≡ []
