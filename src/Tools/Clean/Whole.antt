-- ===== src/Tools/Clean/Whole.antt =====
-- The exit code 0 of the whole tool.
use hashpipe.Base.{ℕ, ◌+◌, ◌≤◌, ◌<◌, ◌≡◌, arith, ◌==◌, inl, inr, Bool-cases}
use hashpipe.Base.{Option, none, List, int_pattern}
use hashpipe.Ipc.{Answer, Ipc}
use hashpipe.IpcKey.{Env, databuf_key}
use hashpipe.Databuf.{
  Status, hashpipe_ok, hashpipe_timeout, hashpipe_err_gen, hashpipe_err_sys, attach, segment_key,
}
use hashpipe.StatusBuf.{Buffer, Fits}
use hashpipe.StatusBuf.Attach.{StatusArea, status_attach}
use hashpipe.Tools.Clean.{Clean, clean_attached, clean_named}
use hashpipe.Tools.Clean.Gone.{IsRemoving, IsAttachable, loop-gone, attach-none}

to_21 : (j : ℕ) → j ≤ 20 → j < 1 + 20
to_21 j l = omega (arith, l)

from_21 : (j : ℕ) → j < 1 + 20 → j ≤ 20
from_21 j l = omega (arith, l)

not_0 : ◌≡◌ {A = ℕ} 1 0 → ⊥
not_0 e = omega (arith, e)

module _ (k : Ipc) (l : IsRemoving k) (buffer : k.World → ℕ → Buffer)
    (put : k.World → ℕ → Buffer → k.World) (sem_open : k.World → List ℕ → Option ℕ × k.World)
    (sem_unlink : k.World → List ℕ → Answer (Unit {0}) × k.World) (fits : Fits) (env : Env)
    (c : Clean)
    (can : (i : ℕ)
      → 1 ≤ i
      → i ≤ 20
      → IsAttachable k (segment_key (databuf_key env (int_pattern c.instance_id)) i)) where
  clean_attached-gone :
      (name : List ℕ) (r : Status × StatusArea × k.World) (j : ℕ)
      → 1 ≤ j
      → j ≤ 20
      → (clean_attached k buffer put sem_open sem_unlink fits env c name r).0 ≡ 0
      → (attach k env
          (clean_attached k buffer put sem_open sem_unlink fits env c name r).1
          (int_pattern c.instance_id)
          j).0
        ≡ none
  unfolding clean_attached
  clean_attached-gone name (hashpipe_ok, s, w) j le le' e =
      attach-none k l env (int_pattern c.instance_id) _ j (λ a_key.
        loop-gone k l env (int_pattern c.instance_id) 20 1 _ (λ i a b. can i a (from_21 i b)) a_key
          e j le (to_21 j le'))
  clean_attached-gone name (hashpipe_timeout, s, w) j le le' e = absurd (not_0 e)
  clean_attached-gone name (hashpipe_err_gen, s, w) j le le' e = absurd (not_0 e)
  clean_attached-gone name (hashpipe_err_sys, s, w) j le le' e = absurd (not_0 e)

  -- On a kernel that keeps the laws of `IsRemoving`, if a segment that has the key of one of the
  -- instance's data buffers 1 to 20 can always be attached to and has its own identifier in its
  -- header: if the code that the tool ends with is 0 once the options are read and the semaphore's
  -- name is known, then none of these data buffers can be attached any more. (The tool passes over, and
  -- does not count, a buffer that it cannot attach to.)
  pub clean_named-gone :
      (s : StatusArea) (w : k.World) (name : List ℕ) (truncated j : ℕ)
      → 1 ≤ j
      → j ≤ 20
      → (clean_named k buffer put sem_open sem_unlink fits env c s w (name, truncated)).0 ≡ 0
      → (attach k env
          (clean_named k buffer put sem_open sem_unlink fits env c s w (name, truncated)).1
          (int_pattern c.instance_id)
          j).0
        ≡ none
  unfolding clean_named
  clean_named-gone s w name truncated j le le' = elim (Bool-cases (truncated == 0)) [
    | inl whole ↦
        rw (clean_named, whole)
          (clean_attached-gone name
            (status_attach k buffer put sem_open fits env (sem_unlink w name).1
              (int_pattern c.instance_id) s)
            j le le')
    | inr cut ↦ rw (clean_named, cut) (λ e. absurd (not_0 e))
  ]
