-- ===== src/StatusBuf/Edits.antt =====
-- hashpipe_status_chkinit and hashpipe_status_clear as edits in small steps, which other threads may
-- interleave with.
use hashpipe.Base.{ℕ, ◌≡◌, refl, arith, if◌then◌else◌, not, ◌==◌, Option, none, some, [], ◌∷◌}
use hashpipe.StatusBuf.{Buffer, Fits, blank, find_end, chkinit, clear}
use hashpipe.StatusBuf.Serial.{Edit, run_steps, run}

module _ (fits : Fits) (instance_id : ℕ) where
  abbrev pub put_instance : Option ℕ × Buffer → Option ℕ × Buffer
  put_instance (k, buf) = (k, fits.hputi4 buf "INSTANCE" instance_id)

  abbrev look_for_end : Option ℕ × Buffer → Option ℕ × Buffer
  look_for_end (k, buf) = (find_end buf, buf)

  -- The buffer is made if it has no END, and else the keyword is read.
  abbrev make_or_read : Option ℕ × Buffer → Option ℕ × Buffer
  make_or_read (none, buf) = (none, blank buf)
  make_or_read (some _, buf) = (fits.hgeti4 buf "INSTANCE", buf)

  abbrev put_if_other : Option ℕ × Buffer → Option ℕ × Buffer
  put_if_other (none, buf) = put_instance (none, buf)
  put_if_other (some i, buf) =
      if not (i == instance_id) then put_instance (some i, buf) else (some i, buf)

  unfoldable pub chkinit_edit : Edit (Option ℕ)
  chkinit_edit = record { known = none; steps = look_for_end ∷ make_or_read ∷ put_if_other ∷ [] }

  unfoldable pub clear_edit : Edit (Option ℕ)
  clear_edit = record { known = none; steps = (λ (k, buf). (k, blank buf)) ∷ put_instance ∷ [] }

  -- Alone, the steps are the function.
  run-chkinit_edit : (buf : Buffer) → run chkinit_edit buf ≡ chkinit fits instance_id buf
  unfolding chkinit_edit run_steps chkinit
  run-chkinit_edit buf = ground arith

  run-clear_edit : (buf : Buffer) → run clear_edit buf ≡ clear fits instance_id buf
  unfolding clear_edit run_steps clear
  run-clear_edit buf = refl
