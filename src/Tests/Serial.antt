-- ===== src/Tests/Serial.antt =====
-- A thread that clears the status buffer.
use hashpipe.Base.{ℕ, Option, none, [], ◌∷◌}
use hashpipe.StatusBuf.{Buffer, blank}
use hashpipe.Base.{update}
use hashpipe.StatusBuf.Lock.{holding, idle}
use hashpipe.StatusBuf.Serial.{Edit, Shared}
use hashpipe.StatusBuf.Edits.{clear_edit, put_instance}
use hashpipe.Tests.Names.{one_value}

abbrev zeros : Buffer
zeros offs = 0

-- The edit of hashpipe_status_clear, on instance 3.
abbrev cleared : Edit (Option ℕ)
cleared = clear_edit one_value 3

-- Thread 5 has the lock, and has blanked the buffer but not yet put the keyword.
abbrev editing : Shared (Option ℕ)
editing = record {
  system = record { value = 0; pc = update (λ i. idle) 5 holding };
  buf = blank zeros;
  whole = update (λ i. cleared) 5 cleared;
  left =
      update (update (λ i. cleared) 5 cleared) 5
        (record { known = none; steps = put_instance one_value 3 ∷ [] });
  ended = [];
}
