-- ===== src/StatusBuf/Chkinit.antt =====
-- Checking and clearing the status buffer.
use hashpipe.Base.{ℕ, ◌+◌, ◌*◌, ◌≤◌, ◌<◌, ◌≡◌, ◌≢◌, ◌⊎◌, inl, inr, arith}
use hashpipe.Base.{none, some}
use hashpipe.StatusBuf.{
  Buffer, Fits, status_record_size, status_total_size, find_end, blank, chkinit, clear,
}
use hashpipe.StatusBuf.Records.{find_end-blank}

-- A header as FITS has it, with printable characters up to its END record, and room for one more
-- record.
pub record HasRoom (buf : Buffer) : Type 0 where
  pub end : ℕ
  pub found : find_end buf ≡ some end
  pub room : end + 2 * status_record_size ≤ status_total_size
  pub text : (o : ℕ) → o < end → (32 ≤ buf o) × (buf o < 127)

-- What hput.c and hget.c say of a number that is put under a plain keyword into a header with room for
-- it: it is read back, and the header still has an END record. INSTANCE is the keyword of the status
-- buffer, and an instance number is below 64.
pub record IsFits (fits : Fits) : Type 0 where
  pub hgeti4-hputi4 :
      (buf : Buffer) (v : ℕ)
      → HasRoom buf
      → v < 64
      → fits.hgeti4 (fits.hputi4 buf "INSTANCE" v) "INSTANCE" ≡ some v
  pub end-hputi4 :
      (buf : Buffer) (v : ℕ) → HasRoom buf → v < 64 → find_end (fits.hputi4 buf "INSTANCE" v) ≢ none

-- Bytes without an END, or a header with room.
abbrev pub IsClean : Buffer → Type 0
IsClean buf = find_end buf ≢ none → HasRoom buf

pub blank-HasRoom : (buf : Buffer) → HasRoom (blank buf)
blank-HasRoom buf = record {
  end = 0;
  found = find_end-blank buf;
  room = omega arith;
  text = λ o l. absurd (omega (arith, l));
}

module _ (fits : Fits) (l : IsFits fits) where
  -- A buffer in order: an END record, and the instance's number.
  pub record IsReady (instance_id : ℕ) (buf : Buffer) : Type 0 where
    pub has_end : find_end buf ≢ none
    pub names_instance : fits.hgeti4 buf "INSTANCE" ≡ some instance_id

  put-IsReady :
      (i : ℕ) (buf : Buffer) → i < 64 → HasRoom buf → IsReady i (fits.hputi4 buf "INSTANCE" i)
  put-IsReady i buf small h = record {
    has_end = l.end-hputi4 buf i h small;
    names_instance = l.hgeti4-hputi4 buf i h small;
  }

  -- Clearing leaves a buffer in order.
  pub clear-IsReady : (i : ℕ) (buf : Buffer) → i < 64 → IsReady i (clear fits i buf)
  unfolding clear
  clear-IsReady i buf small = put-IsReady i (blank buf) small (blank-HasRoom buf)

  -- The three ways through the check.
  chkinit-cases :
      (i : ℕ) (buf : Buffer)
      → (chkinit fits i buf ≡ fits.hputi4 (blank buf) "INSTANCE" i)
        ⊎ ((find_end buf ≢ none) × (chkinit fits i buf ≡ fits.hputi4 buf "INSTANCE" i))
        ⊎ ((find_end buf ≢ none)
            × (fits.hgeti4 buf "INSTANCE" ≡ some i)
            × (chkinit fits i buf ≡ buf))
  unfolding chkinit
  chkinit-cases i buf = ground arith

  -- If hputi4 and hgeti4 keep what `IsFits` says, the instance's number is below 64, and the shared
  -- bytes have no END record or are a header with room for one more record: the check leaves a buffer
  -- in order, with an END record and the number of this instance. A buffer that is in order already is
  -- left as it is.
  pub chkinit-IsReady :
      (i : ℕ) (buf : Buffer)
      → i < 64
      → IsClean buf
      → IsReady i (chkinit fits i buf) × (IsReady i buf → chkinit fits i buf ≡ buf)
  chkinit-IsReady i buf small clean = (in_order, again)
    where
      in_order : IsReady i (chkinit fits i buf)
      in_order = elim (chkinit-cases i buf) [
        | inl e ↦ rw e (put-IsReady i (blank buf) small (blank-HasRoom buf))
        | inr (inl (h, e)) ↦ rw e (put-IsReady i buf small (clean h))
        | inr (inr (h, n, e)) ↦ rw e (record { has_end = h; names_instance = n })
      ]

      again : IsReady i buf → chkinit fits i buf ≡ buf
      again r = unfold chkinit in ground (arith, r.has_end, r.names_instance)
