-- ===== src/Tests/Names.antt =====
-- The theorems on the status buffer.
use hashpipe.Base.{ℕ, zero, suc, ◌+◌, ◌*◌, ◌≡◌, refl, arith, ◌==◌, if◌then◌else◌}
use hashpipe.Base.{none, some, drop}
use hashpipe.IpcKey.{Env}
use hashpipe.StatusBuf.{codes, flatten_tail, Buffer, Fits, is_end, find_end_from, find_end, chkinit}
use hashpipe.StatusBuf.Name.{HasNoSlash, flatten_tail-HasNoSlash}
use hashpipe.StatusBuf.Chkinit.{IsFits, IsReady, blank-HasRoom, chkinit-IsReady}
use hashpipe.StatusBuf.{blank}
use hashpipe.Base.{update}
use hashpipe.StatusBuf.Lock.{idle, holding, System}

abbrev pub unset : Env
unset = record { getenv = λ _. none; ftok = λ f p. p; strtoul = λ s. 0 }

abbrev named : Env
named = record { getenv = λ _. some "sem"; ftok = λ f p. p; strtoul = λ s. 0 }

flatten_tail-HasNoSlash_example : HasNoSlash (drop 1 (flatten_tail (codes "/home/obs")))
flatten_tail-HasNoSlash_example = flatten_tail-HasNoSlash b'/' (codes "home/obs")

abbrev zeros : Buffer
zeros offs = 0

-- A header with one value, in byte 10.
abbrev pub one_value : Fits
one_value = record {
  hputi4 = λ buf key v offs. if offs == 10 then v else buf offs;
  hgeti4 = λ buf key. some (buf 10);
  hputs = λ buf key s. buf;
}

is_end-put :
    (buf : Buffer) (r v : ℕ)
    → is_end (λ offs. if offs == 10 then v else buf offs) (r * 80) ≡ is_end buf (r * 80)
is_end-put buf r v = ground arith

next_record : (r : ℕ) → (r + 1) * 80 ≡ r * 80 + 80
next_record r = omega arith

find_end_from-put :
    (n r : ℕ) (buf : Buffer) (v : ℕ)
    → find_end_from n (r * 80) (λ offs. if offs == 10 then v else buf offs)
      ≡ find_end_from n (r * 80) buf
unfolding find_end_from
find_end_from-put zero r buf v = refl
find_end_from-put (suc n) r buf v =
    let again : find_end_from n (r * 80 + 80) (λ offs. if offs == 10 then v else buf offs)
        ≡ find_end_from n (r * 80 + 80) buf =
      rw (next_record r) at (find_end_from-put n (r + 1) buf v) in
    rw (is_end-put buf r v, again) refl

find_end-put :
    (buf : Buffer) (v : ℕ) → find_end (λ offs. if offs == 10 then v else buf offs) ≡ find_end buf
unfolding find_end
find_end-put buf v = find_end_from-put 2304 0 buf v

pub one_value-IsFits : IsFits one_value
one_value-IsFits = record {
  hgeti4-hputi4 = λ buf v h small. refl;
  end-hputi4 = λ buf v h small. rw (find_end-put buf v, h.found) (λ e. cc);
}

chkinit-IsReady_example :
    IsReady one_value one_value-IsFits 3 (chkinit one_value 3 (blank zeros))
    × (IsReady one_value one_value-IsFits 3 (blank zeros)
        → chkinit one_value 3 (blank zeros) ≡ blank zeros)
chkinit-IsReady_example =
    chkinit-IsReady one_value one_value-IsFits 3 (blank zeros) (omega arith)
      (λ h. blank-HasRoom zeros)

abbrev locked : System
locked = record { value = 0; pc = update (λ _. idle) 5 holding }
