-- ===== src/StatusBuf/Records.antt =====
-- Where the END record is.
use hashpipe.Base.{ℕ, zero, suc, ◌+◌, ◌*◌, ◌/◌, ◌<◌, ◌≡◌, refl, inl, inr, arith, ap, ◌∙◌, subst}
use hashpipe.Base.{true, false, Option, none, some, Bool-cases}
use hashpipe.StatusBuf.{
  Buffer, is_end, find_end_from, find_end, blank, status_total_size, status_record_size,
}

-- A result of the search of `n` records from record `r` on: the offset of the first that is END, or
-- none of them is.
abbrev pub FirstEnd : ℕ → ℕ → Buffer → Option ℕ → Type 0
FirstEnd n r buf none = (j : ℕ) → j < n → is_end buf ((r + j) * 80) ≡ false
FirstEnd n r buf (some offs) =
    (i : ℕ) × (i < n)
    × (offs ≡ (r + i) * 80)
    × (is_end buf offs ≡ true)
    × ((j : ℕ) → j < i → is_end buf ((r + j) * 80) ≡ false)

FirstEnd-suc :
    (n r : ℕ) (buf : Buffer) (o : Option ℕ)
    → is_end buf (r * 80) ≡ false
    → FirstEnd n (r + 1) buf o
    → FirstEnd (suc n) r buf o
FirstEnd-suc n r buf none here rest = λ j lt. later j lt
  where
    later : (j : ℕ) → j < suc n → is_end buf ((r + j) * 80) ≡ false
    later zero lt = ap (is_end buf) (omega arith) ∙ here
    later (suc j) lt = ap (is_end buf) (omega arith) ∙ rest j (omega arith)
FirstEnd-suc n r buf (some offs) here (i, lt, e, end, before) =
    (suc i, omega arith, omega arith, end, later)
  where
    later : (j : ℕ) → j < suc i → is_end buf ((r + j) * 80) ≡ false
    later zero q = ap (is_end buf) (omega arith) ∙ here
    later (suc j) q = ap (is_end buf) (omega arith) ∙ before j (omega arith)

find_end_from_hit :
    (n offs : ℕ) (buf : Buffer)
    → is_end buf offs ≡ true
    → find_end_from (suc n) offs buf ≡ some offs
unfolding find_end_from
find_end_from_hit n offs buf h = rw h

find_end_from_miss :
    (n offs : ℕ) (buf : Buffer)
    → is_end buf offs ≡ false
    → find_end_from (suc n) offs buf ≡ find_end_from n (offs + 80) buf
unfolding find_end_from
find_end_from_miss n offs buf h = rw h

find_end_from-FirstEnd : (n r : ℕ) (buf : Buffer) → FirstEnd n r buf (find_end_from n (r * 80) buf)
find_end_from-FirstEnd zero r buf = unfold find_end_from in λ j lt. absurd (omega arith)
find_end_from-FirstEnd (suc n) r buf = elim (Bool-cases (is_end buf (r * 80))) [
  | inl hit ↦
      rw (find_end_from_hit n (r * 80) buf hit)
        (0, omega arith, omega arith, hit, λ j lt. absurd (omega arith))
  | inr miss ↦ rw (find_end_from_miss n (r * 80) buf miss) (
      FirstEnd-suc n r buf _ miss (
        subst (λ o. FirstEnd n (r + 1) buf (find_end_from n o buf)) (omega arith)
          (find_end_from-FirstEnd n (r + 1) buf)))
]

abbrev pub record_count : ℕ
record_count = status_total_size / status_record_size

-- The search finds the first of the 2304 records that is END, or says that there is none.
pub find_end-FirstEnd : (buf : Buffer) → FirstEnd record_count 0 buf (find_end buf)
unfolding find_end
find_end-FirstEnd buf = find_end_from-FirstEnd record_count 0 buf

pub find_end-blank : (buf : Buffer) → find_end (blank buf) ≡ some 0
unfolding find_end
find_end-blank buf = find_end_from_hit 2303 0 (blank buf) (ends buf)
  where
    ends : (buf : Buffer) → is_end (blank buf) 0 ≡ true
    ends buf = unfold blank in refl

-- Bytes without an END.
zero_from : (n offs : ℕ) (buf : Buffer) → ((o : ℕ) → buf o ≡ 0) → find_end_from n offs buf ≡ none
unfolding find_end_from
zero_from zero offs buf z = refl
zero_from (suc n) offs buf z =
    find_end_from_miss n offs buf (ground (arith, z offs)) ∙ zero_from n (offs + 80) buf z

pub find_end-zero : (buf : Buffer) → ((o : ℕ) → buf o ≡ 0) → find_end buf ≡ none
unfolding find_end
find_end-zero buf z = zero_from record_count 0 buf z
