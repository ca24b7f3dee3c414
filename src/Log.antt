-- ===== src/Log.antt =====
-- hashpipe_error.c: what is written to stderr. The texts of ctime_r(3), vfprintf(3) and strerror(3)
-- are arguments.
use hashpipe.Base.{ℕ, ◌+◌, ◌-◌, ◌≡◌, refl, ◌∙◌, ap, arith, ◌==◌, if◌then◌else◌}
use hashpipe.Base.{
  Option, none, some, List, [], ◌∷◌, ◌++◌, take, length, length-append, times, times-append,
}
use hashpipe.StatusBuf.{codes}

-- The last byte is cut off.
unfoldable pub log_timestamp : List ℕ → List ℕ
log_timestamp ctime = take (length ctime - 1) ctime

-- `: ` and the message, `none` for a NULL format
unfoldable pub detail : Option (List ℕ) → List ℕ
detail none = []
detail (some msg) = codes ": " ++ msg

-- The text of the present errno, 0 for no error.
unfoldable pub errno_text : ℕ → (ℕ → List ℕ) → List ℕ
errno_text errno strerror = if errno == 0 then [] else codes " [" ++ strerror errno ++ codes "]"

module _ (ctime name : List ℕ) (msg : Option (List ℕ)) where
  unfoldable pub hashpipe_error : ℕ → (ℕ → List ℕ) → List ℕ
  unfolding log_timestamp detail errno_text
  hashpipe_error errno strerror =
      (log_timestamp ctime ++ codes " : ")
      ++ (codes "Error (" ++ name ++ codes ")")
      ++ detail msg
      ++ errno_text errno strerror
      ++ codes "\n"

  unfoldable pub hashpipe_warn : List ℕ
  unfolding log_timestamp detail
  hashpipe_warn =
      (log_timestamp ctime ++ codes " : ")
      ++ (codes "Warning (" ++ name ++ codes ")")
      ++ detail msg
      ++ codes "\n"

  unfoldable pub hashpipe_info : List ℕ
  unfolding log_timestamp detail
  hashpipe_info =
      (log_timestamp ctime ++ codes " : ")
      ++ (codes "Info (" ++ name ++ codes ")")
      ++ detail msg
      ++ codes "\n"

-- The number of line ends, at which the reader of the log splits it.
abbrev lines : List ℕ → ℕ
lines text = times 10 text

take-front : (xs ys : List ℕ) → take (length xs) (xs ++ ys) ≡ xs
take-front [] ys = refl
take-front (x ∷ xs) ys = ap (λ zs. x ∷ zs) (take-front xs ys)

-- ctime_r(3) gives a day and a line end, and what is left is the day.
log_timestamp_lem : (day : List ℕ) → log_timestamp (day ++ codes "\n") ≡ day
unfolding log_timestamp
log_timestamp_lem day =
    ap (λ n. take n (day ++ codes "\n")) (shorter (length-append day (codes "\n")))
    ∙ take-front day (codes "\n")
  where
    shorter : {m n : ℕ} → m ≡ n + 1 → m - 1 ≡ n
    shorter e = omega arith

-- A text without a line end in front of another one.
before : {n : ℕ} (xs ys : List ℕ) → lines xs ≡ 0 → lines ys ≡ n → lines (xs ++ ys) ≡ n
before xs ys e f = omega (arith, times-append 10 xs ys)

detail-lines :
    (msg : Option (List ℕ))
    → ((text : List ℕ) → msg ≡ some text → lines text ≡ 0)
    → lines (detail msg) ≡ 0
unfolding detail times
detail-lines none h = refl
detail-lines (some text) h = omega (arith, h text refl)

errno_text-lines :
    (errno : ℕ) (strerror : ℕ → List ℕ)
    → lines (strerror errno) ≡ 0
    → lines (errno_text errno strerror) ≡ 0
unfolding errno_text times
errno_text-lines errno strerror h = ground (arith, times-append 10 (strerror errno) (codes "]"))

-- If the day, the name, the message and the text of errno have no line end, then each of the three
-- functions writes exactly one line.
hashpipe_error-lines :
    (day name : List ℕ) (msg : Option (List ℕ)) (errno : ℕ) (strerror : ℕ → List ℕ)
    → lines day ≡ 0
    → lines name ≡ 0
    → ((text : List ℕ) → msg ≡ some text → lines text ≡ 0)
    → lines (strerror errno) ≡ 0
    → (lines (hashpipe_error (day ++ codes "\n") name msg errno strerror) ≡ 1)
      × (lines (hashpipe_warn (day ++ codes "\n") name msg) ≡ 1)
      × (lines (hashpipe_info (day ++ codes "\n") name msg) ≡ 1)
unfolding hashpipe_error hashpipe_warn hashpipe_info times
hashpipe_error-lines day name msg errno strerror d n m e = rw (log_timestamp_lem day) (
  before _ (codes "\n")
      (before _ (errno_text errno strerror) (said (codes "Error (") refl)
        (errno_text-lines errno strerror e))
      refl,
  before _ (codes "\n") (said (codes "Warning (") refl) refl,
  before _ (codes "\n") (said (codes "Info (") refl) refl,
)
  where
    said :
        (label : List ℕ)
        → lines label ≡ 0
        → lines ((day ++ codes " : ") ++ (label ++ name ++ codes ")") ++ detail msg) ≡ 0
    said label l =
        before _ (detail msg)
          (before (day ++ codes " : ") _ (before day _ d refl)
            (before (label ++ name) _ (before label _ l n) refl))
          (detail-lines msg m)
