-- ===== src/StatusBuf.antt =====
-- hashpipe_status.c: the status buffer, FITS records of 80 bytes in a shared segment, and the POSIX
-- semaphore that guards it. fitshead.h's functions (a copy of WCSTools) are the parameter `Fits`.
pub mod Name
pub mod Records
pub mod Chkinit
pub mod Lock
pub mod Serial
pub mod Edits
pub mod Attach
use Prim.Native.Char.{code}
use Prim.Native.String.{String}
use Prim.Native.String
use hashpipe.Base.{ℕ, zero, suc, ◌+◌, ◌-◌, ◌*◌, ◌/◌, ◌%◌, ◌==◌, ltb, if◌then◌else◌, not, ◌||◌, ◌&&◌}
use hashpipe.Base.{
  Bool, true, false, Option, none, some, List, [], ◌∷◌, ◌++◌, bit_and, length, take,
}
use hashpipe.IpcKey.{Env, key_error, keyfile, status_key}

-- The bytes of an ASCII text.
abbrev pub codes : String → List ℕ
codes String.[] = []
codes (String.◌∷◌ c s) = code c ∷ codes s

-- HASHPIPE_STATUS_TOTAL_SIZE (2880 * 64) and HASHPIPE_STATUS_RECORD_SIZE
abbrev pub status_total_size : ℕ
status_total_size = 184320

abbrev pub status_record_size : ℕ
status_record_size = 80

-- strncpy(3) into `size` bytes, the last one set to NUL
abbrev pub copy_name : ℕ → List ℕ → List ℕ
copy_name size name = take (size - 1) name

-- `while((s = strchr(s, '/'))) *s = '_'`
abbrev pub flatten_slashes : List ℕ → List ℕ
flatten_slashes [] = []
flatten_slashes (c ∷ cs) = (if c == b'/' then b'_' else c) ∷ flatten_slashes cs

-- All but the leading character.
abbrev pub flatten_tail : List ℕ → List ℕ
flatten_tail [] = []
flatten_tail (c ∷ cs) = c ∷ flatten_slashes cs

-- `%d` of a number below 64
abbrev pub decimal : ℕ → List ℕ
decimal n = if ltb n 10 then (b'0' + n) ∷ [] else (b'0' + n / 10) ∷ (b'0' + n % 10) ∷ []

-- What snprintf(3) is to write: "_hashpipe_status_%d"
unfoldable pub name_suffix : ℕ → List ℕ
name_suffix instance_id = codes "_hashpipe_status_" ++ decimal (bit_and instance_id 0x3f)

-- The path of the key file, cut to the buffer and flattened, and the suffix, as far as there is
-- room.
unfoldable pub default_name : List ℕ → ℕ → ℕ → List ℕ × ℕ
default_name path instance_id size =
    let root = flatten_tail (copy_name size path) in
    let room = size - length root in
    (
      root ++ take (room - 1) (name_suffix instance_id),
      if ltb (length (name_suffix instance_id)) room then 0 else 1,
    )

-- The name, and the return code: 0 if it fitted `size` bytes, 1 if it was cut off.
unfoldable pub semname : Env → ℕ → ℕ → List ℕ × ℕ
semname env instance_id size = elim (env.getenv "HASHPIPE_STATUS_SEMNAME") [
  | some name ↦ (copy_name size (codes name), 1)
  | none ↦ default_name (codes (keyfile env)) instance_id size
]

-- A buffer as its bytes by offset.
abbrev pub Buffer : Type 0
Buffer = ℕ → ℕ

-- hputi4, hgeti4 (`none`: the keyword is not there) and hputs of fitshead.h
pub record Fits : Type 0 where
  pub hputi4 : Buffer → String → ℕ → Buffer
  pub hgeti4 : Buffer → String → Option ℕ
  pub hputs : Buffer → String → String → Buffer

-- `strncmp(&buf[offs], "END", 3) == 0`
abbrev pub is_end : Buffer → ℕ → Bool
is_end buf offs = buf offs == b'E' && buf (offs + 1) == b'N' && buf (offs + 2) == b'D'

-- The loop over `n` records from offset `offs` on.
unfoldable pub find_end_from : ℕ → ℕ → Buffer → Option ℕ
find_end_from zero offs buf = none
find_end_from (suc n) offs buf =
    let rest = find_end_from n (offs + status_record_size) buf in
    if is_end buf offs then some offs else rest

-- `hashpipe_find_end`: the offset of the first record END.
unfoldable pub find_end : Buffer → Option ℕ
find_end buf = find_end_from (status_total_size / status_record_size) 0 buf

-- memset(3) twice and strncpy(3) of "END"
unfoldable pub blank : Buffer → Buffer
blank buf offs =
    if offs == 0
    then b'E'
    else if offs == 1
    then b'N'
    else if offs == 2
    then b'D'
    else if ltb offs status_record_size
    then b' '
    else if ltb offs status_total_size
    then 0
    else buf offs

module _ (fits : Fits) where
  -- The body of `hashpipe_status_chkinit` between lock and unlock.
  unfoldable pub chkinit : ℕ → Buffer → Buffer
  chkinit instance_id buf = elim (find_end buf) [
    | none ↦ fits.hputi4 (blank buf) "INSTANCE" instance_id
    | some _ ↦ elim (fits.hgeti4 buf "INSTANCE") [
      | none ↦ fits.hputi4 buf "INSTANCE" instance_id
      | some i ↦ if not (i == instance_id) then fits.hputi4 buf "INSTANCE" instance_id else buf
    ]
  ]

  -- The body of `hashpipe_status_clear` between lock and unlock.
  unfoldable pub clear : ℕ → Buffer → Buffer
  clear instance_id buf = fits.hputi4 (blank buf) "INSTANCE" instance_id

-- `hashpipe_status_unlock` after sem_getvalue(3) (`none`: it failed, and 0 is assumed): sem_post(3)
-- only if the value read is below 1.
unfoldable pub after_getvalue : Option ℕ → ℕ → ℕ
after_getvalue none value = value + 1
after_getvalue (some v) value = if ltb v 1 then value + 1 else value
