-- ===== src/IpcKey.antt =====
-- hashpipe_ipckey.c: the base keys of the data buffers and of the status buffer.
pub mod ProjId
use Prim.Native.String.{String}
use hashpipe.Base.{ℕ, ◌-◌, ◌%◌, ◌^◌, bit_and, bit_or, Option, none, some}

-- The C library's getenv(3), ftok(3) and strtoul(3). A `key_t` is its 32-bit pattern.
pub record Env : Type 0 where
  pub getenv : String → Option String
  pub ftok : String → ℕ → ℕ
  pub strtoul : String → ℕ

-- HASHPIPE_KEY_ERROR, (key_t)-1
abbrev pub key_error : ℕ
key_error = 2 ^ 32 - 1

-- The path for ftok(3): HASHPIPE_KEYFILE, else HOME, else /tmp.
unfoldable pub keyfile : Env → String
keyfile env = elim (env.getenv "HASHPIPE_KEYFILE") [
  | some f ↦ f
  | none ↦ elim (env.getenv "HOME") [ some h ↦ h | none ↦ "/tmp" ]
]

unfoldable pub ipckey : Env → ℕ → ℕ
ipckey env proj_id = env.ftok (keyfile env) proj_id

-- The proj_id of a data buffer's key is 10XXXXXX, of the status buffer's 01XXXXXX.
unfoldable pub databuf_proj_id : ℕ → ℕ
databuf_proj_id instance_id = bit_or (bit_and instance_id 0x3f) 0x80

unfoldable pub status_proj_id : ℕ → ℕ
status_proj_id instance_id = bit_or (bit_and instance_id 0x3f) 0x40

-- `key = strtoul(...)` keeps the low 32 bits of the unsigned long.
unfoldable pub databuf_key : Env → ℕ → ℕ
databuf_key env instance_id = elim (env.getenv "HASHPIPE_DATABUF_KEY") [
  | some s ↦ env.strtoul s % 2 ^ 32
  | none ↦ ipckey env (databuf_proj_id instance_id)
]

unfoldable pub status_key : Env → ℕ → ℕ
status_key env instance_id = elim (env.getenv "HASHPIPE_STATUS_KEY") [
  | some s ↦ env.strtoul s % 2 ^ 32
  | none ↦ ipckey env (status_proj_id instance_id)
]
