-- ===== src/StatusBuf/Name.antt =====
-- The name of the status buffer's semaphore.
use hashpipe.Base.{ℕ, suc, ◌+◌, ◌-◌, ◌<◌, ◌≡◌, refl, ◌≢◌, ◌↔◌, arith, ap, if◌then◌else◌, ltb}
use hashpipe.Base.{none, some, List, [], ◌∷◌, ◌++◌, length, take, take-all}
use Prim.Native.String.{String}
use hashpipe.Base.{drop}
use hashpipe.StatusBuf.{default_name}
use hashpipe.IpcKey.{Env, keyfile}
use hashpipe.StatusBuf.{codes, flatten_slashes, flatten_tail, name_suffix, semname}

length-flatten_slashes : (cs : List ℕ) → length (flatten_slashes cs) ≡ length cs
length-flatten_slashes [] = refl
length-flatten_slashes (c ∷ cs) = ap suc (length-flatten_slashes cs)

length-flatten_tail : (cs : List ℕ) → length (flatten_tail cs) ≡ length cs
length-flatten_tail [] = refl
length-flatten_tail (c ∷ cs) = ap suc (length-flatten_slashes cs)

-- No slash, in a name.
abbrev pub HasNoSlash : List ℕ → Type 0
HasNoSlash [] = Unit
HasNoSlash (c ∷ cs) = (c ≢ b'/') × HasNoSlash cs

flatten_slashes-HasNoSlash : (cs : List ℕ) → HasNoSlash (flatten_slashes cs)
flatten_slashes-HasNoSlash [] = tt
flatten_slashes-HasNoSlash (c ∷ cs) = (ground arith, flatten_slashes-HasNoSlash cs)

default_name_lem :
    (path : List ℕ) (instance_id size : ℕ)
    → length path < size
    → default_name path instance_id size ≡ (
      flatten_tail path ++ take (size - length path - 1) (name_suffix instance_id),
      if ltb (length (name_suffix instance_id)) (size - length path) then 0 else 1,
    )
unfolding default_name
default_name_lem path instance_id size h =
    rw (take-all path (size - 1) (omega arith), length-flatten_tail path)

semname_unset :
    (env : Env) (instance_id size : ℕ)
    → env.getenv "HASHPIPE_STATUS_SEMNAME" ≡ none
    → semname env instance_id size ≡ default_name (codes (keyfile env)) instance_id size
unfolding semname
semname_unset env instance_id size h = rw (h, semname)

-- Where HASHPIPE_STATUS_SEMNAME is set, the call reports truncation, however large the buffer is,
-- although it has stored the whole name.
semname_set :
    (env : Env) (instance_id size : ℕ) (name : String)
    → env.getenv "HASHPIPE_STATUS_SEMNAME" ≡ some name
    → length (codes name) < size
    → semname env instance_id size ≡ (codes name, 1)
unfolding semname
semname_set env instance_id size name h fits =
    rw (h, semname) (ap (λ c. (c, 1)) (take-all (codes name) (size - 1) (omega arith)))

-- Where it is not set, and the key file's path fits the buffer: 0 is returned exactly if the whole
-- name and its NUL fit. The name is the path, its slashes behind the first character flattened,
-- followed by the suffix with the instance's number, as far as there is room.
pub semname_fits :
    (env : Env) (instance_id size : ℕ)
    → env.getenv "HASHPIPE_STATUS_SEMNAME" ≡ none
    → length (codes (keyfile env)) < size
    → (((semname env instance_id size).1 ≡ 0)
        ↔ (length (codes (keyfile env)) + length (name_suffix instance_id) < size))
      × ((semname env instance_id size).0
          ≡ flatten_tail (codes (keyfile env))
            ++ take (size - length (codes (keyfile env)) - 1) (name_suffix instance_id))
semname_fits env instance_id size h fits =
    rw
      (
        semname_unset env instance_id size h,
        default_name_lem (codes (keyfile env)) instance_id size fits,
      )
      (ground arith, refl)

-- The flattened part of the name has no slash.
pub flatten_tail-HasNoSlash : (c : ℕ) (cs : List ℕ) → HasNoSlash (drop 1 (flatten_tail (c ∷ cs)))
flatten_tail-HasNoSlash c cs = flatten_slashes-HasNoSlash cs
