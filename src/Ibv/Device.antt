-- ===== src/Ibv/Device.antt =====
-- `hashpipe_ibv_open_device_for_interface_id`: the first device with a port for an interface.
pub mod Search
use hashpipe.Base.{
  ℕ, suc, ◌+◌, ◌*◌, ◌/◌, ◌%◌, ◌^◌, ◌≤◌, ◌≡◌, refl, ◌⊎◌, inl, inr, arith, ◌==◌, if◌then◌else◌, ◌&&◌,
  Bool-cases,
}
use hashpipe.Base.{Bool, true, false, Option, none, some, List, [], ◌∷◌, ap, ap₂}
use hashpipe.Packet.{swap32}

-- htobe64(3)
abbrev pub swap64 : ℕ → ℕ
swap64 x = swap32 (x % 2 ^ 32) * 2 ^ 32 + swap32 (x / 2 ^ 32 % 2 ^ 32)

-- `ibv_gid.global`, as the host reads its two big-endian numbers
pub record Gid : Type 0 where
  pub subnet_prefix : ℕ
  pub interface_id : ℕ

-- What the queries of a port answer: ibv_query_port(3), and ibv_query_gid(3) for each of its
-- `gid_tbl_len` entries (`none`: it fails).
pub record Port : Type 0 where
  pub queried : Bool
  pub gids : List (Option Gid)

-- What a device answers, and its `phys_port_cnt` ports.
pub record Device : Type 0 where
  pub opens : Bool
  pub queried : Bool
  pub closes : Bool
  pub ports : List Port

abbrev pub is_wanted : ℕ → Gid → Bool
is_wanted id g = g.subnet_prefix == 0x80fe && g.interface_id == id

-- The loop over the GIDs: whether it ended early, and `retval`.
unfoldable pub find_gid : ℕ → ℕ → List (Option Gid) → Bool × ℕ
find_gid id retval [] = (false, retval)
find_gid id retval (none ∷ gs) = find_gid id (retval + 1) gs
find_gid id retval (some g ∷ gs) =
    let rest = find_gid id retval gs in if is_wanted id g then (true, retval) else rest

abbrev pub or_next : {A : Type 0} → A → Bool × ℕ → (ℕ → Option A × ℕ) → Option A × ℕ
or_next a (true, retval) next = (some a, retval)
or_next a (false, retval) next = next retval

-- The loop over the ports, which are counted from 1.
unfoldable pub find_port : ℕ → ℕ → ℕ → List Port → Option ℕ × ℕ
unfolding find_gid
find_port id retval i [] = (none, retval)
find_port id retval i (p ∷ ps) =
    if p.queried
    then or_next i (find_gid id retval p.gids) (λ rv. find_port id rv (i + 1) ps)
    else find_port id (retval + 1) (i + 1) ps

abbrev pub or_close : ℕ → Bool → Option ℕ × ℕ → (ℕ → Option (ℕ × ℕ) × ℕ) → Option (ℕ × ℕ) × ℕ
or_close d closes (some port, retval) next = (some (d, port), retval)
or_close d true (none, retval) next = next retval
or_close d false (none, retval) next = next (retval + 1)

-- The loop over the devices. A device that cannot be queried is closed, and the result not counted.
unfoldable pub find_device : ℕ → ℕ → ℕ → List Device → Option (ℕ × ℕ) × ℕ
unfolding find_port
find_device id retval d [] = (none, retval)
find_device id retval d (v ∷ vs) =
    if v.opens && v.queried
    then or_close d v.closes (find_port id retval 1 v.ports) (λ rv. find_device id rv (d + 1) vs)
    else find_device id (retval + 1) (d + 1) vs

-- 0 if a port is found, whatever failed before.
abbrev pub clear_retval : Option (ℕ × ℕ) × ℕ → Option (ℕ × ℕ) × ℕ
clear_retval (some f, retval) = (some f, 0)
clear_retval (none, retval) = (none, retval)

-- The index of the device and the port, and the return code; the list of devices is `none` if
-- ibv_get_device_list(3) fails.
unfoldable pub open_device_for_interface_id : ℕ → Option (List Device) → Option (ℕ × ℕ) × ℕ
unfolding find_device
open_device_for_interface_id interface_id none = (none, 2)
open_device_for_interface_id interface_id (some []) = (none, 2)
open_device_for_interface_id interface_id (some (v ∷ vs)) =
    clear_retval (find_device (swap64 interface_id) 1 0 (v ∷ vs))
