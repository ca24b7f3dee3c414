-- ===== src/Ibv/Interface.antt =====
-- `hashpipe_ibv_get_interface_info`: the hardware address of an interface, and the interface
-- identifier that is made of it. socket(2) and ioctl(2) answer through arguments.
pub mod Identifier
use hashpipe.Base.{ℕ, ◌+◌, ◌*◌, ◌/◌, ◌%◌, ◌^◌, if◌then◌else◌, bit_xor}
use hashpipe.Base.{Bool, true, false, Option, none, some, List, [], ◌∷◌}
use hashpipe.Ibv.Device.{swap64}

-- The first bytes of `ifr_hwaddr.sa_data`.
pub record HwAddr : Type 0 where
  pub byte0 : ℕ
  pub byte1 : ℕ
  pub byte2 : ℕ
  pub byte3 : ℕ
  pub byte4 : ℕ
  pub byte5 : ℕ

-- What the caller passes, and what the calls answer (`none`: they fail).
pub record InfoCalls : Type 0 where
  pub interface_name : Bool
  pub wants_mac : Bool
  pub wants_interface_id : Bool
  pub socket : Option ℕ
  pub hwaddr : Option HwAddr

-- Eight bytes in memory as a `uint64_t`, on a little-endian host.
unfoldable pub load : List ℕ → ℕ
load [] = 0
load (b ∷ bs) = b + 256 * load bs

-- The modified EUI-64 of the address.
unfoldable pub eui64 : HwAddr → List ℕ
eui64 a = bit_xor a.byte0 2 ∷ a.byte1 ∷ a.byte2 ∷ 0xff ∷ 0xfe ∷ a.byte3 ∷ a.byte4 ∷ a.byte5 ∷ []

unfoldable pub interface_id_of : HwAddr → ℕ
unfolding load eui64
interface_id_of a = swap64 (load (eui64 a))

abbrev pub if_wanted {ℓ} : {A : Type ℓ} → Bool → A → Option A
if_wanted true a = some a
if_wanted false a = none

-- What is returned and stored, and the descriptors that are closed.
pub record Info : Type 0 where
  pub rc : ℕ
  pub mac : Option HwAddr
  pub interface_id : Option ℕ
  pub closed : List ℕ

abbrev pub fails : ℕ → List ℕ → Info
fails rc closed = record { rc = rc; mac = none; interface_id = none; closed = closed }

unfoldable pub after_ioctl : InfoCalls → ℕ → Option HwAddr → Info
unfolding interface_id_of
after_ioctl c fd none = fails 3 (fd ∷ [])
after_ioctl c fd (some a) = record {
  rc = 0;
  mac = if_wanted c.wants_mac a;
  interface_id = if_wanted c.wants_interface_id (interface_id_of a);
  closed = fd ∷ [];
}

unfoldable pub get_interface_info : InfoCalls → Info
unfolding after_ioctl
get_interface_info c =
    if c.interface_name
    then (elim c.socket [ none ↦ fails 2 [] | some fd ↦ after_ioctl c fd c.hwaddr ])
    else fails 1 []
