-- ===== src/Ibv/Flow/Multicast.antt =====
-- The test for a multicast address.
use hashpipe.Base.{ℕ, ◌*◌, ◌/◌, ◌%◌, ◌^◌, ◌<◌, ◌≡◌, arith}
use hashpipe.Base.{◌==◌, bit_and, bit_and_step, bit_and_mask}
use hashpipe.Packet.{swap32}
use hashpipe.Ibv.Flow.{is_multicast_be}

-- The upper half of the lowest byte.
half_byte : (y : ℕ) → bit_and y 0xf0 ≡ y / 16 % 16 * 16
half_byte y = omega (
  arith,
  bit_and_step y 0xf0,
  bit_and_step (y / 2) 0x78,
  bit_and_step (y / 2 / 2) 0x3c,
  bit_and_step (y / 2 / 2 / 2) 0x1e,
  bit_and_mask 4 (y / 2 / 2 / 2 / 2),
)

first_byte : (ip : ℕ) → ip < 2 ^ 32 → swap32 ip / 16 % 16 ≡ ip / 2 ^ 28
first_byte ip l = omega arith

-- `mcast_membership` takes an address for multicast exactly if its first four bits in host byte
-- order are 1110, which is what IN_MULTICAST tests.
pub is_multicast_be-swap32 :
    (ip : ℕ) → ip < 2 ^ 32 → is_multicast_be (swap32 ip) ≡ ip / 2 ^ 28 == 14
is_multicast_be-swap32 ip l = ground (arith, half_byte (swap32 ip), first_byte ip l)
