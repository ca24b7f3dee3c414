-- ===== src/Packet.antt =====
-- hashpipe_packet.h: the headers of a UDP packet, on a little-endian host. A field is the number
-- that the host reads from it; `htons` and `htonl` swap its bytes.
pub mod Checksum
pub mod Headers
use hashpipe.Base.{ℕ, zero, suc, ◌+◌, ◌-◌, ◌*◌, ◌/◌, ◌%◌, ◌^◌, ◌==◌, if◌then◌else◌, bit_and}
use hashpipe.Base.{Option, none, some, List, [], ◌∷◌, get_or, set, take}

-- htons(3) and ntohs(3)
abbrev pub swap16 : ℕ → ℕ
swap16 x = x % 256 * 256 + x / 256 % 256

-- htonl(3)
abbrev pub swap32 : ℕ → ℕ
swap32 x = swap16 (x % 2 ^ 16) * 2 ^ 16 + swap16 (x / 2 ^ 16 % 2 ^ 16)

pub record EthHdr : Type 0 where
  pub h_dest : List ℕ
  pub h_source : List ℕ
  pub h_proto : ℕ

pub record IpHdr : Type 0 where
  pub version : ℕ
  pub ihl : ℕ
  pub tos : ℕ
  pub tot_len : ℕ
  pub id : ℕ
  pub frag_off : ℕ
  pub ttl : ℕ
  pub protocol : ℕ
  pub check : ℕ
  pub saddr : ℕ
  pub daddr : ℕ

pub record UdpHdr : Type 0 where
  pub uh_sport : ℕ
  pub uh_dport : ℕ
  pub uh_ulen : ℕ
  pub uh_sum : ℕ

-- `(mac >> (8*(5-i))) & 0xff` for `i` from `6 - n` to 5
unfoldable pub mac_bytes : ℕ → ℕ → List ℕ
mac_bytes mac zero = []
mac_bytes mac (suc n) = bit_and (mac / 2 ^ (8 * n)) 0xff ∷ mac_bytes mac n

unfoldable pub ethhdr_init : ℕ → ℕ → ℕ → EthHdr
unfolding mac_bytes
ethhdr_init dst_mac src_mac ether_type = record {
  h_dest = mac_bytes dst_mac 6;
  h_source = mac_bytes src_mac 6;
  h_proto = swap16 ether_type;
}

-- IPVERSION 4, IP_DF 0x4000, IPDEFTTL 64, IPPROTO_UDP 17; a `struct iphdr` has 20 bytes.
unfoldable pub iphdr_init : ℕ → ℕ → IpHdr
iphdr_init src_ip dst_ip = record {
  version = 4;
  ihl = 5;
  tos = 0;
  tot_len = swap16 20;
  id = 0;
  frag_off = swap16 0x4000;
  ttl = 64;
  protocol = 17;
  check = 0;
  saddr = swap32 src_ip;
  daddr = swap32 dst_ip;
}

-- A `struct udphdr` has 8 bytes.
unfoldable pub udphdr_init : ℕ → ℕ → UdpHdr
udphdr_init src_port dst_port = record {
  uh_sport = swap16 src_port;
  uh_dport = swap16 dst_port;
  uh_ulen = swap16 8;
  uh_sum = 0;
}

unfoldable pub udppkt_length : IpHdr → UdpHdr → ℕ → IpHdr × UdpHdr
udppkt_length ip udp payload_length = (
  record ip { tot_len = swap16 (20 + 8 + payload_length) },
  record udp { uh_ulen = swap16 (8 + payload_length) },
)

-- `sum32 += ntohs(p[i])` over the words
unfoldable pub add_words : ℕ → List ℕ → ℕ
add_words sum32 [] = sum32
add_words sum32 (w ∷ ws) = add_words ((sum32 + swap16 w) % 2 ^ 32) ws

-- While an upper bit is set, the upper half is added to the lower. `none`: not done within the
-- fuel.
unfoldable pub fold_carries : ℕ → ℕ → Option ℕ
fold_carries zero sum32 = none
fold_carries (suc fuel) sum32 =
    let rest = fold_carries fuel (sum32 / 2 ^ 16 % 2 ^ 16 + sum32 % 2 ^ 16) in
    if sum32 / 2 ^ 16 == 0 then some sum32 else rest

-- `iphdr->check = ~((uint16_t)(sum32 & 0xffff))`, which is also returned
abbrev pub store_check : List ℕ → Option ℕ → Option (ℕ × List ℕ)
store_check p none = none
store_check p (some sum32) =
    some (2 ^ 16 - 1 - sum32 % 2 ^ 16, set p 5 (2 ^ 16 - 1 - sum32 % 2 ^ 16))

-- The header's words `p` and its `ihl`: the value returned, and the words with it stored. The sum
-- starts at minus the old checksum.
unfoldable pub iphdr_checksum : ℕ → ℕ → List ℕ → Option (ℕ × List ℕ)
iphdr_checksum fuel ihl p =
    store_check p
      (fold_carries fuel (add_words ((2 ^ 32 - swap16 (get_or p 5 0)) % 2 ^ 32) (take (2 * ihl) p)))
