-- ===== src/Packet/Headers.antt =====
-- The addresses and lengths that the initialisers write, read back by a receiver.
use hashpipe.Base.{ℕ, ◌+◌, ◌*◌, ◌/◌, ◌%◌, ◌^◌, ◌<◌, ◌≡◌, arith, bit_and_mask, List, [], ◌∷◌}
use hashpipe.Packet.{swap16, swap32, mac_bytes, ethhdr_init, iphdr_init, udphdr_init, udppkt_length}

-- The number that bytes stand for, the most significant first.
abbrev pub read_bytes : ℕ → List ℕ → ℕ
read_bytes acc [] = acc
read_bytes acc (b ∷ bs) = read_bytes (acc * 256 + b) bs

-- Both addresses of an Ethernet header come out most significant byte first, and the type in
-- network byte order: a receiver reads back what was given, the addresses by their 48 low bits.
pub ethhdr_init-read :
    (dst src ty : ℕ)
    → ty < 2 ^ 16
    → (read_bytes 0 (ethhdr_init dst src ty).h_dest ≡ dst % 2 ^ 48)
      × (read_bytes 0 (ethhdr_init dst src ty).h_source ≡ src % 2 ^ 48)
      × (swap16 (ethhdr_init dst src ty).h_proto ≡ ty)
unfolding ethhdr_init
ethhdr_init-read dst src ty h = (mac dst, mac src, omega arith)
  where
    mac : (m : ℕ) → read_bytes 0 (mac_bytes m 6) ≡ m % 2 ^ 48
    mac m = omega (
      arith,
      bit_and_mask 8 (m / 2 ^ 40),
      bit_and_mask 8 (m / 2 ^ 32),
      bit_and_mask 8 (m / 2 ^ 24),
      bit_and_mask 8 (m / 2 ^ 16),
      bit_and_mask 8 (m / 2 ^ 8),
      bit_and_mask 8 (m / 2 ^ 0),
    )

-- After the initialisers and the setting of the payload's length, a receiver reads the addresses
-- and ports that were given, and lengths that agree: the IP length is the UDP length and 20 more,
-- and the UDP length is the payload's and 8 more, if the whole fits 16 bits.
pub udppkt-read :
    (src_ip dst_ip src_port dst_port len : ℕ)
    → src_ip < 2 ^ 32
    → dst_ip < 2 ^ 32
    → src_port < 2 ^ 16
    → dst_port < 2 ^ 16
    → len + 28 < 2 ^ 16
    → let (ip, udp) =
        udppkt_length (iphdr_init src_ip dst_ip) (udphdr_init src_port dst_port) len in
      (swap16 ip.tot_len ≡ swap16 udp.uh_ulen + 20)
      × (swap16 udp.uh_ulen ≡ len + 8)
      × (swap32 ip.saddr ≡ src_ip)
      × (swap32 ip.daddr ≡ dst_ip)
      × (swap16 udp.uh_sport ≡ src_port)
      × (swap16 udp.uh_dport ≡ dst_port)
      × (ip.version ≡ 4)
      × (ip.ihl ≡ 5)
      × (ip.protocol ≡ 17)
unfolding udppkt_length iphdr_init udphdr_init
udppkt-read src_ip dst_ip src_port dst_port len a b c d e = omega arith
