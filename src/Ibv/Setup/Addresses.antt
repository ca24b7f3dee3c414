-- ===== src/Ibv/Setup/Addresses.antt =====
-- Where the packets lie in the registered memory.
use hashpipe.Base.{ℕ, ◌+◌, ◌*◌, ◌%◌, ◌^◌, ◌≤◌, ◌<◌, ◌≡◌, arith, ap}
use hashpipe.Ibv.Setup.{packet_address, mr_size}

below_end : (s i j : ℕ) → i < j → i * s + s ≤ j * s
below_end s i j h = grind arith

-- If all packets together have less than 2 ^ 32 bytes, and the memory does not reach the end of the
-- addresses, each packet lies inside the registered memory, and overlaps no later one.
pub packet_address-disjoint :
    (mr_buf pkt_size_max pkt_num nqp i : ℕ)
    → pkt_num * nqp * pkt_size_max < 2 ^ 32
    → mr_buf + pkt_num * nqp * pkt_size_max < 2 ^ 64
    → i < pkt_num * nqp
    → (mr_buf ≤ packet_address mr_buf pkt_size_max i)
      × (packet_address mr_buf pkt_size_max i + pkt_size_max
          ≤ mr_buf + mr_size pkt_num pkt_size_max nqp)
      × ((j : ℕ)
          → i < j
          → j < pkt_num * nqp
          → packet_address mr_buf pkt_size_max i + pkt_size_max
            ≤ packet_address mr_buf pkt_size_max j)
unfolding packet_address mr_size
packet_address-disjoint mr_buf s pkt_num nqp i small fits inside = (
  omega (arith, below_end s i (pkt_num * nqp) inside),
  omega (arith, below_end s i (pkt_num * nqp) inside, same),
  λ j lt last. omega (arith, below_end s i j lt, below_end s j (pkt_num * nqp) last),
)
  where
    same : pkt_num * s * nqp ≡ pkt_num * nqp * s
    same = grind arith

-- From 2 ^ 32 bytes on, the offsets start again at 0, although the memory that is registered is as
-- large as all packets: if `q` packets have 2 ^ 32 bytes, packet `i + q` lies where packet `i` does.
packet_address-wraps :
    (mr_buf pkt_size_max q i : ℕ)
    → q * pkt_size_max ≡ 2 ^ 32
    → packet_address mr_buf pkt_size_max (i + q) ≡ packet_address mr_buf pkt_size_max i
unfolding packet_address
packet_address-wraps mr_buf s q i e = ap (λ o. (mr_buf + o) % 2 ^ 64) (omega (arith, e, spread))
  where
    spread : (i + q) * s ≡ i * s + q * s
    spread = omega arith
