-- ===== src/Ibv/Setup.antt =====
-- `hashpipe_ibv_init`: the addresses of the packets, and the lists that the work requests are linked
-- into, for buffers that the library manages.
pub mod Lists
pub mod Elements
pub mod Addresses
use hashpipe.Base.{
  ℕ, zero, suc, ◌+◌, ◌-◌, ◌*◌, ◌/◌, ◌%◌, ◌^◌, if◌then◌else◌, Bool, true, false, Option, none, some,
}
use hashpipe.Ibv.{Context, link}

-- `uint32_t` arithmetic
abbrev pub uint32 : ℕ → ℕ
uint32 n = n % 2 ^ 32

-- `send_mr_buf + i * pkt_size_max`: the product is one of 32 bits, the sum one of 64.
unfoldable pub packet_address : ℕ → ℕ → ℕ → ℕ
packet_address mr_buf pkt_size_max i = (mr_buf + uint32 (i * pkt_size_max)) % 2 ^ 64

-- `send_pkt_num * pkt_size_max * nqp`, as a `size_t`
unfoldable pub mr_size : ℕ → ℕ → ℕ → ℕ
mr_size pkt_num pkt_size_max nqp = pkt_num * pkt_size_max * nqp % 2 ^ 64

-- From element `i` on, `n` elements are linked to the one behind them, and the last to none.
unfoldable pub link_from : ℕ → ℕ → (ℕ → Option ℕ) → ℕ → Option ℕ
link_from zero i next = link next i none
link_from (suc n) i next = link_from n (i + 1) (link next i (some (i + 1)))

-- All send packets, of all queue pairs, in one list.
unfoldable pub link_sends : ℕ → Context → Context
unfolding link_from
link_sends nqp c = record c {
  next = link_from (uint32 (c.send_pkt_num * nqp) - 1) 0 c.next;
  send_pkt_head = some 0;
}

-- The receive packets of `n` queue pairs from number `q` on, each in a list of its own, which is
-- posted to the queue pair (`posted q` is whether ibv_post_recv(3) succeeds). The first packet of a
-- list is a product of 32 bits; it is stored in an int, which does not change it below 2 ^ 31.
unfoldable pub link_recvs : (ℕ → Bool) → ℕ → ℕ → ℕ → (ℕ → Option ℕ) → (ℕ → Option ℕ) × Bool
unfolding link_from
link_recvs posted pkt_num zero q next = (next, true)
link_recvs posted pkt_num (suc n) q next =
    let rest =
      link_recvs posted pkt_num n (q + 1) (link_from (pkt_num - 1) (uint32 (q * pkt_num)) next) in
    if posted q then rest else (link_from (pkt_num - 1) (uint32 (q * pkt_num)) next, false)
