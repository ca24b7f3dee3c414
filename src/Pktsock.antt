-- ===== src/Pktsock.antt =====
-- hashpipe_pktsock.c and .h: a ring of packet frames shared with the kernel. The kernel's part (the
-- answers of socket(2), bind(2), setsockopt(2), mmap(2), poll(2), and what it stores into the ring)
-- is an argument of the functions that depend on it.
pub mod Open
pub mod Frames
use hashpipe.Base.{
  ℕ, zero, suc, ◌+◌, ◌-◌, ◌*◌, ◌/◌, ◌%◌, ◌^◌, ◌==◌, ltb, leb, if◌then◌else◌, not, ◌||◌, ◌&&◌,
}
use hashpipe.Base.{
  ◌≡◌, ◌≢◌, arith, Bool, true, false, Option, none, some, List, [], ◌∷◌, bit_and, bit_or,
}

-- `struct hashpipe_pktsock`; `p_ring` is an address.
pub record PktSock : Type 0 where
  pub frame_size : ℕ
  pub nframes : ℕ
  pub nblocks : ℕ
  pub fd : ℕ
  pub p_ring : ℕ
  pub next_idx : ℕ

-- The ring's memory: the fields of the header of the frame at an address, and the bytes.
pub record Ring : Type 0 where
  pub tp_status : ℕ → ℕ
  pub tp_net : ℕ → ℕ
  pub byte : ℕ → ℕ

-- `unsigned int` arithmetic
abbrev pub uint : ℕ → ℕ
uint n = n % 2 ^ 32

-- PKT_NET(p), PKT_IS_UDP(p) with IPPROTO_UDP 17, PKT_UDP_DST(p), PKT_UDP_SIZE(p), PKT_UDP_DATA(p)
unfoldable pub pkt_net : Ring → ℕ → ℕ
pkt_net m p = p + m.tp_net p

unfoldable pub pkt_is_udp : Ring → ℕ → Bool
unfolding pkt_net
pkt_is_udp m p = m.byte (pkt_net m p + 0x09) == 17

unfoldable pub pkt_udp_dst : Ring → ℕ → ℕ
unfolding pkt_net
pkt_udp_dst m p = bit_or (m.byte (pkt_net m p + 0x16) * 2 ^ 8) (m.byte (pkt_net m p + 0x17))

unfoldable pub pkt_udp_size : Ring → ℕ → ℕ
unfolding pkt_net
pkt_udp_size m p = bit_or (m.byte (pkt_net m p + 0x18) * 2 ^ 8) (m.byte (pkt_net m p + 0x19))

unfoldable pub pkt_udp_data : Ring → ℕ → ℕ
unfolding pkt_net
pkt_udp_data m p = pkt_net m p + 0x1c

-- `struct tpacket_req`
pub record TpacketReq : Type 0 where
  pub tp_block_size : ℕ
  pub tp_block_nr : ℕ
  pub tp_frame_size : ℕ
  pub tp_frame_nr : ℕ

-- What the system answers to the calls of `hashpipe_pktsock_open`; `none` and `false` are -1.
pub record OpenCalls : Type 0 where
  pub page_size : ℕ
  pub socket : Option ℕ
  pub bind : Bool
  pub setsockopt : TpacketReq → Bool
  pub mmap : ℕ → Option ℕ

pub data Opened : Type 0 where
  opened : PktSock → Opened
  -- -1 with EINVAL
  invalid : Opened
  -- -2, -3, -4, -5
  no_socket no_bind no_ring no_map : Opened
  -- a division by zero
  undefined : Opened

-- BLOCK_SIZE(p_ps)
unfoldable pub block_size : PktSock → ℕ
block_size s = uint (s.frame_size * s.nframes) / s.nblocks

abbrev pub ring_request : PktSock → TpacketReq
ring_request s = record {
  tp_block_size = uint (s.frame_size * s.nframes) / s.nblocks;
  tp_block_nr = s.nblocks;
  tp_frame_size = s.frame_size;
  tp_frame_nr = s.nframes;
}

unfoldable pub after_mmap : PktSock → Option ℕ → Opened
after_mmap s none = no_map
after_mmap s (some p) = opened (record s { p_ring = p; next_idx = 0 })

unfoldable pub after_socket : OpenCalls → PktSock → Option ℕ → Opened
unfolding after_mmap
after_socket sys s none = no_socket
after_socket sys s (some fd) =
    let s' = record s { fd = fd } in
    if not sys.bind
    then no_bind
    else if not (sys.setsockopt (ring_request s'))
    then no_ring
    else after_mmap s' (sys.mmap (uint (s.frame_size * s.nframes)))

unfoldable pub open_sock : OpenCalls → PktSock → Opened
unfolding block_size after_socket
open_sock sys s =
    if s.nblocks == 0
    then undefined
    else if not (s.nframes % s.nblocks == 0) || not (block_size s % sys.page_size == 0)
    then invalid
    else after_socket sys s sys.socket

-- The offset of the frame is a product of 32 bits. TP_STATUS_USER is 1, TP_STATUS_KERNEL is 0.
unfoldable pub recv_frame_nonblock : PktSock → Ring → Option ℕ × PktSock
recv_frame_nonblock s m =
    let frame = s.p_ring + uint (s.next_idx * s.frame_size) in
    if bit_and (m.tp_status frame) 1 == 0 then (none, s) else (
      some frame,
      record s {
        next_idx = if leb s.nframes (uint (s.next_idx + 1)) then 0 else uint (s.next_idx + 1);
      },
    )

-- After the first look: `polled` is the ring after poll(2), `none` if it returned 0.
unfoldable pub after_look : Ring → Option Ring → Option ℕ × PktSock → Option ℕ × PktSock × Ring
unfolding recv_frame_nonblock
after_look m polled (some frame, s) = (some frame, s, m)
after_look m none (none, s) = (none, s, m)
after_look m (some m') (none, s) = let (f, s') = recv_frame_nonblock s m' in (f, s', m')

unfoldable pub recv_frame : PktSock → Ring → Option Ring → Option ℕ × PktSock × Ring
unfolding after_look
recv_frame s m polled = after_look m polled (recv_frame_nonblock s m)

unfoldable pub release_frame : Ring → ℕ → Ring
release_frame m frame = record m { tp_status = λ a. if frame == a then 0 else m.tp_status a }

-- A frame that is not UDP to the port is released and not returned.
unfoldable pub keep_udp : ℕ → Option ℕ × PktSock × Ring → Option ℕ × PktSock × Ring
keep_udp dst_port (none, s, m) = (none, s, m)
keep_udp dst_port (some frame, s, m) =
    if not (pkt_is_udp m frame && pkt_udp_dst m frame == dst_port)
    then (none, s, release_frame m frame)
    else (some frame, s, m)

unfoldable pub recv_udp_frame_nonblock : PktSock → Ring → ℕ → Option ℕ × PktSock × Ring
unfolding keep_udp
recv_udp_frame_nonblock s m dst_port =
    let (f, s') = recv_frame_nonblock s m in keep_udp dst_port (f, s', m)

unfoldable pub recv_udp_frame : PktSock → Ring → ℕ → Option Ring → Option ℕ × PktSock × Ring
unfolding keep_udp recv_frame
recv_udp_frame s m dst_port polled = keep_udp dst_port (recv_frame s m polled)

-- Whether munmap(2) of so many bytes and close(2) succeed; `true` is 0, `false` -1.
unfoldable pub close : (ℕ → Bool) → Bool → PktSock → Bool
close munmap closes s = munmap (uint (s.frame_size * s.nframes)) && closes

-- `struct tpacket_stats`, as getsockopt(2) leaves it.
pub record TpacketStats : Type 0 where
  pub tp_packets : ℕ
  pub tp_drops : ℕ

-- Nothing is stored at NULL.
unfoldable store_at : Option ℕ → ℕ → (ℕ → ℕ) → ℕ → ℕ
store_at none n memory = memory
store_at (some p) n memory = λ a. if a == p then n else memory a

-- The caller's variables, which are at two addresses or NULL.
unfoldable pub stats : TpacketStats → Option ℕ → Option ℕ → (ℕ → ℕ) → ℕ → ℕ
unfolding store_at
stats counters p_pkts p_drops memory =
    store_at p_drops counters.tp_drops (store_at p_pkts counters.tp_packets memory)

-- The counters that are asked for are stored, also if only one of them is, and nothing else changes.
stats_lem :
    (counters : TpacketStats) (p q : Option ℕ) (memory : ℕ → ℕ) (a : ℕ)
    → (p ≡ some a → q ≢ some a → stats counters p q memory a ≡ counters.tp_packets)
      × (q ≡ some a → stats counters p q memory a ≡ counters.tp_drops)
      × (p ≢ some a → q ≢ some a → stats counters p q memory a ≡ memory a)
unfolding stats store_at
stats_lem counters none none memory a = (ground arith, ground arith, ground arith)
stats_lem counters none (some q) memory a = (ground arith, ground arith, ground arith)
stats_lem counters (some p) none memory a = (ground arith, ground arith, ground arith)
stats_lem counters (some p) (some q) memory a = (ground arith, ground arith, ground arith)
