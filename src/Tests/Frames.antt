-- ===== src/Tests/Frames.antt =====
-- The theorems on packet headers and packet sockets.
use hashpipe.Base.{ℕ, ◌+◌, ◌%◌, ◌^◌, ◌<◌, ◌≡◌, refl, ◌≢◌, ◌⊎◌, arith, ◌==◌, if◌then◌else◌}
use hashpipe.Base.{true, false, none, some, List, [], ◌∷◌, set, length}
use hashpipe.Packet.{swap16, swap32, iphdr_init, udphdr_init, udppkt_length, iphdr_checksum}
use hashpipe.Packet.Checksum.{total, iphdr_checksum_lem}
use hashpipe.Packet.Headers.{udppkt-read}
use hashpipe.Pktsock.{
  PktSock, Ring, OpenCalls, opened, open_sock, after_socket, after_mmap, block_size,
  recv_udp_frame_nonblock, release_frame,
}
use hashpipe.Pktsock.Open.{AreInside, open_sock-receive}
use hashpipe.Pktsock.{ring_request}
use hashpipe.Base.{◌*◌}
use hashpipe.Pktsock.Frames.{
  IsReady, frame_at, after, receive, consecutive, wanted, receive-consecutive,
  recv_udp_frame_nonblock_lem,
}

-- The words of an IP header of 20 bytes.
abbrev header : List ℕ
header = 69 ∷ 0x3000 ∷ 0 ∷ 64 ∷ 0x1140 ∷ 0 ∷ 0x000a ∷ 0x0100 ∷ 0x000a ∷ 0x0200 ∷ []

iphdr_checksum_lem_example :
    (c : ℕ) × (iphdr_checksum 3 5 header ≡ some (c, set header 5 c))
    × (c < 2 ^ 16)
    × ((total (set header 5 0) + c) % 65535 ≡ 0)
iphdr_checksum_lem_example = iphdr_checksum_lem 5 header (omega arith) (omega arith) refl

udppkt-read_example :
    let (ip, udp) = udppkt_length (iphdr_init 0x0a000001 0x0a000002) (udphdr_init 5000 6000) 1024 in
    (swap16 ip.tot_len ≡ swap16 udp.uh_ulen + 20)
    × (swap16 udp.uh_ulen ≡ 1024 + 8)
    × (swap32 ip.saddr ≡ 0x0a000001)
    × (swap32 ip.daddr ≡ 0x0a000002)
    × (swap16 udp.uh_sport ≡ 5000)
    × (swap16 udp.uh_dport ≡ 6000)
    × (ip.version ≡ 4)
    × (ip.ihl ≡ 5)
    × (ip.protocol ≡ 17)
udppkt-read_example =
    udppkt-read 0x0a000001 0x0a000002 5000 6000 1024 (omega arith) (omega arith) (omega arith)
      (omega arith) (omega arith)

abbrev sock : PktSock
sock = record { frame_size = 8192; nframes = 4; nblocks = 2; fd = 3; p_ring = 65536; next_idx = 3 }

abbrev granting : OpenCalls
granting = record {
  page_size = 4096;
  socket = some 5;
  bind = true;
  setsockopt = λ q. true;
  mmap = λ n. some 131072;
}

abbrev opened_sock : PktSock
opened_sock = record sock { fd = 5; p_ring = 131072; next_idx = 0 }

opens : open_sock granting sock ≡ opened opened_sock
unfolding open_sock block_size after_socket after_mmap
opens = refl

-- Every frame is the program's; each holds UDP (17) to port 5000.
abbrev ring : Ring
ring = record {
  tp_status = λ a. 1;
  tp_net = λ a. 80;
  byte = λ a. if a == 90201 then 17 else if a == 90214 then 19 else 136;
}

open_sock-receive_example :
    (granting.setsockopt (ring_request opened_sock) ≡ true)
    × ((ring_request opened_sock).tp_block_size * (ring_request opened_sock).tp_block_nr ≡ 8192 * 4)
    × (granting.mmap (8192 * 4) ≡ some 131072)
    × AreInside 131072 (8192 * 4) 8192 (receive (ring ∷ ring ∷ []) opened_sock).0
open_sock-receive_example =
    open_sock-receive granting sock opened_sock (ring ∷ ring ∷ []) opens (omega arith) (omega arith)
      (omega arith)

receive-consecutive_example :
    ((receive (ring ∷ ring ∷ []) sock).0
      ≡ consecutive sock 3 (length (receive (ring ∷ ring ∷ []) sock).0))
    × ((receive (ring ∷ ring ∷ []) sock).1.next_idx < (receive (ring ∷ ring ∷ []) sock).1.nframes)
receive-consecutive_example =
    receive-consecutive (ring ∷ ring ∷ []) sock (omega arith) (omega arith) (omega arith)

recv_udp_frame_nonblock_lem_example :
    let f = frame_at sock 3 in
    let s' = record sock { next_idx = after sock 3 } in
    ((¬ IsReady sock ring) × (recv_udp_frame_nonblock sock ring 5000 ≡ (none, sock, ring)))
    ⊎ (IsReady sock ring
        × (wanted 5000 ring f ≡ true)
        × (recv_udp_frame_nonblock sock ring 5000 ≡ (some f, s', ring)))
    ⊎ (IsReady sock ring
        × (wanted 5000 ring f ≡ false)
        × (recv_udp_frame_nonblock sock ring 5000 ≡ (none, s', release_frame ring f))
        × ((release_frame ring f).tp_status f ≡ 0)
        × ((a : ℕ) → a ≢ f → (release_frame ring f).tp_status a ≡ ring.tp_status a))
recv_udp_frame_nonblock_lem_example =
    recv_udp_frame_nonblock_lem sock ring 5000 (omega arith) (omega arith) (omega arith)
