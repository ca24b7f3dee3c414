-- ===== src/Pktsock/Open.antt =====
-- The packet ring that `hashpipe_pktsock_open` gets, and the frames in it.
use native.Mathlib.Nat.{div-add-mod', div-eq_of_eq-mul_left}
use hashpipe.Base.{sym, ℕ, ◌*◌, ◌/◌, ◌%◌, ◌^◌, ◌<◌, ◌≡◌, ◌≢◌, arith, ap, ◌∙◌}
use hashpipe.Base.{true, some, List, [], ◌∷◌, zero, suc, ◌+◌, ◌≤◌, ap₂, subst, length}
use native.Mathlib.Nat.{mod-lt}
use hashpipe.Pktsock.Frames.{after, receive, consecutive, receive-consecutive}
use hashpipe.Pktsock.{
  PktSock, Ring, OpenCalls, opened, ring_request, open_sock, after_socket, after_mmap, uint,
}

-- What an opened socket is.
record IsOpen (sys : OpenCalls) (s t : PktSock) : Type 0 where
  same_sizes : (t.frame_size ≡ s.frame_size) × (t.nframes ≡ s.nframes) × (t.nblocks ≡ s.nblocks)
  at_start : t.next_idx ≡ 0
  some_blocks : s.nblocks ≢ 0
  whole_blocks : s.nframes % s.nblocks ≡ 0
  granted : sys.setsockopt (ring_request t) ≡ true
  mapped : sys.mmap (uint (s.frame_size * s.nframes)) ≡ some t.p_ring

open_sock-IsOpen : (sys : OpenCalls) (s t : PktSock) → open_sock sys s ≡ opened t → IsOpen sys s t
unfolding open_sock after_socket after_mmap
open_sock-IsOpen sys s t h = ground arith

blocks_of_frames : (f n b : ℕ) → b ≢ 0 → n % b ≡ 0 → f * n < 2 ^ 32 → f * n % 2 ^ 32 / b * b ≡ f * n
blocks_of_frames f n b pos whole small =
    ap (λ q. q * b) (div-eq_of_eq-mul_left (omega arith) (omega arith ∙ product)) ∙ sym product
  where
    frames : n ≡ n / b * b
    frames = omega (arith, div-add-mod' n b)

    product : f * n ≡ f * (n / b) * b
    product = ap (λ k. f * k) frames ∙ omega arith

-- Below 2 ^ 32 bytes, if a block is a whole number of frames, the blocks asked for make up exactly
-- the frames asked for.
ring_request-size :
    (s : PktSock)
    → s.nblocks ≢ 0
    → s.nframes % s.nblocks ≡ 0
    → s.frame_size * s.nframes < 2 ^ 32
    → (ring_request s).tp_block_size * (ring_request s).tp_block_nr
      ≡ (ring_request s).tp_frame_size * (ring_request s).tp_frame_nr
ring_request-size s pos whole small =
    blocks_of_frames s.frame_size s.nframes s.nblocks pos whole small

-- Frames that lie in the `size` bytes from `start` on.
abbrev pub AreInside : ℕ → ℕ → ℕ → List ℕ → Type 0
AreInside start size frame_size [] = Unit
AreInside start size frame_size (f ∷ fs) =
    (start ≤ f) × (f + frame_size ≤ start + size) × AreInside start size frame_size fs

last_byte : (i n size : ℕ) → i < n → i * size + size ≤ size * n
last_byte i n size h = grind arith

consecutive-AreInside :
    (s : PktSock) (i n : ℕ)
    → i < s.nframes
    → AreInside s.p_ring (s.frame_size * s.nframes) s.frame_size (consecutive s i n)
consecutive-AreInside s i zero l = tt
consecutive-AreInside s i (suc n) l = (
  omega arith,
  omega (arith, last_byte i s.nframes s.frame_size l),
  consecutive-AreInside s (after s i) n (mod-lt _ (omega arith)),
)

swapped : (n f : ℕ) → n * f ≡ f * n
swapped n f = grind arith

-- If a socket is opened, has a frame at least, and the number of frames and their bytes are below
-- 2 ^ 32: the kernel has granted a ring whose blocks have exactly the bytes of the frames, as many
-- bytes are mapped, and every frame that is received from the socket from then on, whatever the kernel
-- stores in the ring, lies inside this mapping.
pub open_sock-receive :
    (sys : OpenCalls) (s t : PktSock) (ms : List Ring)
    → open_sock sys s ≡ opened t
    → 0 < s.nframes
    → s.nframes < 2 ^ 32
    → s.frame_size * s.nframes < 2 ^ 32
    → (sys.setsockopt (ring_request t) ≡ true)
      × ((ring_request t).tp_block_size * (ring_request t).tp_block_nr ≡ s.frame_size * s.nframes)
      × (sys.mmap (s.frame_size * s.nframes) ≡ some t.p_ring)
      × AreInside t.p_ring (s.frame_size * s.nframes) s.frame_size (receive ms t).0
open_sock-receive sys s t ms h some_ count small = (
  o.granted,
  ring_request-size t (subst (λ b. b ≢ 0) (sym blocks) o.some_blocks)
        (ap₂ ◌%◌ frames blocks ∙ o.whole_blocks) (subst (λ n. n < 2 ^ 32) (sym bytes) small)
      ∙ bytes,
  subst (λ n. sys.mmap n ≡ some t.p_ring) whole o.mapped,
  subst (λ n. AreInside t.p_ring n s.frame_size (receive ms t).0) bytes
      (subst (λ f. AreInside t.p_ring (t.frame_size * t.nframes) f (receive ms t).0) size
        (subst (AreInside t.p_ring (t.frame_size * t.nframes) t.frame_size) (sym got.0)
          (consecutive-AreInside t t.next_idx _ inside))),
)
  where
    o : IsOpen sys s t
    o = open_sock-IsOpen sys s t h

    size : t.frame_size ≡ s.frame_size
    size = o.same_sizes.0

    frames : t.nframes ≡ s.nframes
    frames = o.same_sizes.1

    blocks : t.nblocks ≡ s.nblocks
    blocks = o.same_sizes.2

    bytes : t.frame_size * t.nframes ≡ s.frame_size * s.nframes
    bytes = ap₂ ◌*◌ size frames

    whole : uint (s.frame_size * s.nframes) ≡ s.frame_size * s.nframes
    whole = omega (arith, small)

    inside : t.next_idx < t.nframes
    inside = omega (arith, o.at_start, frames, some_)

    got :
        ((receive ms t).0 ≡ consecutive t t.next_idx (length (receive ms t).0))
        × ((receive ms t).1.next_idx < (receive ms t).1.nframes)
    got =
        receive-consecutive ms t inside (omega (arith, frames, count))
          (omega (arith, bytes, small, swapped t.nframes t.frame_size))
