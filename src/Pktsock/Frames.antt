-- ===== src/Pktsock/Frames.antt =====
-- Which frame is received next, and what happens to the frames that are not wanted.
use hashpipe.Base.{
  ℕ, zero, suc, ◌+◌, ◌*◌, ◌%◌, ◌<◌, ◌≡◌, refl, ◌≢◌, ◌⊎◌, inl, inr, arith, bit_and, ap, ◌∙◌, List,
  [], ◌∷◌,
}
use hashpipe.Base.{
  Bool, true, false, Option, none, some, Bool-cases, leb, dec_lt, ◌==◌, ◌&&◌, if◌then◌else◌, length,
}
use native.Mathlib.Nat.{mod-eq_of_lt, mod_self, mod-lt}
use hashpipe.Base.{◌^◌, ◌≤◌, subst, sym}
use hashpipe.Pktsock.{
  uint, PktSock, Ring, pkt_is_udp, pkt_udp_dst, recv_frame_nonblock, release_frame, keep_udp,
  recv_udp_frame_nonblock,
}

-- Frame `i` of the ring, and the next index round it.
abbrev pub frame_at : PktSock → ℕ → ℕ
frame_at s i = s.p_ring + i * s.frame_size

abbrev pub after : PktSock → ℕ → ℕ
after s i = (i + 1) % s.nframes

-- The frame at the next index belongs to the program.
abbrev pub IsReady : PktSock → Ring → Type 0
IsReady s m = bit_and (m.tp_status (frame_at s s.next_idx)) 1 ≢ 0

-- The sizes of a ring below 4 GiB.
abbrev pub ring_size : PktSock → ℕ
ring_size s = s.nframes * s.frame_size

offset_le : (i n size : ℕ) → i < n → i * size ≤ n * size
offset_le i n size h = grind arith

no_wrap : (i n size : ℕ) → i < n → n * size < 2 ^ 32 → uint (i * size) ≡ i * size
no_wrap i n size h small = omega (arith, offset_le i n size h)

round_trip : (i n : ℕ) → i < n → (if leb n (i + 1) then 0 else i + 1) ≡ (i + 1) % n
round_trip i n h = elim (dec_lt (i + 1) n) [
  | yes p ↦ ground (arith, mod-eq_of_lt {n = i + 1} {m = n} p)
  | no p ↦ let e : i + 1 ≡ n = omega arith in ground (arith, ap (λ k. k % n) e ∙ mod_self n)
]

-- An `unsigned int` counts round the ring; at 2 ^ 32 - 1 it comes to 0 by itself.
next_round :
    (i n : ℕ)
    → i < n
    → n < 2 ^ 32
    → (if leb n (uint (i + 1)) then 0 else uint (i + 1)) ≡ (i + 1) % n
next_round i n h small =
    subst (λ k. (if leb n k then 0 else k) ≡ (i + 1) % n) (sym (unwrapped i n h small))
      (round_trip i n h)
  where
    unwrapped : (i n : ℕ) → i < n → n < 2 ^ 32 → uint (i + 1) ≡ i + 1
    unwrapped i n h small = omega arith

-- What a look at the ring gives: the frame at the next index and a step round the ring if the frame
-- is the program's, nothing and no change if not.
pub recv_frame_nonblock_lem :
    (s : PktSock) (m : Ring)
    → s.next_idx < s.nframes
    → s.nframes < 2 ^ 32
    → ring_size s < 2 ^ 32
    → (IsReady s m
        × (recv_frame_nonblock s m
            ≡ (some (frame_at s s.next_idx), record s { next_idx = after s s.next_idx })))
      ⊎ ((¬ IsReady s m) × (recv_frame_nonblock s m ≡ (none, s)))
unfolding recv_frame_nonblock
recv_frame_nonblock_lem s m h count small =
    elim (Bool-cases (bit_and (m.tp_status (frame_at s s.next_idx)) 1 == 0)) [
      | inl busy ↦ inr (ground arith, rw (same, busy))
      | inr ready ↦ inl (ground arith, rw (same, ready, next_round s.next_idx s.nframes h count))
    ]
  where
    same : uint (s.next_idx * s.frame_size) ≡ s.next_idx * s.frame_size
    same = no_wrap s.next_idx s.nframes s.frame_size h small

-- Looks at the ring, one after another, and the frames that they gave; the kernel may change the
-- ring between two of them.
abbrev received : Option ℕ → List ℕ × PktSock → List ℕ × PktSock
received none rest = rest
received (some f) (fs, u) = (f ∷ fs, u)

abbrev pub receive : List Ring → PktSock → List ℕ × PktSock
receive [] s = ([], s)
receive (m ∷ ms) s = received (recv_frame_nonblock s m).0 (receive ms (recv_frame_nonblock s m).1)

-- `n` frames from index `i` on, round the ring.
abbrev pub consecutive : PktSock → ℕ → ℕ → List ℕ
consecutive s i zero = []
consecutive s i (suc n) = frame_at s i ∷ consecutive s (after s i) n

consecutive_moved :
    (s : PktSock) (j i n : ℕ) → consecutive (record s { next_idx = j }) i n ≡ consecutive s i n
consecutive_moved s j i zero = refl
consecutive_moved s j i (suc n) = ap (λ l. frame_at s i ∷ l) (consecutive_moved s j (after s i) n)

-- If the next index is inside the ring, and the number of frames and the bytes of the ring are below
-- 2 ^ 32: the frames that are received are those of the ring from the next index on, one after
-- the other and round the ring, none skipped, however often the program looks and whatever the
-- kernel does in between; the next index stays inside the ring.
pub receive-consecutive :
    (ms : List Ring) (s : PktSock)
    → s.next_idx < s.nframes
    → s.nframes < 2 ^ 32
    → ring_size s < 2 ^ 32
    → ((receive ms s).0 ≡ consecutive s s.next_idx (length (receive ms s).0))
      × ((receive ms s).1.next_idx < (receive ms s).1.nframes)
receive-consecutive [] s h count small = (refl, h)
receive-consecutive (m ∷ ms) s h count small = elim (recv_frame_nonblock_lem s m h count small) [
  | inl (ready, e) ↦
      let s' : PktSock = record s { next_idx = after s s.next_idx } in
      let (fs, inside) = receive-consecutive ms s' (mod-lt _ (omega arith)) count small in
      rw e (
        ap (λ l. frame_at s s.next_idx ∷ l) (fs ∙ consecutive_moved s (after s s.next_idx) _ _),
        inside,
      )
  | inr (busy, e) ↦ rw e (receive-consecutive ms s h count small)
]

-- UDP to the port.
abbrev pub wanted : ℕ → Ring → ℕ → Bool
wanted port m f = pkt_is_udp m f && pkt_udp_dst m f == port

keep_none : (port : ℕ) (s : PktSock) (m : Ring) → keep_udp port (none, s, m) ≡ (none, s, m)
unfolding keep_udp
keep_none port s m = refl

keep_wanted :
    (port f : ℕ) (s : PktSock) (m : Ring)
    → wanted port m f ≡ true
    → keep_udp port (some f, s, m) ≡ (some f, s, m)
unfolding keep_udp
keep_wanted port f s m h = rw h

keep_unwanted :
    (port f : ℕ) (s : PktSock) (m : Ring)
    → wanted port m f ≡ false
    → keep_udp port (some f, s, m) ≡ (none, s, release_frame m f)
unfolding keep_udp
keep_unwanted port f s m h = rw h

released : (m : Ring) (f : ℕ) → (release_frame m f).tp_status f ≡ 0
unfolding release_frame
released m f = ground arith

others_kept : (m : Ring) (f a : ℕ) → a ≢ f → (release_frame m f).tp_status a ≡ m.tp_status a
unfolding release_frame
others_kept m f a h = ground arith

-- Receiving UDP to a port, with no waiting, if the next index is inside the ring, and the number of
-- frames and the bytes of the ring are below 2 ^ 32: a frame that is not ready changes nothing; a ready one is stepped over, and is either returned, UDP to that port
-- and still the program's, or given back to the kernel, not being UDP to that port, with no other
-- frame's status changed.
pub recv_udp_frame_nonblock_lem :
    (s : PktSock) (m : Ring) (port : ℕ)
    → s.next_idx < s.nframes
    → s.nframes < 2 ^ 32
    → ring_size s < 2 ^ 32
    → let f = frame_at s s.next_idx in
      let s' = record s { next_idx = after s s.next_idx } in
      ((¬ IsReady s m) × (recv_udp_frame_nonblock s m port ≡ (none, s, m)))
      ⊎ (IsReady s m
          × (wanted port m f ≡ true)
          × (recv_udp_frame_nonblock s m port ≡ (some f, s', m)))
      ⊎ (IsReady s m
          × (wanted port m f ≡ false)
          × (recv_udp_frame_nonblock s m port ≡ (none, s', release_frame m f))
          × ((release_frame m f).tp_status f ≡ 0)
          × ((a : ℕ) → a ≢ f → (release_frame m f).tp_status a ≡ m.tp_status a))
unfolding recv_udp_frame_nonblock
recv_udp_frame_nonblock_lem s m port h count small =
    elim (recv_frame_nonblock_lem s m h count small) [
      | inr (busy, e) ↦ inl (busy, ap (λ o. keep_udp port (o.0, o.1, m)) e ∙ keep_none port s m)
      | inl (ready, e) ↦ elim (Bool-cases (wanted port m f)) [
        | inl good ↦ inr (
            inl
              (ready, good, ap (λ o. keep_udp port (o.0, o.1, m)) e ∙ keep_wanted port f _ m good))
        | inr bad ↦ inr (
            inr (
              ready,
              bad,
              ap (λ o. keep_udp port (o.0, o.1, m)) e ∙ keep_unwanted port f _ m bad,
              released m f,
              others_kept m f,
            ))
      ]
    ]
  where
    f : ℕ
    f = frame_at s s.next_idx
