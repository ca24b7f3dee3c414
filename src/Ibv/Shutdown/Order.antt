-- ===== src/Ibv/Shutdown/Order.antt =====
-- Nothing is released before what uses it.
use hashpipe.Base.{ℕ, zero, suc, ◌+◌, ◌*◌, ◌≤◌, ◌≡◌, refl, arith}
use hashpipe.Base.{Bool, true, false, Option, none, some, List, [], ◌∷◌, ◌++◌}
use hashpipe.Ibv.Shutdown.{
  Memory, qps, send_cqs, recv_cqs, send_pkts, recv_pkts, send_sges, recv_sges, flows, dst_ips,
  Release, Context, leave, destroy_flow, destroy_qp, destroy_send_cq, destroy_recv_cq,
  dereg_send_mr, dereg_recv_mr, destroy_recv_cc, dealloc_pd, close_device, free, munmap_send,
  munmap_recv, close_socket, when, each, each_of, each_flow, address_at, is_there, release_flows,
  release_verbs, release_buffers, release_tables, shutdown,
}

-- What is used has a higher rank than what uses it: a flow rule uses a queue pair; a queue pair and
-- a memory region use the protection domain, a queue pair its completion queues, and these their
-- channel; an array is used
-- to destroy what it points to; all use the device and the memory, and leaving a group the socket.
abbrev pub rank : Release → ℕ
rank (leave i) = 0
rank (destroy_flow i) = 0
rank dereg_send_mr = 1
rank dereg_recv_mr = 1
rank (destroy_qp i) = 1
rank (free qps) = 2
rank (destroy_send_cq i) = 3
rank (free send_cqs) = 4
rank (destroy_recv_cq i) = 5
rank (free recv_cqs) = 6
rank destroy_recv_cc = 7
rank dealloc_pd = 8
rank close_device = 9
rank _ = 10

-- The ranks go up from `lo` on, to `hi` at most.
abbrev pub Ascends : ℕ → ℕ → List Release → Type 0
Ascends lo hi [] = lo ≤ hi
Ascends lo hi (r ∷ rs) = (lo ≤ rank r) × Ascends (rank r) hi rs

Run-append :
    (a b c : ℕ) (rs qs : List Release) → Ascends a b rs → Ascends b c qs → Ascends a c (rs ++ qs)
Run-append a b c [] qs x y = lower qs y
  where
    lower : (qs : List Release) → Ascends b c qs → Ascends a c qs
    lower [] y = omega arith
    lower (q ∷ qs) (l, y) = (omega arith, y)
Run-append a b c (r ∷ rs) qs (l, x) y = (l, Run-append (rank r) b c rs qs x y)

Run-when :
    (a b : ℕ) (present : Bool) (r : Release)
    → a ≤ rank r
    → rank r ≤ b
    → Ascends a b (when present r)
Run-when a b true r l m = (l, m)
Run-when a b false r l m = omega arith

Run-each :
    (k n i : ℕ) (present : ℕ → Bool) (make : ℕ → Release)
    → ((j : ℕ) → rank (make j) ≡ k)
    → Ascends k k (each n i present make)
unfolding each
Run-each k zero i present make e = omega arith
Run-each k (suc n) i present make e =
    Run-append k k k (when (present i) (make i)) (each n (i + 1) present make)
      (Run-when k k (present i) (make i) (omega (arith, e i)) (omega (arith, e i)))
      (Run-each k n (i + 1) present make e)

Run-each_of :
    (k h n : ℕ) (m : Memory) (present : Option (ℕ → Bool)) (make : ℕ → Release)
    → ((j : ℕ) → rank (make j) ≡ k)
    → rank (free m) ≡ h
    → k ≤ h
    → Ascends k h (each_of n m present make)
unfolding each_of
Run-each_of k h n m none make e f l = l
Run-each_of k h n m (some present) make e f l =
    Run-append k k h (each n 0 present make) (free m ∷ []) (Run-each k n 0 present make e)
      (omega (arith, f), omega (arith, f))

Run-each_flow :
    (n i max_flows : ℕ) (present : ℕ → Bool) (ips : ℕ → ℕ)
    → Ascends 0 0 (each_flow n i max_flows present ips)
unfolding each_flow
Run-each_flow zero i max_flows present ips = omega arith
Run-each_flow (suc n) i max_flows present ips =
    let rest = Run-each_flow n (i + 1) max_flows present ips in ground (arith, rest)

pub record IsRun (lo hi : ℕ) (rs : List Release) : Type 0 where
  pub ascends : Ascends lo hi rs

join : {a b c : ℕ} {rs qs : List Release} → IsRun a b rs → IsRun b c qs → IsRun a c (rs ++ qs)
join {a} {b} {c} {rs} {qs} x y = record { ascends = Run-append a b c rs qs x.ascends y.ascends }

at_rank : (r : Release) (present : Bool) → IsRun (rank r) (rank r) (when present r)
at_rank r present = record {
  ascends = Run-when (rank r) (rank r) present r (omega arith) (omega arith);
}

nothing_at : (a b : ℕ) → a ≤ b → IsRun a b []
nothing_at a b l = record { ascends = l }

one_at : (r : Release) → IsRun (rank r) (rank r) (r ∷ [])
one_at r = record { ascends = (omega arith, omega arith) }

-- From one rank to a higher one.
up : {b c : ℕ} {rs : List Release} → (a : ℕ) → IsRun b c rs → a ≤ b → IsRun a c rs
up {b} {c} {rs} a x l = record { ascends = Run-append a b c [] rs l x.ascends }

array :
    (k h n : ℕ) (m : Memory) (present : Option (ℕ → Bool)) (make : ℕ → Release)
    → ((j : ℕ) → rank (make j) ≡ k)
    → rank (free m) ≡ h
    → k ≤ h
    → IsRun k h (each_of n m present make)
array k h n m present make e f l = record { ascends = Run-each_of k h n m present make e f l }

flows-IsRun : (c : Context) → IsRun 0 0 (release_flows c)
unfolding release_flows
flows-IsRun c = go c.ibv_flows
  where
    go :
        (f : Option (ℕ → Bool))
        → IsRun 0 0 (elim f [
          | none ↦ []
          | some present ↦
              each_flow (c.max_flows * c.nqp) 0 c.max_flows present (address_at c.flow_dst_ips)
        ])
    go none = nothing_at 0 0 (omega arith)
    go (some present) = record { ascends = Run-each_flow _ 0 c.max_flows present _ }

verbs-IsRun : (c : Context) → IsRun 1 9 (release_verbs c)
unfolding release_verbs
verbs-IsRun c =
    join
      (join
        (join
          (join
            (join
              (join (join (at_rank dereg_send_mr c.send_mr) (at_rank dereg_recv_mr c.recv_mr))
                (array 1 2 c.nqp qps c.qp destroy_qp (λ j. refl) refl (omega arith)))
              (up 2
                (array 3 4 c.nqp send_cqs c.send_cq destroy_send_cq (λ j. refl) refl (omega arith))
                (omega arith)))
            (up 4
              (array 5 6 c.nqp recv_cqs c.recv_cq destroy_recv_cq (λ j. refl) refl (omega arith))
              (omega arith)))
          (up 6 (at_rank destroy_recv_cc c.recv_cc) (omega arith)))
        (up 7 (at_rank dealloc_pd c.pd) (omega arith)))
      (up 8 (at_rank close_device c.ctx) (omega arith))

buffers-IsRun : (c : Context) → IsRun 10 10 (release_buffers c)
unfolding release_buffers
buffers-IsRun c = go c.user_managed_flag refl
  where
    go : (b : Bool) → c.user_managed_flag ≡ b → IsRun 10 10 (release_buffers c)
    go true e = rw (e, release_buffers) (nothing_at 10 10 (omega arith))
    go false e =
        rw (e, release_buffers)
          (join
            (join
              (join
                (join
                  (join (at_rank (free send_pkts) c.send_pkt_buf)
                    (at_rank (free recv_pkts) c.recv_pkt_buf))
                  (at_rank (free send_sges) c.send_sge_buf))
                (at_rank (free recv_sges) c.recv_sge_buf))
              (at_rank (munmap_send _) c.send_mr_buf))
            (at_rank (munmap_recv _) c.recv_mr_buf))

tables-IsRun : (c : Context) → IsRun 10 10 (release_tables c)
unfolding release_tables
tables-IsRun c =
    join
      (join (at_rank (free flows) (is_there c.ibv_flows))
        (at_rank (free dst_ips) (is_there c.flow_dst_ips)))
      (go c.mcast_subscriber)
  where
    go : (s : Option ℕ) → IsRun 10 10 (elim s [ none ↦ [] | some s ↦ close_socket s ∷ [] ])
    go none = nothing_at 10 10 (omega arith)
    go (some s) = one_at (close_socket s)

-- The calls of a shutdown come in the order of the ranks, whatever is there and whatever fails:
-- flow rules before queue pairs, these before the memory of their array and before completion
-- queues, each kind of these before the memory of its array and before their channel, and all of them,
-- with the memory regions, before the protection domain; then the device, and the buffers, the
-- tables of flows and the socket last.
pub shutdown-IsRun : (fails : Release → Bool) (c : Context) → IsRun 0 10 (shutdown fails c).2
unfolding shutdown
shutdown-IsRun fails c =
    join
      (join (join (flows-IsRun c) (up 0 (verbs-IsRun c) (omega arith)))
        (up 9 (buffers-IsRun c) (omega arith)))
      (tables-IsRun c)
