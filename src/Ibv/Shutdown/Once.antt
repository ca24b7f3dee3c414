-- ===== src/Ibv/Shutdown/Once.antt =====
-- A shutdown releases exactly what the context holds.
use hashpipe.Base.{◌%◌, ◌^◌, ◌*◌}
use hashpipe.Base.{ℕ, ◌+◌, ◌*◌, ◌≡◌, ◌≢◌, refl, ap₂, ◌∙◌, arith, ◌==◌, ◌&&◌, not}
use hashpipe.Base.{Bool, true, false, Option, none, some, List, [], ◌∷◌, ◌++◌}
use hashpipe.Ibv.Shutdown.{
  Memory, qps, send_cqs, recv_cqs, send_pkts, recv_pkts, send_sges, recv_sges, flows, dst_ips,
  Release, Context, leave, destroy_flow, destroy_qp, destroy_send_cq, destroy_recv_cq,
  dereg_send_mr, dereg_recv_mr, destroy_recv_cc, dealloc_pd, close_device, free, munmap_send,
  munmap_recv, close_socket, when, each_of, each_flow, address_at, is_there, release_flows,
  release_verbs, release_buffers, release_tables, shutdown,
}
use hashpipe.Ibv.Shutdown.Count.{
  tag, index, same, count, one_if, entry, is_socket, count-append, count-when, count-each_of,
  count-each_flow,
}

-- What the context holds.
abbrev pub holds : Context → Release → Bool
holds c (leave ip) = false
holds c (destroy_flow i) = entry c.ibv_flows (c.max_flows * c.nqp) i
holds c (destroy_qp i) = entry c.qp c.nqp i
holds c (destroy_send_cq i) = entry c.send_cq c.nqp i
holds c (destroy_recv_cq i) = entry c.recv_cq c.nqp i
holds c dereg_send_mr = c.send_mr
holds c dereg_recv_mr = c.recv_mr
holds c destroy_recv_cc = c.recv_cc
holds c dealloc_pd = c.pd
holds c close_device = c.ctx
holds c (free qps) = is_there c.qp
holds c (free send_cqs) = is_there c.send_cq
holds c (free recv_cqs) = is_there c.recv_cq
holds c (free send_pkts) = not c.user_managed_flag && c.send_pkt_buf
holds c (free recv_pkts) = not c.user_managed_flag && c.recv_pkt_buf
holds c (free send_sges) = not c.user_managed_flag && c.send_sge_buf
holds c (free recv_sges) = not c.user_managed_flag && c.recv_sge_buf
holds c (free flows) = is_there c.ibv_flows
holds c (free dst_ips) = is_there c.flow_dst_ips
holds c (munmap_send n) =
    n == c.send_pkt_num * c.pkt_size_max % 2 ^ 32 && (not c.user_managed_flag && c.send_mr_buf)
holds c (munmap_recv n) =
    n == c.recv_pkt_num * c.pkt_size_max % 2 ^ 32 && (not c.user_managed_flag && c.recv_mr_buf)
holds c (close_socket s) = is_socket c.mcast_subscriber s

release_flows-count :
    (r : Release) (c : Context)
    → tag r ≢ 0
    → count r (release_flows c)
      ≡ one_if (tag r == 1 && entry c.ibv_flows (c.max_flows * c.nqp) (index r))
unfolding release_flows count
release_flows-count r c ne = go c.ibv_flows
  where
    go :
        (f : Option (ℕ → Bool))
        → count r (elim f [
          | none ↦ []
          | some present ↦
              each_flow (c.max_flows * c.nqp) 0 c.max_flows present (address_at c.flow_dst_ips)
        ])
          ≡ one_if (tag r == 1 && entry f (c.max_flows * c.nqp) (index r))
    go none = ground arith
    go (some present) =
        count-each_flow r (c.max_flows * c.nqp) 0 c.max_flows present (address_at c.flow_dst_ips) ne
        ∙ ground arith

-- How often a call is made in a list, for the lists of a shutdown.
record Makes (r : Release) (xs : List Release) (n : ℕ) : Type 0 where
  times : count r xs ≡ n

both :
    {r : Release} {xs ys : List Release} {m n : ℕ}
    → Makes r xs m
    → Makes r ys n
    → Makes r (xs ++ ys) (m + n)
both {r} {xs} {ys} x y = record { times = count-append r xs ys ∙ ap₂ ◌+◌ x.times y.times }

one : (r q : Release) (b : Bool) → Makes r (when b q) (one_if (same r q && b))
one r q b = record { times = count-when r q b }

array :
    (r : Release) (t n : ℕ) (m : Memory) (present : Option (ℕ → Bool)) (make : ℕ → Release)
    → ((j : ℕ) → tag (make j) ≡ t)
    → ((j : ℕ) → index (make j) ≡ j)
    → Makes r (each_of n m present make) (
        one_if (tag r == t && entry present n (index r))
        + one_if (same r (free m) && is_there present))
array r t n m present make e f = record { times = count-each_of r t n m present make e f }

abbrev verbs_total : Release → Context → ℕ
verbs_total r c =
    one_if (same r dereg_send_mr && c.send_mr)
    + one_if (same r dereg_recv_mr && c.recv_mr)
    + (one_if (tag r == 2 && entry c.qp c.nqp (index r))
        + one_if (same r (free qps) && is_there c.qp))
    + (one_if (tag r == 3 && entry c.send_cq c.nqp (index r))
        + one_if (same r (free send_cqs) && is_there c.send_cq))
    + (one_if (tag r == 4 && entry c.recv_cq c.nqp (index r))
        + one_if (same r (free recv_cqs) && is_there c.recv_cq))
    + one_if (same r destroy_recv_cc && c.recv_cc)
    + one_if (same r dealloc_pd && c.pd)
    + one_if (same r close_device && c.ctx)

verbs-Makes : (r : Release) (c : Context) → Makes r (release_verbs c) (verbs_total r c)
unfolding release_verbs
verbs-Makes r c =
    both
      (both
        (both
          (both
            (both
              (both (both (one r dereg_send_mr c.send_mr) (one r dereg_recv_mr c.recv_mr))
                (array r 2 c.nqp qps c.qp destroy_qp (λ j. refl) (λ j. refl)))
              (array r 3 c.nqp send_cqs c.send_cq destroy_send_cq (λ j. refl) (λ j. refl)))
            (array r 4 c.nqp recv_cqs c.recv_cq destroy_recv_cq (λ j. refl) (λ j. refl)))
          (one r destroy_recv_cc c.recv_cc))
        (one r dealloc_pd c.pd))
      (one r close_device c.ctx)

abbrev buffers_total : Release → Context → ℕ
buffers_total r c =
    one_if (same r (free send_pkts) && (not c.user_managed_flag && c.send_pkt_buf))
    + one_if (same r (free recv_pkts) && (not c.user_managed_flag && c.recv_pkt_buf))
    + one_if (same r (free send_sges) && (not c.user_managed_flag && c.send_sge_buf))
    + one_if (same r (free recv_sges) && (not c.user_managed_flag && c.recv_sge_buf))
    + one_if (
        same r (munmap_send (c.send_pkt_num * c.pkt_size_max % 2 ^ 32))
        && (not c.user_managed_flag && c.send_mr_buf))
    + one_if (
        same r (munmap_recv (c.recv_pkt_num * c.pkt_size_max % 2 ^ 32))
        && (not c.user_managed_flag && c.recv_mr_buf))

buffers-Makes : (r : Release) (c : Context) → Makes r (release_buffers c) (buffers_total r c)
unfolding release_buffers count
buffers-Makes r c = go c.user_managed_flag refl
  where
    go : (b : Bool) → c.user_managed_flag ≡ b → Makes r (release_buffers c) (buffers_total r c)
    go true e = rw (e, release_buffers) record { times = ground arith }
    go false e =
        rw (e, release_buffers)
          (both
            (both
              (both
                (both
                  (both (one r (free send_pkts) c.send_pkt_buf)
                    (one r (free recv_pkts) c.recv_pkt_buf))
                  (one r (free send_sges) c.send_sge_buf))
                (one r (free recv_sges) c.recv_sge_buf))
              (one r (munmap_send (c.send_pkt_num * c.pkt_size_max % 2 ^ 32)) c.send_mr_buf))
            (one r (munmap_recv (c.recv_pkt_num * c.pkt_size_max % 2 ^ 32)) c.recv_mr_buf))

abbrev tables_total : Release → Context → ℕ
tables_total r c =
    one_if (same r (free flows) && is_there c.ibv_flows)
    + one_if (same r (free dst_ips) && is_there c.flow_dst_ips)
    + one_if (tag r == 13 && is_socket c.mcast_subscriber (index r))

socket-Makes :
    (r : Release) (s : Option ℕ)
    → Makes r
        (elim s [ none ↦ [] | some s ↦ close_socket s ∷ [] ])
        (one_if (tag r == 13 && is_socket s (index r)))
unfolding count
socket-Makes r none = record { times = ground arith }
socket-Makes r (some s) = record { times = ground arith }

tables-Makes : (r : Release) (c : Context) → Makes r (release_tables c) (tables_total r c)
unfolding release_tables
tables-Makes r c =
    both
      (both (one r (free flows) (is_there c.ibv_flows))
        (one r (free dst_ips) (is_there c.flow_dst_ips)))
      (socket-Makes r c.mcast_subscriber)

shutdown-Makes :
    (fails : Release → Bool) (c : Context) (r : Release)
    → tag r ≢ 0
    → Makes r (shutdown fails c).2 (
        one_if (tag r == 1 && entry c.ibv_flows (c.max_flows * c.nqp) (index r))
        + verbs_total r c
        + buffers_total r c
        + tables_total r c)
unfolding shutdown
shutdown-Makes fails c r ne =
    both
      (both (both (record { times = release_flows-count r c ne }) (verbs-Makes r c))
        (buffers-Makes r c))
      (tables-Makes r c)

shutdown-total :
    (fails : Release → Bool) (c : Context) (r : Release)
    → tag r ≢ 0
    → count r (shutdown fails c).2
      ≡ one_if (tag r == 1 && entry c.ibv_flows (c.max_flows * c.nqp) (index r))
        + verbs_total r c
        + buffers_total r c
        + tables_total r c
shutdown-total fails c r ne = (shutdown-Makes fails c r ne).times

pub shutdown-once :
    (fails : Release → Bool) (c : Context) (r : Release)
    → ((ip : ℕ) → r ≢ leave ip)
    → count r (shutdown fails c).2 ≡ one_if (holds c r)
shutdown-once fails c (leave ip) ne = absurd (ne ip refl)
shutdown-once fails c (destroy_flow i) ne =
    omega (arith, shutdown-total fails c (destroy_flow i) (λ e. omega (arith, e)))
shutdown-once fails c (destroy_qp i) ne =
    omega (arith, shutdown-total fails c (destroy_qp i) (λ e. omega (arith, e)))
shutdown-once fails c (destroy_send_cq i) ne =
    omega (arith, shutdown-total fails c (destroy_send_cq i) (λ e. omega (arith, e)))
shutdown-once fails c (destroy_recv_cq i) ne =
    omega (arith, shutdown-total fails c (destroy_recv_cq i) (λ e. omega (arith, e)))
shutdown-once fails c dereg_send_mr ne =
    omega (arith, shutdown-total fails c dereg_send_mr (λ e. omega (arith, e)))
shutdown-once fails c dereg_recv_mr ne =
    omega (arith, shutdown-total fails c dereg_recv_mr (λ e. omega (arith, e)))
shutdown-once fails c destroy_recv_cc ne =
    omega (arith, shutdown-total fails c destroy_recv_cc (λ e. omega (arith, e)))
shutdown-once fails c dealloc_pd ne =
    omega (arith, shutdown-total fails c dealloc_pd (λ e. omega (arith, e)))
shutdown-once fails c close_device ne =
    omega (arith, shutdown-total fails c close_device (λ e. omega (arith, e)))
shutdown-once fails c (free qps) ne =
    omega (arith, shutdown-total fails c (free qps) (λ e. omega (arith, e)))
shutdown-once fails c (free send_cqs) ne =
    omega (arith, shutdown-total fails c (free send_cqs) (λ e. omega (arith, e)))
shutdown-once fails c (free recv_cqs) ne =
    omega (arith, shutdown-total fails c (free recv_cqs) (λ e. omega (arith, e)))
shutdown-once fails c (free send_pkts) ne =
    omega (arith, shutdown-total fails c (free send_pkts) (λ e. omega (arith, e)))
shutdown-once fails c (free recv_pkts) ne =
    omega (arith, shutdown-total fails c (free recv_pkts) (λ e. omega (arith, e)))
shutdown-once fails c (free send_sges) ne =
    omega (arith, shutdown-total fails c (free send_sges) (λ e. omega (arith, e)))
shutdown-once fails c (free recv_sges) ne =
    omega (arith, shutdown-total fails c (free recv_sges) (λ e. omega (arith, e)))
shutdown-once fails c (free flows) ne =
    omega (arith, shutdown-total fails c (free flows) (λ e. omega (arith, e)))
shutdown-once fails c (free dst_ips) ne =
    omega (arith, shutdown-total fails c (free dst_ips) (λ e. omega (arith, e)))
shutdown-once fails c (munmap_send n) ne =
    omega (arith, shutdown-total fails c (munmap_send n) (λ e. omega (arith, e)))
shutdown-once fails c (munmap_recv n) ne =
    omega (arith, shutdown-total fails c (munmap_recv n) (λ e. omega (arith, e)))
shutdown-once fails c (close_socket s) ne =
    omega (arith, shutdown-total fails c (close_socket s) (λ e. omega (arith, e)))
