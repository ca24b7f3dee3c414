-- ===== src/Ibv/Init/Stages.antt =====
-- Every stage of hashpipe_ibv_init keeps the context exact.
use hashpipe.Base.{ℕ, zero, suc, ◌+◌, ◌≡◌, inr, refl, arith, ◌==◌, ◌&&◌, if◌then◌else◌}
use hashpipe.Base.{Bool, true, false, Option, none, some}
use hashpipe.Ibv.Shutdown.{
  flows, dst_ips, dereg_send_mr, dereg_recv_mr, destroy_recv_cc, dealloc_pd, free, close_socket,
  Context,
}
use hashpipe.Ibv.Shutdown.Count.{is_socket}
use hashpipe.Ibv.Init.{
  Calls, Got, goes, stops, test, each_step, all_null, packet_numbers, register_memory, post_packets,
  open_socket, flow_tables, acquire_all,
}
use hashpipe.Ibv.Init.Gain
use hashpipe.Ibv.Init.Gain.{IsCounted, IsAlike}
use hashpipe.Ibv.Init.Upto.{
  IsUpto, IsAfter, Always, and_next-IsAfter, test-IsAfter, acquire-IsAfter, alike-IsUpto,
  next_place, gain-IsUpto,
}
use hashpipe.Ibv.Init.Queues.{
  not_there, IsCounted-free, create_send_cqs-IsAfter, create_recv_cqs-IsAfter, create_qps-IsAfter,
}
use hashpipe.Ibv.Init.Buffers.{allocate_buffers-IsAfter}

module _ (k : Calls) where
  register_memory-IsAfter :
      (g : Got) → IsUpto Always 13 0 g → IsAfter Always 15 0 (register_memory k g)
  unfolding register_memory
  register_memory-IsAfter g u =
      and_next-IsAfter {P = Always}
        (acquire-IsAfter k dereg_send_mr (λ c. record c { send_mr = true }) g u refl
          (Gain.send_mr-IsGrown g.context) tt)
        (λ h v.
          acquire-IsAfter k dereg_recv_mr (λ c. record c { recv_mr = true }) h v refl
            (Gain.recv_mr-IsGrown h.context) tt)

  posted :
      (n i : ℕ) (g : Got)
      → IsUpto Always 15 0 g
      → IsAfter Always 15 0 (each_step n i (λ i. test (k.post_recv i)) g)
  unfolding each_step
  posted zero i g u = record { is = u }
  posted (suc n) i g u =
      and_next-IsAfter (test-IsAfter (k.post_recv i) g u) (λ h v. posted n (i + 1) h v)

  post_packets-IsAfter : (g : Got) → IsUpto Always 15 0 g → IsAfter Always 15 0 (post_packets k g)
  unfolding post_packets
  post_packets-IsAfter g u =
      posted g.context.nqp 0 (record g { context = record g.context { send_pkt_head = true } })
        (alike-IsUpto g (record g.context { send_pkt_head = true }) u
          (record { alike = λ r n. ground arith }) tt)

  no_socket : (o : Option ℕ) → ((s : ℕ) → is_socket o s ≡ false) → o ≡ none
  no_socket none f = refl
  no_socket (some t) f = ground (arith, f t)

  IsCounted-socket : (s : ℕ) → IsCounted (close_socket s)
  IsCounted-socket s = record { not_send = λ e. omega (arith, e); not_recv = λ e. omega (arith, e) }

  open_socket-IsAfter :
      (o : Option ℕ) (g : Got) → IsUpto Always 17 0 g → IsAfter Always 18 0 (open_socket o g)
  unfolding open_socket
  open_socket-IsAfter none g u = record { is = u.exact }
  open_socket-IsAfter (some s) g u = record {
    is =
        next_place 17 (s + 1) 18 _
          (gain-IsUpto {P = Always} 17 0 (close_socket s)
            (λ c. record c { mcast_subscriber = some s }) g u refl (omega arith)
            (Gain.socket-IsGrown g.context s (
              no_socket g.context.mcast_subscriber
                (λ t. u.later (close_socket t) (IsCounted-socket t) (inr (refl, omega arith)))))
            tt)
          (omega arith) tt;
  }

  flow_tables-IsAfter : (g : Got) → IsUpto Always 15 0 g → IsAfter Always 18 0 (flow_tables k g)
  unfolding flow_tables
  flow_tables-IsAfter g u =
      and_next-IsAfter {P = Always}
        (acquire-IsAfter k (free flows) (λ c. record c { ibv_flows = all_null })
          (record g { context = sized }) v refl (Gain.flows-IsGrown sized no_flows) tt)
        (λ h w.
          and_next-IsAfter {P = Always}
            (acquire-IsAfter k (free dst_ips) (λ c. record c { flow_dst_ips = some (λ i. 0) }) h w
              refl (Gain.dst_ips-IsGrown h.context) tt)
            (λ h' x. open_socket-IsAfter k.socket h' x))
    where
      sized : Context
      sized = record g.context {
        max_flows = if g.context.max_flows == 0 then 1 else g.context.max_flows;
      }

      no_flows : g.context.ibv_flows ≡ none
      no_flows =
          not_there g.context.ibv_flows
            (u.later (free flows) (IsCounted-free flows) (inr (refl, omega arith)))

      v : IsUpto Always 15 0 (record g { context = sized })
      v = alike-IsUpto g sized u (record { alike = λ r n. ground (arith, no_flows) }) tt

  packet_numbers-IsAfter : (g : Got) → IsUpto Always 1 0 g → IsAfter Always 1 0 (packet_numbers k g)
  unfolding packet_numbers
  packet_numbers-IsAfter g u =
      go (g.context.user_managed_flag && (g.context.send_pkt_num == 0))
        (g.context.user_managed_flag && (g.context.recv_pkt_num == 0))
    where
      numbered : Context
      numbered = record g.context {
        send_pkt_num = if g.context.send_pkt_num == 0 then k.max_qp_wr else g.context.send_pkt_num;
        recv_pkt_num = if g.context.recv_pkt_num == 0 then k.max_qp_wr else g.context.recv_pkt_num;
      }

      go :
          (b c : Bool)
          → IsAfter Always 1 0
              (if b then stops g else if c then stops g else goes (record g { context = numbered }))
      go true c = record { is = u.exact }
      go false true = record { is = u.exact }
      go false false = record {
        is = alike-IsUpto g numbered u (record { alike = λ r n. ground arith }) tt;
      }

  pub acquire_all-IsAfter : (g : Got) → IsUpto Always 1 0 g → IsAfter Always 18 0 (acquire_all k g)
  unfolding acquire_all
  acquire_all-IsAfter g u = and_next-IsAfter (packet_numbers-IsAfter g u) (λ g u.
      and_next-IsAfter {P = Always}
        (acquire-IsAfter k dealloc_pd (λ c. record c { pd = true }) g u refl
          (Gain.pd-IsGrown g.context) tt)
        (λ g u.
          and_next-IsAfter {P = Always}
            (acquire-IsAfter k destroy_recv_cc (λ c. record c { recv_cc = true }) g u refl
              (Gain.recv_cc-IsGrown g.context) tt)
            (λ g u. and_next-IsAfter (test-IsAfter k.nonblocking g u) (λ g u.
              and_next-IsAfter (create_send_cqs-IsAfter k g u) (λ g u.
                and_next-IsAfter (create_recv_cqs-IsAfter k g u) (λ g u.
                  and_next-IsAfter (create_qps-IsAfter k g u) (λ g u.
                    and_next-IsAfter (allocate_buffers-IsAfter k g u) (λ g u.
                      and_next-IsAfter (register_memory-IsAfter g u) (λ g u.
                        and_next-IsAfter (post_packets-IsAfter g u)
                          (λ g u. flow_tables-IsAfter g u))))))))))
