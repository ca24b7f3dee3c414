-- ===== src/Tests/Traffic.antt =====
-- Six packets of two queue pairs.
use hashpipe.Base.{◌*◌, true, none, some, List, [], ◌∷◌, refl, arith}
use hashpipe.Ibv.{
  QpState, qps_init, Poll, Context, get_pkts, send_pkts, pop_send_packets, push_all, push, walk,
}
use hashpipe.Ibv.Setup.{link_sends}
use hashpipe.Base.{times}
use hashpipe.Ibv.Traffic.{Traffic, get, send, Reach, start, next, IsConserved, Reach-IsConserved}

abbrev sends : Context
sends = record { send_pkt_num = 3; send_pkt_head = none; next = λ _. none }

abbrev start_qps : List QpState
start_qps = qps_init ∷ qps_init ∷ []

-- The first packet has been sent.
abbrev polls : List Poll
polls = record { completed = 0 ∷ []; drained = true } ∷ []

-- Three packets are got, the first two of them are accepted by queue pair 1, and the completion of the
-- first is polled when the next one is asked for, which is the same packet.
abbrev after : Traffic
after = record {
  context =
      (get_pkts (λ i s. true) polls (get_pkts (λ i s. true) [] (link_sends 2 sends) start_qps 3).1
        (get_pkts (λ i s. true) [] (link_sends 2 sends) start_qps 3).2 1).1;
  qps =
      (get_pkts (λ i s. true) polls (get_pkts (λ i s. true) [] (link_sends 2 sends) start_qps 3).1
        (get_pkts (λ i s. true) [] (link_sends 2 sends) start_qps 3).2 1).2;
  held = 0 ∷ 2 ∷ [];
  posted = 1 ∷ [];
}

Reach-after : Reach 2 sends start_qps after
unfolding get_pkts pop_send_packets push_all push walk send_pkts link_sends times
Reach-after =
    next
      (next
        (next start
          (get (λ i s. true) [] 3 (0 ∷ 1 ∷ 2 ∷ []) [] refl (λ i. refl) (refl, (refl, (refl, tt)))))
        (send (λ qp p. 2) (some 0) 1 (0 ∷ 1 ∷ 2 ∷ []) [] refl (refl, (refl, (refl, tt)))
          (λ i. omega arith)))
      (get (λ i s. true) polls 1 (0 ∷ []) (1 ∷ []) refl (λ i. omega arith) (refl, tt))

Reach-IsConserved_example : IsConserved (3 * 2) after
Reach-IsConserved_example = Reach-IsConserved (omega arith) (omega arith) Reach-after
