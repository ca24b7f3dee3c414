-- ===== src/Tests/Intake.antt =====
-- Two queue pairs with two receive packets each.
use hashpipe.Base.{
  ℕ, ◌*◌, ◌<◌, ◌≡◌, refl, sym, subst, arith, ltb, if◌then◌else◌, true, none, some, Option, List, [],
  ◌∷◌,
}
use hashpipe.Base.{update}
use hashpipe.Ibv.{QpState, qps_rtr, release_pkts, release_qp}
use hashpipe.Ibv.Chain.{IsChain}
use hashpipe.Base.{times}
use hashpipe.Ibv.Setup.{link_recvs}
use hashpipe.Ibv.Setup.Lists.{numbers, link_recvs-IsChain}
use hashpipe.Ibv.Receive.{
  Calls, recv_pkts, make_all_recv_ready, make_recv_ready, append_all, append, terminate,
}
use hashpipe.Ibv.Receive.Traffic.{Intake, recv, release, Reach, start, on, IsKept}
use hashpipe.Ibv.Receive.Traffic.Kept.{Reach-IsKept}

abbrev both_rtr : List QpState
both_rtr = qps_rtr ∷ qps_rtr ∷ []

abbrev at_first : ℕ → List ℕ
at_first q = if ltb q 2 then numbers (q * 2) 2 else []

abbrev initial : ℕ → Option ℕ
initial = (link_recvs (λ q. true) 2 2 0 (λ j. none)).0

at_first-numbers : (q : ℕ) → q < 2 → at_first q ≡ numbers (q * 2) 2
at_first-numbers q l = ground arith

linked : (q : ℕ) → q < 2 → IsChain initial (some (q * 2)) (at_first q)
linked q l =
    subst (IsChain initial (some (q * 2))) (sym (at_first-numbers q l))
      (link_recvs-IsChain (λ q. true) (λ q p. q) 2 2 (λ j. none) (λ q. refl) (omega arith)
        (omega arith) q l).0

-- Packet 3 is received.
abbrev calls : Calls
calls = record {
  modify = λ i s. true;
  poll = true;
  get_cq_event = true;
  req_notify_cq = true;
  completed = record { wr_id = 3; success = true; byte_len = 1500 } ∷ [];
  drained = true;
}

abbrev after : Intake
after = record {
  next = (recv_pkts calls initial (λ j. 0) both_rtr).1.next;
  qps = (recv_pkts calls initial (λ j. 0) both_rtr).2;
  held = 3 ∷ [];
  lost = [];
  posted = update at_first 1 (2 ∷ []);
}

-- Packet 3 is posted to queue pair 1 again.
abbrev released : Intake
released = record {
  next = (recv_pkts calls initial (λ j. 0) both_rtr).1.next;
  qps = (recv_pkts calls initial (λ j. 0) both_rtr).2;
  held = [];
  lost = [];
  posted = update (update at_first 1 (2 ∷ [])) 1 (3 ∷ 2 ∷ []);
}

Reach-after : Reach 2 2 after
unfolding recv_pkts make_all_recv_ready make_recv_ready append_all append terminate times
Reach-after =
    on (start (λ j. none) both_rtr at_first linked (λ q l. ground arith))
      (recv calls (λ j. 0) 1 (3 ∷ []) (2 ∷ []) refl (λ i. omega arith) (refl, tt))

Reach-released : Reach 2 2 released
unfolding recv_pkts make_all_recv_ready make_recv_ready append_all append terminate times
    release_pkts release_qp
Reach-released = on Reach-after (
    release (λ q p. 1) (some 3) (3 ∷ []) [] refl (refl, tt) (λ i. omega arith)
      (λ i j a b. ground arith))

Reach-IsKept_example : IsKept 2 (2 * 2) released
Reach-IsKept_example = Reach-IsKept (omega arith) (omega arith) Reach-released
