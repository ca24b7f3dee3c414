-- ===== src/Tests/Verbs.antt =====
-- The theorems on the set-up, the flows, the receiving and the shutdown of InfiniBand verbs.
use hashpipe.Base.{◌<◌, ◌*◌}
use hashpipe.Base.{ℕ, ◌+◌, ◌^◌, ◌/◌, ◌≤◌, ◌≡◌, inr, refl, arith, none, some, [], ◌∷◌, ◌==◌, ◌&&◌}
use hashpipe.Base.{true, false}
use hashpipe.Packet.{swap32}
use hashpipe.Ibv.{Context, qps_init, qps_rtr, QpState}
use hashpipe.Ibv.Chain.{IsChain}
use hashpipe.Ibv.Setup.{packet_address, mr_size}
use hashpipe.Ibv.{release_pkts}
use hashpipe.Ibv.Setup.Addresses.{packet_address-disjoint}
use hashpipe.Ibv.Receive.{Calls, make_all_recv_ready, make_recv_ready, recv_from_init, recv_pkts}
use hashpipe.Ibv.Receive.Order.{HasLengths, recv_pkts-IsChain}
use hashpipe.Ibv.Flow.{
  spec_udp, Criteria, Headers, Nic, Verbs, Flows, flow, remove_old, add_new, layers, tcp_udp_layer,
  ipv4_layer, add_dst_ip, joined, mcast_membership, eth_layer, after_layers, create_all, made,
  empty_flow, is_multicast_be,
}
use hashpipe.Ibv.Flow.Whole.{IsWanted, flow-IsWanted}
use hashpipe.Ibv.Flow.Multicast.{is_multicast_be-swap32}
use hashpipe.Ibv.Shutdown.{shutdown, close_socket}
use hashpipe.Ibv.Interface.{HwAddr, interface_id_of}
use hashpipe.Ibv.Interface.Identifier.{AreBytes, address_of, interface_id_of-address}
use hashpipe.Ibv.Shutdown.Order.{IsRun, shutdown-IsRun}

packet_address-disjoint_example :
    (4096 ≤ packet_address 4096 9000 3)
    × (packet_address 4096 9000 3 + 9000 ≤ 4096 + mr_size 4 9000 2)
    × ((j : ℕ) → 3 < j → j < 4 * 2 → packet_address 4096 9000 3 + 9000 ≤ packet_address 4096 9000 j)
packet_address-disjoint_example =
    packet_address-disjoint 4096 9000 4 2 3 (omega arith) (omega arith) (omega arith)

-- Three completions, of which the second failed.
abbrev received : Calls
received = record {
  modify = λ i s. true;
  poll = true;
  get_cq_event = true;
  req_notify_cq = true;
  completed =
      record { wr_id = 4; success = true; byte_len = 1500 }
      ∷ record { wr_id = 2; success = false; byte_len = 60 }
      ∷ record { wr_id = 9; success = true; byte_len = 64 }
      ∷ [];
  drained = true;
}

ready :
    (make_all_recv_ready received.modify 0 (qps_init ∷ qps_rtr ∷ [])).1 && true && true && true
    ≡ true
unfolding make_all_recv_ready make_recv_ready recv_from_init
ready = refl

recv_pkts-IsChain_example :
    let (head, r, qps) = recv_pkts received (λ _. none) (λ _. 0) (qps_init ∷ qps_rtr ∷ []) in
    IsChain r.next head (4 ∷ 2 ∷ 9 ∷ []) × HasLengths r.length received.completed
recv_pkts-IsChain_example =
    recv_pkts-IsChain received (λ _. none) (λ _. 0) (qps_init ∷ qps_rtr ∷ []) ready refl
      (
        (λ e. omega (arith, e), (λ e. omega (arith, e), tt)),
        ((λ e. omega (arith, e), tt), (tt, tt)),
      )

abbrev headers : Headers
headers = record {
  attr_size = 16;
  tcp_udp_size = 16;
  ipv4_size = 24;
  eth_size = 40;
  in_multicast = λ ip. ip / 2 ^ 28 == 14;
  ether_map = λ ip. 1 ∷ 0 ∷ 0x5e ∷ 0 ∷ 0 ∷ 1 ∷ [];
}

abbrev nic : Nic
nic = record {
  has_ibv_flows = true;
  has_flow_dst_ips = true;
  max_flows = 4;
  nqp = 2;
  port_num = 1;
  mac = 2 ∷ 0 ∷ 0 ∷ 0 ∷ 0 ∷ 7 ∷ [];
  mcast_subscriber = some 9;
}

-- Calls that succeed; a handle is the number of the call, and the state the number of calls.
abbrev calls : Verbs
calls = record {
  World = ℕ;
  Handle = ℕ;
  if_nametoindex = λ w. 3;
  setsockopt = λ w s o i a. (true, w + 1);
  destroy_flow = λ w x. (true, w + 1);
  create_flow = λ w q f. (some w, w + 1);
}

abbrev no_flows : Flows headers nic calls
no_flows = record { ibv_flows = λ j. none; flow_dst_ips = λ i. 0; world = 100 }

-- UDP packets for port 60000 of the group 239.1.2.3
abbrev group : Criteria
group = record {
  dst_mac = none;
  src_mac = none;
  ether_type = 0;
  vlan_tag = 0;
  src_ip = 0;
  dst_ip = 0xef010203;
  src_port = 0;
  dst_port = 60000;
}

flow_succeeds : (flow headers nic calls 1 spec_udp group no_flows).0 ≡ true
unfolding flow remove_old add_new layers tcp_udp_layer ipv4_layer add_dst_ip joined mcast_membership
    eth_layer after_layers create_all made empty_flow
flow_succeeds = refl

flow-IsWanted_example :
    IsWanted headers nic calls 1
      (omega arith)
      false
      (flow headers nic calls 1 spec_udp group no_flows).1
flow-IsWanted_example =
    flow-IsWanted headers nic calls 1 (omega arith) spec_udp group no_flows refl refl refl
      (inr (λ i b. refl)) flow_succeeds

is_multicast_be-swap32_example : is_multicast_be (swap32 0xef010203) ≡ 0xef010203 / 2 ^ 28 == 14
is_multicast_be-swap32_example = is_multicast_be-swap32 0xef010203 (omega arith)

-- Two queue pairs, one of them not made, a flow of the first, and the socket.
abbrev open_context : hashpipe.Ibv.Shutdown.Context
open_context = record {
  nqp = 2;
  max_flows = 1;
  send_pkt_num = 4;
  recv_pkt_num = 4;
  pkt_size_max = 9000;
  user_managed_flag = false;
  ibv_flows = some (λ i. i == 0);
  flow_dst_ips = some (λ i. swap32 0xef010203);
  send_mr = true;
  recv_mr = true;
  qp = some (λ i. i == 0);
  send_cq = some (λ i. true);
  recv_cq = some (λ i. true);
  recv_cc = true;
  pd = true;
  ctx = true;
  send_pkt_head = true;
  send_pkt_buf = true;
  recv_pkt_buf = true;
  send_sge_buf = true;
  recv_sge_buf = true;
  send_mr_buf = true;
  recv_mr_buf = true;
  mcast_subscriber = some 9;
}

shutdown-IsRun_example : IsRun 0 10 (shutdown (λ r. false) open_context).2
shutdown-IsRun_example = shutdown-IsRun (λ r. false) open_context

abbrev hardware : HwAddr
hardware = record { byte0 = 2; byte1 = 66; byte2 = 10; byte3 = 1; byte4 = 2; byte5 = 255 }

abbrev hardware_AreBytes : AreBytes hardware
hardware_AreBytes = record {
  fits0 = omega arith;
  fits1 = omega arith;
  fits2 = omega arith;
  fits3 = omega arith;
  fits4 = omega arith;
  fits5 = omega arith;
}

interface_id_of-address_example : address_of (interface_id_of hardware) ≡ hardware
interface_id_of-address_example = interface_id_of-address hardware hardware_AreBytes
