-- ===== src/Tests/Opening.antt =====
-- hashpipe_ibv_init: a queue pair that cannot be made, and the work requests.
use hashpipe.Base.{◌==◌, ◌*◌, refl, arith, not}
use hashpipe.Base.{Bool, true, false, some, none}
use hashpipe.Ibv.Shutdown.{Release, destroy_qp, Context}
use hashpipe.Ibv.Init.{Calls, ibv_init}
use hashpipe.Ibv.Setup.Elements.{Requests, IsSetUp, init_requests, init_requests-IsSetUp}
use hashpipe.Ibv.Init.Balanced.{IsBalanced, ibv_init-IsBalanced}

abbrev unopened : Context
unopened = record {
  nqp = 2;
  max_flows = 0;
  send_pkt_num = 4;
  recv_pkt_num = 0;
  pkt_size_max = 9000;
  user_managed_flag = false;
  ibv_flows = none;
  flow_dst_ips = none;
  send_mr = false;
  recv_mr = false;
  qp = none;
  send_cq = none;
  recv_cq = none;
  recv_cc = false;
  pd = false;
  ctx = false;
  send_pkt_head = false;
  send_pkt_buf = false;
  recv_pkt_buf = false;
  send_sge_buf = false;
  recv_sge_buf = false;
  send_mr_buf = false;
  recv_mr_buf = false;
  mcast_subscriber = none;
}

-- The second one.
abbrev all_but_qp_1 : Release → Bool
all_but_qp_1 (destroy_qp i) = not (i == 1)
all_but_qp_1 _ = true

abbrev one_fails : Calls
one_fails = record {
  interface_info = true;
  max_qp_wr = 64;
  gives = all_but_qp_1;
  nonblocking = true;
  notify = λ i. true;
  modify = λ i. true;
  mlock_send = true;
  mlock_recv = true;
  post_recv = λ i. true;
  socket = some 5;
}

ibv_init-IsBalanced_example : IsBalanced (destroy_qp 0) (ibv_init one_fails (λ r. false) unopened)
ibv_init-IsBalanced_example =
    ibv_init-IsBalanced one_fails (λ r. false) (destroy_qp 0) (λ ip e. cc e) (λ e. omega (arith, e))
      (λ e. omega (arith, e)) unopened refl refl

-- The user gave every request two elements.
abbrev two_each : Requests
two_each = record {
  wr_id = λ i. 0;
  num_sge = λ i. 2;
  sg_list = λ i. 0;
  addr = λ j. 1000 * j;
  size = λ j. 1000;
  lkey = λ j. none;
}

init_requests-IsSetUp_example :
    IsSetUp true 4096 9000 7 two_each 3 (init_requests true 4096 9000 7 3 0 two_each)
init_requests-IsSetUp_example = init_requests-IsSetUp true 4096 9000 7 two_each 3
