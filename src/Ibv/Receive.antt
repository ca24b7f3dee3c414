-- ===== src/Ibv/Receive.antt =====
-- `hashpipe_ibv_recv_pkts`: the received packets as a list.
pub mod Order
pub mod Traffic
use hashpipe.Base.{
  ℕ, zero, suc, ◌+◌, ◌&&◌, if◌then◌else◌, Bool, true, false, Option, none, some, List, [], ◌∷◌,
}
use hashpipe.Base.{update}
use hashpipe.Ibv.{link, QpState, qps_reset, qps_init, qps_rtr, qps_rts, qps_other, or_stop}

-- A work completion: the packet, whether its status is IBV_WC_SUCCESS, and its length.
pub record Completion : Type 0 where
  pub wr_id : ℕ
  pub success : Bool
  pub byte_len : ℕ

-- The links and lengths of the receive packets, and the list that is being made.
pub record Received : Type 0 where
  pub next : ℕ → Option ℕ
  pub length : ℕ → ℕ
  pub recv_head : Option ℕ
  pub recv_tail : Option ℕ

-- A completion sets its packet's length and appends the packet.
unfoldable pub append : Received → Completion → Received
append r c =
    let lengths = update r.length c.wr_id (if c.success then c.byte_len else 0) in
    elim r.recv_tail [
      | none ↦ record r { length = lengths; recv_head = some c.wr_id; recv_tail = some c.wr_id }
      | some t ↦ record r {
        length = lengths;
        next = link r.next t (some c.wr_id);
        recv_tail = some c.wr_id;
      }
    ]

unfoldable pub append_all : Received → List Completion → Received
unfolding append
append_all r [] = r
append_all r (c ∷ cs) = append_all (append r c) cs

-- The last packet is linked to none.
unfoldable pub terminate : Received → Received
terminate r = elim r.recv_tail [ none ↦ r | some t ↦ record r { next = link r.next t none } ]

-- One queue pair is brought to RTR.
unfoldable pub recv_from_init : (QpState → Bool) → QpState × Bool
recv_from_init modify = if modify qps_rtr then (qps_rtr, true) else (qps_init, false)

unfoldable pub make_recv_ready : (QpState → Bool) → QpState → QpState × Bool
unfolding recv_from_init
make_recv_ready modify qps_reset =
    if modify qps_init then recv_from_init modify else (qps_reset, false)
make_recv_ready modify qps_init = recv_from_init modify
make_recv_ready modify qps_rtr = (qps_rtr, true)
make_recv_ready modify qps_rts = (qps_rts, true)
make_recv_ready modify qps_other = (qps_other, false)

unfoldable pub make_all_recv_ready : (ℕ → QpState → Bool) → ℕ → List QpState → List QpState × Bool
unfolding make_recv_ready
make_all_recv_ready modify i [] = ([], true)
make_all_recv_ready modify i (s ∷ ss) =
    or_stop ss (make_recv_ready (modify i) s) (make_all_recv_ready modify (i + 1) ss)

-- What the calls answer: poll(2) (`false`: timeout or error), ibv_get_cq_event(3),
-- ibv_req_notify_cq(3), and polling the queue until it gives 0 or an error.
pub record Calls : Type 0 where
  pub modify : ℕ → QpState → Bool
  pub poll : Bool
  pub get_cq_event : Bool
  pub req_notify_cq : Bool
  pub completed : List Completion
  pub drained : Bool

-- The first packet (`none`: NULL), the packets, and the states of the queue pairs.
unfoldable pub recv_pkts :
    Calls → (ℕ → Option ℕ) → (ℕ → ℕ) → List QpState → Option ℕ × Received × List QpState
unfolding make_all_recv_ready append_all terminate
recv_pkts c next length qps =
    let nothing : Received = record {
      next = next;
      length = length;
      recv_head = none;
      recv_tail = none;
    } in
    let (qps', made) = make_all_recv_ready c.modify 0 qps in
    if made && c.poll && c.get_cq_event && c.req_notify_cq
    then (if c.drained
        then (let r = terminate (append_all nothing c.completed) in (r.recv_head, r, qps'))
        else (none, append_all nothing c.completed, qps'))
    else (none, nothing, qps')
