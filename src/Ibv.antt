-- ===== src/Ibv.antt =====
-- hashpipe_ibverbs.c: the list of free send packets, and the search for the device of an interface.
-- The calls of libibverbs answer through arguments.
pub mod Chain
pub mod Packets
pub mod Times
pub mod Traffic
pub mod Device
pub mod Interface
pub mod Setup
pub mod Init
pub mod Flow
pub mod Receive
pub mod Shutdown
use hashpipe.Base.{ℕ, zero, suc, ◌+◌, ◌-◌, ◌/◌, ◌==◌, ltb, leb, if◌then◌else◌}
use hashpipe.Base.{Bool, true, false, Option, none, some, List, [], ◌∷◌}

-- The fields of `struct hashpipe_ibv_context` that sending uses. A packet is its index in
-- `send_pkt_buf`, which is also its `wr_id`; `next` is its `wr.next`, `none` for NULL.
pub record Context : Type 0 where
  pub send_pkt_num : ℕ
  pub send_pkt_head : Option ℕ
  pub next : ℕ → Option ℕ

abbrev pub link : (ℕ → Option ℕ) → ℕ → Option ℕ → ℕ → Option ℕ
link next p q j = if p == j then q else next j

-- Down the list, `n` packets at most.
unfoldable pub walk : ℕ → (ℕ → Option ℕ) → ℕ → ℕ
walk zero next tail = tail
walk (suc n) next tail = elim (next tail) [ none ↦ tail | some q ↦ walk n next q ]

-- The first packet of the list that is popped, and the context after it.
unfoldable pub pop_send_packets : Context → ℕ → Option ℕ × Context
unfolding walk
pop_send_packets c zero = (none, c)
pop_send_packets c (suc n) = elim c.send_pkt_head [
  | none ↦ (none, c)
  | some head ↦ (
    some head,
    record c {
      send_pkt_head = c.next (walk n c.next head);
      next = link c.next (walk n c.next head) none;
    },
  )
]

-- A completion pushes its packet onto the list.
unfoldable pub push : Context → ℕ → Context
push c p = record c { send_pkt_head = some p; next = link c.next p c.send_pkt_head }

unfoldable pub push_all : Context → List ℕ → Context
push_all c [] = c
push_all c (p ∷ ps) = push_all (push c p) ps

-- `enum ibv_qp_state`
pub data QpState : Type 0 where
  qps_reset qps_init qps_rtr qps_rts qps_other : QpState

-- One queue pair is brought to RTS; `modify s` is whether ibv_modify_qp(3) to the state `s`
-- succeeds. The state it ends in, and whether no call failed.
unfoldable pub from_rtr : (QpState → Bool) → QpState × Bool
from_rtr modify = if modify qps_rts then (qps_rts, true) else (qps_rtr, false)

unfoldable pub from_init : (QpState → Bool) → QpState × Bool
unfolding from_rtr
from_init modify = if modify qps_rtr then from_rtr modify else (qps_init, false)

unfoldable pub make_ready : (QpState → Bool) → QpState → QpState × Bool
unfolding from_init
make_ready modify qps_reset = if modify qps_init then from_init modify else (qps_reset, false)
make_ready modify qps_init = from_init modify
make_ready modify qps_rtr = from_rtr modify
make_ready modify qps_rts = (qps_rts, true)
make_ready modify qps_other = (qps_other, false)

-- One queue pair, and what becomes of those behind it if it could be made ready.
abbrev pub or_stop : List QpState → QpState × Bool → List QpState × Bool → List QpState × Bool
or_stop ss (t, true) (ts, made) = (t ∷ ts, made)
or_stop ss (t, false) rest = (t ∷ ss, false)

-- All of them, up to the first that fails.
unfoldable pub make_all_ready : (ℕ → QpState → Bool) → ℕ → List QpState → List QpState × Bool
unfolding make_ready
make_all_ready modify i [] = ([], true)
make_all_ready modify i (s ∷ ss) =
    or_stop ss (make_ready (modify i) s) (make_all_ready modify (i + 1) ss)

-- The completions that polling one queue gives, and whether it ended with 0, not with an error.
pub record Poll : Type 0 where
  pub completed : List ℕ
  pub drained : Bool

unfoldable pub poll_all : Context → List Poll → Bool × Context
poll_all c [] = (true, c)
poll_all c (p ∷ ps) =
    let rest = poll_all (push_all c p.completed) ps in
    if p.drained then rest else (false, push_all c p.completed)

abbrev pub pop_if_drained : ℕ → Bool × Context → Option ℕ × Context
pop_if_drained num_pkts (true, c) = pop_send_packets c num_pkts
pop_if_drained num_pkts (false, c) = (none, c)

-- No more packets than there are.
abbrev pub at_most : Context → ℕ → ℕ
at_most c num_pkts = if ltb c.send_pkt_num num_pkts then c.send_pkt_num else num_pkts

-- `none` is NULL. Beside it, the context and the states of the queue pairs.
unfoldable pub get_pkts :
    (ℕ → QpState → Bool)
    → List Poll
    → Context
    → List QpState
    → ℕ
    → Option ℕ × Context × List QpState
unfolding make_all_ready poll_all
get_pkts modify polls c qps num_pkts =
    if num_pkts == 0
    then (none, c, qps)
    else (let (qps', made) = make_all_ready modify 0 qps in
        if made
        then (let (p, c') = pop_if_drained (at_most c num_pkts) (poll_all c polls) in (p, c', qps'))
        else (none, c, qps'))

-- `post qp p` is what ibv_post_send(3) answers for the list at `p`. `none` is -1 with EINVAL.
unfoldable pub send_pkts {ℓ} : {A : Type ℓ} → (ℕ → ℕ → A) → ℕ → Option ℕ → ℕ → Option A
send_pkts post nqp none qp_idx = none
send_pkts post nqp (some p) qp_idx = if leb nqp qp_idx then none else some (post qp_idx p)

-- `hashpipe_ibv_release_pkts`: the queue pair that a list of packets is posted to again.
unfoldable pub release_qp : ℕ → ℕ → ℕ
release_qp recv_pkt_num wr_id = wr_id / recv_pkt_num

-- `post qp p` is what ibv_post_recv(3) answers for the list at `p`; without a list the answer is
-- `ok`, which is 0.
unfoldable pub release_pkts {ℓ} : {A : Type ℓ} → A → (ℕ → ℕ → A) → ℕ → Option ℕ → A
unfolding release_qp
release_pkts ok post recv_pkt_num none = ok
release_pkts ok post recv_pkt_num (some p) = post (release_qp recv_pkt_num p) p
