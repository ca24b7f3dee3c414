-- ===== src/Ibv/Init.antt =====
-- `hashpipe_ibv_init`: what it acquires, call by call, and the shutdown if a call fails. The contents of
-- the packets and lists that it makes are in Ibv/Setup.
mod Acquire
pub mod Gain
pub mod Upto
pub mod Queues
pub mod Buffers
pub mod Stages
pub mod Balanced
use hashpipe.Base.{ℕ, zero, suc, ◌+◌, ◌*◌, ◌%◌, ◌^◌, ◌==◌, if◌then◌else◌, not, ◌&&◌}
use hashpipe.Base.{Bool, true, false, Option, none, some, List, [], ◌∷◌}
use hashpipe.Ibv.Shutdown.{
  qps, send_cqs, recv_cqs, send_pkts, recv_pkts, send_sges, recv_sges, flows, dst_ips, Release,
  destroy_qp, destroy_send_cq, destroy_recv_cq, dereg_send_mr, dereg_recv_mr, destroy_recv_cc,
  dealloc_pd, close_device, free, munmap_send, munmap_recv, close_socket, Context, shutdown,
}
unfoldable pub use Acquire.*

-- A pointer of an array is set.
abbrev pub with_entry : Option (ℕ → Bool) → ℕ → ℕ → Bool
with_entry none i j = i == j
with_entry (some f) i j = if i == j then true else f j

abbrev pub all_null : Option (ℕ → Bool)
all_null = some (λ j. false)

-- Lines before the first acquisition: a queue pair at least, and the fields that are released are set to
-- NULL, but for ibv_flows and flow_dst_ips.
abbrev pub one_qp : Context → Context
one_qp c = record c { nqp = if c.nqp == 0 then 1 else c.nqp }

abbrev pub lacks_buffers : Context → Bool
lacks_buffers c = not (
    c.send_pkt_buf && c.recv_pkt_buf && c.send_sge_buf && c.recv_sge_buf && c.send_mr_buf
    && c.recv_mr_buf)

unfoldable pub reset : Context → Context
reset c = record c {
  ctx = false;
  pd = false;
  recv_cc = false;
  send_cq = none;
  recv_cq = none;
  qp = none;
  send_pkt_head = false;
  send_mr = false;
  recv_mr = false;
  mcast_subscriber = none;
  send_pkt_buf = if c.user_managed_flag then c.send_pkt_buf else false;
  recv_pkt_buf = if c.user_managed_flag then c.recv_pkt_buf else false;
  send_sge_buf = if c.user_managed_flag then c.send_sge_buf else false;
  recv_sge_buf = if c.user_managed_flag then c.recv_sge_buf else false;
  send_mr_buf = if c.user_managed_flag then c.send_mr_buf else false;
  recv_mr_buf = if c.user_managed_flag then c.recv_mr_buf else false;
}

-- A number of packets that is 0 becomes the device's maximum, unless the user manages the buffers.
unfoldable pub packet_numbers : Calls → Got → Progress
packet_numbers k g =
    if g.context.user_managed_flag && (g.context.send_pkt_num == 0)
    then stops g
    else if g.context.user_managed_flag && (g.context.recv_pkt_num == 0)
    then stops g
    else goes (record g {
      context = record g.context {
        send_pkt_num = if g.context.send_pkt_num == 0 then k.max_qp_wr else g.context.send_pkt_num;
        recv_pkt_num = if g.context.recv_pkt_num == 0 then k.max_qp_wr else g.context.recv_pkt_num;
      };
    })

unfoldable pub create_send_cqs : Calls → Got → Progress
unfolding acquire each_step
create_send_cqs k g =
    and_next (acquire k (free send_cqs) (λ c. record c { send_cq = all_null }) g) (λ g'.
      each_step g'.context.nqp 0
        (λ i.
          acquire k (destroy_send_cq i) (λ c. record c { send_cq = some (with_entry c.send_cq i) }))
        g')

unfoldable pub create_recv_cqs : Calls → Got → Progress
unfolding acquire each_step test
create_recv_cqs k g =
    and_next (acquire k (free recv_cqs) (λ c. record c { recv_cq = all_null }) g) (λ g'.
      each_step g'.context.nqp 0
        (λ i h.
          and_next
            (acquire k (destroy_recv_cq i)
              (λ c. record c { recv_cq = some (with_entry c.recv_cq i) }) h)
            (test (k.notify i)))
        g')

-- The queue pairs, each in the state INIT.
unfoldable pub create_qps : Calls → Got → Progress
unfolding acquire each_step test
create_qps k g = and_next (acquire k (free qps) (λ c. record c { qp = all_null }) g) (λ g'.
    each_step g'.context.nqp 0
      (λ i h.
        and_next (acquire k (destroy_qp i) (λ c. record c { qp = some (with_entry c.qp i) }) h)
          (test (k.modify i)))
      g')

-- mmap(2): on failure the field is MAP_FAILED, which is not NULL.
unfoldable pub map_send : Calls → Got → Progress
map_send k g =
    let q = munmap_send (g.context.send_pkt_num * g.context.pkt_size_max % 2 ^ 32) in
    let c = record g.context { send_mr_buf = true } in
    if k.gives q
    then goes (record { context = c; gained = q ∷ g.gained })
    else stops (record g { context = c })

unfoldable pub map_recv : Calls → Got → Progress
map_recv k g =
    let q = munmap_recv (g.context.recv_pkt_num * g.context.pkt_size_max % 2 ^ 32) in
    let c = record g.context { recv_mr_buf = true } in
    if k.gives q
    then goes (record { context = c; gained = q ∷ g.gained })
    else stops (record g { context = c })

-- The buffers.
unfoldable pub allocate : Calls → Got → Progress
unfolding acquire test map_send map_recv
allocate k g = and_next (acquire k (free send_pkts) (λ c. record c { send_pkt_buf = true }) g) (λ g.
    and_next (acquire k (free recv_pkts) (λ c. record c { recv_pkt_buf = true }) g) (λ g.
      and_next (acquire k (free send_sges) (λ c. record c { send_sge_buf = true }) g) (λ g.
        and_next (acquire k (free recv_sges) (λ c. record c { recv_sge_buf = true }) g) (λ g.
          and_next (map_send k g) (λ g.
            and_next (test k.mlock_send g) (λ g. and_next (map_recv k g) (test k.mlock_recv)))))))

-- Unless the user manages them.
unfoldable pub allocate_buffers : Calls → Got → Progress
unfolding allocate
allocate_buffers k g = if g.context.user_managed_flag then goes g else allocate k g

unfoldable pub register_memory : Calls → Got → Progress
unfolding acquire
register_memory k g =
    and_next (acquire k dereg_send_mr (λ c. record c { send_mr = true }) g)
      (acquire k dereg_recv_mr (λ c. record c { recv_mr = true }))

-- The lists are linked and the packets to be received posted.
unfoldable pub post_packets : Calls → Got → Progress
unfolding each_step test
post_packets k g =
    each_step g.context.nqp 0 (λ i. test (k.post_recv i))
      (record g { context = record g.context { send_pkt_head = true } })

unfoldable pub open_socket : Option ℕ → Got → Progress
open_socket none g = stops g
open_socket (some s) g =
    goes (gain (close_socket s) (λ c. record c { mcast_subscriber = some s }) g)

unfoldable pub flow_tables : Calls → Got → Progress
unfolding acquire open_socket
flow_tables k g =
    and_next
      (acquire k (free flows) (λ c. record c { ibv_flows = all_null })
        (record g {
          context = record g.context {
            max_flows = if g.context.max_flows == 0 then 1 else g.context.max_flows;
          };
        }))
      (λ g.
        and_next (acquire k (free dst_ips) (λ c. record c { flow_dst_ips = some (λ i. 0) }) g)
          (open_socket k.socket))

-- From the protection domain on.
unfoldable pub acquire_all : Calls → Got → Progress
unfolding acquire test packet_numbers create_send_cqs create_recv_cqs create_qps allocate_buffers
    register_memory post_packets flow_tables
acquire_all k g = and_next (packet_numbers k g) (λ g.
    and_next (acquire k dealloc_pd (λ c. record c { pd = true }) g) (λ g.
      and_next (acquire k destroy_recv_cc (λ c. record c { recv_cc = true }) g) (λ g.
        and_next (test k.nonblocking g) (λ g. and_next (create_send_cqs k g) (λ g.
          and_next (create_recv_cqs k g) (λ g. and_next (create_qps k g) (λ g.
            and_next (allocate_buffers k g) (λ g.
              and_next (register_memory k g)
                (λ g. and_next (post_packets k g) (flow_tables k))))))))))

-- The return code, the context, what was acquired and the calls of the shutdown.
pub record Result : Type 0 where
  pub code : ℕ
  pub left : Context
  pub acquired : List Release
  pub released : List Release

abbrev pub not_begun : Context → Result
not_begun c = record { code = 1; left = c; acquired = []; released = [] }

unfoldable pub ended : (Release → Bool) → Progress → Result
ended failing (goes g) = record { code = 0; left = g.context; acquired = g.gained; released = [] }
ended failing (stops g) =
    let (n, c, rs) = shutdown failing g.context in
    record { code = 1; left = c; acquired = g.gained; released = rs }

unfoldable pub ibv_init : Calls → (Release → Bool) → Context → Result
unfolding reset acquire_all ended
ibv_init k failing c =
    let c1 = one_qp c in
    if c1.user_managed_flag && lacks_buffers c1
    then not_begun c1
    else if not k.interface_info
    then not_begun c1
    else if not (k.gives close_device)
    then not_begun (reset c1)
    else ended failing (
        acquire_all k (
          gain close_device (λ c. record c { ctx = true })
            (record { context = reset c1; gained = [] })))
