-- ===== src/Ibv/Shutdown.antt =====
-- `hashpipe_ibv_shutdown`: what it releases, in which order, and the failures that it counts.
pub mod Again
pub mod Order
pub mod Count
pub mod Once
use hashpipe.Base.{ℕ, zero, suc, ◌+◌, ◌*◌, ◌%◌, ◌^◌, ltb, if◌then◌else◌}
use hashpipe.Base.{Bool, true, false, Option, none, some, List, [], ◌∷◌, ◌++◌}

-- The calls it makes: `leave` is mcast_membership with IP_DROP_MEMBERSHIP, `destroy_flow` has the
-- index in the table; free(3) and munmap(2) have the field whose memory they release.
pub data Memory : Type 0 where
  qps send_cqs recv_cqs send_pkts recv_pkts send_sges recv_sges flows dst_ips : Memory

pub data Release : Type 0 where
  leave destroy_flow destroy_qp destroy_send_cq destroy_recv_cq : ℕ → Release
  dereg_send_mr dereg_recv_mr destroy_recv_cc dealloc_pd close_device : Release
  free : Memory → Release
  munmap_send munmap_recv : ℕ → Release
  close_socket : ℕ → Release

-- The fields of the context that are released. A pointer is whether it is not NULL, an array of
-- pointers is `none` if it is NULL itself; `mcast_subscriber` is `none` for -1.
pub record Context : Type 0 where
  pub nqp : ℕ
  pub max_flows : ℕ
  pub send_pkt_num : ℕ
  pub recv_pkt_num : ℕ
  pub pkt_size_max : ℕ
  pub user_managed_flag : Bool
  pub ibv_flows : Option (ℕ → Bool)
  pub flow_dst_ips : Option (ℕ → ℕ)
  pub send_mr : Bool
  pub recv_mr : Bool
  pub qp : Option (ℕ → Bool)
  pub send_cq : Option (ℕ → Bool)
  pub recv_cq : Option (ℕ → Bool)
  pub recv_cc : Bool
  pub pd : Bool
  pub ctx : Bool
  pub send_pkt_head : Bool
  pub send_pkt_buf : Bool
  pub recv_pkt_buf : Bool
  pub send_sge_buf : Bool
  pub recv_sge_buf : Bool
  pub send_mr_buf : Bool
  pub recv_mr_buf : Bool
  pub mcast_subscriber : Option ℕ

-- A call that is made only if there is something to release.
abbrev pub when : Bool → Release → List Release
when b r = if b then r ∷ [] else []

-- `make i` for those of `n` entries from `i` on that are not NULL.
unfoldable pub each : ℕ → ℕ → (ℕ → Bool) → (ℕ → Release) → List Release
each zero i present make = []
each (suc n) i present make = when (present i) (make i) ++ each n (i + 1) present make

unfoldable pub each_of : ℕ → Memory → Option (ℕ → Bool) → (ℕ → Release) → List Release
unfolding each
each_of n m none make = []
each_of n m (some present) make = each n 0 present make ++ free m ∷ []

-- The flows: those of the first queue pair leave their groups.
unfoldable pub each_flow : ℕ → ℕ → ℕ → (ℕ → Bool) → (ℕ → ℕ) → List Release
each_flow zero i max_flows present ips = []
each_flow (suc n) i max_flows present ips =
    (if present i then when (ltb i max_flows) (leave (ips i)) ++ destroy_flow i ∷ [] else [])
    ++ each_flow n (i + 1) max_flows present ips

-- (There are no flows without addresses.)
abbrev pub address_at : Option (ℕ → ℕ) → ℕ → ℕ
address_at none i = 0
address_at (some f) i = f i

unfoldable pub release_flows : Context → List Release
unfolding each_flow
release_flows c = elim c.ibv_flows [
  | none ↦ []
  | some present ↦ each_flow (c.max_flows * c.nqp) 0 c.max_flows present (address_at c.flow_dst_ips)
]

-- The structures of libibverbs.
unfoldable pub release_verbs : Context → List Release
unfolding each_of
release_verbs c =
    when c.send_mr dereg_send_mr
    ++ when c.recv_mr dereg_recv_mr
    ++ each_of c.nqp qps c.qp destroy_qp
    ++ each_of c.nqp send_cqs c.send_cq destroy_send_cq
    ++ each_of c.nqp recv_cqs c.recv_cq destroy_recv_cq
    ++ when c.recv_cc destroy_recv_cc
    ++ when c.pd dealloc_pd
    ++ when c.ctx close_device

-- The buffers, unless the user manages them. The lengths are products of 32 bits.
unfoldable pub release_buffers : Context → List Release
release_buffers c =
    if c.user_managed_flag
    then []
    else (when c.send_pkt_buf (free send_pkts)
        ++ when c.recv_pkt_buf (free recv_pkts)
        ++ when c.send_sge_buf (free send_sges)
        ++ when c.recv_sge_buf (free recv_sges)
        ++ when c.send_mr_buf (munmap_send (c.send_pkt_num * c.pkt_size_max % 2 ^ 32))
        ++ when c.recv_mr_buf (munmap_recv (c.recv_pkt_num * c.pkt_size_max % 2 ^ 32)))

abbrev pub is_there {ℓ} : {A : Type ℓ} → Option A → Bool
is_there none = false
is_there (some _) = true

unfoldable pub release_tables : Context → List Release
release_tables c =
    when (is_there c.ibv_flows) (free flows)
    ++ when (is_there c.flow_dst_ips) (free dst_ips)
    ++ (elim c.mcast_subscriber [ none ↦ [] | some s ↦ close_socket s ∷ [] ])

-- The failures that are counted; free(3) and munmap(2) are not.
unfoldable pub failures : (Release → Bool) → List Release → ℕ
failures fails [] = 0
failures fails (free m ∷ rs) = failures fails rs
failures fails (munmap_send n ∷ rs) = failures fails rs
failures fails (munmap_recv n ∷ rs) = failures fails rs
failures fails (r ∷ rs) = (if fails r then 1 else 0) + failures fails rs

-- The context after it. What the user manages stays, and so does the descriptor of the socket.
unfoldable pub forget : Context → Context
forget c = record c {
  ibv_flows = none;
  flow_dst_ips = none;
  send_mr = false;
  recv_mr = false;
  qp = none;
  send_cq = none;
  recv_cq = none;
  recv_cc = false;
  pd = false;
  ctx = false;
  send_pkt_head = false;
  send_pkt_buf = if c.user_managed_flag then c.send_pkt_buf else false;
  recv_pkt_buf = if c.user_managed_flag then c.recv_pkt_buf else false;
  send_sge_buf = if c.user_managed_flag then c.send_sge_buf else false;
  recv_sge_buf = if c.user_managed_flag then c.recv_sge_buf else false;
  send_mr_buf = if c.user_managed_flag then c.send_mr_buf else false;
  recv_mr_buf = if c.user_managed_flag then c.recv_mr_buf else false;
}

-- The call on a context: the number of failures, the context after it, and the calls it makes.
unfoldable pub shutdown : (Release → Bool) → Context → ℕ × Context × List Release
unfolding release_flows release_verbs release_buffers release_tables failures forget
shutdown fails c =
    let rs = release_flows c ++ release_verbs c ++ release_buffers c ++ release_tables c in
    (failures fails rs, forget c, rs)
