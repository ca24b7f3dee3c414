-- ===== src/Ibv/Flow/Types.antt =====
-- The flow rules, the arguments of a call, and what it depends on.
use hashpipe.Base.{ℕ}
use hashpipe.Base.{Bool, Option, List}

-- `enum ibv_flow_spec_type`
pub data FlowType : Type 0 where
  spec_tcp spec_udp spec_ipv4 spec_eth spec_other : FlowType

-- A field to match and the mask of its bits that count.
pub record Match : Type 0 where
  pub val : ℕ
  pub mask : ℕ

pub record MacMatch : Type 0 where
  pub val : List ℕ
  pub mask : List ℕ

-- `struct hashpipe_ibv_flow`, its fields in network byte order. The type of `spec_tcp_udp` is `none`
-- until it is set.
pub record Flow : Type 0 where
  pub size : ℕ
  pub num_of_specs : ℕ
  pub port : ℕ
  pub tcp_udp_type : Option FlowType
  pub src_port : Match
  pub dst_port : Match
  pub src_ip : Match
  pub dst_ip : Match
  pub dst_mac : MacMatch
  pub src_mac : MacMatch
  pub ether_type : Match
  pub vlan_tag : Match

-- The arguments of a call that say what to match, in host byte order, 0 or `none` for nothing.
pub record Criteria : Type 0 where
  pub dst_mac : Option (List ℕ)
  pub src_mac : Option (List ℕ)
  pub ether_type : ℕ
  pub vlan_tag : ℕ
  pub src_ip : ℕ
  pub dst_ip : ℕ
  pub src_port : ℕ
  pub dst_port : ℕ

-- `IP_ADD_MEMBERSHIP` and `IP_DROP_MEMBERSHIP`, the only options that are passed.
pub data Membership : Type 0 where
  add_membership drop_membership : Membership

-- The sizes of the structs of <infiniband/verbs.h>, and the macros of <netinet/in.h>:
-- `in_multicast` takes an address in host byte order, `ether_map` one in network byte order.
pub record Headers : Type 0 where
  pub attr_size : ℕ
  pub tcp_udp_size : ℕ
  pub ipv4_size : ℕ
  pub eth_size : ℕ
  pub in_multicast : ℕ → Bool
  pub ether_map : ℕ → List ℕ

-- What the context keeps from its set-up: whether its arrays `ibv_flows` and `flow_dst_ips` are not
-- NULL, and its numbers. `mcast_subscriber` is `none` for -1.
pub record Nic : Type 0 where
  pub has_ibv_flows : Bool
  pub has_flow_dst_ips : Bool
  pub max_flows : ℕ
  pub nqp : ℕ
  pub port_num : ℕ
  pub mac : List ℕ
  pub mcast_subscriber : Option ℕ

-- The calls, over a state of the kernel: if_nametoindex(3) of the interface (0: it fails),
-- setsockopt(2) and ibv_destroy_flow(3) (`true`: success), ibv_create_flow(3) (`none`: NULL).
pub record Verbs : Type 1 where
  pub World : Type 0
  pub Handle : Type 0
  pub if_nametoindex : World → ℕ
  pub setsockopt : World → ℕ → Membership → ℕ → ℕ → Bool × World
  pub destroy_flow : World → Option Handle → Bool × World
  pub create_flow : World → ℕ → Flow → Option Handle × World
