-- ===== src/Ibv/Flow.antt =====
-- `hashpipe_ibv_flow`: the table of flow rules, and the groups that they join.
-- libibverbs, setsockopt(2) and the macros of <netinet/in.h> answer through arguments.
mod Types
pub mod Table
pub mod Whole
pub mod Wanted
pub mod Spec
pub mod Multicast
use hashpipe.Base.{ℕ, zero, suc, ◌+◌, ◌*◌, ◌==◌, ltb, if◌then◌else◌, ◌&&◌, bit_and}
use hashpipe.Base.{Bool, true, false, Option, none, some, List, [], ◌∷◌}
use hashpipe.Packet.{swap16, swap32}
pub use Types.*

abbrev pub no_match : Match
no_match = record { val = 0; mask = 0 }

abbrev pub no_mac : List ℕ
no_mac = 0 ∷ 0 ∷ 0 ∷ 0 ∷ 0 ∷ 0 ∷ []

abbrev pub whole_mac : List ℕ
whole_mac = 0xff ∷ 0xff ∷ 0xff ∷ 0xff ∷ 0xff ∷ 0xff ∷ []

abbrev pub given16 : ℕ → Match → Match
given16 v m = if v == 0 then m else record { val = swap16 v; mask = 0xffff }

abbrev pub given32 : ℕ → Match → Match
given32 v m = if v == 0 then m else record { val = swap32 v; mask = 0xffffffff }

abbrev pub given_mac : Option (List ℕ) → MacMatch → MacMatch
given_mac none m = m
given_mac (some a) m = record { val = a; mask = whole_mac }

abbrev pub has_no {ℓ} : {A : Type ℓ} → Option A → Bool
has_no none = true
has_no (some _) = false

abbrev pub is_nothing : Criteria → Bool
is_nothing c =
    has_no c.dst_mac
    && has_no c.src_mac
    && c.ether_type == 0
    && c.vlan_tag == 0
    && c.src_ip == 0
    && c.dst_ip == 0
    && c.src_port == 0
    && c.dst_port == 0

-- Whether an address in network byte order is multicast.
abbrev pub is_multicast_be : ℕ → Bool
is_multicast_be ip = bit_and ip 0xf0 == 0xe0

abbrev pub set_at {ℓ} : {A : Type ℓ} → (ℕ → A) → ℕ → A → ℕ → A
set_at f i a j = if i == j then a else f j

abbrev pub is_supported : FlowType → Bool
is_supported spec_other = false
is_supported _ = true

-- What follows is done only after success.
abbrev pub and_then {ℓ} : {A : Type ℓ} → Bool × A → (A → Bool × A) → Bool × A
and_then (true, a) k = k a
and_then (false, a) k = (false, a)

module _ (h : Headers) (nic : Nic) (v : Verbs) where
  -- The table. A flow's handle for queue pair `i` is at `i * max_flows + flow_idx`.
  pub record Flows : Type 0 where
    pub ibv_flows : ℕ → Option v.Handle
    pub flow_dst_ips : ℕ → ℕ
    pub world : v.World

  -- The flow that is being put together, and the destination address that it is to match.
  pub record Draft : Type 0 where
    pub flow : Flow
    pub mac : Option (List ℕ)
    pub flows : Flows

  unfoldable pub mcast_membership : v.World → Membership → ℕ → Bool × v.World
  mcast_membership w opt dst_ip =
      if is_multicast_be dst_ip
      then (elim nic.mcast_subscriber [
        | none ↦ (false, w)
        | some s ↦
            let index = v.if_nametoindex w in
            if index == 0 then (false, w) else v.setsockopt w s opt index dst_ip
      ])
      else (true, w)

  unfoldable pub dropped : ℕ → Flows → Bool × v.World → Bool × Flows
  dropped idx s (true, w) =
      (true, record s { world = w; flow_dst_ips = set_at s.flow_dst_ips idx 0 })
  dropped idx s (false, w) = (false, record s { world = w })

  unfoldable pub destroyed : ℕ → Flows → Bool × v.World → Bool × Flows
  destroyed j s (true, w) = (true, record s { world = w; ibv_flows = set_at s.ibv_flows j none })
  destroyed j s (false, w) = (false, record s { world = w })

  unfoldable pub destroy_all : ℕ → ℕ → ℕ → Flows → Bool × Flows
  unfolding destroyed
  destroy_all zero i idx s = (true, s)
  destroy_all (suc n) i idx s =
      let j = i * nic.max_flows + idx in
      and_then (destroyed j s (v.destroy_flow s.world (s.ibv_flows j))) (destroy_all n (i + 1) idx)

  unfoldable pub remove_old : ℕ → Flows → Bool × Flows
  unfolding dropped destroy_all mcast_membership
  remove_old idx s = elim (s.ibv_flows idx) [
    | none ↦ (true, s)
    | some _ ↦
        and_then (dropped idx s (mcast_membership s.world drop_membership (s.flow_dst_ips idx)))
          (destroy_all nic.nqp 0 idx)
  ]

  unfoldable pub empty_flow : Flow
  empty_flow = record {
    size = h.attr_size;
    num_of_specs = 0;
    port = nic.port_num;
    tcp_udp_type = none;
    src_port = no_match;
    dst_port = no_match;
    src_ip = no_match;
    dst_ip = no_match;
    dst_mac = record { val = no_mac; mask = no_mac };
    src_mac = record { val = no_mac; mask = no_mac };
    ether_type = no_match;
    vlan_tag = no_match;
  }

  unfoldable pub tcp_udp_layer : FlowType → Criteria → Draft → Draft
  tcp_udp_layer t c d =
      let f = d.flow in
      record d {
        flow = record f {
          size = f.size + h.tcp_udp_size;
          num_of_specs = f.num_of_specs + 1;
          tcp_udp_type = some t;
          src_port = given16 c.src_port f.src_port;
          dst_port = given16 c.dst_port f.dst_port;
        };
      }

  -- Joining the group of a multicast address, whose Ethernet address is then the one to match.
  unfoldable pub joined : ℕ → Draft → Bool × v.World → Bool × Draft
  joined ip d (true, w) =
      let s = d.flows in
      (true, record d { mac = some (h.ether_map ip); flows = record s { world = w } })
  joined ip d (false, w) = let s = d.flows in (false, record d { flows = record s { world = w } })

  unfoldable pub add_dst_ip : ℕ → ℕ → Draft → Bool × Draft
  unfolding joined mcast_membership
  add_dst_ip idx dst_ip d =
      let s = d.flows in
      let d' : Draft = record d {
        flows = record s { flow_dst_ips = set_at s.flow_dst_ips idx (swap32 dst_ip) };
      } in
      if dst_ip == 0
      then (true, d)
      else (if h.in_multicast dst_ip
          then joined (swap32 dst_ip) d' (mcast_membership s.world add_membership (swap32 dst_ip))
          else (true, d'))

  unfoldable pub ipv4_layer : ℕ → Criteria → Draft → Bool × Draft
  unfolding add_dst_ip
  ipv4_layer idx c d =
      let f = d.flow in
      add_dst_ip idx c.dst_ip (record d {
        flow = record f {
          size = f.size + h.ipv4_size;
          num_of_specs = f.num_of_specs + 1;
          src_ip = given32 c.src_ip f.src_ip;
          dst_ip = given32 c.dst_ip f.dst_ip;
        };
      })

  -- Without a destination address, the interface's own.
  abbrev pub or_own : Option (List ℕ) → List ℕ
  or_own none = nic.mac
  or_own (some a) = a

  unfoldable pub eth_layer : Criteria → Draft → Bool × Draft
  eth_layer c d =
      let f = d.flow in
      (
        true,
        record d {
          flow = record f {
            size = f.size + h.eth_size;
            num_of_specs = f.num_of_specs + 1;
            dst_mac = record { val = or_own d.mac; mask = whole_mac };
            src_mac = given_mac c.src_mac f.src_mac;
            ether_type = given16 c.ether_type f.ether_type;
            vlan_tag = given16 c.vlan_tag f.vlan_tag;
          };
        },
      )

  unfoldable pub layers : ℕ → FlowType → Criteria → Draft → Bool × Draft
  unfolding tcp_udp_layer ipv4_layer eth_layer
  layers idx spec_tcp c d = and_then (ipv4_layer idx c (tcp_udp_layer spec_tcp c d)) (eth_layer c)
  layers idx spec_udp c d = and_then (ipv4_layer idx c (tcp_udp_layer spec_udp c d)) (eth_layer c)
  layers idx spec_ipv4 c d = and_then (ipv4_layer idx c d) (eth_layer c)
  layers idx spec_eth c d = eth_layer c d
  layers idx spec_other c d = (false, d)

  unfoldable pub made : ℕ → Flows → Option v.Handle × v.World → Bool × Flows
  made j s (some x, w) = (true, record s { world = w; ibv_flows = set_at s.ibv_flows j (some x) })
  made j s (none, w) = (false, record s { world = w; ibv_flows = set_at s.ibv_flows j none })

  unfoldable pub create_all : ℕ → ℕ → ℕ → Flow → Flows → Bool × Flows
  unfolding made
  create_all zero i idx f s = (true, s)
  create_all (suc n) i idx f s =
      and_then (made (i * nic.max_flows + idx) s (v.create_flow s.world i f))
        (create_all n (i + 1) idx f)

  unfoldable pub after_layers : ℕ → Bool × Draft → Bool × Flows
  unfolding create_all
  after_layers idx (true, d) = create_all nic.nqp 0 idx d.flow d.flows
  after_layers idx (false, d) = (false, d.flows)

  unfoldable pub add_new : ℕ → FlowType → Criteria → Flows → Bool × Flows
  unfolding empty_flow layers after_layers
  add_new idx t c s =
      if is_nothing c
      then (true, s)
      else after_layers idx
          (layers idx t c (record { flow = empty_flow; mac = c.dst_mac; flows = s }))

  -- The call on a context with its two arrays: whether it returns 0, and the table after it.
  unfoldable pub flow : ℕ → FlowType → Criteria → Flows → Bool × Flows
  unfolding remove_old add_new
  flow idx t c s =
      if ltb idx nic.max_flows && is_supported t && nic.has_ibv_flows && nic.has_flow_dst_ips
      then and_then (remove_old idx s) (add_new idx t c)
      else (false, s)
