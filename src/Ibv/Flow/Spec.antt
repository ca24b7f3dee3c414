-- ===== src/Ibv/Flow/Spec.antt =====
-- What a flow matches.
use hashpipe.Base.{ℕ, ◌+◌, ◌≡◌}
use hashpipe.Base.{◌==◌, if◌then◌else◌}
use hashpipe.Packet.{swap16, swap32}
use hashpipe.Ibv.Flow.{
  FlowType, Criteria, Headers, Nic, Verbs, Flows, Draft, no_match, no_mac, or_own, given32,
}
use hashpipe.Ibv.Flow.Wanted.{IsField, has_ports, has_addresses, only, wanted_mac, depth}

module _ (h : Headers) (nic : Nic) (v : Verbs) (idx : ℕ) where
  -- A draft that lacks the Ethernet layer only.
  record IsBelow (t : FlowType) (c : Criteria) (s : Flows h nic v) (d : Draft h nic v)
      : Type 0 where
    specs : d.flow.num_of_specs + 1 ≡ depth h nic v idx t
    size :
        d.flow.size
        ≡ h.attr_size + only (has_ports t) h.tcp_udp_size + only (has_addresses t) h.ipv4_size
    src_port : IsField (only (has_ports t) c.src_port) (swap16 c.src_port) 0xffff d.flow.src_port
    dst_port : IsField (only (has_ports t) c.dst_port) (swap16 c.dst_port) 0xffff d.flow.dst_port
    src_ip : IsField (only (has_addresses t) c.src_ip) (swap32 c.src_ip) 0xffffffff d.flow.src_ip
    dst_ip : IsField (only (has_addresses t) c.dst_ip) (swap32 c.dst_ip) 0xffffffff d.flow.dst_ip
    ether_type : d.flow.ether_type ≡ no_match
    vlan_tag : d.flow.vlan_tag ≡ no_match
    src_mac : d.flow.src_mac ≡ record { val = no_mac; mask = no_mac }
    dst_mac : or_own h nic v d.mac ≡ wanted_mac h nic v idx t c
    address :
        d.flows.flow_dst_ips idx
        ≡ (if only (has_addresses t) c.dst_ip == 0 then s.flow_dst_ips idx else swap32 c.dst_ip)

  -- The draft that add_dst_ip is given.
  with_ip : Criteria → Draft h nic v → Draft h nic v
  with_ip c d =
      let f = d.flow in
      record d {
        flow = record f {
          size = f.size + h.ipv4_size;
          num_of_specs = f.num_of_specs + 1;
          src_ip = given32 c.src_ip f.src_ip;
          dst_ip = given32 c.dst_ip f.dst_ip;
        };
      }
