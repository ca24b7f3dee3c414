-- ===== src/Ibv/Flow/Wanted.antt =====
-- What the rule is to be that a call asks for, and the part of it for the addresses.
use hashpipe.Base.{ℕ, ◌+◌, ◌≡◌, ◌≢◌, ◌⊎◌, refl, arith, subst}
use hashpipe.Base.{Bool, true, false, List, ◌==◌, if◌then◌else◌, ◌&&◌, not}
use hashpipe.Packet.{swap16, swap32}
use hashpipe.Ibv.Flow.Table.{set_self}
use hashpipe.Ibv.Flow.{
  FlowType, spec_tcp, spec_udp, spec_eth, spec_other, Match, Criteria, Headers, Nic, Verbs, Flows,
  Draft, no_match, no_mac, whole_mac, or_own, add_dst_ip, joined, mcast_membership, add_membership,
  empty_flow, set_at, given_mac, given16, given32,
}

-- A field is matched whole, in network byte order, or not at all.
abbrev pub IsField : ℕ → ℕ → ℕ → Match → Type 0
IsField v be mask m = ((v ≡ 0) × (m ≡ no_match)) ⊎ ((v ≢ 0) × (m.val ≡ be) × (m.mask ≡ mask))

-- The layers that a type has.
abbrev pub has_ports : FlowType → Bool
has_ports spec_tcp = true
has_ports spec_udp = true
has_ports _ = false

abbrev pub has_addresses : FlowType → Bool
has_addresses spec_eth = false
has_addresses spec_other = false
has_addresses _ = true

-- The criterion of a layer that the type does not have counts as not given.
abbrev pub only : Bool → ℕ → ℕ
only b v = if b then v else 0

module _ (h : Headers) (nic : Nic) (v : Verbs) (idx : ℕ) where
  -- The Ethernet address to match: a multicast group's, else the one that is given, else the
  -- interface's own.
  abbrev pub wanted_mac : FlowType → Criteria → List ℕ
  wanted_mac t c =
      let ip = only (has_addresses t) c.dst_ip in
      if not (ip == 0) && h.in_multicast ip
      then h.ether_map (swap32 ip)
      else or_own h nic v c.dst_mac

  abbrev pub depth : FlowType → ℕ
  depth t = (if has_ports t then 1 else 0) + (if has_addresses t then 1 else 0) + 1

  pub record IsSpec (t : FlowType) (c : Criteria) (before : Flows h nic v) (d : Draft h nic v)
      : Type 0 where
    pub specs : d.flow.num_of_specs ≡ depth t
    pub size :
        d.flow.size
        ≡ h.attr_size
          + only (has_ports t) h.tcp_udp_size
          + only (has_addresses t) h.ipv4_size
          + h.eth_size
    pub src_port :
        IsField (only (has_ports t) c.src_port) (swap16 c.src_port) 0xffff d.flow.src_port
    pub dst_port :
        IsField (only (has_ports t) c.dst_port) (swap16 c.dst_port) 0xffff d.flow.dst_port
    pub src_ip :
        IsField (only (has_addresses t) c.src_ip) (swap32 c.src_ip) 0xffffffff d.flow.src_ip
    pub dst_ip :
        IsField (only (has_addresses t) c.dst_ip) (swap32 c.dst_ip) 0xffffffff d.flow.dst_ip
    pub ether_type : IsField c.ether_type (swap16 c.ether_type) 0xffff d.flow.ether_type
    pub vlan_tag : IsField c.vlan_tag (swap16 c.vlan_tag) 0xffff d.flow.vlan_tag
    pub dst_mac : (d.flow.dst_mac.val ≡ wanted_mac t c) × (d.flow.dst_mac.mask ≡ whole_mac)
    pub src_mac : d.flow.src_mac ≡ given_mac c.src_mac (record { val = no_mac; mask = no_mac })
    pub address : d.flows.flow_dst_ips idx ≡ (
        if only (has_addresses t) c.dst_ip == 0 then before.flow_dst_ips idx else swap32 c.dst_ip)

  -- What a call starts from.
  abbrev pub start : Criteria → Flows h nic v → Draft h nic v
  start c s = record { flow = empty_flow h nic v; mac = c.dst_mac; flows = s }

  pub given16-IsField : (x : ℕ) → IsField x (swap16 x) 0xffff (given16 x no_match)
  given16-IsField x = ground arith

  pub given32-IsField : (x : ℕ) → IsField x (swap32 x) 0xffffffff (given32 x no_match)
  given32-IsField x = ground arith

  -- After the layer of the addresses.
  pub record HasIp (ip : ℕ) (d d' : Draft h nic v) : Type 0 where
    pub flow : d'.flow ≡ d.flow
    pub mac : or_own h nic v d'.mac ≡ (
        if not (ip == 0) && h.in_multicast ip
        then h.ether_map (swap32 ip)
        else or_own h nic v d.mac)
    pub address :
        d'.flows.flow_dst_ips idx ≡ (if ip == 0 then d.flows.flow_dst_ips idx else swap32 ip)

  pub add_dst_ip-HasIp :
      (ip : ℕ) (d : Draft h nic v)
      → (add_dst_ip h nic v idx ip d).0 ≡ true
      → HasIp ip d (add_dst_ip h nic v idx ip d).1
  unfolding add_dst_ip joined
  add_dst_ip-HasIp ip d = go (ip == 0) (h.in_multicast ip) refl refl
    where
      set : Draft h nic v
      set =
          let s = d.flows in
          record d { flows = record s { flow_dst_ips = set_at s.flow_dst_ips idx (swap32 ip) } }

      went :
          (r : Bool × v.World)
          → ip == 0 ≡ false
          → h.in_multicast ip ≡ true
          → (joined h nic v (swap32 ip) set r).0 ≡ true
          → HasIp ip d (joined h nic v (swap32 ip) set r).1
      went (true, w) e m ok = record {
        flow = refl;
        mac = rw (e, m) refl;
        address = rw (e, set_self d.flows.flow_dst_ips idx (swap32 ip)) refl;
      }
      went (false, w) e m ok = cc ok

      go :
          (zero_ip multicast : Bool)
          → ip == 0 ≡ zero_ip
          → h.in_multicast ip ≡ multicast
          → (add_dst_ip h nic v idx ip d).0 ≡ true
          → HasIp ip d (add_dst_ip h nic v idx ip d).1
      go true m e f ok =
          rw (e, add_dst_ip) record { flow = refl; mac = rw e refl; address = rw e refl }
      go false true e f ok =
          rw (e, f, add_dst_ip)
            (went (mcast_membership h nic v d.flows.world add_membership (swap32 ip)) e f
              (subst (λ y. y ≡ true) (rw (e, f, add_dst_ip) refl) ok))
      go false false e f ok =
          rw (e, f, add_dst_ip)
            record {
              flow = refl;
              mac = rw (e, f) refl;
              address = rw (e, set_self d.flows.flow_dst_ips idx (swap32 ip)) refl;
            }
