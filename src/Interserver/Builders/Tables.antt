-- ===== src/Interserver/Builders/Tables.antt =====
-- The global map `fields` (oflib/oxm-match.c), in the order of its keys, and the argument lists that
-- interact_builders.cc makes of it (lines 166-243 and 775-860).
use Prim.Native.String.{◌++◌ as string_append}
use nox13_interserver.Common.{ℕ, List, [], ◌∷◌, String}
use nox13_interserver.Interserver.Builders.Arguments.{
  ArgType, e_string, e_num, e_ipv4, e_ipv6, e_mac, ArgumentsList,
}

-- The OXM header of a field, as far as the code tells them apart.
pub data Header : Type 0 where
  ipv4_addr arp_ipv4_addr eth_addr arp_eth_addr ipv6_addr ipv6_nd_ll other : Header

pub record Field : Type 0 where
  pub key : String
  pub header : Header
  pub size : ℕ

abbrev field : String → Header → ℕ → Field
field key header size = record { key = key; header = header; size = size }

abbrev pub fields : List Field
fields =
    field "arp_sha" arp_eth_addr 6
    ∷ field "arp_spa" arp_ipv4_addr 4
    ∷ field "arp_tha" arp_eth_addr 6
    ∷ field "arp_tpa" arp_ipv4_addr 4
    ∷ field "eth_dst" eth_addr 6
    ∷ field "eth_src" eth_addr 6
    ∷ field "eth_type" other 2
    ∷ field "exthdr" other 2
    ∷ field "icmpv4_code" other 1
    ∷ field "icmpv4_type" other 1
    ∷ field "icmpv6_code" other 1
    ∷ field "icmpv6_type" other 1
    ∷ field "in_phy_port" other 4
    ∷ field "in_port" other 4
    ∷ field "ip_dscp" other 1
    ∷ field "ip_ecn" other 1
    ∷ field "ip_proto" other 1
    ∷ field "ipv4_dst" ipv4_addr 4
    ∷ field "ipv4_src" ipv4_addr 4
    ∷ field "ipv6_dst" ipv6_addr 16
    ∷ field "ipv6_flow_label" other 4
    ∷ field "ipv6_nd_sll" ipv6_nd_ll 16
    ∷ field "ipv6_nd_target" ipv6_addr 16
    ∷ field "ipv6_nd_tll" ipv6_nd_ll 16
    ∷ field "ipv6_src" ipv6_addr 16
    ∷ field "metadata" other 8
    ∷ field "mpls_bos" other 1
    ∷ field "mpls_label" other 4
    ∷ field "mpls_tc" other 1
    ∷ field "pbb_isid" other 4
    ∷ field "sctp_src" other 2
    ∷ field "stcp_dst" other 2
    ∷ field "tcp_dst" other 2
    ∷ field "tcp_src" other 2
    ∷ field "tunnel_id" other 8
    ∷ field "udp_dst" other 2
    ∷ field "udp_src" other 2
    ∷ field "vlan_id" other 2
    ∷ field "vlan_pcp" other 1
    ∷ []

-- The switch of construct_action_tags
abbrev pub action_type : Header → ArgType
action_type ipv4_addr = e_ipv4
action_type eth_addr = e_mac
action_type ipv6_addr = e_ipv6
action_type ipv6_nd_ll = e_ipv6
action_type header = e_num

abbrev pub field_tags : List Field → ArgumentsList
field_tags [] = []
field_tags (f ∷ fs) = (f.key, action_type f.header) ∷ field_tags fs

-- construct_action_tags
abbrev pub action_tags : ArgumentsList
action_tags =
    ("out_port", e_string)
    ∷ ("queue_id", e_num)
    ∷ ("group_id", e_num)
    ∷ ("tag_type", e_string)
    ∷ ("ethertype", e_num)
    ∷ ("ttl_action", e_string)
    ∷ ("ttl", e_num)
    ∷ ("ttl_type", e_string)
    ∷ ("action_type", e_string)
    ∷ field_tags fields

-- construct_action_tags_special and construct_match_tags_special: the keys of numbers.
abbrev pub special_fields : List Field → List Field
special_fields [] = []
special_fields (f ∷ fs) =
    let rest = special_fields fs in
    elim f.header [
      | ipv4_addr ↦ rest
      | eth_addr ↦ rest
      | ipv6_addr ↦ rest
      | ipv6_nd_ll ↦ rest
      | _ ↦ f ∷ rest
    ]

-- The switch of construct_match_tags
abbrev pub match_type : Header → ArgType
match_type ipv4_addr = e_ipv4
match_type arp_ipv4_addr = e_ipv4
match_type eth_addr = e_mac
match_type arp_eth_addr = e_mac
match_type ipv6_addr = e_ipv6
match_type header = e_num

-- construct_match_tags
abbrev pub match_tags : List Field → ArgumentsList
match_tags [] = []
match_tags (f ∷ fs) =
    (f.key, match_type f.header)
    ∷ (string_append f.key "_mask", match_type f.header)
    ∷ match_tags fs
