-- ===== src/LearningSwitch.antt =====
-- The component `Switch` (nox/coreapps/switch/switch.cc), on a little-endian host.
-- What it hands to the core is logged in `sent`, oldest first. A MAC address is its 48-bit number,
-- the first octet the most significant. An `int` is its 32-bit pattern, so -1 is 0xffffffff.
pub mod Forwarding
use nox13_interserver.Common.{
  ℕ, ◌+◌, ◌*◌, ◌/◌, ◌%◌, ◌^◌, ◌≡◌, ◌↔◌, Bool, true, false, not, ◌&&◌, ◌||◌, Option, none, some,
  List, [], ◌∷◌, ◌++◌, arith, ltb, ◌==◌, if◌then◌else◌, Key, length,
}
use nox13_interserver.Common.Maps.{lookup, insert}
use nox13_interserver.Common.Outcome.{Outcome, ok, throws, undefined, ◌>>=◌}
use nox13_interserver.OpenFlow.Codes.{
  ofpp_flood, ofpp_any, ofpp_controller, ofpg_any, ofp_flow_permanent, ofp_default_priority,
  ofpfc_add,
}
use nox13_interserver.OpenFlow.Actions.{
  FieldValue, number, address, Actions, new_actions, create_output,
}
use nox13_interserver.OpenFlow.Instructions.{new_instructions, create_apply}
use nox13_interserver.OpenFlow.FlowMod.{
  Match, add_field, FlowMod, flow_mod, with_match, with_instructions,
}

-- The key of Mac_source, and its operator==. The table is a hash set, so its order is not seen.
pub record MacSource : Type 0 where
  pub datapath_id : ℕ
  pub mac : ℕ

abbrev pub mac_source_eq : MacSource → MacSource → Bool
mac_source_eq a b = a.datapath_id == b.datapath_id && a.mac == b.mac

abbrev pub mac_source_lt : MacSource → MacSource → Bool
mac_source_lt a b =
    if a.datapath_id == b.datapath_id then ltb a.mac b.mac else ltb a.datapath_id b.datapath_id

pub mac_source_eq_iff : (a b : MacSource) → (mac_source_eq a b ≡ true) ↔ (a ≡ b)
mac_source_eq_iff a b = ground arith

pub mac_source_lt_irrefl : (a b : MacSource) → mac_source_lt a b ≡ true → mac_source_eq a b ≡ false
mac_source_lt_irrefl a b h = ground arith

pub mac_source_lt_total :
    (a b : MacSource)
    → mac_source_eq a b ≡ false
    → mac_source_lt a b ≡ false
    → mac_source_lt b a ≡ true
mac_source_lt_total a b h g = ground arith

pub mac_source_lt_trans :
    (a b c : MacSource)
    → mac_source_lt a b ≡ true
    → mac_source_lt b c ≡ true
    → mac_source_lt a c ≡ true
mac_source_lt_trans a b c h g = ground arith

instance abbrev pub mac_source_key : Key MacSource
mac_source_key = record {
  same = mac_source_eq;
  before = mac_source_lt;
  same_iff = mac_source_eq_iff;
  before_irrefl = mac_source_lt_irrefl;
  before_total = mac_source_lt_total;
  before_trans = mac_source_lt_trans;
}

pub data Sent : Type 0 where
  flow_mod_to : ℕ → FlowMod → Sent
  packet_to : ℕ → List ℕ → ℕ → ℕ → Sent
  buffer_to : ℕ → ℕ → ℕ → ℕ → Sent

pub record Switch : Type 0 where
  pub sources : List (MacSource × ℕ)
  pub setup_flows : Bool
  pub sent : List Sent

-- A packet-in: the fields of its match that the handler reads, `none` where the match lacks one.
pub record PacketIn : Type 0 where
  pub dpid : ℕ
  pub eth_type : Option ℕ
  pub in_port : Option ℕ
  pub eth_src : Option ℕ
  pub eth_dst : Option ℕ
  pub buffer_id : ℕ
  pub total_len : ℕ
  pub frame : List ℕ

-- Flow::get_Field<T>: an absent number reads as -1.
abbrev pub get_field : ℕ → Option ℕ → ℕ
get_field minus_one none = minus_one
get_field minus_one (some v) = v

-- Flow::get_Field for an address: of an absent source the first octet reads as 255; the others, and
-- an absent destination, are what the stack held (`junk`, below 2 ^ 48).
abbrev pub get_eth_src : ℕ → Option ℕ → ℕ
get_eth_src junk none = 255 * 2 ^ 40 + junk % 2 ^ 40
get_eth_src junk (some mac) = mac

abbrev pub get_eth_dst : ℕ → Option ℕ → ℕ
get_eth_dst junk none = junk
get_eth_dst junk (some mac) = mac

-- ethernet::LLDP, which is htons(0x88cc)
abbrev pub lldp_type : ℕ
lldp_type = 0xcc88

-- ethernetaddr::is_multicast
abbrev pub is_multicast : ℕ → Bool
is_multicast mac = not (mac / 2 ^ 40 % 2 == 0)

-- The `int` -1, the port of a Mac_source that is new.
abbrev pub no_port : ℕ
no_port = 0xffffffff

abbrev pub port_or : ℕ → Option ℕ → ℕ
port_or p none = p
port_or p (some q) = q

-- sources.insert(src).first, which keeps an entry that is there.
unfoldable pub enter : MacSource → List (MacSource × ℕ) → List (MacSource × ℕ)
enter k m = elim (lookup k m) [ none ↦ insert k no_port m | some old ↦ m ]

-- "Learn the source."
unfoldable pub learn : MacSource → ℕ → List (MacSource × ℕ) → List (MacSource × ℕ)
unfolding enter
learn k in_port m =
    let t = enter k m in if port_or no_port (lookup k t) == in_port then t else insert k in_port t

unfoldable pub learn_source : ℕ → ℕ → ℕ → Switch → Switch
unfolding learn
learn_source dpid src in_port s =
    if is_multicast src
    then s
    else record s { sources = learn (record { datapath_id = dpid; mac = src }) in_port s.sources }

-- "Figure out the destination."
unfoldable pub find_port : ℕ → ℕ → Switch → ℕ
find_port dpid dst s =
    if is_multicast dst
    then no_port
    else port_or no_port (lookup (record { datapath_id = dpid; mac = dst }) s.sources)

-- ofd_flow_mod_flags: SEND_FLOW_REMOVED is on.
abbrev pub ofd_flow_mod_flags : ℕ
ofd_flow_mod_flags = 1

abbrev pub no_buffer : ℕ
no_buffer = 0xffffffff

-- The flow mod of "Set up a flow if the output port is known".
unfoldable pub flow_for : ℕ → ℕ → ℕ → ℕ → Actions → FlowMod
unfolding create_apply
flow_for in_port src dst buffer acts = with_instructions (create_apply acts new_instructions) (
    with_match
      (add_field "eth_dst" (number 6 dst)
        (add_field "eth_src" (number 6 src) (add_field "in_port" (number 4 in_port) [])))
      (flow_mod 0 0 0 ofpfc_add 1 ofp_flow_permanent ofp_default_priority buffer ofpp_any ofpg_any
        ofd_flow_mod_flags))

unfoldable pub set_up_flow : PacketIn → ℕ → ℕ → ℕ → ℕ → Switch → Outcome Switch
unfolding create_output new_actions flow_for
set_up_flow pi in_port src dst out_port s =
    if s.setup_flows && not (out_port == no_port)
    then (do
      acts ← create_output out_port new_actions
      ok (record s {
        sent = s.sent ++ flow_mod_to pi.dpid (flow_for in_port src dst pi.buffer_id acts) ∷ [];
      }))
    else ok s

-- "Send out packet if necessary."
unfoldable pub send_out : PacketIn → ℕ → ℕ → Switch → Switch
send_out pi in_port out_port s =
    let to = if out_port == no_port then ofpp_flood else out_port in
    if not s.setup_flows || out_port == no_port || pi.buffer_id == no_buffer
    then if pi.buffer_id == no_buffer
      then if pi.total_len == length pi.frame
        then record s { sent = s.sent ++ packet_to pi.dpid pi.frame in_port to ∷ [] }
        else s
      else record s { sent = s.sent ++ buffer_to pi.dpid pi.buffer_id in_port to ∷ [] }
    else s

-- Switch::handle, for a match whose fields have been read.
unfoldable pub switch_packet : PacketIn → ℕ → ℕ → ℕ → Switch → Outcome Switch
unfolding learn_source find_port set_up_flow send_out
switch_packet pi in_port src dst s = do
  let learned = learn_source pi.dpid src in_port s
  let out_port = find_port pi.dpid dst learned
  t ← set_up_flow pi in_port src dst out_port learned
  ok (send_out pi in_port out_port t)

unfoldable pub handle : ℕ → PacketIn → Switch → Outcome Switch
unfolding switch_packet
handle junk pi s =
    if get_field 0xffff pi.eth_type == lldp_type
    then ok s
    else switch_packet pi (get_field 0xffffffff pi.in_port) (get_eth_src junk pi.eth_src)
        (get_eth_dst junk pi.eth_dst) s

-- Switch::handle_dp_join
unfoldable pub handle_dp_join : ℕ → Switch → Outcome Switch
unfolding create_output new_actions create_apply
handle_dp_join dpid s = do
  acts ← create_output ofpp_controller new_actions
  let base =
      flow_mod 0 0 0 ofpfc_add ofp_flow_permanent ofp_flow_permanent 0 0 ofpp_any ofpg_any
        ofd_flow_mod_flags
  let full = with_instructions (create_apply acts new_instructions) (with_match [] base)
  ok (record s { sent = s.sent ++ flow_mod_to dpid full ∷ [] })
