-- ===== src/LearningSwitch/Forwarding.antt =====
-- What the learning switch knows of its hosts, and what becomes of a packet.
use mathlib.Core.List.{append_assoc, append-nil}
use nox13_interserver.Common.{
  ℕ, ◌+◌, ◌≡◌, refl, ap, ◌∙◌, Bool, not, ◌&&◌, Option, some, List, [], ◌∷◌, ◌++◌, arith, ◌==◌,
  if◌then◌else◌, length, Option-cases, Bool-cases, inl, inr,
}
use nox13_interserver.Common.Maps.{lookup, lookup-insert}
use nox13_interserver.Common.Outcome.{Outcome, ok, ◌>>=◌}
use nox13_interserver.OpenFlow.Codes.{ofpp_flood}
use nox13_interserver.OpenFlow.Actions.{Actions, output, pointer}
use nox13_interserver.OpenFlow.Instructions.{apply_actions}
use nox13_interserver.LearningSwitch.{
  MacSource, mac_source_eq, mac_source_eq_iff, mac_source_key, Sent, flow_mod_to, packet_to,
  buffer_to, Switch, PacketIn, get_field, get_eth_src, get_eth_dst, lldp_type, is_multicast,
  no_port, no_buffer, enter, learn, learn_source, find_port, flow_for, set_up_flow, send_out,
  switch_packet, handle, port_or,
}

lookup-enter :
    (k j : MacSource) (m : List (MacSource × ℕ))
    → lookup j (enter k m)
      ≡ (if mac_source_eq k j then some (port_or no_port (lookup k m)) else lookup j m)
unfolding enter
lookup-enter k j m = elim (Option-cases (lookup k m)) [
  | inl absent ↦ rw (absent, enter) (lookup-insert k j no_port m)
  | inr (old, present) ↦ rw (present, enter) (ground (arith, mac_source_eq_iff k j, present))
]

-- Learning a source at a port records that port for it, and changes nothing for the others.
pub lookup-learn :
    (k j : MacSource) (in_port : ℕ) (m : List (MacSource × ℕ))
    → lookup j (learn k in_port m) ≡ (if mac_source_eq k j then some in_port else lookup j m)
unfolding learn
lookup-learn k j in_port m = ground (
  arith,
  lookup-enter k j m,
  lookup-enter k k m,
  lookup-insert k j in_port (enter k m),
  mac_source_eq_iff k k,
)

-- The copies of a packet that leave by a message: a flow mod releases the packet that it names as
-- buffered.
abbrev pub copies_of : Sent → ℕ
copies_of (flow_mod_to dpid f) = if f.buffer_id == no_buffer then 0 else 1
copies_of (packet_to dpid frame in_port out_port) = 1
copies_of (buffer_to dpid buffer in_port out_port) = 1

pub copies : List Sent → ℕ
copies [] = 0
copies (e ∷ es) = copies_of e + copies es

copies-append : (es fs : List Sent) → copies (es ++ fs) ≡ copies es + copies fs
unfolding copies
copies-append [] fs = omega arith
copies-append (e ∷ es) fs = omega (arith, copies-append es fs)

-- The source table after the packet, and the port for a destination in it.
abbrev pub learned : PacketIn → ℕ → ℕ → Switch → Switch
learned pi in_port src s = learn_source pi.dpid src in_port s

abbrev pub target : PacketIn → ℕ → ℕ → ℕ → Switch → ℕ
target pi in_port src dst s =
    let p = find_port pi.dpid dst (learned pi in_port src s) in
    if p == no_port then ofpp_flood else p

-- What a message does with the packet of a packet-in, when it should go to port `to`.
abbrev pub Directs : PacketIn → ℕ → ℕ → Sent → Type 0
Directs pi in_port to (flow_mod_to dpid f) =
    (dpid ≡ pi.dpid)
    × (f.buffer_id ≡ pi.buffer_id)
    × (f.instructions
        ≡ apply_actions (record { act_num = 1; acts = pointer (output to 0) ∷ [] }) ∷ [])
Directs pi in_port to (packet_to dpid frame port out) =
    (dpid ≡ pi.dpid) × (frame ≡ pi.frame) × (port ≡ in_port) × (out ≡ to)
Directs pi in_port to (buffer_to dpid buffer port out) =
    (dpid ≡ pi.dpid) × (buffer ≡ pi.buffer_id) × (port ≡ in_port) × (out ≡ to)

abbrev AllDirect : PacketIn → ℕ → ℕ → List Sent → Type 0
AllDirect pi in_port to [] = Unit {0}
AllDirect pi in_port to (e ∷ es) = Directs pi in_port to e × AllDirect pi in_port to es

-- What becomes of a packet: the handler returns; the table is that of `learned`; all that is sent
-- directs the packet to one port; and it is sent out once, unless the switch that reports it
-- neither holds it nor gave all of it.
abbrev pub Forwarded : PacketIn → ℕ → ℕ → ℕ → Switch → Outcome Switch → Type 0
Forwarded pi in_port src dst s r =
    (es : List Sent) × (r ≡ ok (record (learned pi in_port src s) { sent = s.sent ++ es }))
    × AllDirect pi in_port (target pi in_port src dst s) es
    × (copies es
        ≡ (if pi.buffer_id == no_buffer && not (pi.total_len == length pi.frame) then 0 else 1))

abbrev one_output : ℕ → Actions
one_output to = record { act_num = 1; acts = pointer (output to 0) ∷ [] }

emitted : PacketIn → ℕ → ℕ → ℕ → ℕ → Bool → List Sent
emitted pi in_port src dst out_port setup =
    let to = if out_port == no_port then ofpp_flood else out_port in
    let flow = flow_mod_to pi.dpid (flow_for in_port src dst pi.buffer_id (one_output to)) in
    let out =
      if pi.buffer_id == no_buffer
      then if pi.total_len == length pi.frame
        then packet_to pi.dpid pi.frame in_port to ∷ []
        else []
      else buffer_to pi.dpid pi.buffer_id in_port to ∷ [] in
    if setup && not (out_port == no_port)
    then if pi.buffer_id == no_buffer then flow ∷ out else flow ∷ []
    else out

learn_source_keeps :
    (dpid src in_port : ℕ) (s : Switch)
    → ((learn_source dpid src in_port s).sent ≡ s.sent)
      × ((learn_source dpid src in_port s).setup_flows ≡ s.setup_flows)
unfolding learn_source
learn_source_keeps dpid src in_port s = ground arith

send_lem :
    (pi : PacketIn) (in_port src dst out_port : ℕ) (q : Switch)
    → (set_up_flow pi in_port src dst out_port q >>= λ t. ok (send_out pi in_port out_port t))
      ≡ ok (record q { sent = q.sent ++ emitted pi in_port src dst out_port q.setup_flows })
unfolding set_up_flow send_out emitted
send_lem pi in_port src dst out_port q = ground (
  arith,
  append-nil q.sent,
  append_assoc q.sent
      (flow_mod_to pi.dpid (flow_for in_port src dst pi.buffer_id (one_output out_port)) ∷ [])
      (packet_to pi.dpid pi.frame in_port out_port ∷ []),
)

emitted-AllDirect :
    (pi : PacketIn) (in_port src dst out_port : ℕ) (setup : Bool)
    → AllDirect pi in_port
        (if out_port == no_port then ofpp_flood else out_port)
        (emitted pi in_port src dst out_port setup)
unfolding emitted flow_for
emitted-AllDirect pi in_port src dst out_port setup = ground arith

copies-emitted :
    (pi : PacketIn) (in_port src dst out_port : ℕ) (setup : Bool)
    → copies (emitted pi in_port src dst out_port setup)
      ≡ (if pi.buffer_id == no_buffer && not (pi.total_len == length pi.frame) then 0 else 1)
unfolding emitted copies flow_for
copies-emitted pi in_port src dst out_port setup = ground arith

-- A packet that is not taken for LLDP is handled without undefined behaviour; the table then has what
-- its source teaches; every message sent directs the packet to the port learned for its destination,
-- or floods it if there is none; and it is sent out once, unless the switch neither holds it nor gave
-- all of it.
pub switch_packet-Forwarded :
    (pi : PacketIn) (in_port src dst : ℕ) (s : Switch)
    → Forwarded pi in_port src dst s (switch_packet pi in_port src dst s)
unfolding switch_packet
switch_packet-Forwarded pi in_port src dst s =
    let q = learned pi in_port src s in
    let out_port = find_port pi.dpid dst q in
    let es = emitted pi in_port src dst out_port q.setup_flows in
    let same = learn_source_keeps pi.dpid src in_port s in
    (
      es,
      send_lem pi in_port src dst out_port q ∙ ap (λ o. ok (record q { sent = o ++ es })) same.0,
      emitted-AllDirect pi in_port src dst out_port q.setup_flows,
      copies-emitted pi in_port src dst out_port q.setup_flows,
    )

lookup-learn_source :
    (dpid src in_port : ℕ) (k : MacSource) (s : Switch)
    → lookup k (learn_source dpid src in_port s).sources ≡ (
        if not (is_multicast src) && mac_source_eq (record { datapath_id = dpid; mac = src }) k
        then some in_port
        else lookup k s.sources)
unfolding learn_source
lookup-learn_source dpid src in_port k s =
    ground (arith, lookup-learn (record { datapath_id = dpid; mac = src }) k in_port s.sources)

-- Whether a packet shows where host k is: it is not dropped, its source is no multicast address,
-- and it comes from k.
abbrev pub shows : ℕ → MacSource → PacketIn → Bool
shows junk k pi =
    not (get_field 0xffff pi.eth_type == lldp_type)
    && (not (is_multicast (get_eth_src junk pi.eth_src))
        && mac_source_eq (record { datapath_id = pi.dpid; mac = get_eth_src junk pi.eth_src }) k)

-- The port of the last packet that shows host k, if there is one.
abbrev pub last_seen : ℕ → MacSource → Option ℕ → List PacketIn → Option ℕ
last_seen junk k seen [] = seen
last_seen junk k seen (pi ∷ pis) =
    last_seen junk k (if shows junk k pi then some (get_field 0xffffffff pi.in_port) else seen) pis

unfoldable pub handle_all : ℕ → List PacketIn → Switch → Outcome Switch
handle_all junk [] s = ok s
handle_all junk (pi ∷ pis) s = handle junk pi s >>= handle_all junk pis

-- The result of one packet, and what it teaches about host k.
abbrev Learns : ℕ → PacketIn → Switch → Type 0
Learns junk pi s =
    (t : Switch) × (handle junk pi s ≡ ok t)
    × ((k : MacSource)
        → lookup k t.sources ≡ (
            if shows junk k pi then some (get_field 0xffffffff pi.in_port) else lookup k s.sources))

handle-Learns : (junk : ℕ) (pi : PacketIn) (s : Switch) → Learns junk pi s
unfolding handle
handle-Learns junk pi s = elim (Bool-cases (get_field 0xffff pi.eth_type == lldp_type)) [
  | inl dropped ↦ (s, rw dropped, λ k. ground arith)
  | inr kept ↦
      let in_port = get_field 0xffffffff pi.in_port in
      let src = get_eth_src junk pi.eth_src in
      let dst = get_eth_dst junk pi.eth_dst in
      let (es, e, direct, count) = switch_packet-Forwarded pi in_port src dst s in
      (
        record (learned pi in_port src s) { sent = s.sent ++ es },
        rw kept e,
        λ k. ground (arith, lookup-learn_source pi.dpid src in_port k s),
      )
]

-- The handler returns on every packet of any history, and after it the table gives, for each host
-- of each datapath, the port of the last packet that shows it, and otherwise what it gave before.
pub handle_all_learns :
    (junk : ℕ) (pis : List PacketIn) (s : Switch)
    → (t : Switch) × (handle_all junk pis s ≡ ok t)
      × ((k : MacSource) → lookup k t.sources ≡ last_seen junk k (lookup k s.sources) pis)
unfolding handle_all
handle_all_learns junk [] s = (s, refl, λ k. refl)
handle_all_learns junk (pi ∷ pis) s =
    let (t, e, learns) = handle-Learns junk pi s in
    let (u, f, rest) = handle_all_learns junk pis t in
    (u, rw e f, λ k. rest k ∙ ap (λ o. last_seen junk k o pis) (learns k))
