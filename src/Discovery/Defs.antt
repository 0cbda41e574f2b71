-- ===== src/Discovery/Defs.antt =====
-- discovery.hh and discovery.cc, and `Link_event`. Maps and sets are in the order of their keys.
-- A uint64_t is a number below 2 ^ 64; subtraction on it wraps.
pub mod State
unfoldable pub use State.*
use nox13_interserver.Common.{
  nat_key, ℕ, zero, suc, ◌+◌, ◌-◌, ◌*◌, ◌%◌, ◌^◌, Bool, false, ◌||◌, none, some, List, [], ◌∷◌,
  ◌++◌, ltb, leb, ◌==◌, if◌then◌else◌, length, get_elem?,
}
use nox13_interserver.Common.Maps.{lookup, insert, erase}
use nox13_interserver.Lldp.{port_key, link_key, Port, Link, port_eq, create_lldp, parse_lldp}

-- link_delete(iter, reason): `l` is the key at the iterator.
unfoldable pub link_delete : Link → Reason → Discovery → Discovery
link_delete l r s = record s {
  links = erase l s.links;
  posted = s.posted ++ (link_event l remove r ∷ []);
}

unfoldable pub link_add : Link → ℕ → Discovery → Discovery
link_add l now s = elim (lookup l s.links) [
  | some seen ↦ record s { links = insert l now s.links }
  | none ↦ record s {
    links = insert l now s.links;
    posted = s.posted ++ (link_event l add link ∷ []);
  }
]

abbrev pub touches : Port → Link → Bool
touches p l = port_eq l.sport p || port_eq l.dport p

-- The first loop of port_delete: the list is what the iterator has not passed yet.
unfoldable pub delete_links_of : Port → Reason → List (Link × ℕ) → Discovery → Discovery
delete_links_of p r [] s = s
delete_links_of p r ((l, seen) ∷ rest) s =
    delete_links_of p r rest (if touches p l then link_delete l r s else s)

-- ports.erase(iter), for the iterator at index i.
abbrev pub remove_at : ℕ → List Port → List Port
remove_at i [] = []
remove_at zero (p ∷ ps) = ps
remove_at (suc i) (p ∷ ps) = p ∷ remove_at i ps

-- port_delete(iter, reason), for the iterator at index i, where p stands.
unfoldable pub port_delete_at : ℕ → Port → Reason → Discovery → Discovery
unfolding update_timeval
port_delete_at i p r s =
    let t = delete_links_of p r s.links s in
    update_timeval (record t { lldps = erase p t.lldps; ports = remove_at i t.ports })

-- port_delete(port, reason): the search for the first equal port, from index i on.
unfoldable pub port_delete_from : ℕ → List Port → Port → Reason → Discovery → Discovery
port_delete_from i [] p r s = s
port_delete_from i (q ∷ rest) p r s =
    let later = port_delete_from (i + 1) rest p r s in
    if port_eq q p then port_delete_at i q r s else later

unfoldable pub port_delete : Port → Reason → Discovery → Discovery
unfolding port_delete_from
port_delete p r s = port_delete_from 0 s.ports p r s

-- The scan of port_add for a port that is registered already.
abbrev pub has_port : Port → List Port → Bool
has_port p [] = false
has_port p (q ∷ rest) = port_eq q p || has_port p rest

-- lldps.insert keeps the entry of a key that is present.
unfoldable pub port_add : Port → Discovery → Discovery
unfolding update_timeval
port_add p s =
    if has_port p s.ports
    then s
    else update_timeval (record s {
      ports = s.ports ++ (p ∷ []);
      lldps = elim (lookup p s.lldps) [
        | some old ↦ s.lldps
        | none ↦ insert p (create_lldp p lldp_ttl) s.lldps
      ];
    })

-- The loop of dp_remove, at index i; the list is what the iterator has not passed yet.
unfoldable pub dp_remove_from : ℕ → ℕ → List Port → Discovery → Discovery
dp_remove_from dpid i [] s = s
dp_remove_from dpid i (p ∷ rest) s =
    dp_remove_from dpid (if p.dpid == dpid then i else i + 1) rest
      (if p.dpid == dpid then port_delete_at i p dp s else s)

unfoldable pub dp_remove : ℕ → Discovery → Discovery
dp_remove dpid s = let t = dp_remove_from dpid 0 s.ports s in record t { dps = erase dpid t.dps }

unfoldable pub dp_add : ℕ → Discovery → Discovery
dp_add dpid s = elim (lookup dpid s.dps) [
  | some known ↦ let t = dp_remove dpid s in record t { dps = insert dpid tt t.dps }
  | none ↦ record s { dps = insert dpid tt s.dps }
]

-- OFPPR_ADD, OFPPR_DELETE, OFPPR_MODIFY
pub data PortReason : Type 0 where
  port_added port_deleted port_modified : PortReason

unfoldable pub port_status_handler : ℕ → ℕ → PortReason → Discovery → Discovery
port_status_handler dpid port_no reason s =
    if leb port_no ofpp_max
    then elim reason [
      | port_added ↦ port_add (record { dpid = dpid; port = port_no }) s
      | port_deleted ↦ port_delete (record { dpid = dpid; port = port_no }) port s
      | port_modified ↦ s
    ]
    else s

-- The destination port is the constant 1 of the source.
unfoldable pub packet_in_handler : ℕ → List ℕ → ℕ → Discovery → Discovery
packet_in_handler dpid frame now s = elim (parse_lldp frame) [
  | none ↦ s
  | some sport ↦
      let dport : Port = record { dpid = dpid; port = 1 } in
      if port_eq sport dport then s else link_add (record { sport = sport; dport = dport }) now s
]

-- The loop of timeout_links; the list is what the iterator has not passed yet.
unfoldable pub expire_links : ℕ → List (Link × ℕ) → Discovery → Discovery
expire_links last_time [] s = s
expire_links last_time ((l, seen) ∷ rest) s =
    expire_links last_time rest (if ltb seen last_time then link_delete l link s else s)

abbrev pub last_time : ℕ → Discovery → ℕ
last_time now s = (now + u64 - s.link_timeout) % u64

unfoldable pub timeout_links : ℕ → Discovery → Discovery
timeout_links now s =
    let t = record s { timers = s.timers ++ ((timeout_links_timer, s.timeout_tv) ∷ []) } in
    expire_links (last_time now s) t.links t

-- `ports.at(next_port)` cannot fail here; `none` would be its exception.
unfoldable pub send_next : Discovery → Discovery
send_next s = elim (get_elem? s.ports s.next_port) [
  | none ↦ s
  | some p ↦ elim (lookup p s.lldps) [
    | none ↦ s
    | some frame ↦
        let out : PacketOut = record {
          dpid = p.dpid;
          frame = frame;
          in_port = ofpp_controller;
          out_port = p.port;
        } in
        record s { sent = s.sent ++ (out ∷ []); next_port = (s.next_port + 1) % u64 }
  ]
]

unfoldable pub send_lldp : Discovery → Discovery
unfolding send_next
send_lldp s =
    let t = record s { timers = s.timers ++ ((send_lldp_timer, s.per_port_tv) ∷ []) } in
    if length s.ports == 0
    then t
    else send_next (if leb (length s.ports) s.next_port then record t { next_port = 0 } else t)

-- What the core calls: the handlers and the timers.
pub data Call : Type 0 where
  joins : ℕ → Call
  leaves : ℕ → Call
  port_status : ℕ → ℕ → PortReason → Call
  packet_in : ℕ → List ℕ → ℕ → Call
  lldp_timer : Call
  expiry_timer : ℕ → Call

unfoldable pub step : Call → Discovery → Discovery
step (joins dpid) s = dp_add dpid s
step (leaves dpid) s = dp_remove dpid s
step (port_status dpid port_no reason) s = port_status_handler dpid port_no reason s
step (packet_in dpid frame now) s = packet_in_handler dpid frame now s
step lldp_timer s = send_lldp s
step (expiry_timer now) s = timeout_links now s

unfoldable pub run : List Call → Discovery → Discovery
run [] s = s
run (c ∷ cs) s = run cs (step c s)
