-- ===== src/Discovery/Events.antt =====
-- The `Link_event`s that the component posts, against the links that it holds.
use nox13_interserver.Common.{
  is_some, ℕ, ◌+◌, ◌≡◌, refl, ◌∙◌, Bool, true, false, not, ◌&&◌, Option-cases, inl, inr, List, [],
  ◌∷◌, ◌++◌, arith, ltb, if◌then◌else◌,
}
use nox13_interserver.Common.Maps.{lookup, lookup-insert}
use nox13_interserver.Lldp.{Port, Link, link_eq, link_eq_iff, link_key, port_key, parse_lldp}
use nox13_interserver.Discovery.Defs.{
  Discovery, LinkEvent, Action, add, remove, Reason, link, port, dp, link_event, touches, link_add,
  port_delete_at, port_delete_from, port_delete, port_add, dp_remove_from, dp_remove, dp_add,
  port_status_handler, PortReason, packet_in_handler, timeout_links, last_time, send_next,
  send_lldp, update_timeval, Call, joins, leaves, port_status, packet_in, lldp_timer, expiry_timer,
  step, run, new, configure, install, Arguments, timeout_links_timer,
}
use nox13_interserver.Discovery.Removal.{
  delete_each_lem, expire_links_lem, picked, removals, erase_each, has_link, lookup-erase_each,
}
use nox13_interserver.Discovery.Invariant.{port_delete_at_lem}

abbrev pub event_link : LinkEvent → Link
event_link e = record {
  sport = record { dpid = e.dpsrc; port = e.sport };
  dport = record { dpid = e.dpdst; port = e.dport };
}

abbrev pub is_add : Action → Bool
is_add add = true
is_add remove = false

-- Whether a listener holds link j to be up after the events, if it did (or not) before them.
pub replay : Link → Bool → List LinkEvent → Bool
replay j up [] = up
replay j up (e ∷ es) = replay j (if link_eq (event_link e) j then is_add e.action else up) es

-- A listener to the events knows exactly the links that the component holds.
abbrev pub Told : Discovery → Type 0
Told s = (j : Link) → is_some (lookup j s.links) ≡ replay j false s.posted

replay-append :
    (j : Link) (up : Bool) (es fs : List LinkEvent)
    → replay j up (es ++ fs) ≡ replay j (replay j up es) fs
unfolding replay
replay-append j up [] fs = refl
replay-append j up (e ∷ es) fs =
    replay-append j (if link_eq (event_link e) j then is_add e.action else up) es fs

replay_one :
    (j : Link) (up : Bool) (e : LinkEvent)
    → replay j up (e ∷ []) ≡ (if link_eq (event_link e) j then is_add e.action else up)
unfolding replay
replay_one j up e = refl

replay-removals :
    (j : Link) (up : Bool) (r : Reason) (ls : List Link)
    → replay j up (removals r ls) ≡ (up && not (has_link j ls))
unfolding replay
replay-removals j up r [] = ground arith
replay-removals j up r (l ∷ ls) =
    ground (arith, replay-removals j (if link_eq l j then false else up) r ls)

told_removal :
    (j : Link) (r : Reason) (ls : List Link) (s : Discovery)
    → is_some (lookup j s.links) ≡ replay j false s.posted
    → is_some (lookup j (erase_each ls s.links)) ≡ replay j false (s.posted ++ removals r ls)
told_removal j r ls s h = ground (
  arith,
  lookup-erase_each j ls s.links,
  replay-append j false s.posted (removals r ls),
  replay-removals j (replay j false s.posted) r ls,
)

link_add-Told : (l : Link) (now : ℕ) (s : Discovery) → Told s → Told (link_add l now s)
unfolding link_add
link_add-Told l now s h j = elim (Option-cases (lookup l s.links)) [
  | inl fresh ↦
      rw (fresh, link_add)
        (ground (
          arith,
          lookup-insert l j now s.links,
          replay-append j false s.posted (link_event l add link ∷ []),
          replay_one j (replay j false s.posted) (link_event l add link),
          h j,
        ))
  | inr (seen, old) ↦
      rw (old, link_add) (ground (arith, lookup-insert l j now s.links, h j, h l, link_eq_iff l j))
]

port_delete_at-Told :
    (i : ℕ) (p : Port) (r : Reason) (s : Discovery) → Told s → Told (port_delete_at i p r s)
unfolding update_timeval
port_delete_at-Told i p r s h j =
    rw (port_delete_at_lem i p r s)
      (told_removal j r (picked (λ l seen. touches p l) s.links) s (h j))

port_delete_from-Told :
    (i : ℕ) (rest : List Port) (p : Port) (r : Reason) (s : Discovery)
    → Told s
    → Told (port_delete_from i rest p r s)
unfolding port_delete_from
port_delete_from-Told i [] p r s h j = h j
port_delete_from-Told i (q ∷ rest) p r s h j =
    ground (arith, port_delete_at-Told i q r s h j, port_delete_from-Told (i + 1) rest p r s h j)

dp_remove_from-Told :
    (dpid i : ℕ) (rest : List Port) (s : Discovery) → Told s → Told (dp_remove_from dpid i rest s)
unfolding dp_remove_from
dp_remove_from-Told dpid i [] s h j = h j
dp_remove_from-Told dpid i (p ∷ rest) s h j = ground (
  arith,
  dp_remove_from-Told dpid i rest (port_delete_at i p dp s) (port_delete_at-Told i p dp s h) j,
  dp_remove_from-Told dpid (i + 1) rest s h j,
)

dp_remove-Told : (dpid : ℕ) (s : Discovery) → Told s → Told (dp_remove dpid s)
unfolding dp_remove
dp_remove-Told dpid s h = dp_remove_from-Told dpid 0 s.ports s h

dp_add-Told : (dpid : ℕ) (s : Discovery) → Told s → Told (dp_add dpid s)
unfolding dp_add
dp_add-Told dpid s h j = ground (arith, h j, dp_remove-Told dpid s h j)

port_add-Told : (p : Port) (s : Discovery) → Told s → Told (port_add p s)
unfolding port_add update_timeval
port_add-Told p s h j = ground (arith, h j)

timeout_links-Told : (now : ℕ) (s : Discovery) → Told s → Told (timeout_links now s)
unfolding timeout_links
timeout_links-Told now s h j =
    let t = record s { timers = s.timers ++ ((timeout_links_timer, s.timeout_tv) ∷ []) } in
    let stale = picked (λ l seen. ltb seen (last_time now s)) s.links in
    rw (expire_links_lem (last_time now s) s.links t ∙ delete_each_lem link stale t)
      (told_removal j link stale s (h j))

send_lldp-Told : (s : Discovery) → Told s → Told (send_lldp s)
unfolding send_lldp send_next
send_lldp-Told s h j = ground (arith, h j)

packet_in_handler-Told :
    (dpid : ℕ) (frame : List ℕ) (now : ℕ) (s : Discovery)
    → Told s
    → Told (packet_in_handler dpid frame now s)
unfolding packet_in_handler
packet_in_handler-Told dpid frame now s h j = elim (Option-cases (parse_lldp frame)) [
  | inl bad ↦ rw (bad, packet_in_handler) (h j)
  | inr (sport, good) ↦
      let l : Link = record { sport = sport; dport = record { dpid = dpid; port = 1 } } in
      rw (good, packet_in_handler) (ground (arith, h j, link_add-Told l now s h j))
]

port_status_handler-Told :
    (dpid port_no : ℕ) (reason : PortReason) (s : Discovery)
    → Told s
    → Told (port_status_handler dpid port_no reason s)
unfolding port_status_handler port_delete
port_status_handler-Told dpid port_no reason s h j =
    let p : Port = record { dpid = dpid; port = port_no } in
    ground (arith, h j, port_add-Told p s h j, port_delete_from-Told 0 s.ports p port s h j)

pub step-Told : (c : Call) (s : Discovery) → Told s → Told (step c s)
unfolding step
step-Told (joins dpid) s h = dp_add-Told dpid s h
step-Told (leaves dpid) s h = dp_remove-Told dpid s h
step-Told (port_status dpid port_no reason) s h = port_status_handler-Told dpid port_no reason s h
step-Told (packet_in dpid frame now) s h = packet_in_handler-Told dpid frame now s h
step-Told lldp_timer s h = send_lldp-Told s h
step-Told (expiry_timer now) s h = timeout_links-Told now s h

run_from-Told : (cs : List Call) (s : Discovery) → Told s → Told (run cs s)
unfolding run
run_from-Told [] s h = h
run_from-Told (c ∷ cs) s h = run_from-Told cs (step c s) (step-Told c s h)

-- After any history of the component, from its construction and configuration on, replaying the
-- events that it posted, in their order, gives exactly the links that it holds: a link is held if
-- and only if the last event about it is an addition.
pub run-Told :
    (a : Arguments) (cs : List Call) (j : Link)
    → let s = run cs (install (configure a new)) in
      is_some (lookup j s.links) ≡ replay j false s.posted
unfolding install configure new lookup replay
run-Told a cs = run_from-Told cs (install (configure a new)) (λ j. refl)
