-- ===== src/Discovery/Steps.antt =====
-- Every call keeps the invariant of `Discovery`.
use nox13_interserver.Common.{
  ℕ, ◌≡◌, refl, Option-cases, Bool-cases, inl, inr, List, [], ◌∷◌, arith, leb,
}
use nox13_interserver.Common.Maps.{lookup, insert-Sorted}
use nox13_interserver.Lldp.{Port, Link, port_eq, link_key, parse_lldp}
use nox13_interserver.Discovery.Defs.{
  Discovery, port, link_add, port_delete, port_add, port_status_handler, PortReason, port_added,
  port_deleted, port_modified, packet_in_handler, timeout_links, send_next, send_lldp, lldp_period,
  Call, joins, leaves, port_status, packet_in, lldp_timer, expiry_timer, step, run, new, configure,
  install, Arguments, ofpp_max, update_timeval,
}
use nox13_interserver.Discovery.Removal.{erase_each-Sorted}
use nox13_interserver.Discovery.Invariant.{Inv}
use nox13_interserver.Discovery.Membership.{
  port_delete-Without, port_add-Inv, dp_remove-Inv, dp_add-Joined,
}
use nox13_interserver.Discovery.Expiry.{timeout_links_lem}

link_add-Inv : (l : Link) (now : ℕ) (s : Discovery) → Inv s → Inv (link_add l now s)
unfolding link_add lldp_period
link_add-Inv l now s v = elim (Option-cases (lookup l s.links)) [
  | inl absent ↦
      rw (absent, link_add)
        (record {
          unique = v.unique;
          frames = v.frames;
          sorted_links = insert-Sorted l now s.links v.sorted_links;
          sorted_lldps = v.sorted_lldps;
          sorted_dps = v.sorted_dps;
          period = v.period;
        })
  | inr (seen, old) ↦
      rw (old, link_add)
        (record {
          unique = v.unique;
          frames = v.frames;
          sorted_links = insert-Sorted l now s.links v.sorted_links;
          sorted_lldps = v.sorted_lldps;
          sorted_dps = v.sorted_dps;
          period = v.period;
        })
]

packet_in_handler-Inv :
    (dpid : ℕ) (frame : List ℕ) (now : ℕ) (s : Discovery)
    → Inv s
    → Inv (packet_in_handler dpid frame now s)
unfolding packet_in_handler
packet_in_handler-Inv dpid frame now s v = elim (Option-cases (parse_lldp frame)) [
  | inl bad ↦ rw (bad, packet_in_handler) v
  | inr (sport, good) ↦
      let home : Port = record { dpid = dpid; port = 1 } in
      elim (Bool-cases (port_eq sport home)) [
        | inl loop ↦ rw (good, packet_in_handler, loop) v
        | inr other ↦
            rw (good, packet_in_handler, other)
              (link_add-Inv (record { sport = sport; dport = home }) now s v)
      ]
]

port_status_handler-Inv :
    (dpid port_no : ℕ) (reason : PortReason) (s : Discovery)
    → Inv s
    → Inv (port_status_handler dpid port_no reason s)
unfolding port_status_handler
port_status_handler-Inv dpid port_no reason s v = elim (Bool-cases (leb port_no ofpp_max)) [
  | inl sane ↦ rw sane (by_reason reason)
  | inr odd ↦ rw odd v
]
  where
    p : Port
    p = record { dpid = dpid; port = port_no }

    by_reason :
        (r : PortReason)
        → Inv (elim r [
          | port_added ↦ port_add p s
          | port_deleted ↦ port_delete p port s
          | port_modified ↦ s
        ])
    by_reason port_added = (port_add-Inv p s v).0
    by_reason port_deleted = (port_delete-Without p port s v).0
    by_reason port_modified = v

timeout_links-Inv : (now : ℕ) (s : Discovery) → Inv s → Inv (timeout_links now s)
unfolding lldp_period
timeout_links-Inv now s v = rw (timeout_links_lem now s) (record {
  unique = v.unique;
  frames = v.frames;
  sorted_links = erase_each-Sorted _ s.links v.sorted_links;
  sorted_lldps = v.sorted_lldps;
  sorted_dps = v.sorted_dps;
  period = v.period;
})

-- The fields that the invariant speaks of.
SameTables : Discovery → Discovery → Type 0
SameTables s t =
    (t.dps ≡ s.dps)
    × (t.ports ≡ s.ports)
    × (t.lldps ≡ s.lldps)
    × (t.links ≡ s.links)
    × (t.per_port ≡ s.per_port)
    × (t.packet_out ≡ s.packet_out)
    × (t.per_port_tv ≡ s.per_port_tv)

send_lldp-SameTables : (s : Discovery) → SameTables s (send_lldp s)
unfolding SameTables send_lldp send_next
send_lldp-SameTables s = ground arith

SameTables-Inv : (s t : Discovery) → SameTables s t → Inv s → Inv t
unfolding SameTables lldp_period
SameTables-Inv s t (d, p, f, l, a, b, c) v = record {
  unique = rw p v.unique;
  frames = λ q. rw (f, p) (v.frames q);
  sorted_links = rw l v.sorted_links;
  sorted_lldps = rw f v.sorted_lldps;
  sorted_dps = rw d v.sorted_dps;
  period = rw (c, p, a, b) v.period;
}

-- Every call of the core, a handler or a timer, keeps the invariant.
pub step-Inv : (c : Call) (s : Discovery) → Inv s → Inv (step c s)
unfolding step
step-Inv (joins dpid) s v = (dp_add-Joined dpid s v).0
step-Inv (leaves dpid) s v = (dp_remove-Inv dpid s v).0
step-Inv (port_status dpid port_no reason) s v = port_status_handler-Inv dpid port_no reason s v
step-Inv (packet_in dpid frame now) s v = packet_in_handler-Inv dpid frame now s v
step-Inv lldp_timer s v = SameTables-Inv s (send_lldp s) (send_lldp-SameTables s) v
step-Inv (expiry_timer now) s v = timeout_links-Inv now s v

-- The component as it is once configured and installed.
abbrev pub installed : Arguments → Discovery
installed a = install (configure a new)

pub installed-Inv : (a : Arguments) → Inv (installed a)
unfolding install configure new lookup update_timeval
installed-Inv a = record {
  unique = tt;
  frames = λ p. refl;
  sorted_links = tt;
  sorted_lldps = tt;
  sorted_dps = tt;
  period = refl;
}

run_from-Inv : (cs : List Call) (s : Discovery) → Inv s → Inv (run cs s)
unfolding run
run_from-Inv [] s v = v
run_from-Inv (c ∷ cs) s v = run_from-Inv cs (step c s) (step-Inv c s v)

-- After any history, no port is registered twice, the registered ports are exactly those that have
-- an LLDP frame, which is the frame made for that port, the maps are in the order of their keys,
-- and the LLDP timer has the period of the present number of ports.
pub run-Inv : (a : Arguments) (cs : List Call) → Inv (run cs (installed a))
run-Inv a cs = run_from-Inv cs (installed a) (installed-Inv a)
