-- ===== src/Tests/DiscoveryTests.antt =====
-- A component with two datapaths, three ports and one link.
use nox13_interserver.Common.{
  is_some, ℕ, ◌≤◌, ◌<◌, ◌≡◌, ◌≢◌, ◌+◌, ◌*◌, ◌/◌, ◌%◌, false, some, none, List, [], ◌∷◌, ◌++◌, map,
  length, arith,
}
use nox13_interserver.Common.Maps.{lookup, insert}
use nox13_interserver.Lldp.{Port, Link, create_lldp, parse_lldp, link_key}
use nox13_interserver.Discovery.Defs.{
  Discovery, Arguments, Call, joins, port_status, packet_in, lldp_timer, port_added, run, new,
  configure, install, port_add, dp_add, packet_in_handler, timeout_links, update_timeval, u64, step,
  port_status_handler, lldp_period, link_add, send_lldp, send_next,
}
use nox13_interserver.Discovery.Invariant.{Inv}
use nox13_interserver.Discovery.Steps.{run-Inv, installed}
use nox13_interserver.Discovery.Events.{run-Told, replay}
use nox13_interserver.Discovery.Membership.{dp_add-Joined, Joined}
use nox13_interserver.Discovery.Expiry.{lookup-timeout_links, fresh, packet_in_handler-create_lldp}
use nox13_interserver.Discovery.RoundRobin.{ticks_round, ticks, announcement}
use nox13_interserver.Discovery.Period.{update_timeval_bounds, PeriodBounds}

abbrev defaults : Arguments
defaults = record {
  per_port_arg = none;
  packet_out_arg = none;
  timeout_arg = none;
  link_to_arg = none;
}

abbrev port_at : ℕ → ℕ → Port
port_at d n = record { dpid = d; port = n }

abbrev history : List Call
history =
    joins 1
    ∷ joins 2
    ∷ port_status 1 1 port_added
    ∷ port_status 1 2 port_added
    ∷ port_status 2 1 port_added
    ∷ packet_in 2 (create_lldp (port_at 1 2) 120) 50
    ∷ []

abbrev network : Discovery
network = run history (installed defaults)

abbrev the_link : Link
the_link = record { sport = port_at 1 2; dport = port_at 2 1 }

run-Inv_example : Inv network
run-Inv_example = run-Inv defaults history

run-Told_example : is_some (lookup the_link network.links) ≡ replay the_link false network.posted
run-Told_example = run-Told defaults history the_link

dp_add-Joined_example : Joined 1 network (dp_add 1 network)
dp_add-Joined_example = dp_add-Joined 1 network (run-Inv defaults history)

network-link_timeout : network.link_timeout ≤ 1000
unfolding run step install configure new dp_add port_status_handler port_add update_timeval
    lldp_period packet_in_handler parse_lldp link_add send_lldp send_next create_lldp lookup insert
network-link_timeout = omega arith

other_port : port_at 1 2 ≢ port_at 2 1
other_port h = cc

lookup-timeout_links_example :
    lookup the_link (timeout_links 1000 network).links
    ≡ fresh 1000 network.link_timeout (lookup the_link network.links)
lookup-timeout_links_example =
    lookup-timeout_links 1000 network the_link (run-Inv defaults history).sorted_links
      network-link_timeout (omega arith)

packet_in_handler-create_lldp_example :
    lookup the_link (packet_in_handler 2 (create_lldp (port_at 1 2) 120) 70 network).links ≡ some 70
packet_in_handler-create_lldp_example =
    packet_in_handler-create_lldp (port_at 1 2) 120 2 70 network the_link (omega arith)
      (omega arith) other_port

abbrev start : Discovery
start =
    run
      (joins 1
        ∷ port_status 1 1 port_added
        ∷ port_status 1 2 port_added
        ∷ lldp_timer
        ∷ lldp_timer
        ∷ [])
      (installed defaults)

some_port : 0 < length start.ports
unfolding run step install configure new dp_add port_status_handler port_add update_timeval
    lldp_period packet_in_handler parse_lldp link_add send_lldp send_next create_lldp lookup insert
some_port = omega arith

start_round : length start.ports ≤ start.next_port
unfolding run step install configure new dp_add port_status_handler port_add update_timeval
    lldp_period packet_in_handler parse_lldp link_add send_lldp send_next create_lldp lookup insert
start_round = omega arith

few_ports : length start.ports < u64
unfolding run step install configure new dp_add port_status_handler port_add update_timeval
    lldp_period packet_in_handler parse_lldp link_add send_lldp send_next create_lldp lookup insert
few_ports = omega arith

ticks_round_example :
    ((ticks (length start.ports) start).sent ≡ start.sent ++ map announcement start.ports)
    × ((ticks (length start.ports) start).next_port ≡ length start.ports)
    × ((ticks (length start.ports) start).ports ≡ start.ports)
ticks_round_example = ticks_round start (run-Inv defaults _) some_port start_round few_ports

update_timeval_bounds_example :
    let tv = (update_timeval network).per_port_tv in
    let ms = tv.tv_sec * 1000 + tv.tv_usec / 1000 in
    (tv.tv_usec < 1000000)
    × (tv.tv_usec % 1000 ≡ 0)
    × PeriodBounds (length network.ports) network.per_port network.packet_out ms
update_timeval_bounds_example = update_timeval_bounds network
