-- ===== src/Discovery/Expiry.antt =====
-- When a link enters the map, and when it leaves it by `timeout_links`.
use nox13_interserver.Common.{
  ℕ, ◌+◌, ◌^◌, ◌≤◌, ◌<◌, ◌≡◌, ◌≢◌, refl, ◌∙◌, Option-cases, inl, inr, Option, none, some, [], ◌∷◌,
  ◌++◌, arith, ltb, if◌then◌else◌,
}
use nox13_interserver.Common.Maps.{lookup, lookup-insert, Sorted}
use nox13_interserver.Lldp.{Port, Link, port_eq_iff, link_eq, link_key, create_lldp}
use nox13_interserver.Lldp.RoundTrip.{parse_lldp-create_lldp}
use nox13_interserver.Discovery.Defs.{
  Discovery, link, link_add, packet_in_handler, timeout_links, last_time, u64, timeout_links_timer,
}
use nox13_interserver.Discovery.Removal.{
  delete_each_lem, expire_links_lem, picked, removals, erase_each, lookup-erase_each-picked, spared,
}

pub timeout_links_lem :
    (now : ℕ) (s : Discovery)
    → let stale = picked (λ l seen. ltb seen (last_time now s)) s.links in
      timeout_links now s ≡ record s {
        links = erase_each stale s.links;
        posted = s.posted ++ removals link stale;
        timers = s.timers ++ ((timeout_links_timer, s.timeout_tv) ∷ []);
      }
unfolding timeout_links
timeout_links_lem now s =
    let t = record s { timers = s.timers ++ ((timeout_links_timer, s.timeout_tv) ∷ []) } in
    expire_links_lem (last_time now s) s.links t
    ∙ delete_each_lem link (picked (λ l seen. ltb seen (last_time now s)) s.links) t

-- The entry of a link, if it was seen no longer than the timeout ago.
abbrev pub fresh : ℕ → ℕ → Option ℕ → Option ℕ
fresh now limit none = none
fresh now limit (some seen) = if ltb (seen + limit) now then none else some seen

spared-fresh :
    (now : ℕ) (s : Discovery) (j : Link) (o : Option ℕ)
    → s.link_timeout ≤ now
    → now < u64
    → spared (λ l seen. ltb seen (last_time now s)) j o ≡ fresh now s.link_timeout o
spared-fresh now s j none h k = refl
spared-fresh now s j (some seen) h k = ground arith

-- If the links are in the order of their keys and the timeout fires at a time not before
-- `link_timeout` and below 2 ^ 64, a link stays if and only if it was
-- seen at most `link_timeout` ago, with its time unchanged.
pub lookup-timeout_links :
    (now : ℕ) (s : Discovery) (j : Link)
    → Sorted s.links
    → s.link_timeout ≤ now
    → now < u64
    → lookup j (timeout_links now s).links ≡ fresh now s.link_timeout (lookup j s.links)
lookup-timeout_links now s j sorted h k = rw (timeout_links_lem now s) (
    lookup-erase_each-picked (λ l seen. ltb seen (last_time now s)) j s.links sorted
    ∙ spared-fresh now s j (lookup j s.links) h k)

lookup-link_add :
    (l j : Link) (now : ℕ) (s : Discovery)
    → lookup j (link_add l now s).links ≡ (if link_eq l j then some now else lookup j s.links)
unfolding link_add
lookup-link_add l j now s = elim (Option-cases (lookup l s.links)) [
  | inl absent ↦ rw (absent, link_add) (lookup-insert l j now s.links)
  | inr (seen, old) ↦ rw (old, link_add) (lookup-insert l j now s.links)
]

-- When the frame made for port p arrives at a datapath, other than at its own port 1, the link from
-- p to port 1 of that datapath is held as seen now, whichever port the frame arrived at, and every
-- other link stays as it was.
pub packet_in_handler-create_lldp :
    (p : Port) (ttl dpid now : ℕ) (s : Discovery) (j : Link)
    → p.dpid < 2 ^ 48
    → p.port < 2 ^ 32
    → p ≢ record { dpid = dpid; port = 1 }
    → lookup j (packet_in_handler dpid (create_lldp p ttl) now s).links ≡ (
        if link_eq (record { sport = p; dport = record { dpid = dpid; port = 1 } }) j
        then some now
        else lookup j s.links)
unfolding packet_in_handler
packet_in_handler-create_lldp p ttl dpid now s j hd hp other =
    let home : Port = record { dpid = dpid; port = 1 } in
    let l : Link = record { sport = p; dport = home } in
    rw (parse_lldp-create_lldp p ttl hd hp, packet_in_handler)
      (ground (arith, lookup-link_add l j now s, port_eq_iff p home, other))
