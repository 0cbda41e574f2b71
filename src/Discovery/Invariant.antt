-- ===== src/Discovery/Invariant.antt =====
-- What holds of `Discovery` between two calls, from the moment it is configured.
use nox13_interserver.Common.{
  ℕ, ◌≡◌, refl, ap, subst, ◌∙◌, none, some, List, ◌∷◌, ◌++◌, arith, if◌then◌else◌, length, nat_key,
}
use nox13_interserver.Common.Maps.{lookup, erase, lookup-erase, Sorted, erase-Sorted}
use nox13_interserver.Lldp.{Port, port_eq_iff, port_key, link_key, create_lldp}
use nox13_interserver.Discovery.Defs.{
  Discovery, Reason, touches, port_delete_at, has_port, remove_at, lldp_ttl, lldp_period,
  update_timeval, from_msec,
}
use nox13_interserver.Discovery.Removal.{
  delete_each_lem, delete_links_of_lem, picked, removals, erase_each, erase_each-Sorted,
}
use nox13_interserver.Discovery.Ports.{Unique, has_port-append, remove_at-length, Unique-remove}

-- No port stands twice; each registered port, and no other, has its LLDP frame; the maps are in the
-- order of their keys; the LLDP timer runs at the period of the present number of ports.
pub record Inv (s : Discovery) : Type 0 where
  pub unique : Unique s.ports
  pub frames :
      (p : Port)
      → lookup p s.lldps ≡ (if has_port p s.ports then some (create_lldp p lldp_ttl) else none)
  pub sorted_links : Sorted s.links
  pub sorted_lldps : Sorted s.lldps
  pub sorted_dps : Sorted s.dps
  pub period : s.per_port_tv ≡ from_msec (lldp_period s)

-- port_delete(iter, reason) in one step.
pub port_delete_at_lem :
    (i : ℕ) (p : Port) (r : Reason) (s : Discovery)
    → let gone = picked (λ l seen. touches p l) s.links in
      port_delete_at i p r s
      ≡ update_timeval (record s {
        links = erase_each gone s.links;
        posted = s.posted ++ removals r gone;
        lldps = erase p s.lldps;
        ports = remove_at i s.ports;
      })
unfolding port_delete_at
port_delete_at_lem i p r s =
    let gone = picked (λ l seen. touches p l) s.links in
    ap
      (λ (t : Discovery).
        update_timeval (record t { lldps = erase p t.lldps; ports = remove_at i t.ports }))
      (delete_links_of_lem p r s.links s ∙ delete_each_lem r gone s)

delete_frames :
    (ks rest : List Port) (p q : Port) (s : Discovery)
    → s.ports ≡ ks ++ p ∷ rest
    → Inv s
    → lookup q (erase p s.lldps)
      ≡ (if has_port q (ks ++ rest) then some (create_lldp q lldp_ttl) else none)
delete_frames ks rest p q s e v = ground (
  arith,
  lookup-erase p q s.lldps,
  v.frames q,
  ap (has_port q) e,
  has_port-append q ks (p ∷ rest),
  has_port-append q ks rest,
  (Unique-remove ks rest p (subst Unique e v.unique)).1,
  port_eq_iff p q,
)

-- Deleting the port at the boundary of a split keeps the invariant and leaves the other ports.
pub port_delete_at-Inv :
    (ks rest : List Port) (p : Port) (r : Reason) (s : Discovery)
    → s.ports ≡ ks ++ p ∷ rest
    → Inv s
    → Inv (port_delete_at (length ks) p r s)
      × ((port_delete_at (length ks) p r s).ports ≡ ks ++ rest)
unfolding update_timeval
port_delete_at-Inv ks rest p r s e v =
    let cut : remove_at (length ks) s.ports ≡ ks ++ rest =
      ap (remove_at (length ks)) e ∙ remove_at-length ks rest p in
    let u = Unique-remove ks rest p (subst Unique e v.unique) in
    rw (port_delete_at_lem (length ks) p r s) (
      record {
        unique = rw cut u.0;
        frames = λ q. rw cut (delete_frames ks rest p q s e v);
        sorted_links =
            erase_each-Sorted (picked (λ l seen. touches p l) s.links) s.links v.sorted_links;
        sorted_lldps = erase-Sorted p s.lldps v.sorted_lldps;
        sorted_dps = v.sorted_dps;
        period = refl;
      },
      cut,
    )
