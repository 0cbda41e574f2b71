-- ===== src/Discovery/Membership.antt =====
-- The operations on ports and datapaths keep the invariant, and what they leave registered.
use nox13_interserver.Common.{
  ℕ, ◌+◌, ◌≡◌, refl, sym, ap, subst, ◌∙◌, false, not, ◌&&◌, ◌||◌, inl, inr, Bool-cases,
  Option-cases, none, some, List, [], ◌∷◌, ◌++◌, arith, ◌==◌, if◌then◌else◌, length, nat_key,
}
use nox13_interserver.Common.Maps.{lookup, lookup-insert, lookup-erase, insert-Sorted, erase-Sorted}
use nox13_interserver.Lldp.{Port, port_eq, port_eq_iff, port_key, link_key, create_lldp}
use nox13_interserver.Discovery.Defs.{
  Discovery, Reason, dp, port_delete_at, port_delete_from, port_delete, port_add, has_port,
  dp_remove_from, dp_remove, dp_add, lldp_ttl, lldp_period, update_timeval,
}
use nox13_interserver.Discovery.Ports.{
  Unique, has_port-append, Unique-remove, Unique-push, shift_split, length-push,
}
use nox13_interserver.Discovery.Invariant.{Inv, port_delete_at_lem, port_delete_at-Inv}

-- The state after a call, when one port was to go: the invariant, and who is still registered.
abbrev Without : Port → Discovery → Discovery → Type 0
Without p s t =
    Inv t × ((q : Port) → has_port q t.ports ≡ (has_port q s.ports && not (port_eq p q)))

cut_port :
    (ks rest : List Port) (p q : Port) (s : Discovery)
    → s.ports ≡ ks ++ p ∷ rest
    → Inv s
    → has_port q (ks ++ rest) ≡ (has_port q s.ports && not (port_eq p q))
cut_port ks rest p q s e v = ground (
  arith,
  ap (has_port q) e,
  has_port-append q ks (p ∷ rest),
  has_port-append q ks rest,
  (Unique-remove ks rest p (subst Unique e v.unique)).1,
  port_eq_iff p q,
)

absent_port :
    (p q : Port) (ps : List Port)
    → has_port p ps ≡ false
    → has_port q ps ≡ (has_port q ps && not (port_eq p q))
absent_port p q ps h = ground (arith, port_eq_iff p q)

port_delete_from-Without :
    (ks rest : List Port) (p : Port) (r : Reason) (s : Discovery)
    → s.ports ≡ ks ++ rest
    → has_port p ks ≡ false
    → Inv s
    → Without p s (port_delete_from (length ks) rest p r s)
unfolding port_delete_from
port_delete_from-Without ks [] p r s e h v =
    (v, λ q. absent_port p q s.ports (ground (arith, ap (has_port p) e, has_port-append p ks [])))
port_delete_from-Without ks (q ∷ rest) p r s e h v = elim (Bool-cases (port_eq q p)) [
  | inl hit ↦
      let same : q ≡ p = (port_eq_iff q p).0 hit in
      let (inv, left) = port_delete_at-Inv ks rest q r s e v in
      rw hit (
        inv,
        λ j.
            ap (has_port j) left
            ∙ cut_port ks rest q j s e v
            ∙ ap (λ x. has_port j s.ports && not (port_eq x j)) same,
      )
  | inr miss ↦
      rw (miss, ← length-push ks q)
        (port_delete_from-Without (ks ++ q ∷ []) rest p r s (shift_split s.ports ks rest q e)
          (ground (arith, has_port-append p ks (q ∷ []))) v)
]

-- Deleting a port keeps the invariant, and unregisters that port and no other.
pub port_delete-Without :
    (p : Port) (r : Reason) (s : Discovery)
    → Inv s
    → Inv (port_delete p r s)
      × ((q : Port)
          → has_port q (port_delete p r s).ports ≡ (has_port q s.ports && not (port_eq p q)))
unfolding port_delete
port_delete-Without p r s v = port_delete_from-Without [] s.ports p r s refl refl v

-- Adding a port keeps the invariant, registers that port, and changes nothing for the others.
pub port_add-Inv :
    (p : Port) (s : Discovery)
    → Inv s
    → Inv (port_add p s)
      × ((q : Port) → has_port q (port_add p s).ports ≡ (has_port q s.ports || port_eq p q))
unfolding port_add update_timeval
port_add-Inv p s v = elim (Bool-cases (has_port p s.ports)) [
  | inl old ↦ rw old (v, λ q. ground (arith, port_eq_iff p q))
  | inr fresh ↦
      let absent : lookup p s.lldps ≡ none = v.frames p ∙ (rw fresh) in
      rw (fresh, absent)
        (
          record {
            unique = Unique-push s.ports p fresh v.unique;
            frames = λ q. ground (
              arith,
              lookup-insert p q (create_lldp p lldp_ttl) s.lldps,
              v.frames q,
              has_port-append q s.ports (p ∷ []),
              port_eq_iff p q,
            );
            sorted_links = v.sorted_links;
            sorted_lldps = insert-Sorted p (create_lldp p lldp_ttl) s.lldps v.sorted_lldps;
            sorted_dps = v.sorted_dps;
            period = refl;
          },
          λ q. ground (arith, has_port-append q s.ports (p ∷ [])),
        )
]

-- The ports of the other datapaths, in their order.
abbrev pub other_ports : ℕ → List Port → List Port
other_ports dpid [] = []
other_ports dpid (p ∷ ps) =
    let rest = other_ports dpid ps in if p.dpid == dpid then rest else p ∷ rest

dp_remove_from-Inv :
    (dpid : ℕ) (ks rest : List Port) (s : Discovery)
    → s.ports ≡ ks ++ rest
    → Inv s
    → let t = dp_remove_from dpid (length ks) rest s in
      Inv t × (t.ports ≡ ks ++ other_ports dpid rest)
unfolding dp_remove_from
dp_remove_from-Inv dpid ks [] s e v = (v, e)
dp_remove_from-Inv dpid ks (p ∷ rest) s e v = elim (Bool-cases (p.dpid == dpid)) [
  | inl hit ↦
      let (inv, left) = port_delete_at-Inv ks rest p dp s e v in
      rw (hit, dp_remove_from)
        (dp_remove_from-Inv dpid ks rest (port_delete_at (length ks) p dp s) left inv)
  | inr miss ↦
      let (inv, left) =
        dp_remove_from-Inv dpid (ks ++ p ∷ []) rest s (shift_split s.ports ks rest p e) v in
      rw (miss, dp_remove_from, ← length-push ks p)
        (
          inv,
          left
              ∙ sym
                  (shift_split (ks ++ p ∷ other_ports dpid rest) ks (other_ports dpid rest) p refl),
        )
]

-- A datapath that leaves takes all its ports with it; the others keep theirs, in their order, and the
-- invariant is kept.
pub dp_remove-Inv :
    (dpid : ℕ) (s : Discovery)
    → Inv s
    → Inv (dp_remove dpid s) × ((dp_remove dpid s).ports ≡ other_ports dpid s.ports)
unfolding dp_remove lldp_period
dp_remove-Inv dpid s v =
    let (inv, left) = dp_remove_from-Inv dpid [] s.ports s refl v in
    let t = dp_remove_from dpid 0 s.ports s in
    (
      record {
        unique = inv.unique;
        frames = inv.frames;
        sorted_links = inv.sorted_links;
        sorted_lldps = inv.sorted_lldps;
        sorted_dps = erase-Sorted dpid t.dps inv.sorted_dps;
        period = inv.period;
      },
      left,
    )

port_delete_at-dps :
    (i : ℕ) (p : Port) (r : Reason) (s : Discovery) → (port_delete_at i p r s).dps ≡ s.dps
unfolding update_timeval
port_delete_at-dps i p r s = ap (λ (t : Discovery). t.dps) (port_delete_at_lem i p r s)

dp_remove_from-dps :
    (dpid i : ℕ) (rest : List Port) (s : Discovery) → (dp_remove_from dpid i rest s).dps ≡ s.dps
unfolding dp_remove_from
dp_remove_from-dps dpid i [] s = refl
dp_remove_from-dps dpid i (p ∷ rest) s = ground (
  arith,
  port_delete_at-dps i p dp s,
  dp_remove_from-dps dpid i rest (port_delete_at i p dp s),
  dp_remove_from-dps dpid (i + 1) rest s,
)

lookup-dp_remove :
    (dpid d : ℕ) (s : Discovery)
    → lookup d (dp_remove dpid s).dps ≡ (if dpid == d then none else lookup d s.dps)
unfolding dp_remove
lookup-dp_remove dpid d s = ground (
  arith,
  dp_remove_from-dps dpid 0 s.ports s,
  lookup-erase dpid d (dp_remove_from dpid 0 s.ports s).dps,
)

-- What is registered after a datapath has joined.
abbrev pub Joined : ℕ → Discovery → Discovery → Type 0
Joined dpid s t =
    Inv t
    × ((d : ℕ) → lookup d t.dps ≡ (if dpid == d then some tt else lookup d s.dps))
    × (t.ports ≡ (elim (lookup dpid s.dps) [ none ↦ s.ports | some _ ↦ other_ports dpid s.ports ]))

-- A datapath that joins is registered, the others stay as they were; if it was registered already,
-- its ports go first, and only they. The invariant is kept.
pub dp_add-Joined : (dpid : ℕ) (s : Discovery) → Inv s → Joined dpid s (dp_add dpid s)
unfolding dp_add lldp_period
dp_add-Joined dpid s v = elim (Option-cases (lookup dpid s.dps)) [
  | inl new ↦
      rw (new, dp_add)
        (
          record {
            unique = v.unique;
            frames = v.frames;
            sorted_links = v.sorted_links;
            sorted_lldps = v.sorted_lldps;
            sorted_dps = insert-Sorted dpid tt s.dps v.sorted_dps;
            period = v.period;
          },
          λ d. lookup-insert dpid d tt s.dps,
          refl,
        )
  | inr (known, old) ↦
      let (inv, left) = dp_remove-Inv dpid s v in
      rw (old, dp_add)
        (
          record {
            unique = inv.unique;
            frames = inv.frames;
            sorted_links = inv.sorted_links;
            sorted_lldps = inv.sorted_lldps;
            sorted_dps = insert-Sorted dpid tt (dp_remove dpid s).dps inv.sorted_dps;
            period = inv.period;
          },
          λ d.
              ground
                (arith, lookup-insert dpid d tt (dp_remove dpid s).dps, lookup-dp_remove dpid d s),
          left,
        )
]
