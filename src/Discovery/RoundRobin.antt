-- ===== src/Discovery/RoundRobin.antt =====
-- The LLDP timer goes round the registered ports.
use mathlib.Core.List.{append_assoc, append-nil}
use nox13_interserver.Common.{
  ℕ, zero, suc, ◌+◌, ◌≤◌, ◌<◌, ◌≡◌, refl, sym, ap, ◌∙◌, some, List, [], ◌∷◌, ◌++◌, map, arith,
  length, length-append, get_elem?,
}
use nox13_interserver.Common.Maps.{lookup}
use nox13_interserver.Lldp.{Port, port_eq_iff, port_key, create_lldp}
use nox13_interserver.Discovery.Defs.{
  Discovery, PacketOut, has_port, lldp_ttl, ofpp_controller, send_next, send_lldp, u64,
}
use nox13_interserver.Discovery.Ports.{has_port-append, shift_split, length-push}
use nox13_interserver.Discovery.Invariant.{Inv}

-- The frame of a port, sent out of that port.
abbrev pub announcement : Port → PacketOut
announcement p = record {
  dpid = p.dpid;
  frame = create_lldp p lldp_ttl;
  in_port = ofpp_controller;
  out_port = p.port;
}

pub ticks : ℕ → Discovery → Discovery
ticks zero s = s
ticks (suc n) s = ticks n (send_lldp s)

get_elem?-split : (ks rest : List Port) (p : Port) → get_elem? (ks ++ p ∷ rest) (length ks) ≡ some p
get_elem?-split [] rest p = refl
get_elem?-split (k ∷ ks) rest p = get_elem?-split ks rest p

-- What one tick does at port p.
abbrev Announced : Port → Discovery → Discovery → Type 0
Announced p s t =
    (t.sent ≡ s.sent ++ announcement p ∷ [])
    × (t.next_port ≡ s.next_port + 1)
    × (t.ports ≡ s.ports)
    × (t.lldps ≡ s.lldps)

frame_of :
    (ks rest : List Port) (p : Port) (s : Discovery)
    → s.ports ≡ ks ++ p ∷ rest
    → Inv s
    → lookup p s.lldps ≡ some (create_lldp p lldp_ttl)
frame_of ks rest p s e v =
    ground (arith, v.frames p, ap (has_port p) e, has_port-append p ks (p ∷ rest), port_eq_iff p p)

send_next-Announced :
    (ks rest : List Port) (p : Port) (s : Discovery)
    → s.ports ≡ ks ++ p ∷ rest
    → lookup p s.lldps ≡ some (create_lldp p lldp_ttl)
    → s.next_port ≡ length ks
    → length s.ports < u64
    → Announced p s (send_next s)
unfolding send_next
send_next-Announced ks rest p s e f n small = ground (
  arith,
  e,
  ap (λ ps. get_elem? ps (length ks)) e ∙ get_elem?-split ks rest p,
  ap length e ∙ length-append ks (p ∷ rest),
  f,
)

send_lldp_within :
    (s : Discovery) (p : Port) (ks rest : List Port)
    → s.ports ≡ ks ++ p ∷ rest
    → s.next_port ≡ length ks
    → lookup p s.lldps ≡ some (create_lldp p lldp_ttl)
    → length s.ports < u64
    → Announced p s (send_lldp s)
unfolding send_lldp send_next
send_lldp_within s p ks rest e n f small = ground (
  arith,
  e,
  ap (λ ps. get_elem? ps (length ks)) e ∙ get_elem?-split ks rest p,
  ap length e ∙ length-append ks (p ∷ rest),
  f,
)

-- The frames that the ports of a list should have.
abbrev Framed : List Port → Discovery → Type 0
Framed [] s = Unit {0}
Framed (p ∷ ps) s = (lookup p s.lldps ≡ some (create_lldp p lldp_ttl)) × Framed ps s

Framed-same : (ps : List Port) (s t : Discovery) → t.lldps ≡ s.lldps → Framed ps s → Framed ps t
Framed-same [] s t e f = tt
Framed-same (p ∷ ps) s t e f = (ap (lookup p) e ∙ f.0, Framed-same ps s t e f.1)

Inv-Framed : (ks rest : List Port) (s : Discovery) → s.ports ≡ ks ++ rest → Inv s → Framed rest s
Inv-Framed ks [] s e v = tt
Inv-Framed ks (p ∷ rest) s e v =
    (frame_of ks rest p s e v, Inv-Framed (ks ++ p ∷ []) rest s (shift_split s.ports ks rest p e) v)

-- The ticks from port number `length ks` on, to the last port.
rest_of_round :
    (ks rest : List Port) (s : Discovery)
    → s.ports ≡ ks ++ rest
    → Framed rest s
    → s.next_port ≡ length ks
    → length s.ports < u64
    → ((ticks (length rest) s).sent ≡ s.sent ++ map announcement rest)
      × ((ticks (length rest) s).next_port ≡ length s.ports)
      × ((ticks (length rest) s).ports ≡ s.ports)
unfolding ticks
rest_of_round ks [] s e f n small =
    (sym (append-nil s.sent), n ∙ sym (ap length (e ∙ append-nil ks)), refl)
rest_of_round ks (p ∷ rest) s e f n small =
    let (out, next, same, frames) = send_lldp_within s p ks rest e n f.0 small in
    let t = send_lldp s in
    let (sents, last, still) =
      rest_of_round (ks ++ p ∷ []) rest t (same ∙ shift_split s.ports ks rest p e)
        (Framed-same rest s t frames f.1) (omega (arith, next, n, length-push ks p))
        (omega (arith, ap length same, small)) in
    (
      sents
          ∙ ap (λ o. o ++ map announcement rest) out
          ∙ append_assoc s.sent (announcement p ∷ []) (map announcement rest),
      last ∙ ap length same,
      still ∙ same,
    )

send_lldp-wraps :
    (s : Discovery)
    → 0 < length s.ports
    → length s.ports ≤ s.next_port
    → send_lldp s ≡ send_lldp (record s { next_port = 0 })
unfolding send_lldp
send_lldp-wraps s h w = ground arith

ticks-wraps :
    (n : ℕ) (s : Discovery)
    → 0 < length s.ports
    → length s.ports ≤ s.next_port
    → ticks (suc n) s ≡ ticks (suc n) (record s { next_port = 0 })
unfolding ticks
ticks-wraps n s h w = ap (ticks n) (send_lldp-wraps s h w)

full_round :
    (ps : List Port) (s : Discovery)
    → s.ports ≡ ps
    → Inv s
    → 0 < length s.ports
    → length s.ports ≤ s.next_port
    → length s.ports < u64
    → ((ticks (length ps) s).sent ≡ s.sent ++ map announcement ps)
      × ((ticks (length ps) s).next_port ≡ length s.ports)
      × ((ticks (length ps) s).ports ≡ s.ports)
full_round [] s e v h w small = absurd (omega (arith, ap length e))
full_round (p ∷ ps) s e v h w small =
    let s0 = record s { next_port = 0 } in
    rw (ticks-wraps (length ps) s h w) (
      rest_of_round [] (p ∷ ps) s0 e (Framed-same (p ∷ ps) s s0 refl (Inv-Framed [] (p ∷ ps) s e v))
        refl small)

-- With at least one port registered and a round complete (as at the start), as many ticks as there
-- are ports send the frame of each registered port once, in their order, out of that port, and
-- complete the round again.
pub ticks_round :
    (s : Discovery)
    → Inv s
    → 0 < length s.ports
    → length s.ports ≤ s.next_port
    → length s.ports < u64
    → ((ticks (length s.ports) s).sent ≡ s.sent ++ map announcement s.ports)
      × ((ticks (length s.ports) s).next_port ≡ length s.ports)
      × ((ticks (length s.ports) s).ports ≡ s.ports)
ticks_round s v h w small = full_round s.ports s refl v h w small
