-- ===== src/Tests/LldpTests.antt =====
-- LLDP frames of a concrete port.
use nox13_interserver.Common.{◌≡◌, refl, some, none, [], ◌∷◌, arith}
use nox13_interserver.Lldp.{Port, create_lldp, parse_lldp}
use nox13_interserver.Lldp.RoundTrip.{parse_lldp-create_lldp}

abbrev uplink : Port
uplink = record { dpid = 1108152157446; port = 258 }

parse_lldp-create_lldp_example : parse_lldp (create_lldp uplink 120) ≡ some uplink
parse_lldp-create_lldp_example = parse_lldp-create_lldp uplink 120 (omega arith) (omega arith)

-- Ten bytes are no frame.
short_frame : parse_lldp (1 ∷ 2 ∷ 3 ∷ 4 ∷ 5 ∷ 6 ∷ 7 ∷ 8 ∷ 9 ∷ 10 ∷ []) ≡ none
unfolding parse_lldp
short_frame = refl
