-- ===== src/Tests/SwitchTests.antt =====
-- A switch that sees a host and forwards to it.
use nox13_interserver.Common.{◌≡◌, true, some, [], ◌∷◌}
use nox13_interserver.Common.Maps.{lookup}
use nox13_interserver.Common.Outcome.{ok}
use nox13_interserver.LearningSwitch.{MacSource, mac_source_key, Switch, PacketIn, switch_packet}
use nox13_interserver.LearningSwitch.Forwarding.{
  switch_packet-Forwarded, Forwarded, handle_all_learns, handle_all, last_seen,
}

abbrev idle : Switch
idle = record { sources = []; setup_flows = true; sent = [] }

abbrev host : MacSource
host = record { datapath_id = 1; mac = 170 }

abbrev from_host : PacketIn
from_host = record {
  dpid = 1;
  eth_type = some 2048;
  in_port = some 3;
  eth_src = some 170;
  eth_dst = some 187;
  buffer_id = 5;
  total_len = 4;
  frame = 1 ∷ 2 ∷ 3 ∷ 4 ∷ [];
}

abbrev to_host : PacketIn
to_host = record from_host { in_port = some 4; eth_src = some 187; eth_dst = some 170 }

switch_packet-Forwarded_example :
    Forwarded to_host 4 187 170 idle (switch_packet to_host 4 187 170 idle)
switch_packet-Forwarded_example = switch_packet-Forwarded to_host 4 187 170 idle

handle_all_learns_example :
    (t : Switch) × (handle_all 0 (from_host ∷ to_host ∷ []) idle ≡ ok t)
    × ((k : MacSource)
        → lookup k t.sources ≡ last_seen 0 k (lookup k idle.sources) (from_host ∷ to_host ∷ []))
handle_all_learns_example = handle_all_learns 0 (from_host ∷ to_host ∷ []) idle
