-- ===== src/Peers/Examples.antt =====
-- Runs of the table of peers, and its theorems on concrete values.
use esp_wave_rider.Base.{◌≡◌, refl, true, ◌⊎◌, [], arith}
use esp_wave_rider.Text.{Text, codes, find?, text_eq}
use esp_wave_rider.Json.{json_field_string}
use esp_wave_rider.Peers.{
  PeersState, sync_udp_discovery_peer, announced_peer, position, retain_fresh, upsert_peer,
  make_room,
}
use esp_wave_rider.Peers.Table.{IsTable}
use esp_wave_rider.Peers.Events.{
  here, next, announcement, configured, Reach, clashes, Reach-IsTable,
}

abbrev node : PeersState
node = record {
  node_id = codes "me";
  room_id = codes "hall";
  last_udp_discovery_announce_ms = 0;
  udp_discovery_peers = [];
}

abbrev hello : Text
hello =
    codes "{\"kind\":\"lb_udp_discovery\",\"node_id\":\"ab\",\"wifi_channel\":11,\"uptime_s\":7}"

abbrev summary_text : Text
summary_text = codes "{\"kind\":\"lb_room_summary\",\"node_id\":\"ab\",\"pose_x_cm\":-3}"

node-IsTable : IsTable (codes "me") []
node-IsTable = record { bounded = omega arith; unique = tt; named = tt }

-- The node `me` hears of `ab` and then is named `ab` itself.
abbrev renamed : PeersState
renamed = record (sync_udp_discovery_peer node hello 500) {
  node_id = codes "ab";
  room_id = codes "hall";
}

abbrev renames : Reach node renamed
renames = next (next here (announcement hello 500)) (configured (codes "ab") (codes "hall"))

-- Its own name is then in its table.
lists_itself : clashes renames ≡ true
unfolding sync_udp_discovery_peer json_field_string find? text_eq announced_peer position
    retain_fresh upsert_peer make_room
lists_itself = refl

Reach-IsTable_example :
    IsTable [] renamed.udp_discovery_peers
    × (IsTable renamed.node_id renamed.udp_discovery_peers ⊎ (clashes renames ≡ true))
Reach-IsTable_example = Reach-IsTable {s = node} {t = renamed} renames node-IsTable
