-- ===== src/Peers/Summaries.antt =====
-- `sync_room_summary_peer` and `process_udp_discovery` of
-- rust/firmware/esp32s3/src/main.rs.
use esp_wave_rider.Base.{
  ℕ, ◌-◌, ◌%◌, ◌^◌, Bool, not, ◌&&◌, Option, none, some, List, [], ◌∷◌, ◌++◌, length, leb,
  if◌then◌else◌,
}
use esp_wave_rider.Base.Int.{pos, neg}
use esp_wave_rider.Text.{Text, codes}
use esp_wave_rider.Json.{json_field_string, json_field_i32, json_field_u32}
use esp_wave_rider.Mqtt.Payload.{looks_like_room_summary_payload}
use esp_wave_rider.Peers.{
  udp_discovery_announce_ms, UdpDiscoveryPeerState, PeersState, int_or, nat_or, text_field,
  position, modify_at, make_room, retain_fresh, other_node, sync_udp_discovery_peer,
}

-- The entry of a node that only a room summary is known of.
unfoldable pub blank_peer : Text → ℕ → UdpDiscoveryPeerState
blank_peer node_id uptime_ms = record {
  node_id = node_id;
  friendly_name = [];
  room_id = [];
  sensor_role = [];
  firmware_version = [];
  build_target = [];
  hostname = [];
  ip_address = [];
  wifi_rssi_dbm = pos 0;
  wifi_channel = 0;
  uptime_s = 0;
  free_heap_bytes = 0;
  last_seen_ms = uptime_ms;
  pose_x_cm = pos 0;
  pose_y_cm = pos 0;
  heading_deg = pos 0;
  room_width_cm = 0;
  room_height_cm = 0;
  last_room_summary_ms = 0;
}

unfoldable pub summarise_peer : Text → ℕ → UdpDiscoveryPeerState → UdpDiscoveryPeerState
summarise_peer payload uptime_ms peer = record peer {
  room_id = text_field payload (codes "room_id");
  sensor_role = text_field payload (codes "sensor_role");
  firmware_version = text_field payload (codes "firmware_version");
  build_target = text_field payload (codes "build_target");
  pose_x_cm = int_or (json_field_i32 payload (codes "pose_x_cm")) (pos 0);
  pose_y_cm = int_or (json_field_i32 payload (codes "pose_y_cm")) (pos 0);
  heading_deg = int_or (json_field_i32 payload (codes "heading_deg")) (neg 90);
  room_width_cm = nat_or (json_field_u32 payload (codes "room_width_cm")) 600 % 2 ^ 16;
  room_height_cm = nat_or (json_field_u32 payload (codes "room_height_cm")) 400 % 2 ^ 16;
  last_seen_ms = uptime_ms;
  last_room_summary_ms = uptime_ms;
}

-- The index of the node's entry, and the table with that entry.
unfoldable pub with_entry :
    Option ℕ → Text → ℕ → List UdpDiscoveryPeerState → ℕ × List UdpDiscoveryPeerState
with_entry (some index) node_id uptime_ms peers = (index, peers)
with_entry none node_id uptime_ms peers =
    let pushed = make_room peers ++ blank_peer node_id uptime_ms ∷ [] in (length pushed - 1, pushed)

abbrev pub after_summary : PeersState → Text → ℕ → Option Text → PeersState
after_summary s payload uptime_ms none = s
after_summary s payload uptime_ms (some node_id) =
    let entry =
      with_entry (position node_id s.udp_discovery_peers) node_id uptime_ms s.udp_discovery_peers in
    record s { udp_discovery_peers = modify_at entry.0 (summarise_peer payload uptime_ms) entry.1 }

unfoldable pub sync_room_summary_peer : PeersState → Text → ℕ → PeersState
sync_room_summary_peer s payload uptime_ms =
    if looks_like_room_summary_payload payload
    then after_summary s payload uptime_ms
        (other_node s (json_field_string payload (codes "node_id")))
    else s

unfoldable pub clear_udp_discovery_peers : PeersState → PeersState
clear_udp_discovery_peers s = record s {
  last_udp_discovery_announce_ms = 0;
  udp_discovery_peers = [];
}

unfoldable pub drop_stale_peers : PeersState → ℕ → PeersState
drop_stale_peers s uptime_ms = record s {
  udp_discovery_peers = retain_fresh uptime_ms s.udp_discovery_peers;
}

-- The loop over the packets that wait in the channel.
unfoldable pub receive_payloads : PeersState → ℕ → List Text → PeersState
receive_payloads s uptime_ms [] = s
receive_payloads s uptime_ms (payload ∷ payloads) =
    receive_payloads
      (sync_room_summary_peer (sync_udp_discovery_peer s payload uptime_ms) payload uptime_ms)
      uptime_ms payloads

-- `sent` says whether the own announcement could be built and queued.
unfoldable pub process_udp_discovery : PeersState → Bool → Bool → Bool → ℕ → List Text → PeersState
process_udp_discovery s has_stack wifi_connected sent uptime_ms payloads =
    let due = leb udp_discovery_announce_ms (uptime_ms - s.last_udp_discovery_announce_ms) in
    let announced =
      if due && sent then record s { last_udp_discovery_announce_ms = uptime_ms } else s in
    if not has_stack
    then clear_udp_discovery_peers s
    else if not wifi_connected
    then drop_stale_peers s uptime_ms
    else drop_stale_peers (receive_payloads announced uptime_ms payloads) uptime_ms
