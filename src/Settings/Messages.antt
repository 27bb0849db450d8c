-- ===== src/Settings/Messages.antt =====
-- The payloads and messages that rust/firmware/esp32s3/src/main.rs writes for other nodes and for the
-- broker, in strings of fixed capacity: 384 bytes for a payload, 128 for a topic.
use esp_wave_rider.Base.{
  ℕ, ◌-◌, ◌/◌, ◌%◌, Bool, true, false, not, ◌||◌, Option, none, some, [], ◌∷◌, leb, if◌then◌else◌,
  ◌>>=◌,
}
use esp_wave_rider.Base.Int.{ℤ, negsuc}
use esp_wave_rider.Text.{Text, codes, is_empty}
use esp_wave_rider.Fixed.{FixedString}
use esp_wave_rider.Hostname.{sanitize_hostname}
use esp_wave_rider.Mqtt.{default_topic_prefix, default_room_id}
use esp_wave_rider.Json.{
  push_part, push_json_string_field, append_u32_heapless, append_i32_heapless,
}
use esp_wave_rider.Command.Payloads.{RoomPosePublishPayload}
use esp_wave_rider.Metrics.{RadarDerivedMetrics}
use esp_wave_rider.Detection.{DetectionState, active_radar_metrics}
use esp_wave_rider.Settings.{Connection}
use esp_wave_rider.Settings.Views.{device_hostname}

pub record MqttPublishMessage : Type 0 where
  pub topic : Text
  pub payload : Text
  pub retain : Bool

abbrev pub or_text : Text → Text → Text
or_text [] default = default
or_text (c ∷ s) default = c ∷ s

abbrev pub topic_capacity : ℕ
topic_capacity = 128

-- The number that a metric gives, or 0 without metrics.
abbrev pub metric : (RadarDerivedMetrics → ℕ) → Option RadarDerivedMetrics → ℕ
metric f none = 0
metric f (some m) = f m

abbrev pub dominant_distance : Option RadarDerivedMetrics → ℤ
dominant_distance none = negsuc 0
dominant_distance (some m) = m.dominant_gate_distance_cm

abbrev pub bool_text : Bool → Text
bool_text true = codes "true"
bool_text false = codes "false"

module _ (str : FixedString) where
  -- What an announcement says behind the node's id.
  unfoldable pub announcement_tail : Text → ℕ → Connection → ℕ → Text → Option Text
  announcement_tail firmware_version free_heap_bytes c uptime_ms p = do
    p ← push_part str p (codes ",")
    p ← push_json_string_field str p (codes "friendly_name") c.friendly_name
    p ← push_part str p (codes ",")
    p ← push_json_string_field str p (codes "room_id") c.room_id
    p ← push_part str p (codes ",")
    p ← push_json_string_field str p (codes "sensor_role") c.sensor_role
    p ← push_part str p (codes ",")
    p ← push_json_string_field str p (codes "firmware_version") firmware_version
    p ← push_part str p (codes ",")
    p ← push_json_string_field str p (codes "build_target") (codes "lonely-esp32-s3-devkitm-1")
    p ← push_part str p (codes ",")
    p ← push_json_string_field str p (codes "hostname") (device_hostname c)
    p ← push_part str p (codes ",")
    p ← push_json_string_field str p (codes "ip_address") c.ip_address
    p ← push_part str p (codes ",\"wifi_rssi_dbm\":")
    p ← append_i32_heapless str p c.wifi_rssi_dbm
    p ← push_part str p (codes ",\"wifi_channel\":")
    p ← append_u32_heapless str p c.wifi_channel
    p ← push_part str p (codes ",\"uptime_s\":")
    p ← append_u32_heapless str p (uptime_ms / 1000)
    p ← push_part str p (codes ",\"free_heap_bytes\":")
    p ← append_u32_heapless str p free_heap_bytes
    push_part str p (codes "}")

  -- `free_heap_bytes` is what the allocator reports.
  unfoldable pub build_udp_discovery_payload : Text → ℕ → Connection → ℕ → Option Text
  build_udp_discovery_payload firmware_version free_heap_bytes c uptime_ms = do
    p ← push_part str [] (codes "{")
    p ← push_part str p (codes "\"kind\":\"lb_udp_discovery\",")
    p ← push_json_string_field str p (codes "node_id") c.node_id
    announcement_tail firmware_version free_heap_bytes c uptime_ms p

  -- The summary's text, where it is due.
  unfoldable pub room_summary_text :
      Text → Connection → DetectionState → Option RadarDerivedMetrics → ℕ → Option Text
  room_summary_text firmware_version c s metrics uptime_ms = do
    p ← push_part str [] (codes "{")
    p ← push_json_string_field str p (codes "kind") (codes "lb_room_summary")
    p ← push_part str p (codes ",")
    p ← push_json_string_field str p (codes "node_id") c.node_id
    p ← push_part str p (codes ",")
    p ← push_json_string_field str p (codes "room_id") c.room_id
    p ← push_part str p (codes ",")
    p ← push_json_string_field str p (codes "sensor_role") c.sensor_role
    p ← push_part str p (codes ",")
    p ← push_json_string_field str p (codes "firmware_version") firmware_version
    p ← push_part str p (codes ",")
    p ← push_json_string_field str p (codes "build_target") (codes "lonely-esp32-s3-devkitm-1")
    p ← push_part str p (codes ",\"pose_x_cm\":")
    p ← append_i32_heapless str p c.pose_x_cm
    p ← push_part str p (codes ",\"pose_y_cm\":")
    p ← append_i32_heapless str p c.pose_y_cm
    p ← push_part str p (codes ",\"heading_deg\":")
    p ← append_i32_heapless str p c.heading_deg
    p ← push_part str p (codes ",\"room_width_cm\":")
    p ← append_u32_heapless str p c.room_width_cm
    p ← push_part str p (codes ",\"room_height_cm\":")
    p ← append_u32_heapless str p c.room_height_cm
    p ← push_part str p (codes ",\"presence\":")
    p ← push_part str p (bool_text s.presence)
    p ← push_part str p (codes ",\"detection_candidate\":")
    p ← push_part str p (bool_text s.detection_candidate)
    p ← push_part str p (codes ",\"people_estimate\":")
    p ← append_u32_heapless str p (metric (λ m. m.estimated_people) metrics)
    p ← push_part str p (codes ",\"active_gate_count\":")
    p ← append_u32_heapless str p (metric (λ m. m.active_gate_count) metrics)
    p ← push_part str p (codes ",\"dominant_gate_distance_cm\":")
    p ← append_i32_heapless str p (dominant_distance metrics)
    p ← push_part str p (codes ",\"activity_score\":")
    p ← append_u32_heapless str p (metric (λ m. m.activity_score) metrics)
    p ← push_part str p (codes ",\"updated_ms\":")
    p ← append_u32_heapless str p uptime_ms
    push_part str p (codes "}")

  -- A summary is due in the first half of each ten seconds since the last announcement.
  unfoldable pub build_room_summary_payload :
      Text → ℕ → Connection → DetectionState → ℕ → Option Text
  build_room_summary_payload firmware_version last_announce_ms c s uptime_ms =
      if not c.wifi_connected || leb 5000 ((uptime_ms - last_announce_ms) % 10000)
      then none
      else room_summary_text firmware_version c s (active_radar_metrics s) uptime_ms

  abbrev pub push_topic : Text → Text → Option Text
  push_topic topic part = str.push_str topic_capacity topic part

  -- `let _ = topic.push_str(…)`: a part that does not fit is left out.
  abbrev pub or_skip : Text → Option Text → Text
  or_skip topic none = topic
  or_skip topic (some longer) = longer

  abbrev pub push_or_skip : Text → Text → Text
  push_or_skip topic part = or_skip topic (push_topic topic part)

  unfoldable pub build_room_summary_publish_message : Connection → Text → MqttPublishMessage
  build_room_summary_publish_message c payload =
      let root = push_or_skip [] default_topic_prefix in
      let rooms = push_or_skip root (codes "/rooms/") in
      let room = push_or_skip rooms (sanitize_hostname (or_text c.room_id default_room_id)) in
      let nodes = push_or_skip room (codes "/nodes/") in
      let node = push_or_skip nodes c.node_id in
      record { topic = push_or_skip node (codes "/summary"); payload = payload; retain = true }

  unfoldable pub pose_topic : Connection → Text → Option Text
  pose_topic c node_id = do
    topic ← push_topic [] default_topic_prefix
    topic ← push_topic topic (codes "/rooms/")
    topic ← push_topic topic (sanitize_hostname (or_text c.room_id default_room_id))
    topic ← push_topic topic (codes "/nodes/")
    topic ← push_topic topic node_id
    push_topic topic (codes "/pose/set")

  unfoldable pub pose_body : Connection → RoomPosePublishPayload → Option Text
  pose_body c payload = do
    p ← push_part str [] (codes "{")
    p ← push_json_string_field str p (codes "node_id") payload.node_id
    p ← push_part str p (codes ",")
    p ← push_json_string_field str p (codes "room_id") (or_text payload.room_id c.room_id)
    p ← push_part str p (codes ",")
    p ←
        push_json_string_field str p (codes "sensor_role")
          (or_text payload.sensor_role c.sensor_role)
    p ← push_part str p (codes ",\"pose_x_cm\":")
    p ← append_i32_heapless str p payload.pose_x_cm
    p ← push_part str p (codes ",\"pose_y_cm\":")
    p ← append_i32_heapless str p payload.pose_y_cm
    p ← push_part str p (codes ",\"heading_deg\":")
    p ← append_i32_heapless str p payload.heading_deg
    p ← push_part str p (codes ",\"room_width_cm\":")
    p ← append_u32_heapless str p payload.room_width_cm
    p ← push_part str p (codes ",\"room_height_cm\":")
    p ← append_u32_heapless str p payload.room_height_cm
    push_part str p (codes "}")

  unfoldable pub build_room_pose_publish_message :
      Connection → RoomPosePublishPayload → Option MqttPublishMessage
  build_room_pose_publish_message c payload = if is_empty payload.node_id then none else do
    topic ← pose_topic c payload.node_id
    body ← pose_body c payload
    some (record { topic = topic; payload = body; retain = false })
