-- ===== src/Mqtt/Examples.antt =====
-- Runs of the MQTT packets, and their theorems at concrete packets.
use esp_wave_rider.Base.{
  ℕ, ◌≡◌, refl, ap, true, false, Option, none, some, List, [], ◌∷◌, ◌++◌, arith, leb, if◌then◌else◌,
  length, ◌+◌,
}
use esp_wave_rider.Text.{codes, text_eq, find?, trim_start, strip_prefix}
use esp_wave_rider.Text.Utf8.{as_bytes, encode_char}
use esp_wave_rider.Fixed.Model.{list_vec}
use esp_wave_rider.Mqtt.{
  build_mqtt_publish_packet, publish_body, encode_mqtt_utf8, build_packet,
  encode_mqtt_remaining_length, encode_remaining, take_mqtt_packet, take_front, take_packets,
  mqtt_packet_length, read_length, total_length, checked,
}
use esp_wave_rider.Mqtt.Build.{length_bytes}
use esp_wave_rider.Mqtt.Payload.{
  json_string_field, quoted, looks_like_room_summary_payload, mqtt_publish_payload,
}
use esp_wave_rider.Mqtt.RoundTrip.{
  publish_frame, build_mqtt_publish_packet_lem, mqtt_publish_payload-build,
}
use esp_wave_rider.Mqtt.Take.{Drained, take_packets-Drained, IsPacket, concat, take_packets-concat}
use esp_wave_rider.Mqtt.Stuck.{IsOversized, connections, connections_stuck}

abbrev ping_response : List ℕ
ping_response = 0xD0 ∷ 0x00 ∷ []

takes_ping : take_mqtt_packet (0xD0 ∷ 0x00 ∷ 0x30 ∷ []) ≡ (some ping_response, 0x30 ∷ [])
unfolding take_mqtt_packet take_front mqtt_packet_length read_length total_length checked
takes_ping = refl

waits : take_mqtt_packet (0x30 ∷ []) ≡ (none, 0x30 ∷ [])
unfolding take_mqtt_packet take_front mqtt_packet_length
waits = refl

take_packets-Drained_example :
    Drained (0xD0 ∷ 0x00 ∷ 0x30 ∷ []) (take_packets 4 (0xD0 ∷ 0x00 ∷ 0x30 ∷ []))
take_packets-Drained_example = take_packets-Drained 4 (0xD0 ∷ 0x00 ∷ 0x30 ∷ []) (omega arith)

ping_response-IsPacket : IsPacket ping_response
unfolding length_bytes
ping_response-IsPacket = record { header = 0xD0; body = []; framed = refl; fits = omega arith }

take_packets-concat_example :
    take_packets 3 (concat (ping_response ∷ ping_response ∷ []) ++ 0x30 ∷ [])
    ≡ (ping_response ∷ ping_response ∷ [], 0x30 ∷ [])
take_packets-concat_example =
    take_packets-concat (ping_response ∷ ping_response ∷ []) (0x30 ∷ []) 3
      (ping_response-IsPacket, (ping_response-IsPacket, tt))
      (ap (λ (t : Option (List ℕ) × List ℕ). t.0) waits) (omega arith)

build_mqtt_publish_packet_lem_example :
    build_mqtt_publish_packet list_vec (codes "room") (codes "{}") true ≡ (
      if leb (length (as_bytes (codes "room")) + length (as_bytes (codes "{}"))) 763
      then some (publish_frame true (codes "room") (codes "{}"))
      else none)
build_mqtt_publish_packet_lem_example =
    build_mqtt_publish_packet_lem list_vec (codes "room") (codes "{}") true

abbrev small_packet : List ℕ
small_packet = 0x31 ∷ 8 ∷ 0 ∷ 4 ∷ codes "room{}"

builds : build_mqtt_publish_packet list_vec (codes "room") (codes "{}") true ≡ some small_packet
unfolding build_mqtt_publish_packet publish_body encode_mqtt_utf8 build_packet
    encode_mqtt_remaining_length encode_remaining as_bytes encode_char
builds = refl

mqtt_publish_payload-build_example : mqtt_publish_payload small_packet ≡ some (codes "{}")
mqtt_publish_payload-build_example =
    mqtt_publish_payload-build list_vec (codes "room") (codes "{}") true (refl, (refl, tt)) builds

-- A publish packet of 1,500 bytes, of which three have arrived.
large_packet-IsOversized : IsOversized (0x30 ∷ 0xD9 ∷ 0x0B ∷ [])
unfolding read_length checked
large_packet-IsOversized = record {
  index = 3;
  value = 1497;
  enough = omega arith;
  announced = refl;
  large = omega arith;
}

connections_stuck_example :
    connections list_vec (0x30 ∷ 0xD9 ∷ 0x0B ∷ []) ((some (0x20 ∷ 2 ∷ 0 ∷ 0 ∷ []) ∷ []) ∷ [] ∷ [])
    ≡ 0
connections_stuck_example =
    connections_stuck list_vec ((some (0x20 ∷ 2 ∷ 0 ∷ 0 ∷ []) ∷ []) ∷ [] ∷ [])
      (0x30 ∷ 0xD9 ∷ 0x0B ∷ []) large_packet-IsOversized

reads_field :
    json_string_field (codes "{ \"node_id\" : \"lb-1\" }") (codes "node_id") ≡ some (codes "lb-1")
unfolding json_string_field quoted find? trim_start strip_prefix
reads_field = refl

rejects_other_kind :
    looks_like_room_summary_payload (codes "{\"kind\":\"lb_udp_discovery\",\"node_id\":\"n\"}")
    ≡ false
unfolding looks_like_room_summary_payload json_string_field quoted find? trim_start strip_prefix
    text_eq
rejects_other_kind = refl
