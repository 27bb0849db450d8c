-- ===== src/Mqtt/Payload.antt =====
-- rust/crates/espwaverider-core/src/mqtt.rs: the payload of a publish packet, and the room summaries
-- among the payloads.
use esp_wave_rider.Base.{
  ℕ, ◌+◌, ◌*◌, ◌/◌, ◌%◌, Bool, true, false, Option, none, some, List, [], ◌∷◌, ◌++◌, length, drop,
  ltb, leb, ◌==◌, if◌then◌else◌, ◌>>=◌, get_elem?,
}
use esp_wave_rider.Text.{Text, codes, text_eq, find?, trim_start, strip_prefix, is_some}
use esp_wave_rider.Text.Utf8.{from_utf8}

-- The text up to the closing quote; a backslash keeps the character behind it from closing.
unfoldable pub quoted : Text → Bool → Option Text
quoted [] escaped = none
quoted (c ∷ s) true = quoted s false >>= λ rest. some (c ∷ rest)
quoted (c ∷ s) false =
    if c == 0x5c
    then (quoted s true >>= λ rest. some (c ∷ rest))
    else if c == 0x22
    then some []
    else (quoted s false >>= λ rest. some (c ∷ rest))

unfoldable pub json_string_field : Text → Text → Option Text
json_string_field payload field = do
  let pattern = codes "\"" ++ field ++ codes "\""
  field_start ← find? payload pattern
  value ← strip_prefix (trim_start (drop (field_start + length pattern) payload)) (codes ":")
  remainder ← strip_prefix (trim_start value) (codes "\"")
  quoted remainder false

unfoldable pub looks_like_room_summary_payload : Text → Bool
looks_like_room_summary_payload payload = elim (json_string_field payload (codes "kind")) [
  | some kind ↦
      if text_eq kind (codes "lb_room_summary")
      then is_some (json_string_field payload (codes "node_id"))
      else false
  | none ↦ is_some (json_string_field payload (codes "node_id"))
]

-- The loop over the length bytes: the index behind them.
unfoldable pub skip_length : List ℕ → ℕ → ℕ → Option ℕ
skip_length [] multiplier header_len = none
skip_length (encoded ∷ rest) multiplier header_len =
    let later = skip_length rest (multiplier * 128) (header_len + 1) in
    if ltb encoded 128
    then some (header_len + 1)
    else if ltb (128 * 128 * 128) (multiplier * 128)
    then none
    else later

-- `packet.get(offset..)`
unfoldable pub get_from : List ℕ → ℕ → Option (List ℕ)
get_from bytes offset = if leb offset (length bytes) then some (drop offset bytes) else none

-- A packet of the publish kind, given with its first byte.
unfoldable pub publish_payload_of : List ℕ → ℕ → List ℕ → Option Text
publish_payload_of packet header rest = do
  header_len ← skip_length rest 1 1
  high ← get_elem? packet header_len
  low ← get_elem? packet (header_len + 1)
  let qos = header / 2 % 4
  let payload_offset = header_len + 2 + (high * 256 + low) + (if ltb 0 qos then 2 else 0)
  bytes ← get_from packet payload_offset
  from_utf8 bytes

unfoldable pub mqtt_publish_payload : List ℕ → Option Text
mqtt_publish_payload [] = none
mqtt_publish_payload (header ∷ rest) =
    if header / 16 == 3 then publish_payload_of (header ∷ rest) header rest else none

unfoldable pub mqtt_room_summary_payload_from_publish : List ℕ → Option Text
mqtt_room_summary_payload_from_publish packet = do
  payload ← mqtt_publish_payload packet
  if looks_like_room_summary_payload payload then some payload else none
