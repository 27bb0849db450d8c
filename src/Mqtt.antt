-- ===== src/Mqtt.antt =====
-- The MQTT packets of rust/firmware/esp32s3/src/main.rs: `build_mqtt_*_packet`, `mqtt_packet_length` and
-- `take_mqtt_packet`. What does not fit a vector or a string of fixed capacity is `none`.
-- `usize` has 32 bits on this processor.
pub mod Payload
pub mod Build
pub mod Take
pub mod Stuck
pub mod RoundTrip
mod Examples
use esp_wave_rider.Base.{
  ℕ, zero, suc, ◌+◌, ◌*◌, ◌/◌, ◌%◌, ◌^◌, Bool, Option, none, some, List, [], ◌∷◌, ◌++◌, length,
  drop, take, ltb, leb, ◌==◌, if◌then◌else◌, ◌>>=◌, get_or, ◌&&◌,
}
use esp_wave_rider.Text.{Text, codes, is_empty, text_eq}
use esp_wave_rider.Text.Utf8.{as_bytes}
use esp_wave_rider.Hostname.{sanitize_hostname}
use esp_wave_rider.Fixed.{FixedVec, FixedString}

pub record MqttTaskConfig : Type 0 where
  pub wifi_connected : Bool
  pub enabled : Bool
  pub use_websockets : Bool
  pub host : Text
  pub port : ℕ
  pub username : Text
  pub password : Text
  pub room_id : Text
  pub node_id : Text

-- `value.to_be_bytes()` of a `u16`.
abbrev pub be_bytes : ℕ → List ℕ
be_bytes n = n / 256 ∷ n % 256 ∷ []

-- The flags are distinct bits, so `|=` adds.
abbrev pub connect_flags : MqttTaskConfig → ℕ
connect_flags config =
    2
    + (if is_empty config.username then 0 else 0x80)
    + (if is_empty config.password then 0 else 0x40)

abbrev pub mqtt_keepalive_secs : ℕ
mqtt_keepalive_secs = 30

abbrev pub default_topic_prefix : Text
default_topic_prefix = codes "lb_mmwave"

abbrev pub default_room_id : Text
default_room_id = codes "room-default"

abbrev pub mqtt_packet_id_subscribe : ℕ
mqtt_packet_id_subscribe = 1

module _ (str : FixedString) where
  unfoldable pub subscribe_topic : MqttTaskConfig → Option Text
  subscribe_topic config = do
    prefix ← str.push_str 128 [] default_topic_prefix
    rooms ← str.push_str 128 prefix (codes "/rooms/")
    room ←
        str.push_str 128 rooms
          (sanitize_hostname (if is_empty config.room_id then default_room_id else config.room_id))
    str.push_str 128 room (codes "/nodes/+/summary")

module _ (vec : FixedVec) where
  -- The loop, with as many turns as `fuel`.
  unfoldable pub encode_remaining : ℕ → ℕ → List ℕ → ℕ → Option (List ℕ)
  encode_remaining zero cap output value = none
  encode_remaining (suc fuel) cap output value = do
    output' ←
        vec.extend cap output ((if value / 128 == 0 then value % 128 else value % 128 + 128) ∷ [])
    let rest = encode_remaining fuel cap output' (value / 128)
    if value / 128 == 0 then some output' else rest

  -- The value falls with each turn, so one more turn than the value is enough.
  unfoldable pub encode_mqtt_remaining_length : ℕ → List ℕ → ℕ → Option (List ℕ)
  encode_mqtt_remaining_length cap output value = encode_remaining (suc value) cap output value

  -- `value.len()` counts the bytes.
  unfoldable pub encode_mqtt_utf8 : ℕ → List ℕ → Text → Option (List ℕ)
  encode_mqtt_utf8 cap output value =
      let len = length (as_bytes value) in
      let written = vec.extend cap output (be_bytes len) >>= λ output'.
      vec.extend cap output' (as_bytes value) in
      if ltb 65535 len then none else written

  -- A packet is its first byte, the length of the rest, and the rest.
  unfoldable pub build_packet : ℕ → ℕ → List ℕ → Option (List ℕ)
  build_packet cap header body = do
    packet ← vec.extend cap [] (header ∷ [])
    packet' ← encode_mqtt_remaining_length cap packet (length body)
    vec.extend cap packet' body

  -- `if !value.is_empty() { encode_mqtt_utf8(output, value)?; }`
  abbrev pub encode_unless_empty : ℕ → List ℕ → Text → Option (List ℕ)
  encode_unless_empty cap output value =
      if is_empty value then some output else encode_mqtt_utf8 cap output value

  unfoldable pub connect_body : MqttTaskConfig → Option (List ℕ)
  connect_body config = do
    protocol ← encode_mqtt_utf8 512 [] (codes "MQTT")
    level ← vec.extend 512 protocol (0x04 ∷ [])
    flags ← vec.extend 512 level (connect_flags config ∷ [])
    keepalive ← vec.extend 512 flags (be_bytes mqtt_keepalive_secs)
    client ← encode_mqtt_utf8 512 keepalive config.node_id
    user ← encode_unless_empty 512 client config.username
    encode_unless_empty 512 user config.password

  unfoldable pub build_mqtt_connect_packet : MqttTaskConfig → Option (List ℕ)
  build_mqtt_connect_packet config = connect_body config >>= build_packet 512 0x10

  unfoldable pub subscribe_body : Text → Option (List ℕ)
  subscribe_body topic = do
    id ← vec.extend 256 [] (be_bytes mqtt_packet_id_subscribe)
    filter ← encode_mqtt_utf8 256 id topic
    vec.extend 256 filter (0x00 ∷ [])

  unfoldable pub publish_body : Text → Text → Option (List ℕ)
  publish_body topic payload = do
    head ← encode_mqtt_utf8 768 [] topic
    vec.extend 768 head (as_bytes payload)

  unfoldable pub build_mqtt_publish_packet : Text → Text → Bool → Option (List ℕ)
  build_mqtt_publish_packet topic payload retain =
      publish_body topic payload >>= build_packet 768 (if retain then 0x31 else 0x30)

  unfoldable pub build_mqtt_subscribe_packet : FixedString → MqttTaskConfig → Option (List ℕ)
  build_mqtt_subscribe_packet str config = do
    topic ← subscribe_topic str config
    body ← subscribe_body topic
    build_packet 256 0x82 body

abbrev pub build_mqtt_pingreq_packet : List ℕ
build_mqtt_pingreq_packet = 0xC0 ∷ 0x00 ∷ []

unfoldable pub mqtt_is_pingresp_packet : List ℕ → Bool
unfolding text_eq
mqtt_is_pingresp_packet packet = text_eq packet (0xD0 ∷ 0x00 ∷ [])

-- `checked_add(..).ok_or(())?` and `checked_mul(..).ok_or(())?`
unfoldable pub checked : ℕ → Option ℕ
checked n = if ltb n (2 ^ 32) then some n else none

-- The loop over the bytes from `index` on. The outer `none` is an error, the inner one a packet that
-- is not there yet; a length is given with the index behind it.
unfoldable pub read_length : List ℕ → ℕ → ℕ → ℕ → Option (Option (ℕ × ℕ))
read_length [] multiplier value index = some none
read_length (encoded ∷ rest) multiplier value index = do
  part ← checked (encoded % 128 * multiplier)
  value' ← checked (value + part)
  let more = checked (multiplier * 128) >>= λ next.
      let later = read_length rest next value' (index + 1) in
      if ltb (128 * 128 * 128) next then none else later
  if ltb encoded 128 then some (some (index + 1, value')) else more

-- The whole length, for a buffer that holds as much.
unfoldable pub total_length : List ℕ → Option (ℕ × ℕ) → Option (Option ℕ)
total_length buffer none = some none
total_length buffer (some (index, value)) = do
  total ← checked (index + value)
  some (if ltb (length buffer) total then none else some total)

unfoldable pub mqtt_packet_length : List ℕ → Option (Option ℕ)
mqtt_packet_length buffer =
    if ltb (length buffer) 2
    then some none
    else (read_length (drop 1 buffer) 1 0 1 >>= total_length buffer)

-- `.ok().flatten()?`
abbrev pub flatten : Option (Option ℕ) → Option ℕ
flatten none = none
flatten (some o) = o

-- The packet taken, if any, and the buffer afterwards.
unfoldable pub take_front : List ℕ → Option ℕ → Option (List ℕ) × List ℕ
take_front buffer none = (none, buffer)
take_front buffer (some packet_len) =
    if ltb 1024 packet_len
    then (none, buffer)
    else (some (take packet_len buffer), drop packet_len buffer)

unfoldable pub take_mqtt_packet : List ℕ → Option (List ℕ) × List ℕ
take_mqtt_packet buffer = take_front buffer (flatten (mqtt_packet_length buffer))

-- One turn of `while let Some(packet) = take_mqtt_packet(&mut inbound)`: what was taken, the buffer
-- then, and what the later turns give.
unfoldable pub keep_taking :
    Option (List ℕ) → List ℕ → List (List ℕ) × List ℕ → List (List ℕ) × List ℕ
keep_taking none inbound later = ([], inbound)
keep_taking (some packet) inbound later = (packet ∷ later.0, later.1)

-- The packets of the loop, and what is left.
unfoldable pub take_packets : ℕ → List ℕ → List (List ℕ) × List ℕ
take_packets zero inbound = ([], inbound)
take_packets (suc fuel) inbound =
    keep_taking (take_mqtt_packet inbound).0 (take_mqtt_packet inbound).1
      (take_packets fuel (take_mqtt_packet inbound).1)

-- What `mqtt_wait_for_packet` ends with. It still waits when the reads given have run out.
pub data Waited : Type 0 where
  received : List ℕ → Waited
  failed waiting : Waited

-- A packet that was taken ends the waiting.
unfoldable pub or_wait : Option (List ℕ) → List ℕ → Waited × List ℕ → Waited × List ℕ
or_wait none inbound later = later
or_wait (some packet) inbound later = (received packet, inbound)

abbrev pub is_connack : List ℕ → Bool
is_connack packet = leb 4 (length packet) && get_or packet 0 0 / 16 == 2 && get_or packet 3 0 == 0

abbrev pub connack_of : Waited × List ℕ → Waited × List ℕ
connack_of (received packet, inbound) =
    (if is_connack packet then received packet else failed, inbound)
connack_of (failed, inbound) = (failed, inbound)
connack_of (waiting, inbound) = (waiting, inbound)

module _ (vec : FixedVec) where
  -- One read, `none` for an error: an error, an empty read and an overflow are failures.
  abbrev pub grown : List ℕ → Option (List ℕ) → Option (List ℕ)
  grown inbound none = none
  grown inbound (some []) = none
  grown inbound (some (byte ∷ bytes)) = vec.extend 2048 inbound (byte ∷ bytes)

  -- The results of the reads, one after the other; with the buffer afterwards.
  unfoldable pub mqtt_wait_for_packet : List ℕ → List (Option (List ℕ)) → Waited × List ℕ
  mqtt_wait_for_packet inbound [] =
      or_wait (take_mqtt_packet inbound).0 (take_mqtt_packet inbound).1 (waiting, inbound)
  mqtt_wait_for_packet inbound (read ∷ reads) =
      let later : Waited × List ℕ = elim (grown inbound read) [
        | none ↦ (failed, inbound)
        | some inbound' ↦ mqtt_wait_for_packet inbound' reads
      ] in
      or_wait (take_mqtt_packet inbound).0 (take_mqtt_packet inbound).1 later

  -- Whether the broker accepts the connection.
  unfoldable pub mqtt_wait_for_connack : List ℕ → List (Option (List ℕ)) → Waited × List ℕ
  mqtt_wait_for_connack inbound reads = connack_of (mqtt_wait_for_packet inbound reads)
