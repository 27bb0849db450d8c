-- ===== src/Ble.antt =====
-- rust/crates/espwaverider-core/src/ble.rs: the table of beacon sightings, the identity tags, and the
-- advertising data. Times are `u32` milliseconds; `saturating_sub` is the subtraction of ℕ.
pub mod Slots
pub mod Sightings
pub mod Tags
pub mod Advertising
mod Examples
use esp_wave_rider.Base.{
  ℕ, zero, suc, ◌+◌, ◌-◌, ◌*◌, ◌/◌, ◌%◌, Bool, true, false, not, ◌&&◌, ◌||◌, Option, none, some,
  List, [], ◌∷◌, ◌++◌, length, get_or, set, take, drop, ltb, leb, ◌==◌, if◌then◌else◌, map,
}
use esp_wave_rider.Base.Int.{ℤ, pos, negsuc, neg, ltb_ℤ}
use esp_wave_rider.Text.{Text, codes, is_empty, is_some, text_eq}
use esp_wave_rider.Text.Utf8.{from_utf8}

abbrev pub sighting_freshness_ms : ℕ
sighting_freshness_ms = 30000

abbrev pub tag_freshness_ms : ℕ
tag_freshness_ms = 45000

abbrev pub tag_default_min_rssi : ℤ
tag_default_min_rssi = neg 88

pub record BleBeaconSightingState : Type 0 where
  pub occupied : Bool
  pub address : Text
  pub name : Text
  pub service_uuid : Text
  pub rssi : ℤ
  pub last_seen_ms : ℕ

pub record BleIdentityTagState : Type 0 where
  pub occupied : Bool
  pub label : Text
  pub address : Text
  pub min_rssi : ℤ
  pub last_rssi : ℤ
  pub last_seen_ms : ℕ

unfoldable pub clear_ble_identity_tag : BleIdentityTagState → BleIdentityTagState
clear_ble_identity_tag tag = record {
  occupied = false;
  label = [];
  address = [];
  min_rssi = tag_default_min_rssi;
  last_rssi = neg 127;
  last_seen_ms = 0;
}

unfoldable pub ble_identity_tag_present : BleIdentityTagState → ℕ → Bool
ble_identity_tag_present tag uptime_ms =
    tag.occupied && ltb 0 tag.last_seen_ms && leb (uptime_ms - tag.last_seen_ms) tag_freshness_ms

unfoldable pub ble_beacon_sighting_active : BleBeaconSightingState → ℕ → Bool
ble_beacon_sighting_active sighting uptime_ms =
    sighting.occupied && leb (uptime_ms - sighting.last_seen_ms) sighting_freshness_ms

-- Hexadecimal digits, in lower case; everything else goes.
unfoldable pub normalize_ble_identity_value : Text → Text
normalize_ble_identity_value [] = []
normalize_ble_identity_value (c ∷ s) =
    let rest = normalize_ble_identity_value s in
    if leb b'A' c && leb c b'F'
    then (c - b'A' + b'a') ∷ rest
    else if (leb b'a' c && leb c b'f') || (leb b'0' c && leb c b'9')
    then c ∷ rest
    else rest

unfoldable pub holds_address : Text → BleBeaconSightingState → Bool
holds_address address sighting = sighting.occupied && text_eq sighting.address address

-- The first loop, from index `index` on: an occupied slot with the address ends it; the first free
-- slot is remembered.
unfoldable pub find_slot : Text → List BleBeaconSightingState → ℕ → Option ℕ → Option ℕ
find_slot address [] index slot = slot
find_slot address (sighting ∷ sightings) index slot =
    let rest =
      find_slot address sightings (index + 1)
        (if not sighting.occupied && not (is_some slot) then some index else slot) in
    if holds_address address sighting then some index else rest

-- `min_by_key` on the last sighting: the first of the oldest.
unfoldable pub oldest_from : List BleBeaconSightingState → ℕ → ℕ → ℕ → ℕ
oldest_from [] index best best_ms = best
oldest_from (sighting ∷ sightings) index best best_ms =
    oldest_from sightings (index + 1) (if ltb sighting.last_seen_ms best_ms then index else best)
      (if ltb sighting.last_seen_ms best_ms then sighting.last_seen_ms else best_ms)

unfoldable pub oldest_index : List BleBeaconSightingState → ℕ
oldest_index [] = 0
oldest_index (sighting ∷ sightings) = oldest_from sightings 1 0 sighting.last_seen_ms

unfoldable pub choose_slot : Text → List BleBeaconSightingState → ℕ
choose_slot address sightings = elim (find_slot address sightings 0 none) [
  | some slot ↦ slot
  | none ↦ oldest_index sightings
]

unfoldable pub refresh_tag : Text → ℤ → ℕ → BleIdentityTagState → BleIdentityTagState
refresh_tag normalized_address rssi now_ms tag =
    if not tag.occupied || not (text_eq tag.address normalized_address) || ltb_ℤ rssi tag.min_rssi
    then tag
    else record tag { last_rssi = rssi; last_seen_ms = now_ms }

-- The sighting that an advertisement leaves in its slot.
abbrev pub new_sighting : Text → Text → Text → ℤ → ℕ → BleBeaconSightingState
new_sighting address name service_uuid rssi now_ms = record {
  occupied = true;
  address = address;
  name = name;
  service_uuid = service_uuid;
  rssi = rssi;
  last_seen_ms = now_ms;
}

unfoldable pub record_ble_advertisement :
    List BleBeaconSightingState
    → List BleIdentityTagState
    → Text
    → Text
    → Text
    → ℤ
    → ℕ
    → List BleBeaconSightingState × List BleIdentityTagState
record_ble_advertisement sightings tags address name service_uuid rssi now_ms =
    if is_empty address || is_empty sightings then (sightings, tags) else (
      set sightings (choose_slot address sightings)
          (new_sighting address name service_uuid rssi now_ms),
      map (refresh_tag (normalize_ble_identity_value address) rssi now_ms) tags,
    )

-- The structures of an advertising payload: a length byte, a kind, and the data. A length of zero
-- or one that runs past the end stops the iteration. A structure takes two bytes at least, so fuel
-- for the bytes is enough.
unfoldable pub ad_structures : ℕ → List ℕ → List (ℕ × List ℕ)
ad_structures zero payload = []
ad_structures (suc fuel) [] = []
ad_structures (suc fuel) (len ∷ rest) =
    let later = ad_structures fuel (drop len rest) in
    if len == 0
    then []
    else if ltb (length rest) len
    then []
    else elim (take len rest) [ [] ↦ [] | kind ∷ bytes ↦ (kind, bytes) ∷ later ]

unfoldable pub iter_ad_structures : List ℕ → List (ℕ × List ℕ)
iter_ad_structures payload = ad_structures (length payload) payload

abbrev pub text_or : Text → Option Text → Text
text_or default none = default
text_or default (some s) = s

-- The loops of `extract_ble_local_name`, over the structures of both payloads: a complete name ends
-- them, the first shortened name is remembered.
unfoldable pub local_name_loop : List (ℕ × List ℕ) → Option Text → Text
local_name_loop [] shortened = text_or [] shortened
local_name_loop ((kind, bytes) ∷ structures) shortened =
    let name = from_utf8 bytes in
    let rest =
      local_name_loop structures
        (if kind == 0x08 && not (is_some shortened) then name else shortened) in
    if kind == 0x09 && is_some name then text_or [] name else rest

unfoldable pub extract_ble_local_name : List ℕ → List ℕ → Text
extract_ble_local_name adv scan =
    local_name_loop (iter_ad_structures scan ++ iter_ad_structures adv) none

abbrev pub hex_digit_lower : ℕ → ℕ
hex_digit_lower n = get_or (codes "0123456789abcdef") n 0

-- `{value:0Wx}` for a value below 16 ^ W.
unfoldable pub format_hex : ℕ → ℕ → Text
format_hex zero value = []
format_hex (suc width) value = format_hex width (value / 16) ++ hex_digit_lower (value % 16) ∷ []

-- The bytes `from`, `from - 1`, … of the data, `count` of them.
unfoldable pub hex_down : List ℕ → ℕ → ℕ → Text
hex_down bytes zero from = []
hex_down bytes (suc count) from =
    format_hex 2 (get_or bytes from 0) ++ hex_down bytes count (from - 1)

unfoldable pub format_uuid128 : List ℕ → Text
format_uuid128 bytes =
    if ltb (length bytes) 16
    then []
    else hex_down bytes 4 15
      ++ (b'-' ∷ hex_down bytes 2 11)
      ++ (b'-' ∷ hex_down bytes 2 9)
      ++ (b'-' ∷ hex_down bytes 2 7)
      ++ (b'-' ∷ hex_down bytes 6 5)

-- The identifier that one structure carries, if any: 128, 32 or 16 bits, low byte first.
unfoldable pub service_uuid_of : ℕ → List ℕ → Option Text
service_uuid_of kind bytes =
    if (kind == 0x07 || kind == 0x06) && leb 16 (length bytes)
    then some (format_uuid128 (take 16 bytes))
    else if (kind == 0x05 || kind == 0x04) && leb 4 (length bytes)
    then some (
        format_hex 8 (
          get_or bytes 0 0
          + get_or bytes 1 0 * 256
          + get_or bytes 2 0 * 65536
          + get_or bytes 3 0 * 16777216))
    else if (kind == 0x03 || kind == 0x02) && leb 2 (length bytes)
    then some (format_hex 4 (get_or bytes 0 0 + get_or bytes 1 0 * 256))
    else none

unfoldable pub service_uuid_loop : List (ℕ × List ℕ) → Text
service_uuid_loop [] = []
service_uuid_loop ((kind, bytes) ∷ structures) = elim (service_uuid_of kind bytes) [
  | some uuid ↦ uuid
  | none ↦ service_uuid_loop structures
]

unfoldable pub extract_ble_service_uuid : List ℕ → List ℕ → Text
extract_ble_service_uuid adv scan =
    service_uuid_loop (iter_ad_structures adv ++ iter_ad_structures scan)
