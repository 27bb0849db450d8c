-- ===== src/Ble/Examples.antt =====
-- Runs of the BLE tables and readers, and their theorems at concrete inputs.
use esp_wave_rider.Base.{zero, suc, ◌≡◌, refl, true, List, [], ◌∷◌, ◌++◌, arith}
use esp_wave_rider.Base.Int.{neg}
use esp_wave_rider.Text.{codes, text_eq}
use esp_wave_rider.Text.Utf8.{from_utf8}
use esp_wave_rider.Ble.{
  BleBeaconSightingState, BleIdentityTagState, new_sighting, record_ble_advertisement, choose_slot,
  find_slot, holds_address, oldest_index, oldest_from, normalize_ble_identity_value,
  iter_ad_structures, ad_structures, extract_ble_local_name, local_name_loop,
  extract_ble_service_uuid, service_uuid_loop, service_uuid_of, format_uuid128, hex_down,
  format_hex,
}
use esp_wave_rider.Ble.Sightings.{IsUnique, record-IsUnique}
use esp_wave_rider.Ble.Tags.{Matches}
use esp_wave_rider.Ble.Advertising.{structures_bytes, iter_ad_structures_bytes}

abbrev first_beacon : BleBeaconSightingState
first_beacon = new_sighting (codes "first") [] [] (neg 50) 100

abbrev second_beacon : BleBeaconSightingState
second_beacon = new_sighting (codes "second") [] [] (neg 60) 200

abbrev two_beacons : List BleBeaconSightingState
two_beacons = first_beacon ∷ second_beacon ∷ []

reuses_oldest :
    (record_ble_advertisement two_beacons []
      (codes "third")
      (codes "Beacon")
      (codes "180f")
      (neg 42)
      500).0
    ≡ new_sighting (codes "third") (codes "Beacon") (codes "180f") (neg 42) 500 ∷ second_beacon ∷ []
unfolding record_ble_advertisement choose_slot find_slot holds_address oldest_index oldest_from
    text_eq
reuses_oldest = refl

two_beacons-IsUnique : IsUnique two_beacons
two_beacons-IsUnique zero zero s t at_i at_j u v e = refl
two_beacons-IsUnique zero (suc zero) s t at_i at_j u v e = absurd (ground arith)
two_beacons-IsUnique zero (suc (suc j)) s t at_i at_j u v e = absurd (ground arith)
two_beacons-IsUnique (suc zero) zero s t at_i at_j u v e = absurd (ground arith)
two_beacons-IsUnique (suc zero) (suc zero) s t at_i at_j u v e = refl
two_beacons-IsUnique (suc zero) (suc (suc j)) s t at_i at_j u v e = absurd (ground arith)
two_beacons-IsUnique (suc (suc i)) j s t at_i at_j u v e = absurd (ground arith)

record-IsUnique_example :
    IsUnique (record_ble_advertisement two_beacons [] (codes "second") [] [] (neg 42) 500).0
record-IsUnique_example =
    record-IsUnique two_beacons [] (codes "second") [] [] (neg 42) 500 two_beacons-IsUnique

abbrev phone : BleIdentityTagState
phone = record {
  occupied = true;
  label = codes "phone";
  address = codes "aabbccddeeff";
  min_rssi = neg 88;
  last_rssi = neg 127;
  last_seen_ms = 0;
}

normalizes : normalize_ble_identity_value (codes "AA:BB-cc 11") ≡ codes "aabbcc11"
unfolding normalize_ble_identity_value
normalizes = refl

phone-Matches : Matches phone (codes "aabbccddeeff") (neg 67)
phone-Matches = record { in_use = refl; same_address = refl; strong = omega arith }

iter_ad_structures_bytes_example :
    iter_ad_structures (structures_bytes ((1, 6 ∷ []) ∷ (9, codes "Tes") ∷ []) ++ 0 ∷ 0 ∷ [])
    ≡ (1, 6 ∷ []) ∷ (9, codes "Tes") ∷ []
iter_ad_structures_bytes_example =
    iter_ad_structures_bytes ((1, 6 ∷ []) ∷ (9, codes "Tes") ∷ []) (0 ∷ 0 ∷ []) refl

prefers_scan_response :
    extract_ble_local_name (2 ∷ 1 ∷ 6 ∷ 4 ∷ 8 ∷ codes "Tes") (5 ∷ 9 ∷ codes "Test") ≡ codes "Test"
unfolding extract_ble_local_name iter_ad_structures ad_structures local_name_loop from_utf8
prefers_scan_response = refl

reads_uuid128 :
    extract_ble_service_uuid
      (17 ∷ 7 ∷ 0xfb ∷ 0x34 ∷ 0x9b ∷ 0x5f ∷ 0x80 ∷ 0 ∷ 0 ∷ 0x80 ∷ 0 ∷ 0x10 ∷ 0 ∷ 0 ∷ 0x0d ∷ 0x18 ∷ 0
        ∷ 0 ∷ [])
      []
    ≡ codes "0000180d-0000-1000-8000-00805f9b34fb"
unfolding extract_ble_service_uuid iter_ad_structures ad_structures service_uuid_loop
    service_uuid_of format_uuid128 hex_down format_hex
reads_uuid128 = refl
