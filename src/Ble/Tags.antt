-- ===== src/Ble/Tags.antt =====
-- Identity tags: how an advertisement refreshes them, and for how long they count as present.
use esp_wave_rider.Base.{
  ℕ, ◌+◌, ◌≤◌, ◌<◌, ◌≡◌, ◌≢◌, refl, true, false, List, [], ◌∷◌, length, All, leb, arith, map,
  Bool-cases, inl, inr, ◌⊎◌,
}
use esp_wave_rider.Base.Int.{ℤ, ltb_ℤ, ◌≤ℤ◌}
use esp_wave_rider.Text.{Text, text_eq}
use esp_wave_rider.Text.Laws.{text_eq→eq, text_eq_refl, is_empty_of_ne, is_empty_of_length}
use esp_wave_rider.Ble.{
  BleBeaconSightingState, BleIdentityTagState, normalize_ble_identity_value, refresh_tag,
  ble_identity_tag_present, clear_ble_identity_tag, record_ble_advertisement,
}

-- A tag that the advertisement is of: in use, the same address, and a signal that is strong enough.
pub record Matches (tag : BleIdentityTagState) (normalized : Text) (rssi : ℤ) : Type 0 where
  pub in_use : tag.occupied ≡ true
  pub same_address : tag.address ≡ normalized
  pub strong : tag.min_rssi ≤ℤ rssi

refresh_matching :
    (tag : BleIdentityTagState) (normalized : Text) (rssi : ℤ) (now_ms : ℕ)
    → Matches tag normalized rssi
    → refresh_tag normalized rssi now_ms tag
      ≡ record tag { last_rssi = rssi; last_seen_ms = now_ms }
unfolding refresh_tag
refresh_matching tag normalized rssi now_ms m =
    let same : text_eq tag.address normalized ≡ true =
      rw (m.same_address) (text_eq_refl normalized) in
    ground arith

-- An advertisement at a time that is not 0 and that matches a tag makes the tag present at the
-- times from then to 45 seconds later, and at no time after that.
pub refresh_tag_present :
    (tag : BleIdentityTagState) (normalized : Text) (rssi : ℤ) (now_ms uptime_ms : ℕ)
    → Matches tag normalized rssi
    → 0 < now_ms
    → now_ms ≤ uptime_ms
    → ble_identity_tag_present (refresh_tag normalized rssi now_ms tag) uptime_ms
      ≡ leb uptime_ms (now_ms + 45000)
unfolding ble_identity_tag_present
refresh_tag_present tag normalized rssi now_ms uptime_ms m positive later =
    let used = m.in_use in rw (refresh_matching tag normalized rssi now_ms m) (ground arith)

-- Any other tag is left as it was: one that is not in use, has another address, or wants a stronger
-- signal.
pub refresh_tag_untouched :
    (tag : BleIdentityTagState) (normalized : Text) (rssi : ℤ) (now_ms : ℕ)
    → (tag.occupied ≡ false) ⊎ (tag.address ≢ normalized) ⊎ (ltb_ℤ rssi tag.min_rssi ≡ true)
    → refresh_tag normalized rssi now_ms tag ≡ tag
unfolding refresh_tag
refresh_tag_untouched tag normalized rssi now_ms (inl unused) = ground arith
refresh_tag_untouched tag normalized rssi now_ms (inr (inl other)) =
    elim (Bool-cases (text_eq tag.address normalized)) [
      | inl same ↦ absurd (other (text_eq→eq tag.address normalized same))
      | inr differs ↦ ground arith
    ]
refresh_tag_untouched tag normalized rssi now_ms (inr (inr weak)) = ground arith

recorded_tags :
    (ss : List BleBeaconSightingState) (tags : List BleIdentityTagState)
    (address name service_uuid : Text) (rssi : ℤ) (now_ms : ℕ)
    → address ≢ []
    → 0 < length ss
    → (record_ble_advertisement ss tags address name service_uuid rssi now_ms).1
      ≡ map (refresh_tag (normalize_ble_identity_value address) rssi now_ms) tags
unfolding record_ble_advertisement
recorded_tags ss tags address name service_uuid rssi now_ms named slots =
    rw (is_empty_of_ne address named, is_empty_of_length ss slots)

-- A cleared tag is present at no time, and no advertisement refreshes it.
pub clear_ble_identity_tag_absent :
    (tag : BleIdentityTagState) (uptime_ms now_ms : ℕ) (normalized : Text) (rssi : ℤ)
    → (ble_identity_tag_present (clear_ble_identity_tag tag) uptime_ms ≡ false)
      × (refresh_tag normalized rssi now_ms (clear_ble_identity_tag tag)
          ≡ clear_ble_identity_tag tag)
unfolding ble_identity_tag_present clear_ble_identity_tag refresh_tag
clear_ble_identity_tag_absent tag uptime now normalized rssi = (refl, refl)

-- The digits 0 to 9 and a to f.
abbrev pub IsHexLower : ℕ → Type 0
IsHexLower c = ((b'0' ≤ c) × (c ≤ b'9')) ⊎ ((b'a' ≤ c) × (c ≤ b'f'))

normalize-IsHexLower : (s : Text) → All IsHexLower (normalize_ble_identity_value s)
unfolding normalize_ble_identity_value
normalize-IsHexLower [] = tt
normalize-IsHexLower (c ∷ s) = ground (arith, normalize-IsHexLower s)

normalize_fixed : (s : Text) → All IsHexLower s → normalize_ble_identity_value s ≡ s
unfolding normalize_ble_identity_value
normalize_fixed [] h = refl
normalize_fixed (c ∷ s) (hc, hs) = ground (arith, normalize_fixed s hs)

-- Normalising leaves lower-case hexadecimal digits only, and normalising again changes nothing.
pub normalize_ble_identity_value_canonical :
    (s : Text)
    → All IsHexLower (normalize_ble_identity_value s)
      × (normalize_ble_identity_value (normalize_ble_identity_value s)
          ≡ normalize_ble_identity_value s)
normalize_ble_identity_value_canonical s = (
  normalize-IsHexLower s,
  normalize_fixed (normalize_ble_identity_value s) (normalize-IsHexLower s),
)
