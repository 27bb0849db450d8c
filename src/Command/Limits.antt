-- ===== src/Command/Limits.antt =====
-- What a payload that parses can hold.
use esp_wave_rider.Base.{
  ℕ, zero, suc, ◌^◌, ◌%◌, ◌≤◌, ◌<◌, ◌≡◌, refl, ap, ◌∙◌, subst, Bool, true, false, Option, none,
  some, List, [], ◌∷◌, if◌then◌else◌, arith, Bool-cases, inl, inr, length,
}
use esp_wave_rider.Base.Int.{ℤ, pos, negsuc, neg, ◌≤ℤ◌, ltb_ℤ, leb_ℤ, clamp_ℤ, clamp_ℤ-bounds}
use esp_wave_rider.Text.{Text, is_empty}
use esp_wave_rider.Text.Number.{parse_u8, parse_u16, parse_unsigned-le}
use native.Mathlib.Nat.{mod-eq_of_lt}
use esp_wave_rider.Command.Outcome.{
  Outcome, ok, payload_error, or_error, ◌>>=◌, >>=-eq_ok, or_error-eq_ok, ok-injective,
}
use esp_wave_rider.Command.Fields.{
  split_fields, field, parse_i32_or_default, cast_unsigned, optional_port, parse_optional_port,
  parse_port_or_default, parse_min_rssi,
}
use esp_wave_rider.Command.Payloads.{
  HomeAssistantConfigPayload, parse_home_assistant_config_payload, BleTagConfigPayload,
  parse_ble_tag_config_payload,
}
use esp_wave_rider.Command.Join.{join, split_fields-parts}
use esp_wave_rider.Command.Tuning.{
  TuningConfigPayload, tuning_settings, parse_tuning_config_payload,
}

-- The limits of the settings.
pub record IsWithinLimits (t : TuningConfigPayload) : Type 0 where
  pub max_detection_range_cm : (1 ≤ t.max_detection_range_cm) × (t.max_detection_range_cm ≤ 65535)
  pub min_gate_energy : (1 ≤ t.min_gate_energy) × (t.min_gate_energy ≤ 65535)
  pub sensitivity_percent : (10 ≤ t.sensitivity_percent) × (t.sensitivity_percent ≤ 100)
  pub presence_hold_ms : (3000 ≤ t.presence_hold_ms) × (t.presence_hold_ms ≤ 60000)
  pub min_active_gates : (1 ≤ t.min_active_gates) × (t.min_active_gates ≤ 16)
  pub min_activity_score : (1 ≤ t.min_activity_score) × (t.min_activity_score ≤ 100)
  pub led_brightness : (1 ≤ t.led_brightness) × (t.led_brightness ≤ 255)

-- A clamped value keeps its limits through a cast that they fit.
cast-clamp :
    (width : ℕ) (value : ℤ) (lo hi : ℕ)
    → lo ≤ hi
    → hi < 2 ^ width
    → (lo ≤ cast_unsigned width (clamp_ℤ value (pos lo) (pos hi)))
      × (cast_unsigned width (clamp_ℤ value (pos lo) (pos hi)) ≤ hi)
cast-clamp width value lo hi le fits =
    go (clamp_ℤ value (pos lo) (pos hi)) (clamp_ℤ-bounds value (pos lo) (pos hi) (omega arith))
  where
    go :
        (v : ℤ)
        → (pos lo ≤ℤ v) × (v ≤ℤ pos hi)
        → (lo ≤ cast_unsigned width v) × (cast_unsigned width v ≤ hi)
    go (pos n) (a, b) =
        let whole : n % 2 ^ width ≡ n = mod-eq_of_lt (omega arith) in
        (omega (arith, whole), omega (arith, whole))
    go (negsuc n) (a, b) = absurd (omega arith)

in_branches :
    (test : Bool) (a b lo hi : ℕ)
    → (lo ≤ a) × (a ≤ hi)
    → (lo ≤ b) × (b ≤ hi)
    → (lo ≤ (if test then a else b)) × ((if test then a else b) ≤ hi)
in_branches true a b lo hi h k = h
in_branches false a b lo hi h k = k

settings-IsWithinLimits :
    (a b c d e f : ℤ) (on : Bool) (g : ℤ) → IsWithinLimits (tuning_settings a b c d e f on g)
unfolding tuning_settings
settings-IsWithinLimits a b c d e f on g = record {
  max_detection_range_cm =
      in_branches (ltb_ℤ (pos 0) a) _ 1120 1 65535
        (cast-clamp 16 a 1 65535 (omega arith) (omega arith)) (omega arith);
  min_gate_energy =
      in_branches (ltb_ℤ (pos 0) b) _ 25 1 65535
        (cast-clamp 16 b 1 65535 (omega arith) (omega arith)) (omega arith);
  sensitivity_percent = cast-clamp 8 _ 10 100 (omega arith) (omega arith);
  presence_hold_ms =
      in_branches (leb_ℤ (pos 0) d) _ 4000 3000 60000
        (cast-clamp 16 d 3000 60000 (omega arith) (omega arith)) (omega arith);
  min_active_gates = cast-clamp 8 _ 1 16 (omega arith) (omega arith);
  min_activity_score = cast-clamp 8 _ 1 100 (omega arith) (omega arith);
  led_brightness = cast-clamp 8 _ 1 255 (omega arith) (omega arith);
}

-- Whatever tuning payload parses, its settings are within the limits.
pub parse_tuning_config_payload-IsWithinLimits :
    (payload : Text) (t : TuningConfigPayload)
    → parse_tuning_config_payload payload ≡ ok t
    → IsWithinLimits t
unfolding parse_tuning_config_payload
parse_tuning_config_payload-IsWithinLimits payload t e =
    let (fields, e0, r0) = >>=-eq_ok (split_fields 8 payload) _ e in
    let (a, ea, ra) = >>=-eq_ok (parse_i32_or_default (field fields 0) (pos 0)) _ r0 in
    let (b, eb, rb) = >>=-eq_ok (parse_i32_or_default (field fields 1) (pos 0)) _ ra in
    let (c, ec, rc) = >>=-eq_ok (parse_i32_or_default (field fields 2) (pos 0)) _ rb in
    let (d, ed, rd) = >>=-eq_ok (parse_i32_or_default (field fields 3) (neg 1)) _ rc in
    let (g, eg, rg) = >>=-eq_ok (parse_i32_or_default (field fields 4) (pos 0)) _ rd in
    let (f, ef, rf) = >>=-eq_ok (parse_i32_or_default (field fields 5) (pos 0)) _ rg in
    let (h, eh, rh) = >>=-eq_ok (parse_i32_or_default (field fields 7) (pos 0)) _ rf in
    subst IsWithinLimits (ok-injective _ _ rh) (settings-IsWithinLimits a b c d g f _ h)

abbrev pub IsPort : ℕ → Type 0
IsPort p = (1 ≤ p) × (p ≤ 65535)

after_parse-IsPort :
    (o : Option ℕ) (message : Text) (p : ℕ)
    → ((n : ℕ) → o ≡ some n → n ≤ 65535)
    → (or_error o message >>= λ n. ok (optional_port n)) ≡ ok (some p)
    → IsPort p
unfolding optional_port
after_parse-IsPort none message p h e = ground arith
after_parse-IsPort (some n) message p h e = let le = h n refl in ground arith

pub parse_optional_port-IsPort :
    (value : Text) (p : ℕ) → parse_optional_port value ≡ ok (some p) → IsPort p
unfolding parse_optional_port
parse_optional_port-IsPort value p e = elim (Bool-cases (is_empty value)) [
  | inl missing ↦ absurd (ground arith)
  | inr given ↦
      after_parse-IsPort (parse_u16 value) _ p
        (λ n at. unfold parse_u16 in parse_unsigned-le 65535 value at) (rw given at e)
]

or_default :
    (o : Outcome (Option ℕ)) (p : ℕ)
    → ((q : ℕ) → o ≡ ok (some q) → IsPort q)
    → (o >>= λ port. ok (elim port [ none ↦ 1883 | some q ↦ q ])) ≡ ok p
    → IsPort p
or_default (ok none) p h e = ground arith
or_default (ok (some q)) p h e = let bounds = h q refl in ground arith
or_default (payload_error message) p h e = ground arith

parse_port_or_default-IsPort :
    (value : Text) (p : ℕ) → parse_port_or_default value 1883 ≡ ok p → IsPort p
unfolding parse_port_or_default
parse_port_or_default-IsPort value p e =
    or_default (parse_optional_port value) p (parse_optional_port-IsPort value) e

abbrev tabulate : ℕ → (ℕ → Text) → List Text
tabulate zero f = []
tabulate (suc n) f = f 0 ∷ tabulate n (λ i. f (suc i))

fields_listed : (fields : List Text) → fields ≡ tabulate (length fields) (field fields)
fields_listed [] = refl
fields_listed (s ∷ fields) = ap (λ l. s ∷ l) (fields_listed fields)

-- The fields that a payload of `n` fields is written with.
written :
    (n : ℕ) (payload : Text) (fields : List Text)
    → split_fields n payload ≡ ok fields
    → payload ≡ join (tabulate n (field fields))
written n payload fields e =
    let (count, clean, joined) = split_fields-parts n payload fields e in
    joined ∙ ap join (rw count at (fields_listed fields))

-- A connection payload that parses is the fields of its result, joined by bars, around a port
-- field that reads as the result's port, which is from 1 to 65535.
pub parse_home_assistant_config_payload-written :
    (payload : Text) (c : HomeAssistantConfigPayload)
    → parse_home_assistant_config_payload payload ≡ ok c
    → (port : Text) × (payload
        ≡ join (
            c.wifi_ssid ∷ c.wifi_password ∷ c.mqtt_host ∷ port ∷ c.mqtt_username ∷ c.mqtt_password
            ∷ c.node_id ∷ c.friendly_name ∷ []))
      × (parse_port_or_default port 1883 ≡ ok c.mqtt_port)
      × (1 ≤ c.mqtt_port)
      × (c.mqtt_port ≤ 65535)
unfolding parse_home_assistant_config_payload
parse_home_assistant_config_payload-written payload c e =
    let (fields, split_ok, r) = >>=-eq_ok (split_fields 8 payload) _ e in
    let (p, port_ok, built) = >>=-eq_ok (parse_port_or_default (field fields 3) 1883) _ r in
    let (lo, hi) = parse_port_or_default-IsPort (field fields 3) p port_ok in
    rw (← ok-injective _ c built)
      (field fields 3, written 8 payload fields split_ok, port_ok, lo, hi)

-- A tag payload that parses is its slot, label, address and signal, joined by bars; the slot is a
-- byte, and the least signal is between -120 and -20 whatever was asked for.
pub parse_ble_tag_config_payload-written :
    (payload : Text) (t : BleTagConfigPayload)
    → parse_ble_tag_config_payload payload ≡ ok t
    → (slot signal : Text) × (payload ≡ join (slot ∷ t.label ∷ t.address ∷ signal ∷ []))
      × (parse_u8 slot ≡ some t.slot)
      × (t.slot ≤ 255)
      × (neg 120 ≤ℤ t.min_rssi)
      × (t.min_rssi ≤ℤ neg 20)
unfolding parse_ble_tag_config_payload
parse_ble_tag_config_payload-written payload t e =
    let (fields, split_ok, r) = >>=-eq_ok (split_fields 4 payload) _ e in
    let (slot, slot_ok, r') = >>=-eq_ok (or_error (parse_u8 (field fields 0)) _) _ r in
    let (rssi, rssi_ok, built) = >>=-eq_ok (parse_min_rssi (field fields 3)) _ r' in
    let read = or_error-eq_ok (parse_u8 (field fields 0)) _ slot_ok in
    let (lo, hi) = clamp_ℤ-bounds rssi (neg 120) (neg 20) (omega arith) in
    let byte : slot ≤ 255 = unfold parse_u8 in parse_unsigned-le 255 (field fields 0) read in
    rw (← ok-injective _ t built)
      (field fields 0, field fields 3, written 4 payload fields split_ok, read, byte, lo, hi)
