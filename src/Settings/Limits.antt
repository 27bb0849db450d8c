-- ===== src/Settings/Limits.antt =====
-- The limits of the settings and of the tags, which every `apply_*` method keeps.
use esp_wave_rider.Base.{
  ℕ, zero, suc, ◌^◌, ◌≤◌, ◌<◌, ◌≡◌, refl, sym, ap, ◌∙◌, subst, true, false, not, ◌&&◌, Option, none,
  some, List, [], ◌∷◌, get_elem?, set, All, arith, Bool-cases, inl, inr, some-injective,
}
use esp_wave_rider.Base.Int.{neg, ◌≤ℤ◌, clamp_ℤ-bounds}
use esp_wave_rider.Text.{Text, codes, is_empty, starts_with, strip_prefix}
use esp_wave_rider.Ble.{BleIdentityTagState, clear_ble_identity_tag, normalize_ble_identity_value}
use esp_wave_rider.Command.Payloads.{
  HomeAssistantConfigPayload, HomeAssistantWebSocketConfigPayload, HomeAssistantMqttEndpointPayload,
  RoomConfigPayload, BleTagConfigPayload,
}
use esp_wave_rider.Command.Tuning.{TuningConfigPayload}
use esp_wave_rider.Command.Limits.{IsPort}
use esp_wave_rider.Detection.{DetectionState}
use esp_wave_rider.Settings.{
  Connection, next_generation, mark_wifi_disconnected, home_assistant_configured,
  normalize_websocket_path, default_node_id, apply_room_config, with_connection, restart_wifi,
  apply_home_assistant_config, apply_home_assistant_websocket_config,
  apply_home_assistant_mqtt_endpoint, or_old,
}
use esp_wave_rider.Settings.Tags.{configured_tag, change_tag, put_tag}

-- The tuning fields of the state, as the payload that would set them.
abbrev pub tuning_of : DetectionState → TuningConfigPayload
tuning_of s = record {
  max_detection_range_cm = s.max_detection_range_cm;
  min_gate_energy = s.min_gate_energy;
  sensitivity_percent = s.sensitivity_percent;
  presence_hold_ms = s.presence_hold_ms;
  min_active_gates = s.min_active_gates;
  min_activity_score = s.min_activity_score;
  led_enabled = s.led_enabled;
  led_brightness = s.led_brightness;
}

pub record IsConnection (c : Connection) : Type 0 where
  pub port : IsPort c.mqtt_port
  pub path : starts_with c.mqtt_websocket_path (codes "/") ≡ true
  pub named : is_empty c.node_id ≡ false
  pub generation : (1 ≤ c.mqtt_runtime_generation) × (c.mqtt_runtime_generation < 2 ^ 32)

-- A tag in use has a label and an address, and a signal limit in range.
pub record IsTag (tag : BleIdentityTagState) : Type 0 where
  pub labelled : tag.occupied ≡ true → is_empty tag.label ≡ false
  pub addressed : tag.occupied ≡ true → is_empty tag.address ≡ false
  pub weakest : neg 120 ≤ℤ tag.min_rssi
  pub strongest : tag.min_rssi ≤ℤ neg 20

next_generation-IsGeneration : (g : ℕ) → (1 ≤ next_generation g) × (next_generation g < 2 ^ 32)
unfolding next_generation
next_generation-IsGeneration g = (omega arith, omega arith)

starts_with_slash : (s : Text) → starts_with (b'/' ∷ s) (codes "/") ≡ true
unfolding starts_with strip_prefix
starts_with_slash [] = refl
starts_with_slash (c ∷ s) = refl

normalize_websocket_path-slash :
    (path : Text) → starts_with (normalize_websocket_path path) (codes "/") ≡ true
unfolding normalize_websocket_path
normalize_websocket_path-slash path = elim (Bool-cases (is_empty path)) [
  | inl missing ↦ rw missing (starts_with_slash (codes "mqtt"))
  | inr given ↦ elim (Bool-cases (starts_with path (codes "/"))) [
    | inl absolute ↦ rw (given, absolute) absolute
    | inr relative ↦ rw (given, relative) (starts_with_slash path)
  ]
]

pub apply_room_config-IsConnection :
    (c : Connection) (p : RoomConfigPayload) → IsConnection c → IsConnection (apply_room_config c p)
unfolding apply_room_config
apply_room_config-IsConnection c p h = record {
  port = h.port;
  path = h.path;
  named = h.named;
  generation = next_generation-IsGeneration c.mqtt_runtime_generation;
}

pub apply_home_assistant_websocket_config-IsConnection :
    (c : Connection) (p : HomeAssistantWebSocketConfigPayload)
    → IsConnection c
    → IsConnection (apply_home_assistant_websocket_config c p)
unfolding apply_home_assistant_websocket_config
apply_home_assistant_websocket_config-IsConnection c p h = record {
  port = h.port;
  path = elim (Bool-cases (is_empty p.path)) [
    | inl missing ↦ rw missing (starts_with_slash (codes "mqtt"))
    | inr given ↦ rw given (normalize_websocket_path-slash p.path)
  ];
  named = h.named;
  generation = next_generation-IsGeneration c.mqtt_runtime_generation;
}

or_old-IsPort :
    (o : Option ℕ) (old : ℕ)
    → ((q : ℕ) → o ≡ some q → IsPort q)
    → IsPort old
    → IsPort (or_old o old)
or_old-IsPort none old h p = p
or_old-IsPort (some q) old h p = h q refl

pub apply_home_assistant_mqtt_endpoint-IsConnection :
    (c : Connection) (p : HomeAssistantMqttEndpointPayload)
    → ((q : ℕ) → p.mqtt_port ≡ some q → IsPort q)
    → IsConnection c
    → IsConnection (apply_home_assistant_mqtt_endpoint c p)
unfolding apply_home_assistant_mqtt_endpoint
apply_home_assistant_mqtt_endpoint-IsConnection c p ports h = record {
  port = or_old-IsPort p.mqtt_port c.mqtt_port ports h.port;
  path = elim (Bool-cases (is_empty p.websocket_path)) [
    | inl missing ↦ rw missing h.path
    | inr given ↦ rw given (normalize_websocket_path-slash p.websocket_path)
  ];
  named = h.named;
  generation = next_generation-IsGeneration c.mqtt_runtime_generation;
}

-- The configured port, path and name come through the restart of Wi-Fi.
restart_wifi_keeps :
    (c : Connection)
    → ((restart_wifi c).mqtt_port ≡ c.mqtt_port)
      × ((restart_wifi c).mqtt_websocket_path ≡ c.mqtt_websocket_path)
      × ((restart_wifi c).node_id ≡ c.node_id)
unfolding restart_wifi mark_wifi_disconnected
restart_wifi_keeps c = elim (Bool-cases (home_assistant_configured c)) [
  | inl configured ↦ rw configured (refl, refl, refl)
  | inr missing ↦ rw missing (refl, refl, refl)
]

pub apply_home_assistant_config-IsConnection :
    (c : Connection) (p : HomeAssistantConfigPayload)
    → IsPort p.mqtt_port
    → IsConnection (apply_home_assistant_config c p)
unfolding apply_home_assistant_config
apply_home_assistant_config-IsConnection c p port =
    let (same_port, same_path, same_node) = restart_wifi_keeps (with_connection c p) in
    record {
      port = subst IsPort (sym (same_port ∙ port_of)) port;
      path = ap (λ t. starts_with t (codes "/")) same_path ∙ path_of;
      named = ap is_empty same_node ∙ node_of;
      generation = next_generation-IsGeneration _;
    }
  where
    port_of : (with_connection c p).mqtt_port ≡ p.mqtt_port
    port_of = unfold with_connection in refl

    path_of : starts_with (with_connection c p).mqtt_websocket_path (codes "/") ≡ true
    path_of = unfold with_connection in normalize_websocket_path-slash c.mqtt_websocket_path

    node_of : is_empty (with_connection c p).node_id ≡ false
    node_of =
        unfold with_connection default_node_id in
        elim (Bool-cases (is_empty p.node_id)) [
          | inl missing ↦ rw missing refl
          | inr given ↦ rw given given
        ]

All-set :
    (tags : List BleIdentityTagState) (slot : ℕ) (tag : BleIdentityTagState)
    → All IsTag tags
    → IsTag tag
    → All IsTag (set tags slot tag)
All-set [] slot tag h t = tt
All-set (x ∷ tags) zero tag h t = (t, h.1)
All-set (x ∷ tags) (suc slot) tag h t = (h.0, All-set tags slot tag h.1 t)

pub clear_ble_identity_tag-IsTag : (tag : BleIdentityTagState) → IsTag (clear_ble_identity_tag tag)
unfolding clear_ble_identity_tag
clear_ble_identity_tag-IsTag tag = record {
  labelled = λ e. absurd (ground arith);
  addressed = λ e. absurd (ground arith);
  weakest = omega arith;
  strongest = omega arith;
}

pub configured_tag-IsTag :
    (tag : BleIdentityTagState) (p : BleTagConfigPayload) → IsTag (configured_tag tag p)
unfolding configured_tag
configured_tag-IsTag tag p =
    let address = normalize_ble_identity_value p.address in
    let (weakest, strongest) = clamp_ℤ-bounds p.min_rssi (neg 120) (neg 20) (omega arith) in
    elim (Bool-cases (not (is_empty p.label) && not (is_empty address))) [
      | inr incomplete ↦ rw incomplete (clear_ble_identity_tag-IsTag _)
      | inl complete ↦ rw complete (record {
        labelled = λ e. ground arith;
        addressed = λ e. ground arith;
        weakest = weakest;
        strongest = strongest;
      })
    ]

pub change_tag-IsTag :
    (tags tags' : List BleIdentityTagState) (slot : ℕ)
    (f : BleIdentityTagState → BleIdentityTagState)
    → ((tag : BleIdentityTagState) → IsTag (f tag))
    → All IsTag tags
    → change_tag tags slot f ≡ some tags'
    → All IsTag tags'
change_tag-IsTag tags tags' slot f makes h e = go (get_elem? tags slot) e
  where
    go : (o : Option BleIdentityTagState) → put_tag tags slot f o ≡ some tags' → All IsTag tags'
    go none at = absurd (ground arith)
    go (some tag) at =
        subst (All IsTag) (some-injective (set tags slot (f tag)) tags' at)
          (All-set tags slot (f tag) h (makes tag))
