-- ===== src/Settings/Restart.antt =====
-- What a new connection does to Wi-Fi and to the MQTT task.
use esp_wave_rider.Base.{
  ℕ, ◌^◌, ◌<◌, ◌≡◌, ◌≢◌, refl, sym, ◌∙◌, true, false, not, ◌&&◌, arith, Bool-cases, inl, inr,
}
use esp_wave_rider.Text.{is_empty}
use esp_wave_rider.Command.Payloads.{HomeAssistantConfigPayload}
use esp_wave_rider.Settings.{
  Connection, next_generation, mark_wifi_disconnected, home_assistant_configured, default_node_id,
  with_connection, restart_wifi, apply_home_assistant_config,
}

next_generation-ne : (g : ℕ) → g < 2 ^ 32 → next_generation g ≢ g
unfolding next_generation
next_generation-ne g h e = omega arith

next_generation-next-ne : (g : ℕ) → g < 2 ^ 32 → next_generation (next_generation g) ≢ g
unfolding next_generation
next_generation-next-ne g h e = omega arith

-- The node has a name by then.
with_connection-named :
    (c : Connection) (p : HomeAssistantConfigPayload)
    → home_assistant_configured (with_connection c p)
      ≡ (not (is_empty p.wifi_ssid) && not (is_empty p.mqtt_host))
unfolding home_assistant_configured with_connection default_node_id
with_connection-named c p = elim (Bool-cases (is_empty p.node_id)) [
  | inl missing ↦ rw missing (ground arith)
  | inr given ↦ rw (given, given) (ground arith)
]

-- The result of the restart.
record Restarted (c c' : Connection) : Type 0 where
  pending : c'.wifi_reconfigure_pending ≡ home_assistant_configured c
  stopped : c'.wifi_runtime_started ≡ false
  disconnected : home_assistant_configured c ≡ false → c'.wifi_connected ≡ false
  connected : home_assistant_configured c ≡ true → c'.wifi_connected ≡ c.wifi_connected
  changed :
      c.mqtt_runtime_generation < 2 ^ 32
      → next_generation c'.mqtt_runtime_generation ≢ c.mqtt_runtime_generation

restart_wifi-Restarted : (c : Connection) → Restarted c (restart_wifi c)
unfolding restart_wifi mark_wifi_disconnected
restart_wifi-Restarted c = elim (Bool-cases (home_assistant_configured c)) [
  | inl configured ↦ rw configured (record {
    pending = sym configured;
    stopped = refl;
    disconnected = λ e. absurd (ground arith);
    connected = λ e. refl;
    changed = λ small. next_generation-ne c.mqtt_runtime_generation small;
  })
  | inr missing ↦ rw missing (record {
    pending = sym missing;
    stopped = refl;
    disconnected = λ e. refl;
    connected = λ e. absurd (ground arith);
    changed = λ small. next_generation-next-ne c.mqtt_runtime_generation small;
  })
]

restart_wifi-configured :
    (c : Connection) → home_assistant_configured (restart_wifi c) ≡ home_assistant_configured c
unfolding restart_wifi mark_wifi_disconnected home_assistant_configured
restart_wifi-configured c = ground arith

-- Neither the generation nor the time of the last summary matters.
dirty-configured :
    (c : Connection)
    → home_assistant_configured (record c {
      mqtt_runtime_generation = next_generation c.mqtt_runtime_generation;
      last_mqtt_room_summary_publish_ms = 0;
    })
      ≡ home_assistant_configured c
unfolding home_assistant_configured
dirty-configured c = refl

-- Let the MQTT generation be a 32-bit number. A new connection counts as configured exactly if it
-- has a network name and a broker, whatever else it leaves empty. Exactly then Wi-Fi is set to be
-- configured anew; otherwise it is off. And the MQTT generation differs from the one before.
pub apply_home_assistant_config_restarts :
    (c : Connection) (p : HomeAssistantConfigPayload)
    → c.mqtt_runtime_generation < 2 ^ 32
    → let c' = apply_home_assistant_config c p in
      (home_assistant_configured c' ≡ (not (is_empty p.wifi_ssid) && not (is_empty p.mqtt_host)))
      × (c'.wifi_reconfigure_pending ≡ home_assistant_configured c')
      × (c'.wifi_runtime_started ≡ false)
      × (home_assistant_configured c' ≡ false → c'.wifi_connected ≡ false)
      × (home_assistant_configured c' ≡ true → c'.wifi_connected ≡ c.wifi_connected)
      × (c'.mqtt_runtime_generation ≢ c.mqtt_runtime_generation)
unfolding apply_home_assistant_config
apply_home_assistant_config_restarts c p small =
    let applied = with_connection c p in
    let r = restart_wifi-Restarted applied in
    let same : applied.mqtt_runtime_generation ≡ c.mqtt_runtime_generation =
      unfold with_connection in refl in
    let wifi : applied.wifi_connected ≡ c.wifi_connected = unfold with_connection in refl in
    let c' = apply_home_assistant_config c p in
    let view : home_assistant_configured c' ≡ home_assistant_configured applied =
      dirty-configured (restart_wifi applied) ∙ restart_wifi-configured applied in
    (
      view ∙ with_connection-named c p,
      r.pending ∙ sym view,
      r.stopped,
      λ e. r.disconnected (sym view ∙ e),
      λ e. r.connected (sym view ∙ e) ∙ wifi,
      λ e. r.changed (omega (arith, same)) (e ∙ sym same),
    )
