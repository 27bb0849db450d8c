-- ===== src/Detection/Led.antt =====
-- The status LED.
use esp_wave_rider.Base.{ℕ, ◌+◌, ◌-◌, ◌*◌, ◌/◌, ◌%◌, ◌^◌, ◌≤◌, ◌<◌, ◌≡◌, if◌then◌else◌, arith}
use native.Mathlib.Nat.{div-le_of_le-mul, mod-eq_of_lt}
use esp_wave_rider.Detection.{
  DetectionState, presence_decay_remaining_ms, effective_presence_hold_ms,
}
use esp_wave_rider.Detection.Debug.{
  StatusLedColor, status_led_rgb, led_phase_of, LedPhase, disabled, active_detection,
  presence_decay, idle,
}
use esp_wave_rider.Detection.Hold.{effective_presence_hold_ms_bounds}

decay_bounds :
    (s : DetectionState) (uptime_ms : ℕ)
    → presence_decay_remaining_ms s uptime_ms ≤ effective_presence_hold_ms s
unfolding presence_decay_remaining_ms
decay_bounds s uptime_ms = ground arith

-- No product or cast of the decay's colour cuts anything off, and green is at most the brightness.
green_share :
    (remaining brightness hold : ℕ)
    → remaining ≤ hold
    → hold ≤ 60000
    → brightness < 256
    → (remaining * brightness % 2 ^ 32 / hold % 2 ^ 8 ≡ remaining * brightness / hold)
      × (remaining * brightness / hold ≤ brightness)
green_share remaining brightness hold le small byte =
    let below : remaining * brightness ≤ hold * brightness = grind arith in
    let fits : hold * brightness ≤ 60000 * brightness = grind arith in
    let share : remaining * brightness / hold ≤ brightness = div-le_of_le-mul hold below in
    let whole : remaining * brightness % 2 ^ 32 ≡ remaining * brightness = omega arith in
    (rw whole (mod-eq_of_lt (omega arith)), share)

-- The colour of each phase. In the decay green has the share of the brightness that is left of the
-- hold, and red the rest.
abbrev pub phase_color : LedPhase → ℕ → ℕ → ℕ → StatusLedColor
phase_color disabled brightness remaining hold = record { r = 0; g = 0; b = 0 }
phase_color active_detection brightness remaining hold = record { r = 0; g = brightness; b = 0 }
phase_color presence_decay brightness remaining hold = record {
  r = brightness - remaining * brightness / hold;
  g = remaining * brightness / hold;
  b = 0;
}
phase_color idle brightness remaining hold = record { r = brightness; g = 0; b = 0 }

module _ (s : DetectionState) (uptime_ms : ℕ) (byte : s.led_brightness < 256) where
  rgb_phase :
      status_led_rgb s uptime_ms
      ≡ phase_color
          (led_phase_of s uptime_ms)
          s.led_brightness
          (presence_decay_remaining_ms s uptime_ms)
          (effective_presence_hold_ms s)
  unfolding led_phase_of status_led_rgb
  rgb_phase =
      let (exact, share) =
        green_share (presence_decay_remaining_ms s uptime_ms) s.led_brightness
          (effective_presence_hold_ms s) (decay_bounds s uptime_ms)
          (effective_presence_hold_ms_bounds s).1 byte in
      let holds = (effective_presence_hold_ms_bounds s).0 in ground arith

  rgb_sum :
      (status_led_rgb s uptime_ms).r + (status_led_rgb s uptime_ms).g
      ≡ (if s.led_enabled then s.led_brightness else 0)
  unfolding status_led_rgb
  rgb_sum =
      let (exact, share) =
        green_share (presence_decay_remaining_ms s uptime_ms) s.led_brightness
          (effective_presence_hold_ms s) (decay_bounds s uptime_ms)
          (effective_presence_hold_ms_bounds s).1 byte in
      ground arith

  -- For a brightness that is a byte, the LED shows the colour of the phase that the debug view
  -- reports, as computed without any cut, and red and green add up to the brightness while it is
  -- enabled and to 0 otherwise.
  pub status_led_rgb_lem :
      (status_led_rgb s uptime_ms
        ≡ phase_color
            (led_phase_of s uptime_ms)
            s.led_brightness
            (presence_decay_remaining_ms s uptime_ms)
            (effective_presence_hold_ms s))
      × ((status_led_rgb s uptime_ms).r + (status_led_rgb s uptime_ms).g
          ≡ (if s.led_enabled then s.led_brightness else 0))
  status_led_rgb_lem = (rgb_phase, rgb_sum)
