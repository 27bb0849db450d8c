-- ===== src/Detection.antt =====
-- rust/firmware/esp32s3/src/main.rs: the part of `FirmwareState` that decides on presence, with
-- the frame views of rust/crates/espwaverider-core/src/snapshot.rs. Detection/Uart receives the radar's
-- bytes, and Detection/Debug drives the status LED. `DetectionState` has the fields of `FirmwareState`
-- that these operations read or write. Times are `u32` milliseconds; `saturating_sub` is the
-- subtraction of ℕ.
pub mod Uart
pub mod Debug
pub mod Hold
pub mod Led
pub mod Receive
pub mod Frames
mod Examples
use esp_wave_rider.Base.{
  ℕ, ◌+◌, ◌-◌, ◌^◌, Bool, true, false, not, ◌&&◌, ◌||◌, Option, none, some, List, length, ltb, leb,
  ◌==◌, if◌then◌else◌, min,
}
use esp_wave_rider.Base.Int.{ℤ}
use esp_wave_rider.Text.{Text, is_some}
use esp_wave_rider.Radar.{RadarFrame}
use esp_wave_rider.Metrics.{RadarTuning, RadarDerivedMetrics, build_radar_derived_metrics}
use esp_wave_rider.Metrics.Candidate.{
  RadarDetectionDecision, candidate, radar_detection_decision, clamp,
}

abbrev pub max_u32 : ℕ
max_u32 = 2 ^ 32 - 1

abbrev pub presence_poll_ms : ℕ
presence_poll_ms = 25

abbrev pub radar_idle_frame_gap_ms : ℕ
radar_idle_frame_gap_ms = 20

abbrev pub min_presence_hold_ms : ℕ
min_presence_hold_ms = 3000

abbrev pub max_presence_hold_ms : ℕ
max_presence_hold_ms = 60000

abbrev pub radar_frame_buffer_size : ℕ
radar_frame_buffer_size = 256

-- `value.saturating_add(1)` on `u32`
abbrev pub saturating_inc : ℕ → ℕ
saturating_inc n = min max_u32 (n + 1)

pub record LatestEnergyFrameSnapshot : Type 0 where
  pub length : ℕ
  pub payload_length : ℕ
  pub presence : Bool
  pub distance_cm : ℕ
  pub bytes_total : ℕ
  pub frames_total : ℕ
  pub energy_frames_total : ℕ
  pub gates : List ℕ

pub record LatestTextFrameSnapshot : Type 0 where
  pub length : ℕ
  pub presence : Bool
  pub range : ℤ
  pub bytes_total : ℕ
  pub frames_total : ℕ
  pub hex : Text
  pub ascii : Text

pub record LatestGenericFrameSnapshot : Type 0 where
  pub length : ℕ
  pub bytes_total : ℕ
  pub frames_total : ℕ
  pub hex : Text
  pub ascii : Text

pub record DetectionState : Type 0 where
  pub max_detection_range_cm : ℕ
  pub min_gate_energy : ℕ
  pub sensitivity_percent : ℕ
  pub presence_hold_ms : ℕ
  pub min_active_gates : ℕ
  pub min_activity_score : ℕ
  pub led_enabled : Bool
  pub led_brightness : ℕ
  pub presence : Bool
  pub gpio_presence : Bool
  pub detection_candidate : Bool
  pub presence_initialized : Bool
  pub presence_changes_total : ℕ
  pub last_presence_poll_ms : ℕ
  pub last_detection_ms : ℕ
  pub radar_bytes_total : ℕ
  pub radar_frames_total : ℕ
  pub ld2420_energy_frames_total : ℕ
  pub last_radar_byte_ms : ℕ
  pub radar_buffer : List ℕ
  pub latest_energy_frame : Option LatestEnergyFrameSnapshot
  pub latest_text_frame : Option LatestTextFrameSnapshot
  pub latest_generic_frame : Option LatestGenericFrameSnapshot
  pub latest_radar_frame : Option RadarFrame

abbrev pub radar_tuning : DetectionState → RadarTuning
radar_tuning s = record {
  max_detection_range_cm = s.max_detection_range_cm;
  min_gate_energy = s.min_gate_energy;
  sensitivity_percent = s.sensitivity_percent;
  min_active_gates = s.min_active_gates;
  min_activity_score = s.min_activity_score;
}

unfoldable pub active_radar_metrics : DetectionState → Option RadarDerivedMetrics
active_radar_metrics s = elim s.latest_radar_frame [
  | none ↦ none
  | some frame ↦ some (build_radar_derived_metrics (some frame) s.gpio_presence)
]

abbrev pub is_candidate : RadarDetectionDecision → Bool
is_candidate candidate = true
is_candidate _ = false

unfoldable pub radar_candidate_from_metrics : DetectionState → RadarDerivedMetrics → Bool
radar_candidate_from_metrics s metrics =
    is_candidate (radar_detection_decision metrics s.latest_radar_frame (radar_tuning s))

unfoldable pub gpio_fallback_active : DetectionState → Bool
gpio_fallback_active s =
    s.gpio_presence && not (is_some s.latest_energy_frame) && not (is_some s.latest_text_frame)

-- What `sync_radar_detection_state` decides before it writes.
unfoldable pub candidate_now : DetectionState → Bool
candidate_now s =
    elim (active_radar_metrics s) [
      | none ↦ false
      | some metrics ↦ radar_candidate_from_metrics s metrics
    ]
    || gpio_fallback_active s

unfoldable pub sync_radar_detection_state : DetectionState → ℕ → DetectionState
sync_radar_detection_state s uptime_ms =
    let found = candidate_now s in
    record s {
      detection_candidate = found;
      last_detection_ms = if found then uptime_ms else s.last_detection_ms;
    }

unfoldable pub effective_presence_hold_ms : DetectionState → ℕ
unfolding clamp
effective_presence_hold_ms s = clamp s.presence_hold_ms min_presence_hold_ms max_presence_hold_ms

unfoldable pub presence_decay_remaining_ms : DetectionState → ℕ → ℕ
presence_decay_remaining_ms s uptime_ms =
    let hold_ms = effective_presence_hold_ms s in
    let elapsed = uptime_ms - s.last_detection_ms in
    if hold_ms == 0 || s.last_detection_ms == 0
    then 0
    else if leb hold_ms elapsed
    then 0
    else hold_ms - elapsed

-- The end of `poll_presence`: the first poll sets the presence, later ones count its changes.
unfoldable pub settle_presence : DetectionState → Bool → DetectionState
settle_presence s presence =
    if not s.presence_initialized
    then record s { presence_initialized = true; presence = presence }
    else if (presence && not s.presence) || (not presence && s.presence)
    then record s {
      presence = presence;
      presence_changes_total = saturating_inc s.presence_changes_total;
    }
    else s

unfoldable pub poll_presence : DetectionState → Bool → ℕ → DetectionState
poll_presence s gpio_presence uptime_ms =
    let polled =
      sync_radar_detection_state
        (record s { last_presence_poll_ms = uptime_ms; gpio_presence = gpio_presence }) uptime_ms in
    if ltb (uptime_ms - s.last_presence_poll_ms) presence_poll_ms
    then s
    else settle_presence polled
        (polled.detection_candidate || ltb 0 (presence_decay_remaining_ms polled uptime_ms))
