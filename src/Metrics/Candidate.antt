-- ===== src/Metrics/Candidate.antt =====
-- The detection decision of rust/crates/espwaverider-core/src/metrics.rs.
use esp_wave_rider.Base.{
  ℕ, ◌-◌, ◌*◌, ◌/◌, ◌%◌, ◌^◌, Bool, true, false, not, ◌&&◌, ◌||◌, Option, none, some, ltb, leb,
  if◌then◌else◌, max,
}
use esp_wave_rider.Base.Int.{pos, ltb_ℤ, leb_ℤ}
use esp_wave_rider.Radar.{EnergyFrame, RadarFrame, energy, text, generic}
use esp_wave_rider.Metrics.{
  RadarTuning, RadarDerivedMetrics, energy_frame_looks_like_near_field_clutter,
}

pub data RadarDetectionDecision : Type 0 where
  candidate invalid_metrics out_of_range insufficient_active_gates : RadarDetectionDecision
  low_activity missing_energy_frame low_energy near_field_clutter : RadarDetectionDecision

-- `value.clamp(lo, hi)`
unfoldable pub clamp : ℕ → ℕ → ℕ → ℕ
clamp value lo hi = if ltb value lo then lo else if ltb hi value then hi else value

-- `... as u16` keeps the low sixteen bits.
unfoldable pub effective_min_gate_energy : RadarTuning → ℕ
effective_min_gate_energy tuning =
    let sensitivity = clamp tuning.sensitivity_percent 10 100 in
    max 10 (tuning.min_gate_energy * (150 - sensitivity) % 2 ^ 32 / 100) % 2 ^ 16

unfoldable pub effective_min_activity_score : RadarTuning → ℕ
effective_min_activity_score tuning =
    let sensitivity = clamp tuning.sensitivity_percent 10 100 in
    clamp (tuning.min_activity_score * (150 - sensitivity) % 2 ^ 32 / 100) 1 100

abbrev pub as_energy : Option RadarFrame → Option EnergyFrame
as_energy none = none
as_energy (some (energy e)) = some e
as_energy (some (text t)) = none
as_energy (some (generic g)) = none

-- The last test of `radar_detection_decision`.
unfoldable pub decide_people : RadarDerivedMetrics → ℕ → RadarDetectionDecision
decide_people m min_activity =
    if ltb 0 m.estimated_people || leb min_activity m.activity_score
    then candidate
    else low_activity

-- The tests of an energy frame; `none` passes.
unfoldable pub check_energy :
    RadarDerivedMetrics → EnergyFrame → RadarTuning → Option RadarDetectionDecision
check_energy m frame tuning =
    let min_energy = effective_min_gate_energy tuning in
    let min_total_energy = min_energy * max 1 tuning.min_active_gates % 2 ^ 32 in
    if ltb m.dominant_gate_energy min_energy && ltb m.total_gate_energy min_total_energy
    then some low_energy
    else if energy_frame_looks_like_near_field_clutter m frame
    then some near_field_clutter
    else none

unfoldable pub radar_detection_decision :
    RadarDerivedMetrics → Option RadarFrame → RadarTuning → RadarDetectionDecision
unfolding decide_people
radar_detection_decision m frame tuning =
    let min_activity = effective_min_activity_score tuning in
    if not m.valid
    then invalid_metrics
    else if leb_ℤ (pos 0) m.dominant_gate_distance_cm
        && ltb_ℤ (pos tuning.max_detection_range_cm) m.dominant_gate_distance_cm
    then out_of_range
    else if ltb m.active_gate_count tuning.min_active_gates
    then insufficient_active_gates
    else if ltb m.activity_score min_activity
    then low_activity
    else if m.energy_based
    then elim (as_energy frame) [
      | none ↦ missing_energy_frame
      | some e ↦ elim (check_energy m e tuning) [
        | some refusal ↦ refusal
        | none ↦ decide_people m min_activity
      ]
    ]
    else decide_people m min_activity

unfoldable pub radar_detection_candidate :
    RadarDerivedMetrics → Option RadarFrame → RadarTuning → Bool
radar_detection_candidate m frame tuning = elim (radar_detection_decision m frame tuning) [
  | candidate ↦ true
  | _ ↦ false
]
