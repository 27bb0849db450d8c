-- ===== src/Metrics/Examples.antt =====
-- Runs of the metrics, and their theorems at concrete frames and tunings.
use esp_wave_rider.Base.{◌+◌, ◌^◌, ◌≤◌, ◌<◌, ◌≡◌, refl, true, false, none, some, [], ◌∷◌, arith}
use esp_wave_rider.Base.Int.{pos, ◌-ℤ◌}
use esp_wave_rider.Radar.{EnergyFrame, energy}
use esp_wave_rider.Radar.Energy.{IsEnergyFrame}
use esp_wave_rider.Metrics.{
  RadarTuning, default_tuning, scan_peak, scan_clusters, active_threshold, estimate_people,
  score_activity, apply_energy_metrics, suppress_clutter, build_radar_derived_metrics,
  energy_frame_looks_like_near_field_clutter, sum_u32,
}
use esp_wave_rider.Metrics.Candidate.{
  clamp, effective_min_gate_energy, effective_min_activity_score, radar_detection_candidate,
}
use esp_wave_rider.Metrics.Bounds.{IsInRange, build-IsInRange, DescribesGates, build-DescribesGates}
use esp_wave_rider.Metrics.Decision.{is_detection, radar_detection_candidate_iff}
use esp_wave_rider.Metrics.Thresholds.{
  IsTuning, intended_min_gate_energy, sensitivity_factor, effective_min_gate_energy_wraps,
}

abbrev near_frame : EnergyFrame
near_frame = record {
  length = 45;
  payload_length = 35;
  presence = true;
  distance_cm = 280;
  gates = 1000 ∷ 500 ∷ 100 ∷ 10 ∷ 5 ∷ 5 ∷ 0 ∷ 0 ∷ 0 ∷ 0 ∷ 0 ∷ 0 ∷ 0 ∷ 0 ∷ 0 ∷ 0 ∷ [];
}

abbrev fixture_frame : EnergyFrame
fixture_frame = record {
  length = 45;
  payload_length = 35;
  presence = false;
  distance_cm = 0;
  gates = 12898 ∷ 3730 ∷ 362 ∷ 36 ∷ 80 ∷ 98 ∷ 20 ∷ 13 ∷ 13 ∷ 9 ∷ 10 ∷ 13 ∷ 20 ∷ 10 ∷ 13 ∷ 10 ∷ [];
}

near_frame-IsEnergyFrame : IsEnergyFrame near_frame
near_frame-IsEnergyFrame = omega arith

fixture_metrics : build_radar_derived_metrics (some (energy fixture_frame)) false ≡ record {
  valid = true;
  energy_based = true;
  estimated_people = 0;
  active_gate_count = 2;
  dominant_gate_index = pos 0;
  dominant_gate_distance_cm = pos 35;
  dominant_gate_energy = 12898;
  total_gate_energy = 17335;
  activity_score = 100;
}
unfolding build_radar_derived_metrics suppress_clutter apply_energy_metrics scan_peak scan_clusters
    active_threshold score_activity energy_frame_looks_like_near_field_clutter
fixture_metrics = refl

near_is_clutter :
    energy_frame_looks_like_near_field_clutter
      (build_radar_derived_metrics (some (energy near_frame)) false)
      near_frame
    ≡ true
unfolding build_radar_derived_metrics suppress_clutter apply_energy_metrics scan_peak scan_clusters
    active_threshold estimate_people score_activity energy_frame_looks_like_near_field_clutter
    sum_u32 ◌-ℤ◌
near_is_clutter = refl

build-IsInRange_example : IsInRange (build_radar_derived_metrics (some (energy near_frame)) false)
build-IsInRange_example = build-IsInRange (some (energy near_frame)) false near_frame-IsEnergyFrame

build-DescribesGates_example :
    DescribesGates near_frame.gates (build_radar_derived_metrics (some (energy near_frame)) false)
build-DescribesGates_example = build-DescribesGates near_frame false near_frame-IsEnergyFrame

radar_detection_candidate_iff_example :
    radar_detection_candidate (build_radar_derived_metrics none true) none default_tuning
    ≡ is_detection (build_radar_derived_metrics none true) none default_tuning
radar_detection_candidate_iff_example =
    radar_detection_candidate_iff (build_radar_derived_metrics none true) none default_tuning

thresholds :
    (effective_min_gate_energy default_tuning ≡ 23)
    × (effective_min_activity_score default_tuning ≡ 9)
unfolding effective_min_gate_energy effective_min_activity_score clamp
thresholds = (refl, refl)

abbrev widest_tuning : RadarTuning
widest_tuning = record default_tuning { min_gate_energy = 65535; sensitivity_percent = 10 }

-- The highest energy at the lowest sensitivity gives a threshold of 26213, not of 91749.
wrapped : effective_min_gate_energy widest_tuning ≡ 26213
unfolding effective_min_gate_energy clamp
wrapped = refl

widest-IsTuning : IsTuning widest_tuning
widest-IsTuning = omega arith

intended_is_wide : 2 ^ 16 ≤ intended_min_gate_energy widest_tuning
unfolding intended_min_gate_energy sensitivity_factor clamp
intended_is_wide = omega arith

effective_min_gate_energy_wraps_example :
    (effective_min_gate_energy widest_tuning + 2 ^ 16 ≡ intended_min_gate_energy widest_tuning)
    × (65535 < intended_min_gate_energy widest_tuning)
    × (effective_min_gate_energy widest_tuning < 65535)
effective_min_gate_energy_wraps_example =
    effective_min_gate_energy_wraps widest_tuning widest-IsTuning intended_is_wide
