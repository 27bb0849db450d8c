-- ===== src/Metrics/Decision.antt =====
-- When a frame counts as a detection.
use esp_wave_rider.Base.{
  ℕ, ◌*◌, ◌%◌, ◌^◌, ◌≤◌, ◌≡◌, sym, ◌∙◌, Bool, true, false, not, ◌&&◌, ◌||◌, Option, none, some, leb,
  arith, max, Bool-cases, Option-cases, inl, inr,
}
use esp_wave_rider.Base.Int.{pos, leb_ℤ}
use esp_wave_rider.Radar.{EnergyFrame, RadarFrame, energy}
use esp_wave_rider.Metrics.{
  RadarTuning, RadarDerivedMetrics, energy_frame_looks_like_near_field_clutter,
  peak_outweighs_report, suppress_clutter, build_radar_derived_metrics,
}
use esp_wave_rider.Metrics.Candidate.{
  candidate, effective_min_gate_energy, effective_min_activity_score, as_energy, check_energy,
  radar_detection_decision, radar_detection_candidate, decide_people,
}

-- What an energy frame has to show: enough energy, at its peak or in all, and no clutter.
abbrev pub energy_passes : RadarDerivedMetrics → RadarTuning → Option EnergyFrame → Bool
energy_passes m tuning none = false
energy_passes m tuning (some e) =
    (leb (effective_min_gate_energy tuning) m.dominant_gate_energy
      || leb (effective_min_gate_energy tuning * max 1 tuning.min_active_gates % 2 ^ 32)
          m.total_gate_energy)
    && not (energy_frame_looks_like_near_field_clutter m e)

abbrev pub is_detection : RadarDerivedMetrics → Option RadarFrame → RadarTuning → Bool
is_detection m frame tuning =
    m.valid
    && leb_ℤ m.dominant_gate_distance_cm (pos tuning.max_detection_range_cm)
    && leb tuning.min_active_gates m.active_gate_count
    && leb (effective_min_activity_score tuning) m.activity_score
    && (not m.energy_based || energy_passes m tuning (as_energy frame))

decide_people_candidate :
    (m : RadarDerivedMetrics) (n : ℕ) → n ≤ m.activity_score → decide_people m n ≡ candidate
unfolding decide_people
decide_people_candidate m n h = ground arith

-- The decision is `Candidate` exactly when every one of the tests passes; the number of people does
-- not matter.
pub radar_detection_candidate_iff :
    (m : RadarDerivedMetrics) (frame : Option RadarFrame) (tuning : RadarTuning)
    → radar_detection_candidate m frame tuning ≡ is_detection m frame tuning
unfolding radar_detection_candidate radar_detection_decision check_energy decide_people
radar_detection_candidate_iff m frame tuning = elim (Option-cases (as_energy frame)) [
  | inl no_energy ↦ rw no_energy (ground arith)
  | inr (e, is_energy) ↦ rw is_energy (ground arith)
]

suppressed :
    (m : RadarDerivedMetrics) (e : EnergyFrame)
    → energy_frame_looks_like_near_field_clutter (suppress_clutter m e) e
      ≡ energy_frame_looks_like_near_field_clutter m e
unfolding suppress_clutter peak_outweighs_report
suppressed m e = elim (Bool-cases (energy_frame_looks_like_near_field_clutter m e)) [
  | inl clutter ↦ rw clutter (unfold energy_frame_looks_like_near_field_clutter in clutter)
  | inr clear ↦ rw clear clear
]

clutter-energy_based :
    (m : RadarDerivedMetrics) (e : EnergyFrame)
    → energy_frame_looks_like_near_field_clutter m e ≡ true
    → m.energy_based ≡ true
unfolding energy_frame_looks_like_near_field_clutter
clutter-energy_based m e h = ground arith

refused :
    (m : RadarDerivedMetrics) (e : EnergyFrame) (tuning : RadarTuning)
    → energy_frame_looks_like_near_field_clutter m e ≡ true
    → radar_detection_candidate m (some (energy e)) tuning ≡ false
refused m e tuning h = rw radar_detection_candidate_iff (ground (arith, clutter-energy_based m e h))

nobody :
    (m : RadarDerivedMetrics) (e : EnergyFrame)
    → energy_frame_looks_like_near_field_clutter m e ≡ true
    → (suppress_clutter m e).estimated_people ≡ 0
unfolding suppress_clutter
nobody m e h = rw h

-- A frame whose derived metrics look like clutter counts nobody, and is a detection under no tuning.
pub clutter_is_no_detection :
    (e : EnergyFrame) (gpio_presence : Bool) (tuning : RadarTuning)
    → energy_frame_looks_like_near_field_clutter
        (build_radar_derived_metrics (some (energy e)) gpio_presence)
        e
      ≡ true
    → ((build_radar_derived_metrics (some (energy e)) gpio_presence).estimated_people ≡ 0)
      × (radar_detection_candidate
            (build_radar_derived_metrics (some (energy e)) gpio_presence)
            (some (energy e))
            tuning
          ≡ false)
unfolding build_radar_derived_metrics
clutter_is_no_detection e gpio_presence tuning h =
    (nobody _ e (sym (suppressed _ e) ∙ h), refused _ e tuning h)
