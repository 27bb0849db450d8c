-- ===== src/Metrics.antt =====
-- rust/crates/espwaverider-core/src/metrics.rs: what is derived from a radar frame. The decision
-- whether it counts as a detection is in Metrics/Candidate. Unsigned arithmetic wraps as the
-- source's types do. The `i32` computations stay far inside the type: they start from a gate index
-- or a 16-bit distance.
pub mod Candidate
pub mod Clusters
pub mod Peak
pub mod Bounds
pub mod Decision
pub mod Thresholds
mod Examples
use esp_wave_rider.Base.{
  ℕ, ◌+◌, ◌-◌, ◌*◌, ◌/◌, ◌%◌, ◌^◌, Bool, true, false, not, ◌&&◌, ◌||◌, Option, none, some, List, [],
  ◌∷◌, get_or, take, ltb, leb, ◌==◌, if◌then◌else◌, min, max,
}
use esp_wave_rider.Base.Int.{ℤ, pos, negsuc, pos_part, ◌-ℤ◌, ltb_ℤ, leb_ℤ}
use esp_wave_rider.Text.{is_some}
use esp_wave_rider.Radar.{EnergyFrame, TextFrame, RadarFrame, energy, text, generic}

abbrev pub gate_count : ℕ
gate_count = 16

abbrev pub gate_size_cm : ℕ
gate_size_cm = 70

abbrev pub active_gate_floor : ℕ
active_gate_floor = 25

abbrev pub max_estimated_people : ℕ
max_estimated_people = 4

abbrev pub clutter_max_gate_index : ℕ
clutter_max_gate_index = 1

abbrev pub clutter_distance_delta_cm : ℕ
clutter_distance_delta_cm = 105

abbrev pub clutter_peak_share_percent : ℕ
clutter_peak_share_percent = 45

abbrev pub clutter_band_gates : ℕ
clutter_band_gates = 3

abbrev pub clutter_band_share_percent : ℕ
clutter_band_share_percent = 55

pub record RadarTuning : Type 0 where
  pub max_detection_range_cm : ℕ
  pub min_gate_energy : ℕ
  pub sensitivity_percent : ℕ
  pub min_active_gates : ℕ
  pub min_activity_score : ℕ

abbrev pub default_tuning : RadarTuning
default_tuning = record {
  max_detection_range_cm = gate_count * gate_size_cm;
  min_gate_energy = active_gate_floor;
  sensitivity_percent = 55;
  min_active_gates = 1;
  min_activity_score = 10;
}

pub record RadarDerivedMetrics : Type 0 where
  pub valid : Bool
  pub energy_based : Bool
  pub estimated_people : ℕ
  pub active_gate_count : ℕ
  pub dominant_gate_index : ℤ
  pub dominant_gate_distance_cm : ℤ
  pub dominant_gate_energy : ℕ
  pub total_gate_energy : ℕ
  pub activity_score : ℕ

abbrev pub default_metrics : RadarDerivedMetrics
default_metrics = record {
  valid = false;
  energy_based = false;
  estimated_people = 0;
  active_gate_count = 0;
  dominant_gate_index = negsuc 0;
  dominant_gate_distance_cm = negsuc 0;
  dominant_gate_energy = 0;
  total_gate_energy = 0;
  activity_score = 0;
}

-- The variables of the first loop of `apply_energy_metrics`.
pub record PeakScan : Type 0 where
  pub total : ℕ
  pub peak_energy : ℕ
  pub peak_index : ℤ

-- The first loop, from gate `index` on: the sum, and the first of the greatest gates.
unfoldable pub scan_peak : List ℕ → ℕ → PeakScan → PeakScan
scan_peak [] index st = st
scan_peak (gate ∷ gates) index st = scan_peak gates (index + 1) (record {
  total = (st.total + gate) % 2 ^ 32;
  peak_energy = if ltb st.peak_energy gate then gate else st.peak_energy;
  peak_index = if ltb st.peak_energy gate then pos index else st.peak_index;
})

unfoldable pub active_threshold : ℕ → ℕ
active_threshold peak_energy =
    if ltb 0 peak_energy then max active_gate_floor (peak_energy / 5) else active_gate_floor

-- The variables of the second loop.
pub record ClusterScan : Type 0 where
  pub active_count : ℕ
  pub cluster_count : ℕ
  pub cluster_open : Bool

-- The second loop: the gates at or over the threshold, and the runs that they form.
unfoldable pub scan_clusters : ℕ → List ℕ → ClusterScan → ClusterScan
scan_clusters threshold [] st = st
scan_clusters threshold (gate ∷ gates) st =
    let gate_active = leb threshold gate in
    scan_clusters threshold gates (record {
      active_count = if gate_active then (st.active_count + 1) % 256 else st.active_count;
      cluster_count =
          if gate_active && not st.cluster_open
          then (st.cluster_count + 1) % 256
          else st.cluster_count;
      cluster_open =
          if gate_active && not st.cluster_open
          then true
          else if not gate_active
          then false
          else st.cluster_open;
    })

-- People in the room: one for each run of active gates, one more for a wide strong field.
unfoldable pub estimate_people : ℕ → ℕ → ℕ → ℕ → ℕ
estimate_people cluster_count active_count total peak_energy =
    let people = max 1 cluster_count in
    min max_estimated_people (
      if leb 8 active_count && leb (peak_energy * 3 % 2 ^ 32) total
      then (people + 1) % 256
      else people)

unfoldable pub score_activity : ℕ → ℕ → ℕ → ℕ
score_activity total active_count peak_energy =
    min 100 ((total / 300 + active_count * 6 + peak_energy / 120) % 2 ^ 32)

unfoldable pub apply_energy_metrics : RadarDerivedMetrics → EnergyFrame → RadarDerivedMetrics
apply_energy_metrics m frame =
    let peak =
      scan_peak frame.gates 0
        (record { total = m.total_gate_energy; peak_energy = 0; peak_index = negsuc 0 }) in
    let clusters =
      scan_clusters (active_threshold peak.peak_energy) frame.gates
        (record { active_count = m.active_gate_count; cluster_count = 0; cluster_open = false }) in
    record m {
      total_gate_energy = peak.total;
      active_gate_count = clusters.active_count;
      dominant_gate_index = peak.peak_index;
      dominant_gate_energy = peak.peak_energy;
      dominant_gate_distance_cm =
          if leb_ℤ (pos 0) peak.peak_index
          then pos (pos_part peak.peak_index * gate_size_cm + gate_size_cm / 2)
          else m.dominant_gate_distance_cm;
      estimated_people =
          if frame.presence && ltb 0 peak.peak_energy
          then estimate_people clusters.cluster_count clusters.active_count peak.total
              peak.peak_energy
          else m.estimated_people;
      activity_score = score_activity peak.total clusters.active_count peak.peak_energy;
    }

unfoldable pub apply_text_metrics : RadarDerivedMetrics → TextFrame → RadarDerivedMetrics
apply_text_metrics m frame = record m {
  estimated_people = if frame.presence then 1 else 0;
  active_gate_count = if frame.presence then 1 else 0;
  activity_score = if frame.presence then 15 else 0;
  dominant_gate_distance_cm = elim frame.range_cm [
    | none ↦ m.dominant_gate_distance_cm
    | some range ↦ pos range
  ];
  dominant_gate_index = elim frame.range_cm [
    | none ↦ m.dominant_gate_index
    | some range ↦ pos (min (gate_count - 1) (range / gate_size_cm))
  ];
}

unfoldable pub apply_gpio_metrics : RadarDerivedMetrics → Bool → RadarDerivedMetrics
apply_gpio_metrics m gpio_presence = record m {
  estimated_people = if gpio_presence then 1 else 0;
  active_gate_count = if gpio_presence then 1 else 0;
  activity_score = if gpio_presence then 5 else 0;
}

-- `values.iter().map(u32::from).sum()`
unfoldable pub sum_u32 : List ℕ → ℕ
sum_u32 [] = 0
sum_u32 (value ∷ values) = (value + sum_u32 values) % 2 ^ 32

-- The gate at the reported distance with its neighbours.
unfoldable pub reported_neighborhood : List ℕ → ℕ → ℕ
reported_neighborhood gates index =
    let own = get_or gates index 0 in
    let left = if ltb 0 index then (own + get_or gates (index - 1) 0) % 2 ^ 32 else own in
    if ltb index (gate_count - 1) then (left + get_or gates (index + 1) 0) % 2 ^ 32 else left

-- The peak stands out near the sensor while the reported distance is far, and the gates around the
-- reported distance hold less energy than the peak.
unfoldable pub peak_outweighs_report : RadarDerivedMetrics → EnergyFrame → Bool
peak_outweighs_report m frame =
    if ltb (m.dominant_gate_energy * 100 % 2 ^ 32 / m.total_gate_energy) clutter_peak_share_percent
    then false
    else ltb
        (reported_neighborhood frame.gates
          (min (gate_count - 1) ((frame.distance_cm + gate_size_cm / 2) / gate_size_cm)))
        m.dominant_gate_energy

unfoldable pub energy_frame_looks_like_near_field_clutter : RadarDerivedMetrics → EnergyFrame → Bool
energy_frame_looks_like_near_field_clutter m frame =
    if not m.energy_based || ltb_ℤ m.dominant_gate_index (pos 0)
    then false
    else if ltb_ℤ (pos clutter_max_gate_index) m.dominant_gate_index || m.total_gate_energy == 0
    then false
    else if leb frame.distance_cm 0 || ltb_ℤ m.dominant_gate_distance_cm (pos 0)
    then false
    else if ltb_ℤ (pos frame.distance_cm -ℤ m.dominant_gate_distance_cm)
        (pos clutter_distance_delta_cm)
    then false
    else if leb clutter_band_share_percent (
        sum_u32 (take (min gate_count clutter_band_gates) frame.gates)
        * 100
        % 2 ^ 32
        / m.total_gate_energy)
    then true
    else peak_outweighs_report m frame

-- Near-field clutter counts nobody.
unfoldable pub suppress_clutter : RadarDerivedMetrics → EnergyFrame → RadarDerivedMetrics
suppress_clutter m frame =
    if energy_frame_looks_like_near_field_clutter m frame
    then record m { estimated_people = 0 }
    else m

unfoldable pub build_radar_derived_metrics : Option RadarFrame → Bool → RadarDerivedMetrics
build_radar_derived_metrics frame gpio_presence =
    let start = record default_metrics { valid = is_some frame || gpio_presence } in
    elim frame [
      | some (energy e) ↦
          suppress_clutter (apply_energy_metrics (record start { energy_based = true }) e) e
      | some (text t) ↦ apply_text_metrics start t
      | some (generic g) ↦ apply_gpio_metrics start gpio_presence
      | none ↦ apply_gpio_metrics start gpio_presence
    ]
