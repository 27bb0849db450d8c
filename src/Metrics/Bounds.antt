-- ===== src/Metrics/Bounds.antt =====
-- The ranges of the derived metrics, for every frame that the parser returns.
use esp_wave_rider.Base.{
  ℕ, ◌≤◌, ◌<◌, ◌≡◌, refl, ◌∙◌, Bool, true, false, Option, none, some, List, length, All, arith,
  Bool-cases, Option-cases, inl, inr, get_elem?-lt_length, All-get_elem?,
}
use esp_wave_rider.Base.Int.{pos, negsuc, ◌≤ℤ◌}
use esp_wave_rider.Radar.{EnergyFrame, TextFrame, RadarFrame, energy, text, generic}
use esp_wave_rider.Radar.Energy.{IsU16, IsEnergyFrame}
use esp_wave_rider.Metrics.{
  RadarDerivedMetrics, PeakScan, scan_peak, scan_clusters, active_threshold, estimate_people,
  score_activity, default_metrics, apply_energy_metrics, apply_text_metrics, apply_gpio_metrics,
  suppress_clutter, build_radar_derived_metrics, energy_frame_looks_like_near_field_clutter,
}
use esp_wave_rider.Metrics.Peak.{sum, sum-le, scan_peak_total, IsPeak, scan_frame-IsPeak}
use esp_wave_rider.Metrics.Clusters.{count_active, count_runs-le, scan_clusters_counts}

-- The ranges that the rest of the firmware relies on.
pub record IsInRange (m : RadarDerivedMetrics) : Type 0 where
  pub few_people : m.estimated_people ≤ 4
  pub sixteen_gates : m.active_gate_count ≤ 16
  pub percent : m.activity_score ≤ 100
  pub index_low : negsuc 0 ≤ℤ m.dominant_gate_index
  pub index_high : m.dominant_gate_index ≤ℤ pos 15
  pub distance_low : negsuc 0 ≤ℤ m.dominant_gate_distance_cm
  pub distance_high : m.dominant_gate_distance_cm ≤ℤ pos 65535
  pub strongest : m.dominant_gate_energy ≤ 65535
  pub total : m.total_gate_energy ≤ 1048560

-- What the parser guarantees of a frame's numbers.
abbrev pub IsParsed : Option RadarFrame → Type 0
IsParsed none = Unit {0}
IsParsed (some (energy e)) = IsEnergyFrame e
IsParsed (some (text t)) = (range : ℕ) → t.range_cm ≡ some range → range < 65536
IsParsed (some (generic g)) = Unit {0}

-- The metrics of an energy frame, described by its gates alone.
pub record DescribesGates (gates : List ℕ) (m : RadarDerivedMetrics) : Type 0 where
  pub total : m.total_gate_energy ≡ sum gates
  pub peak : IsPeak gates (record {
    total = m.total_gate_energy;
    peak_energy = m.dominant_gate_energy;
    peak_index = m.dominant_gate_index;
  })
  pub active : m.active_gate_count ≡ count_active (active_threshold m.dominant_gate_energy) gates

abbrev start : PeakScan
start = record { total = 0; peak_energy = 0; peak_index = negsuc 0 }

-- The first loop's result for sixteen 16-bit gates.
frame_total :
    (gates : List ℕ)
    → length gates ≡ 16
    → All IsU16 gates
    → (scan_peak gates 0 start).total ≡ sum gates
frame_total gates n h = scan_peak_total gates 0 start (omega (arith, sum-le gates h)) ∙ omega arith

active_of_scan :
    (threshold : ℕ) (gates : List ℕ)
    → length gates ≡ 16
    → (scan_clusters threshold gates
        (record { active_count = 0; cluster_count = 0; cluster_open = false })).active_count
      ≡ count_active threshold gates
active_of_scan threshold gates n =
    (scan_clusters_counts threshold gates _ (omega arith) (omega arith)).0 ∙ omega arith

text-IsInRange :
    (t : TextFrame)
    → ((range : ℕ) → t.range_cm ≡ some range → range < 65536)
    → IsInRange (apply_text_metrics (record default_metrics { valid = true }) t)
unfolding apply_text_metrics
text-IsInRange t v = elim (Option-cases t.range_cm) [
  | inl no_range ↦ rw no_range (ground arith)
  | inr (range, e) ↦ let fits = v range e in rw e (ground arith)
]

apply_energy-DescribesGates :
    (m : RadarDerivedMetrics) (e : EnergyFrame)
    → IsEnergyFrame e
    → m.total_gate_energy ≡ 0
    → m.active_gate_count ≡ 0
    → DescribesGates e.gates (apply_energy_metrics m e)
unfolding apply_energy_metrics
apply_energy-DescribesGates m e v t0 a0 =
    rw (t0, a0)
      (record {
        total = frame_total e.gates v.sixteen v.gates_fit;
        peak = scan_frame-IsPeak e.gates 0;
        active =
            active_of_scan (active_threshold (scan_peak e.gates 0 start).peak_energy) e.gates
              v.sixteen;
      })

peak_index_bounds :
    (gates : List ℕ) (st : PeakScan)
    → IsPeak gates st
    → length gates ≡ 16
    → (negsuc 0 ≤ℤ st.peak_index) × (st.peak_index ≤ℤ pos 15)
peak_index_bounds gates st peak n = elim (peak.stands) [
  | inl (nowhere, e) ↦ ground arith
  | inr (i, at, elem, positive, lower) ↦ ground (arith, get_elem?-lt_length gates i elem)
]

peak_energy_bound :
    (gates : List ℕ) (st : PeakScan) → IsPeak gates st → All IsU16 gates → st.peak_energy ≤ 65535
peak_energy_bound gates st peak fits = elim (peak.stands) [
  | inl (nowhere, nothing) ↦ omega arith
  | inr (i, at, elem, positive, lower) ↦
      let fit = All-get_elem? IsU16 gates i fits elem in omega arith
]

apply_energy-IsInRange :
    (valid : Bool) (e : EnergyFrame)
    → IsEnergyFrame e
    → IsInRange
        (apply_energy_metrics (record default_metrics { valid = valid; energy_based = true }) e)
unfolding apply_energy_metrics estimate_people score_activity
apply_energy-IsInRange valid e v =
    let peak = scan_peak e.gates 0 start in
    let (low, high) = peak_index_bounds e.gates peak (scan_frame-IsPeak e.gates 0) v.sixteen in
    let active = active_of_scan (active_threshold peak.peak_energy) e.gates v.sixteen in
    let (fewer, sixteen, runs) = count_runs-le (active_threshold peak.peak_energy) false e.gates in
    record {
      few_people = ground arith;
      sixteen_gates = omega arith;
      percent = omega arith;
      index_low = low;
      index_high = high;
      distance_low = ground arith;
      distance_high = ground arith;
      strongest = peak_energy_bound e.gates peak (scan_frame-IsPeak e.gates 0) v.gates_fit;
      total =
          omega (
            arith,
            frame_total e.gates v.sixteen v.gates_fit,
            sum-le e.gates v.gates_fit,
            v.sixteen,
          );
    }

suppress_clutter-IsInRange :
    (m : RadarDerivedMetrics) (e : EnergyFrame) → IsInRange m → IsInRange (suppress_clutter m e)
unfolding suppress_clutter
suppress_clutter-IsInRange m e v = ground arith

-- Every number derived from a parsed frame lies in its range: at most four people and sixteen
-- gates, a score up to a hundred, an index from -1 to 15, a distance from -1 to the 16-bit limit, a
-- strongest gate of at most 65535 and a total of at most sixteen times that.
pub build-IsInRange :
    (frame : Option RadarFrame) (gpio_presence : Bool)
    → IsParsed frame
    → IsInRange (build_radar_derived_metrics frame gpio_presence)
unfolding build_radar_derived_metrics
build-IsInRange none gpio v = unfold apply_gpio_metrics in ground arith
build-IsInRange (some (energy e)) gpio v =
    suppress_clutter-IsInRange _ e (apply_energy-IsInRange true e v)
build-IsInRange (some (text t)) gpio v = text-IsInRange t v
build-IsInRange (some (generic g)) gpio v = unfold apply_gpio_metrics in ground arith

suppress_clutter-DescribesGates :
    (m : RadarDerivedMetrics) (e : EnergyFrame)
    → DescribesGates e.gates m
    → DescribesGates e.gates (suppress_clutter m e)
unfolding suppress_clutter
suppress_clutter-DescribesGates m e d =
    elim (Bool-cases (energy_frame_looks_like_near_field_clutter m e)) [
      | inl clutter ↦ rw clutter (record { total = d.total; peak = d.peak; active = d.active })
      | inr clear ↦ rw clear d
    ]

-- The metrics of an energy frame describe its gates: the exact total, the greatest gate with the
-- first position at which it stands, and the number of gates at or over the threshold.
pub build-DescribesGates :
    (e : EnergyFrame) (gpio_presence : Bool)
    → IsEnergyFrame e
    → DescribesGates e.gates (build_radar_derived_metrics (some (energy e)) gpio_presence)
unfolding build_radar_derived_metrics
build-DescribesGates e gpio v =
    suppress_clutter-DescribesGates _ e (apply_energy-DescribesGates _ e v refl refl)
