-- ===== src/Metrics/Thresholds.antt =====
-- The two thresholds that the sensitivity scales.
use esp_wave_rider.Base.{ℕ, ◌+◌, ◌-◌, ◌*◌, ◌/◌, ◌%◌, ◌^◌, ◌≤◌, ◌<◌, ◌≡◌, arith, max}
use esp_wave_rider.Metrics.{RadarTuning}
use esp_wave_rider.Metrics.Candidate.{
  clamp, effective_min_gate_energy, effective_min_activity_score,
}

-- The ranges of the fields' types.
pub record IsTuning (t : RadarTuning) : Type 0 where
  pub range_fits : t.max_detection_range_cm < 65536
  pub energy_fits : t.min_gate_energy < 65536
  pub sensitivity_fits : t.sensitivity_percent < 256
  pub gates_fit : t.min_active_gates < 256
  pub activity_fits : t.min_activity_score < 256

clamp_bounds : (x lo hi : ℕ) → lo ≤ hi → (lo ≤ clamp x lo hi) × (clamp x lo hi ≤ hi)
unfolding clamp
clamp_bounds x lo hi h = ground arith

clamp_id : (x lo hi : ℕ) → lo ≤ x → x ≤ hi → clamp x lo hi ≡ x
unfolding clamp
clamp_id x lo hi h k = ground arith

-- The factor that the sensitivity stands for, in percent: 140 at the lowest, 50 at the highest.
unfoldable pub sensitivity_factor : RadarTuning → ℕ
sensitivity_factor t = 150 - clamp t.sensitivity_percent 10 100

pub sensitivity_factor_bounds :
    (t : RadarTuning) → (50 ≤ sensitivity_factor t) × (sensitivity_factor t ≤ 140)
unfolding sensitivity_factor
sensitivity_factor_bounds t = omega (arith, clamp_bounds t.sensitivity_percent 10 100 (omega arith))

scaled-lt : (e f : ℕ) → e < 65536 → f ≤ 140 → e * f ≤ 65535 * 140
scaled-lt e f h k = grind arith

-- The intended threshold: the configured energy scaled by the factor, ten at least.
unfoldable pub intended_min_gate_energy : RadarTuning → ℕ
unfolding sensitivity_factor
intended_min_gate_energy t = max 10 (t.min_gate_energy * sensitivity_factor t / 100)

-- The function returns the low sixteen bits of the intended threshold.
pub effective_min_gate_energy_low_bits :
    (t : RadarTuning)
    → IsTuning t
    → effective_min_gate_energy t ≡ intended_min_gate_energy t % 2 ^ 16
unfolding effective_min_gate_energy intended_min_gate_energy sensitivity_factor
effective_min_gate_energy_low_bits t v =
    let f = 150 - clamp t.sensitivity_percent 10 100 in
    let fits : t.min_gate_energy * f ≤ 65535 * 140 =
      scaled-lt t.min_gate_energy f v.energy_fits
        (omega (arith, clamp_bounds t.sensitivity_percent 10 100 (omega arith))) in
    let whole : t.min_gate_energy * f % 2 ^ 32 ≡ t.min_gate_energy * f = omega arith in rw whole

-- For a tuning of fields that fit their types, with a sensitivity of at least 50 percent, nothing
-- is cut off: the threshold is the intended one, at least ten, and at most the configured energy
-- (or ten).
pub effective_min_gate_energy_exact :
    (t : RadarTuning)
    → IsTuning t
    → 50 ≤ t.sensitivity_percent
    → (effective_min_gate_energy t ≡ intended_min_gate_energy t)
      × (10 ≤ effective_min_gate_energy t)
      × (effective_min_gate_energy t ≤ max 10 t.min_gate_energy)
unfolding intended_min_gate_energy sensitivity_factor clamp
effective_min_gate_energy_exact t v high =
    let f = sensitivity_factor t in
    let low : f ≤ 100 = unfold sensitivity_factor clamp in ground arith in
    let below : t.min_gate_energy * f ≤ t.min_gate_energy * 100 = grind arith in
    let bits = effective_min_gate_energy_low_bits t v in (omega arith, omega arith, omega arith)

-- For a tuning of fields that fit their types, where the intended threshold needs seventeen bits,
-- the function returns 65536 less, which is below the configured energy, though the sensitivity
-- asks for more than that.
pub effective_min_gate_energy_wraps :
    (t : RadarTuning)
    → IsTuning t
    → 2 ^ 16 ≤ intended_min_gate_energy t
    → (effective_min_gate_energy t + 2 ^ 16 ≡ intended_min_gate_energy t)
      × (t.min_gate_energy < intended_min_gate_energy t)
      × (effective_min_gate_energy t < t.min_gate_energy)
unfolding intended_min_gate_energy
effective_min_gate_energy_wraps t v wide =
    let f = sensitivity_factor t in
    let high : f ≤ 140 = (sensitivity_factor_bounds t).1 in
    let fits : t.min_gate_energy * f ≤ t.min_gate_energy * 140 = grind arith in
    let bits = effective_min_gate_energy_low_bits t v in (omega arith, omega arith, omega arith)

-- The activity threshold is the scaled score, brought into 1 to 100, and nothing wraps.
pub effective_min_activity_score_exact :
    (t : RadarTuning)
    → IsTuning t
    → (effective_min_activity_score t
        ≡ clamp (t.min_activity_score * sensitivity_factor t / 100) 1 100)
      × (1 ≤ effective_min_activity_score t)
      × (effective_min_activity_score t ≤ 100)
unfolding effective_min_activity_score sensitivity_factor
effective_min_activity_score_exact t v =
    let f = 150 - clamp t.sensitivity_percent 10 100 in
    let fits : t.min_activity_score * f ≤ 65535 * 140 =
      scaled-lt t.min_activity_score f (omega arith)
        (omega (arith, clamp_bounds t.sensitivity_percent 10 100 (omega arith))) in
    let whole : t.min_activity_score * f % 2 ^ 32 ≡ t.min_activity_score * f = omega arith in
    let (lo, hi) = clamp_bounds (t.min_activity_score * f % 2 ^ 32 / 100) 1 100 (omega arith) in
    (rw whole, lo, hi)
