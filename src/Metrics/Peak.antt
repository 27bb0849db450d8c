-- ===== src/Metrics/Peak.antt =====
-- The first loop of `apply_energy_metrics`: the sum of the gates, and the first greatest gate.
use esp_wave_rider.Base.{
  ℕ, ◌+◌, ◌*◌, ◌%◌, ◌^◌, ◌≤◌, ◌<◌, ◌≡◌, refl, sym, subst, ◌∙◌, ◌⊎◌, inl, inr, some, List, [], ◌∷◌,
  ◌++◌, length, get_elem?, take, ltb, if◌then◌else◌, All, All-append, All-map, take-append_length,
  take-append_left, get_elem?-append_length, arith, tests, Bool-cases, append_assoc, append-nil,
  length-append, get_elem?-append_left, get_elem?-lt_length,
}
use esp_wave_rider.Base.Int.{pos, negsuc}
use esp_wave_rider.Metrics.{PeakScan, scan_peak}

abbrev pub sum : List ℕ → ℕ
sum [] = 0
sum (x ∷ xs) = x + sum xs

pub sum-le : (gates : List ℕ) → All (λ g. g < 65536) gates → sum gates ≤ 65535 * length gates
sum-le [] h = omega arith
sum-le (g ∷ gs) (hg, hs) = omega (arith, sum-le gs hs)

-- Below 2 ^ 32 no addition of the loop wraps.
pub scan_peak_total :
    (gates : List ℕ) (i : ℕ) (st : PeakScan)
    → st.total + sum gates < 2 ^ 32
    → (scan_peak gates i st).total ≡ st.total + sum gates
unfolding scan_peak
scan_peak_total [] i st h = omega arith
scan_peak_total (g ∷ gs) i st h =
    let st' : PeakScan = record {
      total = (st.total + g) % 2 ^ 32;
      peak_energy = if ltb st.peak_energy g then g else st.peak_energy;
      peak_index = if ltb st.peak_energy g then pos i else st.peak_index;
    } in
    let step : st'.total ≡ st.total + g = omega arith in
    omega (arith, scan_peak_total gs (i + 1) st' (omega arith))

-- What the loop knows of the gates that it has seen: the peak bounds them all, and stands first at
-- the index, or there is none and they are all zero.
pub record IsPeak (gates : List ℕ) (st : PeakScan) : Type 0 where
  pub bounds : All (λ g. g ≤ st.peak_energy) gates
  pub stands :
      ((st.peak_index ≡ negsuc 0) × (st.peak_energy ≡ 0))
      ⊎ ((i : ℕ) × (st.peak_index ≡ pos i)
          × (get_elem? gates i ≡ some st.peak_energy)
          × (0 < st.peak_energy)
          × All (λ g. g < st.peak_energy) (take i gates))

-- A higher gate becomes the peak: it stands behind the gates seen, which are all lower.
raise-IsPeak :
    (before : List ℕ) (g total : ℕ) (st : PeakScan)
    → IsPeak before st
    → st.peak_energy < g
    → IsPeak
        (before ++ g ∷ [])
        (record { total = total; peak_energy = g; peak_index = pos (length before) })
raise-IsPeak before g total st peak higher =
    let lower : All (λ x. x < g) before =
      All-map (λ x. x ≤ st.peak_energy) (λ x. x < g) before (λ x le. omega arith) peak.bounds in
    record {
      bounds =
          All-append (λ x. x ≤ g) before (g ∷ [])
            (All-map (λ x. x < g) (λ x. x ≤ g) before (λ x lt. omega arith) lower) (omega arith);
      stands = inr (
        length before,
        refl,
        get_elem?-append_length before g,
        omega arith,
        subst (All (λ x. x < g)) (sym (take-append_length before (g ∷ []))) lower,
      );
    }

-- Any other gate leaves the peak where it stands.
keep-IsPeak :
    (before : List ℕ) (g total : ℕ) (st : PeakScan)
    → IsPeak before st
    → g ≤ st.peak_energy
    → IsPeak
        (before ++ g ∷ [])
        (record { total = total; peak_energy = st.peak_energy; peak_index = st.peak_index })
keep-IsPeak before g total st peak low = record {
  bounds = All-append (λ x. x ≤ st.peak_energy) before (g ∷ []) peak.bounds (omega arith);
  stands = elim (peak.stands) [
    | inl nothing ↦ inl nothing
    | inr (i, at, elem, positive, lower) ↦
        let inside : i < length before = get_elem?-lt_length before i elem in
        inr (
          i,
          at,
          get_elem?-append_left before (g ∷ []) i inside ∙ elem,
          positive,
          subst (All (λ x. x < st.peak_energy))
              (sym (take-append_left i before (g ∷ []) (omega arith))) lower,
        )
  ];
}

step-IsPeak :
    (before : List ℕ) (g total : ℕ) (st : PeakScan)
    → IsPeak before st
    → IsPeak (before ++ g ∷ []) (record {
      total = total;
      peak_energy = if ltb st.peak_energy g then g else st.peak_energy;
      peak_index = if ltb st.peak_energy g then pos (length before) else st.peak_index;
    })
step-IsPeak before g total st peak = elim (Bool-cases (ltb st.peak_energy g)) [
  | inl higher ↦ rw higher (raise-IsPeak before g total st peak (omega (tests, higher)))
  | inr lower ↦ rw lower (keep-IsPeak before g total st peak (ground arith))
]

scan_peak-IsPeak :
    (gates before : List ℕ) (st : PeakScan)
    → IsPeak before st
    → IsPeak (before ++ gates) (scan_peak gates (length before) st)
unfolding scan_peak
scan_peak-IsPeak [] before st peak = rw append-nil peak
scan_peak-IsPeak (g ∷ gs) before st peak =
    let n : length (before ++ g ∷ []) ≡ length before + 1 = length-append before (g ∷ []) in
    rw (n, append_assoc before (g ∷ []) gs) at
      (scan_peak-IsPeak gs (before ++ g ∷ []) _
        (step-IsPeak before g ((st.total + g) % 2 ^ 32) st peak))

-- From the start of a frame: the greatest gate, and the first position at which it stands.
pub scan_frame-IsPeak :
    (gates : List ℕ) (total : ℕ)
    → IsPeak gates
        (scan_peak gates 0 (record { total = total; peak_energy = 0; peak_index = negsuc 0 }))
scan_frame-IsPeak gates total =
    scan_peak-IsPeak gates [] _ (record { bounds = tt; stands = inl (refl, refl) })
