-- ===== src/Ble/Slots.antt =====
-- Which slot of the sightings an advertisement takes.
use esp_wave_rider.Base.{
  ℕ, suc, ◌+◌, ◌≤◌, ◌<◌, ◌≡◌, refl, ap, ◌∙◌, true, false, Option, none, some, List, [], ◌∷◌, length,
  get_elem?, All, ltb, arith, tests, Bool-cases, inl, inr,
}
use esp_wave_rider.Text.{Text}
use esp_wave_rider.Ble.{
  BleBeaconSightingState, holds_address, find_slot, oldest_from, oldest_index, choose_slot,
}

abbrev pub Absent : Text → List BleBeaconSightingState → Type 0
Absent address = All (λ s. holds_address address s ≡ false)

abbrev pub Full : List BleBeaconSightingState → Type 0
Full = All (λ s. s.occupied ≡ true)

-- What the first loop found among `sightings`, which stand from `index` on.
data Found (address : Text) (sightings : List BleBeaconSightingState) (index : ℕ) (slot : Option ℕ)
    : Option ℕ → Type 0 where
  hit :
      (j k : ℕ) (s : BleBeaconSightingState)
      → j ≡ index + k
      → get_elem? sightings k ≡ some s
      → holds_address address s ≡ true
      → Found address sightings index slot (some j)
  kept :
      (j : ℕ)
      → Absent address sightings
      → slot ≡ some j
      → Found address sightings index slot (some j)
  opened :
      (j k : ℕ) (s : BleBeaconSightingState)
      → Absent address sightings
      → slot ≡ none
      → j ≡ index + k
      → get_elem? sightings k ≡ some s
      → s.occupied ≡ false
      → Found address sightings index slot (some j)
  full :
      Absent address sightings
      → Full sightings
      → slot ≡ none
      → Found address sightings index slot none

module _ (address : Text) where
  Found-occupied :
      (s : BleBeaconSightingState) (ss : List BleBeaconSightingState) (index : ℕ)
      (slot r : Option ℕ)
      → holds_address address s ≡ false
      → s.occupied ≡ true
      → Found address ss (index + 1) slot r
      → Found address (s ∷ ss) index slot r
  Found-occupied s ss index slot r miss occ (hit j k t e at h) = hit j (suc k) t (omega arith) at h
  Found-occupied s ss index slot r miss occ (kept j none_holds e) = kept j (miss, none_holds) e
  Found-occupied s ss index slot r miss occ (opened j k t none_holds e i at free) =
      opened j (suc k) t (miss, none_holds) e (omega arith) at free
  Found-occupied s ss index slot r miss occ (full none_holds all e) =
      full (miss, none_holds) (occ, all) e

  Found-kept :
      (s : BleBeaconSightingState) (ss : List BleBeaconSightingState) (index i : ℕ) (r : Option ℕ)
      → holds_address address s ≡ false
      → Found address ss (index + 1) (some i) r
      → Found address (s ∷ ss) index (some i) r
  Found-kept s ss index i r miss (hit j k t e at h) = hit j (suc k) t (omega arith) at h
  Found-kept s ss index i r miss (kept j none_holds e) = kept j (miss, none_holds) e
  Found-kept s ss index i r miss (opened j k t none_holds e n at free) = absurd (ground arith)
  Found-kept s ss index i r miss (full none_holds all e) = absurd (ground arith)

  Found-opened :
      (s : BleBeaconSightingState) (ss : List BleBeaconSightingState) (index : ℕ) (r : Option ℕ)
      → holds_address address s ≡ false
      → s.occupied ≡ false
      → Found address ss (index + 1) (some index) r
      → Found address (s ∷ ss) index none r
  Found-opened s ss index r miss free (hit j k t e at h) = hit j (suc k) t (omega arith) at h
  Found-opened s ss index r miss free (kept j none_holds e) =
      opened j 0 s (miss, none_holds) refl (ground arith) refl free
  Found-opened s ss index r miss free (opened j k t none_holds e n at free') = absurd (ground arith)
  Found-opened s ss index r miss free (full none_holds all e) = absurd (ground arith)

  find_slot-Found :
      (ss : List BleBeaconSightingState) (index : ℕ) (slot : Option ℕ)
      → Found address ss index slot (find_slot address ss index slot)
  unfolding find_slot
  find_slot-Found [] index none = full tt tt refl
  find_slot-Found [] index (some j) = kept j tt refl
  find_slot-Found (s ∷ ss) index (some i) = elim (Bool-cases (holds_address address s)) [
    | inl here ↦ rw here (hit index 0 s (omega arith) refl here)
    | inr miss ↦ elim (Bool-cases s.occupied) [
      | inl occ ↦
          simp (miss, occ)
            (Found-kept s ss index i _ miss (find_slot-Found ss (index + 1) (some i)))
      | inr free ↦
          simp (miss, free)
            (Found-kept s ss index i _ miss (find_slot-Found ss (index + 1) (some i)))
    ]
  ]
  find_slot-Found (s ∷ ss) index none = elim (Bool-cases (holds_address address s)) [
    | inl here ↦ rw here (hit index 0 s (omega arith) refl here)
    | inr miss ↦ elim (Bool-cases s.occupied) [
      | inl occ ↦
          simp (miss, occ)
            (Found-occupied s ss index none _ miss occ (find_slot-Found ss (index + 1) none))
      | inr free ↦
          simp (miss, free)
            (Found-opened s ss index _ miss free (find_slot-Found ss (index + 1) (some index)))
    ]
  ]

-- What `min_by_key` returns over the slots behind `index`, given the oldest slot before them.
oldest_from-oldest :
    (ss all : List BleBeaconSightingState) (index best : ℕ) (b : BleBeaconSightingState)
    → ((k : ℕ) (s : BleBeaconSightingState)
        → get_elem? ss k ≡ some s
        → get_elem? all (index + k) ≡ some s)
    → get_elem? all best ≡ some b
    → (o : BleBeaconSightingState) × (get_elem? all (oldest_from ss index best b.last_seen_ms)
        ≡ some o)
      × (o.last_seen_ms ≤ b.last_seen_ms)
      × All (λ s. o.last_seen_ms ≤ s.last_seen_ms) ss
unfolding oldest_from
oldest_from-oldest [] all index best b sub stands = (b, stands, omega arith, tt)
oldest_from-oldest (s ∷ ss) all index best b sub stands =
    let here : get_elem? all index ≡ some s = ap (get_elem? all) (omega arith) ∙ sub 0 s refl in
    let later : (k : ℕ) (t : BleBeaconSightingState)
        → get_elem? ss k ≡ some t
        → get_elem? all (index + 1 + k) ≡ some t =
      λ k t e. ap (get_elem? all) (omega arith) ∙ sub (suc k) t e in
    elim (Bool-cases (ltb s.last_seen_ms b.last_seen_ms)) [
      | inl older ↦
          let (o, at, le, all_le) = oldest_from-oldest ss all (index + 1) index s later here in
          (o, simp older at, omega (tests, older), (le, all_le))
      | inr newer ↦
          let (o, at, le, all_le) = oldest_from-oldest ss all (index + 1) best b later stands in
          (o, simp newer at, le, (ground arith, all_le))
    ]

oldest_index-oldest :
    (ss : List BleBeaconSightingState)
    → 0 < length ss
    → (o : BleBeaconSightingState) × (get_elem? ss (oldest_index ss) ≡ some o)
      × All (λ s. o.last_seen_ms ≤ s.last_seen_ms) ss
unfolding oldest_index
oldest_index-oldest [] h = absurd (omega arith)
oldest_index-oldest (s ∷ ss) h =
    let (o, at, le, all_le) =
      oldest_from-oldest ss (s ∷ ss) 1 0 s
        (λ k t e. ap (get_elem? (s ∷ ss)) {y = suc k} (omega arith) ∙ e) refl in
    (o, at, (le, all_le))

-- The slot that an advertisement of the address takes, in this order: the one that holds the
-- address, a free one, or the oldest of a full table.
pub data Slot (address : Text) (sightings : List BleBeaconSightingState) (i : ℕ) : Type 0 where
  known :
      (s : BleBeaconSightingState)
      → get_elem? sightings i ≡ some s
      → holds_address address s ≡ true
      → Slot address sightings i
  free :
      (s : BleBeaconSightingState)
      → get_elem? sightings i ≡ some s
      → Absent address sightings
      → s.occupied ≡ false
      → Slot address sightings i
  oldest :
      (s : BleBeaconSightingState)
      → get_elem? sightings i ≡ some s
      → Absent address sightings
      → Full sightings
      → All (λ t. s.last_seen_ms ≤ t.last_seen_ms) sightings
      → Slot address sightings i

Found-Slot :
    (address : Text) (sightings : List BleBeaconSightingState) (r : Option ℕ)
    → 0 < length sightings
    → Found address sightings 0 none r
    → Slot address sightings (elim r [ some slot ↦ slot | none ↦ oldest_index sightings ])
Found-Slot address ss r h (hit j k s e at holds) =
    known s (ap (get_elem? ss) (omega arith) ∙ at) holds
Found-Slot address ss r h (kept j absent e) = absurd (ground arith)
Found-Slot address ss r h (opened j k s absent e n at unused) =
    free s (ap (get_elem? ss) (omega arith) ∙ at) absent unused
Found-Slot address ss r h (full absent all e) =
    let (o, at, min) = oldest_index-oldest ss h in oldest o at absent all min

-- In a table with a slot, the choice is one of the three.
pub choose_slot-Slot :
    (address : Text) (sightings : List BleBeaconSightingState)
    → 0 < length sightings
    → Slot address sightings (choose_slot address sightings)
unfolding choose_slot
choose_slot-Slot address ss h = Found-Slot address ss _ h (find_slot-Found address ss 0 none)
