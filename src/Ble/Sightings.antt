-- ===== src/Ble/Sightings.antt =====
-- What `record_ble_advertisement` does to the sightings.
use esp_wave_rider.Base.{
  ℕ, ◌<◌, ◌≡◌, ◌≢◌, sym, ap, subst, ◌∙◌, true, false, some, some-injective, List, [], ◌∷◌, length,
  get_elem?, set, get_elem?-set_self, get_elem?-set_ne, get_elem?-lt_length, All-get_elem?, arith,
}
use esp_wave_rider.Base.Int.{ℤ}
use esp_wave_rider.Text.{Text}
use esp_wave_rider.Text.Laws.{text_eq→eq, text_eq_refl, is_empty_of_ne, is_empty_of_length}
use esp_wave_rider.Ble.{
  BleBeaconSightingState, BleIdentityTagState, new_sighting, holds_address, choose_slot,
  record_ble_advertisement,
}
use esp_wave_rider.Ble.Slots.{Slot, known, free, oldest, choose_slot-Slot}
use native.Mathlib.Decide.{ℕ_discrete}

-- No two occupied slots hold one address.
abbrev pub IsUnique : List BleBeaconSightingState → Type 0
IsUnique sightings =
    (i j : ℕ) (s t : BleBeaconSightingState)
    → get_elem? sightings i ≡ some s
    → get_elem? sightings j ≡ some t
    → s.occupied ≡ true
    → t.occupied ≡ true
    → s.address ≡ t.address
    → i ≡ j

Slot-lt :
    (address : Text) (ss : List BleBeaconSightingState) (i : ℕ) → Slot address ss i → i < length ss
Slot-lt address ss i (known s at h) = get_elem?-lt_length ss i at
Slot-lt address ss i (free s at a u) = get_elem?-lt_length ss i at
Slot-lt address ss i (oldest s at a f m) = get_elem?-lt_length ss i at

module _ (ss : List BleBeaconSightingState) (tags : List BleIdentityTagState)
    (address name service_uuid : Text) (rssi : ℤ) (now_ms : ℕ) (named : address ≢ [])
    (slots : 0 < length ss) where
  recorded :
      (record_ble_advertisement ss tags address name service_uuid rssi now_ms).0
      ≡ set ss (choose_slot address ss) (new_sighting address name service_uuid rssi now_ms)
  unfolding record_ble_advertisement
  recorded = rw (is_empty_of_ne address named, is_empty_of_length ss slots)

holds_of_eq :
    (address : Text) (t : BleBeaconSightingState)
    → t.occupied ≡ true
    → t.address ≡ address
    → holds_address address t ≡ true
unfolding holds_address
holds_of_eq address t occ e = rw (occ, e) (text_eq_refl address)

holds_parts :
    (address : Text) (t : BleBeaconSightingState)
    → holds_address address t ≡ true
    → (t.occupied ≡ true) × (t.address ≡ address)
unfolding holds_address
holds_parts address t h = (ground arith, text_eq→eq t.address address (ground arith))

-- Where no address stands twice, only the chosen slot can hold the address.
only-Slot :
    (address : Text) (ss : List BleBeaconSightingState) (i k : ℕ) (t : BleBeaconSightingState)
    → IsUnique ss
    → Slot address ss i
    → get_elem? ss k ≡ some t
    → t.occupied ≡ true
    → t.address ≡ address
    → i ≡ k
only-Slot address ss i k t unique (known s at h) at_k occ e =
    let (occ_s, e_s) = holds_parts address s h in unique i k s t at at_k occ_s occ (e_s ∙ sym e)
only-Slot address ss i k t unique (free s at absent u) at_k occ e = absurd (
    cc (
      holds_of_eq address t occ e,
      All-get_elem? (λ x. holds_address address x ≡ false) ss k absent at_k,
    ))
only-Slot address ss i k t unique (oldest s at absent f m) at_k occ e = absurd (
    cc (
      holds_of_eq address t occ e,
      All-get_elem? (λ x. holds_address address x ≡ false) ss k absent at_k,
    ))

set-IsUnique :
    (ss : List BleBeaconSightingState) (i : ℕ) (v : BleBeaconSightingState)
    → i < length ss
    → IsUnique ss
    → ((k : ℕ) (t : BleBeaconSightingState)
        → get_elem? ss k ≡ some t
        → t.occupied ≡ true
        → t.address ≡ v.address
        → i ≡ k)
    → IsUnique (set ss i v)
set-IsUnique ss i v inside unique only j k s t at_j at_k occ_s occ_t e = elim (ℕ_discrete i j) [
  | yes p ↦ elim (ℕ_discrete i k) [
    | yes q ↦ sym p ∙ q
    | no q ↦
        let at_k' = sym (get_elem?-set_ne ss i k v q) ∙ at_k in
        let s_is : s ≡ v = new_is_v j s p at_j in
        sym p ∙ only k t at_k' occ_t (sym e ∙ ap (λ (x : BleBeaconSightingState). x.address) s_is)
  ]
  | no p ↦
      let at_j' = sym (get_elem?-set_ne ss i j v p) ∙ at_j in
      elim (ℕ_discrete i k) [
        | yes q ↦
            let t_is : t ≡ v = new_is_v k t q at_k in
            sym (only j s at_j' occ_s (e ∙ ap (λ (x : BleBeaconSightingState). x.address) t_is)) ∙ q
        | no q ↦ unique j k s t at_j' (sym (get_elem?-set_ne ss i k v q) ∙ at_k) occ_s occ_t e
      ]
]
  where
    new_is_v :
        (m : ℕ) (x : BleBeaconSightingState) → i ≡ m → get_elem? (set ss i v) m ≡ some x → x ≡ v
    new_is_v m x e at = some-injective x v (
        sym at
        ∙ subst (λ n. get_elem? (set ss i v) n ≡ some v) e (get_elem?-set_self ss i v inside))

-- Where no two occupied slots hold one address, none do after recording an advertisement.
pub record-IsUnique :
    (ss : List BleBeaconSightingState) (tags : List BleIdentityTagState)
    (address name service_uuid : Text) (rssi : ℤ) (now_ms : ℕ)
    → IsUnique ss
    → IsUnique (record_ble_advertisement ss tags address name service_uuid rssi now_ms).0
record-IsUnique ss tags [] name uuid rssi now unique = unfold record_ble_advertisement in unique
record-IsUnique [] tags (c ∷ a) name uuid rssi now unique =
    unfold record_ble_advertisement in unique
record-IsUnique (s ∷ ss) tags (c ∷ a) name uuid rssi now unique =
    let table = s ∷ ss in
    let address = c ∷ a in
    let i = choose_slot address table in
    let chosen = choose_slot-Slot address table (omega arith) in
    subst IsUnique
      (sym
        (recorded table tags address name uuid rssi now (λ e. absurd (ground arith)) (omega arith)))
      (set-IsUnique table i (new_sighting address name uuid rssi now)
        (Slot-lt address table i chosen) unique
        (λ k t at occ e. only-Slot address table i k t unique chosen at occ e))
