-- ===== src/Radar/RoundTrip.antt =====
-- The energy frame as the radar sends it, and that `parse_radar_frame` reads it back.
use esp_wave_rider.Base.{
  ℕ, ◌+◌, ◌-◌, ◌*◌, ◌/◌, ◌%◌, ◌≡◌, refl, sym, ap, ◌∙◌, true, not, some, List, [], ◌∷◌, ◌++◌, length,
  get_elem?, leb, ◌==◌, arith, append_assoc, length-append, get_elem?-append_right,
  drop-append_length,
}
use esp_wave_rider.Radar.{
  EnergyFrame, energy, ok, energy_header, energy_footer, starts_with_energy_header,
  ends_with_energy_footer, read_le16, read_gates, read_energy_fields, try_parse_energy_frame,
  parse_radar_frame,
}
use esp_wave_rider.Text.Laws.{text_eq_refl}

-- A 16-bit number, low byte first.
abbrev pub le16_bytes : ℕ → List ℕ
le16_bytes n = (n % 256) ∷ (n / 256) ∷ []

abbrev pub gate_bytes : List ℕ → List ℕ
gate_bytes [] = []
gate_bytes (g ∷ gs) = (g % 256) ∷ (g / 256) ∷ gate_bytes gs

-- The nine bytes in front of the gates.
abbrev pub frame_head : ℕ → ℕ → ℕ → List ℕ
frame_head payload_length presence distance_cm =
    energy_header
    ++ (payload_length % 256)
      ∷ (payload_length / 256)
      ∷ presence
      ∷ (distance_cm % 256)
      ∷ (distance_cm / 256)
      ∷ []

abbrev pub frame_bytes : ℕ → ℕ → ℕ → List ℕ → List ℕ
frame_bytes payload_length presence distance_cm gates =
    frame_head payload_length presence distance_cm ++ (gate_bytes gates ++ energy_footer)

-- The frame that those bytes stand for.
abbrev pub sent_frame : ℕ → ℕ → ℕ → List ℕ → EnergyFrame
sent_frame payload_length presence distance_cm gates = record {
  length = 45;
  payload_length = payload_length;
  presence = not (presence == 0);
  distance_cm = distance_cm;
  gates = gates;
}

le16_split : (n : ℕ) → n % 256 + n / 256 * 256 ≡ n
le16_split n = omega arith

length-gate_bytes : (gs : List ℕ) → length (gate_bytes gs) ≡ 2 * length gs
length-gate_bytes [] = refl
length-gate_bytes (g ∷ gs) = omega (arith, length-gate_bytes gs)

read_le16_at :
    (front rest : List ℕ) (n offset : ℕ)
    → offset ≡ length front
    → read_le16 (front ++ (n % 256) ∷ (n / 256) ∷ rest) offset ≡ some n
unfolding read_le16
read_le16_at front rest n offset e =
    let bytes = (n % 256) ∷ (n / 256) ∷ rest in
    let first : get_elem? (front ++ bytes) offset ≡ some (n % 256) =
      ap (get_elem? (front ++ bytes)) (omega arith) ∙ get_elem?-append_right front bytes 0 in
    let second : get_elem? (front ++ bytes) (offset + 1) ≡ some (n / 256) =
      ap (get_elem? (front ++ bytes)) (omega arith) ∙ get_elem?-append_right front bytes 1 in
    rw (first, second, le16_split)

-- Gate `i` stands behind the head and the gates before it.
read_gates-gate_bytes :
    (gs front rest : List ℕ) (i : ℕ)
    → length front ≡ 9 + i * 2
    → read_gates (front ++ (gate_bytes gs ++ rest)) (length gs) i ≡ some gs
unfolding read_gates
read_gates-gate_bytes [] front rest i e = refl
read_gates-gate_bytes (g ∷ gs) front rest i e =
    let pair = (g % 256) ∷ (g / 256) ∷ [] in
    let later : read_gates (front ++ (gate_bytes (g ∷ gs) ++ rest)) (length gs) (i + 1) ≡ some gs =
      ap (λ l. read_gates l (length gs) (i + 1))
        (sym (append_assoc front pair (gate_bytes gs ++ rest)))
      ∙ read_gates-gate_bytes gs (front ++ pair) rest (i + 1)
          (omega (arith, length-append front pair)) in
    rw (read_le16_at front (gate_bytes gs ++ rest) g (9 + i * 2) (sym e), later)

ends_with_energy_footer-append :
    (front : List ℕ) → ends_with_energy_footer (front ++ energy_footer) ≡ true
unfolding ends_with_energy_footer
ends_with_energy_footer-append front =
    let n : length (front ++ energy_footer) - 4 ≡ length front =
      omega (arith, length-append front energy_footer) in
    let long : leb 4 (length (front ++ energy_footer)) ≡ true =
      ground (arith, length-append front energy_footer) in
    rw (long, n, drop-append_length front energy_footer) (text_eq_refl energy_footer)

module _ (payload_length presence distance_cm : ℕ) (gates : List ℕ)
    (sixteen : length gates ≡ 16) where
  length-frame_bytes : length (frame_bytes payload_length presence distance_cm gates) ≡ 45
  length-frame_bytes =
      omega (arith, length-append (gate_bytes gates) energy_footer, length-gate_bytes gates)

  has_footer :
      ends_with_energy_footer (frame_bytes payload_length presence distance_cm gates) ≡ true
  has_footer =
      rw
        (append_assoc (frame_head payload_length presence distance_cm) (gate_bytes gates)
          energy_footer)
        at
        (ends_with_energy_footer-append
          (frame_head payload_length presence distance_cm ++ gate_bytes gates))

  read_back :
      read_energy_fields (frame_bytes payload_length presence distance_cm gates)
      ≡ some (sent_frame payload_length presence distance_cm gates)
  unfolding read_energy_fields
  read_back =
      let bytes = frame_bytes payload_length presence distance_cm gates in
      let head = frame_head payload_length presence distance_cm in
      let low = distance_cm % 256 in
      let high = distance_cm / 256 in
      let tail = gate_bytes gates ++ energy_footer in
      let ep : read_le16 bytes 4 ≡ some payload_length =
        read_le16_at energy_header (presence ∷ low ∷ high ∷ tail) payload_length 4 refl in
      let ed : read_le16 bytes 7 ≡ some distance_cm =
        read_le16_at
          (energy_header ++ (payload_length % 256) ∷ (payload_length / 256) ∷ presence ∷ []) tail
          distance_cm 7 refl in
      let eg : read_gates bytes 16 0 ≡ some gates =
        rw sixteen at (read_gates-gate_bytes gates head energy_footer 0 refl) in
      rw (ep, ed, eg, length-frame_bytes)

  has_header :
      starts_with_energy_header (frame_bytes payload_length presence distance_cm gates) ≡ true
  unfolding starts_with_energy_header
  has_header = refl

  try_parse-frame_bytes :
      try_parse_energy_frame (frame_bytes payload_length presence distance_cm gates)
      ≡ some (sent_frame payload_length presence distance_cm gates)
  unfolding try_parse_energy_frame
  try_parse-frame_bytes = rw (length-frame_bytes, has_header, has_footer) read_back

-- A frame of sixteen gates, written out as the radar sends it, is parsed as the energy frame with
-- that payload length, distance and gates, and with presence where the presence byte is not zero.
pub parse-frame_bytes :
    (payload_length presence distance_cm : ℕ) (gates : List ℕ)
    → length gates ≡ 16
    → parse_radar_frame (frame_bytes payload_length presence distance_cm gates)
      ≡ ok (energy (sent_frame payload_length presence distance_cm gates))
unfolding parse_radar_frame
parse-frame_bytes payload_length presence distance_cm gates sixteen =
    rw (try_parse-frame_bytes payload_length presence distance_cm gates sixteen)
