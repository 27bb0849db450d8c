-- ===== src/Mqtt/RoundTrip.antt =====
-- Publish packets: when they are built, and that the payload comes back.
use esp_wave_rider.Base.{
  ℕ, ◌+◌, ◌*◌, ◌/◌, ◌%◌, ◌≤◌, ◌<◌, ◌≡◌, sym, ap, ◌∙◌, Bool, true, false, none, some, List, [], ◌∷◌,
  ◌++◌, length, All, get_elem?, get_elem?-append_right, leb, ltb, ◌==◌, if◌then◌else◌, ◌>>=◌, arith,
  append_assoc, length-append, drop-append_length, Bool-cases, inl, inr, ◌⊎◌, tests,
}
use esp_wave_rider.Text.{Text}
use esp_wave_rider.Text.Utf8.{as_bytes, from_utf8, IsChar, from_utf8-as_bytes}
use esp_wave_rider.Fixed.{FixedVec}
use esp_wave_rider.Mqtt.{
  be_bytes, encode_mqtt_utf8, build_packet, publish_body, build_mqtt_publish_packet,
}
use esp_wave_rider.Mqtt.Payload.{skip_length, get_from, publish_payload_of, mqtt_publish_payload}
use esp_wave_rider.Mqtt.Build.{length_bytes, frame, extend-extend, build_packet-frame}

-- The topic with its length, and the payload behind it.
abbrev pub publish_bytes : Text → Text → List ℕ
publish_bytes topic payload =
    be_bytes (length (as_bytes topic)) ++ (as_bytes topic ++ as_bytes payload)

publish_header : Bool → ℕ
publish_header retain = if retain then 0x31 else 0x30

-- The packet of a topic and a payload.
abbrev pub publish_frame : Bool → Text → Text → List ℕ
publish_frame retain topic payload =
    frame (if retain then 0x31 else 0x30) (publish_bytes topic payload)

length-publish_bytes :
    (topic payload : Text)
    → length (publish_bytes topic payload)
      ≡ 2 + (length (as_bytes topic) + length (as_bytes payload))
length-publish_bytes topic payload =
    omega (arith, length-append (as_bytes topic) (as_bytes payload))

length-frame :
    (header : ℕ) (body : List ℕ)
    → length (frame header body) ≡ length body + (if ltb (length body) 128 then 2 else 3)
unfolding length_bytes
length-frame header body = ground arith

skip_length-length_bytes :
    (n : ℕ) (rest : List ℕ)
    → n < 16384
    → skip_length (length_bytes n ++ rest) 1 1 ≡ some (length (length_bytes n) + 1)
unfolding skip_length length_bytes
skip_length-length_bytes n rest h = ground arith

-- A packet with any length bytes: what stands behind them.
module _ (header : ℕ) (lb topic payload : List ℕ) where
  abbrev rest : List ℕ
  rest = be_bytes (length topic) ++ (topic ++ payload)

  packet_split :
      header ∷ (lb ++ rest) ≡ (header ∷ (lb ++ (be_bytes (length topic) ++ topic))) ++ payload
  packet_split =
      ap (λ l. header ∷ l) (sym (append_assoc lb (be_bytes (length topic) ++ topic) payload))

  rest_at : (i : ℕ) → get_elem? (header ∷ (lb ++ rest)) (length lb + 1 + i) ≡ get_elem? rest i
  rest_at i =
      ap (get_elem? (header ∷ (lb ++ rest))) {y = length (header ∷ lb) + i} (omega arith)
      ∙ get_elem?-append_right (header ∷ lb) rest i

  behind :
      (offset : ℕ)
      → offset ≡ length lb + 3 + length topic
      → get_from (header ∷ (lb ++ rest)) offset ≡ some payload
  unfolding get_from
  behind offset e =
      let front = header ∷ (lb ++ (be_bytes (length topic) ++ topic)) in
      let n : length front ≡ offset =
        omega (arith, e, length-append lb (be_bytes (length topic) ++ topic)) in
      let total = length-append lb rest in
      let behind_topic = length-append topic payload in
      let inside : leb offset (length (header ∷ (lb ++ rest))) ≡ true = ground arith in
      rw inside (ap some (rw (packet_split, ← n) (drop-append_length front payload)))

publish_payload_of-frame :
    (header : ℕ) (topic payload : Text)
    → header / 2 % 4 ≡ 0
    → length (publish_bytes topic payload) < 16384
    → publish_payload_of
        (frame header (publish_bytes topic payload))
        header
        (length_bytes (length (publish_bytes topic payload)) ++ publish_bytes topic payload)
      ≡ from_utf8 (as_bytes payload)
unfolding publish_payload_of
publish_payload_of-frame header topic payload qos short =
    let lb = length_bytes (length (publish_bytes topic payload)) in
    let t = as_bytes topic in
    let high : get_elem? (frame header (publish_bytes topic payload)) (length lb + 1)
        ≡ some (length t / 256) =
      ap (get_elem? (frame header (publish_bytes topic payload))) {y = length lb + 1 + 0}
        (omega arith)
      ∙ rest_at header lb t (as_bytes payload) 0 in
    let low : get_elem? (frame header (publish_bytes topic payload)) (length lb + 1 + 1)
        ≡ some (length t % 256) =
      rest_at header lb t (as_bytes payload) 1 in
    rw
      (
        skip_length-length_bytes (length (publish_bytes topic payload))
            (publish_bytes topic payload) short,
        qos,
      )
      (rw (high, low)
        (rw (
          behind header lb t (as_bytes payload)
            (length lb + 1 + 2 + (length t / 256 * 256 + length t % 256) + 0) (omega arith))))

module _ (vec : FixedVec) where
  body-eq :
      (topic payload : Text)
      → length (as_bytes topic) ≤ 65535
      → publish_body vec topic payload ≡ vec.extend 768 [] (publish_bytes topic payload)
  unfolding publish_body encode_mqtt_utf8
  body-eq topic payload h =
      let t = as_bytes topic in
      let short : ltb 65535 (length t) ≡ false = ground arith in
      rw short (
        ap (λ o. o >>= λ head. vec.extend 768 head (as_bytes payload))
          (extend-extend vec 768 [] (be_bytes (length t)) t)
        ∙ extend-extend vec 768 [] (be_bytes (length t) ++ t) (as_bytes payload))

  body_long :
      (topic payload : Text)
      → 65535 < length (as_bytes topic)
      → publish_body vec topic payload ≡ none
  unfolding publish_body encode_mqtt_utf8
  body_long topic payload h =
      let long : ltb 65535 (length (as_bytes topic)) ≡ true = ground arith in rw long

  -- A publish packet is built exactly if topic and payload have at most 763 bytes together, and then
  -- it is the frame of its header and the two.
  pub build_mqtt_publish_packet_lem :
      (topic payload : Text) (retain : Bool)
      → build_mqtt_publish_packet vec topic payload retain ≡ (
          if leb (length (as_bytes topic) + length (as_bytes payload)) 763
          then some (publish_frame retain topic payload)
          else none)
  unfolding build_mqtt_publish_packet
  build_mqtt_publish_packet_lem topic payload retain =
      elim (Bool-cases (leb (length (as_bytes topic)) 65535)) [
        | inr long ↦
            let over : leb (length (as_bytes topic) + length (as_bytes payload)) 763 ≡ false =
              ground arith in
            rw (over, body_long topic payload (ground arith))
        | inl short ↦
            rw (body-eq topic payload (omega (tests, short)))
              (by_size (Bool-cases (leb (length (as_bytes topic) + length (as_bytes payload)) 763)))
      ]
    where
      by_size :
          (leb (length (as_bytes topic) + length (as_bytes payload)) 763 ≡ true)
            ⊎ (leb (length (as_bytes topic) + length (as_bytes payload)) 763 ≡ false)
          → (vec.extend 768 [] (publish_bytes topic payload)
              >>= build_packet vec 768 (if retain then 0x31 else 0x30))
            ≡ (if leb (length (as_bytes topic) + length (as_bytes payload)) 763
                then some (publish_frame retain topic payload)
                else none)
      by_size (inl fits) =
          let n = length-publish_bytes topic payload in
          let m = length-frame (if retain then 0x31 else 0x30) (publish_bytes topic payload) in
          rw (fits, vec.fits 768 [] (publish_bytes topic payload) (omega (tests, fits, n)))
            (build_packet-frame vec 768 _ (publish_bytes topic payload) (omega (tests, fits, n))
              ∙ vec.fits 768 [] (publish_frame retain topic payload) (ground arith))
      by_size (inr over) =
          let n = length-publish_bytes topic payload in
          let m = length-frame (if retain then 0x31 else 0x30) (publish_bytes topic payload) in
          rw over (elim (Bool-cases (leb (length (publish_bytes topic payload)) 768)) [
            | inl whole ↦
                rw (vec.fits 768 [] (publish_bytes topic payload) (omega (tests, whole))) (
                  build_packet-frame vec 768 _ (publish_bytes topic payload) (omega (tests, whole))
                  ∙ vec.overflows 768 [] (publish_frame retain topic payload) (ground arith))
            | inr cut ↦ rw (vec.overflows 768 [] (publish_bytes topic payload) (ground arith))
          ])

  -- The payload read from a publish packet that was built is the text that it was built from, for
  -- a text of Unicode scalar values.
  pub mqtt_publish_payload-build :
      (topic payload : Text) (retain : Bool) {packet : List ℕ}
      → All IsChar payload
      → build_mqtt_publish_packet vec topic payload retain ≡ some packet
      → mqtt_publish_payload packet ≡ some payload
  unfolding mqtt_publish_payload
  mqtt_publish_payload-build topic payload retain {packet} chars built =
      let h : ℕ = if retain then 0x31 else 0x30 in
      let said = build_mqtt_publish_packet_lem topic payload retain in
      let (fits, is_frame) : (length (as_bytes topic) + length (as_bytes payload) ≤ 763)
          × (publish_frame retain topic payload ≡ packet) =
        ground arith in
      let n = length-publish_bytes topic payload in
      let kind : (h / 16 == 3) ≡ true = ground arith in
      let qos : h / 2 % 4 ≡ 0 = ground arith in
      rw (← is_frame) (
        rw kind (
          publish_payload_of-frame h topic payload qos (omega arith)
          ∙ from_utf8-as_bytes payload chars))
