-- ===== src/Mqtt/Take.antt =====
-- Taking packets out of the bytes received.
use esp_wave_rider.Base.{
  ℕ, zero, suc, ◌+◌, ◌*◌, ◌%◌, ◌≤◌, ◌<◌, ◌≡◌, refl, ap, ◌∙◌, false, Option, none, some, List, [],
  ◌∷◌, ◌++◌, length, take, drop, All, ltb, >>=-eq_some, arith, append_assoc, length-append,
  Bool-cases, Option-cases, inl, inr, take_append_drop, length-take, take-append_length,
  drop-append_length,
}
use esp_wave_rider.Mqtt.{
  checked, read_length, total_length, mqtt_packet_length, flatten, take_front, take_mqtt_packet,
  keep_taking, take_packets,
}
use esp_wave_rider.Mqtt.Build.{length_bytes, frame}

read_length-length_bytes :
    (n : ℕ) (rest : List ℕ)
    → n < 16384
    → read_length (length_bytes n ++ rest) 1 0 1 ≡ some (some (length (length_bytes n) + 1, n))
unfolding read_length length_bytes checked
read_length-length_bytes n rest h = ground arith

length-length_bytes : (n : ℕ) → (1 ≤ length (length_bytes n)) × (length (length_bytes n) ≤ 2)
unfolding length_bytes
length-length_bytes n = ground arith

module _ (header : ℕ) (body : List ℕ) (short : length body < 16384) where
  -- A buffer that starts with a whole packet gives its length.
  pub mqtt_packet_length-frame :
      (rest : List ℕ)
      → mqtt_packet_length (frame header body ++ rest) ≡ some (some (length (frame header body)))
  unfolding mqtt_packet_length total_length checked
  mqtt_packet_length-frame rest =
      let lb = length_bytes (length body) in
      let read : read_length ((lb ++ body) ++ rest) 1 0 1
          ≡ some (some (length lb + 1, length body)) =
        rw (append_assoc lb body rest)
          (read_length-length_bytes (length body) (body ++ rest) short) in
      let n = length-append lb body in
      let m = length-append (lb ++ body) rest in
      let (lo, hi) = length-length_bytes (length body) in
      let enough : ltb (suc (length ((lb ++ body) ++ rest))) 2 ≡ false = ground arith in
      rw (enough, read) (ground arith)

  -- It is taken from the buffer whole, if it has at most 1024 bytes, and what follows it stays.
  take_mqtt_packet-frame :
      (rest : List ℕ)
      → length (frame header body) ≤ 1024
      → take_mqtt_packet (frame header body ++ rest) ≡ (some (frame header body), rest)
  unfolding take_mqtt_packet take_front
  take_mqtt_packet-frame rest fits =
      let small : ltb 1024 (length (frame header body)) ≡ false = ground arith in
      ap (λ r. take_front (frame header body ++ rest) (flatten r)) (mqtt_packet_length-frame rest)
      ∙ rw small (
          let t = take-append_length (frame header body) rest in
          let d = drop-append_length (frame header body) rest in cc)

read_length_past :
    (bytes : List ℕ) (multiplier value index : ℕ) {i v : ℕ}
    → read_length bytes multiplier value index ≡ some (some (i, v))
    → index < i
unfolding read_length
read_length_past [] multiplier value index e = absurd (ground arith)
read_length_past (b ∷ bytes) multiplier value index {i} {v} e =
    let (part, e1, r1) = >>=-eq_some (checked (b % 128 * multiplier)) _ e in
    let (value', e2, r2) = >>=-eq_some (checked (value + part)) _ r1 in
    elim (Bool-cases (ltb b 128)) [
      | inl last ↦ ground arith
      | inr more ↦
          let (next, e3, r3) = >>=-eq_some (checked (multiplier * 128)) _ (rw more at r2) in
          elim (Bool-cases (ltb (128 * 128 * 128) next)) [
            | inl long ↦ absurd (ground arith)
            | inr short ↦
                let rest = read_length_past bytes next value' (index + 1) (rw short at r3) in
                omega arith
          ]
    ]

-- A length that is given is that of a packet in the buffer, of two bytes at least.
pub mqtt_packet_length_bounds :
    (buffer : List ℕ) {n : ℕ}
    → mqtt_packet_length buffer ≡ some (some n)
    → (2 ≤ n) × (n ≤ length buffer)
unfolding mqtt_packet_length total_length checked
mqtt_packet_length_bounds buffer {n} e = elim (Bool-cases (ltb (length buffer) 2)) [
  | inl few ↦ absurd (ground arith)
  | inr enough ↦
      let (o, read, total) = >>=-eq_some (read_length (drop 1 buffer) 1 0 1) _ (rw enough at e) in
      bounds o read total
]
  where
    bounds :
        (o : Option (ℕ × ℕ))
        → read_length (drop 1 buffer) 1 0 1 ≡ some o
        → total_length buffer o ≡ some (some n)
        → (2 ≤ n) × (n ≤ length buffer)
    bounds none read total = absurd (ground arith)
    bounds (some (i, v)) read total =
        let past = read_length_past (drop 1 buffer) 1 0 1 read in ground arith

-- What `take_mqtt_packet buffer` gives when it gives a packet.
abbrev pub TakenFrom : List ℕ → List ℕ → List ℕ → Type 0
TakenFrom buffer packet rest =
    (packet ++ rest ≡ buffer) × (2 ≤ length packet) × (length packet ≤ 1024)

take_front-TakenFrom :
    (buffer : List ℕ) (o : Option ℕ) (packet rest : List ℕ)
    → ((n : ℕ) → o ≡ some n → (2 ≤ n) × (n ≤ length buffer))
    → take_front buffer o ≡ (some packet, rest)
    → TakenFrom buffer packet rest
unfolding take_front
take_front-TakenFrom buffer none packet rest h e = absurd (ground arith)
take_front-TakenFrom buffer (some n) packet rest h e =
    let (lo, hi) = h n refl in
    let back = take_append_drop n buffer in
    let size = length-take n buffer hi in
    let (small, front, behind) : (n ≤ 1024) × (take n buffer ≡ packet) × (drop n buffer ≡ rest) =
      ground arith in
    let counted : length packet ≡ n = cc in (cc, omega arith, omega arith)

flatten-some : (o : Option (Option ℕ)) (n : ℕ) → flatten o ≡ some n → o ≡ some (some n)
flatten-some none n e = absurd (ground arith)
flatten-some (some o) n e = ap some e

-- What is taken comes off the front of the buffer, at least two bytes and at most 1024, and the rest
-- of the buffer is what stays.
pub take_mqtt_packet-TakenFrom :
    (buffer packet rest : List ℕ)
    → take_mqtt_packet buffer ≡ (some packet, rest)
    → TakenFrom buffer packet rest
unfolding take_mqtt_packet
take_mqtt_packet-TakenFrom buffer packet rest e =
    take_front-TakenFrom buffer (flatten (mqtt_packet_length buffer)) packet rest
      (λ n found. mqtt_packet_length_bounds buffer (flatten-some _ n found)) e

take_front_keeps :
    (buffer : List ℕ) (o : Option ℕ)
    → (take_front buffer o).0 ≡ none
    → (take_front buffer o).1 ≡ buffer
unfolding take_front
take_front_keeps buffer none e = refl
take_front_keeps buffer (some n) e = ground arith

abbrev pub concat : List (List ℕ) → List ℕ
concat [] = []
concat (p ∷ ps) = p ++ concat ps

-- What the loop over the buffer leaves: the packets and the rest make up the buffer, and there is
-- no further packet in the rest.
pub record Drained (inbound : List ℕ) (result : List (List ℕ) × List ℕ) : Type 0 where
  pub conserved : concat result.0 ++ result.1 ≡ inbound
  pub exhausted : (take_mqtt_packet result.1).0 ≡ none

take_packets_stop :
    (fuel : ℕ) (inbound : List ℕ)
    → (take_mqtt_packet inbound).0 ≡ none
    → take_packets (suc fuel) inbound ≡ ([], inbound)
unfolding take_packets
take_packets_stop fuel inbound missing =
    let kept : (take_mqtt_packet inbound).1 ≡ inbound =
      unfold take_mqtt_packet in take_front_keeps inbound _ missing in
    ap
      (λ o.
        keep_taking o (take_mqtt_packet inbound).1 (take_packets fuel (take_mqtt_packet inbound).1))
      missing
    ∙ unfold keep_taking in ap (λ b. ([], b)) kept

take_packets_step :
    (fuel : ℕ) (inbound packet rest : List ℕ)
    → take_mqtt_packet inbound ≡ (some packet, rest)
    → take_packets (suc fuel) inbound
      ≡ (packet ∷ (take_packets fuel rest).0, (take_packets fuel rest).1)
unfolding take_packets
take_packets_step fuel inbound packet rest e =
    ap (λ (t : Option (List ℕ) × List ℕ). keep_taking t.0 t.1 (take_packets fuel t.1)) e
    ∙ unfold keep_taking in refl

-- With more turns than the buffer has bytes the loop comes to its end: the packets and the rest
-- make up the buffer, and of the rest nothing can be taken.
pub take_packets-Drained :
    (fuel : ℕ) (inbound : List ℕ)
    → length inbound < fuel
    → Drained inbound (take_packets fuel inbound)
take_packets-Drained zero inbound enough = absurd (omega arith)
take_packets-Drained (suc fuel) inbound enough = elim (Option-cases (take_mqtt_packet inbound).0) [
  | inl missing ↦
      rw (take_packets_stop fuel inbound missing) (record { conserved = refl; exhausted = missing })
  | inr (packet, found) ↦
      let rest = (take_mqtt_packet inbound).1 in
      let e : take_mqtt_packet inbound ≡ (some packet, rest) = ap (λ o. (o, rest)) found in
      let (back, lo, hi) = take_mqtt_packet-TakenFrom inbound packet rest e in
      let n = length-append packet rest in
      let m = ap length back in
      let later = take_packets-Drained fuel rest (omega arith) in
      rw (take_packets_step fuel inbound packet rest e) (record {
        conserved =
            append_assoc packet (concat (take_packets fuel rest).0) (take_packets fuel rest).1
            ∙ ap (λ l. packet ++ l) later.conserved
            ∙ back;
        exhausted = later.exhausted;
      })
]

-- A packet that fits, as `take_mqtt_packet-frame` wants it.
pub record IsPacket (packet : List ℕ) : Type 0 where
  pub header : ℕ
  pub body : List ℕ
  pub framed : packet ≡ frame header body
  pub fits : length packet ≤ 1024

-- Packets of at most 1024 bytes that arrive one behind the other are taken one by one, as they
-- were sent, and a rest of which nothing can be taken stays, with more turns than there are
-- packets.
pub take_packets-concat :
    (packets : List (List ℕ)) (rest : List ℕ) (fuel : ℕ)
    → All IsPacket packets
    → (take_mqtt_packet rest).0 ≡ none
    → length packets < fuel
    → take_packets fuel (concat packets ++ rest) ≡ (packets, rest)
take_packets-concat packets rest zero hs unfinished enough = absurd (omega arith)
take_packets-concat [] rest (suc fuel) hs unfinished enough = take_packets_stop fuel rest unfinished
take_packets-concat (p ∷ ps) rest (suc fuel) (h, hs) unfinished enough =
    let whole : length (frame h.header h.body) ≤ 1024 = rw (h.framed) at h.fits in
    let short : length h.body < 16384 =
      omega (arith, whole, length-append (length_bytes (length h.body)) h.body) in
    let taken : take_mqtt_packet (p ++ (concat ps ++ rest)) ≡ (some p, concat ps ++ rest) =
      rw (h.framed) (take_mqtt_packet-frame h.header h.body short (concat ps ++ rest) whole) in
    let later = take_packets-concat ps rest fuel hs unfinished (omega arith) in
    rw (append_assoc p (concat ps) rest) (
      take_packets_step fuel _ p (concat ps ++ rest) taken
      ∙ ap (λ (l : List (List ℕ) × List ℕ). (p ∷ l.0, l.1)) later)
