-- ===== src/Mqtt/Stuck.antt =====
-- A packet that is longer than `take_mqtt_packet` takes. The buffer of the MQTT task is made before
-- the loop that connects, and the loop does not clear it.
use esp_wave_rider.Base.{
  ℕ, ◌+◌, ◌*◌, ◌%◌, ◌≤◌, ◌<◌, ◌≡◌, refl, ap, ◌∙◌, Bool, true, false, Option, none, some, List, [],
  ◌∷◌, ◌++◌, length, drop, ltb, if◌then◌else◌, ◌>>=◌, >>=-eq_some, arith, length-append, Bool-cases,
  Option-cases, inl, inr,
}
use esp_wave_rider.Fixed.{FixedVec}
use esp_wave_rider.Mqtt.{
  checked, read_length, total_length, mqtt_packet_length, flatten, take_front, take_mqtt_packet,
  Waited, received, failed, waiting, grown, or_wait, mqtt_wait_for_packet, mqtt_wait_for_connack,
  connack_of,
}
use esp_wave_rider.Mqtt.Build.{extend-some}

-- The length bytes are there, and announce more than 1024 bytes.
pub record IsOversized (inbound : List ℕ) : Type 0 where
  pub index : ℕ
  pub value : ℕ
  pub enough : 2 ≤ length inbound
  pub announced : read_length (drop 1 inbound) 1 0 1 ≡ some (some (index, value))
  pub large : 1024 < index + value

-- Bytes behind a whole length do not change it.
read_length-append :
    (bytes more : List ℕ) (multiplier value index : ℕ) {i v : ℕ}
    → read_length bytes multiplier value index ≡ some (some (i, v))
    → read_length (bytes ++ more) multiplier value index ≡ some (some (i, v))
unfolding read_length
read_length-append [] more multiplier value index e = absurd (ground arith)
read_length-append (b ∷ bytes) more multiplier value index {i} {v} e =
    let (part, e1, r1) = >>=-eq_some (checked (b % 128 * multiplier)) _ e in
    let (value', e2, r2) = >>=-eq_some (checked (value + part)) _ r1 in
    elim (Bool-cases (ltb b 128)) [
      | inl last ↦ rw (e1, e2, last) (rw last at r2)
      | inr longer ↦
          let (next, e3, r3) = >>=-eq_some (checked (multiplier * 128)) _ (rw longer at r2) in
          elim (Bool-cases (ltb (128 * 128 * 128) next)) [
            | inl long ↦ absurd (ground arith)
            | inr short ↦
                rw (e1, e2, longer, e3, short)
                  (read_length-append bytes more next value' (index + 1) (rw short at r3))
          ]
    ]

drop_one-append : (xs ys : List ℕ) → 1 ≤ length xs → drop 1 (xs ++ ys) ≡ drop 1 xs ++ ys
drop_one-append [] ys h = absurd (omega arith)
drop_one-append (x ∷ xs) ys h = refl

front-IsOversized :
    (inbound : List ℕ) (index value : ℕ)
    → 1024 < index + value
    → take_front inbound (flatten (total_length inbound (some (index, value)))) ≡ (none, inbound)
unfolding total_length checked take_front
front-IsOversized inbound index value large = ground arith

take-IsOversized :
    (inbound : List ℕ) → IsOversized inbound → take_mqtt_packet inbound ≡ (none, inbound)
unfolding take_mqtt_packet mqtt_packet_length
take-IsOversized inbound w =
    let two = w.enough in
    let enough : ltb (length inbound) 2 ≡ false = ground arith in
    let length_read : mqtt_packet_length inbound ≡ total_length inbound (some (w.index, w.value)) =
      rw enough (ap (λ o. o >>= total_length inbound) w.announced) in
    ap (λ o. take_front inbound (flatten o)) length_read
    ∙ front-IsOversized inbound w.index w.value w.large

abbrev pub is_received : Waited → Bool
is_received (received packet) = true
is_received failed = false
is_received waiting = false

-- No packet comes out, and the buffer stays as it is described.
abbrev IsStuck : Waited × List ℕ → Type 0
IsStuck result = (is_received result.0 ≡ false) × IsOversized result.1

or_wait-IsStuck :
    (inbound : List ℕ) (later : Waited × List ℕ)
    → IsOversized inbound
    → IsStuck later
    → IsStuck (or_wait (take_mqtt_packet inbound).0 (take_mqtt_packet inbound).1 later)
or_wait-IsStuck inbound later w stuck = rw (take-IsOversized inbound w) (unfold or_wait in stuck)

connack-IsStuck : (result : Waited × List ℕ) → IsStuck result → IsStuck (connack_of result)
connack-IsStuck (received packet, inbound) (e, w) = absurd (ground arith)
connack-IsStuck (failed, inbound) (e, w) = (refl, w)
connack-IsStuck (waiting, inbound) (e, w) = (refl, w)

module _ (vec : FixedVec) where
  grown-IsOversized :
      (inbound : List ℕ) (read : Option (List ℕ)) {next : List ℕ}
      → IsOversized inbound
      → grown vec inbound read ≡ some next
      → IsOversized next
  grown-IsOversized inbound none w e = absurd (ground arith)
  grown-IsOversized inbound (some []) w e = absurd (ground arith)
  grown-IsOversized inbound (some (b ∷ bs)) {next} w e =
      let (is_append, fits) = extend-some vec 2048 inbound (b ∷ bs) e in
      rw is_append (record {
        index = w.index;
        value = w.value;
        enough = let h = w.enough in omega (arith, length-append inbound (b ∷ bs), h);
        announced =
            rw (drop_one-append inbound (b ∷ bs) (let h = w.enough in omega arith))
              (read_length-append (drop 1 inbound) (b ∷ bs) 1 0 1 w.announced);
        large = w.large;
      })

  wait-IsStuck :
      (reads : List (Option (List ℕ))) (inbound : List ℕ)
      → IsOversized inbound
      → IsStuck (mqtt_wait_for_packet vec inbound reads)
  unfolding mqtt_wait_for_packet
  wait-IsStuck [] inbound w = or_wait-IsStuck inbound (waiting, inbound) w (refl, w)
  wait-IsStuck (read ∷ reads) inbound w =
      or_wait-IsStuck inbound _ w (elim (Option-cases (grown vec inbound read)) [
        | inl failure ↦ rw failure (refl, w)
        | inr (next, more) ↦
            rw more (wait-IsStuck reads next (grown-IsOversized inbound read w more))
      ])

  -- How many attempts to connect a broker accepts: the task goes from one to the next with the buffer
  -- that the last one left.
  unfoldable pub connections : List ℕ → List (List (Option (List ℕ))) → ℕ
  connections inbound [] = 0
  connections inbound (reads ∷ attempts) =
      let result = mqtt_wait_for_connack vec inbound reads in
      let later = connections result.1 attempts in if is_received result.0 then later + 1 else later

  -- Once the buffer starts with a packet that announces more than 1024 bytes, no later attempt to
  -- connect succeeds, whatever the broker sends.
  pub connections_stuck :
      (attempts : List (List (Option (List ℕ)))) (inbound : List ℕ)
      → IsOversized inbound
      → connections inbound attempts ≡ 0
  unfolding connections mqtt_wait_for_connack
  connections_stuck [] inbound w = refl
  connections_stuck (reads ∷ attempts) inbound w =
      let (refused, still) =
        connack-IsStuck (mqtt_wait_for_packet vec inbound reads) (wait-IsStuck reads inbound w) in
      rw refused (connections_stuck attempts (mqtt_wait_for_connack vec inbound reads).1 still)
