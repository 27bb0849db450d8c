-- ===== src/Detection/Receive.antt =====
-- Receiving radar bytes.
use esp_wave_rider.Base.{
  ℕ, ◌≤◌, ◌<◌, ◌≡◌, refl, sym, ap, ◌∙◌, true, false, Option, none, some, List, [], ◌∷◌, ◌++◌,
  length, ltb, leb, if◌then◌else◌, arith, tests, Bool-cases, inl, inr, length-append,
}
use esp_wave_rider.Text.{is_empty}
use esp_wave_rider.Text.Laws.{is_empty_of_length}
use esp_wave_rider.Fixed.{FixedVec}
use esp_wave_rider.Radar.{
  ParseResult, ok, radar_parse_error, parse_radar_frame, energy, text, generic,
}
use esp_wave_rider.Detection.{DetectionState, saturating_inc, sync_radar_detection_state}
use esp_wave_rider.Detection.Uart.{
  apply_radar_frame, store_radar_frame, apply_parsed, flush_radar_buffer_if_needed, or_same,
  push_byte, receive_byte, receive_bytes, drain_uart,
}

apply_keeps_buffer :
    (s : DetectionState) (uptime_ms : ℕ) (r : ParseResult)
    → ((apply_parsed s uptime_ms r).radar_buffer ≡ s.radar_buffer)
      × ((apply_parsed s uptime_ms r).radar_bytes_total ≡ s.radar_bytes_total)
unfolding sync_radar_detection_state apply_radar_frame store_radar_frame
apply_keeps_buffer s uptime_ms radar_parse_error = (refl, refl)
apply_keeps_buffer s uptime_ms (ok (energy e)) = (refl, refl)
apply_keeps_buffer s uptime_ms (ok (text t)) = (refl, refl)
apply_keeps_buffer s uptime_ms (ok (generic g)) = (refl, refl)

flush_forced :
    (s : DetectionState) (uptime_ms : ℕ)
    → is_empty s.radar_buffer ≡ false
    → flush_radar_buffer_if_needed s uptime_ms true
      ≡ apply_parsed (record s { radar_buffer = [] }) uptime_ms (parse_radar_frame s.radar_buffer)
unfolding flush_radar_buffer_if_needed
flush_forced s uptime_ms h = rw h

flush_full :
    (s : DetectionState) (uptime_ms : ℕ)
    → 256 ≤ length s.radar_buffer
    → ((flush_radar_buffer_if_needed s uptime_ms true).radar_buffer ≡ [])
      × ((flush_radar_buffer_if_needed s uptime_ms true).radar_bytes_total ≡ s.radar_bytes_total)
flush_full s uptime_ms h =
    rw (flush_forced s uptime_ms (is_empty_of_length s.radar_buffer (omega arith))) (
      apply_keeps_buffer (record s { radar_buffer = [] }) uptime_ms
        (parse_radar_frame s.radar_buffer))

-- The state with the byte counted, before it is stored.
abbrev counted : DetectionState → ℕ → DetectionState
counted s uptime_ms = record s {
  radar_bytes_total = saturating_inc s.radar_bytes_total;
  last_radar_byte_ms = uptime_ms;
}

-- The bytes that a poll reads one after the other, up to an error or an empty read.
abbrev pub bytes_read : List (Option (List ℕ)) → List ℕ
bytes_read [] = []
bytes_read (none ∷ reads) = []
bytes_read (some [] ∷ reads) = []
bytes_read (some (byte ∷ bytes) ∷ reads) = byte ∷ (bytes ++ bytes_read reads)

module _ (vec : FixedVec) where
  push_byte_fits :
      (buffer : List ℕ) (byte : ℕ)
      → length buffer < 256
      → push_byte vec buffer byte ≡ buffer ++ byte ∷ []
  unfolding push_byte
  push_byte_fits buffer byte h = ap (or_same buffer) (vec.fits 256 buffer (byte ∷ []) (omega arith))

  receive_byte_room :
      (s : DetectionState) (uptime_ms byte : ℕ)
      → length s.radar_buffer < 256
      → ((receive_byte vec s uptime_ms byte).radar_buffer ≡ s.radar_buffer ++ byte ∷ [])
        × ((receive_byte vec s uptime_ms byte).radar_bytes_total
            ≡ saturating_inc s.radar_bytes_total)
  unfolding receive_byte
  receive_byte_room s uptime_ms byte h =
      let not_full : leb 256 (length s.radar_buffer) ≡ false = ground arith in
      rw not_full (push_byte_fits s.radar_buffer byte h, refl)

  receive_byte_full :
      (s : DetectionState) (uptime_ms byte : ℕ)
      → 256 ≤ length s.radar_buffer
      → ((receive_byte vec s uptime_ms byte).radar_buffer ≡ byte ∷ [])
        × ((receive_byte vec s uptime_ms byte).radar_bytes_total
            ≡ saturating_inc s.radar_bytes_total)
  unfolding receive_byte
  receive_byte_full s uptime_ms byte h =
      let is_full : leb 256 (length s.radar_buffer) ≡ true = ground arith in
      let (emptied, kept) = flush_full (counted s uptime_ms) uptime_ms h in
      rw is_full
        (ap (λ l. push_byte vec l byte) emptied ∙ push_byte_fits [] byte (omega arith), kept)

  -- Every byte is kept: it goes behind the buffered ones or, if they are 256 or more, starts a new
  -- buffer. It is counted, up to the limit of the counter, and the buffer then holds at most 256
  -- bytes.
  pub receive_byte_keeps :
      (s : DetectionState) (uptime_ms byte : ℕ)
      → ((receive_byte vec s uptime_ms byte).radar_buffer
          ≡ (if ltb (length s.radar_buffer) 256 then s.radar_buffer ++ byte ∷ [] else byte ∷ []))
        × ((receive_byte vec s uptime_ms byte).radar_bytes_total
            ≡ saturating_inc s.radar_bytes_total)
        × (length (receive_byte vec s uptime_ms byte).radar_buffer ≤ 256)
  receive_byte_keeps s uptime_ms byte = elim (Bool-cases (ltb (length s.radar_buffer) 256)) [
    | inl room ↦
        let (stored, counts) = receive_byte_room s uptime_ms byte (omega (tests, room)) in
        (
          stored ∙ rw room,
          counts,
          rw stored (omega (tests, room, length-append s.radar_buffer (byte ∷ []))),
        )
    | inr full ↦
        let (stored, counts) = receive_byte_full s uptime_ms byte (ground arith) in
        (stored ∙ rw full, counts, rw stored (omega arith))
  ]

  receive_bytes-append :
      (s : DetectionState) (uptime_ms : ℕ) (xs ys : List ℕ)
      → receive_bytes vec s uptime_ms (xs ++ ys)
        ≡ receive_bytes vec (receive_bytes vec s uptime_ms xs) uptime_ms ys
  unfolding receive_bytes
  receive_bytes-append s uptime_ms [] ys = refl
  receive_bytes-append s uptime_ms (x ∷ xs) ys =
      receive_bytes-append (receive_byte vec s uptime_ms x) uptime_ms xs ys

  -- Draining the UART is receiving, one by one, the bytes that it read up to an error or an empty
  -- read: the chunks in which it hands them over do not matter.
  pub drain_uart_lem :
      (s : DetectionState) (uptime_ms : ℕ) (reads : List (Option (List ℕ)))
      → drain_uart vec s uptime_ms reads ≡ receive_bytes vec s uptime_ms (bytes_read reads)
  unfolding drain_uart
  drain_uart_lem s uptime_ms [] = unfold receive_bytes in refl
  drain_uart_lem s uptime_ms (none ∷ reads) = unfold receive_bytes in refl
  drain_uart_lem s uptime_ms (some [] ∷ reads) = unfold receive_bytes in refl
  drain_uart_lem s uptime_ms (some (byte ∷ bytes) ∷ reads) =
      drain_uart_lem (receive_bytes vec s uptime_ms (byte ∷ bytes)) uptime_ms reads
      ∙ sym (receive_bytes-append s uptime_ms (byte ∷ bytes) (bytes_read reads))

  receive_bytes_bounded :
      (bytes : List ℕ) (s : DetectionState) (uptime_ms : ℕ)
      → length s.radar_buffer ≤ 256
      → length (receive_bytes vec s uptime_ms bytes).radar_buffer ≤ 256
  unfolding receive_bytes
  receive_bytes_bounded [] s uptime_ms h = h
  receive_bytes_bounded (byte ∷ bytes) s uptime_ms h =
      receive_bytes_bounded bytes (receive_byte vec s uptime_ms byte) uptime_ms
        (receive_byte_keeps s uptime_ms byte).2
