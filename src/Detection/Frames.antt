-- ===== src/Detection/Frames.antt =====
-- Which frame stands for the radar, and when the presence pin counts.
use esp_wave_rider.Base.{
  ℕ, ◌≡◌, refl, Bool, true, false, not, ◌&&◌, ◌||◌, Option, none, some, List, [], ◌∷◌, length, leb,
  arith, if◌then◌else◌,
}
use esp_wave_rider.Text.{is_some}
use esp_wave_rider.Fixed.{FixedVec}
use esp_wave_rider.Radar.{
  RadarFrame, energy, text, generic, ParseResult, ok, radar_parse_error, parse_radar_frame,
}
use esp_wave_rider.Detection.{
  DetectionState, sync_radar_detection_state, settle_presence, poll_presence, saturating_inc,
}
use esp_wave_rider.Detection.Uart.{
  apply_radar_frame, store_radar_frame, flush_radar_buffer_if_needed, apply_parsed, receive_byte,
  poll_radar_uart, receive_bytes,
}
use esp_wave_rider.Detection.Receive.{drain_uart_lem, bytes_read}

abbrev pub is_generic : Option RadarFrame → Bool
is_generic (some (generic g)) = true
is_generic (some (energy e)) = false
is_generic (some (text t)) = false
is_generic none = false

-- The frame that the metrics are taken from is there once any frame has been seen, and is a generic
-- one exactly as long as no energy and no text frame has been seen.
pub record IsConsistent (s : DetectionState) : Type 0 where
  pub seen : is_some s.latest_radar_frame ≡ (
      is_some s.latest_energy_frame
      || is_some s.latest_text_frame
      || is_some s.latest_generic_frame)
  pub generic_only : is_generic s.latest_radar_frame ≡ (
      not (is_some s.latest_energy_frame)
      && not (is_some s.latest_text_frame)
      && is_some s.latest_generic_frame)

apply_radar_frame-IsConsistent :
    (s : DetectionState) (frame : RadarFrame)
    → IsConsistent s
    → IsConsistent (apply_radar_frame s frame)
unfolding apply_radar_frame store_radar_frame
apply_radar_frame-IsConsistent s (energy e) v = record { seen = refl; generic_only = refl }
apply_radar_frame-IsConsistent s (text t) v = record {
  seen = ground arith;
  generic_only = ground arith;
}
apply_radar_frame-IsConsistent s (generic g) v = record {
  seen = ground arith;
  generic_only = ground arith;
}

if-IsConsistent :
    (test : Bool) (s t : DetectionState)
    → IsConsistent s
    → IsConsistent t
    → IsConsistent (if test then s else t)
if-IsConsistent true s t v w = v
if-IsConsistent false s t v w = w

sync-IsConsistent :
    (s : DetectionState) (uptime_ms : ℕ)
    → IsConsistent s
    → IsConsistent (sync_radar_detection_state s uptime_ms)
unfolding sync_radar_detection_state
sync-IsConsistent s uptime_ms v = record { seen = v.seen; generic_only = v.generic_only }

settle-IsConsistent :
    (s : DetectionState) (p : Bool) → IsConsistent s → IsConsistent (settle_presence s p)
unfolding settle_presence
settle-IsConsistent s p v = ground arith

apply_parsed-IsConsistent :
    (s : DetectionState) (uptime_ms : ℕ) (r : ParseResult)
    → IsConsistent s
    → IsConsistent (apply_parsed s uptime_ms r)
apply_parsed-IsConsistent s uptime_ms (ok frame) v =
    sync-IsConsistent _ uptime_ms (apply_radar_frame-IsConsistent s frame v)
apply_parsed-IsConsistent s uptime_ms radar_parse_error v = v

flush-IsConsistent :
    (s : DetectionState) (uptime_ms : ℕ) (force : Bool)
    → IsConsistent s
    → IsConsistent (flush_radar_buffer_if_needed s uptime_ms force)
unfolding flush_radar_buffer_if_needed
flush-IsConsistent s uptime_ms force v =
    if-IsConsistent _ _ s
      (apply_parsed-IsConsistent (record s { radar_buffer = [] }) uptime_ms
        (parse_radar_frame s.radar_buffer)
        (record { seen = v.seen; generic_only = v.generic_only }))
      v

-- What happens to the state: the UART is polled, or the pin.
pub data Event : Type 0 where
  uart : ℕ → List (Option (List ℕ)) → Event
  pin : Bool → ℕ → Event

module _ (vec : FixedVec) where
  receive_byte-IsConsistent :
      (s : DetectionState) (uptime_ms byte : ℕ)
      → IsConsistent s
      → IsConsistent (receive_byte vec s uptime_ms byte)
  unfolding receive_byte
  receive_byte-IsConsistent s uptime_ms byte v =
      let counted : DetectionState = record s {
        radar_bytes_total = saturating_inc s.radar_bytes_total;
        last_radar_byte_ms = uptime_ms;
      } in
      let w : IsConsistent counted = record { seen = v.seen; generic_only = v.generic_only } in
      let u =
        if-IsConsistent (leb 256 (length s.radar_buffer))
          (flush_radar_buffer_if_needed counted uptime_ms true) counted
          (flush-IsConsistent counted uptime_ms true w) w in
      record { seen = u.seen; generic_only = u.generic_only }

  receive_bytes-IsConsistent :
      (bytes : List ℕ) (s : DetectionState) (uptime_ms : ℕ)
      → IsConsistent s
      → IsConsistent (receive_bytes vec s uptime_ms bytes)
  unfolding receive_bytes
  receive_bytes-IsConsistent [] s uptime_ms v = v
  receive_bytes-IsConsistent (byte ∷ bytes) s uptime_ms v =
      receive_bytes-IsConsistent bytes _ uptime_ms (receive_byte-IsConsistent s uptime_ms byte v)

  unfoldable pub handle : DetectionState → Event → DetectionState
  handle s (uart uptime_ms reads) = poll_radar_uart vec s uptime_ms reads
  handle s (pin gpio_presence uptime_ms) = poll_presence s gpio_presence uptime_ms

  unfoldable pub handle_all : DetectionState → List Event → DetectionState
  handle_all s [] = s
  handle_all s (event ∷ events) = handle_all (handle s event) events

  handle-IsConsistent :
      (s : DetectionState) (event : Event) → IsConsistent s → IsConsistent (handle s event)
  unfolding handle poll_radar_uart poll_presence
  handle-IsConsistent s (uart uptime_ms reads) v = flush-IsConsistent _ uptime_ms false (
      rw (drain_uart_lem vec s uptime_ms reads)
        (receive_bytes-IsConsistent (bytes_read reads) s uptime_ms v))
  handle-IsConsistent s (pin gpio uptime_ms) v = if-IsConsistent _ s _ v (
      settle-IsConsistent _ _ (
        sync-IsConsistent (record s { last_presence_poll_ms = uptime_ms; gpio_presence = gpio })
          uptime_ms (record { seen = v.seen; generic_only = v.generic_only })))

  -- Whatever the UART and the pin deliver, in any order, the frame that stands for the radar stays
  -- consistent with the frames seen.
  pub handle_all-IsConsistent :
      (events : List Event) (s : DetectionState)
      → IsConsistent s
      → IsConsistent (handle_all s events)
  unfolding handle_all
  handle_all-IsConsistent [] s v = v
  handle_all-IsConsistent (event ∷ events) s v =
      handle_all-IsConsistent events (handle s event) (handle-IsConsistent s event v)
