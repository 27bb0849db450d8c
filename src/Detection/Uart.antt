-- ===== src/Detection/Uart.antt =====
-- The frames that the radar's UART delivers, in
-- rust/firmware/esp32s3/src/main.rs.
use esp_wave_rider.Base.{
  ℕ, ◌-◌, ◌%◌, ◌^◌, Bool, true, false, not, ◌&&◌, ◌||◌, Option, none, some, List, [], ◌∷◌, length,
  leb, if◌then◌else◌,
}
use esp_wave_rider.Base.Int.{pos, negsuc}
use esp_wave_rider.Text.{is_empty, is_some}
use esp_wave_rider.Fixed.{FixedVec}
use esp_wave_rider.Radar.{
  EnergyFrame, TextFrame, GenericFrame, RadarFrame, energy, text, generic, ParseResult, ok,
  radar_parse_error, parse_radar_frame,
}
use esp_wave_rider.Detection.{
  radar_idle_frame_gap_ms, radar_frame_buffer_size, saturating_inc, LatestEnergyFrameSnapshot,
  LatestTextFrameSnapshot, LatestGenericFrameSnapshot, DetectionState, sync_radar_detection_state,
}

unfoldable pub snapshot_from_energy_frame : EnergyFrame → ℕ → ℕ → ℕ → LatestEnergyFrameSnapshot
snapshot_from_energy_frame e bytes_total frames_total energy_frames_total = record {
  length = e.length % 2 ^ 16;
  payload_length = e.payload_length;
  presence = e.presence;
  distance_cm = e.distance_cm;
  bytes_total = bytes_total;
  frames_total = frames_total;
  energy_frames_total = energy_frames_total;
  gates = e.gates;
}

unfoldable pub snapshot_from_text_frame : TextFrame → ℕ → ℕ → LatestTextFrameSnapshot
snapshot_from_text_frame t bytes_total frames_total = record {
  length = t.length % 2 ^ 16;
  presence = t.presence;
  range = elim t.range_cm [ none ↦ negsuc 0 | some range ↦ pos range ];
  bytes_total = bytes_total;
  frames_total = frames_total;
  hex = t.hex;
  ascii = t.ascii;
}

unfoldable pub snapshot_from_generic_frame : GenericFrame → ℕ → ℕ → LatestGenericFrameSnapshot
snapshot_from_generic_frame g bytes_total frames_total = record {
  length = g.length % 2 ^ 16;
  bytes_total = bytes_total;
  frames_total = frames_total;
  hex = g.hex;
  ascii = g.ascii;
}

-- `counted` is the state with the frame already counted.
unfoldable pub store_radar_frame : DetectionState → RadarFrame → DetectionState
store_radar_frame counted (energy e) =
    let energy_frames = saturating_inc counted.ld2420_energy_frames_total in
    record counted {
      ld2420_energy_frames_total = energy_frames;
      latest_energy_frame = some (
          snapshot_from_energy_frame e counted.radar_bytes_total counted.radar_frames_total
            energy_frames);
      latest_radar_frame = some (energy e);
    }
store_radar_frame counted (text t) = record counted {
  latest_text_frame =
      some (snapshot_from_text_frame t counted.radar_bytes_total counted.radar_frames_total);
  latest_radar_frame = some (text t);
}
store_radar_frame counted (generic g) = record counted {
  latest_generic_frame =
      some (snapshot_from_generic_frame g counted.radar_bytes_total counted.radar_frames_total);
  latest_radar_frame =
      if not (is_some counted.latest_energy_frame) && not (is_some counted.latest_text_frame)
      then some (generic g)
      else counted.latest_radar_frame;
}

unfoldable pub apply_radar_frame : DetectionState → RadarFrame → DetectionState
apply_radar_frame s frame =
    store_radar_frame (record s { radar_frames_total = saturating_inc s.radar_frames_total }) frame

-- A parsed buffer is applied; the error of an empty one is ignored.
abbrev pub apply_parsed : DetectionState → ℕ → ParseResult → DetectionState
apply_parsed s uptime_ms (ok frame) =
    sync_radar_detection_state (apply_radar_frame s frame) uptime_ms
apply_parsed s uptime_ms radar_parse_error = s

unfoldable pub flush_radar_buffer_if_needed : DetectionState → ℕ → Bool → DetectionState
flush_radar_buffer_if_needed s uptime_ms force =
    let should_flush =
      not (is_empty s.radar_buffer)
      && (force
          || leb radar_idle_frame_gap_ms (uptime_ms - s.last_radar_byte_ms)
          || leb radar_frame_buffer_size (length s.radar_buffer)) in
    if should_flush
    then apply_parsed (record s { radar_buffer = [] }) uptime_ms (parse_radar_frame s.radar_buffer)
    else s

-- The error of a full buffer is ignored.
abbrev pub or_same : List ℕ → Option (List ℕ) → List ℕ
or_same buffer none = buffer
or_same buffer (some buffer') = buffer'

module _ (vec : FixedVec) where
  -- `let _ = state.radar_buffer.push(byte)`
  unfoldable pub push_byte : List ℕ → ℕ → List ℕ
  push_byte buffer byte = or_same buffer (vec.extend radar_frame_buffer_size buffer (byte ∷ []))

  -- The body of the loop over the bytes read.
  unfoldable pub receive_byte : DetectionState → ℕ → ℕ → DetectionState
  receive_byte s uptime_ms byte =
      let counted = record s {
        radar_bytes_total = saturating_inc s.radar_bytes_total;
        last_radar_byte_ms = uptime_ms;
      } in
      let flushed =
        if leb radar_frame_buffer_size (length s.radar_buffer)
        then flush_radar_buffer_if_needed counted uptime_ms true
        else counted in
      record flushed { radar_buffer = push_byte flushed.radar_buffer byte }

  unfoldable pub receive_bytes : DetectionState → ℕ → List ℕ → DetectionState
  receive_bytes s uptime_ms [] = s
  receive_bytes s uptime_ms (byte ∷ bytes) =
      receive_bytes (receive_byte s uptime_ms byte) uptime_ms bytes

  -- The results of the reads that the UART had ready, `none` for an error. An error or an empty read
  -- ends the loop.
  unfoldable pub drain_uart : DetectionState → ℕ → List (Option (List ℕ)) → DetectionState
  drain_uart s uptime_ms [] = s
  drain_uart s uptime_ms (none ∷ reads) = s
  drain_uart s uptime_ms (some [] ∷ reads) = s
  drain_uart s uptime_ms (some (byte ∷ bytes) ∷ reads) =
      drain_uart (receive_bytes s uptime_ms (byte ∷ bytes)) uptime_ms reads

  unfoldable pub poll_radar_uart : DetectionState → ℕ → List (Option (List ℕ)) → DetectionState
  poll_radar_uart s uptime_ms reads =
      flush_radar_buffer_if_needed (drain_uart s uptime_ms reads) uptime_ms false
