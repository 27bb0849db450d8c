-- ===== src/Radar/TextFrames.antt =====
-- Text and generic frames, and how `parse_radar_frame` chooses among the three kinds.
use esp_wave_rider.Base.{
  ℕ, ◌≡◌, refl, ◌≢◌, ◌↔◌, true, ◌||◌, none, some, List, [], ◌∷◌, length, All, arith, inl, inr,
  Option-cases, >>=-eq_some,
}
use esp_wave_rider.Text.{Text, codes, contains}
use esp_wave_rider.Radar.{
  EnergyFrame, TextFrame, radar_parse_error, parse_radar_frame, try_parse_energy_frame,
  try_parse_text_frame, parse_textish_ascii, is_textish, text_frame, starts_with_energy_header,
  extract_range_cm,
}

abbrev pub IsTextish : ℕ → Type 0
IsTextish c = is_textish c ≡ true

-- The text is the bytes themselves, each a printable character or one of three controls.
pub parse_textish_ascii-eq :
    (bytes : List ℕ) {s : Text}
    → parse_textish_ascii bytes ≡ some s
    → (s ≡ bytes) × All IsTextish bytes
unfolding parse_textish_ascii
parse_textish_ascii-eq [] e = ground arith
parse_textish_ascii-eq (b ∷ bytes) {s} e = elim (Option-cases (parse_textish_ascii bytes)) [
  | inl no_text ↦ absurd (ground arith)
  | inr (r, rest) ↦ let (same, all) = parse_textish_ascii-eq bytes rest in ground arith
]

headed :
    (bytes : List ℕ) {f : EnergyFrame}
    → try_parse_energy_frame bytes ≡ some f
    → starts_with_energy_header bytes ≡ true
unfolding try_parse_energy_frame
headed bytes e = ground arith

header_first : (b : ℕ) (bytes : List ℕ) → starts_with_energy_header (b ∷ bytes) ≡ true → b ≡ 0xf4
unfolding starts_with_energy_header
header_first b bytes h = ground arith

not_textish : (b : ℕ) (bytes : List ℕ) → b ≡ 0xf4 → parse_textish_ascii (b ∷ bytes) ≡ none
unfolding parse_textish_ascii
not_textish b bytes h = ground arith

-- Bytes that are parsed as an energy frame are not parsed as a text frame.
pub energy_is_no_text :
    (bytes : List ℕ) {f : EnergyFrame}
    → try_parse_energy_frame bytes ≡ some f
    → try_parse_text_frame bytes ≡ none
unfolding try_parse_text_frame
energy_is_no_text [] e = absurd (unfold starts_with_energy_header in cc (headed [] e))
energy_is_no_text (b ∷ bytes) e =
    rw (not_textish b bytes (header_first b bytes (headed (b ∷ bytes) e)))

parse_cons_no_error : (b : ℕ) (bytes : List ℕ) → parse_radar_frame (b ∷ bytes) ≢ radar_parse_error
unfolding parse_radar_frame
parse_cons_no_error b bytes e = elim (Option-cases (try_parse_energy_frame (b ∷ bytes))) [
  | inr (f, is_energy) ↦ absurd (ground arith)
  | inl no_energy ↦ elim (Option-cases (try_parse_text_frame (b ∷ bytes))) [
    | inr (f, is_text) ↦ absurd (ground arith)
    | inl no_text ↦ absurd (ground arith)
  ]
]

-- The parser fails exactly on the empty slice.
pub parse_radar_frame_error_iff :
    (bytes : List ℕ) → (parse_radar_frame bytes ≡ radar_parse_error) ↔ (bytes ≡ [])
unfolding parse_radar_frame
parse_radar_frame_error_iff [] = (λ e. refl, λ e. refl)
parse_radar_frame_error_iff (b ∷ bytes) = (λ e. absurd (parse_cons_no_error b bytes e), λ e. cc)

text_frame-eq :
    (bytes : List ℕ) (s : Text) {f : TextFrame}
    → text_frame bytes s ≡ some f
    → (f.ascii ≡ s)
      × (f.length ≡ length bytes)
      × (f.presence ≡ contains s (codes "ON"))
      × (f.range_cm ≡ extract_range_cm s)
      × ((contains s (codes "Range") || contains s (codes "ON") || contains s (codes "OFF")) ≡ true)
unfolding text_frame
text_frame-eq bytes s {f} e = ground arith

-- A text frame keeps the received text, and its presence and range are read from that text.
pub try_parse_text_frame-eq :
    (bytes : List ℕ) {f : TextFrame}
    → try_parse_text_frame bytes ≡ some f
    → All IsTextish bytes
      × (f.ascii ≡ bytes)
      × (f.length ≡ length bytes)
      × (f.presence ≡ contains bytes (codes "ON"))
      × (f.range_cm ≡ extract_range_cm bytes)
      × ((contains bytes (codes "Range")
            || contains bytes (codes "ON")
            || contains bytes (codes "OFF"))
          ≡ true)
unfolding try_parse_text_frame
try_parse_text_frame-eq bytes {f} e =
    let (s, textish, framed) = >>=-eq_some (parse_textish_ascii bytes) _ e in
    let (same, all) = parse_textish_ascii-eq bytes textish in
    let fields = text_frame-eq bytes bytes (rw same at framed) in
    (all, fields.0, fields.1, fields.2, fields.3, fields.4)
