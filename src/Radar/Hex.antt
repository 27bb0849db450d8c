-- ===== src/Radar/Hex.antt =====
-- The hexadecimal and the printable view of a frame.
use esp_wave_rider.Base.{
  ℕ, zero, suc, ◌+◌, ◌-◌, ◌*◌, ◌/◌, ◌%◌, ◌≤◌, ◌<◌, ◌≡◌, refl, ◌&&◌, Option, none, some, List, [],
  ◌∷◌, length, get_or, ap, ◌∙◌, leb, if◌then◌else◌, ◌>>=◌, All, arith,
}
use esp_wave_rider.Text.{Text, codes}
use esp_wave_rider.Radar.{hex_digit, build_hex_string, build_ascii_string}
use esp_wave_rider.Radar.Energy.{IsByte}

-- The value of an upper-case hexadecimal digit.
unfoldable pub hex_value : ℕ → Option ℕ
hex_value c =
    if leb b'0' c && leb c b'9'
    then some (c - b'0')
    else if leb b'A' c && leb c b'F'
    then some (c - b'A' + 10)
    else none

-- Two digits a byte.
unfoldable pub decode_hex : Text → Option (List ℕ)
decode_hex [] = some []
decode_hex (h ∷ []) = none
decode_hex (h ∷ l ∷ s) = do
  high ← hex_value h
  low ← hex_value l
  rest ← decode_hex s
  some ((high * 16 + low) ∷ rest)

-- The digits have the values from `n` on.
abbrev CountFrom : ℕ → Text → Type 0
CountFrom n [] = Unit {0}
CountFrom n (d ∷ digits) = (hex_value d ≡ some n) × CountFrom (suc n) digits

digit_at :
    (digits : Text) (i n : ℕ)
    → CountFrom n digits
    → i < length digits
    → hex_value (get_or digits i 0) ≡ some (n + i)
digit_at [] i n counted h = absurd (omega arith)
digit_at (d ∷ digits) zero n (first, later) h = first ∙ ap some (omega arith)
digit_at (d ∷ digits) (suc i) n (first, later) h =
    digit_at digits i (suc n) later (omega arith) ∙ ap some (omega arith)

digits-CountFrom : CountFrom 0 (codes "0123456789ABCDEF")
unfolding hex_value
digits-CountFrom = (
  refl,
  (
    refl,
    (
      refl,
      (
        refl,
        (
          refl,
          (
            refl,
            (refl, (refl, (refl, (refl, (refl, (refl, (refl, (refl, (refl, (refl, tt)))))))))),
          ),
        ),
      ),
    ),
  ),
)

hex_value-hex_digit : (n : ℕ) → n < 16 → hex_value (hex_digit n) ≡ some n
unfolding hex_digit
hex_value-hex_digit n h =
    digit_at (codes "0123456789ABCDEF") n 0 digits-CountFrom h ∙ ap some (omega arith)

-- Reading the hexadecimal view of bytes, two upper-case digits a byte, gives the bytes back.
pub decode_hex-build_hex_string :
    (bytes : List ℕ) → All IsByte bytes → decode_hex (build_hex_string bytes) ≡ some bytes
unfolding decode_hex build_hex_string
decode_hex-build_hex_string [] h = refl
decode_hex-build_hex_string (b ∷ bytes) (hb, hs) =
    let high : hex_value (hex_digit (b / 16 % 16)) ≡ some (b / 16 % 16) =
      hex_value-hex_digit _ (omega arith) in
    let low : hex_value (hex_digit (b % 16)) ≡ some (b % 16) =
      hex_value-hex_digit _ (omega arith) in
    let byte : b / 16 % 16 * 16 + b % 16 ≡ b = omega arith in
    rw (high, low, decode_hex-build_hex_string bytes hs, byte)

-- The printable view has a printable character for each byte, and keeps the printable bytes.
pub build_ascii_string_printable :
    (bytes : List ℕ)
    → (length (build_ascii_string bytes) ≡ length bytes)
      × All (λ c. (32 ≤ c) × (c ≤ 126)) (build_ascii_string bytes)
unfolding build_ascii_string
build_ascii_string_printable [] = (refl, tt)
build_ascii_string_printable (b ∷ bytes) =
    let (n, all) = build_ascii_string_printable bytes in (omega arith, (ground arith, all))
