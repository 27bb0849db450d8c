-- ===== src/Text/Number.antt =====
-- `str::parse` at Rust's integer types, for decimal text: an optional sign, then at least one
-- digit, and an error where the value does not fit the type.
use esp_wave_rider.Base.{
  ℕ, ◌+◌, ◌-◌, ◌*◌, ◌^◌, ◌≤◌, ◌≡◌, refl, ◌&&◌, Option, none, some, [], ◌∷◌, leb, ◌==◌,
  if◌then◌else◌, arith, ◌>>=◌,
}
use esp_wave_rider.Base.Int.{ℤ, pos, neg}
use esp_wave_rider.Text.{Text, is_ascii_digit, codes}

-- The digits of `s` behind the value `acc`: `checked_mul(10)`, then `checked_add(digit)`.
unfoldable pub parse_digits : ℕ → ℕ → Text → Option ℕ
unfolding is_ascii_digit
parse_digits limit acc [] = some acc
parse_digits limit acc (c ∷ s) =
    let next = acc * 10 + (c - b'0') in
    let rest = parse_digits limit next s in
    if is_ascii_digit c && leb next limit then rest else none

-- One digit at least.
unfoldable pub parse_magnitude : ℕ → Text → Option ℕ
unfolding parse_digits
parse_magnitude limit [] = none
parse_magnitude limit (c ∷ s) = parse_digits limit 0 (c ∷ s)

-- An unsigned type takes a `+` and no `-`.
unfoldable pub parse_unsigned : ℕ → Text → Option ℕ
unfolding parse_magnitude
parse_unsigned limit [] = none
parse_unsigned limit (c ∷ s) =
    if c == b'+' then parse_magnitude limit s else parse_magnitude limit (c ∷ s)

-- A signed type of `half` values below zero.
unfoldable pub parse_signed : ℕ → Text → Option ℤ
unfolding parse_magnitude
parse_signed half [] = none
parse_signed half (c ∷ s) =
    if c == b'-'
    then (parse_magnitude half s >>= λ n. some (neg n))
    else if c == b'+'
    then (parse_magnitude (half - 1) s >>= λ n. some (pos n))
    else (parse_magnitude (half - 1) (c ∷ s) >>= λ n. some (pos n))

abbrev pub max_u8 : ℕ
max_u8 = 255

abbrev pub max_u16 : ℕ
max_u16 = 65535

abbrev pub max_u32 : ℕ
max_u32 = 2 ^ 32 - 1

unfoldable pub parse_u8 : Text → Option ℕ
unfolding parse_unsigned
parse_u8 s = parse_unsigned max_u8 s

unfoldable pub parse_u16 : Text → Option ℕ
unfolding parse_unsigned
parse_u16 s = parse_unsigned max_u16 s

unfoldable pub parse_u32 : Text → Option ℕ
unfolding parse_unsigned
parse_u32 s = parse_unsigned max_u32 s

unfoldable pub parse_i16 : Text → Option ℤ
unfolding parse_signed
parse_i16 s = parse_signed (2 ^ 15) s

unfoldable pub parse_i32 : Text → Option ℤ
unfolding parse_signed
parse_i32 s = parse_signed (2 ^ 31) s

parse_digits-le :
    (limit acc : ℕ) (s : Text) {n : ℕ} → acc ≤ limit → parse_digits limit acc s ≡ some n → n ≤ limit
unfolding parse_digits
parse_digits-le limit acc [] h e = ground arith
parse_digits-le limit acc (c ∷ s) {n} h e =
    ground (arith, parse_digits-le limit (acc * 10 + (c - b'0')) s {n = n})

parse_magnitude-le : (limit : ℕ) (s : Text) {n : ℕ} → parse_magnitude limit s ≡ some n → n ≤ limit
unfolding parse_magnitude
parse_magnitude-le limit [] e = cc
parse_magnitude-le limit (c ∷ s) {n} e = parse_digits-le limit 0 (c ∷ s) {n = n} (omega arith) e

pub parse_unsigned-le : (limit : ℕ) (s : Text) {n : ℕ} → parse_unsigned limit s ≡ some n → n ≤ limit
unfolding parse_unsigned
parse_unsigned-le limit [] e = cc
parse_unsigned-le limit (c ∷ s) {n} e =
    unfold parse_magnitude in
    ground (arith, parse_magnitude-le limit s {n = n}, parse_magnitude-le limit (c ∷ s) {n = n})

trims_at_plus : parse_u16 (codes "+0042") ≡ some 42
unfolding parse_u16
trims_at_plus = refl

refuses :
    (parse_u16 (codes "65536") ≡ none)
    × (parse_u16 (codes "+") ≡ none)
    × (parse_u16 (codes "-1") ≡ none)
    × (parse_u16 (codes " 1") ≡ none)
unfolding parse_u16
refuses = (refl, refl, refl, refl)

signed_bounds :
    (parse_i16 (codes "-32768") ≡ some (neg 32768))
    × (parse_i16 (codes "32768") ≡ none)
    × (parse_i16 (codes "-0") ≡ some (pos 0))
unfolding parse_i16
signed_bounds = (refl, refl, refl)
