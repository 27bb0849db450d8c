-- ===== src/Json/Decimal.antt =====
-- A number that is written in decimal is read back.
use esp_wave_rider.Base.{
  ℕ, zero, suc, ◌+◌, ◌-◌, ◌*◌, ◌/◌, ◌%◌, ◌^◌, ◌≤◌, ◌<◌, ◌≡◌, ◌∙◌, ap, true, false, some, [], ◌∷◌,
  ◌==◌, arith, Bool-cases, inl, inr, All,
}
use esp_wave_rider.Base.Int.{ℤ, pos, negsuc, neg, ◌≤ℤ◌}
use esp_wave_rider.Text.{Text, is_ascii_digit}
use esp_wave_rider.Text.Number.{
  parse_digits, parse_magnitude, parse_unsigned, parse_signed, parse_u32, parse_i32,
}
use esp_wave_rider.Json.{fill_digits, append_u32, append_i32}

-- The numbers of at most so many digits.
abbrev digits_bound : ℕ → ℕ
digits_bound zero = 1
digits_bound (suc places) = 10 * digits_bound places

parse_digits-step :
    (limit acc d : ℕ) (digits : Text)
    → d < 10
    → acc * 10 + d ≤ limit
    → parse_digits limit acc ((b'0' + d) ∷ digits) ≡ parse_digits limit (acc * 10 + d) digits
unfolding parse_digits is_ascii_digit
parse_digits-step limit acc d digits small fits = ground (
  arith,
  ap (λ k. parse_digits limit k digits) {x = acc * 10 + (b'0' + d - b'0')} {y = acc * 10 + d},
)

parse_last :
    (limit n : ℕ) (digits : Text)
    → n < 10
    → n ≤ limit
    → parse_digits limit 0 ((b'0' + n) ∷ digits) ≡ parse_digits limit n digits
parse_last limit n digits small fits =
    parse_digits-step limit 0 n digits small (omega arith)
    ∙ ap (λ k. parse_digits limit k digits) {x = 0 * 10 + n} {y = n} (omega arith)

parse_digits-fill_digits :
    (places limit n : ℕ) (digits : Text)
    → 0 < places
    → n < digits_bound places
    → n ≤ limit
    → parse_digits limit 0 (fill_digits places n digits) ≡ parse_digits limit n digits
unfolding fill_digits
parse_digits-fill_digits zero limit n digits some_place small fits = elim some_place [ ]
parse_digits-fill_digits (suc zero) limit n digits some_place small fits =
    let one : n % 10 ≡ n = omega arith in
    let last : (n / 10 == 0) ≡ true = ground arith in
    rw (last, one) (parse_last limit n digits (omega arith) fits)
parse_digits-fill_digits (suc (suc places)) limit n digits some_place small fits =
    elim (Bool-cases (n / 10 == 0)) [
      | inl last ↦
          let one : n % 10 ≡ n = ground arith in
          rw (last, one) (parse_last limit n digits (ground arith) fits)
      | inr more ↦ rw more (
          parse_digits-fill_digits (suc places) limit (n / 10) ((b'0' + n % 10) ∷ digits)
            (omega arith) (omega arith) (omega arith)
          ∙ parse_digits-step limit (n / 10) (n % 10) digits (omega arith) (omega arith)
          ∙ ap (λ k. parse_digits limit k digits) {x = n / 10 * 10 + n % 10} {y = n} (omega arith))
    ]

-- What holds of the digits holds of all that is written.
pub fill_digits-All {κ} :
    (P : ℕ → Type κ)
    → ((d : ℕ) → d < 10 → P (b'0' + d))
    → (places n : ℕ) (digits : Text) → All P digits
    → All P (fill_digits places n digits)
unfolding fill_digits
fill_digits-All P digit zero n digits h = h
fill_digits-All P digit (suc places) n digits h =
    let h' : All P ((b'0' + n % 10) ∷ digits) = (digit (n % 10) (omega arith), h) in
    elim (Bool-cases (n / 10 == 0)) [
      | inl last ↦ rw last h'
      | inr more ↦ rw more (fill_digits-All P digit places (n / 10) ((b'0' + n % 10) ∷ digits) h')
    ]

-- The first character is a digit.
fill_digits_head :
    (places n : ℕ) (digits : Text)
    → (d : ℕ) × (rest : Text) × (fill_digits (suc places) n digits ≡ (b'0' + d) ∷ rest) × (d < 10)
unfolding fill_digits
fill_digits_head zero n digits = elim (Bool-cases (n / 10 == 0)) [
  | inl last ↦ (n % 10, digits, rw last, omega arith)
  | inr more ↦ (n % 10, digits, rw more, omega arith)
]
fill_digits_head (suc places) n digits = elim (Bool-cases (n / 10 == 0)) [
  | inl last ↦ (n % 10, digits, rw last, omega arith)
  | inr more ↦ rw more (fill_digits_head places (n / 10) ((b'0' + n % 10) ∷ digits))
]

parse_magnitude-written :
    (limit n : ℕ) → n ≤ limit → n < 10 ^ 10 → parse_magnitude limit (fill_digits 10 n []) ≡ some n
unfolding parse_magnitude parse_digits
parse_magnitude-written limit n fits small =
    let (d, rest, head, digit) = fill_digits_head 9 n [] in
    let read = parse_digits-fill_digits 10 limit n [] (omega arith) (omega arith) fits in
    rw head (rw head at read)

pub parse_unsigned-written :
    (limit n : ℕ) → n ≤ limit → n < 10 ^ 10 → parse_unsigned limit (fill_digits 10 n []) ≡ some n
unfolding parse_unsigned
parse_unsigned-written limit n fits small =
    let (d, rest, head, digit) = fill_digits_head 9 n [] in
    let no_plus : (b'0' + d == b'+') ≡ false = ground arith in
    let read = parse_magnitude-written limit n fits small in rw (head, no_plus) (rw head at read)

-- What `append_u32` writes for a 32-bit number, `parse::<u32>` reads as that number.
pub parse_u32-append_u32 : (n : ℕ) → n < 2 ^ 32 → parse_u32 (append_u32 [] n) ≡ some n
unfolding parse_u32 append_u32
parse_u32-append_u32 n fits = parse_unsigned-written (2 ^ 32 - 1) n (omega arith) (omega arith)

-- What `append_i32` writes for a 32-bit integer, `parse::<i32>` reads as that integer.
pub parse_i32-append_i32 :
    (v : ℤ) → neg (2 ^ 31) ≤ℤ v → v ≤ℤ pos (2 ^ 31 - 1) → parse_i32 (append_i32 [] v) ≡ some v
unfolding parse_i32 append_i32 append_u32 parse_signed
parse_i32-append_i32 (pos n) above below =
    let (d, rest, head, digit) = fill_digits_head 9 n [] in
    let no_minus : (b'0' + d == b'-') ≡ false = ground arith in
    let no_plus : (b'0' + d == b'+') ≡ false = ground arith in
    let read = parse_magnitude-written (2 ^ 31 - 1) n (omega arith) (omega arith) in
    rw (head, no_minus, no_plus) (rw (rw head at read))
parse_i32-append_i32 (negsuc n) above below =
    let read = parse_magnitude-written (2 ^ 31) (suc n) (omega arith) (omega arith) in
    rw read (ground arith)
