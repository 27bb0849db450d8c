-- ===== src/Command/Fields.antt =====
-- The fields of a command's payload, and the tokens in them (command.rs, from `split_fields` on).
use esp_wave_rider.Base.{
  ℕ, ◌-◌, ◌%◌, ◌^◌, Bool, ◌||◌, Option, none, some, List, [], length, get_or, ◌==◌, if◌then◌else◌,
}
use esp_wave_rider.Base.Int.{ℤ, pos, negsuc, neg, ltb_ℤ}
use esp_wave_rider.Text.{Text, codes, text_eq, split, is_empty}
use esp_wave_rider.Text.Number.{parse_u16, parse_i32}
use esp_wave_rider.Command.Outcome.{Outcome, ok, payload_error, or_error, ◌>>=◌}

-- The `N` fields between the bars.
unfoldable pub split_fields : ℕ → Text → Outcome (List Text)
split_fields n payload =
    let fields = split payload b'|' in
    if length fields == n then ok fields else payload_error (codes "invalid field count")

-- `fields[i]`
abbrev pub field : List Text → ℕ → Text
field fields i = get_or fields i []

unfoldable pub parse_bool_token : Text → Bool
parse_bool_token token =
    text_eq token (codes "1") || text_eq token (codes "true") || text_eq token (codes "on")

unfoldable pub parse_i32_or_default : Text → ℤ → Outcome ℤ
parse_i32_or_default value default =
    if is_empty value
    then ok default
    else or_error (parse_i32 value) (codes "invalid numeric field")

unfoldable pub optional_port : ℕ → Option ℕ
optional_port parsed = if parsed == 0 then none else some parsed

unfoldable pub parse_optional_port : Text → Outcome (Option ℕ)
parse_optional_port value =
    if is_empty value
    then ok none
    else (or_error (parse_u16 value) (codes "invalid port field") >>= λ parsed.
        ok (optional_port parsed))

unfoldable pub parse_port_or_default : Text → ℕ → Outcome ℕ
parse_port_or_default value default = do
  port ← parse_optional_port value
  ok (elim port [ none ↦ default | some p ↦ p ])

unfoldable pub parse_optional_bool_token : Text → Option Bool
parse_optional_bool_token token = if is_empty token then none else some (parse_bool_token token)

-- `value as u8` and `value as u16`, of an `i32`.
abbrev pub cast_unsigned : ℕ → ℤ → ℕ
cast_unsigned width (pos n) = n % 2 ^ width
cast_unsigned width (negsuc n) = 2 ^ width - 1 - n % 2 ^ width

unfoldable pub positive_or : ℤ → ℤ → ℤ
positive_or value default = if ltb_ℤ (pos 0) value then value else default

unfoldable pub parse_min_rssi : Text → Outcome ℤ
parse_min_rssi value =
    if is_empty value
    then ok (neg 88)
    else or_error (parse_i32 value) (codes "invalid ble tag min rssi")
