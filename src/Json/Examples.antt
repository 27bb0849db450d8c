-- ===== src/Json/Examples.antt =====
-- Runs of the decimal and JSON text, and the theorems on concrete values.
use esp_wave_rider.Base.{◌≡◌, refl, some, [], arith}
use esp_wave_rider.Base.Int.{neg, negsuc}
use esp_wave_rider.Text.{codes, find?}
use esp_wave_rider.Text.Number.{parse_i32}
use esp_wave_rider.Json.{
  append_i32, append_u32, fill_digits, json_field_string, push_json_string_string, push_escaped,
  escape,
}
use esp_wave_rider.Json.Decimal.{parse_i32-append_i32}

writes_number : append_i32 (codes "x=") (neg 2147483648) ≡ codes "x=-2147483648"
unfolding append_i32 append_u32 fill_digits
writes_number = refl

escapes_quote : push_json_string_string [] (codes "a\"b") ≡ codes "\"a\\\"b\""
unfolding push_json_string_string push_escaped escape
escapes_quote = refl

-- A quote in a value ends it: the reader knows no escapes.
reads_to_quote : json_field_string (codes "{\"a\":\"x\\\"y\"}") (codes "a") ≡ some (codes "x\\")
unfolding json_field_string find?
reads_to_quote = refl

parse_i32-append_i32_example : parse_i32 (append_i32 [] (negsuc 41)) ≡ some (negsuc 41)
parse_i32-append_i32_example = parse_i32-append_i32 (negsuc 41) (omega arith) (omega arith)
