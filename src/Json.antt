-- ===== src/Json.antt =====
-- The text that rust/firmware/esp32s3/src/main.rs writes and reads without serde: decimal numbers,
-- JSON strings with their escapes, and the fields of the announcements of other nodes.
pub mod Decimal
pub mod Fields
pub mod Search
pub mod Objects
mod Examples
use esp_wave_rider.Base.{
  ℕ, zero, suc, ◌+◌, ◌/◌, ◌%◌, Bool, true, false, ◌||◌, Option, none, some, List, [], ◌∷◌, ◌++◌,
  take, drop, length, ◌==◌, if◌then◌else◌, ◌>>=◌,
}
use esp_wave_rider.Base.Int.{ℤ, pos, negsuc}
use esp_wave_rider.Text.{Text, codes, find?, trim}
use esp_wave_rider.Text.Number.{parse_i32, parse_u32}
use esp_wave_rider.Fixed.{FixedString}

-- The loop that fills the array of ten digits from its end: the digits of `remaining`, in front of
-- those that are there. Each turn uses one of the ten places.
unfoldable pub fill_digits : ℕ → ℕ → Text → Text
fill_digits zero remaining digits = digits
fill_digits (suc places) remaining digits =
    let digits' = (b'0' + remaining % 10) ∷ digits in
    let more = fill_digits places (remaining / 10) digits' in
    if remaining / 10 == 0 then digits' else more

unfoldable pub append_u32 : Text → ℕ → Text
append_u32 output value = output ++ fill_digits 10 value []

-- `value < 0`, and `unsigned_abs`.
unfoldable pub append_i32 : Text → ℤ → Text
append_i32 output (pos n) = append_u32 output n
append_i32 output (negsuc n) = append_u32 (output ++ b'-' ∷ []) (suc n)

-- The text that stands for a character inside a JSON string.
unfoldable pub escape : ℕ → Text
escape c =
    if c == 0x5c
    then 0x5c ∷ 0x5c ∷ []
    else if c == 0x22
    then 0x5c ∷ 0x22 ∷ []
    else if c == 10
    then 0x5c ∷ b'n' ∷ []
    else if c == 13
    then 0x5c ∷ b'r' ∷ []
    else if c == 9
    then 0x5c ∷ b't' ∷ []
    else c ∷ []

unfoldable pub push_escaped : Text → Text → Text
push_escaped payload [] = payload
push_escaped payload (c ∷ value) = push_escaped (payload ++ escape c) value

unfoldable pub push_json_string_string : Text → Text → Text
push_json_string_string payload value = push_escaped (payload ++ 0x22 ∷ []) value ++ 0x22 ∷ []

unfoldable pub push_json_string_field_string : Text → Text → Text → Text
push_json_string_field_string payload key value =
    push_json_string_string (payload ++ 0x22 ∷ (key ++ codes "\":")) value

-- `push_json_string_field`, `append_u32_heapless` and `append_i32_heapless` write into a string of
-- 384 bytes, and give up where it is full.
module _ (str : FixedString) where
  abbrev pub payload_capacity : ℕ
  payload_capacity = 384

  abbrev pub push_part : Text → Text → Option Text
  push_part output part = str.push_str payload_capacity output part

  unfoldable pub push_escaped_field : Text → Text → Option Text
  push_escaped_field payload [] = some payload
  push_escaped_field payload (c ∷ value) = do
    payload' ← push_part payload (escape c)
    push_escaped_field payload' value

  unfoldable pub push_json_string_field : Text → Text → Text → Option Text
  push_json_string_field payload key value = do
    quoted ← push_part payload (0x22 ∷ [])
    named ← push_part quoted key
    opened ← push_part named (codes "\":\"")
    filled ← push_escaped_field opened value
    push_part filled (0x22 ∷ [])

  -- One digit after the other.
  unfoldable pub push_characters : Text → Text → Option Text
  push_characters output [] = some output
  push_characters output (c ∷ digits) = do
    output' ← push_part output (c ∷ [])
    push_characters output' digits

  unfoldable pub append_u32_heapless : Text → ℕ → Option Text
  append_u32_heapless output value = push_characters output (fill_digits 10 value [])

  unfoldable pub append_i32_heapless : Text → ℤ → Option Text
  append_i32_heapless output (pos n) = append_u32_heapless output n
  append_i32_heapless output (negsuc n) = do
    signed ← push_part output (b'-' ∷ [])
    append_u32_heapless signed (suc n)

-- `"field":"`, and the text from there to the next quote.
unfoldable pub json_field_string : Text → Text → Option Text
json_field_string payload field = do
  let pattern = 0x22 ∷ (field ++ codes "\":\"")
  start ← find? payload pattern
  let rest = drop (start + length pattern) payload
  end ← find? rest (0x22 ∷ [])
  some (take end rest)

-- `rest.find([',', '}']).unwrap_or(rest.len())`, cut off there.
unfoldable pub until_separator : Text → Text
until_separator [] = []
until_separator (c ∷ s) =
    let rest = until_separator s in if c == b',' || c == b'}' then [] else c ∷ rest

unfoldable pub json_field_number : Text → Text → Option Text
json_field_number payload field = do
  let pattern = 0x22 ∷ (field ++ codes "\":")
  start ← find? payload pattern
  some (trim (until_separator (drop (start + length pattern) payload)))

unfoldable pub json_field_i32 : Text → Text → Option ℤ
json_field_i32 payload field = json_field_number payload field >>= λ number. parse_i32 number

unfoldable pub json_field_u32 : Text → Text → Option ℕ
json_field_u32 payload field = json_field_number payload field >>= λ number. parse_u32 number
