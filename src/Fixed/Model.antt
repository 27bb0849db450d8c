-- ===== src/Fixed/Model.antt =====
-- Lists with a bound satisfy the laws of the fixed capacity: the interface can be met.
use esp_wave_rider.Base.{
  ℕ, ◌+◌, ◌≤◌, ◌<◌, ◌≡◌, Option, none, some, List, ◌++◌, length, leb, if◌then◌else◌, arith,
}
use esp_wave_rider.Text.{Text}
use esp_wave_rider.Text.Utf8.{as_bytes}
use esp_wave_rider.Fixed.{FixedVec, FixedString}

abbrev pub bounded : ℕ → List ℕ → List ℕ → Option (List ℕ)
bounded cap output bytes =
    if leb (length output + length bytes) cap then some (output ++ bytes) else none

pub bounded_fits :
    (cap : ℕ) (output bytes : List ℕ)
    → length output + length bytes ≤ cap
    → bounded cap output bytes ≡ some (output ++ bytes)
bounded_fits cap output bytes h = ground arith

pub bounded_overflows :
    (cap : ℕ) (output bytes : List ℕ)
    → cap < length output + length bytes
    → bounded cap output bytes ≡ none
bounded_overflows cap output bytes h = ground arith

abbrev pub list_vec : FixedVec
list_vec = record { extend = bounded; fits = bounded_fits; overflows = bounded_overflows }

abbrev pub bounded_text : ℕ → Text → Text → Option Text
bounded_text cap output part =
    if leb (length (as_bytes output) + length (as_bytes part)) cap
    then some (output ++ part)
    else none

pub bounded_text_fits :
    (cap : ℕ) (output part : Text)
    → length (as_bytes output) + length (as_bytes part) ≤ cap
    → bounded_text cap output part ≡ some (output ++ part)
bounded_text_fits cap output part h = ground arith

pub bounded_text_overflows :
    (cap : ℕ) (output part : Text)
    → cap < length (as_bytes output) + length (as_bytes part)
    → bounded_text cap output part ≡ none
bounded_text_overflows cap output part h = ground arith

abbrev pub list_string : FixedString
list_string = record {
  push_str = bounded_text;
  fits = bounded_text_fits;
  overflows = bounded_text_overflows;
}
