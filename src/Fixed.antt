-- ===== src/Fixed.antt =====
-- The `heapless` crate's vectors and strings of a fixed capacity, as the interface that the firmware
-- uses. The crate is not part of the repository: its documented behaviour is the laws.
pub mod Model
use esp_wave_rider.Base.{ℕ, ◌+◌, ◌≤◌, ◌<◌, ◌≡◌, Option, none, some, List, ◌++◌, length}
use esp_wave_rider.Text.{Text}
use esp_wave_rider.Text.Utf8.{as_bytes}

-- `Vec::extend_from_slice` on a vector of capacity `cap`, where `none` is the error, which leaves
-- the vector as it was. A `push` extends by one byte.
pub record FixedVec : Type 0 where
  pub extend : ℕ → List ℕ → List ℕ → Option (List ℕ)
  pub fits :
      (cap : ℕ) (output bytes : List ℕ)
      → length output + length bytes ≤ cap
      → extend cap output bytes ≡ some (output ++ bytes)
  pub overflows :
      (cap : ℕ) (output bytes : List ℕ)
      → cap < length output + length bytes
      → extend cap output bytes ≡ none

-- `String::push_str`, whose capacity is in bytes.
pub record FixedString : Type 0 where
  pub push_str : ℕ → Text → Text → Option Text
  pub fits :
      (cap : ℕ) (output part : Text)
      → length (as_bytes output) + length (as_bytes part) ≤ cap
      → push_str cap output part ≡ some (output ++ part)
  pub overflows :
      (cap : ℕ) (output part : Text)
      → cap < length (as_bytes output) + length (as_bytes part)
      → push_str cap output part ≡ none
