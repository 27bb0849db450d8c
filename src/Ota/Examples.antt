-- ===== src/Ota/Examples.antt =====
-- Runs of the OTA writer on a small memory, and its theorem there.
use esp_wave_rider.Base.{
  concat, ℕ, ◌≡◌, refl, ◌<◌, Option, some, none, List, [], ◌∷◌, length, get_or, map, arith,
}
use esp_wave_rider.Text.Results.{Result, ok}
use esp_wave_rider.Ota.{
  stage_image, new, write_chunks, write_chunk, fill_trailing, write_aligned, keep_trailing,
  flush_if_full, flush_trailing, overwrite, finish, erase_len, OtaPartitionWriter,
}
use esp_wave_rider.Ota.Memory.{Memory, memory}
use esp_wave_rider.Ota.Image.{stage_image-concat}

abbrev used : Memory
used i = 7

abbrev image : List (List ℕ)
image = (1 ∷ 2 ∷ []) ∷ (3 ∷ []) ∷ (4 ∷ 5 ∷ 6 ∷ 8 ∷ 9 ∷ 10 ∷ []) ∷ []

abbrev staged_bytes : Result (OtaPartitionWriter Memory) → Option (List ℕ)
staged_bytes (ok w) =
    some (map w.partition (0 ∷ 1 ∷ 2 ∷ 3 ∷ 4 ∷ 5 ∷ 6 ∷ 7 ∷ 8 ∷ 9 ∷ 11 ∷ 15 ∷ 16 ∷ []))
staged_bytes _ = none

stages :
    staged_bytes (stage_image memory used (some 9) image)
    ≡ some (1 ∷ 2 ∷ 3 ∷ 4 ∷ 5 ∷ 6 ∷ 8 ∷ 9 ∷ 10 ∷ 255 ∷ 255 ∷ 255 ∷ 7 ∷ [])
unfolding stage_image new erase_len write_chunks write_chunk fill_trailing write_aligned
    keep_trailing flush_if_full flush_trailing overwrite finish
stages = refl

stage_image-concat_example :
    (w : OtaPartitionWriter Memory) × (stage_image memory used (some 9) image ≡ ok w)
    × (w.total_bytes ≡ length (concat image))
    × ((i : ℕ) → i < erase_len memory (some 9) → w.partition i ≡ get_or (concat image) i 255)
unfolding erase_len
stage_image-concat_example = stage_image-concat memory used (some 9) image (omega arith)
