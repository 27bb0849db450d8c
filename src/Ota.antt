-- ===== src/Ota.antt =====
-- `OtaPartitionWriter` of rust/firmware/esp32s3/src/main.rs, which writes a firmware image that
-- arrives in chunks into a flash partition, four bytes at least at a time. The partition is the
-- `FlashRegion` of the esp-bootloader crate, an interface here.
pub mod Region
pub mod Memory
pub mod Bytes
pub mod Holds
pub mod Steps
pub mod Image
mod Examples
use esp_wave_rider.Base.{
  ℕ, ◌+◌, ◌-◌, ◌*◌, ◌/◌, ◌%◌, ◌^◌, Option, none, some, List, [], ◌∷◌, ◌++◌, length, take, drop, ltb,
  ◌==◌, if◌then◌else◌, min,
}
use esp_wave_rider.Text.{codes, is_empty}
use esp_wave_rider.Text.Results.{Result, ok, or_err, ◌>>=◌}
use esp_wave_rider.Ota.Region.{FlashRegion}

abbrev pub max_u32 : ℕ
max_u32 = 2 ^ 32 - 1

-- `a.saturating_add(b)` on 32 bits, which `usize` has here
abbrev pub saturating_add : ℕ → ℕ → ℕ
saturating_add a b = min max_u32 (a + b)

-- `[0xff; 4]`
abbrev pub blank_word : List ℕ
blank_word = 255 ∷ 255 ∷ 255 ∷ 255 ∷ []

pub record OtaPartitionWriter (Region : Type 0) : Type 0 where
  pub partition : Region
  pub offset : ℕ
  pub trailing : List ℕ
  pub trailing_len : ℕ
  pub total_bytes : ℕ

-- `trailing[start..start + part.len()].copy_from_slice(part)`
unfoldable pub overwrite : List ℕ → ℕ → List ℕ → List ℕ
overwrite trailing start part = take start trailing ++ (part ++ drop (start + length part) trailing)

-- `n.next_multiple_of(size)`
abbrev pub next_multiple_of : ℕ → ℕ → ℕ
next_multiple_of n size = (n + (size - 1)) / size * size

module _ (flash : FlashRegion) where
  open flash use {Region, capacity, erase_size, erase, write}

  -- How much of the partition `new` erases.
  unfoldable pub erase_len : Option ℕ → ℕ
  erase_len none = capacity
  erase_len (some len) = min (next_multiple_of (min len capacity) erase_size) capacity

  unfoldable pub new : Region → Option ℕ → Result (OtaPartitionWriter Region)
  new partition image_len = do
    region ←
        or_err (erase partition (min (erase_len image_len) max_u32))
          (codes "ota_partition_erase_failed")
    ok (record {
      partition = region;
      offset = 0;
      trailing = blank_word;
      trailing_len = 0;
      total_bytes = 0;
    })

  -- The four trailing bytes are written, and start again blank.
  unfoldable pub flush_trailing : OtaPartitionWriter Region → Result (OtaPartitionWriter Region)
  flush_trailing w = do
    region ← or_err (write w.partition w.offset w.trailing) (codes "ota_partition_write_failed")
    ok (record w {
      partition = region;
      offset = saturating_add w.offset 4;
      trailing = blank_word;
      trailing_len = 0;
    })

  -- The writer with `fill` bytes of the chunk behind its trailing ones.
  abbrev pub filled : OtaPartitionWriter Region → List ℕ → OtaPartitionWriter Region
  filled w part = record w {
    trailing = overwrite w.trailing w.trailing_len part;
    trailing_len = w.trailing_len + length part;
  }

  -- `if self.trailing_len == 4 { … }`
  unfoldable pub flush_if_full : OtaPartitionWriter Region → Result (OtaPartitionWriter Region)
  flush_if_full w = if w.trailing_len == 4 then flush_trailing w else ok w

  -- The trailing bytes of the last chunk are filled up first. The result has the rest of the chunk.
  unfoldable pub fill_trailing :
      OtaPartitionWriter Region → List ℕ → Result (OtaPartitionWriter Region × List ℕ)
  fill_trailing w chunk =
      let fill = min (4 - w.trailing_len) (length chunk) in
      if ltb 0 w.trailing_len
      then (flush_if_full (filled w (take fill chunk)) >>= λ w'. ok (w', drop fill chunk))
      else ok (w, chunk)

  -- Then all whole words.
  unfoldable pub write_aligned :
      OtaPartitionWriter Region → List ℕ → Result (OtaPartitionWriter Region × List ℕ)
  write_aligned w chunk =
      let aligned_len = length chunk - length chunk % 4 in
      if ltb 0 aligned_len
      then (or_err (write w.partition w.offset (take aligned_len chunk))
            (codes "ota_partition_write_failed")
          >>= λ region. ok (
            record w {
              partition = region;
              offset = saturating_add w.offset (aligned_len % 2 ^ 32);
            },
            drop aligned_len chunk,
          ))
      else ok (w, chunk)

  -- What is left waits for the next chunk.
  unfoldable pub keep_trailing : OtaPartitionWriter Region → List ℕ → OtaPartitionWriter Region
  keep_trailing w chunk =
      if is_empty chunk
      then w
      else record w { trailing = overwrite w.trailing 0 chunk; trailing_len = length chunk }

  unfoldable pub write_chunk :
      OtaPartitionWriter Region → List ℕ → Result (OtaPartitionWriter Region)
  write_chunk w chunk = do
    (w', rest) ←
        fill_trailing (record w { total_bytes = saturating_add w.total_bytes (length chunk) }) chunk
    (w'', rest') ← write_aligned w' rest
    ok (keep_trailing w'' rest')

  unfoldable pub finish : OtaPartitionWriter Region → Result (OtaPartitionWriter Region)
  finish w = if w.trailing_len == 0 then ok w else flush_trailing w

  -- The chunks that the download reads, one after the other.
  unfoldable pub write_chunks :
      OtaPartitionWriter Region → List (List ℕ) → Result (OtaPartitionWriter Region)
  write_chunks w [] = ok w
  write_chunks w (chunk ∷ chunks) = write_chunk w chunk >>= λ w'. write_chunks w' chunks

  -- The writer's part of a download whose reads all succeed: `new`, the chunks, `finish`.
  unfoldable pub stage_image :
      Region → Option ℕ → List (List ℕ) → Result (OtaPartitionWriter Region)
  stage_image partition image_len chunks = do
    w ← new partition image_len
    w' ← write_chunks w chunks
    finish w'
