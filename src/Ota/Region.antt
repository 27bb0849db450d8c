-- ===== src/Ota/Region.antt =====
-- The flash region that the writer of main.rs gets from the esp-bootloader crate, as an interface,
-- with the documented behaviour of working NOR flash as its laws.
use esp_wave_rider.Base.{
  ℕ, ◌+◌, ◌-◌, ◌*◌, ◌%◌, ◌^◌, ◌≤◌, ◌<◌, ◌≡◌, ◌&&◌, Option, some, List, length, get_or, ltb, leb,
  if◌then◌else◌,
}

pub record FlashRegion : Type 1 where
  pub Region : Type 0
  pub byte_at : Region → ℕ → ℕ
  pub capacity : ℕ
  pub erase_size : ℕ
  pub sectors : ℕ
  -- `erase(0, to)` and `write(offset, bytes)`, where `none` is the error
  pub erase : Region → ℕ → Option Region
  pub write : Region → ℕ → List ℕ → Option Region
  -- A partition is made of sectors, and flash addresses have 32 bits.
  pub whole_sectors : capacity ≡ sectors * erase_size
  pub addressable : capacity < 2 ^ 32
  -- Whole sectors can be erased, and then read as ones.
  pub erases :
      (r : Region) (n : ℕ)
      → n * erase_size ≤ capacity
      → (r' : Region) × (erase r (n * erase_size) ≡ some r')
        × ((i : ℕ) → i < n * erase_size → byte_at r' i ≡ 255)
  -- Words can be written at aligned offsets inside the region. Erased bytes take the new values, and
  -- no other byte changes.
  pub writes :
      (r : Region) (offset : ℕ) (bytes : List ℕ)
      → offset % 4 ≡ 0
      → length bytes % 4 ≡ 0
      → offset + length bytes ≤ capacity
      → ((i : ℕ) → offset ≤ i → i < offset + length bytes → byte_at r i ≡ 255)
      → (r' : Region) × (write r offset bytes ≡ some r')
        × ((i : ℕ)
            → byte_at r' i ≡ (
                if leb offset i && ltb i (offset + length bytes)
                then get_or bytes (i - offset) 255
                else byte_at r i))
