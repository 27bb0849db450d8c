-- ===== src/Ota/Memory.antt =====
-- A memory of four sectors of eight bytes meets the laws of the flash region: the interface can be
-- met.
use esp_wave_rider.Base.{
  ℕ, ◌+◌, ◌-◌, ◌*◌, ◌%◌, ◌≤◌, ◌<◌, ◌≡◌, refl, ◌&&◌, Option, none, some, List, length, get_or, ltb,
  leb, ◌==◌, if◌then◌else◌, arith,
}
use esp_wave_rider.Ota.Region.{FlashRegion}

-- The byte at each address.
abbrev pub Memory : Type 0
Memory = ℕ → ℕ

abbrev pub erase_memory : Memory → ℕ → Option Memory
erase_memory r to = if leb to 32 then some (λ i. if ltb i to then 255 else r i) else none

abbrev pub programmed : Memory → ℕ → List ℕ → Memory
programmed r offset bytes i =
    if leb offset i && ltb i (offset + length bytes) then get_or bytes (i - offset) 255 else r i

abbrev pub write_memory : Memory → ℕ → List ℕ → Option Memory
write_memory r offset bytes =
    if offset % 4 == 0 && length bytes % 4 == 0 && leb (offset + length bytes) 32
    then some (programmed r offset bytes)
    else none

pub memory_erases :
    (r : Memory) (n : ℕ)
    → n * 8 ≤ 32
    → (r' : Memory) × (erase_memory r (n * 8) ≡ some r') × ((i : ℕ) → i < n * 8 → r' i ≡ 255)
memory_erases r n h = (λ i. if ltb i (n * 8) then 255 else r i, ground arith, λ i lt. ground arith)

pub memory_writes :
    (r : Memory) (offset : ℕ) (bytes : List ℕ)
    → offset % 4 ≡ 0
    → length bytes % 4 ≡ 0
    → offset + length bytes ≤ 32
    → ((i : ℕ) → offset ≤ i → i < offset + length bytes → r i ≡ 255)
    → (r' : Memory) × (write_memory r offset bytes ≡ some r')
      × ((i : ℕ) → r' i ≡ programmed r offset bytes i)
memory_writes r offset bytes a b c d = (programmed r offset bytes, ground arith, λ i. refl)

abbrev pub memory : FlashRegion
memory = record {
  Region = Memory;
  byte_at = λ r i. r i;
  capacity = 32;
  erase_size = 8;
  sectors = 4;
  erase = erase_memory;
  write = write_memory;
  whole_sectors = refl;
  addressable = omega arith;
  erases = memory_erases;
  writes = memory_writes;
}
