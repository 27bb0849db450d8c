-- ===== src/Ota/Holds.antt =====
-- What the writer of the OTA image stands for, and what writing a word to the partition does to it.
use esp_wave_rider.Base.{
  ℕ, ◌+◌, ◌-◌, ◌%◌, ◌≤◌, ◌<◌, ◌≡◌, refl, sym, ap, ◌∙◌, some, List, ◌++◌, length, get_or, ltb, ◌==◌,
  if◌then◌else◌, min, arith, length-append, Bool-cases, inl, inr,
}
use esp_wave_rider.Text.Results.{Gives}
use esp_wave_rider.Ota.{
  OtaPartitionWriter, blank_word, flush_trailing, flush_if_full, filled, max_u32,
}
use esp_wave_rider.Ota.Region.{FlashRegion}
use esp_wave_rider.Ota.Bytes.{
  get_or-append, get_or-beyond, length-overwrite, get_or-overwrite, blank_pending,
}

module _ (flash : FlashRegion) where
  open flash use {Region, byte_at, capacity, erase_size, sectors, erase, write}

  -- The writer stands for `image`: the partition has its words, the trailing bytes what is left of
  -- it, and the partition is blank from there to `end`.
  pub record Holds (end total : ℕ) (image : List ℕ) (w : OtaPartitionWriter Region) : Type 0 where
    pub aligned : w.offset % 4 ≡ 0
    pub short : w.trailing_len ≤ 4
    pub width : length w.trailing ≡ 4
    pub count : w.offset + w.trailing_len ≡ length image
    pub counted : w.total_bytes ≡ total
    pub stored : (i : ℕ) → i < w.offset → byte_at w.partition i ≡ get_or image i 255
    pub blank : (i : ℕ) → w.offset ≤ i → i < end → byte_at w.partition i ≡ 255
    pub pending : (j : ℕ) → get_or w.trailing j 255 ≡ get_or image (w.offset + j) 255

  -- Words of the image that are written at the offset join those stored.
  pub store_words :
      (end : ℕ) (image part : List ℕ) (r : Region) (offset : ℕ)
      → end ≤ capacity
      → offset % 4 ≡ 0
      → length part % 4 ≡ 0
      → offset + length part ≤ end
      → ((i : ℕ) → i < offset → byte_at r i ≡ get_or image i 255)
      → ((i : ℕ) → offset ≤ i → i < end → byte_at r i ≡ 255)
      → ((j : ℕ) → j < length part → get_or part j 255 ≡ get_or image (offset + j) 255)
      → (r' : Region) × (write r offset part ≡ some r')
        × ((i : ℕ) → i < offset + length part → byte_at r' i ≡ get_or image i 255)
        × ((i : ℕ) → offset + length part ≤ i → i < end → byte_at r' i ≡ 255)
  store_words end image part r offset fits al wl inside stored blank same =
      let (r', done, at) =
        flash.writes r offset part al wl (omega arith) (λ i lo hi. blank i lo (omega arith)) in
      (
        r',
        done,
        λ i h. elim (Bool-cases (ltb i offset)) [
          | inl before ↦ ground (arith, at i, stored i)
          | inr behind ↦ ground (
            arith,
            at i,
            same (i - offset),
            ap (λ k. get_or image k 255) {x = offset + (i - offset)} {y = i},
          )
        ],
        λ i lo hi. ground (arith, at i, blank i),
      )

  -- A full word of trailing bytes, or the padded rest, goes out.
  pub flush_trailing-Gives :
      (end total : ℕ) (image : List ℕ) (w : OtaPartitionWriter Region)
      → end ≤ capacity
      → Holds end total image w
      → w.offset + 4 ≤ end
      → Gives (flush_trailing flash w) (λ w'.
        (w'.offset ≡ w.offset + 4)
        × (w'.trailing_len ≡ 0)
        × (w'.trailing ≡ blank_word)
        × (w'.total_bytes ≡ total)
        × ((i : ℕ) → i < w.offset + 4 → byte_at w'.partition i ≡ get_or image i 255)
        × ((i : ℕ) → w.offset + 4 ≤ i → i < end → byte_at w'.partition i ≡ 255))
  unfolding flush_trailing
  flush_trailing-Gives end total image w fits h inside =
      let (r', done, stored, blank) =
        store_words end image w.trailing w.partition w.offset fits h.aligned
          (omega (arith, h.width)) (omega (arith, h.width)) h.stored h.blank (λ j _. h.pending j) in
      let wide = flash.addressable in
      let four = h.width in
      (
        record w {
          partition = r';
          offset = min max_u32 (w.offset + 4);
          trailing = blank_word;
          trailing_len = 0;
        },
        rw done,
        (
          ground arith,
          refl,
          refl,
          h.counted,
          λ i lt. stored i (omega arith),
          λ i le lt. blank i (omega arith) lt,
        ),
      )

  pub filled-Holds :
      (end total : ℕ) (image part : List ℕ) (w : OtaPartitionWriter Region)
      → Holds end total image w
      → w.trailing_len + length part ≤ 4
      → Holds end total (image ++ part) (filled flash w part)
  filled-Holds end total image part w h fits =
      let four = h.width in
      let all = h.count in
      record {
        aligned = h.aligned;
        short = fits;
        width = length-overwrite w.trailing w.trailing_len part (omega arith) ∙ h.width;
        count = omega (arith, length-append image part);
        counted = h.counted;
        stored = λ i lt. h.stored i lt ∙ sym (ground (arith, get_or-append image part i 255));
        blank = h.blank;
        pending = λ j. ground (
          arith,
          get_or-overwrite w.trailing w.trailing_len part j,
          get_or-append image part (w.offset + j) 255,
          h.pending j,
          get_or-beyond image (w.offset + j) 255,
          get_or-beyond part (w.offset + j - length image) 255,
          ap (λ k. get_or part k 255) {x = w.offset + j - length image} {y = j - w.trailing_len},
        );
      }

  pub flush_if_full-Holds :
      (end total : ℕ) (image : List ℕ) (w : OtaPartitionWriter Region)
      → end ≤ capacity
      → Holds end total image w
      → length image ≤ end
      → Gives (flush_if_full flash w) (λ w'.
        Holds end total image w'
        × (w'.trailing_len ≡ (if w.trailing_len == 4 then 0 else w.trailing_len)))
  unfolding flush_if_full
  flush_if_full-Holds end total image w fits h inside = elim (Bool-cases (w.trailing_len == 4)) [
    | inr partial ↦ rw partial (w, refl, (h, refl))
    | inl full ↦
        let all = h.count in
        let (w', done, (moved, none_left, word, same, stored, blank)) =
          flush_trailing-Gives end total image w fits h (ground arith) in
        let beyond : (j : ℕ) → get_or image (w'.offset + j) 255 ≡ 255 =
          λ j. get_or-beyond image (w'.offset + j) 255 (ground arith) in
        let al = h.aligned in
        rw full (
          w',
          done,
          (
            record {
              aligned = omega arith;
              short = omega arith;
              width = rw word;
              count = ground arith;
              counted = same;
              stored = λ i lt. stored i (omega arith);
              blank = λ i le lt. blank i (omega arith) lt;
              pending = λ j. rw (word, beyond j) (blank_pending j);
            },
            none_left,
          ),
        )
  ]
