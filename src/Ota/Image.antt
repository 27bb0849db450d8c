-- ===== src/Ota/Image.antt =====
-- What the partition holds after the chunks of an image: the image, and ones behind it.
use esp_wave_rider.Base.{
  concat, ℕ, ◌+◌, ◌-◌, ◌*◌, ◌/◌, ◌≤◌, ◌<◌, ◌≡◌, refl, sym, ap, ◌∙◌, subst, Option, none, some, List,
  [], ◌∷◌, ◌++◌, length, get_or, ltb, leb, ◌==◌, min, arith, tests, length-append, append-nil,
  append_assoc, Bool-cases, inl, inr,
}
use esp_wave_rider.Text.Results.{ok, >>=-ok, Gives}
use esp_wave_rider.Ota.{
  OtaPartitionWriter, blank_word, erase_len, new, fill_trailing, write_aligned, keep_trailing,
  write_chunk, finish, write_chunks, stage_image, max_u32,
}
use esp_wave_rider.Ota.Region.{FlashRegion}
use esp_wave_rider.Ota.Bytes.{get_or-beyond, blank_pending}
use esp_wave_rider.Ota.Holds.{Holds, flush_trailing-Gives}
use esp_wave_rider.Ota.Steps.{fill_trailing-Consumed, write_aligned-Consumed, keep_trailing-Holds}

module _ (flash : FlashRegion) where
  open flash use {Region, byte_at, capacity, erase_size, sectors, erase, write}

  -- A chunk adds its bytes to the image.
  write_chunk-Holds :
      (end total : ℕ) (image chunk : List ℕ) (w : OtaPartitionWriter Region)
      → end ≤ capacity
      → Holds flash end total image w
      → w.trailing_len < 4
      → length image + length chunk ≤ end
      → total + length chunk ≤ max_u32
      → Gives
          (write_chunk flash w chunk)
          (λ w'. Holds flash end (total + length chunk) (image ++ chunk) w' × (w'.trailing_len < 4))
  unfolding write_chunk
  write_chunk-Holds end total image chunk w fits h partial inside small =
      let all = h.counted in
      let counted = record w { total_bytes = min max_u32 (w.total_bytes + length chunk) } in
      let total' = total + length chunk in
      let held : Holds flash end total' image counted = record {
        aligned = h.aligned;
        short = h.short;
        width = h.width;
        count = h.count;
        counted = omega arith;
        stored = h.stored;
        blank = h.blank;
        pending = h.pending;
      } in
      let (step, first, c) =
        fill_trailing-Consumed flash end total' image chunk counted fits held partial inside in
      let size = ap length c.parted ∙ length-append c.part step.1 in
      let (step', second, (c', few)) =
        write_aligned-Consumed flash end total' (image ++ c.part) step.1 step.0 fits c.holds c.short
          c.settled (omega (arith, length-append image c.part, size)) in
      let (kept, short) =
        keep_trailing-Holds flash end total' ((image ++ c.part) ++ c'.part) step'.1 step'.0 c'.holds
          c'.short c'.settled few in
      let whole : ((image ++ c.part) ++ c'.part) ++ step'.1 ≡ image ++ chunk =
        append_assoc (image ++ c.part) c'.part step'.1
        ∙ append_assoc image c.part (c'.part ++ step'.1)
        ∙ ap (λ l. image ++ l) (sym (c.parted ∙ ap (λ l. c.part ++ l) c'.parted)) in
      (
        keep_trailing flash step'.0 step'.1,
        >>=-ok (fill_trailing flash counted chunk) _ first
            (>>=-ok (write_aligned flash step.0 step.1) _ second refl),
        (
          subst (λ l. Holds flash end total' l (keep_trailing flash step'.0 step'.1)) whole kept,
          short,
        ),
      )

  write_chunks-Holds :
      (end total : ℕ) (image : List ℕ) (chunks : List (List ℕ)) (w : OtaPartitionWriter Region)
      → end ≤ capacity
      → Holds flash end total image w
      → w.trailing_len < 4
      → length image + length (concat chunks) ≤ end
      → total + length (concat chunks) ≤ max_u32
      → Gives (write_chunks flash w chunks) (λ w'.
        Holds flash end (total + length (concat chunks)) (image ++ concat chunks) w'
        × (w'.trailing_len < 4))
  unfolding write_chunks
  write_chunks-Holds end total image [] w fits h partial inside small =
      let none_more : total ≡ total + 0 = omega arith in
      (
        w,
        refl,
        (
          subst (λ l. Holds flash end (total + 0) l w) (sym (append-nil image))
              (subst (λ t. Holds flash end t image w) none_more h),
          partial,
        ),
      )
  write_chunks-Holds end total image (chunk ∷ chunks) w fits h partial inside small =
      let size = length-append chunk (concat chunks) in
      let (w', first, (held, short)) =
        write_chunk-Holds end total image chunk w fits h partial (omega (arith, size))
          (omega (arith, size)) in
      let (w'', rest, (held', short')) =
        write_chunks-Holds end (total + length chunk) (image ++ chunk) chunks w' fits held short
          (omega (arith, size, length-append image chunk)) (omega (arith, size)) in
      let sums : (total + length chunk) + length (concat chunks)
          ≡ total + length (chunk ++ concat chunks) =
        omega (arith, size) in
      (
        w'',
        >>=-ok (write_chunk flash w chunk) _ first rest,
        (
          subst (λ l. Holds flash end (total + length (chunk ++ concat chunks)) l w'')
              (append_assoc image chunk (concat chunks))
              (subst (λ t. Holds flash end t ((image ++ chunk) ++ concat chunks) w'') sums held'),
          short',
        ),
      )

  -- The erased part is a number of whole sectors.
  erase_len_sectors :
      (image_len : Option ℕ)
      → (n : ℕ) × (erase_len flash image_len ≡ n * erase_size) × (n * erase_size ≤ capacity)
  unfolding erase_len
  erase_len_sectors none = (sectors, flash.whole_sectors, omega (arith, flash.whole_sectors))
  erase_len_sectors (some len) =
      let n = (min len capacity + (erase_size - 1)) / erase_size in
      elim (Bool-cases (leb (n * erase_size) capacity)) [
        | inl fits ↦ (n, omega tests, omega tests)
        | inr more ↦
            (sectors, ground (arith, flash.whole_sectors), omega (arith, flash.whole_sectors))
      ]

  new-Holds :
      (partition : Region) (image_len : Option ℕ)
      → Gives
          (new flash partition image_len)
          (λ w. Holds flash (erase_len flash image_len) 0 [] w × (w.trailing_len < 4))
  unfolding new
  new-Holds partition image_len =
      let (n, size, fits) = erase_len_sectors image_len in
      let (r, done, blank) = flash.erases partition n fits in
      let wide = flash.addressable in
      let asked : min (erase_len flash image_len) max_u32 ≡ n * erase_size = omega arith in
      rw (asked, done)
        (
          record {
            partition = r;
            offset = 0;
            trailing = blank_word;
            trailing_len = 0;
            total_bytes = 0;
          },
          refl,
          (
            record {
              aligned = omega arith;
              short = omega arith;
              width = refl;
              count = omega arith;
              counted = refl;
              stored = λ i lt. elim lt [ ];
              blank = λ i le lt. blank i (omega arith);
              pending = λ j. blank_pending j;
            },
            omega arith,
          ),
        )

  -- Whatever the chunks that an image arrives in, if the image, filled up to whole words, fits the
  -- erased part of the partition, then staging it succeeds, counts its bytes, and leaves the
  -- partition with the image at its start and ones from its end to the end of the erased part.
  pub stage_image-concat :
      (partition : Region) (image_len : Option ℕ) (chunks : List (List ℕ))
      → (length (concat chunks) + 3) / 4 * 4 ≤ erase_len flash image_len
      → (w : OtaPartitionWriter Region) × (stage_image flash partition image_len chunks ≡ ok w)
        × (w.total_bytes ≡ length (concat chunks))
        × ((i : ℕ)
            → i < erase_len flash image_len
            → byte_at w.partition i ≡ get_or (concat chunks) i 255)
  unfolding stage_image finish
  stage_image-concat partition image_len chunks padded =
      let end = erase_len flash image_len in
      let image = concat chunks in
      let (n, size, fits) = erase_len_sectors image_len in
      let wide = flash.addressable in
      let (w, made, (h, partial)) = new-Holds partition image_len in
      let (w', written, (h', partial')) =
        write_chunks-Holds end 0 [] chunks w (omega arith) h partial (omega arith) (omega arith) in
      let all = h'.count in
      let al = h'.aligned in
      let total : w'.total_bytes ≡ length image = omega (arith, h'.counted) in
      elim (Bool-cases (w'.trailing_len == 0)) [
        | inl done ↦ (
          w',
          >>=-ok (new flash partition image_len) _ made
              (>>=-ok (write_chunks flash w chunks) _ written (rw done)),
          total,
          λ i lt. elim (Bool-cases (ltb i w'.offset)) [
            | inl before ↦ h'.stored i (ground arith)
            | inr behind ↦
                h'.blank i (ground arith) lt ∙ sym (get_or-beyond image i 255 (ground arith))
          ],
        )
        | inr waiting ↦
            let (w'', flushed, (moved, left, word, same, stored, blank)) =
              flush_trailing-Gives flash end (0 + length image) image w' (omega arith) h'
                (ground arith) in
            (
              w'',
              >>=-ok (new flash partition image_len) _ made
                  (>>=-ok (write_chunks flash w chunks) _ written (rw waiting flushed)),
              omega (arith, same),
              λ i lt. elim (Bool-cases (ltb i (w'.offset + 4))) [
                | inl before ↦ stored i (ground arith)
                | inr behind ↦
                    blank i (ground arith) lt ∙ sym (get_or-beyond image i 255 (ground arith))
              ],
            )
      ]
