-- ===== src/Ota/Steps.antt =====
-- The three steps of `write_chunk`: each takes a part of the chunk into the image.
use esp_wave_rider.Base.{
  ℕ, ◌+◌, ◌-◌, ◌%◌, ◌^◌, ◌≤◌, ◌<◌, ◌≡◌, refl, sym, ap, ◌∙◌, subst, ◌⊎◌, List, [], ◌∷◌, ◌++◌, length,
  take, drop, get_or, ltb, leb, min, arith, length-append, length-take, length-drop,
  take_append_drop, append-nil, Bool-cases, inl, inr,
}
use esp_wave_rider.Text.Results.{Gives}
use esp_wave_rider.Ota.{
  OtaPartitionWriter, overwrite, fill_trailing, write_aligned, keep_trailing, filled, max_u32,
}
use esp_wave_rider.Ota.Region.{FlashRegion}
use esp_wave_rider.Ota.Bytes.{get_or-append, get_or-beyond, drop_all}
use esp_wave_rider.Ota.Holds.{Holds, store_words, filled-Holds, flush_if_full-Holds}

module _ (flash : FlashRegion) where
  open flash use {Region, byte_at, capacity, erase_size, sectors, erase, write}

  -- Either the trailing bytes are all written, or the chunk is used up.
  abbrev pub Settled : OtaPartitionWriter Region → List ℕ → Type 0
  Settled w rest = (w.trailing_len ≡ 0) ⊎ (rest ≡ [])

  -- A part of the chunk has joined the image, and `rest` is left.
  pub record Consumed (end total : ℕ) (image chunk : List ℕ)
      (step : OtaPartitionWriter Region × List ℕ) : Type 0 where
    pub part : List ℕ
    pub parted : chunk ≡ part ++ step.1
    pub holds : Holds flash end total (image ++ part) step.0
    pub short : step.0.trailing_len < 4
    pub settled : Settled step.0 step.1

  pub fill_trailing-Consumed :
      (end total : ℕ) (image chunk : List ℕ) (w : OtaPartitionWriter Region)
      → end ≤ capacity
      → Holds flash end total image w
      → w.trailing_len < 4
      → length image + length chunk ≤ end
      → Gives (fill_trailing flash w chunk) (Consumed end total image chunk)
  unfolding fill_trailing
  fill_trailing-Consumed end total image chunk w fits h partial inside =
      elim (Bool-cases (ltb 0 w.trailing_len)) [
        | inr empty ↦ rw empty (
          (w, chunk),
          refl,
          record {
            part = [];
            parted = refl;
            holds = subst (λ l. Holds flash end total l w) (sym (append-nil image)) h;
            short = partial;
            settled = inl (ground arith);
          },
        )
        | inl some_left ↦
            let fill = min (4 - w.trailing_len) (length chunk) in
            let size : length (take fill chunk) ≡ fill = length-take fill chunk (omega arith) in
            let joined =
              filled-Holds flash end total image (take fill chunk) w h (omega (arith, size)) in
            let (w', done, (held, left)) =
              flush_if_full-Holds flash end total (image ++ take fill chunk)
                (filled flash w (take fill chunk)) fits joined
                (omega (arith, length-append image (take fill chunk), size)) in
            rw (some_left, done)
              (
                (w', drop fill chunk),
                refl,
                record {
                  part = take fill chunk;
                  parted = sym (take_append_drop fill chunk);
                  holds = held;
                  short = ground (arith, size);
                  settled = elim (Bool-cases (leb (4 - w.trailing_len) (length chunk))) [
                    | inl whole ↦ inl (ground (arith, size))
                    | inr used ↦ inr (drop_all fill chunk (ground arith))
                  ];
                },
              )
      ]

  pub write_aligned-Consumed :
      (end total : ℕ) (image chunk : List ℕ) (w : OtaPartitionWriter Region)
      → end ≤ capacity
      → Holds flash end total image w
      → w.trailing_len < 4
      → Settled w chunk
      → length image + length chunk ≤ end
      → Gives
          (write_aligned flash w chunk)
          (λ step. Consumed end total image chunk step × (length step.1 < 4))
  unfolding write_aligned
  write_aligned-Consumed end total image chunk w fits h partial settled inside =
      let words = length chunk - length chunk % 4 in
      let all = h.count in
      let al = h.aligned in
      elim (Bool-cases (ltb 0 words)) [
        | inr none_whole ↦ rw none_whole (
          (w, chunk),
          refl,
          (
            record {
              part = [];
              parted = refl;
              holds = subst (λ l. Holds flash end total l w) (sym (append-nil image)) h;
              short = partial;
              settled = settled;
            },
            ground arith,
          ),
        )
        | inl whole ↦
            let nothing_waits : w.trailing_len ≡ 0 = elim settled [
              | inl none_left ↦ none_left
              | inr used ↦ let e = ap length used in absurd (ground arith)
            ] in
            let size : length (take words chunk) ≡ words = length-take words chunk (omega arith) in
            let image' = image ++ take words chunk in
            let longer : length image' ≡ length image + words =
              omega (arith, length-append image (take words chunk), size) in
            let wide = flash.addressable in
            let (r', done, stored, blank) =
              store_words flash end image' (take words chunk) w.partition w.offset fits al
                (omega (arith, size)) (omega (arith, size))
                (λ i lt.
                  h.stored i lt
                  ∙ sym (ground (arith, get_or-append image (take words chunk) i 255)))
                h.blank
                (λ j lt. sym (
                  ground (
                    arith,
                    get_or-append image (take words chunk) (w.offset + j) 255,
                    ap (λ k. get_or (take words chunk) k 255) {x = w.offset + j - length image}
                        {y = j},
                  ))) in
            rw (whole, done)
              (
                (
                  record w { partition = r'; offset = min max_u32 (w.offset + words % 2 ^ 32) },
                  drop words chunk,
                ),
                refl,
                (
                  record {
                    part = take words chunk;
                    parted = sym (take_append_drop words chunk);
                    holds = record {
                      aligned = omega arith;
                      short = omega arith;
                      width = h.width;
                      count = omega (arith, longer);
                      counted = h.counted;
                      stored = λ i lt. stored i (omega (arith, size));
                      blank = λ i le lt. blank i (omega (arith, size)) lt;
                      pending = λ j.
                          h.pending j
                          ∙ get_or-beyond image (w.offset + j) 255 (omega arith)
                          ∙ sym (
                              get_or-beyond image' (min max_u32 (w.offset + words % 2 ^ 32) + j) 255
                                (omega (arith, longer)));
                    };
                    short = omega arith;
                    settled = inl nothing_waits;
                  },
                  omega (arith, length-drop words chunk),
                ),
              )
      ]

  pub keep_trailing-Holds :
      (end total : ℕ) (image chunk : List ℕ) (w : OtaPartitionWriter Region)
      → Holds flash end total image w
      → w.trailing_len < 4
      → Settled w chunk
      → length chunk < 4
      → Holds flash end total (image ++ chunk) (keep_trailing flash w chunk)
        × ((keep_trailing flash w chunk).trailing_len < 4)
  unfolding keep_trailing
  keep_trailing-Holds end total image [] w h partial settled few =
      (subst (λ l. Holds flash end total l w) (sym (append-nil image)) h, partial)
  keep_trailing-Holds end total image (c ∷ cs) w h partial (inr used) few = absurd (ground arith)
  keep_trailing-Holds end total image (c ∷ cs) w h partial (inl none_left) few =
      let joined = filled-Holds flash end total image (c ∷ cs) w h (omega arith) in
      let same : filled flash w (c ∷ cs) ≡ record w {
        trailing = overwrite w.trailing 0 (c ∷ cs);
        trailing_len = length (c ∷ cs);
      } =
        λ i. record w {
          trailing = overwrite w.trailing (none_left i) (c ∷ cs);
          trailing_len = count_path i;
        } in
      (subst (λ v. Holds flash end total (image ++ c ∷ cs) v) same joined, few)
    where
      count_path : w.trailing_len + length (c ∷ cs) ≡ length (c ∷ cs)
      count_path = omega arith
