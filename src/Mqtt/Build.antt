-- ===== src/Mqtt/Build.antt =====
-- The packets that the builders give, and when they fit.
use esp_wave_rider.Base.{
  ℕ, zero, suc, ◌+◌, ◌/◌, ◌%◌, ◌≤◌, ◌<◌, ◌≡◌, ap, ◌∙◌, false, none, some, List, [], ◌∷◌, ◌++◌,
  length, leb, ltb, ◌==◌, if◌then◌else◌, ◌>>=◌, >>=_congr, arith, append_assoc, length-append,
  some-injective, sym, Bool-cases, inl, inr, tests,
}
use esp_wave_rider.Fixed.{FixedVec}
use esp_wave_rider.Mqtt.{encode_remaining, encode_mqtt_remaining_length, build_packet}

-- The length in seven-bit digits, the last one first, for up to two digits.
unfoldable pub length_bytes : ℕ → List ℕ
length_bytes n = if ltb n 128 then n ∷ [] else ((n % 128 + 128) ∷ n / 128 ∷ [])

-- A packet as it is sent.
abbrev pub frame : ℕ → List ℕ → List ℕ
frame header body = header ∷ (length_bytes (length body) ++ body)

module _ (vec : FixedVec) where
  pub extend-some :
      (cap : ℕ) (output bytes : List ℕ) {r : List ℕ}
      → vec.extend cap output bytes ≡ some r
      → (r ≡ output ++ bytes) × (length output + length bytes ≤ cap)
  extend-some cap output bytes {r} e = elim (Bool-cases (leb (length output + length bytes) cap)) [
    | inl fits ↦
        let e' = vec.fits cap output bytes (omega (tests, fits)) in
        (some-injective r (output ++ bytes) (sym e ∙ e'), omega (tests, fits))
    | inr over ↦ let e' = vec.overflows cap output bytes (ground arith) in absurd (cc)
  ]

  -- Bytes one after the other, or at once.
  pub extend-extend :
      (cap : ℕ) (output xs ys : List ℕ)
      → (vec.extend cap output xs >>= λ o. vec.extend cap o ys) ≡ vec.extend cap output (xs ++ ys)
  extend-extend cap output xs ys = elim (Bool-cases (leb (length output + length (xs ++ ys)) cap)) [
    | inl fits ↦
        let n = length-append xs ys in
        let m = length-append output xs in
        rw
          (
            vec.fits cap output xs (omega (tests, fits, n)),
            vec.fits cap (output ++ xs) ys (omega (tests, fits, n, m)),
            vec.fits cap output (xs ++ ys) (omega (tests, fits, n)),
          )
          (ap some (append_assoc output xs ys))
    | inr over ↦ rw (vec.overflows cap output (xs ++ ys) (ground arith)) (late over)
  ]
    where
      late :
          leb (length output + length (xs ++ ys)) cap ≡ false
          → (vec.extend cap output xs >>= λ o. vec.extend cap o ys) ≡ none
      late over = elim (Bool-cases (leb (length output + length xs) cap)) [
        | inl fits ↦ rw (vec.fits cap output xs (omega (tests, fits))) (
            vec.overflows cap (output ++ xs) ys
              (let n = length-append xs ys in let m = length-append output xs in ground arith))
        | inr not ↦ rw (vec.overflows cap output xs (ground arith))
      ]

  encode_one :
      (fuel cap : ℕ) (output : List ℕ) (n : ℕ)
      → n < 128
      → encode_remaining vec (suc fuel) cap output n ≡ vec.extend cap output (n ∷ [])
  unfolding encode_remaining
  encode_one fuel cap output n h =
      let last : n / 128 ≡ 0 = omega arith in
      let digit : n % 128 ≡ n = omega arith in rw (last, digit) (ground arith)

  encode_two :
      (fuel cap : ℕ) (output : List ℕ) (n : ℕ)
      → 128 ≤ n
      → n < 16384
      → encode_remaining vec (suc (suc fuel)) cap output n
        ≡ vec.extend cap output ((n % 128 + 128) ∷ n / 128 ∷ [])
  unfolding encode_remaining
  encode_two fuel cap output n h k =
      let more : (n / 128 == 0) ≡ false = ground arith in
      rw more (
        >>=_congr (vec.extend cap output ((n % 128 + 128) ∷ [])) _
          (λ o. vec.extend cap o (n / 128 ∷ []))
          (λ o. encode_one fuel cap o (n / 128) (omega arith))
        ∙ extend-extend cap output ((n % 128 + 128) ∷ []) (n / 128 ∷ []))

  encode-length_bytes :
      (cap : ℕ) (output : List ℕ) (n : ℕ)
      → n < 16384
      → encode_mqtt_remaining_length vec cap output n ≡ vec.extend cap output (length_bytes n)
  unfolding encode_mqtt_remaining_length length_bytes
  encode-length_bytes cap output zero h = encode_one zero cap output 0 (omega arith)
  encode-length_bytes cap output (suc m) h = elim (Bool-cases (ltb (suc m) 128)) [
    | inl one ↦ rw one (encode_one (suc m) cap output (suc m) (omega (tests, one)))
    | inr two ↦ rw two (encode_two m cap output (suc m) (ground arith) h)
  ]

  -- A packet is its frame if that fits, and nothing otherwise.
  pub build_packet-frame :
      (cap header : ℕ) (body : List ℕ)
      → length body < 16384
      → build_packet vec cap header body ≡ vec.extend cap [] (frame header body)
  unfolding build_packet
  build_packet-frame cap header body h =
      >>=_congr (vec.extend cap [] (header ∷ [])) _
        (λ o. vec.extend cap o (length_bytes (length body) ++ body))
        (λ o.
          ap (λ r. r >>= λ p. vec.extend cap p body) (encode-length_bytes cap o (length body) h)
          ∙ extend-extend cap o (length_bytes (length body)) body)
      ∙ extend-extend cap [] (header ∷ []) (length_bytes (length body) ++ body)
