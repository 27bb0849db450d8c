-- ===== src/Text/Utf8.antt =====
-- UTF-8: `str::as_bytes` and `core::str::from_utf8`.
use esp_wave_rider.Base.{
  ℕ, zero, suc, ◌+◌, ◌-◌, ◌*◌, ◌/◌, ◌%◌, ◌≤◌, ◌<◌, ◌≡◌, refl, Bool, true, ◌&&◌, ◌||◌, Option, none,
  some, List, [], ◌∷◌, ◌++◌, length, All, arith, ltb, leb, if◌then◌else◌, Bool-cases, inl, inr,
  length-append,
}
use esp_wave_rider.Text.{Text, codes}

-- A Unicode scalar value, which is what a `char` holds.
abbrev pub is_scalar : ℕ → Bool
is_scalar c = ltb c 0xd800 || (leb 0xe000 c && ltb c 0x110000)

abbrev pub IsChar : ℕ → Type 0
IsChar c = is_scalar c ≡ true

unfoldable pub encode_char : ℕ → List ℕ
encode_char c =
    if ltb c 0x80
    then c ∷ []
    else if ltb c 0x800
    then (0xc0 + c / 64) ∷ (0x80 + c % 64) ∷ []
    else if ltb c 0x10000
    then (0xe0 + c / 4096) ∷ (0x80 + c / 64 % 64) ∷ (0x80 + c % 64) ∷ []
    else (0xf0 + c / 262144) ∷ (0x80 + c / 4096 % 64) ∷ (0x80 + c / 64 % 64) ∷ (0x80 + c % 64) ∷ []

-- `text.as_bytes()`
unfoldable pub as_bytes : Text → List ℕ
unfolding encode_char
as_bytes [] = []
as_bytes (c ∷ s) = encode_char c ++ as_bytes s

abbrev pub is_continuation : ℕ → Bool
is_continuation b = leb 0x80 b && ltb b 0xc0

-- The bytes behind the head of a character of two, three or four bytes.
unfoldable pub decode_two : ℕ → List ℕ → Option (ℕ × List ℕ)
decode_two a (b ∷ r) = if is_continuation b then some ((a - 0xc0) * 64 + (b - 0x80), r) else none
decode_two a r = none

unfoldable pub decode_three : ℕ → List ℕ → Option (ℕ × List ℕ)
decode_three a (b ∷ c ∷ r) =
    let v = (a - 0xe0) * 4096 + (b - 0x80) * 64 + (c - 0x80) in
    if is_continuation b && is_continuation c && leb 0x800 v && is_scalar v
    then some (v, r)
    else none
decode_three a r = none

unfoldable pub decode_four : ℕ → List ℕ → Option (ℕ × List ℕ)
decode_four a (b ∷ c ∷ d ∷ r) =
    let v = (a - 0xf0) * 262144 + (b - 0x80) * 4096 + (c - 0x80) * 64 + (d - 0x80) in
    if is_continuation b && is_continuation c && is_continuation d && leb 0x10000 v && is_scalar v
    then some (v, r)
    else none
decode_four a r = none

-- One character, and the bytes behind it. Overlong forms and surrogates are refused.
unfoldable pub decode_char : ℕ → List ℕ → Option (ℕ × List ℕ)
unfolding decode_two decode_three decode_four
decode_char a r =
    if ltb a 0x80
    then some (a, r)
    else if ltb a 0xc2
    then none
    else if ltb a 0xe0
    then decode_two a r
    else if ltb a 0xf0
    then decode_three a r
    else if ltb a 0xf5
    then decode_four a r
    else none

-- The fuel bounds the number of characters.
unfoldable pub decode_fuel : ℕ → List ℕ → Option Text
unfolding decode_char
decode_fuel fuel [] = some []
decode_fuel zero (a ∷ r) = none
decode_fuel (suc fuel) (a ∷ r) = elim (decode_char a r) [
  | none ↦ none
  | some (c, r') ↦ elim (decode_fuel fuel r') [ none ↦ none | some s ↦ some (c ∷ s) ]
]

-- `core::str::from_utf8(bytes).ok()`: each character takes a byte at least.
unfoldable pub from_utf8 : List ℕ → Option Text
unfolding decode_fuel
from_utf8 bytes = decode_fuel (length bytes) bytes

-- The four lengths of an encoded character, each read back whole.
decode_one-byte : (c : ℕ) (r : List ℕ) → c < 0x80 → decode_char c r ≡ some (c, r)
unfolding decode_char
decode_one-byte c r h = ground arith

decode_two_bytes :
    (c : ℕ) (r : List ℕ)
    → 0x80 ≤ c
    → c < 0x800
    → decode_char (0xc0 + c / 64) ((0x80 + c % 64) ∷ r) ≡ some (c, r)
unfolding decode_char
decode_two_bytes c r h k = ground arith

decode_three_bytes :
    (c : ℕ) (r : List ℕ)
    → IsChar c
    → 0x800 ≤ c
    → c < 0x10000
    → decode_char (0xe0 + c / 4096) ((0x80 + c / 64 % 64) ∷ (0x80 + c % 64) ∷ r) ≡ some (c, r)
unfolding decode_char
decode_three_bytes c r ch h k = ground arith

decode_four_bytes :
    (c : ℕ) (r : List ℕ)
    → IsChar c
    → 0x10000 ≤ c
    → decode_char
        (0xf0 + c / 262144)
        ((0x80 + c / 4096 % 64) ∷ (0x80 + c / 64 % 64) ∷ (0x80 + c % 64) ∷ r)
      ≡ some (c, r)
unfolding decode_char
decode_four_bytes c r ch h = ground arith

-- The encoding of a character is not empty, and reading it back gives the character.
pub decode_char-encode_char :
    (c : ℕ) (r : List ℕ)
    → IsChar c
    → (a : ℕ) × (t : List ℕ) × (encode_char c ++ r ≡ a ∷ t) × (decode_char a t ≡ some (c, r))
unfolding encode_char
decode_char-encode_char c r h = elim (Bool-cases (ltb c 0x80)) [
  | inl one ↦ (c, r, rw one, decode_one-byte c r (ground arith))
  | inr more ↦ elim (Bool-cases (ltb c 0x800)) [
    | inl two ↦ (
      0xc0 + c / 64,
      (0x80 + c % 64) ∷ r,
      rw (more, two),
      decode_two_bytes c r (ground arith) (ground arith),
    )
    | inr more' ↦ elim (Bool-cases (ltb c 0x10000)) [
      | inl three ↦ (
        0xe0 + c / 4096,
        (0x80 + c / 64 % 64) ∷ (0x80 + c % 64) ∷ r,
        rw (more, more', three),
        decode_three_bytes c r h (ground arith) (ground arith),
      )
      | inr four ↦ (
        0xf0 + c / 262144,
        (0x80 + c / 4096 % 64) ∷ (0x80 + c / 64 % 64) ∷ (0x80 + c % 64) ∷ r,
        rw (more, more', four),
        decode_four_bytes c r h (ground arith),
      )
    ]
  ]
]

decode_fuel_step :
    (fuel a c : ℕ) (t r : List ℕ) (s : Text)
    → decode_char a t ≡ some (c, r)
    → decode_fuel fuel r ≡ some s
    → decode_fuel (suc fuel) (a ∷ t) ≡ some (c ∷ s)
unfolding decode_fuel
decode_fuel_step fuel a c t r s e k = ground arith

pub length-encode_char : (c : ℕ) → 1 ≤ length (encode_char c)
unfolding encode_char
length-encode_char c = ground arith

decode_fuel-as_bytes :
    (s : Text) (fuel : ℕ)
    → All IsChar s
    → length (as_bytes s) ≤ fuel
    → decode_fuel fuel (as_bytes s) ≡ some s
unfolding as_bytes
decode_fuel-as_bytes [] fuel h k = unfold decode_fuel in refl
decode_fuel-as_bytes (c ∷ s) zero h k =
    absurd (omega (arith, length-encode_char c, length-append (encode_char c) (as_bytes s)))
decode_fuel-as_bytes (c ∷ s) (suc fuel) (hc, hs) k =
    let (a, t, e, d) = decode_char-encode_char c (as_bytes s) hc in
    rw e (
      decode_fuel_step fuel a c t (as_bytes s) s d (
        decode_fuel-as_bytes s fuel hs
          (omega (arith, length-encode_char c, length-append (encode_char c) (as_bytes s)))))

-- Every text is read back from its bytes.
pub from_utf8-as_bytes : (s : Text) → All IsChar s → from_utf8 (as_bytes s) ≡ some s
unfolding from_utf8
from_utf8-as_bytes s h = decode_fuel-as_bytes s (length (as_bytes s)) h (omega arith)

accents : from_utf8 (as_bytes (codes "Wärme €𝄞")) ≡ some (codes "Wärme €𝄞")
unfolding from_utf8 as_bytes
accents = refl
