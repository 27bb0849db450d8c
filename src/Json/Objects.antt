-- ===== src/Json/Objects.antt =====
-- Reading the fields of a flat JSON object that rust/firmware/esp32s3/src/main.rs has written.
use esp_wave_rider.Base.{
  ℕ, suc, ◌-◌, ◌≡◌, refl, ap, subst, true, false, ◌||◌, some, List, [], ◌∷◌, ◌++◌, All,
  append_assoc, ◌==◌, arith, Bool-cases, inl, inr, take-append_length, some-injective, ◌^◌, ◌<◌,
}
use esp_wave_rider.Base.Int.{ℤ, pos, negsuc, neg, ◌≤ℤ◌}
use esp_wave_rider.Text.{Text, strip_prefix, text_eq, trim, trim_start, trim_end, is_whitespace}
use esp_wave_rider.Text.Laws.{text_eq→eq}
use esp_wave_rider.Json.{
  json_field_string, json_field_number, json_field_i32, json_field_u32, until_separator, append_u32,
  append_i32, fill_digits,
}
use esp_wave_rider.Json.Decimal.{fill_digits-All, parse_u32-append_u32, parse_i32-append_i32}
use esp_wave_rider.Json.Fields.{IsPlain, find?-plain, text_part, number_part}
use esp_wave_rider.Json.Search.{
  is_key, IsNumeral, IsPart, Part, text, number, joined, text_of, number_of, quoted, Found,
  Found-here, Found-skip, Found-behind,
}

here_text :
    (key value rest : Text)
    → Found (text_part key value rest) (quoted key (0x22 ∷ [])) (value ++ 0x22 ∷ rest)
here_text key value rest =
    subst (λ t. Found (0x22 ∷ t) (quoted key (0x22 ∷ [])) (value ++ 0x22 ∷ rest))
      (append_assoc key (0x22 ∷ 0x3a ∷ 0x22 ∷ []) (value ++ 0x22 ∷ rest))
      (Found-here 0x22 (key ++ (0x22 ∷ 0x3a ∷ 0x22 ∷ [])) (value ++ 0x22 ∷ rest))

here_number :
    (key digits rest : Text) → Found (number_part key digits rest) (quoted key []) (digits ++ rest)
here_number key digits rest =
    subst (λ t. Found (0x22 ∷ t) (quoted key []) (digits ++ rest))
      (append_assoc key (0x22 ∷ 0x3a ∷ []) (digits ++ rest))
      (Found-here 0x22 (key ++ (0x22 ∷ 0x3a ∷ [])) (digits ++ rest))

-- The text behind the first text under the key.
abbrev TextAt : List Part → Text → Text → Type 0
TextAt parts key value =
    (rest : Text) × Found (joined parts) (quoted key (0x22 ∷ [])) (value ++ 0x22 ∷ rest)

-- A number ends at a comma or at the brace.
abbrev NumberAt : List Part → Text → Text → Type 0
NumberAt parts key digits =
    (c : ℕ) × (rest : Text) × ((c == b',' || c == b'}') ≡ true)
    × Found (joined parts) (quoted key []) (digits ++ c ∷ rest)

text_hit :
    (k v key w T : Text)
    → text_eq k key ≡ true
    → v ≡ w
    → (rest : Text) × Found (text_part k v T) (quoted key (0x22 ∷ [])) (w ++ 0x22 ∷ rest)
text_hit k v key w T hit same = (
  T,
  subst (λ l. Found (text_part k v T) (quoted l (0x22 ∷ [])) (w ++ 0x22 ∷ T)) (text_eq→eq k key hit)
      (subst (λ x. Found (text_part k v T) (quoted k (0x22 ∷ [])) (x ++ 0x22 ∷ T)) same
        (here_text k v T)),
)

number_hit :
    (k d key w T : Text)
    → text_eq k key ≡ true
    → d ≡ w
    → Found (number_part k d T) (quoted key []) (w ++ T)
number_hit k d key w T hit same =
    subst (λ l. Found (number_part k d T) (quoted l []) (w ++ T)) (text_eq→eq k key hit)
      (subst (λ x. Found (number_part k d T) (quoted k []) (x ++ T)) same (here_number k d T))

text_of-TextAt :
    (parts : List Part) (key value : Text)
    → All IsPart parts
    → is_key key ≡ true
    → text_of parts key ≡ some value
    → TextAt parts key value
text_of-TextAt [] key value h hk e = absurd (ground arith)
text_of-TextAt (text k v ∷ []) key value h hk e = elim (Bool-cases (text_eq k key)) [
  | inl hit ↦ text_hit k v key value (0x7d ∷ []) hit (some-injective v value (rw hit at e))
  | inr miss ↦ absurd (ground arith)
]
text_of-TextAt (number k d ∷ []) key value h hk e = elim (Bool-cases (text_eq k key)) [
  | inl hit ↦ absurd (ground arith)
  | inr miss ↦ absurd (ground arith)
]
text_of-TextAt (text k v ∷ next ∷ parts) key value h hk e = elim (Bool-cases (text_eq k key)) [
  | inl hit ↦
      text_hit k v key value (0x2c ∷ joined (next ∷ parts)) hit
        (some-injective v value (rw hit at e))
  | inr miss ↦
      let (rest, found) = text_of-TextAt (next ∷ parts) key value h.1 hk (rw miss at e) in
      (rest, Found-behind (text k v) next parts key (0x22 ∷ []) _ h.0 hk miss found)
]
text_of-TextAt (number k d ∷ next ∷ parts) key value h hk e = elim (Bool-cases (text_eq k key)) [
  | inl hit ↦ absurd (ground arith)
  | inr miss ↦
      let (rest, found) = text_of-TextAt (next ∷ parts) key value h.1 hk (rw miss at e) in
      (rest, Found-behind (number k d) next parts key (0x22 ∷ []) _ h.0 hk miss found)
]

number_of-NumberAt :
    (parts : List Part) (key digits : Text)
    → All IsPart parts
    → is_key key ≡ true
    → number_of parts key ≡ some digits
    → NumberAt parts key digits
number_of-NumberAt [] key digits h hk e = absurd (ground arith)
number_of-NumberAt (number k d ∷ []) key digits h hk e = elim (Bool-cases (text_eq k key)) [
  | inl hit ↦ (
    0x7d,
    [],
    refl,
    number_hit k d key digits (0x7d ∷ []) hit (some-injective d digits (rw hit at e)),
  )
  | inr miss ↦ absurd (ground arith)
]
number_of-NumberAt (text k v ∷ []) key digits h hk e = elim (Bool-cases (text_eq k key)) [
  | inl hit ↦ absurd (ground arith)
  | inr miss ↦ absurd (ground arith)
]
number_of-NumberAt (number k d ∷ next ∷ parts) key digits h hk e =
    elim (Bool-cases (text_eq k key)) [
      | inl hit ↦ (
        0x2c,
        joined (next ∷ parts),
        refl,
        number_hit k d key digits (0x2c ∷ joined (next ∷ parts)) hit
            (some-injective d digits (rw hit at e)),
      )
      | inr miss ↦
          let (c, rest, ends, found) =
            number_of-NumberAt (next ∷ parts) key digits h.1 hk (rw miss at e) in
          (c, rest, ends, Found-behind (number k d) next parts key [] _ h.0 hk miss found)
    ]
number_of-NumberAt (text k v ∷ next ∷ parts) key digits h hk e = elim (Bool-cases (text_eq k key)) [
  | inl hit ↦ absurd (ground arith)
  | inr miss ↦
      let (c, rest, ends, found) =
        number_of-NumberAt (next ∷ parts) key digits h.1 hk (rw miss at e) in
      (c, rest, ends, Found-behind (text k v) next parts key [] _ h.0 hk miss found)
]

-- An object, and a text in it.
pub json_field_string-text_of :
    (parts : List Part) (key value : Text)
    → All IsPart parts
    → is_key key ≡ true
    → All IsPlain value
    → text_of parts key ≡ some value
    → json_field_string (0x7b ∷ joined parts) key ≡ some value
unfolding json_field_string
json_field_string-text_of parts key value h hk plain e =
    let (rest, inside) = text_of-TextAt parts key value h hk e in
    let f =
      Found-skip 0x7b (joined parts) (quoted key (0x22 ∷ [])) (value ++ 0x22 ∷ rest)
        (unfold strip_prefix in refl) inside in
    let found = f.found in
    let behind = f.rest in
    rw (found, behind, find?-plain value rest plain)
      (ap some (take-append_length value (0x22 ∷ rest)))

until_separator-numeral :
    (d rest : Text) (c : ℕ)
    → All IsNumeral d
    → (c == b',' || c == b'}') ≡ true
    → until_separator (d ++ c ∷ rest) ≡ d
unfolding until_separator
until_separator-numeral [] rest c h ends = rw ends refl
until_separator-numeral (x ∷ d) rest c h ends =
    let numeral = h.0 in
    let on : (x == b',' || x == b'}') ≡ false = ground arith in
    rw on (ap (λ l. x ∷ l) (until_separator-numeral d rest c h.1 ends))

numeral_no_space : (c : ℕ) → IsNumeral c → is_whitespace c ≡ false
unfolding is_whitespace
numeral_no_space c h = ground arith

trim_end-numeral : (d : Text) → All IsNumeral d → trim_end d ≡ d
unfolding trim_end
trim_end-numeral [] h = refl
trim_end-numeral (x ∷ d) h = ground (arith, numeral_no_space x h.0, trim_end-numeral d h.1)

trim-numeral : (d : Text) → All IsNumeral d → trim d ≡ d
unfolding trim trim_start
trim-numeral [] h = trim_end-numeral [] h
trim-numeral (x ∷ d) h = rw (numeral_no_space x h.0) (trim_end-numeral (x ∷ d) h)

json_field_number-number_of :
    (parts : List Part) (key digits : Text)
    → All IsPart parts
    → is_key key ≡ true
    → All IsNumeral digits
    → number_of parts key ≡ some digits
    → json_field_number (0x7b ∷ joined parts) key ≡ some digits
unfolding json_field_number
json_field_number-number_of parts key digits h hk numeral e =
    let (c, rest, ends, inside) = number_of-NumberAt parts key digits h hk e in
    let f =
      Found-skip 0x7b (joined parts) (quoted key []) (digits ++ c ∷ rest)
        (unfold strip_prefix in refl) inside in
    let found = f.found in
    let behind = f.rest in
    rw
      (
        found,
        behind,
        until_separator-numeral digits rest c numeral ends,
        trim-numeral digits numeral,
      )
      refl

fill_digits-IsNumeral : (n : ℕ) → All IsNumeral (fill_digits 10 n [])
fill_digits-IsNumeral n =
    fill_digits-All IsNumeral (λ d small. inl (omega arith, omega arith)) 10 n [] tt

pub append_u32-IsNumeral : (n : ℕ) → All IsNumeral (append_u32 [] n)
unfolding append_u32
append_u32-IsNumeral n = fill_digits-IsNumeral n

pub append_i32-IsNumeral : (v : ℤ) → All IsNumeral (append_i32 [] v)
unfolding append_i32 append_u32
append_i32-IsNumeral (pos n) = fill_digits-IsNumeral n
append_i32-IsNumeral (negsuc n) = (inr refl, fill_digits-IsNumeral (suc n))

-- An object, and a number in it.
pub json_field_u32-number_of :
    (parts : List Part) (key : Text) (n : ℕ)
    → All IsPart parts
    → is_key key ≡ true
    → n < 2 ^ 32
    → number_of parts key ≡ some (append_u32 [] n)
    → json_field_u32 (0x7b ∷ joined parts) key ≡ some n
unfolding json_field_u32
json_field_u32-number_of parts key n h hk fits e =
    rw (json_field_number-number_of parts key (append_u32 [] n) h hk (append_u32-IsNumeral n) e)
      (parse_u32-append_u32 n fits)

pub json_field_i32-number_of :
    (parts : List Part) (key : Text) (v : ℤ)
    → All IsPart parts
    → is_key key ≡ true
    → neg (2 ^ 31) ≤ℤ v
    → v ≤ℤ pos (2 ^ 31 - 1)
    → number_of parts key ≡ some (append_i32 [] v)
    → json_field_i32 (0x7b ∷ joined parts) key ≡ some v
unfolding json_field_i32
json_field_i32-number_of parts key v h hk above below e =
    rw (json_field_number-number_of parts key (append_i32 [] v) h hk (append_i32-IsNumeral v) e)
      (parse_i32-append_i32 v above below)
