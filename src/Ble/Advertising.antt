-- ===== src/Ble/Advertising.antt =====
-- Advertising data: the structures of a payload, and the name that is read from them.
use esp_wave_rider.Base.{
  ℕ, zero, suc, ◌+◌, ◌≤◌, ◌≡◌, refl, ap, ◌∙◌, false, ◌&&◌, Option, none, some, List, [], ◌∷◌, ◌++◌,
  length, ltb, ◌==◌, if◌then◌else◌, arith, Option-cases, inl, inr, length-append,
  take-append_length, drop-append_length, append_assoc,
}
use esp_wave_rider.Text.{Text, is_some}
use esp_wave_rider.Text.Utf8.{from_utf8}
use esp_wave_rider.Ble.{
  ad_structures, iter_ad_structures, local_name_loop, text_or, extract_ble_local_name,
}

-- The bytes of one structure, and of several.
abbrev pub structure_bytes : ℕ × List ℕ → List ℕ
structure_bytes s = (length s.1 + 1) ∷ s.0 ∷ s.1

abbrev pub structures_bytes : List (ℕ × List ℕ) → List ℕ
structures_bytes [] = []
structures_bytes (s ∷ ss) = structure_bytes s ++ structures_bytes ss

-- Nothing more, or the zero length with which a payload is padded.
abbrev pub IsPadding : List ℕ → Type 0
IsPadding [] = Unit {0}
IsPadding (b ∷ rest) = b ≡ 0

ad_structures_padding : (fuel : ℕ) (rest : List ℕ) → IsPadding rest → ad_structures fuel rest ≡ []
unfolding ad_structures
ad_structures_padding zero rest h = refl
ad_structures_padding (suc fuel) [] h = refl
ad_structures_padding (suc fuel) (b ∷ rest) h = rw h

ad_structures-suc :
    (fuel kind : ℕ) (bytes rest : List ℕ)
    → ad_structures (suc fuel) (suc (length bytes) ∷ kind ∷ (bytes ++ rest))
      ≡ (kind, bytes) ∷ ad_structures fuel rest
unfolding ad_structures
ad_structures-suc fuel kind bytes rest =
    let fits : ltb (suc (length (bytes ++ rest))) (suc (length bytes)) ≡ false =
      ground (arith, length-append bytes rest) in
    rw (fits, take-append_length bytes rest, drop-append_length bytes rest) (ground arith)

ad_structures_step :
    (fuel kind : ℕ) (bytes rest : List ℕ)
    → ad_structures (suc fuel) ((length bytes + 1) ∷ kind ∷ (bytes ++ rest))
      ≡ (kind, bytes) ∷ ad_structures fuel rest
ad_structures_step fuel kind bytes rest =
    let n : length bytes + 1 ≡ suc (length bytes) = omega arith in
    rw n (ad_structures-suc fuel kind bytes rest)

ad_structures_bytes :
    (structures : List (ℕ × List ℕ)) (rest : List ℕ) (fuel : ℕ)
    → IsPadding rest
    → length (structures_bytes structures) ≤ fuel
    → ad_structures fuel (structures_bytes structures ++ rest) ≡ structures
ad_structures_bytes [] rest fuel h k = ad_structures_padding fuel rest h
ad_structures_bytes ((kind, bytes) ∷ ss) rest zero h k = absurd (omega arith)
ad_structures_bytes ((kind, bytes) ∷ ss) rest (suc fuel) h k =
    ap (λ l. ad_structures (suc fuel) ((length bytes + 1) ∷ kind ∷ l))
      (append_assoc bytes (structures_bytes ss) rest)
    ∙ ad_structures_step fuel kind bytes (structures_bytes ss ++ rest)
    ∙ ap (λ l. (kind, bytes) ∷ l)
        (ad_structures_bytes ss rest fuel h
          (omega (arith, length-append bytes (structures_bytes ss))))

-- A payload of structures, with or without zero padding, is read back structure by structure.
pub iter_ad_structures_bytes :
    (structures : List (ℕ × List ℕ)) (rest : List ℕ)
    → IsPadding rest
    → iter_ad_structures (structures_bytes structures ++ rest) ≡ structures
unfolding iter_ad_structures
iter_ad_structures_bytes structures rest h =
    ad_structures_bytes structures rest _ h
      (omega (arith, length-append (structures_bytes structures) rest))

-- The first structure of the kind whose data is valid UTF-8, as text.
abbrev pub first_name : ℕ → List (ℕ × List ℕ) → Option Text
first_name wanted [] = none
first_name wanted ((kind, bytes) ∷ structures) =
    if kind == wanted && is_some (from_utf8 bytes)
    then from_utf8 bytes
    else first_name wanted structures

abbrev or_else : Option Text → Option Text → Option Text
or_else none o = o
or_else (some s) o = some s

local_name_loop_lem :
    (structures : List (ℕ × List ℕ)) (shortened : Option Text)
    → local_name_loop structures shortened
      ≡ text_or
          (text_or [] (or_else shortened (first_name 0x08 structures)))
          (first_name 0x09 structures)
unfolding local_name_loop
local_name_loop_lem [] none = refl
local_name_loop_lem [] (some s) = refl
local_name_loop_lem ((kind, bytes) ∷ ss) none = elim (Option-cases (from_utf8 bytes)) [
  | inl invalid ↦ simp invalid (ground (arith, local_name_loop_lem ss none))
  | inr (name, valid) ↦
      simp valid (ground (arith, local_name_loop_lem ss none, local_name_loop_lem ss (some name)))
]
local_name_loop_lem ((kind, bytes) ∷ ss) (some s) = elim (Option-cases (from_utf8 bytes)) [
  | inl invalid ↦ simp invalid (ground (arith, local_name_loop_lem ss (some s)))
  | inr (name, valid) ↦ simp valid (ground (arith, local_name_loop_lem ss (some s)))
]

-- The name is the first complete one of the scan response and then of the advertisement; failing
-- that the first shortened one, in the same order; failing that empty.
pub extract_ble_local_name_lem :
    (adv scan : List ℕ)
    → extract_ble_local_name adv scan
      ≡ text_or
          (text_or [] (first_name 0x08 (iter_ad_structures scan ++ iter_ad_structures adv)))
          (first_name 0x09 (iter_ad_structures scan ++ iter_ad_structures adv))
unfolding extract_ble_local_name
extract_ble_local_name_lem adv scan =
    local_name_loop_lem (iter_ad_structures scan ++ iter_ad_structures adv) none
