-- ===== src/Text/Cut.antt =====
-- Text that is cut inside a character is no UTF-8.
use esp_wave_rider.Base.{
  ℕ, zero, suc, ◌≤◌, ◌<◌, ◌≡◌, refl, ap, ◌∙◌, none, some, List, [], ◌∷◌, ◌++◌, length, All, arith,
  append_assoc, Bool-cases, inl, inr,
}
use esp_wave_rider.Text.{Text, find?, starts_with, strip_prefix, is_some}
use esp_wave_rider.Base.{true}
use esp_wave_rider.Text.Utf8.{
  IsChar, encode_char, as_bytes, decode_two, decode_three, decode_four, decode_char, decode_fuel,
  from_utf8, decode_char-encode_char,
}

lead_alone : (a : ℕ) → 0xc2 ≤ a → a < 0xf5 → decode_char a [] ≡ none
unfolding decode_char decode_two decode_three decode_four
lead_alone a h k = ground arith

decode_fuel_lead : (fuel a : ℕ) → 0xc2 ≤ a → a < 0xf5 → decode_fuel fuel (a ∷ []) ≡ none
unfolding decode_fuel
decode_fuel_lead zero a h k = refl
decode_fuel_lead (suc fuel) a h k = ground (arith, lead_alone a h k)

decode_fuel_fails :
    (fuel a c : ℕ) (t r : List ℕ)
    → decode_char a t ≡ some (c, r)
    → decode_fuel fuel r ≡ none
    → decode_fuel (suc fuel) (a ∷ t) ≡ none
unfolding decode_fuel
decode_fuel_fails fuel a c t r e k = ground arith

decode_fuel-zero : (a : ℕ) (t : List ℕ) → decode_fuel zero (a ∷ t) ≡ none
unfolding decode_fuel
decode_fuel-zero a t = refl

decode_fuel_cut :
    (s : Text) (fuel a : ℕ)
    → All IsChar s
    → 0xc2 ≤ a
    → a < 0xf5
    → decode_fuel fuel (as_bytes s ++ a ∷ []) ≡ none
unfolding as_bytes
decode_fuel_cut [] fuel a chars h k = decode_fuel_lead fuel a h k
decode_fuel_cut (c ∷ s) zero a (hc, hs) h k =
    let (b, t, e, d) = decode_char-encode_char c (as_bytes s ++ a ∷ []) hc in
    ap (decode_fuel zero) (append_assoc (encode_char c) (as_bytes s) (a ∷ []) ∙ e)
    ∙ decode_fuel-zero b t
decode_fuel_cut (c ∷ s) (suc fuel) a (hc, hs) h k =
    let (b, t, e, d) = decode_char-encode_char c (as_bytes s ++ a ∷ []) hc in
    ap (decode_fuel (suc fuel)) (append_assoc (encode_char c) (as_bytes s) (a ∷ []) ∙ e)
    ∙ decode_fuel_fails fuel b c t (as_bytes s ++ a ∷ []) d (decode_fuel_cut s fuel a hs h k)

-- Whole characters, and then the first byte alone of one that takes more.
pub from_utf8_cut :
    (s : Text) (a : ℕ)
    → All IsChar s
    → 0xc2 ≤ a
    → a < 0xf5
    → from_utf8 (as_bytes s ++ a ∷ []) ≡ none
unfolding from_utf8
from_utf8_cut s a chars h k = decode_fuel_cut s (length (as_bytes s ++ a ∷ [])) a chars h k

strip_prefix-append_some :
    (s p r : Text) → is_some (strip_prefix s p) ≡ true → is_some (strip_prefix (s ++ r) p) ≡ true
unfolding strip_prefix
strip_prefix-append_some [] [] [] h = refl
strip_prefix-append_some [] [] (d ∷ r) h = refl
strip_prefix-append_some (c ∷ s) [] r h = refl
strip_prefix-append_some [] (d ∷ p) r h = absurd (ground arith)
strip_prefix-append_some (c ∷ s) (d ∷ p) r h = ground (arith, strip_prefix-append_some s p r)

-- A pattern that is found is found, perhaps earlier, in any longer text.
pub find?-append_some :
    (s p r : Text) → is_some (find? s p) ≡ true → is_some (find? (s ++ r) p) ≡ true
unfolding find? starts_with
find?-append_some [] p [] h = h
find?-append_some [] p (d ∷ r) h = elim (Bool-cases (is_some (strip_prefix [] p))) [
  | inl at_start ↦ rw (strip_prefix-append_some [] p (d ∷ r) at_start) refl
  | inr missing ↦ absurd (ground arith)
]
find?-append_some (c ∷ s) p r h = elim (Bool-cases (is_some (strip_prefix (c ∷ s) p))) [
  | inl at_start ↦ rw (strip_prefix-append_some (c ∷ s) p r at_start) refl
  | inr later ↦ ground (arith, find?-append_some s p r)
]
