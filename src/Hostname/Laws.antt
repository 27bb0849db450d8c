-- ===== src/Hostname/Laws.antt =====
-- What a sanitized host name is made of.
use esp_wave_rider.Base.{
  ℕ, zero, suc, ◌+◌, ◌≤◌, ◌≡◌, refl, ◌⊎◌, inr, Bool, false, [], ◌∷◌, ◌++◌, length, take, All,
  All-append, ◌==◌, if◌then◌else◌, arith,
}
use esp_wave_rider.Text.{
  Text, codes, is_empty, is_ascii_digit, is_ascii_lowercase, is_ascii_uppercase, to_ascii_lowercase,
}
use esp_wave_rider.Hostname.{
  push_character, push_characters, strip_leading, strip_trailing, sanitize_hostname,
}

-- A lower-case letter, a digit or a dash.
abbrev pub IsLabelCharacter : ℕ → Type 0
IsLabelCharacter c = ((b'a' ≤ c) × (c ≤ b'z')) ⊎ (((b'0' ≤ c) × (c ≤ b'9')) ⊎ (c ≡ b'-'))

abbrev pub starts_with_dash : Text → Bool
starts_with_dash [] = false
starts_with_dash (c ∷ s) = c == b'-'

pushed :
    (hostname : Text) (c : ℕ)
    → All IsLabelCharacter hostname
    → IsLabelCharacter c
    → All IsLabelCharacter (hostname ++ c ∷ [])
pushed hostname c hs h = All-append IsLabelCharacter hostname (c ∷ []) hs (h, tt)

push_character-All :
    (hostname : Text) (c : ℕ)
    → All IsLabelCharacter hostname
    → All IsLabelCharacter (push_character hostname c)
unfolding push_character is_ascii_lowercase is_ascii_digit is_ascii_uppercase to_ascii_lowercase
push_character-All hostname c hs = ground (
  arith,
  pushed hostname c hs,
  pushed hostname (c + 32) hs,
  pushed hostname b'-' hs (inr (inr refl)),
)

push_characters-All :
    (s hostname : Text)
    → All IsLabelCharacter hostname
    → All IsLabelCharacter (push_characters hostname s)
unfolding push_characters
push_characters-All [] hostname hs = hs
push_characters-All (c ∷ s) hostname hs =
    push_characters-All s (push_character hostname c) (push_character-All hostname c hs)

strip_leading-All : (s : Text) → All IsLabelCharacter s → All IsLabelCharacter (strip_leading s)
unfolding strip_leading
strip_leading-All [] hs = tt
strip_leading-All (c ∷ s) (h, hs) = ground (arith, strip_leading-All s hs)

strip_trailing-All : (s : Text) → All IsLabelCharacter s → All IsLabelCharacter (strip_trailing s)
unfolding strip_trailing
strip_trailing-All [] hs = tt
strip_trailing-All (c ∷ s) (h, hs) = ground (arith, strip_trailing-All s hs)

strip_leading-starts : (s : Text) → starts_with_dash (strip_leading s) ≡ false
unfolding strip_leading
strip_leading-starts [] = refl
strip_leading-starts (c ∷ s) = ground (arith, strip_leading-starts s)

strip_trailing-starts :
    (s : Text) → starts_with_dash s ≡ false → starts_with_dash (strip_trailing s) ≡ false
unfolding strip_trailing
strip_trailing-starts [] h = refl
strip_trailing-starts (c ∷ s) h = ground arith

take-All : (n : ℕ) (s : Text) → All IsLabelCharacter s → All IsLabelCharacter (take n s)
take-All zero s hs = tt
take-All (suc n) [] hs = tt
take-All (suc n) (c ∷ s) (h, hs) = (h, take-All n s hs)

length-take-le : (n : ℕ) (s : Text) → length (take n s) ≤ n
length-take-le zero s = omega arith
length-take-le (suc n) [] = omega arith
length-take-le (suc n) (c ∷ s) = let h = length-take-le n s in omega arith

-- What any host name is, whatever it was made from.
pub record IsHostname (s : Text) : Type 0 where
  pub characters : All IsLabelCharacter s
  pub starts : starts_with_dash s ≡ false
  pub not_empty : 1 ≤ length s
  pub fits : length s ≤ 31

cut-IsHostname :
    (s : Text)
    → All IsLabelCharacter s
    → starts_with_dash s ≡ false
    → IsHostname (take 31 (if is_empty s then codes "lb-mmwave" else s))
cut-IsHostname [] hs h = record {
  characters = ground arith;
  starts = refl;
  not_empty = omega arith;
  fits = omega arith;
}
cut-IsHostname (c ∷ s) (hc, hs) h = record {
  characters = (hc, take-All 30 s hs);
  starts = h;
  not_empty = omega arith;
  fits = length-take-le 31 (c ∷ s);
}

-- Any text gives a host name: 1 to 31 lower-case letters, digits and dashes, the first no dash.
pub sanitize_hostname-IsHostname : (value : Text) → IsHostname (sanitize_hostname value)
unfolding sanitize_hostname
sanitize_hostname-IsHostname value =
    let pushed_all = push_characters-All value [] tt in
    let stripped = strip_leading (push_characters [] value) in
    cut-IsHostname (strip_trailing stripped)
      (strip_trailing-All stripped (strip_leading-All (push_characters [] value) pushed_all))
      (strip_trailing-starts stripped (strip_leading-starts (push_characters [] value)))
