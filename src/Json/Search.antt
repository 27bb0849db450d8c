-- ===== src/Json/Search.antt =====
-- A flat JSON object, as the firmware writes it, and how rust/firmware/esp32s3/src/main.rs finds its
-- fields again: by the first occurrence of the quoted key.
use esp_wave_rider.Base.{
  ℕ, suc, ◌+◌, ◌≤◌, ◌≡◌, ◌≢◌, refl, ap, ◌∙◌, Bool, true, false, not, ◌&&◌, ◌||◌, Option, none, some,
  List, [], ◌∷◌, ◌++◌, length, drop, All, All-map, ◌==◌, if◌then◌else◌, arith, Bool-cases, inl, inr,
  ◌⊎◌, drop-append_length,
}
use esp_wave_rider.Text.{Text, find?, starts_with, strip_prefix, text_eq}
use esp_wave_rider.Text.Laws.{strip_prefix-append}
use esp_wave_rider.Json.Fields.{IsPlain, IsPlain-ne_quote, text_part, number_part}

-- A key has no quote, colon or comma.
abbrev IsKey : ℕ → Type 0
IsKey c = (c ≢ 0x22) × (c ≢ 0x3a) × (c ≢ 0x2c)

abbrev pub is_key : Text → Bool
is_key [] = true
is_key (c ∷ key) = not (c == 0x22 || c == 0x3a || c == 0x2c) && is_key key

is_key-IsKey : (key : Text) → is_key key ≡ true → All IsKey key
is_key-IsKey [] h = tt
is_key-IsKey (c ∷ key) h =
    ((λ e. ground arith, λ e. ground arith, λ e. ground arith), is_key-IsKey key (ground arith))

-- A decimal number has digits and a sign.
abbrev pub IsNumeral : ℕ → Type 0
IsNumeral c = ((b'0' ≤ c) × (c ≤ b'9')) ⊎ (c ≡ b'-')

abbrev IsUnquoted : ℕ → Type 0
IsUnquoted c = c ≢ 0x22

-- The text behind the first occurrence.
pub record Found (s p r : Text) : Type 0 where
  pub at : ℕ
  pub found : find? s p ≡ some at
  pub rest : drop (at + length p) s ≡ r

pub Found-here : (c : ℕ) (p r : Text) → Found (c ∷ (p ++ r)) (c ∷ p) r
unfolding find? starts_with strip_prefix
Found-here c p r = record {
  at = 0;
  found = let hit = strip_prefix-append p r in ground arith;
  rest =
      ap (λ n. drop n (c ∷ (p ++ r))) {x = 0 + suc (length p)} {y = suc (length p)} (omega arith)
      ∙ drop-append_length p r;
}

pub Found-skip :
    (c : ℕ) (s p r : Text) → strip_prefix (c ∷ s) p ≡ none → Found s p r → Found (c ∷ s) p r
unfolding find? starts_with
Found-skip c s p r miss h = record {
  at = suc h.at;
  found = let found = h.found in rw (miss, found) refl;
  rest =
      ap (λ n. drop n (c ∷ s)) {x = suc h.at + length p} {y = suc (h.at + length p)} (omega arith)
      ∙ h.rest;
}

Found-unquoted :
    (a s p r : Text) → All IsUnquoted a → Found s (0x22 ∷ p) r → Found (a ++ s) (0x22 ∷ p) r
unfolding strip_prefix
Found-unquoted [] s p r h found = found
Found-unquoted (c ∷ a) s p r h found =
    Found-skip c (a ++ s) (0x22 ∷ p) r (let ne = h.0 in ground arith)
      (Found-unquoted a s p r h.1 found)

-- Two keys, both up to the quotes behind them.
keys_differ :
    (k l s t : Text)
    → All IsKey k
    → All IsKey l
    → text_eq k l ≡ false
    → strip_prefix (k ++ 0x22 ∷ s) (l ++ 0x22 ∷ t) ≡ none
unfolding strip_prefix text_eq
keys_differ [] [] s t hk hl ne = absurd (ground arith)
keys_differ [] (d ∷ l) s t hk hl ne = let q = hl.0.0 in ground arith
keys_differ (c ∷ k) [] s t hk hl ne = let q = hk.0.0 in ground arith
keys_differ (c ∷ k) (d ∷ l) s t hk hl ne = elim (Bool-cases (c == d)) [
  | inl same ↦ ground (arith, keys_differ k l s t hk.1 hl.1)
  | inr differs ↦ ground arith
]

-- A value is followed by a comma, a key by a colon.
value_is_no_key :
    (v l s t : Text)
    → All IsUnquoted v
    → All IsKey l
    → strip_prefix (v ++ 0x22 ∷ 0x2c ∷ s) (l ++ 0x22 ∷ 0x3a ∷ t) ≡ none
unfolding strip_prefix
value_is_no_key [] [] s t hv hl = refl
value_is_no_key [] (d ∷ l) s t hv hl = let q = hl.0.0 in ground arith
value_is_no_key (c ∷ v) [] s t hv hl = let q = hv.0 in ground arith
value_is_no_key (c ∷ v) (d ∷ l) s t hv hl = ground (arith, value_is_no_key v l s t hv.1 hl.1)

no_key_at :
    (c : ℕ) (l s t : Text)
    → c ≢ 0x22
    → All (λ d. d ≢ c) l
    → strip_prefix (c ∷ s) (l ++ 0x22 ∷ t) ≡ none
unfolding strip_prefix
no_key_at c [] s t other h = ground arith
no_key_at c (d ∷ l) s t other h = let ne = h.0 in ground arith

-- The quoted key, and what follows it.
abbrev pub quoted : Text → Text → Text
quoted key q = 0x22 ∷ (key ++ (0x22 ∷ 0x3a ∷ q))

key-IsUnquoted : (k : Text) → All IsKey k → All IsUnquoted k
key-IsUnquoted k h = All-map _ _ k (λ c key. key.0) h

-- The key of another field in front.
Found-key :
    (k l q s r : Text)
    → All IsKey k
    → All IsKey l
    → text_eq k l ≡ false
    → Found s (quoted l q) r
    → Found (0x22 ∷ (k ++ (0x22 ∷ 0x3a ∷ s))) (quoted l q) r
unfolding strip_prefix
Found-key k l q s r hk hl ne h =
    Found-skip 0x22 (k ++ (0x22 ∷ 0x3a ∷ s)) (quoted l q) r
      (keys_differ k l (0x3a ∷ s) (0x3a ∷ q) hk hl ne)
      (Found-unquoted k (0x22 ∷ 0x3a ∷ s) (l ++ (0x22 ∷ 0x3a ∷ q)) r (key-IsUnquoted k hk) (
        Found-skip 0x22 (0x3a ∷ s) (quoted l q) r
          (no_key_at 0x3a l s (0x3a ∷ q) (λ e. ground arith) (All-map _ _ l (λ c key. key.1) hl))
          (Found-skip 0x3a s (quoted l q) r refl h)))

Found-text :
    (k v l q s r : Text)
    → All IsKey k
    → All IsUnquoted v
    → All IsKey l
    → text_eq k l ≡ false
    → Found s (quoted l q) r
    → Found (text_part k v (0x2c ∷ s)) (quoted l q) r
unfolding strip_prefix
Found-text k v l q s r hk hv hl ne h = Found-key k l q (0x22 ∷ (v ++ 0x22 ∷ 0x2c ∷ s)) r hk hl ne (
    Found-skip 0x22 (v ++ 0x22 ∷ 0x2c ∷ s) (quoted l q) r (value_is_no_key v l s q hv hl) (
      Found-unquoted v (0x22 ∷ 0x2c ∷ s) (l ++ (0x22 ∷ 0x3a ∷ q)) r hv (
        Found-skip 0x22 (0x2c ∷ s) (quoted l q) r
          (no_key_at 0x2c l s (0x3a ∷ q) (λ e. ground arith) (All-map _ _ l (λ c key. key.2) hl))
          (Found-skip 0x2c s (quoted l q) r refl h))))

Found-number :
    (k d l q s r : Text)
    → All IsKey k
    → All IsUnquoted d
    → All IsKey l
    → text_eq k l ≡ false
    → Found s (quoted l q) r
    → Found (number_part k d (0x2c ∷ s)) (quoted l q) r
unfolding strip_prefix
Found-number k d l q s r hk hd hl ne h = Found-key k l q (d ++ 0x2c ∷ s) r hk hl ne (
    Found-unquoted d (0x2c ∷ s) (l ++ (0x22 ∷ 0x3a ∷ q)) r hd
      (Found-skip 0x2c s (quoted l q) r refl h))

-- The first text, or number, under a key is behind the first occurrence of the quoted key.
pub data Part : Type 0 where
  text : Text → Text → Part
  number : Text → Text → Part

abbrev part_text : Part → Text → Text
part_text (text key value) rest = text_part key value rest
part_text (number key digits) rest = number_part key digits rest

-- The parts, with commas between and the brace behind.
abbrev pub joined : List Part → Text
joined [] = 0x7d ∷ []
joined (part ∷ []) = part_text part (0x7d ∷ [])
joined (part ∷ next ∷ parts) = part_text part (0x2c ∷ joined (next ∷ parts))

abbrev pub IsPart : Part → Type 0
IsPart (text key value) = (is_key key ≡ true) × All IsPlain value
IsPart (number key digits) = (is_key key ≡ true) × All IsNumeral digits

-- The value of a key, where the first part with the key is a text, or a number.
abbrev pub text_of : List Part → Text → Option Text
text_of [] key = none
text_of (text k value ∷ parts) key = if text_eq k key then some value else text_of parts key
text_of (number k digits ∷ parts) key = if text_eq k key then none else text_of parts key

abbrev pub number_of : List Part → Text → Option Text
number_of [] key = none
number_of (text k value ∷ parts) key = if text_eq k key then none else number_of parts key
number_of (number k digits ∷ parts) key = if text_eq k key then some digits else number_of parts key

plain-IsUnquoted : (v : Text) → All IsPlain v → All IsUnquoted v
plain-IsUnquoted v h = All-map _ _ v (λ c plain. IsPlain-ne_quote c plain) h

numeral-IsUnquoted : (d : Text) → All IsNumeral d → All IsUnquoted d
numeral-IsUnquoted d h = All-map _ _ d (λ c numeral e. ground arith) h

-- Another key in front is passed over.
pub Found-behind :
    (part next : Part) (parts : List Part) (key q r : Text)
    → IsPart part
    → is_key key ≡ true
    → text_eq (elim part [ text k v ↦ k | number k d ↦ k ]) key ≡ false
    → Found (joined (next ∷ parts)) (quoted key q) r
    → Found (joined (part ∷ next ∷ parts)) (quoted key q) r
Found-behind (text k v) next parts key q r (hk, hv) hkey ne h =
    Found-text k v key q (joined (next ∷ parts)) r (is_key-IsKey k hk) (plain-IsUnquoted v hv)
      (is_key-IsKey key hkey) ne h
Found-behind (number k d) next parts key q r (hk, hd) hkey ne h =
    Found-number k d key q (joined (next ∷ parts)) r (is_key-IsKey k hk) (numeral-IsUnquoted d hd)
      (is_key-IsKey key hkey) ne h
