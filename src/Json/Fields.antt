-- ===== src/Json/Fields.antt =====
-- How the strings of fixed capacity of rust/firmware/esp32s3/src/main.rs grow, and how a field is found
-- in them again.
use esp_wave_rider.Base.{
  ℕ, suc, ◌+◌, ◌≡◌, ◌≢◌, refl, sym, ap, ◌∙◌, Option, some, [], ◌∷◌, ◌++◌, length, All, append_assoc,
  append-nil, arith, leb, subst, Bool-cases, inl, inr, some-injective, ◌>>=◌, >>=-eq_some,
}
use esp_wave_rider.Base.Int.{ℤ, pos, negsuc}
use esp_wave_rider.Text.{Text, codes, find?, starts_with, strip_prefix}
use esp_wave_rider.Text.Utf8.{as_bytes}
use esp_wave_rider.Fixed.{FixedString}
use esp_wave_rider.Json.{
  escape, push_part, push_escaped_field, push_json_string_field, push_characters,
  append_u32_heapless, append_i32_heapless, append_u32, append_i32, fill_digits,
}

-- A character that stands for itself in a JSON string.
abbrev pub IsPlain : ℕ → Type 0
IsPlain c = escape c ≡ c ∷ []

pub IsPlain-ne_quote : (c : ℕ) → IsPlain c → c ≢ 0x22
unfolding escape
IsPlain-ne_quote c h e = ground arith

-- A write that succeeds has put the text behind what was there.
abbrev pub Writes : Text → Text → Option Text → Type 0
Writes p w o = (q : Text) → o ≡ some q → q ≡ p ++ w

pub >>=-Writes :
    (p w w' : Text) (o : Option Text) (f : Text → Option Text)
    → Writes p w o
    → ((m : Text) → Writes m w' (f m))
    → Writes p (w ++ w') (o >>= f)
>>=-Writes p w w' o f first rest q e =
    let (m, e1, e2) = >>=-eq_some o f e in
    rest m q e2 ∙ ap (λ l. l ++ w') (first m e1) ∙ append_assoc p w w'

-- A field with a string, and one with a number, in front of what follows.
abbrev pub text_part : Text → Text → Text → Text
text_part key value rest = 0x22 ∷ (key ++ (0x22 ∷ 0x3a ∷ 0x22 ∷ (value ++ 0x22 ∷ rest)))

abbrev pub number_part : Text → Text → Text → Text
number_part key digits rest = 0x22 ∷ (key ++ (0x22 ∷ 0x3a ∷ (digits ++ rest)))

module _ (str : FixedString) where
  pub push_part-eq :
      (output part q : Text) → push_part str output part ≡ some q → q ≡ output ++ part
  push_part-eq output part q e =
      elim (Bool-cases (leb (length (as_bytes output) + length (as_bytes part)) 384)) [
        | inl room ↦ sym (some-injective _ _ (sym (str.fits 384 output part (ground arith)) ∙ e))
        | inr full ↦ absurd (ground (arith, str.overflows 384 output part (ground arith), e))
      ]

  push_characters-Writes : (p digits : Text) → Writes p digits (push_characters str p digits)
  unfolding push_characters
  push_characters-Writes p [] q e = sym (some-injective p q e) ∙ sym (append-nil p)
  push_characters-Writes p (c ∷ digits) q e =
      >>=-Writes p (c ∷ []) digits (push_part str p (c ∷ [])) (λ m. push_characters str m digits)
        (push_part-eq p (c ∷ [])) (λ m. push_characters-Writes m digits) q e

  pub append_u32_heapless-Writes :
      (p : Text) (n : ℕ) → Writes p (append_u32 [] n) (append_u32_heapless str p n)
  unfolding append_u32_heapless append_u32
  append_u32_heapless-Writes p n = push_characters-Writes p (fill_digits 10 n [])

  pub append_i32_heapless-Writes :
      (p : Text) (v : ℤ) → Writes p (append_i32 [] v) (append_i32_heapless str p v)
  unfolding append_i32_heapless append_i32 append_u32
  append_i32_heapless-Writes p (pos n) = unfold append_u32 in append_u32_heapless-Writes p n
  append_i32_heapless-Writes p (negsuc n) =
      >>=-Writes p (b'-' ∷ []) (fill_digits 10 (suc n) []) (push_part str p (b'-' ∷ [])) _
        (push_part-eq p (b'-' ∷ []))
        (λ m. unfold append_u32 in append_u32_heapless-Writes m (suc n))

  push_escaped_field-plain :
      (p value q : Text)
      → All IsPlain value
      → push_escaped_field str p value ≡ some q
      → q ≡ p ++ value
  unfolding push_escaped_field
  push_escaped_field-plain p [] q h e = sym (some-injective p q e) ∙ sym (append-nil p)
  push_escaped_field-plain p (c ∷ value) q (hc, hs) e =
      let (m, e1, e2) =
        >>=-eq_some (push_part str p (escape c)) (λ m. push_escaped_field str m value) e in
      let same : m ≡ p ++ c ∷ [] = push_part-eq p (escape c) m e1 ∙ ap (λ l. p ++ l) hc in
      push_escaped_field-plain m value q hs e2
      ∙ ap (λ l. l ++ value) same
      ∙ append_assoc p (c ∷ []) value

  -- A value of plain characters is written as it is.
  pub push_json_string_field-plain :
      (p key value q : Text)
      → All IsPlain value
      → push_json_string_field str p key value ≡ some q
      → q ≡ p ++ (0x22 ∷ (key ++ (codes "\":\"" ++ (value ++ 0x22 ∷ []))))
  unfolding push_json_string_field
  push_json_string_field-plain p key value q h e =
      let (quoted, e1, r1) = >>=-eq_some (push_part str p (0x22 ∷ [])) _ e in
      let (named, e2, r2) = >>=-eq_some (push_part str quoted key) _ r1 in
      let (opened, e3, r3) = >>=-eq_some (push_part str named (codes "\":\"")) _ r2 in
      let (filled, e4, r4) = >>=-eq_some (push_escaped_field str opened value) _ r3 in
      rw
        (
          push_part-eq filled (0x22 ∷ []) q r4,
          push_escaped_field-plain opened value filled h e4,
          push_part-eq named (codes "\":\"") opened e3,
          push_part-eq quoted key named e2,
          push_part-eq p (0x22 ∷ []) quoted e1,
        )
        (simp append_assoc)

  -- The next field of the object, behind a comma.
  pub then_text :
      (p key value w : Text) (f : Text → Option Text)
      → All IsPlain value
      → ((m : Text) → Writes m w (f m))
      → Writes p
          (0x2c ∷ text_part key value w)
          (push_part str p (codes ",") >>= λ q. (push_json_string_field str q key value >>= f))
  then_text p key value w f plain rest =
      let field = 0x22 ∷ (key ++ (codes "\":\"" ++ (value ++ 0x22 ∷ []))) in
      let both =
        >>=-Writes p (codes ",") (field ++ w) (push_part str p (codes ",")) _
          (push_part-eq p (codes ","))
          (λ q.
            >>=-Writes q field w (push_json_string_field str q key value) f
              (λ r. push_json_string_field-plain q key value r plain) rest) in
      subst
        (λ t.
          Writes p (0x2c ∷ t)
            (push_part str p (codes ",") >>= λ q. (push_json_string_field str q key value >>= f)))
        (simp append_assoc) both

  pub then_number :
      (p key digits w : Text) (g : Text → Option Text) (f : Text → Option Text)
      → ((m : Text) → Writes m digits (g m))
      → ((m : Text) → Writes m w (f m))
      → Writes p
          (0x2c ∷ number_part key digits w)
          (push_part str p (0x2c ∷ 0x22 ∷ (key ++ codes "\":")) >>= λ q. (g q >>= f))
  then_number p key digits w g f number rest =
      let opening = 0x2c ∷ 0x22 ∷ (key ++ codes "\":") in
      let both =
        >>=-Writes p opening (digits ++ w) (push_part str p opening) _ (push_part-eq p opening)
          (λ q. >>=-Writes q digits w (g q) f (number q) rest) in
      subst (λ t. Writes p (0x2c ∷ 0x22 ∷ t) (push_part str p opening >>= λ q. (g q >>= f)))
        (append_assoc key (codes "\":") (digits ++ w)) both

-- The first quote behind plain characters is the one that closes them.
pub find?-plain :
    (value rest : Text)
    → All IsPlain value
    → find? (value ++ 0x22 ∷ rest) (0x22 ∷ []) ≡ some (length value)
unfolding find? starts_with strip_prefix
find?-plain [] rest h = refl
find?-plain (c ∷ value) rest (hc, hs) =
    let ne = IsPlain-ne_quote c hc in ground (arith, find?-plain value rest hs)
