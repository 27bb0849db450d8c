-- ===== src/Text/Laws.antt =====
-- Laws of the text operations.
use esp_wave_rider.Base.{
  List, length, ◌<◌, false, ◌++◌, ℕ, ◌≡◌, refl, ◌≢◌, ◌↔◌, true, some, [], ◌∷◌, All, arith,
}
use esp_wave_rider.Text.{is_empty, Text, text_eq, strip_prefix, split}

pub text_eq→eq : (s t : Text) → text_eq s t ≡ true → s ≡ t
unfolding text_eq
text_eq→eq [] [] h = refl
text_eq→eq [] (d ∷ t) h = cc
text_eq→eq (c ∷ s) [] h = cc
text_eq→eq (c ∷ s) (d ∷ t) h = ground (arith, text_eq→eq s t)

pub text_eq_refl : (s : Text) → text_eq s s ≡ true
unfolding text_eq
text_eq_refl [] = refl
text_eq_refl (c ∷ s) = ground (arith, text_eq_refl s)

pub text_eq_iff : (s t : Text) → (text_eq s t ≡ true) ↔ (s ≡ t)
text_eq_iff s t = (text_eq→eq s t, λ e. rw e (text_eq_refl t))

pub strip_prefix-append : (p s : Text) → strip_prefix (p ++ s) p ≡ some s
unfolding strip_prefix
strip_prefix-append [] [] = refl
strip_prefix-append [] (c ∷ s) = refl
strip_prefix-append (c ∷ p) s = ground (arith, strip_prefix-append p s)

pub strip_prefix-eq : (s p : Text) {t : Text} → strip_prefix s p ≡ some t → s ≡ p ++ t
unfolding strip_prefix
strip_prefix-eq [] [] h = ground arith
strip_prefix-eq (c ∷ s) [] h = ground arith
strip_prefix-eq [] (d ∷ p) h = cc
strip_prefix-eq (c ∷ s) (d ∷ p) {t} h = ground (arith, strip_prefix-eq s p {t = t})

-- No separator, no cut.
pub split-append :
    (p s : Text) (sep : ℕ) → All (λ c. c ≢ sep) p → split (p ++ sep ∷ s) sep ≡ p ∷ split s sep
unfolding split
split-append [] s sep h = ground arith
split-append (c ∷ p) s sep h = ground (arith, split-append p s sep)

pub split_single : (p : Text) (sep : ℕ) → All (λ c. c ≢ sep) p → split p sep ≡ p ∷ []
unfolding split
split_single [] sep h = refl
split_single (c ∷ p) sep h = ground (arith, split_single p sep)

pub is_empty_of_ne {ℓ} : {A : Type ℓ} (xs : List A) → xs ≢ [] → is_empty xs ≡ false
is_empty_of_ne [] h = absurd (h refl)
is_empty_of_ne (x ∷ xs) h = refl

pub is_empty_of_length {ℓ} : {A : Type ℓ} (xs : List A) → 0 < length xs → is_empty xs ≡ false
is_empty_of_length [] h = absurd (omega arith)
is_empty_of_length (x ∷ xs) h = refl
