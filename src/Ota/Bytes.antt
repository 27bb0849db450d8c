-- ===== src/Ota/Bytes.antt =====
-- Bytes of a list and of an overwritten list, where what is behind the end reads as 255.
use esp_wave_rider.Base.{
  ℕ, zero, suc, ◌+◌, ◌-◌, ◌≤◌, ◌<◌, ◌≡◌, refl, ap, ◌∙◌, List, [], ◌∷◌, ◌++◌, length, take, drop,
  get_or, ltb, leb, if◌then◌else◌, arith, length-append, length-take, length-drop, ◌&&◌,
}
use esp_wave_rider.Ota.{blank_word, overwrite}

pub get_or-append :
    (xs ys : List ℕ) (i d : ℕ)
    → get_or (xs ++ ys) i d
      ≡ (if ltb i (length xs) then get_or xs i d else get_or ys (i - length xs) d)
get_or-append [] ys i d = ground arith
get_or-append (x ∷ xs) ys zero d = ground arith
get_or-append (x ∷ xs) ys (suc i) d = ground (arith, get_or-append xs ys i d)

pub get_or-beyond : (xs : List ℕ) (i d : ℕ) → length xs ≤ i → get_or xs i d ≡ d
get_or-beyond [] i d h = refl
get_or-beyond (x ∷ xs) zero d h = absurd (omega arith)
get_or-beyond (x ∷ xs) (suc i) d h = get_or-beyond xs i d (omega arith)

pub get_or-take : (n : ℕ) (xs : List ℕ) (i d : ℕ) → i < n → get_or (take n xs) i d ≡ get_or xs i d
get_or-take zero xs i d h = elim h [ ]
get_or-take (suc n) [] i d h = refl
get_or-take (suc n) (x ∷ xs) zero d h = refl
get_or-take (suc n) (x ∷ xs) (suc i) d h = get_or-take n xs i d (omega arith)

pub get_or-drop : (n : ℕ) (xs : List ℕ) (i d : ℕ) → get_or (drop n xs) i d ≡ get_or xs (n + i) d
get_or-drop zero xs i d = ap (λ k. get_or xs k d) (omega arith)
get_or-drop (suc n) [] i d = refl
get_or-drop (suc n) (x ∷ xs) i d =
    get_or-drop n xs i d
    ∙ ap (λ k. get_or (x ∷ xs) k d) {x = suc (n + i)} {y = suc n + i} (omega arith)

pub drop_all : (n : ℕ) (xs : List ℕ) → length xs ≤ n → drop n xs ≡ []
drop_all zero [] h = refl
drop_all zero (x ∷ xs) h = absurd (omega arith)
drop_all (suc n) [] h = refl
drop_all (suc n) (x ∷ xs) h = drop_all n xs (omega arith)

pub length-overwrite :
    (xs : List ℕ) (start : ℕ) (part : List ℕ)
    → start + length part ≤ length xs
    → length (overwrite xs start part) ≡ length xs
unfolding overwrite
length-overwrite xs start part h = omega (
  arith,
  length-append (take start xs) (part ++ drop (start + length part) xs),
  length-append part (drop (start + length part) xs),
  length-take start xs (omega arith),
  length-drop (start + length part) xs,
)

pub get_or-overwrite :
    (xs : List ℕ) (start : ℕ) (part : List ℕ) (i : ℕ)
    → start + length part ≤ length xs
    → get_or (overwrite xs start part) i 255 ≡ (
        if leb start i && ltb i (start + length part)
        then get_or part (i - start) 255
        else get_or xs i 255)
unfolding overwrite
get_or-overwrite xs start part i h = ground (
  arith,
  get_or-append (take start xs) (part ++ drop (start + length part) xs) i 255,
  get_or-append part (drop (start + length part) xs) (i - start) 255,
  length-take start xs (omega arith),
  get_or-take start xs i 255,
  get_or-drop (start + length part) xs (i - start - length part) 255,
  ap (λ k. get_or xs k 255) {x = start + length part + (i - start - length part)} {y = i},
)

pub blank_pending : (j : ℕ) → get_or blank_word j 255 ≡ 255
blank_pending zero = refl
blank_pending (suc zero) = refl
blank_pending (suc (suc zero)) = refl
blank_pending (suc (suc (suc zero))) = refl
blank_pending (suc (suc (suc (suc j)))) = refl
