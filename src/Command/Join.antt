-- ===== src/Command/Join.antt =====
-- The fields of a payload, and the payload that they are written as.
use esp_wave_rider.Base.{
  ℕ, suc, ◌<◌, ◌≡◌, ◌≢◌, refl, sym, ap, ◌∙◌, ◌↔◌, true, List, [], ◌∷◌, ◌++◌, length, All, ◌==◌,
  ==_iff, arith, Bool-cases, inl, inr, subst,
}
use esp_wave_rider.Text.{Text, split, cons_head}
use esp_wave_rider.Text.Laws.{split-append, split_single}
use esp_wave_rider.Command.Outcome.{ok, ok-injective}
use esp_wave_rider.Command.Fields.{split_fields}

-- The fields with a bar between each two.
abbrev pub join : List Text → Text
join [] = []
join (p ∷ []) = p
join (p ∷ q ∷ ps) = p ++ b'|' ∷ join (q ∷ ps)

abbrev pub HasNoBar : Text → Type 0
HasNoBar s = All (λ c. c ≢ b'|') s

split-join :
    (p : Text) (ps : List Text) → All HasNoBar (p ∷ ps) → split (join (p ∷ ps)) b'|' ≡ p ∷ ps
split-join p [] (h, hs) = split_single p b'|' h
split-join p (q ∷ ps) (h, hs) =
    split-append p (join (q ∷ ps)) b'|' h ∙ ap (λ l. p ∷ l) (split-join q ps hs)

split_cons : (s : Text) → (p : Text) × (ps : List Text) × (split s b'|' ≡ p ∷ ps)
unfolding split
split_cons [] = ([], [], refl)
split_cons (c ∷ s) =
    let (p, ps, e) = split_cons s in
    elim (Bool-cases (c == b'|')) [
      | inl bar ↦ ([], p ∷ ps, rw (bar, e))
      | inr other ↦ (c ∷ p, ps, rw (other, e))
    ]

join-cons_head :
    (c : ℕ) (p : Text) (ps : List Text) → join (cons_head c (p ∷ ps)) ≡ c ∷ join (p ∷ ps)
join-cons_head c p [] = refl
join-cons_head c p (q ∷ ps) = refl

join-split : (s : Text) → join (split s b'|') ≡ s
unfolding split
join-split [] = refl
join-split (c ∷ s) =
    let (p, ps, e) = split_cons s in
    let back = rw e at (join-split s) in
    elim (Bool-cases (c == b'|')) [
      | inl bar ↦ rw (bar, e) (rw back (ap (λ d. d ∷ s) (sym ((==_iff c b'|').0 bar))))
      | inr other ↦ rw (other, e) (join-cons_head c p ps ∙ ap (λ l. c ∷ l) back)
    ]

split-HasNoBar : (s : Text) → All HasNoBar (split s b'|')
unfolding split
split-HasNoBar [] = (tt, tt)
split-HasNoBar (c ∷ s) =
    let (p, ps, e) = split_cons s in
    let (h, hs) = rw e at (split-HasNoBar s) in
    elim (Bool-cases (c == b'|')) [
      | inl bar ↦ rw (bar, e) (tt, (h, hs))
      | inr other ↦ rw (other, e) (((λ same. absurd (ground arith)), h), hs)
    ]

pub split_fields-parts :
    (n : ℕ) (payload : Text) (fields : List Text)
    → split_fields n payload ≡ ok fields
    → (length fields ≡ n) × All HasNoBar fields × (payload ≡ join fields)
unfolding split_fields
split_fields-parts n payload fields e = elim (Bool-cases (length (split payload b'|') == n)) [
  | inl count ↦
      subst (λ fs. (length fs ≡ n) × All HasNoBar fs × (payload ≡ join fs))
        (ok-injective _ _ (rw count at e))
        ((==_iff _ _).0 count, split-HasNoBar payload, sym (join-split payload))
  | inr count ↦ absurd (ground arith)
]

split_fields-join :
    (n : ℕ) (payload : Text) (fields : List Text)
    → 0 < n
    → (length fields ≡ n) × All HasNoBar fields × (payload ≡ join fields)
    → split_fields n payload ≡ ok fields
unfolding split_fields
split_fields-join n payload [] positive (count, clean, e) = absurd (omega arith)
split_fields-join n payload (p ∷ ps) positive (count, clean, e) =
    let enough : (suc (length ps) == n) ≡ true = (==_iff (suc (length ps)) n).1 count in
    rw (e, split-join p ps clean, enough)

-- For a number of fields that is not 0, a payload has the fields exactly if it is those fields
-- joined by bars, as many as wanted and none with a bar in it.
pub split_fields_iff :
    (n : ℕ) (payload : Text) (fields : List Text)
    → 0 < n
    → (split_fields n payload ≡ ok fields)
      ↔ ((length fields ≡ n) × All HasNoBar fields × (payload ≡ join fields))
split_fields_iff n payload fields positive =
    (split_fields-parts n payload fields, split_fields-join n payload fields positive)
