-- ===== src/Release/Version.antt =====
-- `semantic_version_core`: the version that it finds is its own core.
use esp_wave_rider.Base.{
  ℕ, ◌≤◌, ◌≡◌, refl, ap, false, some, some-injective, [], ◌∷◌, ◌++◌, All, All-append, All-map,
  >>=-eq_some, arith, Bool-cases, Option-cases, inl, inr, ◌⊎◌, subst,
}
use esp_wave_rider.Text.{Text, is_empty, is_whitespace, is_ascii_digit, trim, trim_start, trim_end}
use esp_wave_rider.Release.{
  span_digits, after_dot, read_digits, skip_v, read_version, text_or_empty, semantic_version_core,
}

abbrev pub IsDigit : ℕ → Type 0
IsDigit c = (b'0' ≤ c) × (c ≤ b'9')

abbrev IsDigitOrDot : ℕ → Type 0
IsDigitOrDot c = IsDigit c ⊎ (c ≡ b'.')

abbrev pub IsNumber : Text → Type 0
IsNumber s = (is_empty s ≡ false) × All IsDigit s

abbrev dotted : Text → Text → Text → Text
dotted major minor patch = major ++ (b'.' ∷ (minor ++ (b'.' ∷ patch)))

-- Three numbers of one digit at least, between dots.
pub data IsVersion : Text → Type 0 where
  numbers :
      (major minor patch : Text)
      → IsNumber major
      → IsNumber minor
      → IsNumber patch
      → IsVersion (dotted major minor patch)

span_digits-All : (s : Text) → All IsDigit (span_digits s).0
unfolding span_digits is_ascii_digit
span_digits-All [] = tt
span_digits-All (c ∷ s) = ground (arith, span_digits-All s)

read_digits-IsNumber :
    (s : Text) (parts : Text × Text) → read_digits s ≡ some parts → IsNumber parts.0
unfolding read_digits
read_digits-IsNumber s parts e = elim (Bool-cases (is_empty (span_digits s).0)) [
  | inl none_there ↦ absurd (ground arith)
  | inr there ↦
      subst (λ (t : Text × Text). IsNumber t.0)
        (some-injective (span_digits s) parts (rw there at e)) (there, span_digits-All s)
]

read_version-IsVersion : (s : Text) {v : Text} → read_version s ≡ some v → IsVersion v
unfolding read_version
read_version-IsVersion s {v} e =
    let (major, major_ok, r) = >>=-eq_some (read_digits s) _ e in
    let (behind, dot, r1) = >>=-eq_some (after_dot major.1) _ r in
    let (minor, minor_ok, r2) = >>=-eq_some (read_digits behind) _ r1 in
    let (behind', dot', r3) = >>=-eq_some (after_dot minor.1) _ r2 in
    let (patch, patch_ok, built) = >>=-eq_some (read_digits behind') _ r3 in
    subst IsVersion (some-injective (dotted major.0 minor.0 patch.0) v built) (
      numbers major.0 minor.0 patch.0 (read_digits-IsNumber s major major_ok)
        (read_digits-IsNumber behind minor minor_ok) (read_digits-IsNumber behind' patch patch_ok))

span_digits-append :
    (digits rest : Text)
    → All IsDigit digits
    → span_digits (digits ++ b'.' ∷ rest) ≡ (digits, b'.' ∷ rest)
unfolding span_digits is_ascii_digit
span_digits-append [] rest h = refl
span_digits-append (c ∷ digits) rest (hc, hs) = ground (arith, span_digits-append digits rest hs)

span_digits_whole : (digits : Text) → All IsDigit digits → span_digits digits ≡ (digits, [])
unfolding span_digits is_ascii_digit
span_digits_whole [] h = refl
span_digits_whole (c ∷ digits) (hc, hs) = ground (arith, span_digits_whole digits hs)

read_version_itself : {v : Text} → IsVersion v → read_version v ≡ some v
unfolding read_version read_digits
read_version_itself (numbers major minor patch (ea, ha) (eb, hb) (ec, hc)) =
    rw (span_digits-append major (minor ++ (b'.' ∷ patch)) ha, ea)
      (rw (span_digits-append minor patch hb, eb) (rw (span_digits_whole patch hc, ec)))

digits-All : (s : Text) → All IsDigit s → All IsDigitOrDot s
digits-All s h = All-map IsDigit IsDigitOrDot s (λ c hc. inl hc) h

version-All : {v : Text} → IsVersion v → All IsDigitOrDot v
version-All (numbers major minor patch (ea, ha) (eb, hb) (ec, hc)) =
    All-append IsDigitOrDot major _ (digits-All major ha) (
      inr refl,
      All-append IsDigitOrDot minor _ (digits-All minor hb) (inr refl, digits-All patch hc),
    )

trim_start_keeps : (s : Text) → All IsDigitOrDot s → trim_start s ≡ s
unfolding trim_start is_whitespace
trim_start_keeps [] h = refl
trim_start_keeps (c ∷ s) (hc, hs) = ground arith

trim_end_keeps : (s : Text) → All IsDigitOrDot s → trim_end s ≡ s
unfolding trim_end is_whitespace
trim_end_keeps [] h = refl
trim_end_keeps (c ∷ s) (hc, hs) = ground (arith, trim_end_keeps s hs)

skip_v_keeps : {v : Text} → IsVersion v → skip_v v ≡ v
unfolding skip_v
skip_v_keeps (numbers [] minor patch (ea, ha) hb hc) = absurd (ground arith)
skip_v_keeps (numbers (a ∷ major) minor patch (ea, (ha, has)) hb hc) = ground arith

core_itself : {v : Text} → IsVersion v → semantic_version_core v ≡ v
unfolding semantic_version_core trim
core_itself {v} h = rw (
  trim_start_keeps v (version-All h),
  trim_end_keeps v (version-All h),
  skip_v_keeps h,
  read_version_itself h,
)

-- The core of a version is empty or three numbers between dots, and is its own core.
pub semantic_version_core_idempotent :
    (version : Text)
    → ((semantic_version_core version ≡ []) ⊎ IsVersion (semantic_version_core version))
      × (semantic_version_core (semantic_version_core version) ≡ semantic_version_core version)
semantic_version_core_idempotent version =
    elim (Option-cases (read_version (skip_v (trim version)))) [
      | inl missing ↦
          let e : semantic_version_core version ≡ [] =
            unfold semantic_version_core in ap text_or_empty missing in
          rw e (
            inl refl,
            unfold semantic_version_core trim trim_start trim_end skip_v read_version read_digits
                  span_digits in
                refl,
          )
      | inr (v, found) ↦
          let e : semantic_version_core version ≡ v =
            unfold semantic_version_core in ap text_or_empty found in
          let h = read_version-IsVersion (skip_v (trim version)) found in
          rw e (inr h, core_itself h)
    ]
