-- ===== src/Release/Url.antt =====
-- Download URLs: a URL that parses is made of the parts that it is parsed into.
use esp_wave_rider.Base.{
  ℕ, suc, ◌+◌, ◌≡◌, refl, sym, ap, ◌∙◌, true, not, ◌||◌, Option, none, some, some-injective, [],
  ◌∷◌, ◌++◌, length, take, drop, take_append_drop, drop-append_length, append-nil, ◌==◌, ==_iff,
  if◌then◌else◌, >>=-eq_some, arith, Bool-cases, Option-cases, inl, inr, subst,
}
use esp_wave_rider.Text.{
  Text, codes, is_empty, starts_with, strip_prefix, find?, trim, split_once, rsplit_once, cut_at,
  cut_before,
}
use esp_wave_rider.Text.Laws.{strip_prefix-eq}
use esp_wave_rider.Text.Number.{parse_u16}
use esp_wave_rider.Release.{
  DownloadUrlScheme, ParsedDownloadUrl, read_scheme, default_port, all_digits, host_and_port,
  read_authority, read_target, parse_download_url,
}

starts_with-eq : (s p : Text) → starts_with s p ≡ true → s ≡ p ++ drop (length p) s
unfolding starts_with
starts_with-eq s p h = elim (Option-cases (strip_prefix s p)) [
  | inl missing ↦ absurd (ground arith)
  | inr (t, found) ↦
      rw (strip_prefix-eq s p found) (ap (λ r. p ++ r) (sym (drop-append_length p t)))
]

starts_at_front :
    (s p : Text) {i : ℕ}
    → starts_with s p ≡ true
    → 0 ≡ i
    → s ≡ take i s ++ (p ++ drop (i + length p) s)
starts_at_front s p {i} h e =
    subst (λ k. s ≡ take k s ++ (p ++ drop (k + length p) s)) e
      (starts_with-eq s p h ∙ ap (λ k. p ++ drop k s) (omega arith))

-- Where the pattern is found, the text is what is before it, the pattern, and what is behind it.
find?-eq : (s p : Text) {i : ℕ} → find? s p ≡ some i → s ≡ take i s ++ (p ++ drop (i + length p) s)
unfolding find?
find?-eq [] p {i} e = elim (Bool-cases (starts_with [] p)) [
  | inl front ↦ starts_at_front [] p front (some-injective 0 i (rw front at e))
  | inr other ↦ absurd (ground arith)
]
find?-eq (c ∷ s) p {i} e = elim (Bool-cases (starts_with (c ∷ s) p)) [
  | inl front ↦ starts_at_front (c ∷ s) p front (some-injective 0 i (rw front at e))
  | inr other ↦ elim (Option-cases (find? s p)) [
    | inl missing ↦ absurd (ground arith)
    | inr (j, found) ↦
        let step : suc j ≡ i = some-injective (suc j) i (rw (other, found) at e) in
        subst (λ k. c ∷ s ≡ take k (c ∷ s) ++ (p ++ drop (k + length p) (c ∷ s))) step
          (ap (λ l. c ∷ l) (find?-eq s p found)
            ∙ ap (λ k. c ∷ (take j s ++ (p ++ drop k (c ∷ s)))) {x = suc (j + length p)}
                (omega arith))
  ]
]

find?-starts_with : (s p : Text) {i : ℕ} → find? s p ≡ some i → starts_with (drop i s) p ≡ true
unfolding find?
find?-starts_with [] p {i} e = elim (Bool-cases (starts_with [] p)) [
  | inl front ↦
      subst (λ k. starts_with (drop k []) p ≡ true) (some-injective 0 i (rw front at e)) front
  | inr other ↦ absurd (ground arith)
]
find?-starts_with (c ∷ s) p {i} e = elim (Bool-cases (starts_with (c ∷ s) p)) [
  | inl front ↦
      subst (λ k. starts_with (drop k (c ∷ s)) p ≡ true) (some-injective 0 i (rw front at e)) front
  | inr other ↦ elim (Option-cases (find? s p)) [
    | inl missing ↦ absurd (ground arith)
    | inr (j, found) ↦
        subst (λ k. starts_with (drop k (c ∷ s)) p ≡ true)
          (some-injective (suc j) i (rw (other, found) at e)) (find?-starts_with s p found)
  ]
]

cut_at-eq :
    (s p : Text) (o : Option ℕ) {a b : Text}
    → find? s p ≡ o
    → cut_at s (length p) o ≡ some (a, b)
    → s ≡ a ++ (p ++ b)
cut_at-eq s p none {a} {b} found e = absurd (ground arith)
cut_at-eq s p (some i) {a} {b} found e =
    find?-eq s p found
    ∙ ap (λ (t : Text × Text). t.0 ++ (p ++ t.1))
        (some-injective (take i s, drop (i + length p) s) (a, b) e)

split_once-eq : (s p : Text) {a b : Text} → split_once s p ≡ some (a, b) → s ≡ a ++ (p ++ b)
unfolding split_once
split_once-eq s p e = cut_at-eq s p (find? s p) refl e

cut_before-eq :
    (c : ℕ) (s : Text) (sep : ℕ) (o : Option (Text × Text)) {a b : Text}
    → ((parts : Text × Text) → o ≡ some parts → s ≡ parts.0 ++ sep ∷ parts.1)
    → cut_before c s sep o ≡ some (a, b)
    → c ∷ s ≡ a ++ sep ∷ b
cut_before-eq c s sep none {a} {b} h e = elim (Bool-cases (c == sep)) [
  | inl same ↦
      let parts = some-injective ([], s) (a, b) (rw same at e) in
      ap (λ d. d ∷ s) ((==_iff c sep).0 same) ∙ ap (λ (t : Text × Text). t.0 ++ sep ∷ t.1) parts
  | inr differs ↦ absurd (ground arith)
]
cut_before-eq c s sep (some parts) {a} {b} h e =
    ap (λ l. c ∷ l) (h parts refl)
    ∙ ap (λ (t : Text × Text). t.0 ++ sep ∷ t.1) (some-injective (c ∷ parts.0, parts.1) (a, b) e)

rsplit_once-eq :
    (s : Text) (sep : ℕ) (parts : Text × Text)
    → rsplit_once s sep ≡ some parts
    → s ≡ parts.0 ++ sep ∷ parts.1
unfolding rsplit_once
rsplit_once-eq [] sep parts e = absurd (ground arith)
rsplit_once-eq (c ∷ s) sep parts e =
    cut_before-eq c s sep (rsplit_once s sep) (rsplit_once-eq s sep) e

-- What follows the host: nothing, for the port of the scheme, or a colon and a port.
pub data PortPart (default : ℕ) : Text → ℕ → Type 0 where
  absent : PortPart default [] default
  given :
      (port_text : Text) (port : ℕ)
      → parse_u16 port_text ≡ some port
      → PortPart default (b':' ∷ port_text) port

host_and_port_of :
    (authority : Text) (default : ℕ) (o : Option (Text × Text)) {host : Text} {port : ℕ}
    → rsplit_once authority b':' ≡ o
    → host_and_port authority default o ≡ some (host, port)
    → (part : Text) × (authority ≡ host ++ part) × PortPart default part port
unfolding host_and_port
host_and_port_of authority default none {host} {port} found e =
    let parts = some-injective (authority, default) (host, port) e in
    subst (λ (t : Text × ℕ). (part : Text) × (authority ≡ t.0 ++ part) × PortPart default part t.1)
      parts ([], sym (append-nil authority), absent)
host_and_port_of authority default (some (h, t)) {host} {port} found e =
    elim (Bool-cases (is_empty h || is_empty t || not (all_digits t))) [
      | inl refused ↦ absurd (ground arith)
      | inr fine ↦
          let (p, read, built) = >>=-eq_some (parse_u16 t) _ (rw fine at e) in
          let parts = some-injective (h, p) (host, port) built in
          subst
            (λ (q : Text × ℕ).
              (part : Text) × (authority ≡ q.0 ++ part) × PortPart default part q.1)
            parts (b':' ∷ t, rsplit_once-eq authority b':' (h, t) found, given t p read)
    ]

-- The parts of what is behind `://`.
record IsTarget (scheme : DownloadUrlScheme) (remainder : Text) (p : ParsedDownloadUrl)
    : Type 0 where
  pub part : Text
  pub same_scheme : scheme ≡ p.scheme
  pub made_of : remainder ≡ (p.host ++ part) ++ p.path
  pub has_port : PortPart (default_port scheme) part p.port
  pub has_slash : starts_with p.path (codes "/") ≡ true

read_target-IsTarget :
    (scheme : DownloadUrlScheme) (remainder : Text) (p : ParsedDownloadUrl)
    → read_target scheme remainder ≡ some p
    → IsTarget scheme remainder p
unfolding read_target read_authority
read_target-IsTarget scheme remainder p e =
    let (i, at_slash, r) = >>=-eq_some (find? remainder (codes "/")) _ e in
    let (target, accepted, built) =
      >>=-eq_some
        (if is_empty (take i remainder) || is_empty (drop i remainder)
          then none
          else host_and_port (take i remainder) (default_port scheme)
              (rsplit_once (take i remainder) b':'))
        _ r in
    elim (Bool-cases (is_empty (take i remainder) || is_empty (drop i remainder))) [
      | inl empty ↦ absurd (ground arith)
      | inr fine ↦
          let (part, whole, kind) =
            host_and_port_of (take i remainder) (default_port scheme)
              (rsplit_once (take i remainder) b':') refl (rw fine at accepted) in
          subst (IsTarget scheme remainder) (some-injective _ p built) (record {
            part = part;
            same_scheme = refl;
            made_of = sym (take_append_drop i remainder) ∙ ap (λ l. l ++ drop i remainder) whole;
            has_port = kind;
            has_slash = find?-starts_with remainder (codes "/") at_slash;
          })
    ]

-- A URL that parses is, but for white space around it, a scheme, `://`, the host, the port part and
-- the path, which starts with a slash.
pub parse_download_url-written :
    (url : Text) (p : ParsedDownloadUrl)
    → parse_download_url url ≡ some p
    → (scheme_text part : Text) × (trim url
        ≡ scheme_text ++ (codes "://" ++ ((p.host ++ part) ++ p.path)))
      × (read_scheme scheme_text ≡ some p.scheme)
      × PortPart (default_port p.scheme) part p.port
      × (starts_with p.path (codes "/") ≡ true)
unfolding parse_download_url
parse_download_url-written url p e =
    let (cut, cut_ok, r) = >>=-eq_some (split_once (trim url) (codes "://")) _ e in
    let (scheme, scheme_ok, target_ok) = >>=-eq_some (read_scheme cut.0) _ r in
    let target = read_target-IsTarget scheme cut.1 p target_ok in
    (
      cut.0,
      target.part,
      split_once-eq (trim url) (codes "://") cut_ok
          ∙ ap (λ l. cut.0 ++ (codes "://" ++ l)) (target.made_of),
      scheme_ok ∙ ap some (target.same_scheme),
      subst (λ k. PortPart (default_port k) target.part p.port) (target.same_scheme)
          (target.has_port),
      target.has_slash,
    )
