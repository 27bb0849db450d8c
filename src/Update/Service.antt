-- ===== src/Update/Service.antt =====
-- Which candidate the service stages, and what it reports.
use esp_wave_rider.Base.{
  ℕ, ◌≡◌, refl, sym, ap, ◌∙◌, subst, ◌↔◌, ◌⊎◌, inl, inr, true, false, Option, none, some, List, [],
  ◌∷◌, ◌++◌, All, arith, Bool-cases, Option-cases,
}
use esp_wave_rider.Text.{Text, codes, text_eq}
use esp_wave_rider.Text.Laws.{text_eq→eq, text_eq_refl}
use esp_wave_rider.Text.Results.{Result, ok, err}
use esp_wave_rider.Release.{DownloadUrlScheme, http, https, ParsedDownloadUrl, parse_download_url}
use esp_wave_rider.Update.{FirmwareSyncState}
use esp_wave_rider.Update.Attempts.{
  service_firmware_sync, Downloads, Download, staged, failed, tls_init_failed, finish_sync,
  try_candidates, after_attempt, attempt, firmware_release_download_url_candidates,
}
use esp_wave_rider.Update.States.{IsConsistent}

-- Whether a URL of the scheme is downloaded at all.
abbrev pub Enabled : Downloads → DownloadUrlScheme → Type 0
Enabled d http = Unit {0}
Enabled d https = (d.https_ota ≡ true) × (d.tls_ready ≡ true)

-- The download of the URL ends with `result`.
abbrev pub Answers : Downloads → Text → ParsedDownloadUrl → Result ℕ → Type 0
Answers d url p result =
    (parse_download_url url ≡ some p) × Enabled d p.scheme × (d.perform p ≡ result)

abbrev pub not_found : Result ℕ
not_found = err (codes "firmware_http_not_found")

-- The URL is tried and not found.
abbrev pub Missing : Downloads → Text → Type 0
Missing d url = (p : ParsedDownloadUrl) × Answers d url p not_found

-- The candidate whose image is staged: those before it are not found.
pub record Staged (d : Downloads) (urls : List Text) (bytes : ℕ) (scheme : DownloadUrlScheme)
    : Type 0 where
  pub before : List Text
  pub url : Text
  pub after : List Text
  pub parsed : ParsedDownloadUrl
  pub listed : urls ≡ before ++ url ∷ after
  pub missing : All (Missing d) before
  pub answers : Answers d url parsed (ok bytes)
  pub same_scheme : parsed.scheme ≡ scheme

attempt-Enabled :
    (d : Downloads) (p : ParsedDownloadUrl) (scheme : DownloadUrlScheme) (later : Text → Download)
    → Enabled d scheme
    → attempt d p scheme later ≡ after_attempt scheme (d.perform p) later
attempt-Enabled d p http later e = refl
attempt-Enabled d p https later e = rw (e.0, e.1) refl

try_candidates-answer :
    (d : Downloads) (url : Text) (urls : List Text) (last : Option Text) (p : ParsedDownloadUrl)
    (r : Result ℕ)
    → Answers d url p r
    → try_candidates d (url ∷ urls) last
      ≡ after_attempt p.scheme r (λ error. try_candidates d urls (some error))
unfolding try_candidates
try_candidates-answer d url urls last p r (parsed, enabled, performed) = rw parsed (
    attempt-Enabled d p p.scheme (λ error. try_candidates d urls (some error)) enabled
    ∙ ap (λ t. after_attempt p.scheme t (λ error. try_candidates d urls (some error))) performed)

-- The first candidate that is not missing decides.
try_candidates-staged :
    (d : Downloads) (before : List Text) (url : Text) (after : List Text) (last : Option Text)
    (p : ParsedDownloadUrl) (n : ℕ)
    → All (Missing d) before
    → Answers d url p (ok n)
    → try_candidates d (before ++ url ∷ after) last ≡ staged n p.scheme
try_candidates-staged d [] url after last p n h a =
    try_candidates-answer d url after last p (ok n) a
try_candidates-staged d (u ∷ before) url after last p n (missing, h) a =
    let (q, answer) = missing in
    try_candidates-answer d u (before ++ url ∷ after) last q not_found answer
    ∙ skipped q.scheme
    ∙ try_candidates-staged d before url after (some (codes "firmware_http_not_found")) p n h a
  where
    skipped :
        (scheme : DownloadUrlScheme)
        → after_attempt scheme not_found
            (λ error. try_candidates d (before ++ url ∷ after) (some error))
          ≡ try_candidates d (before ++ url ∷ after) (some (codes "firmware_http_not_found"))
    skipped scheme = rw (text_eq_refl (codes "firmware_http_not_found")) refl

-- How an attempt can end in a staged image.
abbrev Ends :
    Downloads
    → ParsedDownloadUrl
    → DownloadUrlScheme
    → (Text → Download)
    → ℕ
    → DownloadUrlScheme
    → Type 0
Ends d p scheme later n s =
    ((d.perform p ≡ ok n) × (scheme ≡ s))
    ⊎ ((d.perform p ≡ not_found) × (later (codes "firmware_http_not_found") ≡ staged n s))

after_attempt-Ends :
    (d : Downloads) (p : ParsedDownloadUrl) (scheme : DownloadUrlScheme) (r : Result ℕ)
    (later : Text → Download) (n : ℕ) (s : DownloadUrlScheme)
    → d.perform p ≡ r
    → after_attempt scheme r later ≡ staged n s
    → Ends d p scheme later n s
after_attempt-Ends d p scheme (ok m) later n s performed e =
    let same : m ≡ n = ground arith in inl (performed ∙ ap ok same, ground arith)
after_attempt-Ends d p scheme (err error) later n s performed e =
    elim (Bool-cases (text_eq error (codes "firmware_http_not_found"))) [
      | inr other ↦ absurd (ground arith)
      | inl missing ↦
          let same = text_eq→eq error (codes "firmware_http_not_found") missing in
          let went_on : later error ≡ staged n s = rw missing at e in
          inr (performed ∙ ap err same, subst (λ t. later t ≡ staged n s) same went_on)
    ]

attempt-Ends :
    (d : Downloads) (p : ParsedDownloadUrl) (scheme : DownloadUrlScheme) (later : Text → Download)
    (n : ℕ) (s : DownloadUrlScheme)
    → attempt d p scheme later ≡ staged n s
    → Enabled d scheme × Ends d p scheme later n s
attempt-Ends d p http later n s e = (tt, after_attempt-Ends d p http (d.perform p) later n s refl e)
attempt-Ends d p https later n s e = elim (Bool-cases d.https_ota) [
  | inr disabled ↦ absurd (ground arith)
  | inl enabled ↦ elim (Bool-cases d.tls_ready) [
    | inr unready ↦ absurd (ground arith)
    | inl ready ↦ (
      (enabled, ready),
      after_attempt-Ends d p https (d.perform p) later n s refl
          (sym (attempt-Enabled d p https later (enabled, ready)) ∙ e),
    )
  ]
]

try_candidates-Staged :
    (d : Downloads) (urls : List Text) (last : Option Text) (n : ℕ) (s : DownloadUrlScheme)
    → try_candidates d urls last ≡ staged n s
    → Staged d urls n s
unfolding try_candidates
try_candidates-Staged d [] last n s e = absurd (ground arith)
try_candidates-Staged d (url ∷ urls) last n s e = elim (Option-cases (parse_download_url url)) [
  | inl invalid ↦ absurd (ground arith)
  | inr (p, parsed) ↦
      let (enabled, ends) =
        attempt-Ends d p p.scheme (λ error. try_candidates d urls (some error)) n s
          (rw parsed at e) in
      elim ends [
        | inl (performed, same) ↦ record {
          before = [];
          url = url;
          after = urls;
          parsed = p;
          listed = refl;
          missing = tt;
          answers = (parsed, enabled, performed);
          same_scheme = same;
        }
        | inr (missing, went_on) ↦
            let rest =
              try_candidates-Staged d urls (some (codes "firmware_http_not_found")) n s went_on in
            record {
              before = url ∷ rest.before;
              url = rest.url;
              after = rest.after;
              parsed = rest.parsed;
              listed = ap (λ l. url ∷ l) rest.listed;
              missing = ((p, (parsed, enabled, missing)), rest.missing);
              answers = rest.answers;
              same_scheme = rest.same_scheme;
            }
      ]
]

abbrev pub candidates : FirmwareSyncState → List Text
candidates f = firmware_release_download_url_candidates f.target_version f.download_url

finish_sync-staged :
    (f : FirmwareSyncState) (uptime_ms : ℕ) (r : Download)
    → f.last_success ≡ false
    → (finish_sync f uptime_ms r).last_success ≡ true
    → (n : ℕ) × (scheme : DownloadUrlScheme) × (r ≡ staged n scheme)
finish_sync-staged f uptime_ms (staged n scheme) s e = (n, scheme, refl)
finish_sync-staged f uptime_ms (failed none) s e = absurd (ground arith)
finish_sync-staged f uptime_ms (failed (some error)) s e = absurd (ground arith)
finish_sync-staged f uptime_ms tls_init_failed s e = absurd (ground arith)

-- The service of a queued update reports success exactly if one of the update's candidate URLs can
-- be parsed and may be downloaded, its download stages an image, and every candidate before it was
-- tried and not found.
pub service_firmware_sync_succeeds_iff :
    (d : Downloads) (f : FirmwareSyncState) (uptime_ms : ℕ)
    → IsConsistent f
    → f.pending ≡ true
    → ((service_firmware_sync d f uptime_ms).last_success ≡ true)
      ↔ ((bytes : ℕ) × (scheme : DownloadUrlScheme) × Staged d (candidates f) bytes scheme)
unfolding service_firmware_sync
service_firmware_sync_succeeds_iff d f uptime_ms h queued =
    let started = record f {
      pending = false;
      in_progress = true;
      last_success = false;
      last_started_ms = uptime_ms;
    } in
    rw (queued, h.idle, h.resolvable queued)
      (
        λ success.
            let (n, scheme, found) =
              finish_sync-staged started uptime_ms (try_candidates d (candidates f) none) refl
                success in
            (n, scheme, try_candidates-Staged d (candidates f) none n scheme found),
        λ (n, scheme, found).
            let all : try_candidates d (candidates f) none ≡ staged n found.parsed.scheme =
              ap (λ urls. try_candidates d urls none) found.listed
              ∙ (try_candidates-staged d found.before found.url found.after none found.parsed n
                  found.missing found.answers) in
            rw all refl,
      )
