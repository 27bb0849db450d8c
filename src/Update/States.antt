-- ===== src/Update/States.antt =====
-- The states that the firmware update reaches, and that a queued update is always resolved.
use esp_wave_rider.Base.{
  ℕ, ◌≡◌, refl, sym, subst, inl, inr, true, false, ◌||◌, none, some, List, [], arith, Bool-cases,
}
use esp_wave_rider.Base.Int.{pos, leb_ℤ}
use esp_wave_rider.Text.{Text, codes, is_empty, trim, trim_start, trim_end, is_whitespace}
use esp_wave_rider.Release.{
  semantic_version_core, firmware_release_asset_url, firmware_release_asset_name,
}
use esp_wave_rider.Release.Version.{semantic_version_core_idempotent}
use esp_wave_rider.Release.Compare.{compare_semantic_versions}
use esp_wave_rider.Peers.{UdpDiscoveryPeerState}
use esp_wave_rider.Update.{
  FirmwareSyncState, default_sync_state, request_firmware_update, request_firmware_sync,
  firmware_sync_snapshot, highest_peer, no_peer, rust_build_target, firmware_release_repo_owner,
  firmware_release_repo_name,
}
use esp_wave_rider.Update.Attempts.{
  service_firmware_sync, Downloads, Download, staged, failed, tls_init_failed, finish_sync,
  try_candidates, firmware_release_download_url_candidates,
}

abbrev pub release_url : Text → Text
release_url version =
    firmware_release_asset_url firmware_release_repo_owner firmware_release_repo_name version
      rust_build_target

pub record IsConsistent (f : FirmwareSyncState) : Type 0 where
  pub idle : f.in_progress ≡ false
  pub release : f.pending ≡ true → semantic_version_core f.target_version ≡ f.target_version
  pub url : f.pending ≡ true → f.download_url ≡ release_url f.target_version
  pub resolvable : f.pending ≡ true → is_empty f.download_url ≡ false
  pub no_error : f.last_success ≡ true → f.last_error ≡ []
  pub not_queued : f.last_success ≡ true → f.pending ≡ false

-- A request for a version, a request for the peers' highest version, and a turn of the main loop.
pub data Step (f : FirmwareSyncState) : FirmwareSyncState → Type 0 where
  update :
      (version node_id source : Text) → Step f (request_firmware_update f version node_id source)
  sync :
      (firmware_version : Text) (peers : List UdpDiscoveryPeerState) (uptime_ms : ℕ)
      → Step f (request_firmware_sync firmware_version f peers uptime_ms)
  service : (d : Downloads) (uptime_ms : ℕ) → Step f (service_firmware_sync d f uptime_ms)

pub data Reach (f : FirmwareSyncState) : FirmwareSyncState → Type 0 where
  here : Reach f f
  next : {g h : FirmwareSyncState} → Reach f g → Step g h → Reach f h

pub asset_name_given :
    (version : Text)
    → is_empty (semantic_version_core version) ≡ false
    → is_empty (firmware_release_asset_name version rust_build_target (codes ".bin")) ≡ false
unfolding firmware_release_asset_name trim trim_start trim_end is_whitespace
asset_name_given version h = rw h refl

-- A release has a URL.
release_url_given :
    (version : Text)
    → semantic_version_core version ≡ version
    → is_empty version ≡ false
    → is_empty (release_url version) ≡ false
unfolding firmware_release_asset_url trim trim_start trim_end is_whitespace
release_url_given version core given =
    let named = asset_name_given version (rw core given) in rw (core, given, named) refl

pub request_firmware_update-IsConsistent :
    (f : FirmwareSyncState) (version node_id source : Text)
    → IsConsistent f
    → IsConsistent (request_firmware_update f version node_id source)
unfolding request_firmware_update
request_firmware_update-IsConsistent f version node_id source h =
    let core = semantic_version_core version in
    let busy = f.pending || f.in_progress in
    elim (Bool-cases (is_empty core)) [
      | inl missing ↦ rw missing (record {
        idle = h.idle;
        release = h.release;
        url = h.url;
        resolvable = h.resolvable;
        no_error = λ e. absurd (ground arith);
        not_queued = λ e. absurd (ground arith);
      })
      | inr given ↦ elim (Bool-cases busy) [
        | inl queued ↦
            rw (given, queued)
              (record {
                idle = h.idle;
                release = h.release;
                url = h.url;
                resolvable = h.resolvable;
                no_error = λ e. absurd (ground arith);
                not_queued = λ e. absurd (ground arith);
              })
        | inr free ↦
            let same = (semantic_version_core_idempotent version).1 in
            rw (given, free)
              (record {
                idle = h.idle;
                release = λ e. same;
                url = λ e. refl;
                resolvable = λ e. release_url_given core same given;
                no_error = λ e. refl;
                not_queued = λ e. absurd (ground arith);
              })
      ]
    ]

pub request_firmware_sync-IsConsistent :
    (firmware_version : Text) (f : FirmwareSyncState) (peers : List UdpDiscoveryPeerState)
    (uptime_ms : ℕ)
    → IsConsistent f
    → IsConsistent (request_firmware_sync firmware_version f peers uptime_ms)
unfolding request_firmware_sync firmware_sync_snapshot
request_firmware_sync-IsConsistent firmware_version f peers uptime_ms h =
    let highest = highest_peer uptime_ms no_peer peers in
    let order =
      compare_semantic_versions highest.version (semantic_version_core firmware_version) in
    elim (Bool-cases (is_empty highest.version)) [
      | inl nobody ↦ rw nobody (record {
        idle = h.idle;
        release = λ e. absurd (ground arith);
        url = λ e. absurd (ground arith);
        resolvable = λ e. absurd (ground arith);
        no_error = λ e. absurd (ground arith);
        not_queued = λ e. absurd (ground arith);
      })
      | inr somebody ↦ elim (Bool-cases (leb_ℤ order (pos 0))) [
        | inl newest ↦
            rw (somebody, newest)
              (record {
                idle = h.idle;
                release = λ e. absurd (ground arith);
                url = λ e. absurd (ground arith);
                resolvable = λ e. absurd (ground arith);
                no_error = λ e. refl;
                not_queued = λ e. refl;
              })
        | inr older ↦
            rw (somebody, older)
              (request_firmware_update-IsConsistent f highest.version highest.node_id highest.source
                h)
      ]
    ]

-- What the service leaves, whatever the loop over the candidates ended with.
abbrev pub IsResolved : ℕ → FirmwareSyncState → Type 0
IsResolved uptime_ms f =
    (f.in_progress ≡ false)
    × (f.pending ≡ false)
    × (f.last_started_ms ≡ uptime_ms)
    × (f.last_completed_ms ≡ uptime_ms)
    × (f.last_success ≡ true → f.last_error ≡ [])

pub finish_sync-IsResolved :
    (f : FirmwareSyncState) (uptime_ms : ℕ) (result : Download)
    → f.pending ≡ false
    → f.last_success ≡ false
    → f.last_started_ms ≡ uptime_ms
    → IsResolved uptime_ms (finish_sync f uptime_ms result)
finish_sync-IsResolved f uptime_ms (staged n scheme) p s t = (refl, p, t, refl, λ e. refl)
finish_sync-IsResolved f uptime_ms (failed none) p s t =
    (refl, p, t, refl, λ e. absurd (ground arith))
finish_sync-IsResolved f uptime_ms (failed (some error)) p s t =
    (refl, p, t, refl, λ e. absurd (ground arith))
finish_sync-IsResolved f uptime_ms tls_init_failed p s t =
    (refl, p, t, refl, λ e. absurd (ground arith))

-- A service with nothing queued changes nothing.
service_idle :
    (d : Downloads) (f : FirmwareSyncState) (uptime_ms : ℕ)
    → f.pending ≡ false
    → service_firmware_sync d f uptime_ms ≡ f
unfolding service_firmware_sync
service_idle d f uptime_ms nothing = rw nothing refl

resolve :
    (d : Downloads) (f : FirmwareSyncState) (uptime_ms : ℕ)
    → IsConsistent f
    → f.pending ≡ true
    → IsResolved uptime_ms (service_firmware_sync d f uptime_ms)
unfolding service_firmware_sync
resolve d f uptime_ms h queued =
    rw (queued, h.idle, h.resolvable queued)
      (finish_sync-IsResolved
        (record f {
          pending = false;
          in_progress = true;
          last_success = false;
          last_started_ms = uptime_ms;
        })
        uptime_ms
        (try_candidates d (firmware_release_download_url_candidates f.target_version f.download_url)
          none)
        refl refl refl)

pub service_firmware_sync-IsConsistent :
    (d : Downloads) (f : FirmwareSyncState) (uptime_ms : ℕ)
    → IsConsistent f
    → IsConsistent (service_firmware_sync d f uptime_ms)
service_firmware_sync-IsConsistent d f uptime_ms h = elim (Bool-cases f.pending) [
  | inr nothing ↦ subst IsConsistent (sym (service_idle d f uptime_ms nothing)) h
  | inl queued ↦
      let (idle, taken, started, ended, fine) = resolve d f uptime_ms h queued in
      record {
        idle = idle;
        release = λ e. absurd (ground arith);
        url = λ e. absurd (ground arith);
        resolvable = λ e. absurd (ground arith);
        no_error = fine;
        not_queued = λ e. taken;
      }
]

Step-IsConsistent : {f g : FirmwareSyncState} → Step f g → IsConsistent f → IsConsistent g
Step-IsConsistent {f} (update version node_id source) h =
    request_firmware_update-IsConsistent f version node_id source h
Step-IsConsistent {f} (sync firmware_version peers uptime_ms) h =
    request_firmware_sync-IsConsistent firmware_version f peers uptime_ms h
Step-IsConsistent {f} (service d uptime_ms) h = service_firmware_sync-IsConsistent d f uptime_ms h

pub default-IsConsistent : IsConsistent default_sync_state
default-IsConsistent = record {
  idle = refl;
  release = λ e. absurd (ground arith);
  url = λ e. absurd (ground arith);
  resolvable = λ e. absurd (ground arith);
  no_error = λ e. refl;
  not_queued = λ e. refl;
}

-- In every state that requests and services reach from the start, no update is in progress; a
-- queued one has a release as its target and that release's URL, which is not empty; and success is
-- reported only with no error and an empty queue.
pub Reach-IsConsistent : {f : FirmwareSyncState} → Reach default_sync_state f → IsConsistent f
Reach-IsConsistent here = default-IsConsistent
Reach-IsConsistent (next r step) = Step-IsConsistent step (Reach-IsConsistent r)
