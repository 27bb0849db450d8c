-- ===== src/Update/Highest.antt =====
-- The peer that the firmware offers to sync from.
use esp_wave_rider.Base.{ℕ, ◌≡◌, ◌⊎◌, true, List, [], ◌∷◌, All}
use esp_wave_rider.Base.Int.{pos, ◌≤ℤ◌}
use esp_wave_rider.Text.{Text}
use esp_wave_rider.Release.{semantic_version_core}
use esp_wave_rider.Release.Compare.{compare_semantic_versions}
use esp_wave_rider.Peers.{UdpDiscoveryPeerState}
use esp_wave_rider.Update.{HighestPeer, is_candidate_peer}

abbrev pub NotAfter : Text → Text → Type 0
NotAfter left right = compare_semantic_versions left right ≤ℤ pos 0

-- The peer whose version is the highest one, among the candidates.
abbrev pub Found : ℕ → HighestPeer → List UdpDiscoveryPeerState → Type 0
Found uptime_ms best [] = ⊥
Found uptime_ms best (peer ∷ peers) =
    ((is_candidate_peer uptime_ms peer ≡ true)
      × (best.node_id ≡ peer.node_id)
      × (best.version ≡ semantic_version_core peer.firmware_version))
    ⊎ Found uptime_ms best peers

abbrev pub NoneAfter : ℕ → Text → List UdpDiscoveryPeerState → Type 0
NoneAfter uptime_ms version peers =
    All
      (λ peer.
        is_candidate_peer uptime_ms peer ≡ true
        → NotAfter (semantic_version_core peer.firmware_version) version)
      peers

record Scanned (uptime_ms : ℕ) (best : HighestPeer) (peers : List UdpDiscoveryPeerState)
    (result : HighestPeer) : Type 0 where
  above : NotAfter best.version result.version
  none_after : NoneAfter uptime_ms result.version peers
  origin : (result ≡ best) ⊎ Found uptime_ms result peers
