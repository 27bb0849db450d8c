-- ===== src/Peers/Sync.antt =====
-- What an announcement does to the entries of the table, looked up by the node's name.
use esp_wave_rider.Base.{ℕ, ◌≤◌, ◌≡◌, ◌≢◌, Option, none, some, List, length, ◌⊎◌, ◌<◌}
use esp_wave_rider.Text.{Text}
use esp_wave_rider.Peers.{UdpDiscoveryPeerState, refresh_peer, max_udp_discovery_peers}
use esp_wave_rider.Peers.Oldest.{OldestAt}
use esp_wave_rider.Peers.Find.{find_peer}

-- The entry that an announcement leaves: a known node keeps what its room summaries said.
abbrev pub listed_entry :
    UdpDiscoveryPeerState → Option UdpDiscoveryPeerState → UdpDiscoveryPeerState
listed_entry peer none = peer
listed_entry peer (some existing) = refresh_peer peer existing

-- The table has the node already, or a free place.
abbrev pub HasPlace : Text → List UdpDiscoveryPeerState → Type 0
HasPlace n before =
    ((existing : UdpDiscoveryPeerState) × (find_peer n before ≡ some existing))
    ⊎ (length before < max_udp_discovery_peers)

-- The node is new to a full table. The oldest entry is gone; what the others are now is `shown` of
-- what they were.
pub record Evicted (shown : Option UdpDiscoveryPeerState → Option UdpDiscoveryPeerState) (n : Text)
    (before after : List UdpDiscoveryPeerState) : Type 0 where
  pub unknown : find_peer n before ≡ none
  pub full : max_udp_discovery_peers ≤ length before
  pub index : ℕ
  pub peer : UdpDiscoveryPeerState
  pub oldest : OldestAt index peer before
  pub gone : find_peer peer.node_id after ≡ none
  pub others :
      (m : Text) → m ≢ n → m ≢ peer.node_id → find_peer m after ≡ shown (find_peer m before)

-- What becomes of the entries of other nodes.
abbrev pub Others :
    (Option UdpDiscoveryPeerState → Option UdpDiscoveryPeerState)
    → Text
    → List UdpDiscoveryPeerState
    → List UdpDiscoveryPeerState
    → Type 0
Others shown n before after =
    (HasPlace n before × ((m : Text) → m ≢ n → find_peer m after ≡ shown (find_peer m before)))
    ⊎ Evicted shown n before after

abbrev same_entry : Option UdpDiscoveryPeerState → Option UdpDiscoveryPeerState
same_entry o = o

-- What becomes of the table's entries, before stale ones go.
abbrev Upserted :
    UdpDiscoveryPeerState → List UdpDiscoveryPeerState → List UdpDiscoveryPeerState → Type 0
Upserted peer before after =
    (find_peer peer.node_id after ≡ some (listed_entry peer (find_peer peer.node_id before)))
    × Others same_entry peer.node_id before after
