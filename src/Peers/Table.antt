-- ===== src/Peers/Table.antt =====
-- The table of peers stays a table: one entry for each node, twelve at most, none for this node.
use esp_wave_rider.Base.{
  ℕ, zero, suc, ◌+◌, ◌≤◌, ◌<◌, ◌≡◌, ◌≢◌, refl, sym, ap, ◌∙◌, subst, true, none, List, [], ◌∷◌, ◌++◌,
  length, All, All-append, length-append, leb, arith, Bool-cases, Option-cases, inl, inr,
}
use esp_wave_rider.Text.{Text, text_eq}
use esp_wave_rider.Text.Laws.{text_eq_refl}
use esp_wave_rider.Peers.{
  UdpDiscoveryPeerState, position, modify_at, remove_at, oldest_peer, oldest_peer_from, make_room,
  retain_fresh, is_fresh, max_udp_discovery_peers,
}

-- No entry of the table is for this node.
abbrev pub Absent : Text → List UdpDiscoveryPeerState → Type 0
Absent node_id peers = All (λ peer. peer.node_id ≢ node_id) peers

abbrev pub IsUnique : List UdpDiscoveryPeerState → Type 0
IsUnique [] = Unit
IsUnique (peer ∷ peers) = Absent peer.node_id peers × IsUnique peers

abbrev Named : Text → List UdpDiscoveryPeerState → Type 0
Named own peers = All (λ peer. (peer.node_id ≢ []) × (peer.node_id ≢ own)) peers

pub record IsTable (own : Text) (peers : List UdpDiscoveryPeerState) : Type 0 where
  pub bounded : length peers ≤ max_udp_discovery_peers
  pub unique : IsUnique peers
  pub named : Named own peers

pub position-Absent :
    (node_id : Text) (peers : List UdpDiscoveryPeerState)
    → position node_id peers ≡ none
    → Absent node_id peers
unfolding position
position-Absent node_id [] h = tt
position-Absent node_id (peer ∷ peers) h = elim (Bool-cases (text_eq peer.node_id node_id)) [
  | inl same ↦ absurd (ground arith)
  | inr differs ↦ (
    λ e. absurd (
        let eq : text_eq peer.node_id node_id ≡ true = rw e (text_eq_refl node_id) in ground arith),
    position-Absent node_id peers (elim (Option-cases (position node_id peers)) [
      | inl none_later ↦ none_later
      | inr (i, later) ↦ absurd (ground arith)
    ]),
  )
]

-- `All` under the operations on the list.
module _ {κ} (P : UdpDiscoveryPeerState → Type κ) where
  All-remove_at :
      (index : ℕ) (peers : List UdpDiscoveryPeerState) → All P peers → All P (remove_at index peers)
  unfolding remove_at
  All-remove_at index [] h = tt
  All-remove_at zero (peer ∷ peers) h = h.1
  All-remove_at (suc index) (peer ∷ peers) h = (h.0, All-remove_at index peers h.1)

  All-make_room : (peers : List UdpDiscoveryPeerState) → All P peers → All P (make_room peers)
  unfolding make_room
  All-make_room peers h = elim (Bool-cases (leb 12 (length peers))) [
    | inl full ↦ rw full (All-remove_at (oldest_peer peers) peers h)
    | inr free ↦ rw free h
  ]

  All-retain_fresh :
      (uptime_ms : ℕ) (peers : List UdpDiscoveryPeerState)
      → All P peers
      → All P (retain_fresh uptime_ms peers)
  unfolding retain_fresh
  All-retain_fresh uptime_ms [] h = tt
  All-retain_fresh uptime_ms (peer ∷ peers) h = elim (Bool-cases (is_fresh uptime_ms peer)) [
    | inl fresh ↦ rw fresh (h.0, All-retain_fresh uptime_ms peers h.1)
    | inr stale ↦ rw stale (All-retain_fresh uptime_ms peers h.1)
  ]

  All-modify_at :
      (index : ℕ) (f : UdpDiscoveryPeerState → UdpDiscoveryPeerState)
      (peers : List UdpDiscoveryPeerState)
      → ((peer : UdpDiscoveryPeerState) → P peer → P (f peer))
      → All P peers
      → All P (modify_at index f peers)
  unfolding modify_at
  All-modify_at index f [] keep h = tt
  All-modify_at zero f (peer ∷ peers) keep h = (keep peer h.0, h.1)
  All-modify_at (suc index) f (peer ∷ peers) keep h = (h.0, All-modify_at index f peers keep h.1)

IsUnique-remove_at :
    (index : ℕ) (peers : List UdpDiscoveryPeerState)
    → IsUnique peers
    → IsUnique (remove_at index peers)
unfolding remove_at
IsUnique-remove_at index [] h = tt
IsUnique-remove_at zero (peer ∷ peers) h = h.1
IsUnique-remove_at (suc index) (peer ∷ peers) h = (
  All-remove_at (λ q. q.node_id ≢ peer.node_id) index peers h.0,
  IsUnique-remove_at index peers h.1,
)

IsUnique-retain_fresh :
    (uptime_ms : ℕ) (peers : List UdpDiscoveryPeerState)
    → IsUnique peers
    → IsUnique (retain_fresh uptime_ms peers)
unfolding retain_fresh
IsUnique-retain_fresh uptime_ms [] h = tt
IsUnique-retain_fresh uptime_ms (peer ∷ peers) h = elim (Bool-cases (is_fresh uptime_ms peer)) [
  | inl fresh ↦ rw fresh (
    All-retain_fresh (λ q. q.node_id ≢ peer.node_id) uptime_ms peers h.0,
    IsUnique-retain_fresh uptime_ms peers h.1,
  )
  | inr stale ↦ rw stale (IsUnique-retain_fresh uptime_ms peers h.1)
]

IsUnique-push :
    (peers : List UdpDiscoveryPeerState) (new : UdpDiscoveryPeerState)
    → Absent new.node_id peers
    → IsUnique peers
    → IsUnique (peers ++ new ∷ [])
IsUnique-push [] new a h = (tt, tt)
IsUnique-push (peer ∷ peers) new a h = (
  All-append (λ q. q.node_id ≢ peer.node_id) peers (new ∷ []) h.0 (λ e. a.0 (sym e), tt),
  IsUnique-push peers new a.1 h.1,
)

IsUnique-modify_at :
    (index : ℕ) (f : UdpDiscoveryPeerState → UdpDiscoveryPeerState)
    (peers : List UdpDiscoveryPeerState)
    → ((peer : UdpDiscoveryPeerState) → (f peer).node_id ≡ peer.node_id)
    → IsUnique peers
    → IsUnique (modify_at index f peers)
unfolding modify_at
IsUnique-modify_at index f [] same h = tt
IsUnique-modify_at zero f (peer ∷ peers) same h =
    (subst (λ n. Absent n peers) (sym (same peer)) h.0, h.1)
IsUnique-modify_at (suc index) f (peer ∷ peers) same h = (
  All-modify_at (λ q. q.node_id ≢ peer.node_id) index f peers (λ q d e. d (sym (same q) ∙ e)) h.0,
  IsUnique-modify_at index f peers same h.1,
)

length-remove_at :
    (index : ℕ) (peers : List UdpDiscoveryPeerState)
    → index < length peers
    → length (remove_at index peers) + 1 ≡ length peers
unfolding remove_at
length-remove_at index [] h = elim h [ ]
length-remove_at zero (peer ∷ peers) h = omega arith
length-remove_at (suc index) (peer ∷ peers) h =
    omega (arith, length-remove_at index peers (omega arith))

length-modify_at :
    (index : ℕ) (f : UdpDiscoveryPeerState → UdpDiscoveryPeerState)
    (peers : List UdpDiscoveryPeerState)
    → length (modify_at index f peers) ≡ length peers
unfolding modify_at
length-modify_at index f [] = refl
length-modify_at zero f (peer ∷ peers) = refl
length-modify_at (suc index) f (peer ∷ peers) = ap suc (length-modify_at index f peers)

length-retain_fresh :
    (uptime_ms : ℕ) (peers : List UdpDiscoveryPeerState)
    → length (retain_fresh uptime_ms peers) ≤ length peers
unfolding retain_fresh
length-retain_fresh uptime_ms [] = omega arith
length-retain_fresh uptime_ms (peer ∷ peers) = ground (arith, length-retain_fresh uptime_ms peers)

oldest_peer_from-lt :
    (peers : List UdpDiscoveryPeerState) (index best best_ms : ℕ)
    → best < index
    → oldest_peer_from peers index best best_ms < index + length peers
unfolding oldest_peer_from
oldest_peer_from-lt [] index best best_ms h = omega arith
oldest_peer_from-lt (peer ∷ peers) index best best_ms h = ground (
  arith,
  oldest_peer_from-lt peers (index + 1) index peer.last_seen_ms,
  oldest_peer_from-lt peers (index + 1) best best_ms,
)

oldest_peer-lt :
    (peers : List UdpDiscoveryPeerState) → 0 < length peers → oldest_peer peers < length peers
unfolding oldest_peer
oldest_peer-lt [] h = elim h [ ]
oldest_peer-lt (peer ∷ peers) h =
    omega (arith, oldest_peer_from-lt peers 1 0 peer.last_seen_ms (omega arith))

-- Room is made for one more entry.
length-make_room :
    (peers : List UdpDiscoveryPeerState)
    → length peers ≤ max_udp_discovery_peers
    → length (make_room peers) < max_udp_discovery_peers
unfolding make_room
length-make_room peers h = elim (Bool-cases (leb 12 (length peers))) [
  | inl full ↦ rw full (
      let inside = oldest_peer-lt peers (ground arith) in
      omega (arith, length-remove_at (oldest_peer peers) peers inside))
  | inr free ↦ rw free (ground arith)
]

IsUnique-make_room :
    (peers : List UdpDiscoveryPeerState) → IsUnique peers → IsUnique (make_room peers)
unfolding make_room
IsUnique-make_room peers h = elim (Bool-cases (leb 12 (length peers))) [
  | inl full ↦ rw full (IsUnique-remove_at (oldest_peer peers) peers h)
  | inr free ↦ rw free h
]

-- An entry of a node that has none is pushed, once there is room.
pub push-IsTable :
    (own : Text) (peers : List UdpDiscoveryPeerState) (new : UdpDiscoveryPeerState)
    → new.node_id ≢ []
    → new.node_id ≢ own
    → position new.node_id peers ≡ none
    → IsTable own peers
    → IsTable own (make_room peers ++ new ∷ [])
push-IsTable own peers new given other missing t =
    let room = length-make_room peers t.bounded in
    let absent = position-Absent new.node_id peers missing in
    record {
      bounded = omega (arith, length-append (make_room peers) (new ∷ []));
      unique =
          IsUnique-push (make_room peers) new
            (All-make_room (λ q. q.node_id ≢ new.node_id) peers absent)
            (IsUnique-make_room peers t.unique);
      named =
          All-append (λ q. (q.node_id ≢ []) × (q.node_id ≢ own)) (make_room peers) (new ∷ [])
            (All-make_room (λ q. (q.node_id ≢ []) × (q.node_id ≢ own)) peers t.named)
            ((given, other), tt);
    }

pub modify_at-IsTable :
    (own : Text) (index : ℕ) (f : UdpDiscoveryPeerState → UdpDiscoveryPeerState)
    (peers : List UdpDiscoveryPeerState)
    → ((peer : UdpDiscoveryPeerState) → (f peer).node_id ≡ peer.node_id)
    → IsTable own peers
    → IsTable own (modify_at index f peers)
modify_at-IsTable own index f peers same t = record {
  bounded = omega (arith, length-modify_at index f peers, t.bounded);
  unique = IsUnique-modify_at index f peers same t.unique;
  named =
      All-modify_at (λ q. (q.node_id ≢ []) × (q.node_id ≢ own)) index f peers
        (λ q d. (λ e. d.0 (sym (same q) ∙ e), λ e. d.1 (sym (same q) ∙ e))) t.named;
}

pub retain_fresh-IsTable :
    (own : Text) (uptime_ms : ℕ) (peers : List UdpDiscoveryPeerState)
    → IsTable own peers
    → IsTable own (retain_fresh uptime_ms peers)
retain_fresh-IsTable own uptime_ms peers t = record {
  bounded = omega (arith, length-retain_fresh uptime_ms peers, t.bounded);
  unique = IsUnique-retain_fresh uptime_ms peers t.unique;
  named = All-retain_fresh (λ q. (q.node_id ≢ []) × (q.node_id ≢ own)) uptime_ms peers t.named;
}
