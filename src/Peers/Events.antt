-- ===== src/Peers/Events.antt =====
-- The events that change the table of peers, in any order, and what every reachable table satisfies.
use esp_wave_rider.Base.{
  ℕ, ◌-◌, ◌≡◌, ◌≢◌, refl, Bool, true, false, ◌&&◌, Option, none, some, List, [], ◌∷◌, leb, arith,
  Bool-cases, Option-cases, inl, inr, ◌||◌, ◌⊎◌, All, All-map, subst, sym,
}
use esp_wave_rider.Text.{Text, codes, text_eq, is_empty, is_some}
use esp_wave_rider.Text.Laws.{text_eq_refl}
use esp_wave_rider.Json.{json_field_string}
use esp_wave_rider.Mqtt.Payload.{looks_like_room_summary_payload}
use esp_wave_rider.Peers.{
  UdpDiscoveryPeerState, PeersState, position, announced_peer, refresh_peer, upsert_peer, is_text,
  other_node, after_announcement, sync_udp_discovery_peer,
}
use esp_wave_rider.Peers.Summaries.{
  blank_peer, summarise_peer, with_entry, after_summary, sync_room_summary_peer,
  clear_udp_discovery_peers, drop_stale_peers, receive_payloads, process_udp_discovery,
}
use esp_wave_rider.Peers.Table.{
  Absent, position-Absent, IsTable, push-IsTable, modify_at-IsTable, retain_fresh-IsTable,
}

-- An announcement or a room summary arrives, over UDP or MQTT; stale entries go; the table is
-- cleared; the own announcement is sent; new settings name the node and its room, as
-- `initialize_device_identity`, `apply_home_assistant_config` and `apply_room_config` do, which leave
-- the table as it is.
pub data Step (s : PeersState) : PeersState → Type 0 where
  announcement :
      (payload : Text) (uptime_ms : ℕ) → Step s (sync_udp_discovery_peer s payload uptime_ms)
  summary : (payload : Text) (uptime_ms : ℕ) → Step s (sync_room_summary_peer s payload uptime_ms)
  aged : (uptime_ms : ℕ) → Step s (drop_stale_peers s uptime_ms)
  cleared : Step s (clear_udp_discovery_peers s)
  announced : (uptime_ms : ℕ) → Step s (record s { last_udp_discovery_announce_ms = uptime_ms })
  configured : (node_id room_id : Text) → Step s (record s { node_id = node_id; room_id = room_id })

pub data Reach (s : PeersState) : PeersState → Type 0 where
  here : Reach s s
  next : {t u : PeersState} → Reach s t → Step t u → Reach s u

-- The node takes a name that is listed as another node's.
abbrev takes_peer_name : {s t : PeersState} → Step s t → Bool
takes_peer_name {s} (configured node_id room_id) = is_some (position node_id s.udp_discovery_peers)
takes_peer_name _ = false

abbrev pub clashes : {s t : PeersState} → Reach s t → Bool
clashes here = false
clashes (next r step) = takes_peer_name step || clashes r

-- A name that neither is empty nor the node's own is none of the names that a table excludes.
abbrev Excludes : PeersState → Text → Type 0
Excludes s own = (n : Text) → n ≢ [] → n ≢ s.node_id → n ≢ own

other_node-ne :
    (s : PeersState) (o : Option Text) (n : Text)
    → other_node s o ≡ some n
    → (n ≢ []) × (n ≢ s.node_id)
other_node-ne s none n h = absurd (ground arith)
other_node-ne s (some m) n h = (
  λ e. absurd (let empty : is_empty n ≡ true = rw e in ground arith),
  λ e.
      absurd (let own : text_eq n s.node_id ≡ true = rw e (text_eq_refl s.node_id) in ground arith),
)

pub upsert_peer-IsTable :
    (own : Text) (peers : List UdpDiscoveryPeerState) (peer : UdpDiscoveryPeerState)
    → peer.node_id ≢ []
    → peer.node_id ≢ own
    → IsTable own peers
    → IsTable own (upsert_peer peer peers)
unfolding upsert_peer refresh_peer
upsert_peer-IsTable own peers peer given other t =
    elim (Option-cases (position peer.node_id peers)) [
      | inl missing ↦ rw missing (push-IsTable own peers peer given other missing t)
      | inr (index, found) ↦
          rw found (modify_at-IsTable own index (refresh_peer peer) peers (λ q. refl) t)
    ]

with_entry-IsTable :
    (own : Text) (peers : List UdpDiscoveryPeerState) (node_id : Text) (uptime_ms : ℕ)
    → node_id ≢ []
    → node_id ≢ own
    → IsTable own peers
    → IsTable own (with_entry (position node_id peers) node_id uptime_ms peers).1
unfolding with_entry blank_peer
with_entry-IsTable own peers node_id uptime_ms given other t =
    elim (Option-cases (position node_id peers)) [
      | inl missing ↦
          rw missing (push-IsTable own peers (blank_peer node_id uptime_ms) given other missing t)
      | inr (index, found) ↦ rw found t
    ]

after_announcement-IsTable :
    (s : PeersState) (own : Text) (payload : Text) (uptime_ms : ℕ) (o : Option Text)
    → ((n : Text) → o ≡ some n → (n ≢ []) × (n ≢ s.node_id))
    → Excludes s own
    → IsTable own s.udp_discovery_peers
    → IsTable own (after_announcement s payload uptime_ms o).udp_discovery_peers
unfolding announced_peer
after_announcement-IsTable s own payload uptime_ms none from_other excludes t = t
after_announcement-IsTable s own payload uptime_ms (some node_id) from_other excludes t =
    let (given, named) = from_other node_id refl in
    let other = excludes node_id given named in
    retain_fresh-IsTable own uptime_ms
      (upsert_peer (announced_peer payload node_id uptime_ms) s.udp_discovery_peers)
      (upsert_peer-IsTable own s.udp_discovery_peers (announced_peer payload node_id uptime_ms)
        given other t)

after_summary-IsTable :
    (s : PeersState) (own : Text) (payload : Text) (uptime_ms : ℕ) (o : Option Text)
    → ((n : Text) → o ≡ some n → (n ≢ []) × (n ≢ s.node_id))
    → Excludes s own
    → IsTable own s.udp_discovery_peers
    → IsTable own (after_summary s payload uptime_ms o).udp_discovery_peers
unfolding summarise_peer
after_summary-IsTable s own payload uptime_ms none from_other excludes t = t
after_summary-IsTable s own payload uptime_ms (some node_id) from_other excludes t =
    let (given, named) = from_other node_id refl in
    let other = excludes node_id given named in
    let peers = s.udp_discovery_peers in
    let entry = with_entry (position node_id peers) node_id uptime_ms peers in
    modify_at-IsTable own entry.0 (summarise_peer payload uptime_ms) entry.1 (λ q. refl)
      (with_entry-IsTable own peers node_id uptime_ms given other t)

sync_udp_discovery_peer-IsTable :
    (s : PeersState) (own payload : Text) (uptime_ms : ℕ)
    → Excludes s own
    → IsTable own s.udp_discovery_peers
    → IsTable own (sync_udp_discovery_peer s payload uptime_ms).udp_discovery_peers
unfolding sync_udp_discovery_peer
sync_udp_discovery_peer-IsTable s own payload uptime_ms excludes t =
    let node = json_field_string payload (codes "node_id") in
    elim (Bool-cases
      (is_text (json_field_string payload (codes "kind")) (codes "lb_udp_discovery"))) [
        | inl kind ↦ rw kind (
            after_announcement-IsTable s own payload uptime_ms (other_node s node)
              (other_node-ne s node) excludes t)
        | inr other ↦ rw other t
      ]

sync_room_summary_peer-IsTable :
    (s : PeersState) (own payload : Text) (uptime_ms : ℕ)
    → Excludes s own
    → IsTable own s.udp_discovery_peers
    → IsTable own (sync_room_summary_peer s payload uptime_ms).udp_discovery_peers
unfolding sync_room_summary_peer
sync_room_summary_peer-IsTable s own payload uptime_ms excludes t =
    let node = json_field_string payload (codes "node_id") in
    elim (Bool-cases (looks_like_room_summary_payload payload)) [
      | inl kind ↦ rw kind (
          after_summary-IsTable s own payload uptime_ms (other_node s node) (other_node-ne s node)
            excludes t)
      | inr other ↦ rw other t
    ]

-- Every event but a new name keeps the table, whichever of the two names it excludes.
Step-IsTable :
    {s t : PeersState} (step : Step s t) (own : Text)
    → Excludes s own
    → IsTable own s.udp_discovery_peers
    → IsTable own t.udp_discovery_peers
unfolding drop_stale_peers clear_udp_discovery_peers
Step-IsTable {s} (announcement payload uptime_ms) own excludes h =
    sync_udp_discovery_peer-IsTable s own payload uptime_ms excludes h
Step-IsTable {s} (summary payload uptime_ms) own excludes h =
    sync_room_summary_peer-IsTable s own payload uptime_ms excludes h
Step-IsTable {s} (aged uptime_ms) own excludes h =
    retain_fresh-IsTable own uptime_ms s.udp_discovery_peers h
Step-IsTable cleared own excludes h = record { bounded = omega arith; unique = tt; named = tt }
Step-IsTable (announced uptime_ms) own excludes h = h
Step-IsTable (configured node_id room_id) own excludes h = h

-- The names of a table, and the names that it excludes.
IsTable-unnamed :
    (own : Text) (peers : List UdpDiscoveryPeerState) → IsTable own peers → IsTable [] peers
IsTable-unnamed own peers h = record {
  bounded = h.bounded;
  unique = h.unique;
  named = All-map _ _ peers (λ peer given. (given.0, given.0)) h.named;
}

named-Absent :
    (own : Text) (peers : List UdpDiscoveryPeerState)
    → All (λ peer. (peer.node_id ≢ []) × (peer.node_id ≢ [])) peers
    → Absent own peers
    → All (λ peer. (peer.node_id ≢ []) × (peer.node_id ≢ own)) peers
named-Absent own [] h a = tt
named-Absent own (peer ∷ peers) h a = ((h.0.0, a.0), named-Absent own peers h.1 a.1)

announcement_keeps_name :
    (s : PeersState) (payload : Text) (uptime_ms : ℕ)
    → (sync_udp_discovery_peer s payload uptime_ms).node_id ≡ s.node_id
unfolding sync_udp_discovery_peer
announcement_keeps_name s payload uptime_ms =
    elim (Bool-cases
      (is_text (json_field_string payload (codes "kind")) (codes "lb_udp_discovery"))) [
        | inl kind ↦ rw kind (kept (other_node s (json_field_string payload (codes "node_id"))))
        | inr other ↦ rw other refl
      ]
  where
    kept : (o : Option Text) → (after_announcement s payload uptime_ms o).node_id ≡ s.node_id
    kept none = refl
    kept (some node_id) = refl

summary_keeps_name :
    (s : PeersState) (payload : Text) (uptime_ms : ℕ)
    → (sync_room_summary_peer s payload uptime_ms).node_id ≡ s.node_id
unfolding sync_room_summary_peer
summary_keeps_name s payload uptime_ms =
    elim (Bool-cases (looks_like_room_summary_payload payload)) [
      | inl kind ↦ rw kind (kept (other_node s (json_field_string payload (codes "node_id"))))
      | inr other ↦ rw other refl
    ]
  where
    kept : (o : Option Text) → (after_summary s payload uptime_ms o).node_id ≡ s.node_id
    kept none = refl
    kept (some node_id) = refl

-- Only new settings change the name.
keeps_own :
    {s t : PeersState} (step : Step s t)
    → t.node_id ≡ s.node_id
    → IsTable s.node_id s.udp_discovery_peers
    → IsTable t.node_id t.udp_discovery_peers
keeps_own {s = s} {t} step same h =
    subst (λ own. IsTable own t.udp_discovery_peers) (sym same)
      (Step-IsTable step s.node_id (λ n given other. other) h)

Step-own :
    {s t : PeersState} (step : Step s t)
    → takes_peer_name step ≡ false
    → IsTable [] s.udp_discovery_peers
    → IsTable s.node_id s.udp_discovery_peers
    → IsTable t.node_id t.udp_discovery_peers
unfolding drop_stale_peers clear_udp_discovery_peers
Step-own {s} (announcement payload uptime_ms) free t h =
    keeps_own (announcement payload uptime_ms) (announcement_keeps_name s payload uptime_ms) h
Step-own {s} (summary payload uptime_ms) free t h =
    keeps_own (summary payload uptime_ms) (summary_keeps_name s payload uptime_ms) h
Step-own {s} (aged uptime_ms) free t h = keeps_own {s = s} (aged uptime_ms) refl h
Step-own {s} cleared free t h = keeps_own {s = s} cleared refl h
Step-own {s} (announced uptime_ms) free t h = keeps_own {s = s} (announced uptime_ms) refl h
Step-own {s} (configured node_id room_id) free t h =
    elim (Option-cases (position node_id s.udp_discovery_peers)) [
      | inl absent ↦ record {
        bounded = t.bounded;
        unique = t.unique;
        named =
            named-Absent node_id s.udp_discovery_peers t.named
              (position-Absent node_id s.udp_discovery_peers absent);
      }
      | inr (index, listed) ↦ absurd (ground arith)
    ]

-- Let the table of peers start with at most twelve entries, no two for the same node, and none without
-- a node's name or with the node's own. Whatever announcements and summaries arrive, at whatever
-- times and in any order with the other events, also those that give the node a new name, the table
-- has at most twelve entries, no two for the same node and none without a node's name. And it has
-- none with the node's own name, unless the node took a name on the way that was listed then as
-- another node's.
pub Reach-IsTable :
    {s t : PeersState} (r : Reach s t)
    → IsTable s.node_id s.udp_discovery_peers
    → IsTable [] t.udp_discovery_peers
      × (IsTable t.node_id t.udp_discovery_peers ⊎ (clashes r ≡ true))
Reach-IsTable {s} here h = (IsTable-unnamed s.node_id s.udp_discovery_peers h, inl h)
Reach-IsTable (next r step) h =
    let (table, own) = Reach-IsTable r h in
    (
      Step-IsTable step [] (λ n given other. given) table,
      elim own [
        | inr clash ↦ inr (ground arith)
        | inl free ↦ elim (Bool-cases (takes_peer_name step)) [
          | inl taken ↦ inr (ground arith)
          | inr untaken ↦ inl (Step-own step untaken table free)
        ]
      ],
    )

Reach-trans : {s t u : PeersState} → Reach s t → Reach t u → Reach s u
Reach-trans r here = r
Reach-trans r (next q step) = next (Reach-trans r q) step

receive_payloads-Reach :
    (s : PeersState) (uptime_ms : ℕ) (payloads : List Text)
    → Reach s (receive_payloads s uptime_ms payloads)
unfolding receive_payloads
receive_payloads-Reach s uptime_ms [] = here
receive_payloads-Reach s uptime_ms (payload ∷ payloads) =
    Reach-trans (next (next here (announcement payload uptime_ms)) (summary payload uptime_ms)) (
      receive_payloads-Reach
        (sync_room_summary_peer (sync_udp_discovery_peer s payload uptime_ms) payload uptime_ms)
        uptime_ms payloads)

-- The turn of the main loop that serves the discovery is such a sequence of events.
pub process_udp_discovery-Reach :
    (s : PeersState) (has_stack wifi_connected sent : Bool) (uptime_ms : ℕ) (payloads : List Text)
    → Reach s (process_udp_discovery s has_stack wifi_connected sent uptime_ms payloads)
unfolding process_udp_discovery
process_udp_discovery-Reach s false wifi_connected sent uptime_ms payloads = next here cleared
process_udp_discovery-Reach s true false sent uptime_ms payloads = next here (aged uptime_ms)
process_udp_discovery-Reach s true true sent uptime_ms payloads =
    elim (Bool-cases (leb 5000 (uptime_ms - s.last_udp_discovery_announce_ms) && sent)) [
      | inl now ↦ rw now (
          next
            (Reach-trans (next here (announced uptime_ms))
              (receive_payloads-Reach _ uptime_ms payloads))
            (aged uptime_ms))
      | inr later ↦ rw later (next (receive_payloads-Reach s uptime_ms payloads) (aged uptime_ms))
    ]
