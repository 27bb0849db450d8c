-- ===== src/Peers/Oldest.antt =====
-- Which entry of the table is the oldest, and the table without it.
use esp_wave_rider.Base.{
  ℕ, ◌+◌, ◌≤◌, ◌<◌, ◌≡◌, refl, sym, ap, ◌∙◌, subst, List, [], ◌∷◌, ◌++◌, length, ltb, arith,
  Bool-cases, inl, inr, All, All-append, All-map, append_assoc, append-nil, length-append,
}
use esp_wave_rider.Peers.{UdpDiscoveryPeerState, remove_at, oldest_peer_from, oldest_peer}

-- The entry at the index was seen longest ago, and is the first of those.
pub record OldestAt (index : ℕ) (peer : UdpDiscoveryPeerState) (peers : List UdpDiscoveryPeerState)
    : Type 0 where
  pub earlier : List UdpDiscoveryPeerState
  pub later : List UdpDiscoveryPeerState
  pub place : length earlier ≡ index
  pub whole : peers ≡ earlier ++ peer ∷ later
  pub first : All (λ q. peer.last_seen_ms < q.last_seen_ms) earlier
  pub least : All (λ q. peer.last_seen_ms ≤ q.last_seen_ms) later

-- An older entry behind all those seen takes over.
older-OldestAt :
    (index : ℕ) (peer new : UdpDiscoveryPeerState) (seen : List UdpDiscoveryPeerState)
    → OldestAt index peer seen
    → new.last_seen_ms < peer.last_seen_ms
    → OldestAt (length seen) new (seen ++ new ∷ [])
older-OldestAt index peer new seen h older = record {
  earlier = seen;
  later = [];
  place = refl;
  whole = refl;
  first = subst (All (λ q. new.last_seen_ms < q.last_seen_ms)) (sym h.whole) (
      All-append (λ q. new.last_seen_ms < q.last_seen_ms) h.earlier (peer ∷ h.later)
        (All-map _ _ h.earlier (λ q lt. omega arith) h.first)
        (older, All-map _ _ h.later (λ q le. omega arith) h.least));
  least = tt;
}

newer-OldestAt :
    (index : ℕ) (peer new : UdpDiscoveryPeerState) (seen : List UdpDiscoveryPeerState)
    → OldestAt index peer seen
    → peer.last_seen_ms ≤ new.last_seen_ms
    → OldestAt index peer (seen ++ new ∷ [])
newer-OldestAt index peer new seen h newer = record {
  earlier = h.earlier;
  later = h.later ++ new ∷ [];
  place = h.place;
  whole = ap (λ l. l ++ new ∷ []) h.whole ∙ append_assoc h.earlier (peer ∷ h.later) (new ∷ []);
  first = h.first;
  least =
      All-append (λ q. peer.last_seen_ms ≤ q.last_seen_ms) h.later (new ∷ []) h.least (newer, tt);
}

-- The scan, with the oldest of the entries that it has seen.
oldest_peer_from-OldestAt :
    (peers seen : List UdpDiscoveryPeerState) (index best : ℕ) (peer : UdpDiscoveryPeerState)
    → index ≡ length seen
    → OldestAt best peer seen
    → (p : UdpDiscoveryPeerState) × OldestAt
        (oldest_peer_from peers index best peer.last_seen_ms)
        p
        (seen ++ peers)
unfolding oldest_peer_from
oldest_peer_from-OldestAt [] seen index best peer at h =
    (peer, subst (OldestAt best peer) (sym (append-nil seen)) h)
oldest_peer_from-OldestAt (new ∷ peers) seen index best peer at h =
    let next : index + 1 ≡ length (seen ++ new ∷ []) =
      omega (arith, length-append seen (new ∷ [])) in
    let joined : (seen ++ new ∷ []) ++ peers ≡ seen ++ new ∷ peers =
      append_assoc seen (new ∷ []) peers in
    elim (Bool-cases (ltb new.last_seen_ms peer.last_seen_ms)) [
      | inl older ↦
          let (p, found) =
            oldest_peer_from-OldestAt peers (seen ++ new ∷ []) (index + 1) index new next (
              subst (λ i. OldestAt i new (seen ++ new ∷ [])) (sym at)
                (older-OldestAt best peer new seen h (ground arith))) in
          rw older (p, subst (OldestAt _ p) joined found)
      | inr newer ↦
          let (p, found) =
            oldest_peer_from-OldestAt peers (seen ++ new ∷ []) (index + 1) best peer next
              (newer-OldestAt best peer new seen h (ground arith)) in
          rw newer (p, subst (OldestAt _ p) joined found)
    ]

-- A table with an entry has an oldest one, which is the one that `min_by_key` finds.
pub oldest_peer-OldestAt :
    (peers : List UdpDiscoveryPeerState)
    → 0 < length peers
    → (p : UdpDiscoveryPeerState) × OldestAt (oldest_peer peers) p peers
unfolding oldest_peer
oldest_peer-OldestAt [] some_entry = absurd (omega arith)
oldest_peer-OldestAt (peer ∷ peers) some_entry =
    oldest_peer_from-OldestAt peers (peer ∷ []) 1 0 peer refl
      (record { earlier = []; later = []; place = refl; whole = refl; first = tt; least = tt })

-- Removing what stands behind some entries leaves them and the rest.
pub remove_at-append :
    (earlier later : List UdpDiscoveryPeerState) (peer : UdpDiscoveryPeerState)
    → remove_at (length earlier) (earlier ++ peer ∷ later) ≡ earlier ++ later
unfolding remove_at
remove_at-append [] later peer = refl
remove_at-append (q ∷ earlier) later peer = ap (λ l. q ∷ l) (remove_at-append earlier later peer)
