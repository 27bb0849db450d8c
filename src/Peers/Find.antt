-- ===== src/Peers/Find.antt =====
-- Looking up the entry of a node in the table of peers, and what the operations on the table do to it.
use esp_wave_rider.Base.{
  ℕ, zero, suc, ◌≡◌, ◌≢◌, refl, sym, ap, subst, Bool, true, false, Option, none, some, List, [],
  ◌∷◌, ◌++◌, if◌then◌else◌, arith, Bool-cases, Option-cases, inl, inr, All,
}
use esp_wave_rider.Text.{Text, text_eq}
use esp_wave_rider.Text.Laws.{text_eq→eq, text_eq_refl}
use esp_wave_rider.Peers.{UdpDiscoveryPeerState, position, modify_at, retain_fresh, is_fresh}
use esp_wave_rider.Peers.Table.{Absent, IsUnique}

-- The entry of a node.
abbrev pub find_peer : Text → List UdpDiscoveryPeerState → Option UdpDiscoveryPeerState
find_peer node_id [] = none
find_peer node_id (peer ∷ peers) =
    if text_eq peer.node_id node_id then some peer else find_peer node_id peers

-- An entry that is not stale.
abbrev pub if_fresh : ℕ → Option UdpDiscoveryPeerState → Option UdpDiscoveryPeerState
if_fresh uptime_ms none = none
if_fresh uptime_ms (some peer) = if is_fresh uptime_ms peer then some peer else none

pub text_eq_of_ne : (s t : Text) → s ≢ t → text_eq s t ≡ false
text_eq_of_ne s t ne = elim (Bool-cases (text_eq s t)) [
  | inl same ↦ absurd (ne (text_eq→eq s t same))
  | inr differs ↦ differs
]

find_peer-Absent :
    (node_id : Text) (peers : List UdpDiscoveryPeerState)
    → Absent node_id peers
    → find_peer node_id peers ≡ none
find_peer-Absent node_id [] h = refl
find_peer-Absent node_id (peer ∷ peers) h =
    rw (text_eq_of_ne peer.node_id node_id h.0) (find_peer-Absent node_id peers h.1)

-- Another name than that of the entry at the head.
Absent-named :
    (peer : UdpDiscoveryPeerState) (m : Text) (peers : List UdpDiscoveryPeerState)
    → text_eq peer.node_id m ≡ true
    → Absent peer.node_id peers
    → find_peer m peers ≡ none
Absent-named peer m peers same a =
    find_peer-Absent m peers (subst (λ n. Absent n peers) (text_eq→eq peer.node_id m same) a)

pub find_peer-retain_fresh :
    (m : Text) (uptime_ms : ℕ) (peers : List UdpDiscoveryPeerState)
    → IsUnique peers
    → find_peer m (retain_fresh uptime_ms peers) ≡ if_fresh uptime_ms (find_peer m peers)
unfolding retain_fresh
find_peer-retain_fresh m uptime_ms [] h = refl
find_peer-retain_fresh m uptime_ms (peer ∷ peers) h =
    let ih = find_peer-retain_fresh m uptime_ms peers h.1 in
    elim (Bool-cases (text_eq peer.node_id m)) [
      | inl same ↦
          let gone = Absent-named peer m peers same h.0 in
          elim (Bool-cases (is_fresh uptime_ms peer)) [
            | inl fresh ↦ rw (fresh, same, fresh)
            | inr stale ↦ rw (stale, same, stale, ih, gone)
          ]
      | inr differs ↦ elim (Bool-cases (is_fresh uptime_ms peer)) [
        | inl fresh ↦ rw (fresh, differs, ih)
        | inr stale ↦ rw (stale, differs, ih)
      ]
    ]

pub find_peer-push :
    (m : Text) (peers : List UdpDiscoveryPeerState) (new : UdpDiscoveryPeerState)
    → find_peer m (peers ++ new ∷ []) ≡ (elim (find_peer m peers) [
      | some peer ↦ some peer
      | none ↦ if text_eq new.node_id m then some new else none
    ])
find_peer-push m [] new = refl
find_peer-push m (peer ∷ peers) new = ground (arith, find_peer-push m peers new)

-- The change at a node's position changes that node's entry only.
abbrev changed :
    Bool
    → (UdpDiscoveryPeerState → UdpDiscoveryPeerState)
    → Option UdpDiscoveryPeerState
    → Option UdpDiscoveryPeerState
changed hit f none = none
changed hit f (some peer) = some (if hit then f peer else peer)

unchanged :
    (f : UdpDiscoveryPeerState → UdpDiscoveryPeerState) (o : Option UdpDiscoveryPeerState)
    → changed false f o ≡ o
unchanged f none = refl
unchanged f (some peer) = refl

pub changed_by :
    (hit : Bool) (f : UdpDiscoveryPeerState → UdpDiscoveryPeerState)
    (o : Option UdpDiscoveryPeerState)
    → hit ≡ false
    → changed hit f o ≡ o
changed_by hit f o e = rw e (unchanged f o)

head_changed :
    (n m : Text) (f : UdpDiscoveryPeerState → UdpDiscoveryPeerState) (peer : UdpDiscoveryPeerState)
    (rest : Option UdpDiscoveryPeerState)
    → (f peer).node_id ≡ peer.node_id
    → peer.node_id ≡ n
    → (if text_eq (f peer).node_id m then some (f peer) else rest)
      ≡ changed (text_eq n m) f (if text_eq peer.node_id m then some peer else rest)
head_changed n m f peer rest keeps name =
    let before : text_eq (f peer).node_id m ≡ text_eq peer.node_id m =
      ap (λ t. text_eq t m) keeps in
    let looked : text_eq n m ≡ text_eq peer.node_id m = ap (λ t. text_eq t m) (sym name) in
    elim (Bool-cases (text_eq peer.node_id m)) [
      | inl hit ↦ ground arith
      | inr miss ↦ ground (arith, unchanged f rest)
    ]

pub find_peer-modify_at :
    (n m : Text) (f : UdpDiscoveryPeerState → UdpDiscoveryPeerState)
    (peers : List UdpDiscoveryPeerState) (index : ℕ)
    → ((peer : UdpDiscoveryPeerState) → (f peer).node_id ≡ peer.node_id)
    → position n peers ≡ some index
    → find_peer m (modify_at index f peers) ≡ changed (text_eq n m) f (find_peer m peers)
unfolding position modify_at
find_peer-modify_at n m f [] index keeps at = absurd (ground arith)
find_peer-modify_at n m f (peer ∷ peers) zero keeps at =
    elim (Bool-cases (text_eq peer.node_id n)) [
      | inr differs ↦ elim (Option-cases (position n peers)) [
        | inl missing ↦ absurd (ground arith)
        | inr (i, later) ↦ absurd (ground arith)
      ]
      | inl here ↦
          head_changed n m f peer (find_peer m peers) (keeps peer) (text_eq→eq peer.node_id n here)
    ]
find_peer-modify_at n m f (peer ∷ peers) (suc index) keeps at =
    elim (Bool-cases (text_eq peer.node_id n)) [
      | inl here ↦ absurd (ground arith)
      | inr differs ↦ elim (Option-cases (position n peers)) [
        | inl missing ↦ absurd (ground arith)
        | inr (i, later) ↦
            let ih = find_peer-modify_at n m f peers index keeps (ground arith) in
            elim (Bool-cases (text_eq peer.node_id m)) [
              | inr miss ↦ rw miss ih
              | inl hit ↦
                  let other : text_eq n m ≡ false = rw (← text_eq→eq peer.node_id m hit) (
                    text_eq_of_ne n peer.node_id (λ e. absurd (
                      let eq : text_eq peer.node_id n ≡ true = rw e (text_eq_refl peer.node_id) in
                      ground arith))) in
                  rw hit (sym (changed_by (text_eq n m) f (some peer) other))
            ]
      ]
    ]

pub position-find_peer :
    (n : Text) (peers : List UdpDiscoveryPeerState)
    → position n peers ≡ none
    → find_peer n peers ≡ none
unfolding position
position-find_peer n [] at = refl
position-find_peer n (peer ∷ peers) at = elim (Bool-cases (text_eq peer.node_id n)) [
  | inl here ↦ absurd (ground arith)
  | inr differs ↦ elim (Option-cases (position n peers)) [
    | inl missing ↦ rw differs (position-find_peer n peers missing)
    | inr (i, later) ↦ absurd (ground arith)
  ]
]

All-behind :
    (P : UdpDiscoveryPeerState → Type 0) (xs ys : List UdpDiscoveryPeerState)
    → All P (xs ++ ys)
    → All P ys
All-behind P [] ys h = h
All-behind P (x ∷ xs) ys h = All-behind P xs ys h.1

pub find_peer_listed :
    (earlier later : List UdpDiscoveryPeerState) (peer : UdpDiscoveryPeerState)
    → IsUnique (earlier ++ peer ∷ later)
    → find_peer peer.node_id (earlier ++ peer ∷ later) ≡ some peer
find_peer_listed [] later peer h = rw (text_eq_refl peer.node_id) refl
find_peer_listed (q ∷ earlier) later peer h =
    let other : q.node_id ≢ peer.node_id =
      λ e. (All-behind (λ r. r.node_id ≢ q.node_id) earlier (peer ∷ later) h.0).0 (sym e) in
    rw (text_eq_of_ne q.node_id peer.node_id other) (find_peer_listed earlier later peer h.1)

-- Without the entry that stands behind some others, its node has none, and all others keep theirs.
pub find_peer_without :
    (earlier later : List UdpDiscoveryPeerState) (peer : UdpDiscoveryPeerState)
    → IsUnique (earlier ++ peer ∷ later)
    → (find_peer peer.node_id (earlier ++ later) ≡ none)
      × ((m : Text)
          → m ≢ peer.node_id
          → find_peer m (earlier ++ later) ≡ find_peer m (earlier ++ peer ∷ later))
find_peer_without [] later peer h = (
  find_peer-Absent peer.node_id later h.0,
  λ m ne. rw (text_eq_of_ne peer.node_id m (λ e. ne (sym e))) refl,
)
find_peer_without (q ∷ earlier) later peer h =
    let (gone, kept) = find_peer_without earlier later peer h.1 in
    let other : q.node_id ≢ peer.node_id =
      λ e. (All-behind (λ r. r.node_id ≢ q.node_id) earlier (peer ∷ later) h.0).0 (sym e) in
    (
      rw (text_eq_of_ne q.node_id peer.node_id other) gone,
      λ m ne. elim (Bool-cases (text_eq q.node_id m)) [
        | inl here ↦ rw here refl
        | inr differs ↦ rw differs (kept m ne)
      ],
    )
