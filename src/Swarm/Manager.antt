-- ===== src/Swarm/Manager.antt =====
-- internal/peer/manager.go: the peers that were discovered, under the text of their address and
-- port (`key_of`). What a tracker and the DHT answer is given; `none` is an error.
use bit_torrent.Base.{
  refl, inr, arith, ===→eq, inl, Bool-cases, some, ◌||◌, none, ◌===◌, length, Option, if◌then◌else◌,
  ◌∷◌, [], ◌≡◌, ℕ, List, false, Bool,
}

pub record Manager (Peer : Type 0) : Type 0 where
  pub tracker_urls : List (List ℕ)
  pub peers : List Peer
  pub last_tracker_check : ℕ
  pub tracker_interval : ℕ

unfoldable pub new_manager : {Peer : Type 0} → List (List ℕ) → Manager Peer
new_manager tracker_urls = record {
  tracker_urls = tracker_urls;
  peers = [];
  last_tracker_check = 0;
  tracker_interval = 1800000000000;
}

module _ {Peer : Type 0} (key_of : Peer → List ℕ) where
  -- `pm.peers[key] = peer`
  unfoldable pub put_peer : Peer → List Peer → List Peer
  put_peer p [] = p ∷ []
  put_peer p (q ∷ qs) = if key_of q === key_of p then p ∷ qs else q ∷ put_peer p qs

  unfoldable pub put_peers : List Peer → List Peer → List Peer
  unfolding put_peer
  put_peers [] known = known
  put_peers (p ∷ ps) known = put_peers ps (put_peer p known)

  unfoldable pub discover_from_trackers :
      (List ℕ → Option (List Peer)) → ℕ → Manager Peer → Manager Peer
  unfolding put_peers
  discover_from_trackers ask now pm = elim pm.tracker_urls [
    | [] ↦ pm
    | url ∷ _ ↦ elim (ask url) [
      | none ↦ pm
      | some found ↦ record pm { peers = put_peers found pm.peers; last_tracker_check = now }
    ]
  ]

  unfoldable pub discover_from_dht : Option (List Peer) → Manager Peer → Manager Peer
  unfolding put_peers
  discover_from_dht none pm = pm
  discover_from_dht (some found) pm = record pm { peers = put_peers found pm.peers }

  unfoldable pub add_peer : Peer → Manager Peer → Manager Peer
  unfolding put_peer
  add_peer p pm = record pm { peers = put_peer p pm.peers }

  unfoldable pub get_peers : Manager Peer → List Peer
  get_peers pm = pm.peers

  unfoldable pub get_peer_count : Manager Peer → ℕ
  get_peer_count pm = length pm.peers

  unfoldable pub knows : List ℕ → List Peer → Bool
  knows k [] = false
  knows k (q ∷ qs) = key_of q === k || knows k qs

  knows-put_peer :
      (p : Peer) (k : List ℕ) (qs : List Peer)
      → knows k (put_peer p qs) ≡ (key_of p === k || knows k qs)
  unfolding knows put_peer
  knows-put_peer p k [] = refl
  knows-put_peer p k (q ∷ qs) = elim (Bool-cases (key_of q === key_of p)) [
    | inl e ↦ let same = ===→eq (key_of q) (key_of p) e in rw (e, same) (ground arith)
    | inr e ↦ rw e (ground (arith, knows-put_peer p k qs))
  ]

  -- After a peer was added its key is known, with those that were known before and no other.
  pub knows-add_peer :
      (p : Peer) (k : List ℕ) (pm : Manager Peer)
      → knows k (get_peers (add_peer p pm)) ≡ (key_of p === k || knows k (get_peers pm))
  unfolding get_peers add_peer
  knows-add_peer p k pm = knows-put_peer p k pm.peers
