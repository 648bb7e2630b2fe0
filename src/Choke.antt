-- ===== src/Choke.antt =====
-- internal/choke/choke.go: who may download from us. The map of peers is the list of its values in
-- the order in which a range over it yields them; `peer_key` is the program's peerKey.
-- Byte counters are taken not to reach 2 ^ 63.
pub mod Cap
mod Examples
use bit_torrent.Base.{
  map, drop, ◌%◌, ◌||◌, negsuc, ◌&&◌, ltb, ◌==◌, true, ◌===◌, [], ◌++◌, none, pos, if◌then◌else◌,
  false, some, not, take, ◌+◌, Option, ◌∷◌, ℤ, Bool, ℕ, List, length,
}

pub record PeerStats (Peer : Type 0) : Type 0 where
  pub peer : Peer
  pub bytes_uploaded : ℕ
  pub bytes_downloaded : ℕ
  pub last_active : ℕ
  pub total_uploaded : ℕ
  pub choked : Bool

-- The empty text stands for no optimistic peer.
pub record UnchokeRound (Peer : Type 0) : Type 0 where
  pub max_unchoked : ℤ
  pub optimistic_interval : ℤ
  pub peers : List (PeerStats Peer)
  pub round_number : ℕ
  pub last_optimistic : List ℕ

unfoldable pub contains : List (List ℕ) → List ℕ → Bool
contains [] k = false
contains (j ∷ js) k = j === k || contains js k

unfoldable pub remove : List ℕ → List (List ℕ) → List (List ℕ)
remove k [] = []
remove k (j ∷ js) = if j === k then remove k js else j ∷ remove k js

module _ {Peer : Type 0} where
  unfoldable pub new_unchoke_round : ℤ → UnchokeRound Peer
  new_unchoke_round max_unchoked = record {
    max_unchoked = max_unchoked;
    optimistic_interval = pos 3;
    peers = [];
    round_number = 0;
    last_optimistic = [];
  }

module _ {Peer : Type 0} (peer_key : Peer → List ℕ) where
  abbrev pub key_of : PeerStats Peer → List ℕ
  key_of s = peer_key s.peer

  unfoldable pub find : List ℕ → List (PeerStats Peer) → Option (PeerStats Peer)
  find k [] = none
  find k (s ∷ ss) = if key_of s === k then some s else find k ss

  -- `stats.f = …` on the entry under a key.
  unfoldable pub modify :
      List ℕ → (PeerStats Peer → PeerStats Peer) → List (PeerStats Peer) → List (PeerStats Peer)
  modify k f [] = []
  modify k f (s ∷ ss) = if key_of s === k then f s ∷ ss else s ∷ modify k f ss

  unfoldable pub delete : List ℕ → List (PeerStats Peer) → List (PeerStats Peer)
  delete k [] = []
  delete k (s ∷ ss) = if key_of s === k then delete k ss else s ∷ delete k ss

  unfoldable pub register_peer : UnchokeRound Peer → Peer → ℕ → UnchokeRound Peer
  register_peer ur peer now = elim (find (peer_key peer) ur.peers) [
    | some _ ↦ ur
    | none ↦ record ur {
      peers =
          ur.peers
          ++ (record {
            peer = peer;
            bytes_uploaded = 0;
            bytes_downloaded = 0;
            last_active = now;
            total_uploaded = 0;
            choked = true;
          }
              ∷ []);
    }
  ]

  unfoldable pub remove_peer : UnchokeRound Peer → Peer → UnchokeRound Peer
  remove_peer ur peer = record ur { peers = delete (peer_key peer) ur.peers }

  unfoldable pub record_upload : UnchokeRound Peer → Peer → ℕ → ℕ → UnchokeRound Peer
  record_upload ur peer bytes now = record ur {
    peers =
        modify (peer_key peer)
          (λ s. record s {
            bytes_uploaded = s.bytes_uploaded + bytes;
            total_uploaded = s.total_uploaded + bytes;
            last_active = now;
          })
          ur.peers;
  }

  unfoldable pub record_download : UnchokeRound Peer → Peer → ℕ → ℕ → UnchokeRound Peer
  record_download ur peer bytes now = record ur {
    peers =
        modify (peer_key peer)
          (λ s. record s { bytes_downloaded = s.bytes_downloaded + bytes; last_active = now })
          ur.peers;
  }

  unfoldable pub get_peer_stats : UnchokeRound Peer → Peer → Option (PeerStats Peer)
  get_peer_stats ur peer = find (peer_key peer) ur.peers

  -- The order of `sortPeersByDownloadRate`.
  unfoldable pub before : PeerStats Peer → PeerStats Peer → Bool
  before a b =
      if not (a.bytes_downloaded == b.bytes_downloaded)
      then ltb b.bytes_downloaded a.bytes_downloaded
      else if not (a.total_uploaded == b.total_uploaded)
      then ltb b.total_uploaded a.total_uploaded
      else ltb b.last_active a.last_active

  unfoldable pub keys : List (PeerStats Peer) → List (List ℕ)
  keys [] = []
  keys (s ∷ ss) = key_of s ∷ keys ss

  abbrev pub cap_of : ℤ → ℕ
  cap_of (pos n) = n
  cap_of (negsuc n) = 0

  unfoldable pub is_optimistic_round : ℤ → ℕ → Bool
  is_optimistic_round (pos n) round = ltb 0 n && round % n == 0
  is_optimistic_round (negsuc n) round = false

  -- The first peer past the limit that was not the last one to be chosen; `none` is index -1.
  unfoldable pub other_than : List ℕ → List (PeerStats Peer) → Option (PeerStats Peer)
  other_than last [] = none
  other_than last (s ∷ ss) = if key_of s === last then other_than last ss else some s

  unfoldable pub optimistic_peer : List ℕ → List (PeerStats Peer) → Option (PeerStats Peer)
  unfolding other_than
  optimistic_peer last [] = none
  optimistic_peer last (s ∷ ss) = elim (other_than last (s ∷ ss)) [
    | none ↦ some s
    | some o ↦ some o
  ]

  unfoldable pub last_key : List (List ℕ) → List ℕ
  last_key [] = []
  last_key (k ∷ []) = k
  last_key (k ∷ (j ∷ js)) = last_key (j ∷ js)

  -- The peers to unchoke, and the new `lastOptimistic`, from the sorted peers.
  unfoldable pub select : UnchokeRound Peer → ℕ → List (PeerStats Peer) → ℕ → List (List ℕ) × List ℕ
  unfolding keys optimistic_peer last_key is_optimistic_round remove
  select ur round active limit =
      let top = keys (take limit active) in
      if ltb 0 limit
        && is_optimistic_round ur.optimistic_interval round
        && ltb limit (length active)
      then elim (optimistic_peer ur.last_optimistic (drop limit active)) [
        | none ↦ (top, ur.last_optimistic)
        | some o ↦ (key_of o ∷ remove (last_key top) top, key_of o)
      ]
      else (top, if limit == 0 then [] else ur.last_optimistic)

  -- One entry after the decision, with its counters reset.
  unfoldable pub settle : List (List ℕ) → PeerStats Peer → PeerStats Peer
  settle unchoked s = record s {
    choked = not (contains unchoked (key_of s));
    bytes_uploaded = 0;
    bytes_downloaded = 0;
  }

  unfoldable pub to_unchoke : List (List ℕ) → List (PeerStats Peer) → List Peer
  to_unchoke unchoked [] = []
  to_unchoke unchoked (s ∷ ss) =
      let rest = to_unchoke unchoked ss in
      if contains unchoked (key_of s) && s.choked then s.peer ∷ rest else rest

  unfoldable pub to_choke : List (List ℕ) → List (PeerStats Peer) → List Peer
  to_choke unchoked [] = []
  to_choke unchoked (s ∷ ss) =
      let rest = to_choke unchoked ss in
      if not (contains unchoked (key_of s)) && not s.choked then s.peer ∷ rest else rest

  -- `DecideUnchokes`; `sort` is what sort.Slice makes of the peers. Without a peer only the round
  -- is counted.
  unfoldable pub decide_unchokes :
      (List (PeerStats Peer) → List (PeerStats Peer))
      → UnchokeRound Peer
      → UnchokeRound Peer × List Peer × List Peer
  unfolding select settle to_unchoke to_choke
  decide_unchokes sort ur =
      let round = ur.round_number + 1 in
      let cap = cap_of ur.max_unchoked in
      let active = sort ur.peers in
      let limit = if ltb (length active) cap then length active else cap in
      let (unchoked, last) = select ur round active limit in
      if length ur.peers == 0 then (record ur { round_number = round }, [], []) else (
        record ur {
          max_unchoked = pos cap;
          peers = map (settle unchoked) ur.peers;
          round_number = round;
          last_optimistic = last;
        },
        to_unchoke unchoked ur.peers,
        to_choke unchoked ur.peers,
      )
