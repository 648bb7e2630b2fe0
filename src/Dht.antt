-- ===== src/Dht.antt =====
-- internal/dht/dht.go: the lookup of peers in the DHT (BEP 5), as the lists that the goroutines of a
-- round share, and a query with what is made of its answer. An ID has twenty bytes; `host_port` stands
-- for net.JoinHostPort, `sort` for sort.Sort on the candidates, and the sets of addresses and of
-- peers that have been seen are lists. The network and the bencode package are handed in.
pub mod Query
pub mod Known
pub mod Nodes
pub mod Lookup
pub mod Sorted
pub mod Insertion
mod Examples
use Prim.Native.Nat.{bit_xor}
use bit_torrent.Tracker.{Peer}
use bit_torrent.Wire.Handshake.{codes}
use bit_torrent.Base.{
  ℕ, ◌-◌, List, [], ◌∷◌, ◌++◌, Bool, true, false, ◌==◌, ltb, leb, if◌then◌else◌, Option, none, some,
  Result, ok, err, length, take, replicate, has_text,
}

abbrev pub alpha : ℕ
alpha = 3

abbrev pub max_candidates : ℕ
max_candidates = 200

abbrev pub bootstrap_addrs : List (List ℕ)
bootstrap_addrs =
    codes "router.bittorrent.com:6881"
    ∷ codes "router.utorrent.com:6881"
    ∷ codes "dht.transmissionbt.com:6881"
    ∷ codes "dht.aelitis.com:6881"
    ∷ []

unfoldable pub xor_dist : List ℕ → List ℕ → List ℕ
xor_dist (x ∷ xs) (y ∷ ys) = bit_xor x y ∷ xor_dist xs ys
xor_dist _ _ = []

pub record Candidate : Type 0 where
  pub id : List ℕ
  pub addr : List ℕ
  pub dist : List ℕ
  pub queried : Bool

-- bytes.Compare of the distances is negative.
unfoldable pub bytes_less : List ℕ → List ℕ → Bool
bytes_less xs [] = false
bytes_less [] (y ∷ ys) = true
bytes_less (x ∷ xs) (y ∷ ys) = if x == y then bytes_less xs ys else ltb x y

unfoldable pub less : Candidate → Candidate → Bool
unfolding bytes_less
less a b = bytes_less a.dist b.dist

-- What the goroutines of a lookup share.
pub record Shared : Type 0 where
  pub seen_addrs : List (List ℕ)
  pub seen_peers : List (List ℕ)
  pub peers : List Peer
  pub candidates : List Candidate

-- A candidate of which only the ID and the address are set.
abbrev pub node : List ℕ → List ℕ → Candidate
node i a = record { id = i; addr = a; dist = replicate 20 0; queried = false }

-- The loop of `addNodes`.
unfoldable pub join_nodes :
    List ℕ → List (List ℕ) → List Candidate → List Candidate → List (List ℕ) × List Candidate
unfolding xor_dist
join_nodes target seen candidates [] = (seen, candidates)
join_nodes target seen candidates (n ∷ ns) =
    let skipped = join_nodes target seen candidates ns in
    let c : Candidate = record {
      id = n.id;
      addr = n.addr;
      dist = xor_dist n.id target;
      queried = false;
    } in
    let joined = join_nodes target (n.addr ∷ seen) (candidates ++ (c ∷ [])) ns in
    if has_text n.addr seen then skipped else joined

unfoldable pub add_nodes :
    (List Candidate → List Candidate) → List ℕ → Shared → List Candidate → Shared
unfolding join_nodes
add_nodes sort target s nodes =
    let (seen, candidates) = join_nodes target s.seen_addrs s.candidates nodes in
    let sorted = sort candidates in
    record {
      seen_addrs = seen;
      seen_peers = s.seen_peers;
      peers = s.peers;
      candidates =
          if ltb max_candidates (length sorted) then take max_candidates sorted else sorted;
    }

-- The loop of `addPeers`.
unfoldable pub join_peers :
    (List ℕ → ℕ → List ℕ) → List (List ℕ) → List Peer → List Peer → List (List ℕ) × List Peer
join_peers host_port seen peers [] = (seen, peers)
join_peers host_port seen peers (p ∷ ps) =
    let key = host_port p.ip p.port in
    let skipped = join_peers host_port seen peers ps in
    let joined = join_peers host_port (key ∷ seen) (peers ++ (p ∷ [])) ps in
    if has_text key seen then skipped else joined

unfoldable pub add_peers : (List ℕ → ℕ → List ℕ) → Shared → List Peer → Shared
unfolding join_peers
add_peers host_port s pp =
    let (seen, peers) = join_peers host_port s.seen_peers s.peers pp in
    record {
      seen_addrs = s.seen_addrs;
      seen_peers = seen;
      peers = peers;
      candidates = s.candidates;
    }

-- The random IDs of the bootstrap nodes are handed in.
unfoldable pub seeds : List (List ℕ) → List (List ℕ) → List Candidate
seeds (i ∷ ids) (a ∷ addrs) = node i a ∷ seeds ids addrs
seeds _ _ = []

unfoldable pub start_lookup : (List Candidate → List Candidate) → List ℕ → List (List ℕ) → Shared
unfolding seeds add_nodes
start_lookup sort target ids =
    add_nodes sort target (record { seen_addrs = []; seen_peers = []; peers = []; candidates = [] })
      (seeds ids bootstrap_addrs)

abbrev pub queried_now : Candidate → Candidate
queried_now c = record { id = c.id; addr = c.addr; dist = c.dist; queried = true }

-- The loop that marks candidates as queried: `left` more of them, which become the batch.
unfoldable pub mark_batch : ℕ → List Candidate → List Candidate × List Candidate
mark_batch left [] = ([], [])
mark_batch left (c ∷ cs) =
    let same = mark_batch left cs in
    let more = mark_batch (left - 1) cs in
    if c.queried
    then (same.0, c ∷ same.1)
    else if leb left 1
    then (queried_now c ∷ [], queried_now c ∷ cs)
    else (queried_now c ∷ more.0, queried_now c ∷ more.1)

-- The batch of a round, and what is shared after it.
unfoldable pub take_batch : Shared → List Candidate × Shared
unfolding mark_batch
take_batch s =
    let (batch, candidates) = mark_batch alpha s.candidates in
    (
      batch,
      record {
        seen_addrs = s.seen_addrs;
        seen_peers = s.seen_peers;
        peers = s.peers;
        candidates = candidates;
      },
    )

pub data LookupError : Type 0 where
  no_peers_found : LookupError

-- What `GetPeers` returns in the end.
unfoldable pub lookup_result : Shared → Result LookupError (List Peer)
lookup_result s = if length s.peers == 0 then err no_peers_found else ok s.peers
