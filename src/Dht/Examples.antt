-- ===== src/Dht/Examples.antt =====
-- A lookup that asks three of the bootstrap nodes, of which one answers, and two nodes in a list.
use bit_torrent.Dht.{Candidate, Shared, node, alpha, start_lookup, take_batch, add_peers, add_nodes}
use bit_torrent.Dht.Query.{parse_nodes}
use bit_torrent.Dht.Nodes.{NodeInfo, compact_nodes, with_port, parse_nodes-compact_nodes}
use bit_torrent.Dht.Known.{addrs}
use bit_torrent.Dht.Lookup.{Round, Reach, IsSound, Reach-IsSound}
use bit_torrent.Dht.Sorted.{AreBeyond, Reach-take_batch}
use bit_torrent.Dht.Insertion.{insertion_sort, insertion_sort-IsSorted, insertion_sort-Permᴰ}
use bit_torrent.Tracker.{Peer}
use bit_torrent.Wire.Handshake.{codes}
use bit_torrent.Base.{ℕ, List, [], ◌∷◌, ◌++◌, ◌≡◌, ◌≤◌, All, length, replicate, refl, arith}

abbrev host_port : List ℕ → ℕ → List ℕ
host_port ip port = ip ++ (port ∷ [])

abbrev target : List ℕ
target = replicate 20 0

abbrev ids : List (List ℕ)
ids = replicate 20 7 ∷ replicate 20 3 ∷ replicate 20 9 ∷ replicate 20 5 ∷ []

abbrev found : Peer
found = record { ip = 10 ∷ 0 ∷ 0 ∷ 1 ∷ []; port = 6881 }

abbrev near : List Candidate
near = node (replicate 20 1) (codes "n") ∷ node (replicate 20 2) (codes "n") ∷ []

abbrev started : Shared
started = start_lookup insertion_sort target ids

abbrev asking : Shared
asking = (take_batch started).1

-- The IDs 3, 5 and 7 are the nearest.
abbrev first_asked : List (List ℕ)
first_asked =
    codes "router.utorrent.com:6881"
    ∷ codes "dht.aelitis.com:6881"
    ∷ codes "router.bittorrent.com:6881"
    ∷ []

batch_addrs : addrs (take_batch started).0 ≡ first_asked
unfolding take_batch start_lookup insertion_sort bit_torrent.Base.◌===◌
batch_addrs = refl

abbrev answered : Shared
answered = add_nodes insertion_sort target (add_peers host_port asking (found ∷ found ∷ [])) near

abbrev waiting : List (List ℕ)
waiting = codes "dht.aelitis.com:6881" ∷ codes "router.bittorrent.com:6881" ∷ []

abbrev after : Round
after = record { shared = answered; in_flight = waiting; to_add = [] }

run : Reach insertion_sort host_port target 50 after first_asked
unfolding take_batch start_lookup insertion_sort bit_torrent.Base.◌===◌
run = Reach.nodes [] [] near (
    Reach.peers [] waiting (codes "router.utorrent.com:6881") (found ∷ found ∷ []) near
      (Reach.batch (Reach.start ids) (omega arith) (omega arith)))

found_once : answered.peers ≡ found ∷ []
unfolding add_nodes add_peers take_batch start_lookup bit_torrent.Base.◌===◌
found_once = refl

Reach-IsSound_example :
    IsSound insertion_sort host_port target 50 answered first_asked × (length waiting ≤ alpha)
Reach-IsSound_example = Reach-IsSound insertion_sort host_port target 50 insertion_sort-Permᴰ run

Reach-take_batch_example :
    All (λ b. AreBeyond b (take_batch answered).1.candidates) (take_batch answered).0
Reach-take_batch_example =
    Reach-take_batch insertion_sort host_port target 50 insertion_sort-IsSorted run

abbrev infos : List NodeInfo
infos =
    record { id = replicate 20 4; ip = 10 ∷ 0 ∷ 0 ∷ 2 ∷ []; port = 6881 }
    ∷ record { id = replicate 20 6; ip = 10 ∷ 0 ∷ 0 ∷ 3 ∷ []; port = 0 }
    ∷ []

parse_nodes-compact_nodes_example :
    parse_nodes host_port (compact_nodes infos ++ (1 ∷ 2 ∷ [])) ≡ with_port host_port infos
parse_nodes-compact_nodes_example =
    parse_nodes-compact_nodes host_port infos (1 ∷ 2 ∷ [])
      ((refl, refl, omega arith), ((refl, refl, omega arith), tt)) (omega arith)
