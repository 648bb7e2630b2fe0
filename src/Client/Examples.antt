-- ===== src/Client/Examples.antt =====
-- A torrent with a tracker of its own, and trackers that answer with the same peer twice.
use bit_torrent.Client.{Answers, build_tracker_list, dedupe_peers, gather_peers, parse_peer_addr}
use bit_torrent.Client.Trackers.{build_tracker_list_agrees}
use bit_torrent.Client.Gather.{AreGood, gather_peers-AreGood}
use bit_torrent.Swarm
use bit_torrent.Tracker.{Peer}
use bit_torrent.Pieces.Torrent.{TorrentFile}
use bit_torrent.Wire.Handshake.{codes}
use bit_torrent.Base.{
  if◌then◌else◌, ℕ, ℤ, pos, List, [], ◌∷◌, ◌++◌, ◌≡◌, ◌<◌, Bool, true, not, ◌==◌, Option, none,
  some, All, Any, refl, arith,
}

-- Blanks in front.
abbrev trim : List ℕ → List ℕ
trim [] = []
trim (c ∷ cs) = if c == 32 then trim cs else c ∷ cs

abbrev own_torrent : TorrentFile
own_torrent = record {
  announce = codes " udp://a";
  info_hash = [];
  raw_info = [];
  announce_list = (codes "udp://a" ∷ codes "http://b" ∷ []) ∷ [];
  info = record {
    name = codes "f";
    length = 2;
    piece_length = 2;
    private = true;
    piece_hashes = [];
    files = [];
  };
}

abbrev public_trackers : List (List ℕ)
public_trackers = codes "udp://p" ∷ []

own_list :
    build_tracker_list trim public_trackers own_torrent ≡ codes "udp://a" ∷ codes "http://b" ∷ []
unfolding build_tracker_list bit_torrent.Base.◌===◌
own_list = refl

build_tracker_list_agrees_example :
    build_tracker_list trim public_trackers own_torrent
    ≡ Swarm.build_tracker_list trim public_trackers own_torrent
build_tracker_list_agrees_example = build_tracker_list_agrees trim public_trackers own_torrent

abbrev usable : Peer → Bool
usable p = not (p.port == 0)

abbrev key : Peer → List ℕ
key p = p.ip ++ (p.port ∷ [])

abbrev near : Peer
near = record { ip = 10 ∷ 0 ∷ 0 ∷ 1 ∷ []; port = 6881 }

abbrev portless : Peer
portless = record { ip = 10 ∷ 0 ∷ 0 ∷ 2 ∷ []; port = 0 }

deduped : dedupe_peers usable key (near ∷ portless ∷ near ∷ []) ≡ near ∷ []
unfolding dedupe_peers bit_torrent.Base.◌===◌
deduped = refl

abbrev answers : ℕ → List ℕ → Answers usable key
answers round tr = record { udp = λ n. some (near ∷ near ∷ []); http = λ n. none }

gathered : gather_peers usable key answers (codes "udp://a" ∷ codes "ftp://b" ∷ []) ≡ near ∷ []
unfolding gather_peers bit_torrent.Parser.has_prefix bit_torrent.Base.◌===◌
gathered = refl

gather_peers-AreGood_example :
    AreGood usable key
      (λ p. p.port ≡ 6881)
      (gather_peers usable key answers (codes "udp://a" ∷ codes "ftp://b" ∷ []))
gather_peers-AreGood_example =
    gather_peers-AreGood usable key (λ p. p.port ≡ 6881) answers
      (codes "udp://a" ∷ codes "ftp://b" ∷ []) (λ round tr n. ((refl, (refl, tt)), tt))

no_port : parse_peer_addr trim (λ t. some (10 ∷ [], pos 0)) (codes "h:0") ≡ none
unfolding parse_peer_addr bit_torrent.Base.◌===◌
no_port = refl
