-- ===== src/Tracker/Examples.antt =====
-- A tracker that gives one peer.
use bit_torrent.Tracker.{AnnounceRequest, Peer, announce_udp_with_request}
use bit_torrent.Tracker.Announce.{
  compact, Answers, announce_udp_with_request-compact, announce_udp_with_request-Answers,
}
use bit_torrent.Wire.Bytes.{put_uint32}
use bit_torrent.Wire.Handshake.{codes}
use bit_torrent.Base.{
  ◌∷◌, ◌++◌, [], ◌≡◌, ℕ, List, Option, some, take, ok, get_or, arith, refl, replicate, pos,
}

abbrev tx1 : List ℕ
tx1 = 1 ∷ 2 ∷ 3 ∷ 4 ∷ []

abbrev tx2 : List ℕ
tx2 = 5 ∷ 6 ∷ 7 ∷ 8 ∷ []

abbrev key : List ℕ
key = replicate 4 9

abbrev connection_id : List ℕ
connection_id = replicate 8 200

abbrev request : AnnounceRequest
request = record {
  info_hash = replicate 20 1;
  peer_id = replicate 20 2;
  port = 6881;
  uploaded = pos 0;
  downloaded = pos 0;
  left = pos 1000;
  event = codes "started";
}

abbrev peer : Peer
peer = record { ip = 10 ∷ 0 ∷ 0 ∷ 1 ∷ []; port = 6881 }

abbrev first : Option (List ℕ)
first = some (put_uint32 0 ++ (tx1 ++ connection_id))

abbrev second : Option (List ℕ)
second = some (put_uint32 1 ++ (tx2 ++ (replicate 12 0 ++ compact (peer ∷ []))))

announce_udp_with_request-compact_example :
    (take 8 (get_or (announce_udp_with_request tx1 tx2 key request first second).0 1 [])
      ≡ connection_id)
    × ((announce_udp_with_request tx1 tx2 key request first second).1 ≡ ok (peer ∷ []))
unfolding compact bit_torrent.Tracker.put_uint16
announce_udp_with_request-compact_example =
    announce_udp_with_request-compact tx1 tx2 key connection_id (replicate 12 0) request (peer ∷ [])
      refl refl refl refl (omega arith) (omega arith) (omega arith)

announced : (announce_udp_with_request tx1 tx2 key request first second).1 ≡ ok (peer ∷ [])
unfolding compact bit_torrent.Tracker.put_uint16
announced =
    (announce_udp_with_request-compact tx1 tx2 key connection_id (replicate 12 0) request
      (peer ∷ []) refl refl refl refl (omega arith) (omega arith) (omega arith)).1

announce_udp_with_request-Answers_example : Answers 16 tx1 0 first × Answers 65536 tx2 1 second
announce_udp_with_request-Answers_example =
    announce_udp_with_request-Answers tx1 tx2 key request first second (peer ∷ []) announced
