-- ===== src/Tracker.antt =====
-- internal/tracker/tracker.go: the announce to a UDP tracker (BEP 15), as the datagrams that it sends
-- and what it makes of those that arrive, and the compact list of peers. Transaction IDs and the key
-- are random bytes that the caller hands in; an answer that does not arrive is `none`.
pub mod Announce
mod Examples
use bit_torrent.Wire.Bytes.{put_uint32, uint32}
use bit_torrent.Wire.Handshake.{codes, slice}
use bit_torrent.Base.{
  ◌-◌, ◌∷◌, ◌+◌, ◌++◌, [], ◌≡◌, ◌<◌, ◌≤◌, ◌*◌, ◌/◌, ◌%◌, ◌^◌, ℕ, ℤ, List, Bool, Option, none, some,
  take, drop, length, ltb, not, ◌==◌, ◌===◌, if◌then◌else◌, Result, ok, err, guard, ◌>>=◌, ◌>>◌,
  word_of, get_or,
}

pub record AnnounceRequest : Type 0 where
  pub info_hash : List ℕ
  pub peer_id : List ℕ
  pub port : ℕ
  pub uploaded : ℤ
  pub downloaded : ℤ
  pub left : ℤ
  pub event : List ℕ

-- An address of four bytes and a port.
pub record Peer : Type 0 where
  pub ip : List ℕ
  pub port : ℕ

pub data TrackerError : Type 0 where
  no_connect_response unexpected_connect_action connect_id_mismatch no_announce_response
        announce_too_short :
      TrackerError
  tracker_failure : List ℕ → TrackerError
  unexpected_announce_action announce_id_mismatch : TrackerError

unfoldable pub udp_event_code : List ℕ → ℕ
udp_event_code event =
    if event === codes "completed"
    then 1
    else if event === codes "started"
    then 2
    else if event === codes "stopped"
    then 3
    else 0

-- `binary.BigEndian.PutUint64`, `Uint64` and `PutUint16`.
unfoldable pub put_uint64 : ℕ → List ℕ
put_uint64 v = put_uint32 (v / 2 ^ 32 % 2 ^ 32) ++ put_uint32 (v % 2 ^ 32)

unfoldable pub uint64 : List ℕ → ℕ
uint64 b = uint32 b * 2 ^ 32 + uint32 (drop 4 b)

unfoldable pub put_uint16 : ℕ → List ℕ
put_uint16 v = v / 256 % 256 ∷ v % 256 ∷ []

-- What is left over after the last whole entry of six bytes is ignored.
unfoldable pub parse_peers_compact : List ℕ → List Peer
parse_peers_compact (a ∷ (b ∷ (c ∷ (d ∷ (e ∷ (f ∷ rest)))))) =
    record { ip = a ∷ b ∷ c ∷ d ∷ []; port = e * 256 + f } ∷ parse_peers_compact rest
parse_peers_compact _ = []

unfoldable pub connect_request : List ℕ → List ℕ
unfolding put_uint64
connect_request tx = put_uint64 0x41727101980 ++ (put_uint32 0 ++ tx)

unfoldable pub announce_request : ℕ → List ℕ → List ℕ → AnnounceRequest → List ℕ
unfolding put_uint64 put_uint16 udp_event_code
announce_request connection_id tx key req =
    put_uint64 connection_id
    ++ (put_uint32 1
        ++ (tx
            ++ (req.info_hash
                ++ (req.peer_id
                    ++ (put_uint64 (word_of req.downloaded)
                        ++ (put_uint64 (word_of req.left)
                            ++ (put_uint64 (word_of req.uploaded)
                                ++ (put_uint32 (udp_event_code req.event)
                                    ++ (put_uint32 0
                                        ++ (key
                                            ++ (put_uint32 (2 ^ 32 - 1)
                                                ++ put_uint16 req.port)))))))))))

-- The buffer takes sixteen bytes; the connection ID of an answer that is accepted.
unfoldable pub read_connect_response : List ℕ → Option (List ℕ) → Result TrackerError ℕ
unfolding uint64
read_connect_response tx none = err no_connect_response
read_connect_response tx (some datagram) = do
  let resp = take 16 datagram
  guard (not (ltb (length resp) 16)) no_connect_response
  guard (uint32 resp == 0) unexpected_connect_action
  guard (slice 4 8 resp === tx) connect_id_mismatch
  ok (uint64 (slice 8 16 resp))

unfoldable pub read_announce_response : List ℕ → Option (List ℕ) → Result TrackerError (List Peer)
unfolding parse_peers_compact
read_announce_response tx none = err no_announce_response
read_announce_response tx (some datagram) = do
  let resp = take 65536 datagram
  guard (not (ltb (length resp) 20)) announce_too_short
  guard (not (uint32 resp == 3)) (tracker_failure (drop 8 resp))
  guard (uint32 resp == 1) unexpected_announce_action
  guard (slice 4 8 resp === tx) announce_id_mismatch
  ok (parse_peers_compact (drop 20 resp))

-- `AnnounceUDPWithRequest` on a connection whose writes do not fail: the datagrams that it sends, and
-- what it answers.
unfoldable pub announce_udp_with_request :
    List ℕ
    → List ℕ
    → List ℕ
    → AnnounceRequest
    → Option (List ℕ)
    → Option (List ℕ)
    → List (List ℕ) × Result TrackerError (List Peer)
unfolding read_connect_response read_announce_response connect_request announce_request
announce_udp_with_request tx1 tx2 key req first second =
    elim (read_connect_response tx1 first)
      as (λ _. List (List ℕ) × Result TrackerError (List Peer)) [
        | err e ↦ (connect_request tx1 ∷ [], err e)
        | ok id ↦ (
          connect_request tx1 ∷ announce_request id tx2 key req ∷ [],
          read_announce_response tx2 second,
        )
      ]
