-- ===== src/Transfer.antt =====
-- `downloadPieceFromSession` of internal/downloader/downloader.go: one piece from one peer. The
-- world of the loop is a list of events, one for each turn. The block sizes, the offsets and the
-- lengths are below 2 ^ 63; a uint32 wraps as it does in Go.
use Prim.Native.Nat.{suc, ℕ}
use bit_torrent.Pieces.Bitfield.{set_bitfield_piece, bitfield_has_piece}
use bit_torrent.Pieces.Geometry.{piece_length_at}
use bit_torrent.Pieces.Torrent.{TorrentInfo}
use bit_torrent.Wire.Payloads.{parse_have_index}
use bit_torrent.Wire.Message.{
  msg_choke, msg_extended, msg_bitfield, msg_have, request_message, msg_piece, cancel_message,
  parse_piece_message, Message,
}
use bit_torrent.Swarm.{PexPeer, parse_ut_pex_peers}
use bit_torrent.Bencode.Value.{Outcome}
use bit_torrent.Base.{
  drop, take, get_or, ◌||◌, zero, ok, ◌===◌, ◌&&◌, ◌-◌, ◌^◌, some, err, replicate, ◌==ℤ◌, not,
  length, ◌%◌, ltb, ◌==◌, none, [], ◌++◌, ◌+◌, ◌∷◌, if◌then◌else◌, Option, ◌*◌, List, ℕ,
}
pub mod Window
pub mod Sound
pub mod Turns
pub mod Answers
pub mod Progress
mod Examples

abbrev pub block_size : ℕ
block_size = 16 * 1024

abbrev pub min_inflight_per_peer : ℕ
min_inflight_per_peer = 4

abbrev pub max_inflight_per_peer : ℕ
max_inflight_per_peer = 16

-- The session's `bitfield`, `utPexID` and `inflight` (here `window`), the variables of the loop
-- (`in_flight` is its map `inflight`), the messages that were sent, and the peers that
-- were handed to `onPeerDiscovered`.
pub record Transfer : Type 0 where
  pub bitfield : List ℕ
  pub ut_pex_id : ℕ
  pub window : ℕ
  pub in_flight : List (ℕ × ℕ)
  pub next_begin : ℕ
  pub written : ℕ
  pub piece_data : List ℕ
  pub sent : List Message
  pub discovered : List PexPeer

pub data Failure : Type 0 where
  peer_missing_piece piece_cancelled_by_other send_failed read_failed invalid_payload short_block
        peer_choked hash_mismatch :
      Failure

-- What a turn of the loop meets: another worker has the piece, a send or the read fails, or a
-- message arrives. What a failing turn sent before the send that failed is not counted.
pub data Event : Type 0 where
  cancelled send_failure read_failure : Event
  received : Message → Event

pub data Turn : Type 0 where
  going : Transfer → Turn
  failed : Failure → List Message → Turn
  panic : Turn

-- `inflight`, a map from offsets to lengths.
unfoldable pub find_block : ℕ → List (ℕ × ℕ) → Option ℕ
find_block off [] = none
find_block off ((o, n) ∷ m) = if o == off then some n else find_block off m

unfoldable pub erase : ℕ → List (ℕ × ℕ) → List (ℕ × ℕ)
erase off [] = []
erase off ((o, n) ∷ m) = if o == off then erase off m else (o, n) ∷ erase off m

unfoldable pub cancels : ℕ → List (ℕ × ℕ) → List Message
cancels idx [] = []
cancels idx ((o, n) ∷ m) = cancel_message (idx % 2 ^ 32) o n ∷ cancels idx m

unfoldable pub clamp : ℕ → ℕ
clamp limit =
    if ltb limit min_inflight_per_peer
    then min_inflight_per_peer
    else if ltb max_inflight_per_peer limit
    then max_inflight_per_peer
    else limit

unfoldable pub block_len : ℕ → ℕ → ℕ
block_len size begin = if ltb size (begin + block_size) then size - begin else block_size

unfoldable pub request : ℕ → ℕ → Transfer → Transfer
unfolding erase block_len
request size idx t =
    let len = block_len size t.next_begin in
    record t {
      in_flight = (t.next_begin, len) ∷ erase t.next_begin t.in_flight;
      next_begin = (t.next_begin + len) % 2 ^ 32;
      sent = t.sent ++ (request_message (idx % 2 ^ 32) t.next_begin len ∷ []);
    }

-- The inner loop; each request adds an entry, so the limit is fuel enough.
unfoldable pub fill : ℕ → ℕ → ℕ → ℕ → Transfer → Transfer
unfolding request
fill zero limit size idx t = t
fill (suc f) limit size idx t =
    let more = fill f limit size idx (request size idx t) in
    if ltb (length t.in_flight) limit && ltb t.next_begin size then more else t

-- `copy(pieceData[off:stop], block)` and the two counters.
unfoldable pub store : ℕ → List ℕ → Transfer → Turn
unfolding erase
store off block t =
    let stop = (off + length block % 2 ^ 32) % 2 ^ 32 in
    if ltb stop off || ltb (length t.piece_data) stop
    then panic
    else going (record t {
      piece_data = take off t.piece_data ++ (take (stop - off) block ++ drop stop t.piece_data);
      in_flight = erase off t.in_flight;
      written = t.written + length block;
    })

unfoldable pub on_block : ℕ → ℕ → ℕ → List ℕ → Transfer → Turn
unfolding store find_block
on_block idx i off block t =
    if not (i == idx % 2 ^ 32) then going t else elim (find_block off t.in_flight) [
      | none ↦ going t
      | some expect ↦
          if not (length block % 2 ^ 32 == expect)
          then failed short_block t.sent
          else store off block t
    ]

-- The cases of `switch msg.ID`.
unfoldable pub on_piece : ℕ → List ℕ → Transfer → Turn
unfolding on_block
on_piece idx payload t = elim (parse_piece_message payload) [
  | err e ↦ failed invalid_payload t.sent
  | ok (i, off, block) ↦ on_block idx i off block t
]

unfoldable pub on_have : List ℕ → Transfer → Turn
on_have payload t = elim (parse_have_index payload) [
  | none ↦ going t
  | some i ↦ going (record t { bitfield = set_bitfield_piece t.bitfield i })
]

unfoldable pub on_bitfield : ℕ → List ℕ → Transfer → Turn
on_bitfield idx payload t =
    if not (bitfield_has_piece payload idx)
    then failed peer_missing_piece t.sent
    else going (record t { bitfield = payload })

-- `onPeerDiscovered` on the peers of an exchange; a panic of the decoder is not caught here.
unfoldable pub hand_on : Outcome (List PexPeer) → Transfer → Turn
hand_on (Outcome.ok found) t = going (record t { discovered = t.discovered ++ found })
hand_on (Outcome.err e) t = going t
hand_on Outcome.panic t = Turn.panic
hand_on Outcome.out_of_fuel t = going t

unfoldable pub on_extended : List ℕ → Transfer → Turn
unfolding hand_on
on_extended payload t =
    if not (ltb (length payload) 2) && (ltb 0 t.ut_pex_id && get_or payload 0 0 == t.ut_pex_id)
    then hand_on (parse_ut_pex_peers (drop 1 payload)) t
    else going t

unfoldable pub on_message : ℕ → Message → Transfer → Turn
unfolding on_piece on_have on_bitfield on_extended cancels
on_message idx m t =
    if m.id ==ℤ msg_piece
    then on_piece idx m.payload t
    else if m.id ==ℤ msg_have
    then on_have m.payload t
    else if m.id ==ℤ msg_bitfield
    then on_bitfield idx m.payload t
    else if m.id ==ℤ msg_extended
    then on_extended m.payload t
    else if m.id ==ℤ msg_choke
    then failed peer_choked (t.sent ++ cancels idx t.in_flight)
    else going t

unfoldable pub turn : ℕ → ℕ → Event → Transfer → Turn
unfolding on_message fill clamp cancels
turn size idx cancelled t = failed piece_cancelled_by_other (t.sent ++ cancels idx t.in_flight)
turn size idx send_failure t = failed send_failed t.sent
turn size idx read_failure t =
    failed read_failed (fill (clamp t.window) (clamp t.window) size idx t).sent
turn size idx (received m) t = on_message idx m (fill (clamp t.window) (clamp t.window) size idx t)

-- How a run ends; `waiting` says that the loop has met all the events, and goes on.
pub data Answer : Type 0 where
  downloaded : List ℕ → Answer
  refused : Failure → List Message → Answer
  panicked : Answer
  waiting : Transfer → Answer

unfoldable pub start : List ℕ → ℕ → ℕ → ℕ → Transfer
start bitfield ut_pex_id window size = record {
  bitfield = bitfield;
  ut_pex_id = ut_pex_id;
  window = window;
  in_flight = [];
  next_begin = 0;
  written = 0;
  piece_data = replicate size 0;
  sent = [];
  discovered = [];
}

-- `sha1` stands for crypto/sha1's Sum; nothing is assumed of it.
module _ (sha1 : List ℕ → List ℕ) where
  unfoldable pub verify : List ℕ → Transfer → Answer
  verify hash t =
      if not (sha1 t.piece_data === hash)
      then refused hash_mismatch t.sent
      else downloaded t.piece_data

  unfoldable pub run : List ℕ → ℕ → ℕ → List Event → Transfer → Answer
  unfolding verify turn
  run hash size idx [] t = if ltb t.written size then waiting t else verify hash t
  run hash size idx (e ∷ es) t =
      let rest : Answer = elim (turn size idx e t) [
        | going t' ↦ run hash size idx es t'
        | failed f sent ↦ refused f sent
        | panic ↦ panicked
      ] in
      if ltb t.written size then rest else verify hash t

  unfoldable pub download_piece_from_session :
      TorrentInfo → ℕ → List ℕ → ℕ → ℕ → List Event → Answer
  unfolding run start
  download_piece_from_session t idx bitfield ut_pex_id window events =
      let size = piece_length_at t idx in
      if ltb 0 (length bitfield) && not (bitfield_has_piece bitfield idx)
      then refused peer_missing_piece []
      else run (get_or t.piece_hashes idx []) size idx events (start bitfield ut_pex_id window size)
