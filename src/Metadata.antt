-- ===== src/Metadata.antt =====
-- internal/protocol/metadata.go: the description of a torrent, fetched from a peer (`fetchMetadata`)
-- and read (`decodeInfoDict`). `Marshal` of the package bencode-go is a parameter, of which nothing
-- is assumed; it makes only what is sent. Progress messages, deadlines and failing writes are left out.
pub mod Race
pub mod Standing
pub mod Settled
pub mod Moves
pub mod Never
pub mod Info
pub mod Genuine
pub mod Messages
pub mod Honest
mod Examples
use bit_torrent.Bencode.Scan.{is_negative}
use bit_torrent.Bencode.Decode.{decode_bencode_value, len_value}
use bit_torrent.Wire.Handshake.{codes, handshake_with_ext_bit}
use bit_torrent.Metadata.Info.{decode_info_dict, InfoDict}
use bit_torrent.Wire.Message.{msg_extended, read_message, Message}
use bit_torrent.Base.{
  ◌===◌, replicate, Result, negsuc, get_or, ltb, ◌==ℤ◌, byte_of, ◌==◌, not, none, some, zero,
  length, drop, if◌then◌else◌, pos, suc, take, Option, ℤ, ◌∷◌, ◌+◌, [], ◌≡◌, ◌<◌, ℕ, List, false,
  true, Bool, ◌*◌, ◌/◌, ◌-◌, ◌++◌, ◌&&◌, ◌||◌,
}
use bit_torrent.Bencode.Value.{
  lookup, as_dict, as_int, Entries, Outcome, Value, num, str, list, dict,
}

abbrev pub max_skip : ℕ
max_skip = 200

abbrev pub meta_piece_size : ℕ
meta_piece_size = 16384

pub data FetchError : Type 0 where
  handshake_failed no_extension_protocol read_failed no_ut_metadata bad_metadata_size piece_rejected
        piece_not_received hash_mismatch bad_info :
      FetchError

-- A panic is recovered by `fetchMetadataWithRecovery`; `hangs` is a call of `bencodeLen` that exceeds
-- the fuel.
pub data Fetched {ℓ} (A : Type ℓ) : Type ℓ where
  ok : A → Fetched A
  err : FetchError → Fetched A
  panics hangs : Fetched A

infixl 5 ◌>>=◌
abbrev pub ◌>>=◌ {ℓ κ} : {A : Type ℓ} {B : Type κ} → Fetched A → (A → Fetched B) → Fetched B
ok a >>= f = f a
err e >>= f = err e
panics >>= f = panics
hangs >>= f = hangs

-- What a message is to the loop that waits for the extension handshake: `peerMetaID` and
-- `metadataSize`, each 0 where it is missing.
pub data Seen : Type 0 where
  skip : Seen
  announces : ℤ → ℤ → Seen
  crash : Seen

abbrev pub or_zero : Option ℤ → ℤ
or_zero none = pos 0
or_zero (some z) = z

unfoldable pub meta_id : Entries → Option ℤ
meta_id hs = elim (as_dict (lookup (codes "m") hs)) [
  | none ↦ none
  | some m ↦ as_int (lookup (codes "ut_metadata") m)
]

unfoldable pub read_extension_handshake : Message → Seen
unfolding meta_id
read_extension_handshake msg =
    if not (msg.id ==ℤ msg_extended)
      || (length msg.payload == 0 || not (get_or msg.payload 0 0 == 0))
    then skip
    else elim (decode_bencode_value (drop 1 msg.payload)) [
      | Outcome.ok (dict hs, n) ↦
          announces (or_zero (meta_id hs)) (or_zero (as_int (lookup (codes "metadata_size") hs)))
      | Outcome.ok (_, n) ↦ skip
      | Outcome.err e ↦ skip
      | Outcome.panic ↦ crash
      | Outcome.out_of_fuel ↦ skip
    ]

-- `ReadMessage` on the connection.
abbrev pub receive : List ℕ → Fetched (Message × List ℕ)
receive conn = elim (read_message conn) [ Result.ok r ↦ ok r | Result.err e ↦ err read_failed ]

unfoldable pub on_seen : Fetched (ℤ × ℤ × List ℕ) → List ℕ → Seen → Fetched (ℤ × ℤ × List ℕ)
on_seen again rest skip = again
on_seen again rest (announces id size) = ok (id, size, rest)
on_seen again rest crash = panics

-- The loop that skips at most so many messages.
unfoldable pub await_handshake : ℕ → List ℕ → Fetched (ℤ × ℤ × List ℕ)
unfolding on_seen
await_handshake zero conn = ok (pos 0, pos 0, conn)
await_handshake (suc k) conn = do
  (msg, rest) ← receive conn
  let again = await_handshake k rest
  on_seen again rest (read_extension_handshake msg)

-- What a message is to the loop that waits for a piece of the description.
pub data Reply : Type 0 where
  other : Reply
  piece_data : List ℕ → Reply
  rejected : Reply
  reply_panics reply_hangs : Reply

-- A dictionary in front of the bytes `raw`.
unfoldable pub read_reply : Outcome (Value × ℕ) → List ℕ → Reply
read_reply (Outcome.ok (dict resp, n)) raw =
    let msg_type = or_zero (as_int (lookup (codes "msg_type") resp)) in
    if msg_type ==ℤ pos 1 then piece_data raw else if msg_type ==ℤ pos 2 then rejected else other
read_reply (Outcome.ok (_, n)) raw = other
read_reply (Outcome.err e) raw = other
read_reply Outcome.panic raw = reply_panics
read_reply Outcome.out_of_fuel raw = other

unfoldable pub read_metadata_message : ℕ → Message → Reply
unfolding read_reply
read_metadata_message f msg =
    let body = drop 1 msg.payload in
    if not (msg.id ==ℤ msg_extended) || ltb (length msg.payload) 2
    then other
    else elim (len_value f body) [
      | Outcome.ok n ↦
          if is_negative n || ltb (length body) n
          then reply_panics
          else read_reply (decode_bencode_value (take n body)) (drop n body)
      | Outcome.err e ↦ other
      | Outcome.panic ↦ reply_panics
      | Outcome.out_of_fuel ↦ reply_hangs
    ]

-- `copy(assembled[offset:], raw)`
unfoldable pub copy_at : ℕ → List ℕ → List ℕ → List ℕ
copy_at off raw assembled =
    take off assembled ++ (take (length assembled - off) raw ++ drop (off + length raw) assembled)

-- `again` is the next turn of the loop.
unfoldable pub on_reply : Fetched (List ℕ × List ℕ) → List ℕ → Reply → Fetched (List ℕ × List ℕ)
on_reply again rest other = again
on_reply again rest (piece_data raw) = ok (raw, rest)
on_reply again rest rejected = err piece_rejected
on_reply again rest reply_panics = panics
on_reply again rest reply_hangs = hangs

unfoldable pub await_piece : ℕ → ℕ → List ℕ → Fetched (List ℕ × List ℕ)
unfolding on_reply
await_piece f zero conn = err piece_not_received
await_piece f (suc k) conn = do
  (msg, rest) ← receive conn
  let again = await_piece f k rest
  on_reply again rest (read_metadata_message f msg)

-- The pieces from index `i` on; the rest of the connection is not looked at any more.
unfoldable pub fetch_pieces : ℕ → ℕ → ℕ → List ℕ → List ℕ → Fetched (List ℕ)
unfolding await_piece copy_at
fetch_pieces f zero i assembled conn = ok assembled
fetch_pieces f (suc left) i assembled conn = do
  (raw, rest) ← await_piece f max_skip conn
  fetch_pieces f left (i + 1) (copy_at (i * meta_piece_size) raw assembled) rest

-- A size that is accepted, as a number.
unfoldable pub metadata_size : ℤ → Fetched ℕ
metadata_size (pos n) = if n == 0 || ltb (10 * 1024 * 1024) n then err bad_metadata_size else ok n
metadata_size (negsuc n) = err bad_metadata_size

unfoldable pub or_bad_info : Option InfoDict → Fetched InfoDict
or_bad_info none = err bad_info
or_bad_info (some info) = ok info

-- `decodeInfoDict` of what was assembled.
unfoldable pub read_info : List ℕ → Fetched InfoDict
unfolding or_bad_info
read_info assembled = elim (decode_info_dict assembled) [
  | Outcome.ok info ↦ or_bad_info info
  | Outcome.err e ↦ err bad_info
  | Outcome.panic ↦ panics
  | Outcome.out_of_fuel ↦ err bad_info
]

-- `sha1` stands for crypto/sha1's Sum; nothing is assumed of it.
module _ (sha1 : List ℕ → List ℕ) where
  unfoldable pub checked_info : List ℕ → List ℕ → Fetched InfoDict
  unfolding read_info
  checked_info info_hash assembled =
      if not (sha1 assembled === info_hash) then err hash_mismatch else read_info assembled

  -- What follows the two handshakes of the wire protocol.
  unfoldable pub exchange : ℕ → List ℕ → List ℕ → Fetched InfoDict
  unfolding await_handshake fetch_pieces metadata_size checked_info
  exchange f info_hash conn = do
    (id, size, rest) ← await_handshake max_skip conn
    n ← (if id ==ℤ pos 0 then err no_ut_metadata else metadata_size size)
    assembled ← fetch_pieces f ((n + meta_piece_size - 1) / meta_piece_size) 0 (replicate n 0) rest
    checked_info info_hash assembled

  unfoldable pub fetch_metadata : ℕ → List ℕ → List ℕ → List ℕ → Fetched InfoDict
  unfolding exchange
  fetch_metadata f conn info_hash peer_id = elim (handshake_with_ext_bit conn info_hash peer_id).1 [
    | Result.err e ↦ err handshake_failed
    | Result.ok (remote, supports_ext, rest) ↦
        if not supports_ext then err no_extension_protocol else exchange f info_hash rest
  ]

  -- The requests of the pieces, in their order; `marshal` makes the dictionary of the request.
  unfoldable pub requests : (ℕ → List ℕ) → ℤ → ℕ → ℕ → List Message
  requests marshal id zero i = []
  requests marshal id (suc left) i =
      record { id = msg_extended; payload = byte_of id ∷ marshal i }
      ∷ requests marshal id left (i + 1)
