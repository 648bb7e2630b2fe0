-- ===== src/Wire/Message.antt =====
-- Messages, their encoding and `ReadMessage` (protocol.go), and the builders of payloads.
use Prim.Native.String.{String}
use bit_torrent.Base.{
  ℕ, ◌+◌, ◌*◌, ◌%◌, ◌^◌, List, [], ◌∷◌, ◌++◌, ltb, ◌==◌, if◌then◌else◌, get_or, drop, length,
  Result, ok, err, ◌>>=◌, ℤ, pos, negsuc, byte_of, ◌==ℤ◌, not,
}
use bit_torrent.Wire.Bytes.{ReadError, too_large, put_uint32, uint32, read_full}

pub record Message : Type 0 where
  pub id : ℤ
  pub payload : List ℕ

-- The message IDs; -1 stands for a keep-alive.
abbrev pub msg_keep_alive : ℤ
msg_keep_alive = negsuc 0

abbrev pub msg_choke : ℤ
msg_choke = pos 0

abbrev pub msg_unchoke : ℤ
msg_unchoke = pos 1

abbrev pub msg_interested : ℤ
msg_interested = pos 2

abbrev pub msg_have : ℤ
msg_have = pos 4

abbrev pub msg_bitfield : ℤ
msg_bitfield = pos 5

abbrev pub msg_request : ℤ
msg_request = pos 6

abbrev pub msg_piece : ℤ
msg_piece = pos 7

abbrev pub msg_cancel : ℤ
msg_cancel = pos 8

abbrev pub msg_extended : ℤ
msg_extended = pos 20

abbrev pub max_message_size : ℕ
max_message_size = 32 * 1024 * 1024

unfoldable pub encode : Message → List ℕ
encode m =
    if m.id ==ℤ msg_keep_alive
    then 0 ∷ 0 ∷ 0 ∷ 0 ∷ []
    else put_uint32 ((1 + length m.payload) % 2 ^ 32) ++ (byte_of m.id ∷ m.payload)

-- The length prefix has been read, and `s` is what follows it.
unfoldable pub read_body : ℕ → List ℕ → Result ReadError (Message × List ℕ)
read_body len s =
    if len == 0
    then ok (record { id = msg_keep_alive; payload = [] }, s)
    else if ltb max_message_size len
    then err too_large
    else do
      (payload, rest) ← read_full len s
      ok (record { id = pos (get_or payload 0 0); payload = drop 1 payload }, rest)

unfoldable pub read_message : List ℕ → Result ReadError (Message × List ℕ)
read_message s = do (length_buf, body) ← read_full 4 s; read_body (uint32 length_buf) body

-- `Message.String`.
pub name : ℤ → String
name i =
    if i ==ℤ negsuc 0
    then "KeepAlive"
    else if i ==ℤ pos 0
    then "Choke"
    else if i ==ℤ pos 1
    then "Unchoke"
    else if i ==ℤ pos 2
    then "Interested"
    else if i ==ℤ pos 3
    then "NotInterested"
    else if i ==ℤ pos 4
    then "Have"
    else if i ==ℤ pos 5
    then "Bitfield"
    else if i ==ℤ pos 6
    then "Request"
    else if i ==ℤ pos 7
    then "Piece"
    else if i ==ℤ pos 8
    then "Cancel"
    else if i ==ℤ pos 20
    then "Extended"
    else "Unknown"

-- The uint32 arguments of the builders are below 2 ^ 32.
unfoldable pub request_message : ℕ → ℕ → ℕ → Message
request_message index begin len = record {
  id = msg_request;
  payload = put_uint32 index ++ (put_uint32 begin ++ put_uint32 len);
}

unfoldable pub cancel_message : ℕ → ℕ → ℕ → Message
cancel_message index begin len = record {
  id = msg_cancel;
  payload = put_uint32 index ++ (put_uint32 begin ++ put_uint32 len);
}

unfoldable pub piece_message : ℕ → ℕ → List ℕ → Message
piece_message index begin block = record {
  id = msg_piece;
  payload = put_uint32 index ++ (put_uint32 begin ++ block);
}

unfoldable pub have_message : ℕ → Message
have_message index = record { id = msg_have; payload = put_uint32 index }

unfoldable pub bitfield_message : List ℕ → Message
bitfield_message bitfield = record { id = msg_bitfield; payload = bitfield }

unfoldable pub interested_message : Message
interested_message = record { id = msg_interested; payload = [] }

pub data PayloadError : Type 0 where
  invalid_length : PayloadError

unfoldable pub parse_request_message : List ℕ → Result PayloadError (ℕ × ℕ × ℕ)
parse_request_message payload =
    if not (length payload == 12)
    then err invalid_length
    else ok (uint32 payload, uint32 (drop 4 payload), uint32 (drop 8 payload))

unfoldable pub parse_piece_message : List ℕ → Result PayloadError (ℕ × ℕ × List ℕ)
parse_piece_message payload =
    if ltb (length payload) 8
    then err invalid_length
    else ok (uint32 payload, uint32 (drop 4 payload), drop 8 payload)
