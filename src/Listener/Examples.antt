-- ===== src/Listener/Examples.antt =====
-- A peer that asks for the only piece of a torrent of two bytes.
use bit_torrent.Listener.Polite.{IsPolite}
use bit_torrent.Listener.Store.{IsFromFile, store_options, handle_connection-IsFromFile}
use bit_torrent.Listener.{Serving, serve, greeted, handle_connection}
use bit_torrent.Pieces.Seed.{SeedStore}
use bit_torrent.Wire.Handshake.{build_handshake}
use bit_torrent.Wire.Framing.{encodes}
use bit_torrent.Wire.Message.{encode, interested_message, request_message}
use bit_torrent.Base.{ℕ, List, [], ◌∷◌, ◌++◌, ◌≡◌, Bool, true, false, some, refl, All, replicate}

abbrev seeded : SeedStore
seeded = record {
  torrent = record {
    name = [];
    length = 2;
    piece_length = 2;
    private = false;
    piece_hashes = (3 ∷ []) ∷ [];
    files = [];
  };
  file = 3 ∷ 9 ∷ [];
  completed = true ∷ [];
}

abbrev info_hash : List ℕ
info_hash = replicate 20 1

abbrev peer_id : List ℕ
peer_id = replicate 20 2

abbrev requests : List ℕ
requests = encode interested_message ++ encode (request_message 0 0 2)

abbrev connection : List ℕ
connection = build_handshake info_hash (replicate 20 5) ++ requests

abbrev turns : List (Bool × Bool)
turns = (false, true) ∷ (true, true) ∷ []

abbrev end_state : Serving
end_state =
    (serve (store_options seeded true true) turns requests
      (greeted (store_options seeded true true))).0

blocks_sent : end_state.uploaded ≡ 2 ∷ []
unfolding serve greeted encode bit_torrent.Wire.Message.read_message
    bit_torrent.Wire.Bytes.read_full interested_message bit_torrent.Wire.Bytes.put_uint32
    request_message bit_torrent.Wire.Message.read_body bit_torrent.Wire.Bytes.uint32
    bit_torrent.Wire.Message.parse_request_message bit_torrent.Pieces.Seed.read_piece
    bit_torrent.Pieces.Geometry.piece_length_at bit_torrent.Pieces.Disk.read_at
    bit_torrent.Pieces.Geometry.piece_offset
blocks_sent = refl

run :
    handle_connection (store_options seeded true true) info_hash peer_id connection turns
    ≡ some (build_handshake info_hash peer_id ++ encodes end_state.sent, end_state)
unfolding handle_connection encode bit_torrent.Wire.Handshake.read_handshake
    bit_torrent.Wire.Handshake.read_handshake_full bit_torrent.Wire.Bytes.read_full build_handshake
    bit_torrent.Wire.Handshake.build_handshake_with_reserved interested_message
    bit_torrent.Wire.Bytes.put_uint32 request_message bit_torrent.Wire.Handshake.check_handshake
    bit_torrent.Base.◌===◌
run = refl

handle_connection-IsFromFile_example :
    (build_handshake info_hash peer_id ++ encodes end_state.sent
      ≡ build_handshake info_hash peer_id ++ encodes end_state.sent)
    × IsPolite end_state
    × All (IsFromFile seeded) end_state.sent
handle_connection-IsFromFile_example =
    handle_connection-IsFromFile seeded true true info_hash peer_id connection
      (build_handshake info_hash peer_id ++ encodes end_state.sent) turns end_state run
