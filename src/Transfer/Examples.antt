-- ===== src/Transfer/Examples.antt =====
-- A piece of two bytes, in one block.
use bit_torrent.Wire.Handshake.{codes}
use bit_torrent.Transfer.Progress.{turn-piece_message}
use bit_torrent.Transfer.Answers.{downloaded_genuine, waiting-IsSound}
use bit_torrent.Transfer.Sound.{start-IsSound, IsReceivable, IsSound}
use bit_torrent.Transfer.{
  msg_extended, block_len, going, request, clamp, waiting, downloaded, turn, fill, received, run,
  find_block, start, Transfer, download_piece_from_session,
}
use bit_torrent.Wire.Bytes.{IsU32, put_uint32}
use bit_torrent.Pieces.Geometry.{num_pieces, piece_length_at}
use bit_torrent.Pieces.Torrent.{TorrentInfo}
use bit_torrent.Base.{
  some, refl, arith, length, get_or, ◌∷◌, ◌+◌, [], ◌≡◌, ◌<◌, ℕ, List, ◌≢◌, false, take,
}
use bit_torrent.Wire.Message.{msg_extended, Message, piece_message}

abbrev first : List ℕ → List ℕ
first b = take 1 b

abbrev tiny : TorrentInfo
tiny = record {
  name = [];
  length = 2;
  piece_length = 2;
  private = false;
  piece_hashes = (3 ∷ []) ∷ [];
  files = [];
}

abbrev block_message : Message
block_message = piece_message 0 0 (3 ∷ 9 ∷ [])

tiny_size : IsU32 (piece_length_at tiny 0)
unfolding piece_length_at num_pieces
tiny_size = omega arith

block-IsReceivable : IsReceivable block_message
unfolding piece_message put_uint32
block-IsReceivable = omega arith

download-tiny :
    download_piece_from_session first tiny 0 [] 0 8 (received block_message ∷ [])
    ≡ downloaded (3 ∷ 9 ∷ [])
unfolding download_piece_from_session run start turn piece_length_at piece_message
    bit_torrent.Wire.Message.parse_piece_message put_uint32 bit_torrent.Wire.Bytes.uint32
    bit_torrent.Base.◌===◌
download-tiny = refl

downloaded_genuine_example : (2 ≡ piece_length_at tiny 0) × (3 ∷ [] ≡ get_or tiny.piece_hashes 0 [])
downloaded_genuine_example =
    downloaded_genuine first tiny 0 [] 0 8 (received block_message ∷ []) (3 ∷ 9 ∷ []) tiny_size
      (block-IsReceivable, tt) download-tiny

-- A peer exchange whose length of a string wraps.
abbrev bad_exchange : Message
bad_exchange = record { id = msg_extended; payload = 1 ∷ codes "18446744073709551595:" }

abbrev begun : Transfer
begun = start [] 0 8 2

download-nothing : download_piece_from_session first tiny 0 [] 0 8 [] ≡ waiting begun
unfolding download_piece_from_session run start piece_length_at
download-nothing = refl

waiting-IsSound_example :
    IsSound (piece_length_at tiny 0) begun × (begun.written < piece_length_at tiny 0)
waiting-IsSound_example = waiting-IsSound first tiny 0 [] 0 8 [] begun tiny_size tt download-nothing

requested :
    find_block 0 (fill (clamp begun.window) (clamp begun.window) 2 0 begun).in_flight ≡ some 2
unfolding find_block fill request start block_len clamp
requested = refl

turn-piece_message_example :
    (t' : Transfer) × (turn 2 0 (received block_message) begun ≡ going t')
    × (t'.written ≡ begun.written + 2)
    × (0 < 2)
turn-piece_message_example =
    turn-piece_message 2 0 0 (3 ∷ 9 ∷ []) begun (omega arith) (omega arith) (start-IsSound [] 0 8 2)
      requested
