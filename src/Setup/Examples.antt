-- ===== src/Setup/Examples.antt =====
-- A peer that sends its pieces, then unchokes.
use bit_torrent.Setup.{ready, setup_loop, default_inflight_peer}
use bit_torrent.Setup.Unchoked.{Unchoked, setup_loop-Unchoked}
use bit_torrent.Download.{Session}
use bit_torrent.Wire.Message.{Message, encode, bitfield_message, have_message, msg_unchoke}
use bit_torrent.Base.{ℕ, List, [], ◌∷◌, ◌++◌, ◌≡◌, refl}

abbrev fresh : Session
fresh = record {
  key = 1 ∷ [];
  bitfield = [];
  ut_pex_id = 0;
  window = default_inflight_peer;
  served = 0;
}

abbrev unchoke : Message
unchoke = record { id = msg_unchoke; payload = [] }

abbrev arriving : List ℕ
arriving =
    encode (bitfield_message (128 ∷ []))
    ++ (encode (have_message 1) ++ (encode unchoke ++ (7 ∷ [])))

abbrev with_pieces : Session
with_pieces = record {
  key = 1 ∷ [];
  bitfield = 192 ∷ [];
  ut_pex_id = 0;
  window = default_inflight_peer;
  served = 0;
}

runs : setup_loop 40 arriving fresh [] ≡ ready with_pieces [] (7 ∷ [])
unfolding setup_loop bit_torrent.Wire.Message.read_message bit_torrent.Wire.Bytes.read_full encode
    bitfield_message bit_torrent.Wire.Bytes.put_uint32 have_message
    bit_torrent.Wire.Message.read_body bit_torrent.Wire.Bytes.uint32
    bit_torrent.Wire.Payloads.parse_have_index bit_torrent.Pieces.Bitfield.set_bitfield_piece
runs = refl

setup_loop-Unchoked_example : Unchoked 40 arriving (7 ∷ [])
setup_loop-Unchoked_example = setup_loop-Unchoked 40 arriving fresh with_pieces [] [] (7 ∷ []) runs
