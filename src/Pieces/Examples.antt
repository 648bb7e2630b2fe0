-- ===== src/Pieces/Examples.antt =====
-- A torrent of ten bytes in pieces of four.
use Prim.Native.Nat.{ℕ}
use bit_torrent.Pieces.Seed.{
  open_seed_store, open_seed_store-read_piece, is_offered, not_available, read_piece, SeedStore,
}
use bit_torrent.Pieces.Resume.{
  prepare_sound, count_true, piece_ok, initial_completed, prepare_output_and_state, Prepared,
}
use bit_torrent.Base.{
  err, if◌then◌else◌, ◌≤◌, ◌<◌, none, true, drop, ◌+◌, ok, replicate, length, ◌&&◌, some, ◌∷◌, refl,
  arith, false, get_or, Bool, ◌≡◌, take, [], Option, ℕ, List,
}
use bit_torrent.Pieces.Geometry.{
  pieces_cover, bytes_below, IsConsistent, piece_offset, piece_length_at, num_pieces,
}
use bit_torrent.Pieces.Torrent.{TorrentInfo}

abbrev ten_bytes : TorrentInfo
ten_bytes = record {
  name = [];
  length = 10;
  piece_length = 4;
  private = false;
  piece_hashes = (1 ∷ []) ∷ (2 ∷ []) ∷ (3 ∷ []) ∷ [];
  files = [];
}

ten_bytes-IsConsistent : IsConsistent ten_bytes
unfolding num_pieces
ten_bytes-IsConsistent = record {
  some_piece = omega arith;
  enough = omega arith;
  none_empty = omega arith;
}

-- Stands for a hash function: the first byte.
abbrev first_byte : List ℕ → List ℕ
first_byte b = take 1 b

last_piece : piece_length_at ten_bytes 2 ≡ 2
unfolding piece_length_at num_pieces
last_piece = refl

pieces_cover_example :
    (bytes_below ten_bytes 2 ≡ piece_offset ten_bytes 2)
    × (bytes_below ten_bytes (num_pieces ten_bytes) ≡ 10)
pieces_cover_example =
    pieces_cover ten_bytes 2 ten_bytes-IsConsistent (unfold num_pieces in omega arith)

abbrev saved : Option (List Bool)
saved = some (true ∷ true ∷ false ∷ [])

abbrev prepared : Prepared
prepared = prepare_output_and_state first_byte (1 ∷ []) saved ten_bytes

prepare_sound_example :
    ((i : ℕ)
      → get_or prepared.completed i false ≡ (
          get_or (initial_completed (num_pieces ten_bytes) saved) i false
          && piece_ok first_byte prepared.file ten_bytes i))
    × (length prepared.completed ≡ num_pieces ten_bytes)
    × (prepared.remaining + count_true prepared.completed ≡ num_pieces ten_bytes)
prepare_sound_example = prepare_sound first_byte (1 ∷ []) saved ten_bytes

abbrev blank : List ℕ
blank = replicate 10 0

open_seed_store-read_piece_example :
    (s : SeedStore) × (open_seed_store (some ten_bytes) (some blank) none ≡ ok s)
    × ((i begin len : ℕ)
        → i < num_pieces ten_bytes
        → 0 < len
        → begin + len ≤ piece_length_at ten_bytes i
        → read_piece i begin len (some s) ≡ (
            if is_offered (num_pieces ten_bytes) none i
            then ok (take len (drop (piece_offset ten_bytes i + begin) blank))
            else err not_available))
open_seed_store-read_piece_example =
    open_seed_store-read_piece ten_bytes blank none ten_bytes-IsConsistent
      (unfold num_pieces in omega arith) (omega arith)
