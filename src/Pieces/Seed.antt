-- ===== src/Pieces/Seed.antt =====
-- `SeedStore` of internal/downloader/downloader.go: what inbound peers are served. An index, an
-- offset and a length come from uint32 fields, so none is negative. `none` is the nil store.
use bit_torrent.Pieces.Geometry.{
  piece_inside, piece_offset, piece_length_at, num_pieces, IsConsistent,
}
use bit_torrent.Pieces.Disk.{read_at, DiskError}
use bit_torrent.Pieces.Torrent.{TorrentInfo}
use bit_torrent.Base.{
  ap, ◌∙◌, length-take, length-drop, replicate, length-replicate, Bool-cases, zero, suc, true, inl,
  inr, refl, arith, ltb, drop, ◌||◌, take, ◌==◌, get_or, not, leb, none, if◌then◌else◌, length,
  some, Option, ◌+◌, ◌≡◌, ◌<◌, ◌≤◌, ℕ, List, false, Bool, ok, err, Result,
}

pub record SeedStore : Type 0 where
  pub torrent : TorrentInfo
  pub file : List ℕ
  pub completed : List Bool

pub data SeedError : Type 0 where
  not_available invalid_range read_error : SeedError

unfoldable pub store_size : Option SeedStore → ℕ
store_size none = 0
store_size (some s) = length s.completed

unfoldable pub has_piece : ℕ → Option SeedStore → Bool
has_piece i none = false
has_piece i (some s) = if leb (length s.completed) i then false else get_or s.completed i false

read_block : Result DiskError (List ℕ) → Result SeedError (List ℕ)
read_block (ok b) = ok b
read_block (err e) = err read_error

unfoldable pub read_piece : ℕ → ℕ → ℕ → Option SeedStore → Result SeedError (List ℕ)
unfolding has_piece read_block
read_piece i begin len none = err not_available
read_piece i begin len (some s) =
    if not (has_piece i (some s))
    then err not_available
    else if len == 0 || ltb (piece_length_at s.torrent i) (begin + len)
    then err invalid_range
    else read_block (read_at s.file (piece_offset s.torrent i + begin) len)

-- What is taken for a torrent that can be seeded: `none` for a data file that cannot be opened, and for
-- a resume state that cannot be read.
pub data OpenSeedError : Type 0 where
  invalid_torrent open_failed incomplete : OpenSeedError

abbrev pub seed_flags : ℕ → Option (List Bool) → List Bool
seed_flags n none = replicate n true
seed_flags n (some st) = if length st == n then st else replicate n true

unfoldable pub open_seed_store :
    Option TorrentInfo → Option (List ℕ) → Option (List Bool) → Result OpenSeedError SeedStore
open_seed_store none file state = err invalid_torrent
open_seed_store (some t) none state =
    if num_pieces t == 0 then err invalid_torrent else err open_failed
open_seed_store (some t) (some file) state =
    if num_pieces t == 0
    then err invalid_torrent
    else if ltb (length file) t.length
    then err incomplete
    else ok (record { torrent = t; file = file; completed = seed_flags (num_pieces t) state })

has_piece-replicate : (n i : ℕ) → i < n → get_or (replicate n true) i false ≡ true
has_piece-replicate zero i h = absurd (omega arith)
has_piece-replicate (suc n) zero h = refl
has_piece-replicate (suc n) (suc i) h = has_piece-replicate n i (omega arith)

-- Where the torrent is consistent and the data file is no shorter than it, a block of some bytes
-- inside a piece that is there is served: the answer is its bytes of the data file.
pub read_piece_served :
    (s : SeedStore) (i begin len : ℕ)
    → IsConsistent s.torrent
    → i < num_pieces s.torrent
    → s.torrent.length ≤ length s.file
    → has_piece i (some s) ≡ true
    → 0 < len
    → begin + len ≤ piece_length_at s.torrent i
    → read_piece i begin len (some s)
      ≡ ok (take len (drop (piece_offset s.torrent i + begin) s.file))
unfolding read_piece read_at
read_piece_served s i begin len c h size has some_bytes fits =
    let (inside, _, _) = piece_inside s.torrent i c h in
    let in_file : leb (piece_offset s.torrent i + begin + len) (length s.file) ≡ true =
      ground (arith, inside, size, fits) in
    let valid : (len == 0 || ltb (piece_length_at s.torrent i) (begin + len)) ≡ false =
      ground (arith, fits, some_bytes) in
    rw (has, valid, in_file) refl

-- Whether a piece is to be offered: what the saved state says, and any piece where no state of as many
-- pieces was read.
abbrev pub is_offered : ℕ → Option (List Bool) → ℕ → Bool
is_offered n none i = true
is_offered n (some st) i = if length st == n then get_or st i false else true

all_offered :
    (t : TorrentInfo) (file : List ℕ) (i : ℕ)
    → i < num_pieces t
    → has_piece i
        (some (record { torrent = t; file = file; completed = replicate (num_pieces t) true }))
      ≡ true
unfolding has_piece
all_offered t file i h =
    let inside : leb (length (replicate (num_pieces t) true)) i ≡ false =
      ground (arith, h, length-replicate (num_pieces t) true) in
    rw inside (has_piece-replicate (num_pieces t) i h)

has_piece-offered :
    (t : TorrentInfo) (file : List ℕ) (state : Option (List Bool)) (i : ℕ)
    → i < num_pieces t
    → has_piece i
        (some (record { torrent = t; file = file; completed = seed_flags (num_pieces t) state }))
      ≡ is_offered (num_pieces t) state i
unfolding has_piece
has_piece-offered t file none i h = all_offered t file i h
has_piece-offered t file (some st) i h = elim (Bool-cases (length st == num_pieces t)) [
  | inl e ↦ let inside : leb (length st) i ≡ false = ground (arith, h, e) in rw (e, inside) refl
  | inr e ↦ rw e (all_offered t file i h)
]

-- Where a torrent is consistent and has pieces, and the data file is no shorter than it, opening the
-- seed store succeeds, and it serves a block of some bytes inside a piece with its bytes of the data
-- file where the saved state has the piece, or where no state of as many pieces could be read, whether
-- or not the piece has its hash; any other block inside a piece is not available.
pub open_seed_store-read_piece :
    (t : TorrentInfo) (file : List ℕ) (state : Option (List Bool))
    → IsConsistent t
    → 0 < num_pieces t
    → t.length ≤ length file
    → (s : SeedStore) × (open_seed_store (some t) (some file) state ≡ ok s)
      × ((i begin len : ℕ)
          → i < num_pieces t
          → 0 < len
          → begin + len ≤ piece_length_at t i
          → read_piece i begin len (some s) ≡ (
              if is_offered (num_pieces t) state i
              then ok (take len (drop (piece_offset t i + begin) file))
              else err not_available))
unfolding open_seed_store
open_seed_store-read_piece t file state c some_pieces enough =
    let s : SeedStore = record {
      torrent = t;
      file = file;
      completed = seed_flags (num_pieces t) state;
    } in
    let pieces : (num_pieces t == 0) ≡ false = ground (arith, some_pieces) in
    let long : ltb (length file) t.length ≡ false = ground (arith, enough) in
    (s, rw (pieces, long) refl, served)
  where
    served :
        (i begin len : ℕ)
        → i < num_pieces t
        → 0 < len
        → begin + len ≤ piece_length_at t i
        → read_piece i begin len (
            some (record { torrent = t; file = file; completed = seed_flags (num_pieces t) state }))
          ≡ (if is_offered (num_pieces t) state i
              then ok (take len (drop (piece_offset t i + begin) file))
              else err not_available)
    served i begin len h some_bytes fits =
        let has = has_piece-offered t file state i h in
        elim (Bool-cases (is_offered (num_pieces t) state i)) [
          | inl e ↦ rw e (
              read_piece_served
                (record { torrent = t; file = file; completed = seed_flags (num_pieces t) state }) i
                begin len c h enough (has ∙ e) some_bytes fits)
          | inr e ↦ rw e (refused i begin len (has ∙ e))
        ]
      where
        refused :
            (i begin len : ℕ)
            → has_piece i (
                some (record {
                  torrent = t;
                  file = file;
                  completed = seed_flags (num_pieces t) state;
                }))
              ≡ false
            → read_piece i begin len (
                some (record {
                  torrent = t;
                  file = file;
                  completed = seed_flags (num_pieces t) state;
                }))
              ≡ err not_available
        refused i begin len e = unfold read_piece in rw e refl

pub record IsBlock (s : SeedStore) (i begin len : ℕ) (block : List ℕ) : Type 0 where
  pub here : has_piece i (some s) ≡ true
  pub some_bytes : 0 < len
  pub inside : begin + len ≤ piece_length_at s.torrent i
  pub size : length block ≡ len
  pub bytes : block ≡ take len (drop (piece_offset s.torrent i + begin) s.file)

-- Only such blocks are served.
pub read_piece-IsBlock :
    (s : SeedStore) (i begin len : ℕ) (block : List ℕ)
    → read_piece i begin len (some s) ≡ ok block
    → IsBlock s i begin len block
unfolding read_piece read_at
read_piece-IsBlock s i begin len block e = elim (Bool-cases (has_piece i (some s))) [
  | inr no_piece ↦ absurd (ground (arith, no_piece, e))
  | inl here ↦ elim (Bool-cases (len == 0 || ltb (piece_length_at s.torrent i) (begin + len))) [
    | inl bad ↦ absurd (ground (arith, here, bad, e))
    | inr good ↦ elim (Bool-cases (leb (piece_offset s.torrent i + begin + len) (length s.file))) [
      | inr out ↦ absurd (ground (arith, here, good, out, e))
      | inl within ↦
          let from = piece_offset s.torrent i + begin in
          let same : block ≡ take len (drop from s.file) = ground (arith, here, good, within, e) in
          let fits : from + len ≤ length s.file = ground (arith, within) in
          record {
            here = here;
            some_bytes = ground (arith, good);
            inside = ground (arith, good);
            size =
                ap length same
                ∙ omega (arith, length-take len (drop from s.file), length-drop from s.file, fits);
            bytes = same;
          }
    ]
  ]
]
