-- ===== src/Resume.antt =====
-- internal/state/state.go: the progress of a download. Reading and writing the file is left to
-- encoding/json. An index or a length here is not negative; NewDownloadState divides by the piece
-- length, which is not zero where it answers.
pub mod Progress
mod Examples
use bit_torrent.Base.{
  get_or, set, not, ltb, length, if◌then◌else◌, replicate, ◌∷◌, ◌+◌, [], ◌≡◌, ◌<◌, ℕ, List, false,
  true, ◌-◌, ◌/◌, Bool,
}

pub record DownloadState : Type 0 where
  pub info_hash : List ℕ
  pub name : List ℕ
  pub total_size : ℕ
  pub piece_length : ℕ
  pub num_pieces : ℕ
  pub downloaded_pieces : List Bool

unfoldable pub new_download_state : List ℕ → List ℕ → ℕ → ℕ → DownloadState
new_download_state info_hash name total_size piece_length =
    let n = (total_size + piece_length - 1) / piece_length in
    record {
      info_hash = info_hash;
      name = name;
      total_size = total_size;
      piece_length = piece_length;
      num_pieces = n;
      downloaded_pieces = replicate n false;
    }

unfoldable pub mark_piece_downloaded : ℕ → DownloadState → DownloadState
mark_piece_downloaded i ds =
    if ltb i (length ds.downloaded_pieces)
    then record ds { downloaded_pieces = set ds.downloaded_pieces i true }
    else ds

unfoldable pub is_piece_downloaded : ℕ → DownloadState → Bool
is_piece_downloaded i ds =
    if ltb i (length ds.downloaded_pieces) then get_or ds.downloaded_pieces i false else false

-- The loop of `GetPendingPieces` from index `i`.
unfoldable pub pending_from : ℕ → List Bool → List ℕ
pending_from i [] = []
pending_from i (b ∷ bs) = let rest = pending_from (i + 1) bs in if not b then i ∷ rest else rest

unfoldable pub get_pending_pieces : DownloadState → List ℕ
unfolding pending_from
get_pending_pieces ds = pending_from 0 ds.downloaded_pieces

unfoldable pub count_downloaded : List Bool → ℕ
count_downloaded [] = 0
count_downloaded (b ∷ bs) = (if b then 1 else 0) + count_downloaded bs

unfoldable pub get_download_progress : DownloadState → ℕ × ℕ
unfolding count_downloaded
get_download_progress ds = (count_downloaded ds.downloaded_pieces, length ds.downloaded_pieces)

unfoldable pub all_downloaded : List Bool → Bool
all_downloaded [] = true
all_downloaded (b ∷ bs) = if not b then false else all_downloaded bs

unfoldable pub is_complete : DownloadState → Bool
unfolding all_downloaded
is_complete ds = all_downloaded ds.downloaded_pieces
