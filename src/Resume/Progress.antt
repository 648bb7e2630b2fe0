-- ===== src/Resume/Progress.antt =====
-- What the state says after pieces were marked.
use bit_torrent.Resume.{
  is_complete, DownloadState, get_pending_pieces, pending_from, mark_piece_downloaded,
  get_download_progress, all_downloaded, count_downloaded, is_piece_downloaded,
}
use bit_torrent.Base.{
  zero, suc, length-set, lt→ltb, refl, arith, set, get_or, length, ◌∷◌, ◌+◌, [], ◌≡◌, ◌<◌, ℕ, List,
  false, true, Bool, ◌||◌, ◌==◌, ◌↔◌,
}

get_or-set :
    (bs : List Bool) (i j : ℕ)
    → i < length bs
    → get_or (set bs i true) j false ≡ (i == j || get_or bs j false)
get_or-set [] i j h = absurd (omega arith)
get_or-set (b ∷ bs) zero zero h = refl
get_or-set (b ∷ bs) zero (suc j) h = ground arith
get_or-set (b ∷ bs) (suc i) zero h = ground arith
get_or-set (b ∷ bs) (suc i) (suc j) h = ground (arith, get_or-set bs i j (omega arith))

-- A piece of the torrent that is marked is downloaded, and no other one becomes so.
pub is_piece_downloaded-mark :
    (ds : DownloadState) (i j : ℕ)
    → i < length ds.downloaded_pieces
    → is_piece_downloaded j (mark_piece_downloaded i ds) ≡ (i == j || is_piece_downloaded j ds)
unfolding is_piece_downloaded mark_piece_downloaded
is_piece_downloaded-mark ds i j h =
    let size = length-set ds.downloaded_pieces i true in
    rw (lt→ltb i _ h, size) (ground (arith, get_or-set ds.downloaded_pieces i j h))

pending-count :
    (i : ℕ) (bs : List Bool) → count_downloaded bs + length (pending_from i bs) ≡ length bs
unfolding count_downloaded pending_from
pending-count i [] = refl
pending-count i (b ∷ bs) = ground (arith, pending-count (i + 1) bs)

all-pending :
    (i : ℕ) (bs : List Bool) → (all_downloaded bs ≡ true) ↔ (length (pending_from i bs) ≡ 0)
unfolding all_downloaded pending_from
all-pending i [] = ((λ h. refl), (λ h. refl))
all-pending i (b ∷ bs) =
    let ih = all-pending (i + 1) bs in ((λ h. ground (arith, ih)), (λ h. ground (arith, ih)))

-- The counters of the state agree: what is downloaded and what is pending add up to all pieces, and
-- the state is complete exactly when nothing is pending.
pub get_download_progress-pending :
    (ds : DownloadState)
    → ((get_download_progress ds).0 + length (get_pending_pieces ds) ≡ (get_download_progress ds).1)
      × ((is_complete ds ≡ true) ↔ (length (get_pending_pieces ds) ≡ 0))
unfolding get_download_progress get_pending_pieces is_complete
get_download_progress-pending ds =
    (pending-count 0 ds.downloaded_pieces, all-pending 0 ds.downloaded_pieces)
