-- ===== src/Pieces/Resume.antt =====
-- Which pieces are on disk: `prepareOutputAndState`, `allPiecesComplete` and the seed store of
-- internal/downloader/downloader.go.
use native.Mathlib.Nat.{add-zero}
use bit_torrent.Pieces.Disk.{verify_piece_from_disk}
use bit_torrent.Base.{
  zero, suc, inr, inl, none, sym, refl, ◌==◌, err, some, ◌∙◌, ap, Bool-cases, [], not, ok,
  length-replicate, ◌+◌, ◌↔◌, arith, ◌&&◌, if◌then◌else◌, false, ◌-◌, get_or, ◌≡◌, ◌≤◌, ◌∷◌, true,
  replicate, ◌++◌, Bool, Option, take, ℕ, List, length,
}
use bit_torrent.Pieces.Torrent.{TorrentInfo}
use bit_torrent.Pieces.Geometry.{num_pieces}

-- `file.Truncate(n)`
unfoldable pub truncate : ℕ → List ℕ → List ℕ
truncate n file = take n (file ++ replicate (n - length file) 0)

-- What is taken over from a resume state that could be read: only one of the right length.
unfoldable pub initial_completed : ℕ → Option (List Bool) → List Bool
initial_completed n none = replicate n false
initial_completed n (some st) = if length st == n then st else replicate n false

unfoldable pub all_pieces_complete : List Bool → Bool
all_pieces_complete [] = true
all_pieces_complete (b ∷ bs) = if not b then false else all_pieces_complete bs

pub record Prepared : Type 0 where
  pub file : List ℕ
  pub completed : List Bool
  pub remaining : ℕ

module _ (sha1 : List ℕ → List ℕ) where
  -- `err != nil || !ok` is the failure of this test.
  unfoldable pub piece_ok : List ℕ → TorrentInfo → ℕ → Bool
  piece_ok file t i = elim (verify_piece_from_disk sha1 file t i) [ ok b ↦ b | err e ↦ false ]

  -- The loop from piece `i` on: the flags of the pieces that it has not reached, and `remaining`.
  unfoldable pub check_pieces : List ℕ → TorrentInfo → ℕ → List Bool → ℕ → List Bool × ℕ
  check_pieces file t i [] remaining = ([], remaining)
  check_pieces file t i (done ∷ rest) remaining =
      let good = done && piece_ok file t i in
      let (rest', remaining') =
        check_pieces file t (i + 1) rest (if good then remaining - 1 else remaining) in
      (good ∷ rest', remaining')

  -- `prepareOutputAndState` where no call of the operating system fails: the sized file, the flags,
  -- which are also what is saved, and the number of pieces that are to be downloaded.
  unfoldable pub prepare_output_and_state : List ℕ → Option (List Bool) → TorrentInfo → Prepared
  unfolding check_pieces initial_completed truncate
  prepare_output_and_state file state t =
      let sized = truncate t.length file in
      let (completed, remaining) =
        check_pieces sized t 0 (initial_completed (num_pieces t) state) (num_pieces t) in
      record { file = sized; completed = completed; remaining = remaining }

-- The number of flags that are set.
unfoldable pub count_true : List Bool → ℕ
count_true [] = 0
count_true (b ∷ bs) = (if b then 1 else 0) + count_true bs

pub count_true-le : (bs : List Bool) → count_true bs ≤ length bs
unfolding count_true
count_true-le [] = omega arith
count_true-le (b ∷ bs) = ground (arith, count_true-le bs)

pub all_pieces_complete_iff :
    (bs : List Bool) → (all_pieces_complete bs ≡ true) ↔ (count_true bs ≡ length bs)
unfolding all_pieces_complete count_true
all_pieces_complete_iff [] = ((λ h. refl), (λ h. refl))
all_pieces_complete_iff (b ∷ bs) =
    let ih = all_pieces_complete_iff bs in
    let le = count_true-le bs in (λ h. ground (arith, ih), λ h. ground (arith, ih))

module _ (sha1 : List ℕ → List ℕ) (file : List ℕ) (t : TorrentInfo) where
  check_pieces_lem :
      (bs : List Bool) (i r : ℕ)
      → length bs ≤ r
      → (length (check_pieces sha1 file t i bs r).0 ≡ length bs)
        × ((check_pieces sha1 file t i bs r).1 + count_true (check_pieces sha1 file t i bs r).0 ≡ r)
  unfolding check_pieces count_true
  check_pieces_lem [] i r h = omega arith
  check_pieces_lem (b ∷ bs) i r h = elim (Bool-cases (b && piece_ok sha1 file t i)) [
    | inl e ↦ rw e (let ih = check_pieces_lem bs (i + 1) (r - 1) (omega arith) in omega arith)
    | inr e ↦ rw e (let ih = check_pieces_lem bs (i + 1) r (omega arith) in omega arith)
  ]

  check_pieces_at :
      (bs : List Bool) (i r k : ℕ)
      → get_or (check_pieces sha1 file t i bs r).0 k false
        ≡ (get_or bs k false && piece_ok sha1 file t (i + k))
  unfolding check_pieces
  check_pieces_at [] i r k = refl
  check_pieces_at (b ∷ bs) i r zero = ap (λ n. b && piece_ok sha1 file t n) (sym (add-zero i))
  check_pieces_at (b ∷ bs) i r (suc k) =
      check_pieces_at bs (i + 1) _ k
      ∙ ap (λ n. get_or bs k false && piece_ok sha1 file t n) (omega arith)

length-initial_completed : (n : ℕ) (st : Option (List Bool)) → length (initial_completed n st) ≡ n
unfolding initial_completed
length-initial_completed n none = length-replicate n false
length-initial_completed n (some st) = ground (arith, length-replicate n false)

-- After preparation a piece counts as done exactly when the saved state says so and its bytes on
-- disk have its hash; there is a flag for each piece, and the rest of the pieces is counted.
pub prepare_sound :
    (sha1 : List ℕ → List ℕ) (file : List ℕ) (state : Option (List Bool)) (t : TorrentInfo)
    → let p = prepare_output_and_state sha1 file state t in
      ((i : ℕ)
        → get_or p.completed i false
          ≡ (get_or (initial_completed (num_pieces t) state) i false && piece_ok sha1 p.file t i))
      × (length p.completed ≡ num_pieces t)
      × (p.remaining + count_true p.completed ≡ num_pieces t)
unfolding prepare_output_and_state
prepare_sound sha1 file state t =
    let n = num_pieces t in
    let bs = initial_completed n state in
    let size = length-initial_completed n state in
    let (len, rest) = check_pieces_lem sha1 (truncate t.length file) t bs 0 n (omega arith) in
    (
      (λ i.
          check_pieces_at sha1 (truncate t.length file) t bs 0 n i
          ∙ ap (λ k. get_or bs i false && piece_ok sha1 (truncate t.length file) t k)
              (omega arith)),
      len ∙ size,
      rest,
    )
