-- ===== src/Pieces/Disk.antt =====
-- The data file of a download (internal/downloader/downloader.go: `writePiece`,
-- `verifyPieceFromDisk`). The file is the list of its bytes; the operating system's own errors
-- are left out, so a read fails only past the end of the file.
use bit_torrent.Base.{
  refl, ◌∷◌, suc, inr, take-append, take-append-drop, drop_exact, length-drop, [], inl, true,
  length-append, append-nil, drop-append, get_or, length-take, ◌∙◌, drop-drop, ◌===◌, err, arith,
  ap, sym, ◌==◌, ◌-◌, ok, ◌⊎◌, ◌≡◌, ◌>>=◌, not, replicate, leb, ◌≤◌, Bool, ◌++◌, if◌then◌else◌, ◌+◌,
  drop, take, Result, ℕ, List, length,
}
use bit_torrent.Pieces.Torrent.{TorrentInfo}
use bit_torrent.Pieces.Geometry.{piece_length_at, piece_offset}

pub data DiskError : Type 0 where
  end_of_file invalid_size : DiskError

-- `file.ReadAt(make([]byte, n), off)`
unfoldable pub read_at : List ℕ → ℕ → ℕ → Result DiskError (List ℕ)
read_at file off n =
    if leb (off + n) (length file) then ok (take n (drop off file)) else err end_of_file

-- `file.WriteAt(b, off)`; a gap before the offset is filled with zeros.
unfoldable pub write_at : List ℕ → ℕ → List ℕ → List ℕ
write_at file off b =
    take off (file ++ replicate (off - length file) 0) ++ (b ++ drop (off + length b) file)

unfoldable pub write_piece : List ℕ → TorrentInfo → ℕ → List ℕ → Result DiskError (List ℕ)
write_piece file t i b =
    if not (length b == piece_length_at t i)
    then err invalid_size
    else ok (write_at file (piece_offset t i) b)

-- `sha1` stands for crypto/sha1's Sum; nothing is assumed of it.
module _ (sha1 : List ℕ → List ℕ) where
  unfoldable pub verify_piece_from_disk : List ℕ → TorrentInfo → ℕ → Result DiskError Bool
  verify_piece_from_disk file t i = do
    b ← read_at file (piece_offset t i) (piece_length_at t i)
    ok (sha1 b === get_or t.piece_hashes i [])

-- ---- Reads after a write.

slice_before {ℓ} :
    {A : Type ℓ} (o n : ℕ) (xs ys : List A)
    → o + n ≤ length xs
    → take n (drop o (xs ++ ys)) ≡ take n (drop o xs)
slice_before ℕ.zero ℕ.zero xs ys h = refl
slice_before ℕ.zero (suc n) [] ys h = absurd (omega arith)
slice_before ℕ.zero (suc n) (x ∷ xs) ys h = ap (◌∷◌ x) (slice_before 0 n xs ys (omega arith))
slice_before (suc o) n [] ys h = absurd (omega arith)
slice_before (suc o) n (x ∷ xs) ys h = slice_before o n xs ys (omega arith)

-- Inside the file a write is a cut and paste.
write_at_inside :
    (file b : List ℕ) (off : ℕ)
    → off + length b ≤ length file
    → write_at file off b ≡ take off file ++ (b ++ drop (off + length b) file)
unfolding write_at
write_at_inside file b off h =
    ap (λ x. take off x ++ (b ++ drop (off + length b) file))
      (ap (λ n. file ++ replicate n 0) (no_gap off (length file) (omega arith)) ∙ append-nil file)
  where
    no_gap : (m n : ℕ) → m ≤ n → m - n ≡ 0
    no_gap m n k = omega arith

pub length-write_at :
    (file b : List ℕ) (off : ℕ)
    → off + length b ≤ length file
    → length (write_at file off b) ≡ length file
length-write_at file b off h =
    ap length (write_at_inside file b off h)
    ∙ omega (
      arith,
      length-append (take off file) (b ++ drop (off + length b) file),
      length-append b (drop (off + length b) file),
      length-take off file,
      length-drop (off + length b) file,
    )

pub read_at-write_at_self :
    (file b : List ℕ) (off : ℕ)
    → off + length b ≤ length file
    → read_at (write_at file off b) off (length b) ≡ ok b
unfolding read_at
read_at-write_at_self file b off h =
    let size = length-write_at file b off h in
    let front : length (take off file) ≡ off = omega (arith, length-take off file) in
    let fits : leb (off + length b) (length (write_at file off b)) ≡ true = ground arith in
    rw fits (
      ap (λ x. ok (take (length b) (drop off x))) (write_at_inside file b off h)
      ∙ ap (λ x. ok (take (length b) x)) (drop_exact off (take off file) _ front)
      ∙ ap ok (take-append b _))

drop_behind : (o m : ℕ) → m ≤ o → (xs : List ℕ) → drop o xs ≡ drop (o - m) (drop m xs)
drop_behind o m h xs =
    ap (λ k. drop k xs) {x = o} {y = m + (o - m)} (omega arith) ∙ sym (drop-drop (o - m) m xs)

-- A range that does not meet the one that was written reads as before.
pub read_at-write_at_other :
    (file b : List ℕ) (off o n : ℕ)
    → off + length b ≤ length file
    → (o + n ≤ off) ⊎ (off + length b ≤ o)
    → read_at (write_at file off b) o n ≡ read_at file o n
unfolding read_at
read_at-write_at_other file b off o n h apart = rw (length-write_at file b off h) (
    ap (λ x. if leb (o + n) (length file) then ok x else err end_of_file)
      (ap (λ x. take n (drop o x)) (write_at_inside file b off h) ∙ same_slice apart))
  where
    front : length (take off file) ≡ off
    front = omega (arith, length-take off file)

    same_slice :
        (o + n ≤ off) ⊎ (off + length b ≤ o)
        → take n (drop o (take off file ++ (b ++ drop (off + length b) file)))
          ≡ take n (drop o file)
    same_slice (inl before) =
        slice_before o n (take off file) _ (omega (arith, front))
        ∙ sym (slice_before o n (take off file) (drop off file) (omega (arith, front)))
        ∙ ap (λ x. take n (drop o x)) (take-append-drop off file)
    same_slice (inr behind) = ap (take n) (
        drop_behind o (off + length b) behind (take off file ++ (b ++ drop (off + length b) file))
        ∙ ap (drop (o - (off + length b))) (
            sym (drop-drop (length b) off _)
            ∙ ap (drop (length b)) (drop_exact off (take off file) _ front)
            ∙ drop-append b (drop (off + length b) file))
        ∙ sym (drop_behind o (off + length b) behind file))
