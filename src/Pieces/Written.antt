-- ===== src/Pieces/Written.antt =====
-- `writePiece` followed by `verifyPieceFromDisk`, as a worker calls them.
use bit_torrent.Pieces.Geometry.{
  pieces_disjoint, piece_inside, piece_offset, num_pieces, piece_length_at, IsConsistent,
}
use bit_torrent.Pieces.Disk.{
  length-write_at, read_at-write_at_other, read_at-write_at_self, read_at, write_at,
  verify_piece_from_disk, write_piece,
}
use bit_torrent.Pieces.Torrent.{TorrentInfo}
use bit_torrent.Base.{
  Bool-cases, ltb_false→le, ◌∙◌, ltb→lt, sym, inr, ◌>>=◌, inl, ap, ◌≤◌, refl, false, ◌⊎◌, [], arith,
  true, get_or, ltb, ◌===◌, ◌+◌, ==_refl, ◌≢◌, ok, ◌<◌, ◌≡◌, length, ℕ, List,
}

module _ (sha1 : List ℕ → List ℕ) (t : TorrentInfo) where
  write_piece-ok :
      (i : ℕ) (file b : List ℕ)
      → length b ≡ piece_length_at t i
      → write_piece file t i b ≡ ok (write_at file (piece_offset t i) b)
  unfolding write_piece
  write_piece-ok i file b e = rw (e, ==_refl) refl

  -- A block of the length of a piece is written, and read back when the piece is verified: the
  -- check answers whether its hash is the one of the torrent. A file of the size of the torrent
  -- keeps its size.
  pub write_piece_self :
      (i : ℕ) (file b : List ℕ)
      → IsConsistent t
      → i < num_pieces t
      → length file ≡ t.length
      → length b ≡ piece_length_at t i
      → (file' : List ℕ) × (write_piece file t i b ≡ ok file')
        × (verify_piece_from_disk sha1 file' t i ≡ ok (sha1 b === get_or t.piece_hashes i []))
        × (length file' ≡ t.length)
  unfolding verify_piece_from_disk
  write_piece_self i file b c h size e =
      let (inside, _, _) = piece_inside t i c h in
      let fits : piece_offset t i + length b ≤ length file = omega arith in
      (
        write_at file (piece_offset t i) b,
        write_piece-ok i file b e,
        ap (λ r. r >>= λ x. ok (sha1 x === get_or t.piece_hashes i []))
            (ap (read_at (write_at file (piece_offset t i) b) (piece_offset t i)) (sym e)
              ∙ read_at-write_at_self file b (piece_offset t i) fits),
        length-write_at file b (piece_offset t i) fits ∙ size,
      )

  -- Writing a piece changes no other one: its check answers what it did.
  pub write_piece_other :
      (i j : ℕ) (file b : List ℕ)
      → IsConsistent t
      → i < num_pieces t
      → j < num_pieces t
      → i ≢ j
      → length file ≡ t.length
      → length b ≡ piece_length_at t i
      → (file' : List ℕ) × (write_piece file t i b ≡ ok file')
        × (verify_piece_from_disk sha1 file' t j ≡ verify_piece_from_disk sha1 file t j)
  unfolding verify_piece_from_disk
  write_piece_other i j file b c hi hj ne size e =
      let (inside, _, _) = piece_inside t i c hi in
      let fits : piece_offset t i + length b ≤ length file = omega arith in
      (
        write_at file (piece_offset t i) b,
        write_piece-ok i file b e,
        ap (λ r. r >>= λ x. ok (sha1 x === get_or t.piece_hashes j []))
            (read_at-write_at_other file b (piece_offset t i) (piece_offset t j)
              (piece_length_at t j) fits (apart (Bool-cases (ltb i j)))),
      )
    where
      apart :
          (ltb i j ≡ true) ⊎ (ltb i j ≡ false)
          → (piece_offset t j + piece_length_at t j ≤ piece_offset t i)
            ⊎ (piece_offset t i + length b ≤ piece_offset t j)
      apart (inl less) = inr (omega (arith, pieces_disjoint t i j (ltb→lt i j less) hj))
      apart (inr more) = inl (pieces_disjoint t j i (ground (arith, ltb_false→le i j more)) hi)
