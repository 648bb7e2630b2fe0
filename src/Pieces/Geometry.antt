-- ===== src/Pieces/Geometry.antt =====
-- `pieceLengthAt` and `pieceOffset` of internal/downloader/downloader.go.
use native.Mathlib.Numerals.{add-one}
use bit_torrent.Base.{
  ltb_false→le, inr, ltb→lt, inl, Bool-cases, ◌∙◌, refl, sym, ap, true, ◌&&◌, ltb, arith, ◌-◌, ◌==◌,
  ◌≡◌, zero, ◌≤◌, if◌then◌else◌, suc, ◌+◌, ◌<◌, ◌*◌, ◌%◌, length, ℕ,
}
use bit_torrent.Pieces.Torrent.{TorrentInfo}

unfoldable pub num_pieces : TorrentInfo → ℕ
num_pieces t = length t.piece_hashes

unfoldable pub piece_length_at : TorrentInfo → ℕ → ℕ
unfolding num_pieces
piece_length_at t i =
    let last = t.length % t.piece_length in
    if i + 1 == num_pieces t && ltb 0 last then last else t.piece_length

unfoldable pub piece_offset : TorrentInfo → ℕ → ℕ
piece_offset t i = i * t.piece_length

-- A torrent whose hashes cover its data: as many pieces as the length needs, and no empty one.
pub record IsConsistent (t : TorrentInfo) : Type 0 where
  pub some_piece : 0 < t.piece_length
  pub enough : t.length ≤ num_pieces t * t.piece_length
  pub none_empty : (num_pieces t - 1) * t.piece_length < t.length

-- The bytes of the first pieces.
unfoldable pub bytes_below : TorrentInfo → ℕ → ℕ
bytes_below t zero = 0
bytes_below t (suc i) = bytes_below t i + piece_length_at t i

inner_length :
    (t : TorrentInfo) (i : ℕ) → i + 1 < num_pieces t → piece_length_at t i ≡ t.piece_length
unfolding piece_length_at
inner_length t i h = ground arith

-- Every piece but the last begins where the one before it ends.
bytes_below-offset :
    (t : TorrentInfo) (i : ℕ) → i < num_pieces t → bytes_below t i ≡ piece_offset t i
unfolding bytes_below piece_offset
bytes_below-offset t zero h = omega arith
bytes_below-offset t (suc i) h =
    omega (arith, bytes_below-offset t i (omega arith), inner_length t i (omega arith))

-- The last piece ends where the data ends.
last_length :
    (n p l : ℕ)
    → 0 < p
    → l ≤ suc n * p
    → n * p < l
    → n * p + (if ltb 0 (l % p) then l % p else p) ≡ l
last_length n p l hp le lt = grind arith

last_end :
    (t : TorrentInfo) (i : ℕ)
    → IsConsistent t
    → i + 1 ≡ num_pieces t
    → piece_offset t i + piece_length_at t i ≡ t.length
unfolding piece_length_at piece_offset
last_end t i c e =
    let is_last : (i + 1 == num_pieces t) ≡ true = ground arith in
    rw is_last (
      last_length i t.piece_length t.length c.some_piece (rw (sym e ∙ add-one i) at c.enough) (
        omega (
          arith,
          ap (λ (n : ℕ). (n - 1) * t.piece_length) (sym e),
          c.none_empty,
          ap (λ (n : ℕ). n * t.piece_length) (add_sub i),
        )))
  where
    add_sub : (n : ℕ) → n + 1 - 1 ≡ n
    add_sub n = omega arith

-- The pieces of a consistent torrent cover its data, each byte once: piece after piece they begin
-- where the ones before them end, and the last one ends where the data ends.
pub pieces_cover :
    (t : TorrentInfo) (i : ℕ)
    → IsConsistent t
    → i < num_pieces t
    → (bytes_below t i ≡ piece_offset t i) × (bytes_below t (num_pieces t) ≡ t.length)
unfolding bytes_below
pieces_cover t i c h = (bytes_below-offset t i h, total (num_pieces t) refl)
  where
    total : (n : ℕ) → n ≡ num_pieces t → bytes_below t n ≡ t.length
    total zero e =
        absurd (omega (arith, ap (λ (k : ℕ). k * t.piece_length) e, c.enough, c.none_empty))
    total (suc n) e =
        omega (arith, bytes_below-offset t n (omega arith), last_end t n c (omega arith))

length_bounds :
    (t : TorrentInfo) (i : ℕ)
    → 0 < t.piece_length
    → (0 < piece_length_at t i) × (piece_length_at t i ≤ t.piece_length)
unfolding piece_length_at
length_bounds t i h = ground arith

rows : (i m p : ℕ) → i < m → i * p + p ≤ m * p
rows i m p h = grind arith

inner_end :
    (t : TorrentInfo) (i : ℕ)
    → i + 1 < num_pieces t
    → piece_offset t i + piece_length_at t i ≤ (num_pieces t - 1) * t.piece_length
unfolding piece_offset
inner_end t i h =
    omega (arith, inner_length t i h, rows i (num_pieces t - 1) t.piece_length (omega arith))

-- Every piece lies inside the data, and is not empty.
pub piece_inside :
    (t : TorrentInfo) (i : ℕ)
    → IsConsistent t
    → i < num_pieces t
    → (piece_offset t i + piece_length_at t i ≤ t.length)
      × (0 < piece_length_at t i)
      × (piece_length_at t i ≤ t.piece_length)
piece_inside t i c h =
    let (lo, hi) = length_bounds t i c.some_piece in
    elim (Bool-cases (ltb (i + 1) (num_pieces t))) [
      | inl inner ↦ (omega (arith, inner_end t i (ltb→lt _ _ inner), c.none_empty), lo, hi)
      | inr last ↦ (omega (arith, last_end t i c (omega (arith, ltb_false→le _ _ last))), lo, hi)
    ]

-- Different pieces have no byte in common.
pub pieces_disjoint :
    (t : TorrentInfo) (i j : ℕ)
    → i < j
    → j < num_pieces t
    → piece_offset t i + piece_length_at t i ≤ piece_offset t j
unfolding piece_offset
pieces_disjoint t i j h k = omega (arith, inner_length t i (omega arith), rows i j t.piece_length h)
