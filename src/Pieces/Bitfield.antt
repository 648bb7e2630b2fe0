-- ===== src/Pieces/Bitfield.antt =====
-- Bitfields: `bitfieldHasPiece` and `setBitfieldPiece` of internal/downloader/downloader.go, and
-- `buildBitfield` of internal/peer/listener.go. The first piece is the highest bit of the first
-- byte. A piece index here is not negative.
pub mod Laws
use Prim.Native.Nat.{suc, bit_or}
use bit_torrent.Base.{
  some, ◌||◌, zero, ◌==◌, refl, sym, false, arith, ◌&&◌, ◌+◌, length, get_or, none, ◌^◌, ltb, not,
  true, leb, replicate, ◌/◌, get_elem?, ◌%◌, ◌<◌, ◌≡◌, if◌then◌else◌, ◌++◌, set, Bool, ◌-◌, ℕ, List,
}

-- `uint(7 - (pieceIdx % 8))`
abbrev bit_of : ℕ → ℕ
bit_of i = 7 - i % 8

unfoldable pub bitfield_has_piece : List ℕ → ℕ → Bool
bitfield_has_piece bitfield i = elim (get_elem? bitfield (i / 8)) [
  | none ↦ false
  | some b ↦ b / 2 ^ bit_of i % 2 == 1
]

-- `bitfield[i/8] |= 1 << bit` on a byte that is there.
unfoldable pub or_bit : List ℕ → ℕ → List ℕ
or_bit bitfield i = set bitfield (i / 8) (bit_or (get_or bitfield (i / 8) 0) (2 ^ bit_of i))

unfoldable pub grow : List ℕ → ℕ → List ℕ
grow bitfield n = bitfield ++ replicate (n - length bitfield) 0

unfoldable pub set_bitfield_piece : List ℕ → ℕ → List ℕ
unfolding grow or_bit
set_bitfield_piece bitfield i =
    or_bit (if leb (length bitfield) (i / 8) then grow bitfield (i / 8 + 1) else bitfield) i

-- The loop of `buildBitfield`, with `left` pieces to go from piece `i`.
unfoldable pub mark_pieces : (ℕ → Bool) → ℕ → ℕ → List ℕ → List ℕ
unfolding or_bit
mark_pieces has zero i bf = bf
mark_pieces has (suc left) i bf = mark_pieces has left (i + 1) (if has i then or_bit bf i else bf)

unfoldable pub build_bitfield : ℕ → (ℕ → Bool) → List ℕ
unfolding mark_pieces
build_bitfield n has = mark_pieces has n 0 (replicate ((n + 7) / 8) 0)
