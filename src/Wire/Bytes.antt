-- ===== src/Wire/Bytes.antt =====
-- Big-endian fields (encoding/binary as protocol.go uses it), and io.ReadFull on a connection.
use bit_torrent.Base.{
  append_assoc, ℕ, ◌+◌, ◌*◌, ◌/◌, ◌%◌, ◌^◌, ◌<◌, ◌≡◌, refl, List, [], ◌∷◌, ◌++◌, arith, ltb,
  if◌then◌else◌, get_or, take, drop, length, All, Result, ok, err, take-append, drop-append,
  take-append-drop, length-take, length-append,
}

abbrev pub IsByte : ℕ → Type 0
IsByte b = b < 256

abbrev pub IsU32 : ℕ → Type 0
IsU32 v = v < 2 ^ 32

-- `binary.BigEndian.PutUint32` of a uint32.
unfoldable pub put_uint32 : ℕ → List ℕ
put_uint32 v = v / 2 ^ 24 % 256 ∷ v / 2 ^ 16 % 256 ∷ v / 2 ^ 8 % 256 ∷ v % 256 ∷ []

-- `binary.BigEndian.Uint32` of a slice of at least four bytes.
unfoldable pub uint32 : List ℕ → ℕ
uint32 b = get_or b 0 0 * 2 ^ 24 + get_or b 1 0 * 2 ^ 16 + get_or b 2 0 * 2 ^ 8 + get_or b 3 0

pub uint32-put_uint32 : (v : ℕ) (rest : List ℕ) → IsU32 v → uint32 (put_uint32 v ++ rest) ≡ v
unfolding uint32 put_uint32
uint32-put_uint32 v rest h = omega arith

pub length-put_uint32 : (v : ℕ) → length (put_uint32 v) ≡ 4
unfolding put_uint32
length-put_uint32 v = refl

pub put_uint32-IsByte : (v : ℕ) → All IsByte (put_uint32 v)
unfolding put_uint32
put_uint32-IsByte v = omega arith

-- Four bytes are what is written for the number that they stand for.
pub put_uint32-bytes :
    (a b c d : ℕ)
    → IsByte a
    → IsByte b
    → IsByte c
    → IsByte d
    → put_uint32 (a * 2 ^ 24 + b * 2 ^ 16 + c * 2 ^ 8 + d) ≡ a ∷ b ∷ c ∷ d ∷ []
unfolding put_uint32
put_uint32-bytes a b c d ha hb hc hd = ground (arith, first, second, third, fourth)
  where
    first : (a * 2 ^ 24 + b * 2 ^ 16 + c * 2 ^ 8 + d) / 2 ^ 24 % 256 ≡ a
    first = omega arith

    second : (a * 2 ^ 24 + b * 2 ^ 16 + c * 2 ^ 8 + d) / 2 ^ 16 % 256 ≡ b
    second = omega arith

    third : (a * 2 ^ 24 + b * 2 ^ 16 + c * 2 ^ 8 + d) / 2 ^ 8 % 256 ≡ c
    third = omega arith

    fourth : (a * 2 ^ 24 + b * 2 ^ 16 + c * 2 ^ 8 + d) % 256 ≡ d
    fourth = omega arith

-- Why reading a message fails: the connection ends (or its deadline passes) inside it, or it is above
-- the size limit.
pub data ReadError : Type 0 where
  short_read too_large : ReadError

-- `io.ReadFull(conn, make([]byte, n))`.
unfoldable pub read_full : ℕ → List ℕ → Result ReadError (List ℕ × List ℕ)
read_full n s = if ltb (length s) n then err short_read else ok (take n s, drop n s)

pub read_full-append : (xs rest : List ℕ) → read_full (length xs) (xs ++ rest) ≡ ok (xs, rest)
unfolding read_full
read_full-append xs rest =
    ground (arith, length-append xs rest, take-append xs rest, drop-append xs rest)

pub read_full-put_uint32 :
    (v : ℕ) (rest : List ℕ) → read_full 4 (put_uint32 v ++ rest) ≡ ok (put_uint32 v, rest)
unfolding put_uint32
read_full-put_uint32 v rest = read_full-append (put_uint32 v) rest

-- What a successful read returns is the front of the connection.
pub read_full_lem :
    (n : ℕ) (s xs rest : List ℕ)
    → read_full n s ≡ ok (xs, rest)
    → (s ≡ xs ++ rest) × (length xs ≡ n)
unfolding read_full
read_full_lem n s xs rest h = ground (arith, take-append-drop n s, length-take n s)

-- Bytes that arrive later do not change a read that succeeded.
pub read_full-later :
    (n : ℕ) (s more xs rest : List ℕ)
    → read_full n s ≡ ok (xs, rest)
    → read_full n (s ++ more) ≡ ok (xs, rest ++ more)
read_full-later n s more xs rest h =
    let (split, size) = read_full_lem n s xs rest h in
    rw (split, append_assoc, ← size) (read_full-append xs (rest ++ more))
