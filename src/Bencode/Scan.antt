-- ===== src/Bencode/Scan.antt =====
-- What the decoders use of the Go library: IndexByte, and Sscanf with "%d" into an int64.
use bit_torrent.Base.{
  zero, [], ◌%◌, false, negsuc, ◌&&◌, true, pos, ◌-◌, ◌||◌, ◌^◌, length, ◌+◌, ltb, ◌==◌, leb, some,
  ℤ, ◌*◌, drop, if◌then◌else◌, not, none, suc, ◌∷◌, get_or, Bool, Option, ℕ, List,
}

map_suc : Option ℕ → Option ℕ
map_suc none = none
map_suc (some i) = some (suc i)

unfoldable pub index_byte : ℕ → List ℕ → Option ℕ
unfolding map_suc
index_byte c [] = none
index_byte c (x ∷ xs) = if x == c then some 0 else map_suc (index_byte c xs)

unfoldable pub is_digit : ℕ → Bool
is_digit c = not (ltb c b'0' || ltb b'9' c)

-- The number of bytes of the white space at the front, as Unicode has it; a newline is none, since
-- Sscanf refuses it.
unfoldable pub space_width : List ℕ → ℕ
space_width s =
    let a = get_or s 0 0 in
    let b = get_or s 1 0 in
    let c = get_or s 2 0 in
    if a == 0x20 || a == 0x09 || a == 0x0b || a == 0x0c || a == 0x0d
    then 1
    else if a == 0xc2 && (b == 0x85 || b == 0xa0)
    then 2
    else if a == 0xe1 && b == 0x9a && c == 0x80
    then 3
    else if a == 0xe2
        && b == 0x80
        && ((leb 0x80 c && leb c 0x8a) || c == 0xa8 || c == 0xa9 || c == 0xaf)
    then 3
    else if a == 0xe2 && b == 0x81 && c == 0x9f
    then 3
    else if a == 0xe3 && b == 0x80 && c == 0x80
    then 3
    else 0

-- At most one step for each byte of the text, so its length is fuel enough.
unfoldable pub skip_space : ℕ → List ℕ → List ℕ
skip_space zero s = s
skip_space (suc f) s =
    let n = space_width s in let rest = skip_space f (drop n s) in if n == 0 then s else rest

-- The digits at the front, as a number.
unfoldable pub scan_digits : ℕ → List ℕ → ℕ
scan_digits acc [] = acc
scan_digits acc (c ∷ cs) =
    let rest = scan_digits (acc * 10 + (c - b'0')) cs in if is_digit c then rest else acc

-- The sign has been read; strconv.ParseInt refuses what does not fit 64 bits.
unfoldable pub scan_unsigned : Bool → List ℕ → Option ℤ
scan_unsigned negative [] = none
scan_unsigned negative (c ∷ cs) =
    let n = scan_digits 0 (c ∷ cs) in
    if not (is_digit c)
    then none
    else if negative
    then (if ltb (2 ^ 63) n then none else some (if n == 0 then pos 0 else negsuc (n - 1)))
    else if ltb n (2 ^ 63)
    then some (pos n)
    else none

unfoldable pub scan_signed : List ℕ → Option ℤ
unfolding scan_unsigned
scan_signed [] = none
scan_signed (c ∷ cs) =
    if c == b'-'
    then scan_unsigned true cs
    else if c == b'+'
    then scan_unsigned false cs
    else scan_unsigned false (c ∷ cs)

-- `fmt.Sscanf(s, "%d", &value)`; what follows the number is not looked at.
unfoldable pub scan_int : List ℕ → Option ℤ
unfolding scan_signed skip_space
scan_int s = scan_signed (skip_space (length s) s)

-- `length = length*10 + int(ch-'0')` over the bytes before the colon, in 64-bit words that wrap;
-- `none` if one of them is no digit.
unfoldable pub string_length : ℕ → List ℕ → Option ℕ
string_length acc [] = some acc
string_length acc (c ∷ cs) =
    let rest = string_length ((acc * 10 + (c - b'0')) % 2 ^ 64) cs in
    if is_digit c then rest else none

-- The sign of a 64-bit word.
unfoldable pub is_negative : ℕ → Bool
is_negative w = leb (2 ^ 63) w
