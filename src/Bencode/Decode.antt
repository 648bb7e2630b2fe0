-- ===== src/Bencode/Decode.antt =====
-- `decodeBencodeValue`, its copy `decodeBencodeValueDL`, and `bencodeLen`.
use bit_torrent.Bencode.Scan.{string_length, scan_int, is_digit, is_negative, index_byte}
use bit_torrent.Base.{
  ◌^◌, ◌%◌, some, [], zero, none, take, drop, ◌||◌, ◌==◌, ltb, get_elem?, ◌+◌, ◌∷◌, ◌&&◌, length,
  not, suc, Option, ◌*◌, if◌then◌else◌, ℕ, List,
}
use bit_torrent.Bencode.Value.{
  missing_value, bad_length, bad_integer, missing_colon, unterminated, unexpected_token, truncated,
  empty_data, bad_key, Value, num, str, list, dict, Items, nil, cons, Entries, end,
}
use bit_torrent.Bencode.Value.{Outcome, ok, err, panic, out_of_fuel, ◌>>=◌, put}

unfoldable pub decode_int : List ℕ → Outcome (Value × ℕ)
decode_int d = elim (index_byte b'e' d) [
  | none ↦ err unterminated
  | some stop ↦ elim (scan_int (drop 1 (take stop d))) [
    | none ↦ err bad_integer
    | some value ↦ ok (num value, stop + 1)
  ]
]

-- `start`, and the word `stop`: the end of the string before it is compared with the data.
unfoldable pub cut_string : List ℕ → ℕ → ℕ → Outcome (Value × ℕ)
cut_string d start stop =
    if not (is_negative stop) && ltb (length d) stop
    then err truncated
    else if is_negative stop || ltb stop start
    then panic
    else ok (str (drop start (take stop d)), stop)

unfoldable pub decode_string : List ℕ → Outcome (Value × ℕ)
unfolding cut_string
decode_string d = elim (index_byte b':' d) [
  | none ↦ err missing_colon
  | some colon ↦ elim (string_length 0 (take colon d)) [
    | none ↦ err bad_length
    | some len ↦ cut_string d (colon + 1) ((colon + 1 + len) % 2 ^ 64)
  ]
]

unfoldable pub as_key : Value → Outcome (List ℕ)
as_key (str k) = ok k
as_key _ = err bad_key

-- The value at the front of the data and the number of its bytes. The loops over a list and over a
-- dictionary carry what is left of the data, and its position.
unfoldable mutual
  pub decode : ℕ → List ℕ → Outcome (Value × ℕ)
  decode zero d = out_of_fuel
  decode (suc f) [] = err empty_data
  decode (suc f) (c ∷ cs) =
      let items : Outcome (Value × ℕ) = (do (xs, stop) ← decode_items f cs 1; ok (list xs, stop)) in
      let entries : Outcome (Value × ℕ) = (do
        (m, stop) ← decode_entries f cs 1 end
        ok (dict m, stop)) in
      if c == b'i'
      then decode_int (c ∷ cs)
      else if c == b'l'
      then items
      else if c == b'd'
      then entries
      else if not (is_digit c)
      then err unexpected_token
      else decode_string (c ∷ cs)

  pub decode_items : ℕ → List ℕ → ℕ → Outcome (Items × ℕ)
  decode_items zero d at = out_of_fuel
  decode_items (suc f) [] at = err unterminated
  decode_items (suc f) (c ∷ cs) at =
      let more : Outcome (Items × ℕ) = (do
        (x, n) ← decode f (c ∷ cs)
        (xs, stop) ← decode_items f (drop n (c ∷ cs)) (at + n)
        ok (cons x xs, stop)) in
      if c == b'e' then ok (nil, at + 1) else more

  pub decode_entries : ℕ → List ℕ → ℕ → Entries → Outcome (Entries × ℕ)
  decode_entries zero d at m = out_of_fuel
  decode_entries (suc f) [] at m = err unterminated
  decode_entries (suc f) (c ∷ cs) at m =
      let more : Outcome (Entries × ℕ) = (do
        (k, n) ← decode f (c ∷ cs)
        key ← as_key k
        (v, n') ← decode f (drop n (c ∷ cs))
        decode_entries f (drop n' (drop n (c ∷ cs))) (at + n + n') (put key v m)) in
      if c == b'e' then ok (m, at + 1) else more

-- Two calls for each byte, and one, are enough.
unfoldable pub decode_bencode_value : List ℕ → Outcome (Value × ℕ)
decode_bencode_value d = decode (2 * length d + 1) d

-- The copy in downloader.go is the same function, letter for letter.
unfoldable pub decode_bencode_value_dl : List ℕ → Outcome (Value × ℕ)
decode_bencode_value_dl = decode_bencode_value

-- `bencodeLen`: the number of bytes, a 64-bit word. Here nothing keeps a string's length positive,
-- so a position may stay or move backwards.
unfoldable pub string_len : List ℕ → Outcome ℕ
string_len d = elim (index_byte b':' d) [
  | none ↦ err missing_colon
  | some colon ↦ elim (string_length 0 (take colon d)) [
    | none ↦ err bad_length
    | some len ↦
        let total : ℕ = (colon + 1 + len) % 2 ^ 64 in
        if not (is_negative total) && ltb (length d) total then err truncated else ok total
  ]
]

-- The byte at a position: none past the end, and a panic before the start.
unfoldable pub byte_at : List ℕ → ℕ → Outcome (Option ℕ)
byte_at d at = if is_negative at then panic else ok (get_elem? d at)

-- The value of an entry, at a position, and the rest of the dictionary.
unfoldable pub len_entry_value : (List ℕ → Outcome ℕ) → (ℕ → Outcome ℕ) → List ℕ → ℕ → Outcome ℕ
len_entry_value value entries d at = do
  b ← byte_at d at
  elim b [
    | none ↦ err missing_value
    | some _ ↦ do n ← value (drop at d); entries ((at + n) % 2 ^ 64)
  ]

unfoldable mutual
  pub len_value : ℕ → List ℕ → Outcome ℕ
  len_value zero d = out_of_fuel
  len_value (suc f) [] = err empty_data
  len_value (suc f) (c ∷ cs) =
      let items = len_items f (c ∷ cs) 1 in
      let entries = len_entries f (c ∷ cs) 1 in
      if c == b'i'
      then elim (index_byte b'e' cs) [ none ↦ err unterminated | some stop ↦ ok (stop + 2) ]
      else if c == b'l'
      then items
      else if c == b'd'
      then entries
      else string_len (c ∷ cs)

  pub len_items : ℕ → List ℕ → ℕ → Outcome ℕ
  len_items zero d at = out_of_fuel
  len_items (suc f) d at =
      let more : Outcome ℕ = (do n ← len_value f (drop at d); len_items f d ((at + n) % 2 ^ 64)) in
      do
        b ← byte_at d at
        elim b [ none ↦ err unterminated | some c ↦ if c == b'e' then ok (at + 1) else more ]

  pub len_entries : ℕ → List ℕ → ℕ → Outcome ℕ
  len_entries zero d at = out_of_fuel
  len_entries (suc f) d at =
      let more : Outcome ℕ = (do
        n ← len_value f (drop at d)
        len_entry_value (len_value f) (len_entries f d) d ((at + n) % 2 ^ 64)) in
      do
        b ← byte_at d at
        elim b [ none ↦ err unterminated | some c ↦ if c == b'e' then ok (at + 1) else more ]
