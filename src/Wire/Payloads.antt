-- ===== src/Wire/Payloads.antt =====
-- The payloads that the builders of protocol.go write, read back by its parsers and by
-- `parseHaveIndex` of internal/downloader/downloader.go.
use bit_torrent.Base.{
  ◌≢◌, ◌↔◌, append-nil, ap, false, none, err, some, ok, if◌then◌else◌, Option, ℕ, ◌+◌, ◌*◌, ◌^◌,
  ◌<◌, ◌≡◌, refl, List, [], ◌++◌, arith, ltb, get_or, drop, length,
}
use bit_torrent.Wire.Bytes.{uint32-put_uint32, put_uint32, IsU32}
use bit_torrent.Wire.Message.{
  invalid_length, piece_message, have_message, parse_piece_message, cancel_message, request_message,
  parse_request_message,
}

-- The index of a "have" message; `none` is the -1 of the source.
unfoldable pub parse_have_index : List ℕ → Option ℕ
parse_have_index payload =
    if ltb (length payload) 4
    then none
    else some (
        get_or payload 0 0 * 2 ^ 24
        + get_or payload 1 0 * 2 ^ 16
        + get_or payload 2 0 * 2 ^ 8
        + get_or payload 3 0)

drop-put_uint32 : (v : ℕ) (rest : List ℕ) → drop 4 (put_uint32 v ++ rest) ≡ rest
unfolding put_uint32
drop-put_uint32 v rest = refl

drop-put_uint32_twice :
    (v w : ℕ) (rest : List ℕ) → drop 8 (put_uint32 v ++ (put_uint32 w ++ rest)) ≡ rest
unfolding put_uint32
drop-put_uint32_twice v w rest = refl

-- Three uint32 fields, read back.
three_fields :
    (a b c : ℕ)
    → IsU32 a
    → IsU32 b
    → IsU32 c
    → parse_request_message (put_uint32 a ++ (put_uint32 b ++ put_uint32 c)) ≡ ok (a, b, c)
unfolding parse_request_message
three_fields a b c ha hb hc = rw (
  three_fields_length,
  uint32-put_uint32 a _ ha,
  drop-put_uint32,
  uint32-put_uint32 b _ hb,
  drop-put_uint32_twice,
  ← append-nil (put_uint32 c),
  uint32-put_uint32 c [] hc,
)
  where
    three_fields_length : length (put_uint32 a ++ (put_uint32 b ++ put_uint32 c)) ≡ 12
    three_fields_length = unfold put_uint32 in refl

-- A request is parsed to the piece, the offset and the length that it was built from.
pub parse_request_message-request_message :
    (index begin len : ℕ)
    → IsU32 index
    → IsU32 begin
    → IsU32 len
    → parse_request_message (request_message index begin len).payload ≡ ok (index, begin, len)
unfolding request_message
parse_request_message-request_message = three_fields

-- So is a cancel message, which has the layout of the request that it takes back.
pub parse_request_message-cancel_message :
    (index begin len : ℕ)
    → IsU32 index
    → IsU32 begin
    → IsU32 len
    → parse_request_message (cancel_message index begin len).payload ≡ ok (index, begin, len)
unfolding cancel_message
parse_request_message-cancel_message = three_fields

-- A piece message is parsed to the piece, the offset and the block that it was built from.
pub parse_piece_message-piece_message :
    (index begin : ℕ) (block : List ℕ)
    → IsU32 index
    → IsU32 begin
    → parse_piece_message (piece_message index begin block).payload ≡ ok (index, begin, block)
unfolding parse_piece_message piece_message
parse_piece_message-piece_message index begin block hi hb = rw (
  long_enough,
  uint32-put_uint32 index _ hi,
  drop-put_uint32,
  uint32-put_uint32 begin _ hb,
  drop-put_uint32_twice,
)
  where
    long_enough : ltb (length (put_uint32 index ++ (put_uint32 begin ++ block))) 8 ≡ false
    long_enough = unfold put_uint32 in ground arith

-- The index of a "have" message is read back.
pub parse_have_index-have_message :
    (index : ℕ) → IsU32 index → parse_have_index (have_message index).payload ≡ some index
unfolding parse_have_index have_message put_uint32
parse_have_index-have_message index h = ap some (omega arith)

-- A payload parses as a request exactly when it has twelve bytes, and as a block of a piece
-- exactly when it has eight at least.
pub parse_lengths :
    (payload : List ℕ)
    → ((parse_request_message payload ≡ err invalid_length) ↔ (length payload ≢ 12))
      × ((parse_piece_message payload ≡ err invalid_length) ↔ (length payload < 8))
unfolding parse_request_message parse_piece_message
parse_lengths payload =
    ((λ h. ground arith, λ h. ground arith), (λ h. ground arith, λ h. ground arith))
