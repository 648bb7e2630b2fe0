-- ===== src/Bencode/Hazards.antt =====
-- Inputs on which the decoders do not answer.
use bit_torrent.Bencode.Progress.{index_byte_lt}
use bit_torrent.Bencode.Numerals.{
  IsDigit, numeral, All-map, string_length-numeral, index_byte-append,
}
use bit_torrent.Bencode.Scan.{is_digit, index_byte, string_length, is_negative}
use bit_torrent.Base.{
  [], le→ltb_false, take-append, ap, ◌∙◌, All, ◌⊎◌, inl, inr, false, ◌==◌, ◌%◌, true, ◌∷◌, ◌+◌,
  refl, ◌≤◌, zero, ◌↔◌, arith, take, suc, some, ◌++◌, ◌≡◌, ◌^◌, ◌<◌, length, ℕ, List,
}
use bit_torrent.Bencode.Value.{ok, panic, out_of_fuel}
use bit_torrent.Bencode.Decode.{
  decode, byte_at, string_len, cut_string, decode_string, len_value, len_items,
}

-- A string whose length was read: the sum that is its end does not fit an int64.
cut_panics :
    (d : List ℕ) (colon w : ℕ)
    → length d < 2 ^ 63
    → index_byte b':' d ≡ some colon
    → string_length 0 (take colon d) ≡ some w
    → w < 2 ^ 64
    → (decode_string d ≡ panic) ↔ (2 ^ 63 ≤ colon + 1 + w)
unfolding decode_string cut_string is_negative
cut_panics d colon w h e k l =
    let inside = index_byte_lt b':' d colon e in
    rw (e, k, decode_string) ((λ p. ground arith), (λ p. ground arith))

-- The digits in front of a string and the colon behind them are found again, and the digits are read
-- as a number modulo 2 ^ 64.
no_colon : (c : ℕ) → IsDigit c → (c == b':') ≡ false
unfolding is_digit
no_colon c h = ground (arith, h)

header_read :
    (ds rest : List ℕ)
    → All IsDigit ds
    → (index_byte b':' (ds ++ (b':' ∷ rest)) ≡ some (length ds))
      × (string_length 0 (take (length ds) (ds ++ (b':' ∷ rest))) ≡ some (numeral 0 ds % 2 ^ 64))
header_read ds rest h = (
  index_byte-append b':' ds rest (All-map IsDigit _ ds no_colon h),
  ap (string_length 0) (take-append ds (b':' ∷ rest))
      ∙ string_length-numeral 0 0 ds h (omega arith),
)

-- A string whose length is in decimal digits makes the decoder slice out of range exactly when that
-- length, read modulo 2 ^ 64 as a Go int is, is a negative int64 or brings the end of the string past
-- the greatest int64. The digits and the colon are fewer than 2 ^ 63, and so are all the bytes.
pub decode_string_panic_iff :
    (ds rest : List ℕ)
    → All IsDigit ds
    → length (ds ++ (b':' ∷ rest)) < 2 ^ 63
    → (decode_string (ds ++ (b':' ∷ rest)) ≡ panic)
      ↔ ((2 ^ 63 ≤ numeral 0 ds % 2 ^ 64) ⊎ (2 ^ 63 ≤ length ds + 1 + numeral 0 ds % 2 ^ 64))
decode_string_panic_iff ds rest h small =
    let (e, k) = header_read ds rest h in
    let w = numeral 0 ds % 2 ^ 64 in
    let p = cut_panics (ds ++ (b':' ∷ rest)) (length ds) w small e k (omega arith) in
    ((λ q. inr (p.0 q)), (λ q. p.1 (past w q)))
  where
    past : (w : ℕ) → (2 ^ 63 ≤ w) ⊎ (2 ^ 63 ≤ length ds + 1 + w) → 2 ^ 63 ≤ length ds + 1 + w
    past w (inl q) = omega (arith, q)
    past w (inr q) = q

-- The length that such a header announces need not be what the string holds: any header of digits
-- whose number wraps to a negative length makes the decoder panic, whatever follows.
pub decode_panics :
    (f : ℕ) (c : ℕ) (cs : List ℕ) (colon w : ℕ)
    → length (c ∷ cs) < 2 ^ 63
    → is_digit c ≡ true
    → index_byte b':' (c ∷ cs) ≡ some colon
    → string_length 0 (take colon (c ∷ cs)) ≡ some w
    → 2 ^ 63 ≤ w
    → w < 2 ^ 64
    → decode (suc f) (c ∷ cs) ≡ panic
unfolding decode is_digit
decode_panics f c cs colon w h digit e k big l =
    let p = (cut_panics (c ∷ cs) colon w h e k l).1 (omega arith) in ground arith

-- A header of digits and a colon whose length, read modulo 2 ^ 64, is minus the header's own length.
abbrev pub IsStandstill : List ℕ → Type 0
IsStandstill ds = All IsDigit ds × (numeral 0 ds % 2 ^ 64 + (length ds + 1) ≡ 2 ^ 64)

-- bencodeLen takes such a string for one of no bytes.
string_len-standstill :
    (ds rest : List ℕ) → IsStandstill ds → string_len (ds ++ (b':' ∷ rest)) ≡ ok 0
unfolding string_len is_negative
string_len-standstill ds rest (h, e) =
    let (f, g) = header_read ds rest h in
    let none_left : (length ds + 1 + numeral 0 ds % 2 ^ 64) % 2 ^ 64 ≡ 0 =
      ap (λ n. n % 2 ^ 64) {x = length ds + 1 + numeral 0 ds % 2 ^ 64} {y = 2 ^ 64}
        (omega (arith, e)) in
    rw (f, g, string_len, none_left, le→ltb_false (length (ds ++ (b':' ∷ rest))) 0 (omega arith))
      refl

not_empty : IsStandstill [] → ⊥
unfolding numeral
not_empty (h, e) = omega (arith, e)

digit_apart :
    (c : ℕ)
    → IsDigit c
    → ((c == b'i') ≡ false) × ((c == b'l') ≡ false) × ((c == b'd') ≡ false) × ((c == b'e') ≡ false)
unfolding is_digit
digit_apart c h = (ground (arith, h), ground (arith, h), ground (arith, h), ground (arith, h))

-- The header starts with a digit, so that it is taken for a string.
len_value-header :
    (f c : ℕ) (cs rest : List ℕ)
    → IsStandstill (c ∷ cs)
    → (len_value (suc f) (c ∷ (cs ++ (b':' ∷ rest))) ≡ ok 0) × ((c == b'e') ≡ false)
unfolding len_value
len_value-header f c cs rest (h, e) =
    let (i, l, d, stop) = digit_apart c h.0 in
    (rw (i, l, d) (string_len-standstill (c ∷ cs) rest (h, e)), stop)

len_items-standstill :
    (f : ℕ) (ds rest : List ℕ)
    → IsStandstill ds
    → len_items f (b'l' ∷ (ds ++ (b':' ∷ rest))) 1 ≡ out_of_fuel
unfolding len_items byte_at is_negative
len_items-standstill f [] rest h = absurd (not_empty h)
len_items-standstill zero (c ∷ cs) rest h = refl
len_items-standstill (suc zero) (c ∷ cs) rest h =
    unfold len_value in rw (len_value-header 0 c cs rest h).1 refl
len_items-standstill (suc (suc f)) (c ∷ cs) rest h =
    let (none_taken, stop) = len_value-header f c cs rest h in
    rw (stop, none_taken) (len_items-standstill (suc f) (c ∷ cs) rest h)

-- On a list whose first item is a string with a length in decimal digits that is, read modulo 2 ^ 64,
-- minus the length of the digits and the colon, bencodeLen never answers, whatever follows: no amount
-- of fuel is enough, so that the loop of the source runs for ever.
pub len_value-standstill :
    (f : ℕ) (ds rest : List ℕ)
    → IsStandstill ds
    → len_value f (b'l' ∷ (ds ++ (b':' ∷ rest))) ≡ out_of_fuel
unfolding len_value
len_value-standstill zero ds rest h = refl
len_value-standstill (suc f) ds rest h = len_items-standstill f ds rest h
