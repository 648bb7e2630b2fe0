-- ===== src/Bencode/Examples.antt =====
-- Bencode on concrete bytes.
-- A list of a number and a text.
use bit_torrent.Bencode.Progress.{decode_bencode_value_total}
use bit_torrent.Bencode.Length.{len_value-decode}
use bit_torrent.Bencode.RoundTrip.{decode_bencode_value-emit}
use bit_torrent.Bencode.Hazards.{decode_string_panic_iff, len_value-standstill, IsStandstill}
use bit_torrent.Bencode.Numerals.{IsDigit, numeral}
use bit_torrent.Wire.Handshake.{codes}
use bit_torrent.Bencode.Scan.{is_negative, scan_int, is_digit, string_length, index_byte}
use bit_torrent.Base.{
  All, ◌%◌, err, ◌+◌, ◌⊎◌, ◌≤◌, pos, ◌^◌, ◌<◌, length, arith, ok, ◌↔◌, ◌∷◌, refl, ℕ, [], ◌++◌, List,
  ◌≡◌,
}
use bit_torrent.Bencode.Decode.{
  cut_string, decode_int, decode, decode_string, len_value, decode_bencode_value,
}
use bit_torrent.Bencode.Emit.{
  nil_ok, str_ok, num_ok, cons_ok, list_ok, emit_string, IsString, emit, IsValue,
}
use bit_torrent.Bencode.Value.{err, Error, nil, str, num, out_of_fuel, ok, cons, panic, list, Value}

abbrev sample : Value
sample = list (cons (num (pos 42)) (cons (str (codes "spam")) nil))

sample-IsValue : IsValue sample
unfolding bit_torrent.Bencode.Numerals.show
sample-IsValue =
    list_ok _ (
      cons_ok _ _ (num_ok (pos 42) (omega arith))
        (cons_ok _ _ (str_ok (codes "spam") short) nil_ok))
  where
    short : IsString (codes "spam")
    short = unfold emit_string in omega arith

emit-sample : emit sample ≡ codes "li42e4:spame"
unfolding emit bit_torrent.Bencode.Emit.emit_int bit_torrent.Bencode.Numerals.show emit_string
emit-sample = refl

decode_sample : decode_bencode_value (codes "li42e4:spame") ≡ ok (sample, 12)
unfolding decode_bencode_value decode decode_int decode_string cut_string index_byte scan_int
    is_digit is_negative string_length bit_torrent.Bencode.Scan.space_width
    bit_torrent.Bencode.Scan.scan_digits
decode_sample = refl

decode_bencode_value-emit_example :
    decode_bencode_value (emit sample ++ (1 ∷ [])) ≡ ok (sample, length (emit sample))
decode_bencode_value-emit_example = decode_bencode_value-emit sample (1 ∷ []) sample-IsValue

abbrev empty : List ℕ
empty = []

decode_bencode_value_total_example :
    ((v : Value) × (n : ℕ) × (decode_bencode_value (codes "i1e") ≡ ok (v, n))
      × (0 < n)
      × (n ≤ length (codes "i1e")))
    ⊎ ((e : Error) × (decode_bencode_value (codes "i1e") ≡ err e))
    ⊎ (decode_bencode_value (codes "i1e") ≡ panic)
decode_bencode_value_total_example = decode_bencode_value_total (codes "i1e")

len_value-decode_example : len_value 25 (codes "li42e4:spame") ≡ ok 12
unfolding decode decode_bencode_value
len_value-decode_example =
    len_value-decode 25 (codes "li42e4:spame") sample 12 (omega arith) decode_sample

-- A length that wraps to -21, and one with a zero in front that wraps to -22.
abbrev wrapped : List ℕ
wrapped = codes "18446744073709551595"

abbrev wrapped_twice : List ℕ
wrapped_twice = codes "036893488147419103210"

wrapped-IsDigit : All IsDigit wrapped
unfolding is_digit
wrapped-IsDigit = (
  refl,
  (
    refl,
    (
      refl,
      (
        refl,
        (
          refl,
          (
            refl,
            (
              refl,
              (
                refl,
                (
                  refl,
                  (
                    refl,
                    (
                      refl,
                      (refl, (refl, (refl, (refl, (refl, (refl, (refl, (refl, (refl, tt))))))))),
                    ),
                  ),
                ),
              ),
            ),
          ),
        ),
      ),
    ),
  ),
)

wrapped_twice-IsStandstill : IsStandstill wrapped_twice
unfolding is_digit numeral
wrapped_twice-IsStandstill = (
  (
    refl,
    (
      refl,
      (
        refl,
        (
          refl,
          (
            refl,
            (
              refl,
              (
                refl,
                (
                  refl,
                  (
                    refl,
                    (
                      refl,
                      (
                        refl,
                        (
                          refl,
                          (
                            refl,
                            (refl, (refl, (refl, (refl, (refl, (refl, (refl, (refl, tt)))))))),
                          ),
                        ),
                      ),
                    ),
                  ),
                ),
              ),
            ),
          ),
        ),
      ),
    ),
  ),
  refl,
)

decode_string_panic_iff_example :
    (decode_string (wrapped ++ codes ":x") ≡ panic)
    ↔ ((2 ^ 63 ≤ numeral 0 wrapped % 2 ^ 64) ⊎ (2 ^ 63 ≤ 20 + 1 + numeral 0 wrapped % 2 ^ 64))
decode_string_panic_iff_example =
    decode_string_panic_iff wrapped (codes "x") wrapped-IsDigit (omega arith)

-- 2 ^ 64 and 5 are read as 5, so that there is no panic.
no_panic : decode_string (codes "18446744073709551621:hello") ≡ ok (str (codes "hello"), 26)
unfolding decode_string index_byte string_length is_digit is_negative
no_panic = refl

len_value-standstill_example : len_value 9 (b'l' ∷ (wrapped_twice ++ codes ":e")) ≡ out_of_fuel
len_value-standstill_example =
    len_value-standstill 9 wrapped_twice (codes "e") wrapped_twice-IsStandstill
