-- ===== src/Bencode/Scalars.antt =====
-- Numbers and strings that were encoded are decoded.
use bit_torrent.Bencode.Numerals.{
  string_length-numeral, scan_digits-numeral, numeral-show, length-show_pos, index_byte-append,
  digit_ne, show-IsDigit, All-map, numeral, IsDigit,
}
use bit_torrent.Bencode.Decode.{cut_string, decode_string, decode_int}
use bit_torrent.Bencode.Emit.{decimal, IsString, IsInt64, emit_string, emit_int}
use bit_torrent.Bencode.Scan.{
  is_negative, string_length, index_byte, is_digit, space_width, scan_int, scan_unsigned,
  skip_space,
}
use bit_torrent.Base.{
  drop-append, drop-drop, append_assoc, sym, take, ◌%◌, drop, length-append, ◌-◌, none, ap, ◌∙◌,
  ◌^◌, negsuc, take-append, ltb, refl, [], if◌then◌else◌, zero, ◌+◌, arith, pos, false, suc, length,
  ◌++◌, ◌==◌, some, true, ◌<◌, ◌≡◌, All, ◌≤◌, ℤ, ◌∷◌, Bool, ℕ, List,
}
use bit_torrent.Bencode.Value.{num, str, ok}

-- ---- Integers.

no_space : (c : ℕ) (cs : List ℕ) (f : ℕ) → 0x2d ≤ c → c < 0x3a → skip_space f (c ∷ cs) ≡ c ∷ cs
unfolding skip_space space_width
no_space c cs zero h k = refl
no_space c cs (suc f) h k = ground arith

scan_unsigned-digits :
    (negative : Bool) (xs : List ℕ)
    → All IsDigit xs
    → 0 < length xs
    → scan_unsigned negative xs ≡ (
        let n = numeral 0 xs in
        if negative
        then (if ltb (2 ^ 63) n then none else some (if n == 0 then pos 0 else negsuc (n - 1)))
        else if ltb n (2 ^ 63)
        then some (pos n)
        else none)
unfolding scan_unsigned
scan_unsigned-digits negative [] h k = absurd (omega arith)
scan_unsigned-digits negative (x ∷ xs) h k = rw (h.0, scan_digits-numeral 0 (x ∷ xs) h)

scan_int-digits :
    (xs : List ℕ) → All IsDigit xs → 0 < length xs → scan_int xs ≡ scan_unsigned false xs
unfolding scan_int is_digit
scan_int-digits [] h k = absurd (omega arith)
scan_int-digits (c ∷ cs) h k =
    rw (no_space c cs (suc (length cs)) (ground arith) (ground arith)) (ground arith)

scan_int-minus : (xs : List ℕ) → scan_int (b'-' ∷ xs) ≡ scan_unsigned true xs
unfolding scan_int
scan_int-minus xs = rw (no_space b'-' xs (suc (length xs)) (omega arith) (omega arith))

scan_int-emit_int : (z : ℤ) → IsInt64 z → scan_int (emit_int z) ≡ some z
unfolding emit_int
scan_int-emit_int (pos n) h =
    scan_int-digits (decimal n) (show-IsDigit (suc n) n) (length-show_pos (suc n) n (omega arith))
    ∙ scan_unsigned-digits false (decimal n) (show-IsDigit (suc n) n)
        (length-show_pos (suc n) n (omega arith))
    ∙ rw (numeral-show (suc n) n (omega arith)) (ground arith)
scan_int-emit_int (negsuc n) h =
    scan_int-minus (decimal (n + 1))
    ∙ scan_unsigned-digits true (decimal (n + 1)) (show-IsDigit _ (n + 1))
        (length-show_pos _ (n + 1) (omega arith))
    ∙ rw (numeral-show (suc (n + 1)) (n + 1) (omega arith)) (ground arith)

emit_int-no_e : (z : ℤ) → All (λ x. (x == b'e') ≡ false) (emit_int z)
unfolding emit_int
emit_int-no_e (pos n) =
    All-map IsDigit _ (decimal n) (λ x. digit_ne b'e' x (unfold is_digit in refl))
      (show-IsDigit _ n)
emit_int-no_e (negsuc n) = (
  refl,
  All-map IsDigit _ (decimal (n + 1)) (λ x. digit_ne b'e' x (unfold is_digit in refl))
      (show-IsDigit _ (n + 1)),
)

decode_int_step :
    (d : List ℕ) (stop : ℕ) (z : ℤ)
    → index_byte b'e' d ≡ some stop
    → scan_int (drop 1 (take stop d)) ≡ some z
    → decode_int d ≡ ok (num z, stop + 1)
unfolding decode_int
decode_int_step d stop z h k = ground arith

pub decode_int-emit :
    (z : ℤ) (rest : List ℕ)
    → IsInt64 z
    → decode_int (b'i' ∷ (emit_int z ++ (b'e' ∷ rest))) ≡ ok (num z, length (emit_int z) + 2)
decode_int-emit z rest h =
    decode_int_step (b'i' ∷ (emit_int z ++ (b'e' ∷ rest))) (suc (length (emit_int z))) z
      (index_byte-append b'e' (b'i' ∷ emit_int z) rest (refl, emit_int-no_e z))
      (ap scan_int (take-append (emit_int z) (b'e' ∷ rest)) ∙ scan_int-emit_int z h)
    ∙ ap (λ n. ok (num z, n)) (two (length (emit_int z)))
  where
    two : (n : ℕ) → suc n + 1 ≡ n + 2
    two n = omega arith

-- ---- Strings.

decode_string_step :
    (d : List ℕ) (colon w : ℕ)
    → index_byte b':' d ≡ some colon
    → string_length 0 (take colon d) ≡ some w
    → decode_string d ≡ cut_string d (colon + 1) ((colon + 1 + w) % 2 ^ 64)
unfolding decode_string
decode_string_step d colon w h k = ground arith

cut_string_step :
    (d : List ℕ) (start stop : ℕ)
    → stop < 2 ^ 63
    → stop ≤ length d
    → start ≤ stop
    → cut_string d start stop ≡ ok (str (drop start (take stop d)), stop)
unfolding cut_string is_negative
cut_string_step d start stop h k l = ground arith

pub length-emit_string :
    (s : List ℕ) → length (emit_string s) ≡ length (decimal (length s)) + 1 + length s
unfolding emit_string
length-emit_string s = omega (arith, length-append (decimal (length s)) (b':' ∷ s))

header_cut : (s rest : List ℕ) → drop (length (decimal (length s)) + 1) (emit_string s) ≡ s
unfolding emit_string
header_cut s rest =
    sym (drop-drop 1 (length (decimal (length s))) (decimal (length s) ++ (b':' ∷ s)))
    ∙ ap (drop 1) (drop-append (decimal (length s)) (b':' ∷ s))

pub decode_string-emit :
    (s rest : List ℕ)
    → IsString s
    → decode_string (emit_string s ++ rest) ≡ ok (str s, length (emit_string s))
decode_string-emit s rest h =
    let digits = show-IsDigit (suc (length s)) (length s) in
    let size = length-emit_string s in
    let whole = length-append (emit_string s) rest in
    decode_string_step (emit_string s ++ rest) (length (decimal (length s))) (length s)
      (unfold emit_string in
        rw append_assoc (
          index_byte-append b':' (decimal (length s)) (s ++ rest) (
            All-map IsDigit _ (decimal (length s)) (λ x. digit_ne b':' x (unfold is_digit in refl))
              digits)))
      (unfold emit_string in
        rw (append_assoc, take-append (decimal (length s)) (b':' ∷ (s ++ rest)))
          (string_length-numeral 0 0 (decimal (length s)) digits (omega arith)
            ∙ ap some (rw (numeral-show (suc (length s)) (length s) (omega arith)) (omega arith))))
    ∙ ap (cut_string (emit_string s ++ rest) (length (decimal (length s)) + 1)) (fits s h)
    ∙ cut_string_step (emit_string s ++ rest) (length (decimal (length s)) + 1)
        (length (emit_string s)) h (omega arith) (omega arith)
    ∙ ap (λ x. ok (str x, length (emit_string s)))
        (ap (drop (length (decimal (length s)) + 1)) (take-append (emit_string s) rest)
          ∙ header_cut s rest)
  where
    fits :
        (t : List ℕ)
        → IsString t
        → (length (decimal (length t)) + 1 + length t) % 2 ^ 64 ≡ length (emit_string t)
    fits t k = omega (arith, length-emit_string t)
