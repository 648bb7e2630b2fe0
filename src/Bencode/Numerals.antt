-- ===== src/Bencode/Numerals.antt =====
-- Decimal numerals: printing, and what the scanners of the decoders make of them.
use bit_torrent.Bencode.Scan.{index_byte, string_length, scan_digits, is_digit}
use bit_torrent.Base.{
  length-append, ltb_false→le, All-append, inr, ltb→lt, inl, ==_refl, ap, zero, some, ◌^◌, refl,
  ltb, if◌then◌else◌, false, ◌%◌, ◌-◌, Bool-cases, arith, true, ◌/◌, suc, length, ◌==◌, ◌*◌, ◌+◌,
  ◌≡◌, ◌<◌, ◌++◌, ◌∷◌, All, [], ℕ, List,
}

-- The decimal digits of a number below the fuel.
unfoldable pub show : ℕ → ℕ → List ℕ
show zero n = []
show (suc f) n =
    let more = show f (n / 10) ++ ((b'0' + n % 10) ∷ []) in
    if ltb n 10 then (b'0' + n) ∷ [] else more

abbrev pub IsDigit : ℕ → Type 0
IsDigit c = is_digit c ≡ true

ascii-IsDigit : (d : ℕ) → d < 10 → IsDigit (b'0' + d)
unfolding is_digit
ascii-IsDigit d h = ground arith

pub show-IsDigit : (f n : ℕ) → All IsDigit (show f n)
unfolding show
show-IsDigit zero n = tt
show-IsDigit (suc f) n = elim (Bool-cases (ltb n 10)) [
  | inl small ↦ rw small (ascii-IsDigit n (ltb→lt n 10 small), tt)
  | inr big ↦ rw big (
      All-append IsDigit (show f (n / 10)) _ (show-IsDigit f (n / 10))
        (ascii-IsDigit (n % 10) (omega arith), tt))
]

-- The number that digits stand for.
unfoldable pub numeral : ℕ → List ℕ → ℕ
numeral acc [] = acc
numeral acc (c ∷ cs) = numeral (acc * 10 + (c - b'0')) cs

numeral-append :
    (acc : ℕ) (xs : List ℕ) (c : ℕ)
    → numeral acc (xs ++ (c ∷ [])) ≡ numeral acc xs * 10 + (c - b'0')
unfolding numeral
numeral-append acc [] c = refl
numeral-append acc (x ∷ xs) c = numeral-append (acc * 10 + (x - b'0')) xs c

pub numeral-show : (f n : ℕ) → n < f → numeral 0 (show f n) ≡ n
unfolding show
numeral-show zero n h = absurd (omega arith)
numeral-show (suc f) n h = elim (Bool-cases (ltb n 10)) [
  | inl small ↦ rw small (unfold numeral in omega arith)
  | inr big ↦
      rw (big, numeral-append 0 (show f (n / 10)) (b'0' + n % 10))
        (omega (arith, numeral-show f (n / 10) (omega (arith, ltb_false→le n 10 big))))
]

pub scan_digits-numeral :
    (acc : ℕ) (xs : List ℕ) → All IsDigit xs → scan_digits acc xs ≡ numeral acc xs
unfolding scan_digits numeral
scan_digits-numeral acc [] h = refl
scan_digits-numeral acc (x ∷ xs) h = rw h.0 (scan_digits-numeral (acc * 10 + (x - b'0')) xs h.1)

pub string_length-numeral :
    (acc acc' : ℕ) (xs : List ℕ)
    → All IsDigit xs
    → acc' ≡ acc % 2 ^ 64
    → string_length acc' xs ≡ some (numeral acc xs % 2 ^ 64)
unfolding string_length numeral
string_length-numeral acc acc' [] h e = ap some e
string_length-numeral acc acc' (x ∷ xs) h e =
    rw h.0 (string_length-numeral (acc * 10 + (x - b'0')) _ xs h.1 (omega arith))

-- A byte that no digit is stands right behind the digits.
pub index_byte-append :
    (c : ℕ) (xs rest : List ℕ)
    → All (λ x. (x == c) ≡ false) xs
    → index_byte c (xs ++ (c ∷ rest)) ≡ some (length xs)
unfolding index_byte
index_byte-append c [] rest h = rw (==_refl c)
index_byte-append c (x ∷ xs) rest h = rw (h.0, index_byte-append c xs rest h.1)

pub All-map : (P Q : ℕ → Type 0) (xs : List ℕ) → ((x : ℕ) → P x → Q x) → All P xs → All Q xs
All-map P Q [] k h = tt
All-map P Q (x ∷ xs) k h = (k x h.0, All-map P Q xs k h.1)

pub digit_ne : (c x : ℕ) → is_digit c ≡ false → IsDigit x → (x == c) ≡ false
unfolding is_digit
digit_ne c x h k = ground arith

pub length-show_pos : (f n : ℕ) → n < f → 0 < length (show f n)
unfolding show
length-show_pos zero n h = absurd (omega arith)
length-show_pos (suc f) n h = elim (Bool-cases (ltb n 10)) [
  | inl small ↦ rw small (omega arith)
  | inr big ↦ rw (big, length-append) (omega arith)
]
