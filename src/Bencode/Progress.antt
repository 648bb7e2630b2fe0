-- ===== src/Bencode/Progress.antt =====
-- The decoder advances, stays inside the data, and ends.
use bit_torrent.Bencode.Scan.{is_digit, string_length, scan_int, is_negative, index_byte}
use bit_torrent.Base.{
  length-drop, not, ◌==◌, ◌*◌, ◌⊎◌, ◌≢◌, zero, suc, ◌^◌, ◌%◌, ◌+◌, take, drop, [], inr, inl, ◌∷◌,
  arith, Option-cases, length, some, ◌≤◌, ◌≡◌, ◌<◌, ℕ, List,
}
use bit_torrent.Bencode.Value.{
  err, Outcome-cases, panic, Error, put, Ensures-out_of_fuel, Ensures-ok, Ensures-weaken, end,
  Ensures-bind, Ensures-of, str, Ensures-if, Ensures, out_of_fuel, Entries, Items, Value, ok,
}
use bit_torrent.Bencode.Decode.{
  decode_bencode_value, as_key, decode_entries, decode_items, decode, decode_string, cut_string,
  decode_int,
}

pub index_byte_lt : (c : ℕ) (d : List ℕ) (i : ℕ) → index_byte c d ≡ some i → i < length d
unfolding index_byte
index_byte_lt c [] i h = cc
index_byte_lt c (x ∷ xs) i h = elim (Option-cases (index_byte c xs)) [
  | inl e ↦ ground arith
  | inr (j, e) ↦ ground (arith, index_byte_lt c xs j e)
]

-- `n` bytes were taken from the front of `d`, one at least.
abbrev pub Took : List ℕ → ℕ → Type 0
Took d n = (0 < n) × (n ≤ length d)

decode_int-Took : (d : List ℕ) (v : Value) (n : ℕ) → decode_int d ≡ ok (v, n) → Took d n
unfolding decode_int
decode_int-Took d v n h = elim (Option-cases (index_byte b'e' d)) [
  | inl e ↦ absurd (cc (rw (e, decode_int) at h))
  | inr (i, e) ↦ elim (Option-cases (scan_int (drop 1 (take i d)))) [
    | inl e' ↦ absurd (cc (rw (e, e', decode_int) at h))
    | inr (z, e') ↦ ground (arith, index_byte_lt b'e' d i e, rw (e, e', decode_int) at h)
  ]
]

cut_string-Took :
    (d : List ℕ) (start stop : ℕ) (v : Value) (n : ℕ)
    → 0 < start
    → cut_string d start stop ≡ ok (v, n)
    → Took d n
unfolding cut_string is_negative
cut_string-Took d start stop v n h e = ground arith

decode_string-Took : (d : List ℕ) (v : Value) (n : ℕ) → decode_string d ≡ ok (v, n) → Took d n
unfolding decode_string
decode_string-Took d v n h = elim (Option-cases (index_byte b':' d)) [
  | inl e ↦ absurd (cc (rw (e, decode_string) at h))
  | inr (i, e) ↦ elim (Option-cases (string_length 0 (take i d))) [
    | inl e' ↦ absurd (cc (rw (e, e', decode_string) at h))
    | inr (w, e') ↦
        cut_string-Took d (i + 1) ((i + 1 + w) % 2 ^ 64) v n (omega arith)
          (rw (e, e', decode_string) at h)
  ]
]

-- What the loops answer, against what they are given.
abbrev Advances : List ℕ → ℕ → ℕ → Type 0
Advances d at stop = (at < stop) × (stop ≤ at + length d)

decode_int-ne : (d : List ℕ) → decode_int d ≢ out_of_fuel
unfolding decode_int
decode_int-ne d = ground arith

decode_string-ne : (d : List ℕ) → decode_string d ≢ out_of_fuel
unfolding decode_string cut_string
decode_string-ne d = ground arith

as_key-Ensures : (T : Type 0) (v : Value) → Ensures T (λ _. Unit {0}) (as_key v)
unfolding as_key
as_key-Ensures T (str k) = tt
as_key-Ensures T _ = tt

abbrev Allowed : Type 0 → ℕ → ℕ → Type 0
Allowed T need f = T ⊎ (need < f)

spend :
    {T : Type 0} {need need' f : ℕ}
    → (need < suc f → need' < f)
    → Allowed T need (suc f)
    → Allowed T need' f
spend k (inl t) = inl t
spend k (inr h) = inr (k h)

no_fuel : {T : Type 0} {need : ℕ} → Allowed T need 0 → T
no_fuel (inl t) = t
no_fuel (inr h) = absurd (omega arith)

-- One induction on the fuel for both facts: with `T` true it says what an answer looks like, and
-- with `T` false also that the fuel suffices.
mutual
  unfolding decode

  decode-Ensures :
      (T : Type 0) (f : ℕ) (d : List ℕ)
      → Allowed T (2 * length d) f
      → Ensures T (λ r. Took d r.1) (decode f d)
  decode-Ensures T zero d h = no_fuel h
  decode-Ensures T (suc f) [] h = tt
  decode-Ensures T (suc f) (c ∷ cs) h =
      let P : Value × ℕ → Type 0 = λ r. Took (c ∷ cs) r.1 in
      Ensures-if T P (c == b'i') _ _
        (Ensures-of T P _ (decode_int-ne (c ∷ cs)) λ r e. decode_int-Took (c ∷ cs) r.0 r.1 e)
        (Ensures-if T P (c == b'l') _ _
          (Ensures-bind T (λ r. Advances cs 1 r.1) P (decode_items f cs 1) _
            (decode_items-Ensures T f cs 1 (spend (λ k. omega arith) h)) λ r k. omega arith)
          (Ensures-if T P (c == b'd') _ _
            (Ensures-bind T (λ r. Advances cs 1 r.1) P (decode_entries f cs 1 end) _
              (decode_entries-Ensures T f cs 1 end (spend (λ k. omega arith) h)) λ r k. omega arith)
            (Ensures-if T P (not (is_digit c)) _ _ tt (
              Ensures-of T P _ (decode_string-ne (c ∷ cs))
                λ r e. decode_string-Took (c ∷ cs) r.0 r.1 e))))

  decode_items-Ensures :
      (T : Type 0) (f : ℕ) (d : List ℕ) (at : ℕ)
      → Allowed T (2 * length d + 1) f
      → Ensures T (λ r. Advances d at r.1) (decode_items f d at)
  decode_items-Ensures T zero d at h = no_fuel h
  decode_items-Ensures T (suc f) [] at h = tt
  decode_items-Ensures T (suc f) (c ∷ cs) at h =
      let P : Items × ℕ → Type 0 = λ r. Advances (c ∷ cs) at r.1 in
      Ensures-if T P (c == b'e') _ _ (omega arith) (
        Ensures-bind T (λ r. Took (c ∷ cs) r.1) P (decode f (c ∷ cs)) _
          (decode-Ensures T f (c ∷ cs) (spend (λ k. omega arith) h))
          λ r k.
            Ensures-bind T (λ q. Advances (drop r.1 (c ∷ cs)) (at + r.1) q.1) P
              (decode_items f (drop r.1 (c ∷ cs)) (at + r.1)) _
              (decode_items-Ensures T f (drop r.1 (c ∷ cs)) (at + r.1)
                (spend (λ j. omega (arith, length-drop r.1 (c ∷ cs))) h))
              λ q j. omega (arith, length-drop r.1 (c ∷ cs)))

  decode_entries-Ensures :
      (T : Type 0) (f : ℕ) (d : List ℕ) (at : ℕ) (acc : Entries)
      → Allowed T (2 * length d + 1) f
      → Ensures T (λ r. Advances d at r.1) (decode_entries f d at acc)
  decode_entries-Ensures T zero d at acc h = no_fuel h
  decode_entries-Ensures T (suc f) [] at acc h = tt
  decode_entries-Ensures T (suc f) (c ∷ cs) at acc h =
      let P : Entries × ℕ → Type 0 = λ r. Advances (c ∷ cs) at r.1 in
      Ensures-if T P (c == b'e') _ _ (omega arith) (
        Ensures-bind T (λ r. Took (c ∷ cs) r.1) P (decode f (c ∷ cs)) _
          (decode-Ensures T f (c ∷ cs) (spend (λ k. omega arith) h))
          λ r k.
            Ensures-bind T (λ _. Unit {0}) P (as_key r.0) _ (as_key-Ensures T r.0)
              λ key _.
                let d' = drop r.1 (c ∷ cs) in
                Ensures-bind T (λ q. Took d' q.1) P (decode f d') _
                  (decode-Ensures T f d' (spend (λ j. omega (arith, length-drop r.1 (c ∷ cs))) h))
                  λ q j.
                    let d'' = drop q.1 d' in
                    let at' = at + r.1 + q.1 in
                    let size'' = length-drop q.1 d' in
                    let size' = length-drop r.1 (c ∷ cs) in
                    Ensures-weaken T (λ s. Advances d'' at' s.1) P
                      (decode_entries f d'' at' (put key q.0 acc))
                      (decode_entries-Ensures T f d'' at' (put key q.0 acc)
                        (spend (λ i. omega arith) h))
                      λ s i. omega arith)

-- What was decoded took at least one byte, and no more than there are, so the position that the
-- caller goes on from lies in the data.
pub decode-Took : (f : ℕ) (d : List ℕ) (v : Value) (n : ℕ) → decode f d ≡ ok (v, n) → Took d n
decode-Took f d v n e =
    Ensures-ok (Unit {0}) (λ r. Took d r.1) (decode f d) (v, n)
      (decode-Ensures (Unit {0}) f d (inl tt)) e

-- Decoding ends on every input: fuel above twice the length of the data is never used up.
pub decode-ne-out_of_fuel : (f : ℕ) (d : List ℕ) → 2 * length d < f → decode f d ≢ out_of_fuel
decode-ne-out_of_fuel f d h = Ensures-out_of_fuel _ (decode f d) (decode-Ensures ⊥ f d (inr h))

-- `decodeBencodeValue` ends on all data, with a value that takes between one and all of its bytes,
-- an error, or a panic.
pub decode_bencode_value_total :
    (d : List ℕ)
    → ((v : Value) × (n : ℕ) × (decode_bencode_value d ≡ ok (v, n)) × (0 < n) × (n ≤ length d))
      ⊎ ((e : Error) × (decode_bencode_value d ≡ err e))
      ⊎ (decode_bencode_value d ≡ panic)
unfolding decode_bencode_value
decode_bencode_value_total d =
    elim (Outcome-cases (decode_bencode_value d) (decode-ne-out_of_fuel _ d (omega arith))) [
      | inl ((v, n), e) ↦ inl (v, n, e, (decode-Took _ d v n e).0, (decode-Took _ d v n e).1)
      | inr r ↦ inr r
    ]
