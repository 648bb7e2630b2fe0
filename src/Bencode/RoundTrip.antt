-- ===== src/Bencode/RoundTrip.antt =====
-- What was encoded is decoded.
use bit_torrent.Bencode.Keys.{puts-end, puts}
use bit_torrent.Bencode.Scalars.{length-emit_string, decode_int-emit, decode_string-emit}
use bit_torrent.Bencode.Numerals.{length-show_pos, digit_ne, show-IsDigit, IsDigit}
use bit_torrent.Bencode.Scan.{is_digit}
use bit_torrent.Bencode.Decode.{
  decode_bencode_value, decode_entries, decode_items, as_key, decode_string, decode,
}
use bit_torrent.Base.{
  drop-append, append-nil, sym, zero, subst, ◌*◌, ◌+◌, drop, length-append, [], arith, append_assoc,
  ◌==◌, length, ◌<◌, refl, ◌++◌, ◌∷◌, suc, ◌∙◌, ap, false, All, ◌≡◌, ℕ, List,
}
use bit_torrent.Bencode.Value.{
  Outcome, nil, cons, Items, put, Value, num, str, list, dict, Entries, end, entry, ok,
}
use bit_torrent.Bencode.Emit.{
  end_ok, nil_ok, entry_ok, AreEntries, cons_ok, AreItems, dict_ok, list_ok, str_ok, num_ok,
  IsValue, emit_entries, emit_items, decimal, emit_int, emit, emit_string, IsString,
}

-- ---- The first byte of a value.

decode_digits :
    (f : ℕ) (xs rest : List ℕ)
    → All IsDigit xs
    → 0 < length xs
    → decode (suc f) (xs ++ rest) ≡ decode_string (xs ++ rest)
unfolding decode is_digit
decode_digits f [] rest h k = absurd (omega arith)
decode_digits f (c ∷ cs) rest (h, _) k = ground arith

decode-emit_string :
    (f : ℕ) (s rest : List ℕ)
    → IsString s
    → decode (suc f) (emit_string s ++ rest) ≡ ok (str s, length (emit_string s))
decode-emit_string f s rest h = front ∙ decode_string-emit s rest h
  where
    front : decode (suc f) (emit_string s ++ rest) ≡ decode_string (emit_string s ++ rest)
    front =
        unfold emit_string in
        rw append_assoc (
          decode_digits f (decimal (length s)) (b':' ∷ (s ++ rest)) (show-IsDigit _ (length s))
            (length-show_pos _ (length s) (omega arith)))

-- It is not the end of a list or a dictionary.
abbrev GoesOn : List ℕ → Type 0
GoesOn d = (c : ℕ) × (cs : List ℕ) × (d ≡ c ∷ cs) × ((c == b'e') ≡ false)

digits-GoesOn : (xs rest : List ℕ) → All IsDigit xs → 0 < length xs → GoesOn (xs ++ rest)
digits-GoesOn [] rest h k = absurd (omega arith)
digits-GoesOn (c ∷ cs) rest h k =
    (c, cs ++ rest, refl, digit_ne b'e' c (unfold is_digit in refl) h.0)

emit_string-GoesOn : (s rest : List ℕ) → GoesOn (emit_string s ++ rest)
unfolding emit_string
emit_string-GoesOn s rest = rw append_assoc (
    digits-GoesOn (decimal (length s)) (b':' ∷ (s ++ rest)) (show-IsDigit _ (length s))
      (length-show_pos _ (length s) (omega arith)))

emit-GoesOn : (v : Value) (rest : List ℕ) → GoesOn (emit v ++ rest)
unfolding emit
emit-GoesOn (num z) rest = (b'i', (emit_int z ++ (b'e' ∷ [])) ++ rest, refl, refl)
emit-GoesOn (str s) rest = emit_string-GoesOn s rest
emit-GoesOn (list xs) rest = (b'l', emit_items xs ++ rest, refl, refl)
emit-GoesOn (dict m) rest = (b'd', emit_entries m ++ rest, refl, refl)

-- One round of each loop at such a byte.
decode_items_step :
    (f : ℕ) (d : List ℕ) (at : ℕ) (x : Value) (n : ℕ) (xs : Items) (stop : ℕ)
    → GoesOn d
    → decode f d ≡ ok (x, n)
    → decode_items f (drop n d) (at + n) ≡ ok (xs, stop)
    → decode_items (suc f) d at ≡ ok (cons x xs, stop)
unfolding decode
decode_items_step f d at x n xs stop (c, cs, e, go) =
    subst
      (λ (b : List ℕ).
        decode f b ≡ ok (x, n)
        → decode_items f (drop n b) (at + n) ≡ ok (xs, stop)
        → decode_items (suc f) b at ≡ ok (cons x xs, stop))
      (sym e) (λ h k. rw (go, h, k))

decode_entries_step :
    (f : ℕ) (d : List ℕ) (at : ℕ) (acc : Entries) (k : List ℕ) (n : ℕ) (v : Value) (n' : ℕ)
    → GoesOn d
    → decode f d ≡ ok (str k, n)
    → decode f (drop n d) ≡ ok (v, n')
    → decode_entries (suc f) d at acc
      ≡ decode_entries f (drop n' (drop n d)) (at + n + n') (put k v acc)
unfolding decode as_key
decode_entries_step f d at acc k n v n' (c, cs, e, go) =
    subst
      (λ (b : List ℕ).
        decode f b ≡ ok (str k, n)
        → decode f (drop n b) ≡ ok (v, n')
        → decode_entries (suc f) b at acc
          ≡ decode_entries f (drop n' (drop n b)) (at + n + n') (put k v acc))
      (sym e) (λ h h'. rw (go, h, h'))

-- ---- The induction.

ruleset sizes = (arith, length-append)

GoesOn-length : (d : List ℕ) → GoesOn d → 0 < length d
GoesOn-length d (c, cs, e, _) = rw e (omega arith)

length-emit_pos : (v : Value) → 0 < length (emit v)
length-emit_pos v = rw append-nil at (GoesOn-length (emit v ++ []) (emit-GoesOn v []))

length-emit_string_pos : (s : List ℕ) → 0 < length (emit_string s)
length-emit_string_pos s = omega (arith, length-emit_string s)

length-emit_items_pos : (xs : Items) → 0 < length (emit_items xs)
unfolding emit
length-emit_items_pos nil = omega arith
length-emit_items_pos (cons v xs) =
    omega (arith, length-append (emit v) (emit_items xs), length-emit_pos v)

length-emit_entries_pos : (m : Entries) → 0 < length (emit_entries m)
unfolding emit
length-emit_entries_pos end = omega arith
length-emit_entries_pos (entry k v m) =
    omega
      (arith, length-append (emit_string k) (emit v ++ emit_entries m), length-emit_string_pos k)

decode-emit_string_fuel :
    (f : ℕ) (s rest : List ℕ)
    → IsString s
    → 0 < f
    → decode f (emit_string s ++ rest) ≡ ok (str s, length (emit_string s))
decode-emit_string_fuel zero s rest h k = absurd (omega arith)
decode-emit_string_fuel (suc f) s rest h k = decode-emit_string f s rest h

mutual
  unfolding decode emit puts

  decode-emit_mutual :
      {v : Value} (w : IsValue v) (f : ℕ) (rest : List ℕ)
      → 2 * length (emit v) < f
      → decode f (emit v ++ rest) ≡ ok (v, length (emit v))
  decode-emit_mutual w zero rest h = absurd (omega arith)
  decode-emit_mutual (num_ok z i) (suc f) rest h = rw append_assoc (
      decode_int-emit z rest i
      ∙ ap (λ n. ok (num z, n)) {x = length (emit_int z) + 2}
          (omega (arith, length-append (emit_int z) (b'e' ∷ []))))
  decode-emit_mutual (str_ok s i) (suc f) rest h = decode-emit_string f s rest i
  decode-emit_mutual (list_ok xs i) (suc f) rest h =
      rw (decode_items-emit i f rest 1 (omega arith))
        (ap (λ n. ok (list xs, n)) {x = 1 + length (emit_items xs)} (omega arith))
  decode-emit_mutual (dict_ok m d i) (suc f) rest h =
      rw (decode_entries-emit i f rest 1 end (omega arith), puts-end m d)
        (ap (λ n. ok (dict m, n)) {x = 1 + length (emit_entries m)} (omega arith))

  decode_items-emit :
      {xs : Items} (w : AreItems xs) (f : ℕ) (rest : List ℕ) (at : ℕ)
      → 2 * length (emit_items xs) + 1 < f
      → decode_items f (emit_items xs ++ rest) at ≡ ok (xs, at + length (emit_items xs))
  decode_items-emit w zero rest at h = absurd (omega arith)
  decode_items-emit nil_ok (suc f) rest at h = refl
  decode_items-emit (cons_ok v xs i is) (suc f) rest at h =
      let size = length-append (emit v) (emit_items xs) in
      let R : List ℕ = emit_items xs ++ rest in
      rw append_assoc (
        decode_items_step f (emit v ++ R) at v (length (emit v)) xs
          (at + length (emit v) + length (emit_items xs)) (emit-GoesOn v R)
          (decode-emit_mutual i f R (omega (arith, size, length-emit_items_pos xs)))
          (ap (λ d. decode_items f d (at + length (emit v))) (drop-append (emit v) R)
            ∙ decode_items-emit is f rest (at + length (emit v))
                (omega (arith, size, length-emit_pos v)))
        ∙ ap (λ n. ok (cons v xs, n)) {x = at + length (emit v) + length (emit_items xs)}
            (omega (arith, size)))

  decode_entries-emit :
      {m : Entries} (w : AreEntries m) (f : ℕ) (rest : List ℕ) (at : ℕ) (acc : Entries)
      → 2 * length (emit_entries m) + 1 < f
      → decode_entries f (emit_entries m ++ rest) at acc
        ≡ ok (puts acc m, at + length (emit_entries m))
  decode_entries-emit w zero rest at acc h = absurd (omega arith)
  decode_entries-emit end_ok (suc f) rest at acc h = refl
  decode_entries-emit (entry_ok k v m ik iv im) (suc f) rest at acc h =
      let K : List ℕ = emit_string k in
      let V : List ℕ = emit v in
      let M : List ℕ = emit_entries m in
      let R : List ℕ = M ++ rest in
      let size = length-append K (V ++ M) in
      let size' = length-append V M in
      let pk = length-emit_string_pos k in
      let pv = length-emit_pos v in
      let pm = length-emit_entries_pos m in
      rw (append_assoc, append_assoc)
        (decode_entries_step f (K ++ (V ++ R)) at acc k (length K) v (length V)
            (emit_string-GoesOn k (V ++ R)) (decode-emit_string_fuel f k (V ++ R) ik (omega arith))
            (ap (decode f) (drop-append K (V ++ R)) ∙ decode-emit_mutual iv f R (omega arith))
          ∙ ap (λ d. decode_entries f d (at + length K + length V) (put k v acc))
              (ap (drop (length V)) (drop-append K (V ++ R)) ∙ drop-append V R)
          ∙ decode_entries-emit im f rest (at + length K + length V) (put k v acc) (omega arith)
          ∙ ap (λ n. ok (puts (put k v acc) m, n)) {x = at + length K + length V + length M}
              (omega arith))

-- With fuel for the value alone, whatever follows it.
pub decode-emit :
    (f : ℕ) (v : Value) (rest : List ℕ)
    → IsValue v
    → 2 * length (emit v) < f
    → decode f (emit v ++ rest) ≡ ok (v, length (emit v))
decode-emit f v rest w h = decode-emit_mutual w f rest h

-- Decoding the bencode of a value gives that value and the number of its bytes, whatever follows.
pub decode_bencode_value-emit :
    (v : Value) (rest : List ℕ)
    → IsValue v
    → decode_bencode_value (emit v ++ rest) ≡ ok (v, length (emit v))
unfolding decode_bencode_value
decode_bencode_value-emit v rest w =
    decode-emit_mutual w _ rest (omega (arith, length-append (emit v) rest))

-- No two values have the same bencode, nor is one the beginning of the other.
pub emit_prefix_free :
    (v w : Value) (rest : List ℕ)
    → IsValue v
    → IsValue w
    → emit v ++ rest ≡ emit w
    → (v ≡ w) × (rest ≡ [])
emit_prefix_free v w rest hv hw e =
    (cc both, length_zero (omega (arith, sizes, ap length e, length-append (emit v) rest)))
  where
    both : ◌≡◌ {A = Outcome (Value × ℕ)} (ok (v, length (emit v))) (ok (w, length (emit w)))
    both =
        sym (decode_bencode_value-emit v rest hv)
        ∙ ap decode_bencode_value (e ∙ sym (append-nil (emit w)))
        ∙ decode_bencode_value-emit w [] hw

    sizes : length (emit v) ≡ length (emit w)
    sizes = cc both

    length_zero : {r : List ℕ} → length r ≡ 0 → r ≡ []
    length_zero {r = []} h = refl
    length_zero {r = x ∷ r} h = absurd (omega arith)
