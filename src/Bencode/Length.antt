-- ===== src/Bencode/Length.antt =====
-- `bencodeLen` against `decodeBencodeValue`.
use bit_torrent.Bencode.Progress.{decode-Took}
use bit_torrent.Bencode.Scan.{is_digit, is_negative, index_byte}
use bit_torrent.Base.{
  not, drop-drop, ◌∙◌, length-drop, ap, length, ◌≤◌, ◌%◌, [], zero, suc, ◌+◌, arith, none, ◌^◌,
  some, refl, false, ◌<◌, get_elem?, sym, true, ◌==◌, ◌∷◌, subst, if◌then◌else◌, drop, Bool, ◌≡◌, ℕ,
  List,
}
use bit_torrent.Bencode.Value.{
  str, cons, put, Value, Ensures, Entries, dict, end, list, unterminated, Error, Outcome, ok, err,
  panic, out_of_fuel, ◌>>=◌,
}
use bit_torrent.Bencode.Decode.{
  len_entry_value, as_key, len_entries, len_items, decode_entries, decode_items, len_value, decode,
  cut_string, string_len, decode_string, decode_int, byte_at,
}

-- Where the decoder answers, the other function answers its number of bytes.
abbrev Agrees {ℓ} : {A : Type ℓ} → Outcome (A × ℕ) → Outcome ℕ → Type 0
Agrees (ok a) r = r ≡ ok a.1
Agrees (err e) r = Unit {0}
Agrees panic r = Unit {0}
Agrees out_of_fuel r = Unit {0}

module _ {ℓ} {A : Type ℓ} where
  Agrees-if :
      (b : Bool) (x y : Outcome (A × ℕ)) (x' y' : Outcome ℕ)
      → (b ≡ true → Agrees x x')
      → Agrees y y'
      → Agrees (if b then x else y) (if b then x' else y')
  Agrees-if true x y x' y' h k = h refl
  Agrees-if false x y x' y' h k = k

  Agrees-refused :
      (b : Bool) (e : Error) (y : Outcome (A × ℕ)) (r : Outcome ℕ)
      → Agrees y r
      → Agrees (if b then err e else y) r
  Agrees-refused true e y r h = tt
  Agrees-refused false e y r h = h

  Agrees-bind {κ} :
      {B : Type κ} (m : Outcome (B × ℕ)) (m' : Outcome ℕ) (k : B × ℕ → Outcome (A × ℕ))
      (k' : ℕ → Outcome ℕ)
      → Agrees m m'
      → ((b : B) (n : ℕ) → m ≡ ok (b, n) → Agrees (k (b, n)) (k' n))
      → Agrees (m >>= k) (m' >>= k')
  Agrees-bind (ok (b, n)) m' k k' h g =
      subst (λ (r : Outcome ℕ). Agrees (k (b, n)) (r >>= k')) (sym h) (g b n refl)
  Agrees-bind (err e) m' k k' h g = tt
  Agrees-bind panic m' k k' h g = tt
  Agrees-bind out_of_fuel m' k k' h g = tt

  Agrees-of :
      (m : Outcome (A × ℕ)) (r : Outcome ℕ) → ((a : A × ℕ) → m ≡ ok a → r ≡ ok a.1) → Agrees m r
  Agrees-of (ok a) r h = h a refl
  Agrees-of (err e) r h = tt
  Agrees-of panic r h = tt
  Agrees-of out_of_fuel r h = tt

  Agrees-tail :
      (m : Outcome (A × ℕ)) (r : Outcome ℕ) {B : Type 0} (f : A → B)
      → Agrees m r
      → Agrees (m >>= λ a. ok (f a.0, a.1)) r
  Agrees-tail (ok a) r f h = h
  Agrees-tail (err e) r f h = tt
  Agrees-tail panic r f h = tt
  Agrees-tail out_of_fuel r f h = tt

get_elem?-drop :
    (at : ℕ) (d : List ℕ) (c : ℕ) (cs : List ℕ) → drop at d ≡ c ∷ cs → get_elem? d at ≡ some c
get_elem?-drop zero [] c cs h = cc
get_elem?-drop zero (x ∷ d) c cs h = ground arith
get_elem?-drop (suc at) [] c cs h = cc
get_elem?-drop (suc at) (x ∷ d) c cs h = get_elem?-drop at d c cs h

byte_at-drop :
    (at : ℕ) (d : List ℕ) (c : ℕ) (cs : List ℕ)
    → at < 2 ^ 63
    → c ∷ cs ≡ drop at d
    → byte_at d at ≡ ok (some c)
unfolding byte_at is_negative
byte_at-drop at d c cs h e = ground (arith, get_elem?-drop at d c cs (sym e))

decode_int-Agrees :
    (c : ℕ) (cs : List ℕ)
    → (c == b'i') ≡ true
    → Agrees
        (decode_int (c ∷ cs))
        (elim (index_byte b'e' cs) [ none ↦ err unterminated | some stop ↦ ok (stop + 2) ])
unfolding decode_int index_byte
decode_int-Agrees c cs h = Agrees-of _ _ λ a e. ground arith

string_len-Agrees : (d : List ℕ) → Agrees (decode_string d) (string_len d)
unfolding decode_string string_len cut_string
string_len-Agrees d = Agrees-of _ _ λ a e. ground arith

-- A position inside the data stays one: the additions do not wrap.
no_wrap : (at n : ℕ) → at + n < 2 ^ 63 → (at + n) % 2 ^ 64 ≡ at + n
no_wrap at n h = omega arith

-- What is left of the data, against the position in it.
abbrev Stands : List ℕ → List ℕ → ℕ → Type 0
Stands d rest at = (rest ≡ drop at d) × (at ≤ length d) × (length d < 2 ^ 63)

Stands-rest : (d rest : List ℕ) (at : ℕ) → Stands d rest at → length rest + at ≡ length d
Stands-rest d rest at s = omega (arith, ap length s.0, length-drop at d)

Stands-next :
    (d rest : List ℕ) (at n : ℕ)
    → Stands d rest at
    → n ≤ length rest
    → Stands d (drop n rest) (at + n)
Stands-next d rest at n s h =
    (ap (drop n) s.0 ∙ drop-drop n at d, omega (arith, Stands-rest d rest at s), s.2)

Agrees-key {ℓ} :
    {A : Type ℓ} (v : Value) (k : List ℕ → Outcome (A × ℕ)) (r : Outcome ℕ)
    → ((key : List ℕ) → Agrees (k key) r)
    → Agrees (as_key v >>= k) r
unfolding as_key
Agrees-key (str key) k r h = h key
Agrees-key _ k r h = tt

decode-nil : (f : ℕ) → Ensures (Unit {0}) (λ _. ⊥) (decode f [])
unfolding decode
decode-nil zero = tt
decode-nil (suc f) = tt

Agrees-none {ℓ κ} :
    {A : Type ℓ} {B : Type κ} (m : Outcome B) (k : B → Outcome (A × ℕ)) (r : Outcome ℕ)
    → Ensures (Unit {0}) (λ _. ⊥) m
    → Agrees (m >>= k) r
Agrees-none (ok a) k r h = absurd h
Agrees-none (err e) k r h = tt
Agrees-none panic k r h = tt
Agrees-none out_of_fuel k r h = tt

-- The value of an entry, and the entries behind it, from what is known of the two calls.
entry_value :
    (f : ℕ) (d rest : List ℕ) (at : ℕ) (key : List ℕ) (acc : Entries)
    → Stands d rest at
    → Agrees (decode f rest) (len_value f rest)
    → ((v : Value) (n : ℕ)
        → Stands d (drop n rest) (at + n)
        → Agrees
            (decode_entries f (drop n rest) (at + n) (put key v acc))
            (len_entries f d (at + n)))
    → Agrees
        (decode f rest >>= λ r. decode_entries f (drop r.1 rest) (at + r.1) (put key r.0 acc))
        (len_entry_value (len_value f) (len_entries f d) d at)
unfolding len_entry_value
entry_value f d [] at key acc s hv he = Agrees-none (decode f []) _ _ (decode-nil f)
entry_value f d (c ∷ cs) at key acc s hv he =
    rw (byte_at-drop at d c cs (omega (arith, Stands-rest d (c ∷ cs) at s)) s.0, ← s.0)
      (Agrees-bind (decode f (c ∷ cs)) (len_value f (c ∷ cs)) _ _ hv λ v n e.
        let took = decode-Took f (c ∷ cs) v n e in
        let s' = Stands-next d (c ∷ cs) at n s took.1 in
        rw (no_wrap at n (omega (arith, s'.1, s'.2))) (he v n s'))

mutual
  unfolding decode len_value

  decode-Agrees : (f : ℕ) (d : List ℕ) → length d < 2 ^ 63 → Agrees (decode f d) (len_value f d)
  decode-Agrees zero d h = tt
  decode-Agrees (suc f) [] h = tt
  decode-Agrees (suc f) (c ∷ cs) h =
      let start : Stands (c ∷ cs) cs 1 = (refl, omega arith, h) in
      Agrees-if (c == b'i') _ _ _ _ (decode_int-Agrees c cs) (
        Agrees-if (c == b'l') _ _ _ _
          (λ _.
            Agrees-tail (decode_items f cs 1) _ list (decode_items-Agrees f (c ∷ cs) cs 1 start))
          (Agrees-if (c == b'd') _ _ _ _
            (λ _.
              Agrees-tail (decode_entries f cs 1 end) _ dict
                (decode_entries-Agrees f (c ∷ cs) cs 1 end start))
            (Agrees-refused (not (is_digit c)) _ _ _ (string_len-Agrees (c ∷ cs)))))

  decode_items-Agrees :
      (f : ℕ) (d rest : List ℕ) (at : ℕ)
      → Stands d rest at
      → Agrees (decode_items f rest at) (len_items f d at)
  decode_items-Agrees zero d rest at h = tt
  decode_items-Agrees (suc f) d [] at h = tt
  decode_items-Agrees (suc f) d (c ∷ cs) at h =
      rw (byte_at-drop at d c cs (omega (arith, Stands-rest d (c ∷ cs) at h)) h.0) (
        Agrees-if (c == b'e') _ _ _ _ (λ _. refl)
          (rw (← h.0) (
            Agrees-bind (decode f (c ∷ cs)) (len_value f (c ∷ cs)) _ _
              (decode-Agrees f (c ∷ cs) (omega (arith, Stands-rest d (c ∷ cs) at h)))
              λ v n e.
                let took = decode-Took f (c ∷ cs) v n e in
                let s = Stands-next d (c ∷ cs) at n h took.1 in
                rw (no_wrap at n (omega (arith, s.1, s.2))) (
                  Agrees-tail (decode_items f (drop n (c ∷ cs)) (at + n)) _ (cons v)
                    (decode_items-Agrees f d (drop n (c ∷ cs)) (at + n) s)))))

  decode_entries-Agrees :
      (f : ℕ) (d rest : List ℕ) (at : ℕ) (acc : Entries)
      → Stands d rest at
      → Agrees (decode_entries f rest at acc) (len_entries f d at)
  decode_entries-Agrees zero d rest at acc h = tt
  decode_entries-Agrees (suc f) d [] at acc h = tt
  decode_entries-Agrees (suc f) d (c ∷ cs) at acc h =
      rw (byte_at-drop at d c cs (omega (arith, Stands-rest d (c ∷ cs) at h)) h.0) (
        Agrees-if (c == b'e') _ _ _ _ (λ _. refl)
          (rw (← h.0) (
            Agrees-bind (decode f (c ∷ cs)) (len_value f (c ∷ cs)) _ _
              (decode-Agrees f (c ∷ cs) (omega (arith, Stands-rest d (c ∷ cs) at h)))
              λ k n e.
                let took = decode-Took f (c ∷ cs) k n e in
                let s = Stands-next d (c ∷ cs) at n h took.1 in
                rw (no_wrap at n (omega (arith, s.1, s.2))) (
                  Agrees-key k _ _ λ key.
                    entry_value f d (drop n (c ∷ cs)) (at + n) key acc s
                      (decode-Agrees f (drop n (c ∷ cs)) (omega (arith, Stands-rest d _ _ s)))
                      λ v n' s'.
                        decode_entries-Agrees f d (drop n' (drop n (c ∷ cs))) (at + n + n')
                          (put key v acc) s'))))

-- On data of any length that Go can hold, `bencodeLen` finds the end of each value that
-- `decodeBencodeValue` decodes: it answers the same number of bytes.
pub len_value-decode :
    (f : ℕ) (d : List ℕ) (v : Value) (n : ℕ)
    → length d < 2 ^ 63
    → decode f d ≡ ok (v, n)
    → len_value f d ≡ ok n
len_value-decode f d v n h e =
    subst (λ (r : Outcome (Value × ℕ)). Agrees r (len_value f d)) e (decode-Agrees f d h)
