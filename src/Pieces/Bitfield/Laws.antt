-- ===== src/Pieces/Bitfield/Laws.antt =====
-- Setting a bit of a bitfield sets that bit and no other.
use Prim.Native.Nat.{suc, bit_or}
use bit_torrent.Base.{
  ◌⊎◌, none, length-replicate, All-append, length-append, ◌+◌, leb, ◌≤◌, ◌++◌, replicate, ap, ◌∙◌,
  ==_iff, inl, inr, Bool-cases, [], ◌||◌, zero, ◌==◌, ◌-◌, if◌then◌else◌, some, ◌∷◌, ◌%◌, refl,
  ◌&&◌, sym, false, arith, length-set, ◌/◌, get_elem?, get_or, set, ◌^◌, ltb, not, true, All, ◌<◌,
  ◌≡◌, Bool, ℕ, List, length,
}
use bit_torrent.Pieces.Bitfield.{
  build_bitfield, mark_pieces, set_bitfield_piece, grow, bitfield_has_piece, or_bit,
}
use bit_torrent.Wire.Bytes.{IsByte}

-- ---- One byte: a table of all bytes and bits.

every : (ℕ → Bool) → ℕ → Bool
every p zero = true
every p (suc n) = every p n && p n

every_elim : (p : ℕ → Bool) (n : ℕ) → every p n ≡ true → (x : ℕ) → x < n → p x ≡ true
unfolding every
every_elim p zero h x l = absurd (omega arith)
every_elim p (suc n) h x l = ground (arith, every_elim p n (ground arith) x)

abbrev same : Bool → Bool → Bool
same true b = b
same false b = not b

same→eq : (a b : Bool) → same a b ≡ true → a ≡ b
same→eq true b h = sym h
same→eq false true h = cc
same→eq false false h = refl

abbrev or_agrees : ℕ → ℕ → ℕ → Bool
or_agrees b k j =
    ltb (bit_or b (2 ^ k)) 256
    && same (bit_or b (2 ^ k) / 2 ^ j % 2 == 1) (k == j || b / 2 ^ j % 2 == 1)

or_rows : (b k : ℕ) → Bool
or_rows b k = every (or_agrees b k) 8

or_table : every (λ b. every (or_rows b) 8) 256 ≡ true
unfolding every or_rows
or_table = refl

or_lem : (b k j : ℕ) → b < 256 → k < 8 → j < 8 → or_agrees b k j ≡ true
unfolding or_rows
or_lem b k j hb hk hj =
    let of_byte = every_elim (λ b. every (or_rows b) 8) 256 or_table b hb in
    every_elim (or_agrees b k) 8 (every_elim (or_rows b) 8 of_byte k hk) j hj

or_IsByte : (b k : ℕ) → b < 256 → k < 8 → bit_or b (2 ^ k) < 256
or_IsByte b k hb hk = ground (arith, or_lem b k 0 hb hk (omega arith))

or_bit_at :
    (b k j : ℕ)
    → b < 256
    → k < 8
    → j < 8
    → (bit_or b (2 ^ k) / 2 ^ j % 2 == 1) ≡ (k == j || b / 2 ^ j % 2 == 1)
or_bit_at b k j hb hk hj = same→eq _ _ (and_right _ _ (or_lem b k j hb hk hj))
  where
    and_right : (x y : Bool) → (x && y) ≡ true → y ≡ true
    and_right true y h = h
    and_right false y h = cc

-- ---- A bitfield.

All-set : (xs : List ℕ) (i v : ℕ) → All IsByte xs → IsByte v → All IsByte (set xs i v)
All-set [] i v h k = tt
All-set (x ∷ xs) zero v h k = (k, h.1)
All-set (x ∷ xs) (suc i) v h k = (h.0, All-set xs i v h.1 k)

get_or-IsByte : (xs : List ℕ) (i : ℕ) → All IsByte xs → IsByte (get_or xs i 0)
get_or-IsByte [] i h = omega arith
get_or-IsByte (x ∷ xs) zero h = h.0
get_or-IsByte (x ∷ xs) (suc i) h = get_or-IsByte xs i h.1

get_elem?-get_or : (xs : List ℕ) (i : ℕ) → i < length xs → get_elem? xs i ≡ some (get_or xs i 0)
get_elem?-get_or [] i h = absurd (omega arith)
get_elem?-get_or (x ∷ xs) zero h = refl
get_elem?-get_or (x ∷ xs) (suc i) h = get_elem?-get_or xs i (omega arith)

get_elem?-set :
    (xs : List ℕ) (i j v : ℕ)
    → i < length xs
    → get_elem? (set xs i v) j ≡ (if i == j then some v else get_elem? xs j)
get_elem?-set [] i j v h = absurd (omega arith)
get_elem?-set (x ∷ xs) zero zero v h = ground arith
get_elem?-set (x ∷ xs) zero (suc j) v h = ground arith
get_elem?-set (x ∷ xs) (suc i) zero v h = ground arith
get_elem?-set (x ∷ xs) (suc i) (suc j) v h = ground (arith, get_elem?-set xs i j v (omega arith))

or_bit-IsByte : (bf : List ℕ) (i : ℕ) → All IsByte bf → All IsByte (or_bit bf i)
unfolding or_bit
or_bit-IsByte bf i h =
    All-set bf (i / 8) _ h (or_IsByte _ (7 - i % 8) (get_or-IsByte bf (i / 8) h) (omega arith))

length-or_bit : (bf : List ℕ) (i : ℕ) → length (or_bit bf i) ≡ length bf
unfolding or_bit
length-or_bit bf i = length-set bf (i / 8) _

-- The same bit of the same byte is the same piece.
same_bit : (i j : ℕ) → i / 8 ≡ j / 8 → (7 - i % 8 == 7 - j % 8) ≡ (i == j)
same_bit i j h = ground arith

-- One bit is set.
has-or_bit :
    (bf : List ℕ) (i j : ℕ)
    → All IsByte bf
    → i / 8 < length bf
    → bitfield_has_piece (or_bit bf i) j ≡ (i == j || bitfield_has_piece bf j)
unfolding bitfield_has_piece or_bit
has-or_bit bf i j h k =
    let b = get_or bf (i / 8) 0 in
    let v = bit_or b (2 ^ (7 - i % 8)) in
    let bit =
      or_bit_at b (7 - i % 8) (7 - j % 8) (get_or-IsByte bf (i / 8) h) (omega arith)
        (omega arith) in
    let read = get_elem?-set bf (i / 8) (j / 8) v k in
    let old = get_elem?-get_or bf (i / 8) k in
    elim (Bool-cases (i / 8 == j / 8)) [
      | inr other ↦ ground arith
      | inl byte ↦
          let e : i / 8 ≡ j / 8 = (==_iff _ _).0 byte in
          let here : get_elem? (set bf (i / 8) v) (j / 8) ≡ some v = read ∙ rw byte in
          let there : get_elem? bf (j / 8) ≡ some b = rw (← e) old in
          rw (here, there, bitfield_has_piece)
            (bit ∙ ap (λ x. x || b / 2 ^ (7 - j % 8) % 2 == 1) (same_bit i j e))
    ]

-- ---- `setBitfieldPiece`.

All-replicate : (n : ℕ) → All IsByte (replicate {A = ℕ} n 0)
All-replicate zero = tt
All-replicate (suc n) = (omega arith, All-replicate n)

-- A byte that was added is zero.
get_elem?-zeros :
    (n q : ℕ)
    → (get_elem? (replicate {A = ℕ} n 0) q ≡ none) ⊎ (get_elem? (replicate {A = ℕ} n 0) q ≡ some 0)
get_elem?-zeros zero q = inl refl
get_elem?-zeros (suc n) zero = inr refl
get_elem?-zeros (suc n) (suc q) = get_elem?-zeros n q

get_elem?-padded :
    (xs : List ℕ) (n q : ℕ)
    → (get_elem? (xs ++ replicate {A = ℕ} n 0) q ≡ get_elem? xs q)
      ⊎ ((get_elem? xs q ≡ none) × (get_elem? (xs ++ replicate {A = ℕ} n 0) q ≡ some 0))
get_elem?-padded [] n q = elim (get_elem?-zeros n q) [ inl e ↦ inl e | inr e ↦ inr (refl, e) ]
get_elem?-padded (x ∷ xs) n zero = inl refl
get_elem?-padded (x ∷ xs) n (suc q) = get_elem?-padded xs n q

no_bit : (k : ℕ) → (0 / 2 ^ k % 2 == 1) ≡ false
no_bit k = ground arith

get_elem?-grown :
    (xs : List ℕ) (n j : ℕ)
    → bitfield_has_piece (xs ++ replicate {A = ℕ} n 0) j ≡ bitfield_has_piece xs j
unfolding bitfield_has_piece
get_elem?-grown xs n j = elim (get_elem?-padded xs n (j / 8)) [
  | inl e ↦ rw (e, bitfield_has_piece)
  | inr (e, e') ↦ rw (e, e', bitfield_has_piece) (no_bit (7 - j % 8))
]

grow_lem :
    (bf : List ℕ) (i j : ℕ)
    → length bf ≤ i / 8
    → (bitfield_has_piece (grow bf (i / 8 + 1)) j ≡ bitfield_has_piece bf j)
      × (i / 8 < length (grow bf (i / 8 + 1)))
unfolding grow
grow_lem bf i j h = (
  get_elem?-grown bf (i / 8 + 1 - length bf) j,
  omega (
    arith,
    length-append bf (replicate (i / 8 + 1 - length bf) 0),
    length-replicate (i / 8 + 1 - length bf) (zero),
  ),
)

-- After `setBitfieldPiece` the bitfield has the piece that was set and those that it had, and no
-- other; it grows where it has to.
pub has-set_bitfield_piece :
    (bf : List ℕ) (i j : ℕ)
    → All IsByte bf
    → bitfield_has_piece (set_bitfield_piece bf i) j ≡ (i == j || bitfield_has_piece bf j)
unfolding set_bitfield_piece
has-set_bitfield_piece bf i j h = elim (Bool-cases (leb (length bf) (i / 8))) [
  | inl short ↦
      let (same_bits, room) = grow_lem bf i j (ground arith) in
      rw (short, ← same_bits)
        (has-or_bit (grow bf (i / 8 + 1)) i j
          (unfold grow in All-append IsByte bf _ h (All-replicate _)) room)
  | inr long ↦ rw long (has-or_bit bf i j h (ground arith))
]

-- ---- `buildBitfield`.

step_set :
    (left i j : ℕ) (a b old : Bool)
    → a ≡ true
    → (i ≡ j → a ≡ b)
    → ((leb (i + 1) j && ltb j (i + 1 + left) && b) || (i == j || old))
      ≡ ((leb i j && ltb j (i + suc left) && b) || old)
step_set left i j a b old e q = elim (Bool-cases (i == j)) [
  | inl p ↦ let k = q ((==_iff i j).0 p) in ground arith
  | inr p ↦ ground arith
]

step_clear :
    (left i j : ℕ) (a b old : Bool)
    → a ≡ false
    → (i ≡ j → a ≡ b)
    → ((leb (i + 1) j && ltb j (i + 1 + left) && b) || old)
      ≡ ((leb i j && ltb j (i + suc left) && b) || old)
step_clear left i j a b old e q = elim (Bool-cases (i == j)) [
  | inl p ↦ let k = q ((==_iff i j).0 p) in ground arith
  | inr p ↦ ground arith
]

has-mark_pieces :
    (has : ℕ → Bool) (left i : ℕ) (bf : List ℕ) (j : ℕ)
    → All IsByte bf
    → (i + left + 7) / 8 ≤ length bf
    → bitfield_has_piece (mark_pieces has left i bf) j
      ≡ ((leb i j && ltb j (i + left) && has j) || bitfield_has_piece bf j)
unfolding mark_pieces
has-mark_pieces has zero i bf j h k = ground arith
has-mark_pieces has (suc left) i bf j h k = elim (Bool-cases (has i)) [
  | inl e ↦
      let ih =
        has-mark_pieces has left (i + 1) (or_bit bf i) j (or_bit-IsByte bf i h)
          (omega (arith, length-or_bit bf i)) in
      rw e (
        ih
        ∙ ap (λ x. (leb (i + 1) j && ltb j (i + 1 + left) && has j) || x)
            (has-or_bit bf i j h (omega arith))
        ∙ step_set left i j (has i) (has j) (bitfield_has_piece bf j) e (λ q. ap has q))
  | inr e ↦ rw e (
      has-mark_pieces has left (i + 1) bf j h (omega arith)
      ∙ step_clear left i j (has i) (has j) (bitfield_has_piece bf j) e (λ q. ap has q))
]

-- A bitfield that is built for `n` pieces has those of them that the provider has, and no other.
pub has-build_bitfield :
    (n : ℕ) (has : ℕ → Bool) (j : ℕ)
    → bitfield_has_piece (build_bitfield n has) j ≡ (ltb j n && has j)
unfolding build_bitfield
has-build_bitfield n has j =
    has-mark_pieces has n 0 (replicate ((n + 7) / 8) 0) j (All-replicate _)
      (omega (arith, length-replicate ((n + 7) / 8) (zero)))
    ∙ ap (λ x. (leb 0 j && ltb j (0 + n) && has j) || x) (get_elem?-grown [] ((n + 7) / 8) j)
    ∙ (unfold bitfield_has_piece in ground arith)
