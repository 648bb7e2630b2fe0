-- ===== src/Transfer/Window.antt =====
-- The map of the blocks that are in flight, and the loop that fills it.
use bit_torrent.Base.{
  subst, ==_iff, inr, inl, ◌==◌, Bool-cases, refl, ◌∷◌, ◌+◌, [], ◌≡◌, ◌<◌, ◌≤◌, ℕ, List,
}
-- The bytes that are in flight.
use Prim.Native.Nat.{ℕ}
use bit_torrent.Transfer.{erase, find_block}
use bit_torrent.Base.{◌<◌, ◌+◌, arith, some, none, length, ◌≤◌, ◌≡◌, ℕ, List}

unfoldable pub total : List (ℕ × ℕ) → ℕ
total [] = 0
total ((o, n) ∷ m) = n + total m

-- Each offset once.
abbrev pub IsDistinct : List (ℕ × ℕ) → Type 0
IsDistinct [] = Unit {0}
IsDistinct ((o, n) ∷ m) = (find_block o m ≡ none) × IsDistinct m

-- No block is empty, and all of them end below the next request.
abbrev pub Below : ℕ → List (ℕ × ℕ) → Type 0
Below next [] = Unit {0}
Below next ((o, n) ∷ m) = (0 < n) × (o + n ≤ next) × Below next m

pub erase-absent : (off : ℕ) (m : List (ℕ × ℕ)) → find_block off m ≡ none → erase off m ≡ m
unfolding find_block erase
erase-absent off [] h = refl
erase-absent off ((o, n) ∷ m) h = ground (arith, erase-absent off m)

pub find_block-Below :
    (next off : ℕ) (m : List (ℕ × ℕ)) → Below next m → next ≤ off → find_block off m ≡ none
unfolding find_block
find_block-Below next off [] b h = refl
find_block-Below next off ((o, n) ∷ m) b h = ground (arith, find_block-Below next off m b.2 h)

pub Below-weaken : (next more : ℕ) (m : List (ℕ × ℕ)) → Below next m → next ≤ more → Below more m
Below-weaken next more [] b h = tt
Below-weaken next more ((o, n) ∷ m) b h = (b.0, omega arith, Below-weaken next more m b.2 h)

pub erase-Below : (next off : ℕ) (m : List (ℕ × ℕ)) → Below next m → Below next (erase off m)
unfolding erase
erase-Below next off [] b = tt
erase-Below next off ((o, n) ∷ m) b = elim (Bool-cases (o == off)) [
  | inl e ↦ rw e (erase-Below next off m b.2)
  | inr e ↦ rw e (b.0, b.1, erase-Below next off m b.2)
]

find_block-erase :
    (off other : ℕ) (m : List (ℕ × ℕ))
    → find_block other m ≡ none
    → find_block other (erase off m) ≡ none
unfolding find_block erase
find_block-erase off other [] h = refl
find_block-erase off other ((o, n) ∷ m) h = ground (arith, find_block-erase off other m)

pub erase-IsDistinct : (off : ℕ) (m : List (ℕ × ℕ)) → IsDistinct m → IsDistinct (erase off m)
unfolding erase
erase-IsDistinct off [] d = tt
erase-IsDistinct off ((o, n) ∷ m) d = elim (Bool-cases (o == off)) [
  | inl e ↦ rw e (erase-IsDistinct off m d.1)
  | inr e ↦ rw e (find_block-erase off o m d.0, erase-IsDistinct off m d.1)
]

-- Taking a block out of the map.
pub total-erase :
    (off n : ℕ) (m : List (ℕ × ℕ))
    → IsDistinct m
    → find_block off m ≡ some n
    → n + total (erase off m) ≡ total m
unfolding find_block erase total
total-erase off n [] d h = cc
total-erase off n ((o, k) ∷ m) d h = elim (Bool-cases (o == off)) [
  | inl e ↦
      let same : o ≡ off = (==_iff o off).0 e in
      let absent = erase-absent off m (subst (λ x. find_block x m ≡ none) same d.0) in
      let here : some k ≡ some n = rw (e, find_block) at h in rw (e, absent) (ground (arith, here))
  | inr e ↦ rw e (omega (arith, total-erase off n m d.1 (rw (e, find_block) at h)))
]

pub find_block-inside :
    (next off n : ℕ) (m : List (ℕ × ℕ))
    → Below next m
    → find_block off m ≡ some n
    → (off + n ≤ next) × (0 < n)
unfolding find_block
find_block-inside next off n [] b h = cc
find_block-inside next off n ((o, k) ∷ m) b h = ground (arith, find_block-inside next off n m b.2)

pub length-erase : (off : ℕ) (m : List (ℕ × ℕ)) → length (erase off m) ≤ length m
unfolding erase
length-erase off [] = omega arith
length-erase off ((o, n) ∷ m) = ground (arith, length-erase off m)
