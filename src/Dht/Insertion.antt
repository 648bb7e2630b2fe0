-- ===== src/Dht/Insertion.antt =====
-- A sort of candidates by their distance, as sort.Sort documents it: an insertion sort.
use bit_torrent.Dht.{Candidate, less, bytes_less}
use bit_torrent.Dht.Sorted.{IsSorted}
use mathlib.Core.List.{Permᴰ}
use bit_torrent.Base.{
  ℕ, List, [], ◌∷◌, ◌≡◌, true, false, All, if◌then◌else◌, inl, inr, Bool-cases, All-map, refl,
  arith,
}

bytes_less_asym : (xs ys : List ℕ) → bytes_less xs ys ≡ true → bytes_less ys xs ≡ false
unfolding bytes_less
bytes_less_asym [] [] h = refl
bytes_less_asym [] (y ∷ ys) h = refl
bytes_less_asym (x ∷ xs) [] h = absurd (ground (arith, h))
bytes_less_asym (x ∷ xs) (y ∷ ys) h = ground (arith, h, bytes_less_asym xs ys)

bytes_less_trans :
    (xs ys zs : List ℕ)
    → bytes_less ys xs ≡ false
    → bytes_less zs ys ≡ false
    → bytes_less zs xs ≡ false
unfolding bytes_less
bytes_less_trans [] ys zs h k = refl
bytes_less_trans (x ∷ xs) [] zs h k = absurd (ground (arith, h))
bytes_less_trans (x ∷ xs) (y ∷ ys) [] h k = absurd (ground (arith, k))
bytes_less_trans (x ∷ xs) (y ∷ ys) (z ∷ zs) h k = ground (arith, h, k, bytes_less_trans xs ys zs)

unfoldable pub insert : Candidate → List Candidate → List Candidate
unfolding less
insert c [] = c ∷ []
insert c (d ∷ ds) = let rest = insert c ds in if less d c then d ∷ rest else c ∷ (d ∷ ds)

unfoldable pub insertion_sort : List Candidate → List Candidate
unfolding insert
insertion_sort [] = []
insertion_sort (c ∷ cs) = insert c (insertion_sort cs)

insert-All :
    (P : Candidate → Type 0) (c : Candidate) (cs : List Candidate)
    → P c
    → All P cs
    → All P (insert c cs)
unfolding insert
insert-All P c [] h hs = (h, tt)
insert-All P c (d ∷ ds) h (k, ks) = elim (Bool-cases (less d c)) [
  | inl e ↦ simp e (k, insert-All P c ds h ks)
  | inr e ↦ simp e (h, (k, ks))
]

insert-IsSorted : (c : Candidate) (cs : List Candidate) → IsSorted cs → IsSorted (insert c cs)
unfolding insert
insert-IsSorted c [] h = (tt, tt)
insert-IsSorted c (d ∷ ds) (h, hs) = elim (Bool-cases (less d c)) [
  | inl e ↦ simp e (
    insert-All (λ b. less b d ≡ false) c ds (unfold less in bytes_less_asym d.dist c.dist e) h,
    insert-IsSorted c ds hs,
  )
  | inr e ↦ simp e (
    (refl, All-map _ _ ds (λ b g. unfold less in bytes_less_trans c.dist d.dist b.dist e g) h),
    (h, hs),
  )
]

pub insertion_sort-IsSorted : (cs : List Candidate) → IsSorted (insertion_sort cs)
unfolding insertion_sort
insertion_sort-IsSorted [] = tt
insertion_sort-IsSorted (c ∷ cs) =
    insert-IsSorted c (insertion_sort cs) (insertion_sort-IsSorted cs)

insert-Permᴰ : (c : Candidate) (cs : List Candidate) → Permᴰ (c ∷ cs) (insert c cs)
unfolding insert
insert-Permᴰ c [] = Permᴰ.cons refl Permᴰ.nil
insert-Permᴰ c (d ∷ ds) = elim (Bool-cases (less d c)) [
  | inl e ↦ simp e (Permᴰ.trans (Permᴰ.swap refl refl) (Permᴰ.cons refl (insert-Permᴰ c ds)))
  | inr e ↦ simp e (same (c ∷ (d ∷ ds)))
]
  where
    same : (bs : List Candidate) → Permᴰ bs bs
    same [] = Permᴰ.nil
    same (b ∷ bs) = Permᴰ.cons refl (same bs)

pub insertion_sort-Permᴰ : (cs : List Candidate) → Permᴰ cs (insertion_sort cs)
unfolding insertion_sort
insertion_sort-Permᴰ [] = Permᴰ.nil
insertion_sort-Permᴰ (c ∷ cs) =
    Permᴰ.trans (Permᴰ.cons refl (insertion_sort-Permᴰ cs)) (insert-Permᴰ c (insertion_sort cs))
