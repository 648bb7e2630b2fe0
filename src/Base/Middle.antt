-- ===== src/Base/Middle.antt =====
-- Lists with an element in the middle, and some more on All and Any.
use mathlib.Core.Path.{◌≡◌, refl}
use mathlib.Core.List.{List, [], ◌∷◌, ◌++◌}
use mathlib.Core.Logic.{◌⊎◌, inl, inr}
use native.Mathlib.Omega.{arith}
use bit_torrent.Base.Lists.{All, All-map, Any, Any-append, length}

module _ {A : Type 0} (P : A → Type 0) where
  pub Any-at : (xs ys : List A) (x : A) → P x → Any P (xs ++ (x ∷ ys))
  Any-at xs ys x h = Any-append P xs (x ∷ ys) (inr (inl h))

  -- One element in the middle replaced.
  pub Any-swap : (xs ys : List A) (x y : A) → Any P (xs ++ (x ∷ ys)) → P x ⊎ Any P (xs ++ (y ∷ ys))
  Any-swap [] ys x y (inl h) = inl h
  Any-swap [] ys x y (inr h) = inr (inr h)
  Any-swap (z ∷ xs) ys x y (inl h) = inr (inl h)
  Any-swap (z ∷ xs) ys x y (inr h) = elim (Any-swap xs ys x y h) [
    | inl k ↦ inl k
    | inr k ↦ inr (inr k)
  ]

  pub All-at : (xs ys : List A) (x : A) → All P (xs ++ (x ∷ ys)) → P x
  All-at [] ys x h = h.0
  All-at (z ∷ xs) ys x h = All-at xs ys x h.1

  pub All-swap : (xs ys : List A) (x y : A) → All P (xs ++ (x ∷ ys)) → P y → All P (xs ++ (y ∷ ys))
  All-swap [] ys x y h k = (k, h.1)
  All-swap (z ∷ xs) ys x y h k = (h.0, All-swap xs ys x y h.1 k)

module _ {A : Type 0} where
  pub members : (xs : List A) → All (λ x. Any (λ y. y ≡ x) xs) xs
  members [] = tt
  members (x ∷ xs) = (inl refl, All-map _ _ xs (λ y h. inr h) (members xs))

  pub Any_empty : (P : A → Type 0) (xs : List A) → Any P xs → length xs ≡ 0 → ⊥
  Any_empty P [] h e = h
  Any_empty P (x ∷ xs) h e = omega (arith, e)

  pub Any-map : (P Q : A → Type 0) (xs : List A) → ((x : A) → P x → Q x) → Any P xs → Any Q xs
  Any-map P Q [] f h = h
  Any-map P Q (x ∷ xs) f (inl h) = inl (f x h)
  Any-map P Q (x ∷ xs) f (inr h) = inr (Any-map P Q xs f h)
