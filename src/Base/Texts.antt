-- ===== src/Base/Texts.antt =====
-- Lists of texts, which stand for the sets of strings of the source, and those without a text twice.
use Prim.Native.Nat.{ℕ}
use mathlib.Core.Path.{◌≡◌, refl, sym, subst, ◌∙◌}
use mathlib.Core.Logic.{◌⊎◌, inl, inr}
use mathlib.Core.Bool.{Bool, true, false, ◌||◌}
use mathlib.Core.List.{List, [], ◌∷◌, ◌++◌, Permᴰ}
use native.Mathlib.Omega.{arith}
use bit_torrent.Base.Tests.{Bool-cases}
use bit_torrent.Base.Lists.{All, ◌===◌, ===_refl, ===→eq}

abbrev pub has_text : List ℕ → List (List ℕ) → Bool
has_text u [] = false
has_text u (v ∷ vs) = v === u || has_text u vs

abbrev pub IsDistinct : List (List ℕ) → Type 0
IsDistinct [] = Unit {0}
IsDistinct (u ∷ us) = (has_text u us ≡ false) × IsDistinct us

pub ===_sym : (u v : List ℕ) → (u === v) ≡ false → (v === u) ≡ false
===_sym u v h = elim (Bool-cases (v === u)) [
  | inr e ↦ e
  | inl e ↦
      absurd (clash (sym (subst (λ w. (u === w) ≡ true) (sym (===→eq v u e)) (===_refl u)) ∙ h))
]
  where
    clash : true ≡ false → ⊥
    clash e = ground arith

has_text-snoc :
    (u v : List ℕ) (us : List (List ℕ))
    → has_text u us ≡ false
    → (v === u) ≡ false
    → has_text u (us ++ (v ∷ [])) ≡ false
has_text-snoc u v [] h k = rw k refl
has_text-snoc u v (w ∷ us) h k = elim (Bool-cases (w === u)) [
  | inl e ↦ absurd (ground (arith, e, h))
  | inr e ↦ rw e (has_text-snoc u v us (ground (arith, e, h)) k)
]

pub IsDistinct-snoc :
    (us : List (List ℕ)) (v : List ℕ)
    → IsDistinct us
    → has_text v us ≡ false
    → IsDistinct (us ++ (v ∷ []))
IsDistinct-snoc [] v d h = (refl, tt)
IsDistinct-snoc (u ∷ us) v (new, d) h = elim (Bool-cases (u === v)) [
  | inl e ↦ absurd (ground (arith, e, h))
  | inr e ↦
      (has_text-snoc u v us new (===_sym u v e), IsDistinct-snoc us v d (ground (arith, e, h)))
]

-- A text of which a set has no member is none of those that the set holds.
pub has_text-outside :
    (seen : List (List ℕ)) (u : List ℕ) (us : List (List ℕ))
    → All (λ v. has_text v seen ≡ true) us
    → has_text u seen ≡ false
    → has_text u us ≡ false
has_text-outside seen u [] h k = refl
has_text-outside seen u (v ∷ vs) h k = elim (Bool-cases (v === u)) [
  | inl e ↦
      let there : has_text u seen ≡ true =
        subst (λ w. has_text w seen ≡ true) (===→eq v u e) (h.0) in
      absurd (ground (arith, there, k))
  | inr e ↦ rw e (has_text-outside seen u vs h.1 k)
]

pub has_text-append :
    (u : List ℕ) (us vs : List (List ℕ))
    → has_text u us ≡ false
    → has_text u vs ≡ false
    → has_text u (us ++ vs) ≡ false
has_text-append u [] vs h k = k
has_text-append u (w ∷ us) vs h k = elim (Bool-cases (w === u)) [
  | inl e ↦ absurd (ground (arith, e, h))
  | inr e ↦ rw e (has_text-append u us vs (ground (arith, e, h)) k)
]

pub IsDistinct-append :
    (us vs : List (List ℕ))
    → IsDistinct us
    → IsDistinct vs
    → All (λ u. has_text u vs ≡ false) us
    → IsDistinct (us ++ vs)
IsDistinct-append [] vs d e h = e
IsDistinct-append (u ∷ us) vs (new, d) e (apart, h) =
    (has_text-append u us vs new apart, IsDistinct-append us vs d e h)

pub has_text-permuted :
    {us vs : List (List ℕ)} (u : List ℕ) → Permᴰ us vs → has_text u us ≡ has_text u vs
has_text-permuted u Permᴰ.nil = refl
has_text-permuted u (Permᴰ.cons e p) = rw (e, has_text-permuted u p) refl
has_text-permuted u (Permᴰ.swap {a = a} {b = b} {l = l} e f) =
    rw (sym e, sym f) (swapped (a === u) (b === u) (has_text u l))
  where
    swapped : (x y z : Bool) → (x || (y || z)) ≡ (y || (x || z))
    swapped true true z = refl
    swapped true false z = refl
    swapped false true z = refl
    swapped false false z = refl
has_text-permuted u (Permᴰ.trans p q) = has_text-permuted u p ∙ has_text-permuted u q

pub IsDistinct-permuted : {us vs : List (List ℕ)} → Permᴰ us vs → IsDistinct us → IsDistinct vs
IsDistinct-permuted Permᴰ.nil d = tt
IsDistinct-permuted (Permᴰ.cons {b = b} {l₂ = l₂} e p) (new, d) = (
  subst (λ w. has_text w l₂ ≡ false) e (sym (has_text-permuted _ p) ∙ new),
  IsDistinct-permuted p d,
)
IsDistinct-permuted (Permᴰ.swap {a = a} {b = b} {b' = b'} {l = l} e f) (new, (other, d)) =
    subst (λ x. IsDistinct (x ∷ (b' ∷ l))) f
      (subst (λ y. IsDistinct (b ∷ (y ∷ l))) e (go (Bool-cases (b === a))))
  where
    go : ((b === a) ≡ true) ⊎ ((b === a) ≡ false) → IsDistinct (b ∷ (a ∷ l))
    go (inl g) = absurd (ground (arith, g, new))
    go (inr g) = (rw (===_sym b a g) other, (ground (arith, g, new), d))
IsDistinct-permuted (Permᴰ.trans p q) d = IsDistinct-permuted q (IsDistinct-permuted p d)
