-- ===== src/Swarm/Paths.antt =====
-- The parts of a path that `sanitizePathParts` lets through, and the order of pieces.
use bit_torrent.Swarm.{sanitize_path_parts, replace_separator, replace_separators}
use bit_torrent.Base.{
  inr, inl, Bool-cases, subst, ◌∙◌, ap, refl, arith, All, ◌∷◌, [], ◌≡◌, ℕ, List, false, Bool, ◌≢◌,
  ◌||◌, ◌===◌,
}
use bit_torrent.Wire.Handshake.{codes}

-- Neither a separator of paths nor a step to this or to the parent directory.
abbrev pub IsPlain : List ℕ → Type 0
IsPlain p = (p ≢ []) × (p ≢ codes ".") × (p ≢ codes "..") × All (λ c. (c ≢ 0x5c) × (c ≢ 0x2f)) p

replaced : (p : List ℕ) → All (λ c. (c ≢ 0x5c) × (c ≢ 0x2f)) (replace_separators p)
unfolding replace_separators replace_separator
replaced [] = tt
replaced (c ∷ cs) = (((λ e. ground arith), (λ e. ground arith)), replaced cs)

replace_separator-dot : (c : ℕ) → replace_separator c ≡ 0x2e → c ≡ 0x2e
unfolding replace_separator
replace_separator-dot c e = ground arith

-- Replacing makes none of the three texts that were left out.
replace_separators-nil : (p : List ℕ) → replace_separators p ≡ [] → p ≡ []
unfolding replace_separators
replace_separators-nil [] e = refl
replace_separators-nil (c ∷ cs) e = absurd (cc e)

replace_separators-cons :
    (p q : List ℕ)
    → replace_separators p ≡ 0x2e ∷ q
    → (r : List ℕ) × (p ≡ 0x2e ∷ r) × (replace_separators r ≡ q)
unfolding replace_separators
replace_separators-cons [] q e = absurd (cc e)
replace_separators-cons (c ∷ cs) q e = (cs, ap (λ x. x ∷ cs) (replace_separator-dot c (cc e)), cc e)

replace_separators-dot : (p : List ℕ) → replace_separators p ≡ codes "." → p ≡ codes "."
replace_separators-dot p e =
    let (r, head, tail) = replace_separators-cons p [] e in
    head ∙ ap (◌∷◌ 0x2e) (replace_separators-nil r tail)

replace_separators-dots : (p : List ℕ) → replace_separators p ≡ codes ".." → p ≡ codes ".."
replace_separators-dots p e =
    let (r, head, tail) = replace_separators-cons p (codes ".") e in
    head ∙ ap (◌∷◌ 0x2e) (replace_separators-dot r tail)

is_left_out : (p : List ℕ) → Bool
is_left_out p = p === [] || (p === codes "." || p === codes "..")

-- The test holds for the three texts, so what fails it is none of them.
plain :
    (p : List ℕ)
    → (p === [] || (p === codes "." || p === codes "..")) ≡ false
    → IsPlain (replace_separators p)
plain p h = (
  (λ e. clash (subst (λ q. is_left_out q ≡ false) (replace_separators-nil p e) fails)),
  (λ e. clash_dot (subst (λ q. is_left_out q ≡ false) (replace_separators-dot p e) fails)),
  (λ e. clash_dots (subst (λ q. is_left_out q ≡ false) (replace_separators-dots p e) fails)),
  replaced p,
)
  where
    fails : is_left_out p ≡ false
    fails = unfold is_left_out in h

    clash : is_left_out [] ≢ false
    clash e = unfold is_left_out ◌===◌ in cc e

    clash_dot : is_left_out (codes ".") ≢ false
    clash_dot e = unfold is_left_out ◌===◌ in cc e

    clash_dots : is_left_out (codes "..") ≢ false
    clash_dots e = unfold is_left_out ◌===◌ in cc e

-- What is left of a path in a torrent, whatever it says, names no directory above and has no
-- separator in a part, so a file stays below the directory of its torrent.
pub sanitize_path_parts-IsPlain :
    (trim : List ℕ → List ℕ) (parts : List (List ℕ)) → All IsPlain (sanitize_path_parts trim parts)
unfolding sanitize_path_parts
sanitize_path_parts-IsPlain trim [] = tt
sanitize_path_parts-IsPlain trim (part ∷ parts) =
    let p = trim part in
    elim (Bool-cases (p === [] || (p === codes "." || p === codes ".."))) [
      | inl e ↦ rw e (sanitize_path_parts-IsPlain trim parts)
      | inr e ↦ rw e (plain p e, sanitize_path_parts-IsPlain trim parts)
    ]
