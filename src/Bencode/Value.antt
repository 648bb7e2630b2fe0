-- ===== src/Bencode/Value.antt =====
-- The values that `decodeBencodeValue` returns: int64, string, []interface{} and
-- map[string]interface{}.
use bit_torrent.Base.{
  false, true, subst, Bool, refl, inr, inl, some, ◌⊎◌, none, ◌===◌, ◌≢◌, ◌≡◌, Option, if◌then◌else◌,
  ℕ, List, ℤ,
}

mutual
  pub data Value : Type 0 where
    num : ℤ → Value
    str : List ℕ → Value
    list : Items → Value
    dict : Entries → Value

  pub data Items : Type 0 where
    nil : Items
    cons : Value → Items → Items

  pub data Entries : Type 0 where
    end : Entries
    entry : List ℕ → Value → Entries → Entries

-- `items[key] = value` on a map.
unfoldable pub put : List ℕ → Value → Entries → Entries
put k v end = entry k v end
put k v (entry j w m) = if j === k then entry j v m else entry j w (put k v m)

-- `items[key]`, with Go's second result.
unfoldable pub lookup : List ℕ → Entries → Option Value
lookup k end = none
lookup k (entry j w m) = if j === k then some w else lookup k m

-- `v.(string)`, `v.(map[string]interface{})` and the like, on what a lookup gave.
unfoldable pub as_string : Option Value → Option (List ℕ)
as_string (some (str s)) = some s
as_string _ = none

unfoldable pub as_dict : Option Value → Option Entries
as_dict (some (dict m)) = some m
as_dict _ = none

unfoldable pub as_int : Option Value → Option ℤ
as_int (some (num z)) = some z
as_int _ = none

unfoldable pub as_list : Option Value → Option Items
as_list (some (list xs)) = some xs
as_list _ = none

-- How a decoder ends. `panic` is a slice or index out of range; `out_of_fuel` is no result of the
-- program, and stands for a run that is longer than the fuel allows.
pub data Error : Type 0 where
  empty_data unterminated bad_integer bad_key unexpected_token missing_colon bad_length truncated
        missing_value :
      Error

pub data Outcome {ℓ} (A : Type ℓ) : Type ℓ where
  ok : A → Outcome A
  err : Error → Outcome A
  panic out_of_fuel : Outcome A

infixl 5 ◌>>=◌
abbrev pub ◌>>=◌ {ℓ κ} : {A : Type ℓ} {B : Type κ} → Outcome A → (A → Outcome B) → Outcome B
ok a >>= f = f a
err e >>= f = err e
panic >>= f = panic
out_of_fuel >>= f = out_of_fuel

pub Outcome-cases {ℓ} :
    {A : Type ℓ} (m : Outcome A)
    → m ≢ out_of_fuel
    → ((a : A) × (m ≡ ok a)) ⊎ ((e : Error) × (m ≡ err e)) ⊎ (m ≡ panic)
Outcome-cases (ok a) h = inl (a, refl)
Outcome-cases (err e) h = inr (inl (e, refl))
Outcome-cases panic h = inr (inr refl)
Outcome-cases out_of_fuel h = absurd (h refl)

-- A postcondition on the value of a run; `T` is what a run that exceeds its fuel has to show: `Unit`
-- where that is allowed, and `⊥` where it is excluded.
abbrev pub Ensures {ℓ} : {A : Type ℓ} → Type 0 → (A → Type 0) → Outcome A → Type 0
Ensures T P (ok a) = P a
Ensures T P (err e) = Unit {0}
Ensures T P panic = Unit {0}
Ensures T P out_of_fuel = T

module _ {ℓ κ} {A : Type ℓ} {B : Type κ} (T : Type 0) (P : A → Type 0) (Q : B → Type 0) where
  pub Ensures-bind :
      (m : Outcome A) (f : A → Outcome B)
      → Ensures T P m
      → ((a : A) → P a → Ensures T Q (f a))
      → Ensures T Q (m >>= f)
  Ensures-bind (ok a) f h k = k a h
  Ensures-bind (err e) f h k = tt
  Ensures-bind panic f h k = tt
  Ensures-bind out_of_fuel f h k = h

module _ {ℓ} {A : Type ℓ} (T : Type 0) (P : A → Type 0) where
  pub Ensures-if :
      (b : Bool) (x y : Outcome A)
      → Ensures T P x
      → Ensures T P y
      → Ensures T P (if b then x else y)
  Ensures-if true x y h k = h
  Ensures-if false x y h k = k

  pub Ensures-of : (m : Outcome A) → m ≢ out_of_fuel → ((a : A) → m ≡ ok a → P a) → Ensures T P m
  Ensures-of (ok a) h k = k a refl
  Ensures-of (err e) h k = tt
  Ensures-of panic h k = tt
  Ensures-of out_of_fuel h k = absurd (h refl)

  pub Ensures-ok : (m : Outcome A) (a : A) → Ensures T P m → m ≡ ok a → P a
  Ensures-ok m a h e = subst (Ensures T P) e h

module _ {ℓ} {A : Type ℓ} (T : Type 0) (P Q : A → Type 0) where
  pub Ensures-weaken : (m : Outcome A) → Ensures T P m → ((a : A) → P a → Q a) → Ensures T Q m
  Ensures-weaken (ok a) h k = k a h
  Ensures-weaken (err e) h k = tt
  Ensures-weaken panic h k = tt
  Ensures-weaken out_of_fuel h k = h

pub Ensures-out_of_fuel {ℓ} :
    {A : Type ℓ} (P : A → Type 0) (m : Outcome A) → Ensures ⊥ P m → m ≢ out_of_fuel
Ensures-out_of_fuel P m h e = subst (Ensures ⊥ P) e h
