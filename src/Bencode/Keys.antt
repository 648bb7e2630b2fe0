-- ===== src/Bencode/Keys.antt =====
-- Storing the entries of a dictionary one after the other gives the dictionary itself, if no key
-- stands in it twice.
use bit_torrent.Bencode.Emit.{IsDistinct}
use bit_torrent.Base.{
  inr, ===_refl, ===→eq, arith, inl, refl, Bool-cases, ◌∙◌, ap, false, none, ◌===◌, ◌≡◌, ℕ, List,
}
use bit_torrent.Bencode.Value.{Value, Entries, end, entry, put, lookup}

unfoldable pub puts : Entries → Entries → Entries
puts acc end = acc
puts acc (entry k v m) = puts (put k v acc) m

append : Entries → Entries → Entries
append end m = m
append (entry k v acc) m = entry k v (append acc m)

-- No key of the second map is in the first.
abbrev IsFresh : Entries → Entries → Type 0
IsFresh acc end = Unit {0}
IsFresh acc (entry k v m) = (lookup k acc ≡ none) × IsFresh acc m

put_fresh :
    (k : List ℕ) (v : Value) (acc : Entries)
    → lookup k acc ≡ none
    → put k v acc ≡ append acc (entry k v end)
unfolding put lookup append
put_fresh k v end h = refl
put_fresh k v (entry j w acc) h = elim (Bool-cases (j === k)) [
  | inl e ↦ absurd (ground arith)
  | inr e ↦ rw e (ap (entry j w) (put_fresh k v acc (ground arith)))
]

===_false : (j k : List ℕ) → (j === k) ≡ false → (k === j) ≡ false
===_false j k h = elim (Bool-cases (k === j)) [
  | inl e ↦ absurd (cc (rw (===→eq k j e, ===_refl j) at h))
  | inr e ↦ e
]

lookup-append_fresh :
    (j k : List ℕ) (v : Value) (acc : Entries)
    → lookup j acc ≡ none
    → (k === j) ≡ false
    → lookup j (append acc (entry k v end)) ≡ none
unfolding lookup append
lookup-append_fresh j k v end h e = rw e
lookup-append_fresh j k v (entry i w acc) h e = elim (Bool-cases (i === j)) [
  | inl p ↦ absurd (ground arith)
  | inr p ↦ rw p (lookup-append_fresh j k v acc (ground arith) e)
]

IsFresh-append :
    (k : List ℕ) (v : Value) (acc m : Entries)
    → IsFresh acc m
    → lookup k m ≡ none
    → IsFresh (append acc (entry k v end)) m
unfolding lookup
IsFresh-append k v acc end h e = tt
IsFresh-append k v acc (entry j w m) h e = elim (Bool-cases (j === k)) [
  | inl p ↦ absurd (ground arith)
  | inr p ↦ (
    lookup-append_fresh j k v acc h.0 (===_false j k p),
    IsFresh-append k v acc m h.1 (ground arith),
  )
]

append-entry :
    (acc : Entries) (k : List ℕ) (v : Value) (m : Entries)
    → append (append acc (entry k v end)) m ≡ append acc (entry k v m)
unfolding append
append-entry end k v m = refl
append-entry (entry j w acc) k v m = ap (entry j w) (append-entry acc k v m)

append-end : (a : Entries) → a ≡ append a end
unfolding append
append-end end = refl
append-end (entry k v a) = ap (entry k v) (append-end a)

puts-append : (acc m : Entries) → IsFresh acc m → IsDistinct m → puts acc m ≡ append acc m
unfolding puts
puts-append acc end h d = append-end acc
puts-append acc (entry k v m) h d =
    ap (λ a. puts a m) (put_fresh k v acc h.0)
    ∙ puts-append (append acc (entry k v end)) m (IsFresh-append k v acc m h.1 d.0) d.1
    ∙ append-entry acc k v m

IsFresh-end : (m : Entries) → IsFresh end m
IsFresh-end end = tt
IsFresh-end (entry k v m) = (unfold lookup in refl, IsFresh-end m)

pub puts-end : (m : Entries) → IsDistinct m → puts end m ≡ m
puts-end m d = puts-append end m (IsFresh-end m) d ∙ (unfold append in refl)
