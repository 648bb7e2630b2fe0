-- ===== src/Bencode/Emit.antt =====
-- The bencode of a value, as BEP 3 lays it down. The program encodes by a library; this is the
-- description that the decoders are measured by.
use bit_torrent.Bencode.Numerals.{show}
use bit_torrent.Base.{◌+◌, negsuc, none, ◌^◌, [], pos, ◌≡◌, ◌<◌, ◌++◌, suc, ◌∷◌, length, ℤ, ℕ, List}
use bit_torrent.Bencode.Value.{
  lookup, Value, num, str, list, dict, Items, nil, cons, Entries, end, entry,
}

abbrev pub decimal : ℕ → List ℕ
decimal n = show (suc n) n

unfoldable pub emit_int : ℤ → List ℕ
emit_int (pos n) = decimal n
emit_int (negsuc n) = b'-' ∷ decimal (n + 1)

unfoldable pub emit_string : List ℕ → List ℕ
emit_string s = decimal (length s) ++ (b':' ∷ s)

unfoldable mutual
  pub emit : Value → List ℕ
  emit (num z) = b'i' ∷ (emit_int z ++ (b'e' ∷ []))
  emit (str s) = emit_string s
  emit (list xs) = b'l' ∷ emit_items xs
  emit (dict m) = b'd' ∷ emit_entries m

  pub emit_items : Items → List ℕ
  emit_items nil = b'e' ∷ []
  emit_items (cons v xs) = emit v ++ emit_items xs

  pub emit_entries : Entries → List ℕ
  emit_entries end = b'e' ∷ []
  emit_entries (entry k v m) = emit_string k ++ (emit v ++ emit_entries m)

-- An int64.
abbrev pub IsInt64 : ℤ → Type 0
IsInt64 (pos n) = n < 2 ^ 63
IsInt64 (negsuc n) = n < 2 ^ 63

-- A string that a Go program can hold together with its header.
abbrev pub IsString : List ℕ → Type 0
IsString s = length (emit_string s) < 2 ^ 63

abbrev pub IsDistinct : Entries → Type 0
IsDistinct end = Unit {0}
IsDistinct (entry k v m) = (lookup k m ≡ none) × IsDistinct m

-- The values of Go: int64 numbers, strings within the address space, maps without a key twice.
mutual
  pub data IsValue : Value → Type 0 where
    num_ok : (z : ℤ) → IsInt64 z → IsValue (num z)
    str_ok : (s : List ℕ) → IsString s → IsValue (str s)
    list_ok : (xs : Items) → AreItems xs → IsValue (list xs)
    dict_ok : (m : Entries) → IsDistinct m → AreEntries m → IsValue (dict m)

  pub data AreItems : Items → Type 0 where
    nil_ok : AreItems nil
    cons_ok : (v : Value) (xs : Items) → IsValue v → AreItems xs → AreItems (cons v xs)

  pub data AreEntries : Entries → Type 0 where
    end_ok : AreEntries end
    entry_ok :
        (k : List ℕ) (v : Value) (m : Entries)
        → IsString k
        → IsValue v
        → AreEntries m
        → AreEntries (entry k v m)
