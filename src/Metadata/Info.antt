-- ===== src/Metadata/Info.antt =====
-- `decodeInfoDict` of internal/protocol/metadata.go: a TorrentInfo as it comes from the bencode, with
-- numbers of any sign.
use bit_torrent.Wire.Handshake.{codes}
use bit_torrent.Bencode.Decode.{decode_bencode_value}
use bit_torrent.Base.{
  length, ◌==ℤ◌, zero, none, drop, some, ◌+ℤ◌, pos, take, suc, Option, ℤ, ◌∷◌, [], ℕ, List, Bool,
  ◌/◌,
}
use bit_torrent.Bencode.Value.{
  as_list, lookup, as_string, as_int, Entries, Items, Outcome, num, str, list, dict, nil, cons,
}

pub record InfoFile : Type 0 where
  pub length : ℤ
  pub path : List (List ℕ)

pub record InfoDict : Type 0 where
  pub name : List ℕ
  pub length : ℤ
  pub piece_length : ℤ
  pub private : Bool
  pub piece_hashes : List (List ℕ)
  pub files : List InfoFile

-- The hashes of twenty bytes; what is left over is dropped.
unfoldable pub hashes : ℕ → List ℕ → List (List ℕ)
hashes zero s = []
hashes (suc n) s = take 20 s ∷ hashes n (drop 20 s)

unfoldable pub path_parts : Items → List (List ℕ)
path_parts nil = []
path_parts (cons (str s) xs) = s ∷ path_parts xs
path_parts (cons (num z) xs) = path_parts xs
path_parts (cons (list ys) xs) = path_parts xs
path_parts (cons (dict m) xs) = path_parts xs

abbrev or_empty : Option (List ℕ) → List ℕ
or_empty none = []
or_empty (some s) = s

abbrev or_zero : Option ℤ → ℤ
or_zero none = pos 0
or_zero (some z) = z

unfoldable pub info_file : Entries → InfoFile
unfolding path_parts
info_file fm = record {
  length = or_zero (as_int (lookup (codes "length") fm));
  path = elim (as_list (lookup (codes "path") fm)) [ none ↦ [] | some parts ↦ path_parts parts ];
}

unfoldable pub info_files : Items → List InfoFile
unfolding info_file
info_files nil = []
info_files (cons (dict fm) xs) = info_file fm ∷ info_files xs
info_files (cons (num z) xs) = info_files xs
info_files (cons (str s) xs) = info_files xs
info_files (cons (list ys) xs) = info_files xs

unfoldable pub total_length : ℤ → List InfoFile → ℤ
total_length acc [] = acc
total_length acc (f ∷ fs) = total_length (acc +ℤ f.length) fs

unfoldable pub info_dict : Entries → InfoDict
unfolding info_files total_length hashes
info_dict raw =
    let pieces = or_empty (as_string (lookup (codes "pieces") raw)) in
    let files = elim (as_list (lookup (codes "files") raw)) as (λ _. List InfoFile) [
      | none ↦ []
      | some xs ↦ info_files xs
    ] in
    let total = as_int (lookup (codes "length") raw) in
    record {
      name = or_empty (as_string (lookup (codes "name") raw));
      length = elim total as (λ _. ℤ) [ some n ↦ n | none ↦ total_length (pos 0) files ];
      piece_length = or_zero (as_int (lookup (codes "piece length") raw));
      private = or_zero (as_int (lookup (codes "private") raw)) ==ℤ pos 1;
      piece_hashes = hashes (length pieces / 20) pieces;
      files = elim total as (λ _. List InfoFile) [ some n ↦ [] | none ↦ files ];
    }

-- `none` stands for the two refusals of its own: no dictionary, and no hash.
unfoldable pub decode_info_dict : List ℕ → Outcome (Option InfoDict)
unfolding info_dict
decode_info_dict bs = elim (decode_bencode_value bs) [
  | Outcome.ok (dict raw, n) ↦
      let info = info_dict raw in
      Outcome.ok
        (elim info.piece_hashes as (λ _. Option InfoDict) [ [] ↦ none | _ ∷ _ ↦ some info ])
  | Outcome.ok (_, n) ↦ Outcome.ok none
  | Outcome.err e ↦ Outcome.err e
  | Outcome.panic ↦ Outcome.panic
  | Outcome.out_of_fuel ↦ Outcome.out_of_fuel
]
