-- ===== src/Parser.antt =====
-- internal/types/parser.go: what a client is told to download, by a torrent file or by a magnet link.
-- What the standard library and the bencode library answer are parameters: of the functions that read
-- a text (TrimSpace, ToUpper, hex, base32, the query of a URL, SHA-1) nothing is assumed.
pub mod Magnet
pub mod Open
mod Examples
use bit_torrent.Metadata.Info.{InfoDict, InfoFile, total_length}
use bit_torrent.Wire.Handshake.{codes}
use bit_torrent.Base.{
  ◌∷◌, ◌+◌, ◌++◌, [], ◌≡◌, ◌<◌, ◌≤◌, ℕ, ℤ, zero, suc, List, Bool, true, false, Option, none, some,
  take, drop, length, leb, not, replicate, ◌==◌, ◌==ℤ◌, ◌===◌, ◌||◌, if◌then◌else◌, Result, ok, err,
  pos, negsuc,
}

-- A `[20]byte` from the front of a slice, by `copy`.
unfoldable pub hash_of : List ℕ → List ℕ
hash_of decoded = take 20 (decoded ++ replicate 20 0)

unfoldable pub has_prefix : List ℕ → List ℕ → Bool
has_prefix s prefix = take (length prefix) s === prefix

-- `strings.TrimPrefix`
unfoldable pub trim_prefix : List ℕ → List ℕ → List ℕ
unfolding has_prefix
trim_prefix s prefix = if has_prefix s prefix then drop (length prefix) s else s

pub data HashError : Type 0 where
  bad_hex bad_base32 : HashError
  bad_length unsupported_length : ℕ → HashError

pub data MagnetError : Type 0 where
  invalid_format bad_query missing_xt : MagnetError
  bad_hash : HashError → MagnetError

pub record MagnetLink : Type 0 where
  pub info_hash : List ℕ
  pub name : List ℕ
  pub trackers : List (List ℕ)
  pub peer_addrs : List (List ℕ)

-- `url.Values.Get`
abbrev pub first_value : List (List ℕ) → List ℕ
first_value [] = []
first_value (v ∷ vs) = v

abbrev pub urn_btih : List ℕ
urn_btih = codes "urn:btih:"

-- `trim`, `upper`, `hex` and `base32` stand for strings.TrimSpace and ToUpper, hex.DecodeString and
-- the decoder of base32.StdEncoding without padding; `none` is an error of theirs.
module _ (trim upper : List ℕ → List ℕ) (hex base32 : List ℕ → Option (List ℕ)) where
  unfoldable pub base32_to_info_hash : List ℕ → List ℕ
  base32_to_info_hash encoded = elim (base32 (upper (trim encoded))) [
    | none ↦ replicate 20 0
    | some decoded ↦ if not (length decoded == 20) then replicate 20 0 else decoded
  ]

  unfoldable pub decode_info_hash : List ℕ → Result HashError (List ℕ)
  unfolding hash_of
  decode_info_hash value =
      let trimmed = trim value in
      if length trimmed == 40
      then elim (hex trimmed) as (λ _. Result HashError (List ℕ)) [
        | none ↦ err bad_hex
        | some decoded ↦ ok (hash_of decoded)
      ]
      else if length trimmed == 32
      then elim (base32 (upper trimmed)) as (λ _. Result HashError (List ℕ)) [
        | none ↦ err bad_base32
        | some decoded ↦
            if not (length decoded == 20) then err (bad_length (length decoded)) else ok decoded
      ]
      else err (unsupported_length (length trimmed))

  -- The loop over the values of `xt`; the last error, if there was one.
  unfoldable pub first_hash : List (List ℕ) → Option HashError → Result MagnetError (List ℕ)
  first_hash [] none = err missing_xt
  first_hash [] (some e) = err (bad_hash e)
  first_hash (xt ∷ xts) last =
      let skipped = first_hash xts last in
      if not (has_prefix xt urn_btih)
      then skipped
      else elim (decode_info_hash (trim_prefix xt urn_btih)) as (λ _. Result MagnetError (List ℕ)) [
        | ok hash ↦ ok hash
        | err e ↦ first_hash xts (some e)
      ]

  -- `query` stands for url.ParseQuery: the values of each key, or an error.
  unfoldable pub parse_magnet_link :
      (List ℕ → Option (List ℕ → List (List ℕ))) → List ℕ → Result MagnetError MagnetLink
  parse_magnet_link query magnet_link =
      if not (has_prefix magnet_link (codes "magnet:?"))
      then err invalid_format
      else elim (query (trim_prefix magnet_link (codes "magnet:?")))
          as (λ _. Result MagnetError MagnetLink) [
            | none ↦ err bad_query
            | some params ↦
                elim (first_hash (params (codes "xt")) none)
                  as (λ _. Result MagnetError MagnetLink) [
                    | err e ↦ err e
                    | ok hash ↦ ok (record {
                      info_hash = hash;
                      name = first_value (params (codes "dn"));
                      trackers = params (codes "tr");
                      peer_addrs = params (codes "x.pe");
                    })
                  ]
          ]

-- `bencodeInfo` and `bencodeTorrent`, as the bencode library fills them.
pub record BencodeInfo : Type 0 where
  pub name : List ℕ
  pub piece_length : ℤ
  pub pieces : List ℕ
  pub length : ℤ
  pub files : List InfoFile
  pub private : ℤ

pub record BencodeTorrent : Type 0 where
  pub announce : List ℕ
  pub announce_list : List (List (List ℕ))
  pub info : Option BencodeInfo

pub record OpenedTorrent : Type 0 where
  pub announce : List ℕ
  pub announce_list : List (List (List ℕ))
  pub info_hash : List ℕ
  pub info : InfoDict
  pub raw_info : List ℕ

pub data OpenError : Type 0 where
  parse_failed no_info encode_failed invalid_metadata : OpenError

-- The loop over the hashes: what is left of `pieces`, with a turn for each byte, which is enough.
unfoldable pub piece_hashes_of : ℕ → List ℕ → List (List ℕ)
piece_hashes_of zero s = []
piece_hashes_of (suc turns) s =
    let rest = piece_hashes_of turns (drop 20 s) in
    if length s == 0 then [] else if leb 20 (length s) then take 20 s ∷ rest else rest

abbrev pub is_positive : ℤ → Bool
is_positive (pos n) = not (n == 0)
is_positive (negsuc n) = false

abbrev pub is_empty : {A : Type 0} → List A → Bool
is_empty [] = true
is_empty (x ∷ xs) = false

-- `Info` of the torrent, as it is filled from what was decoded.
unfoldable pub info_of : BencodeInfo → InfoDict
unfolding piece_hashes_of
info_of raw = record {
  name = raw.name;
  length = if is_empty raw.files then raw.length else total_length (pos 0) raw.files;
  piece_length = raw.piece_length;
  private = raw.private ==ℤ pos 1;
  piece_hashes = piece_hashes_of (length raw.pieces) raw.pieces;
  files = raw.files;
}

-- `unmarshal` and `marshal` are what the bencode library makes of the file and of the struct.
unfoldable pub open_torrent_file :
    (List ℕ → List ℕ)
    → (BencodeInfo → Option (List ℕ))
    → Option BencodeTorrent
    → Result OpenError OpenedTorrent
unfolding info_of
open_torrent_file sha1 marshal none = err parse_failed
open_torrent_file sha1 marshal (some raw) = elim raw.info as (λ _. Result OpenError OpenedTorrent) [
  | none ↦ err no_info
  | some raw_info ↦ elim (marshal raw_info) as (λ _. Result OpenError OpenedTorrent) [
    | none ↦ err encode_failed
    | some encoded ↦
        let info = info_of raw_info in
        if is_empty info.piece_hashes || not (is_positive info.piece_length)
        then err invalid_metadata
        else ok (record {
          announce = raw.announce;
          announce_list = raw.announce_list;
          info_hash = sha1 encoded;
          info = info;
          raw_info = encoded;
        })
  ]
]
