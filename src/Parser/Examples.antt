-- ===== src/Parser/Examples.antt =====
-- A magnet link whose first value of `xt` has a hash of a length that is not supported.
use bit_torrent.Parser.Magnet.{Names, parse_magnet_link-Any}
use bit_torrent.Parser.Open.{piece_hashes_of-hashes}
use bit_torrent.Parser.{MagnetLink, parse_magnet_link, piece_hashes_of, urn_btih}
use bit_torrent.Metadata.Info.{hashes}
use bit_torrent.Wire.Handshake.{codes}
use bit_torrent.Base.{
  ◌∷◌, ◌++◌, [], ◌≡◌, ℕ, List, Option, some, ok, Any, inl, inr, refl, arith, replicate, ◌/◌,
  if◌then◌else◌, ◌===◌,
}

abbrev as_it_is : List ℕ → List ℕ
as_it_is s = s

-- A decoder of twenty digits that are all the same.
abbrev decoder : List ℕ → Option (List ℕ)
decoder s = some (replicate 20 0x11)

abbrev forty : List ℕ
forty = replicate 40 0x31

abbrev values : List ℕ → List (List ℕ)
values key = if key === codes "xt" then (urn_btih ++ codes "12") ∷ (urn_btih ++ forty) ∷ [] else []

abbrev query : List ℕ → Option (List ℕ → List (List ℕ))
query s = some values

parse_magnet_link-Any_example :
    (m : MagnetLink) × (parse_magnet_link as_it_is as_it_is decoder decoder query (codes "magnet:?")
      ≡ ok m)
    × Any (λ xt. Names as_it_is as_it_is decoder decoder xt m.info_hash) (values (codes "xt"))
    × (m.trackers ≡ values (codes "tr"))
unfolding bit_torrent.Parser.has_prefix bit_torrent.Parser.trim_prefix
    bit_torrent.Parser.decode_info_hash bit_torrent.Parser.hash_of ◌===◌
parse_magnet_link-Any_example =
    parse_magnet_link-Any as_it_is as_it_is decoder decoder query (codes "magnet:?") values refl
      refl (inr (inl (replicate 20 0x11, (refl, refl))))

piece_hashes_of-hashes_example :
    piece_hashes_of 45 (replicate 45 7) ≡ hashes (45 / 20) (replicate 45 7)
piece_hashes_of-hashes_example = piece_hashes_of-hashes 45 (replicate 45 7) (omega arith)
