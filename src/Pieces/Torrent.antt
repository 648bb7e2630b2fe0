-- ===== src/Pieces/Torrent.antt =====
-- internal/types/types.go. Lengths are those of a torrent that was accepted: no int64 here is
-- negative.
use bit_torrent.Base.{ℕ, Bool, List}

pub record FileInfo : Type 0 where
  pub length : ℕ
  pub path : List (List ℕ)

pub record TorrentInfo : Type 0 where
  pub name : List ℕ
  pub length : ℕ
  pub piece_length : ℕ
  pub private : Bool
  pub piece_hashes : List (List ℕ)
  pub files : List FileInfo

pub record TorrentFile : Type 0 where
  pub announce : List ℕ
  pub announce_list : List (List (List ℕ))
  pub info_hash : List ℕ
  pub info : TorrentInfo
  pub raw_info : List ℕ
