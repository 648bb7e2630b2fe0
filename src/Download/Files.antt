-- ===== src/Download/Files.antt =====
-- `materializeMultiFile` of internal/downloader/downloader.go: the files of a torrent, cut out of its
-- data file, on a file system in which a name is a file or a directory: an empty directory is left out,
-- as are links. No call of the operating system fails but for these names.
use bit_torrent.Metadata.Info.{InfoFile}
use bit_torrent.Swarm.{sanitize_path_parts}
use bit_torrent.Bencode.Emit.{decimal}
use bit_torrent.Wire.Handshake.{codes}
use bit_torrent.Base.{
  Bool, true, not, ◌&&◌, ◌||◌, ◌===◌, ◌∷◌, ◌+◌, ◌++◌, [], ℕ, List, false, Option, none, some, take,
  drop, length, ltb, pos, negsuc, if◌then◌else◌,
}

pub data FilesError : Type 0 where
  negative_length directory_failed create_failed write_failed : FilesError

-- A file on disk: its path below the directory of the torrent, and its bytes.
pub record OutputFile : Type 0 where
  pub path : List (List ℕ)
  pub bytes : List ℕ

-- The files on disk, and the error that ended the loop.
pub record Materialized : Type 0 where
  pub files : List OutputFile
  pub failed : Option FilesError

unfoldable pub parts_or_index : List (List ℕ) → ℕ → List (List ℕ)
parts_or_index [] idx = (codes "file_" ++ (decimal idx ++ codes ".bin")) ∷ []
parts_or_index (p ∷ ps) idx = p ∷ ps

-- A path that begins with another one, or is it.
unfoldable pub begins_with : List (List ℕ) → List (List ℕ) → Bool
begins_with ps [] = true
begins_with [] (q ∷ qs) = false
begins_with (p ∷ ps) (q ∷ qs) = p === q && begins_with ps qs

abbrev pub is_same : List (List ℕ) → List (List ℕ) → Bool
is_same p q = begins_with p q && begins_with q p

-- os.MkdirAll meets a file where it wants a directory.
unfoldable pub blocked : List (List ℕ) → List OutputFile → Bool
unfolding begins_with
blocked path [] = false
blocked path (f ∷ fs) = begins_with path f.path && not (is_same path f.path) || blocked path fs

-- os.OpenFile meets a directory: there is a file below the path.
unfoldable pub is_directory : List (List ℕ) → List OutputFile → Bool
unfolding begins_with
is_directory path [] = false
is_directory path (f ∷ fs) =
    begins_with f.path path && not (is_same path f.path) || is_directory path fs

-- os.OpenFile, which truncates a file that is there, and what is copied into the file.
unfoldable pub put_file : OutputFile → List OutputFile → List OutputFile
unfolding begins_with
put_file new [] = new ∷ []
put_file new (f ∷ fs) =
    let rest = put_file new fs in if is_same new.path f.path then new ∷ fs else f ∷ rest

-- The loop, from file `idx` at `offset` on, with the files that are on disk. `trim` stands for
-- strings.TrimSpace.
unfoldable pub materialize_from :
    (List ℕ → List ℕ) → List ℕ → ℕ → ℕ → List OutputFile → List InfoFile → Materialized
unfolding parts_or_index blocked is_directory put_file
materialize_from trim payload offset idx disk [] = record { files = disk; failed = none }
materialize_from trim payload offset idx disk (f ∷ fs) = elim f.length as (λ _. Materialized) [
  | negsuc n ↦ record { files = disk; failed = some negative_length }
  | pos n ↦
      let path = parts_or_index (sanitize_path_parts trim f.path) idx in
      let bytes = take n (drop offset payload) in
      let written = put_file (record { path = path; bytes = bytes }) disk in
      let rest = materialize_from trim payload (offset + n) (idx + 1) written fs in
      if blocked path disk
      then record { files = disk; failed = some directory_failed }
      else if is_directory path disk
      then record { files = disk; failed = some create_failed }
      else if ltb (length bytes) n
      then record { files = written; failed = some write_failed }
      else rest
]

unfoldable pub materialize_multi_file :
    (List ℕ → List ℕ) → List ℕ → List OutputFile → List InfoFile → Materialized
unfolding materialize_from
materialize_multi_file trim payload disk files = materialize_from trim payload 0 0 disk files
