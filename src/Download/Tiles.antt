-- ===== src/Download/Tiles.antt =====
-- The files of a torrent, as they are on disk after the download: nothing of the data file is lost.
use bit_torrent.Download.Files.{
  OutputFile, Materialized, parts_or_index, begins_with, blocked, is_directory, put_file,
  materialize_from, materialize_multi_file,
}
use bit_torrent.Metadata.Info.{InfoFile}
use bit_torrent.Swarm.{sanitize_path_parts}
use bit_torrent.Base.{
  append-nil, append_assoc, All, All-map, All-append, ◌∷◌, ◌+◌, ◌++◌, [], ◌≡◌, ◌≤◌, ℕ, List, false,
  none, take, drop, length, ltb, pos, arith, refl, ap, ◌∙◌, sym, take_add, drop-drop, length-take,
  length-drop,
}

-- The sizes of the files, where none is negative.
abbrev pub HaveSizes : List InfoFile → List ℕ → Type 0
HaveSizes [] [] = Unit {0}
HaveSizes [] (n ∷ ns) = ⊥
HaveSizes (f ∷ fs) [] = ⊥
HaveSizes (f ∷ fs) (n ∷ ns) = (f.length ≡ pos n) × HaveSizes fs ns

abbrev pub total : List ℕ → ℕ
total [] = 0
total (n ∷ ns) = n + total ns

abbrev pub joined : List OutputFile → List ℕ
joined [] = []
joined (f ∷ fs) = f.bytes ++ joined fs

abbrev pub sizes : List OutputFile → List ℕ
sizes [] = []
sizes (f ∷ fs) = length f.bytes ∷ sizes fs

abbrev pub places : List OutputFile → List (List (List ℕ))
places [] = []
places (f ∷ fs) = f.path ∷ places fs

-- The paths of the files from index `idx` on, with their parts cleaned.
abbrev pub paths : (List ℕ → List ℕ) → ℕ → List InfoFile → List (List (List ℕ))
paths trim idx [] = []
paths trim idx (f ∷ fs) =
    parts_or_index (sanitize_path_parts trim f.path) idx ∷ paths trim (idx + 1) fs

-- Neither path is the other one or lies below it.
abbrev pub IsApart : List (List ℕ) → List (List ℕ) → Type 0
IsApart p q = (begins_with p q ≡ false) × (begins_with q p ≡ false)

abbrev pub AreApart : List (List (List ℕ)) → Type 0
AreApart [] = Unit {0}
AreApart (p ∷ ps) = All (IsApart p) ps × AreApart ps

-- The files on disk are in the way of none of the paths.
abbrev pub AreFree : List OutputFile → List (List (List ℕ)) → Type 0
AreFree disk ps = All (λ f. All (IsApart f.path) ps) disk

not_blocked :
    (path : List (List ℕ)) (disk : List OutputFile)
    → All (λ f. IsApart f.path path) disk
    → blocked path disk ≡ false
unfolding blocked
not_blocked path [] h = refl
not_blocked path (f ∷ fs) h = rw h.0.1 (not_blocked path fs h.1)

not_directory :
    (path : List (List ℕ)) (disk : List OutputFile)
    → All (λ f. IsApart f.path path) disk
    → is_directory path disk ≡ false
unfolding is_directory
not_directory path [] h = refl
not_directory path (f ∷ fs) h = rw h.0.0 (not_directory path fs h.1)

put_file-new :
    (new : OutputFile) (disk : List OutputFile)
    → All (λ f. IsApart f.path new.path) disk
    → put_file new disk ≡ disk ++ (new ∷ [])
unfolding put_file
put_file-new new [] h = refl
put_file-new new (f ∷ fs) h = simp h.0.1 (ap (◌∷◌ f) (put_file-new new fs h.1))

module _ (trim : List ℕ → List ℕ) (payload : List ℕ) where
  -- What is there behind the files that were there before: files of those paths and those sizes, which
  -- one after the other are those bytes, and no error.
  abbrev pub AreOnDisk :
      Materialized → List OutputFile → List (List (List ℕ)) → List ℕ → List ℕ → Type 0
  AreOnDisk m disk ps ns bytes =
      (out : List OutputFile) × (m ≡ record { files = disk ++ out; failed = none })
      × (joined out ≡ bytes)
      × (sizes out ≡ ns)
      × (places out ≡ ps)

  materialize_from-tiles :
      (files : List InfoFile) (ns : List ℕ) (offset idx : ℕ) (disk : List OutputFile)
      → HaveSizes files ns
      → offset + total ns ≤ length payload
      → AreApart (paths trim idx files)
      → AreFree disk (paths trim idx files)
      → AreOnDisk
          (materialize_from trim payload offset idx disk files)
          disk
          (paths trim idx files)
          ns
          (take (total ns) (drop offset payload))
  unfolding materialize_from
  materialize_from-tiles [] [] offset idx disk h fits a free = (
    [],
    ap (λ fs. record { files = fs; failed = none }) (sym (append-nil disk)),
    refl,
    refl,
    refl,
  )
  materialize_from-tiles [] (n ∷ ns) offset idx disk h fits a free = absurd h
  materialize_from-tiles (f ∷ fs) [] offset idx disk h fits a free = absurd h
  materialize_from-tiles (f ∷ fs) (n ∷ ns) offset idx disk h fits (apart, a) free =
      let path = parts_or_index (sanitize_path_parts trim f.path) idx in
      let bytes = take n (drop offset payload) in
      let new : OutputFile = record { path = path; bytes = bytes } in
      let size : length bytes ≡ n =
        omega (arith, length-take n (drop offset payload), length-drop offset payload) in
      let enough : ltb (length bytes) n ≡ false = ground (arith, size) in
      let here : All (λ f. IsApart f.path path) disk = All-map _ _ disk (λ f h. h.0) free in
      let there : AreFree (disk ++ (new ∷ [])) (paths trim (idx + 1) fs) =
        All-append _ disk (new ∷ []) (All-map _ _ disk (λ f h. h.1) free) (apart, tt) in
      let (out, same, tiles, lens, at) =
        materialize_from-tiles fs ns (offset + n) (idx + 1) (disk ++ (new ∷ [])) h.1 (omega arith) a
          there in
      (
        new ∷ out,
        simp
            (
              h.0,
              not_blocked path disk here,
              not_directory path disk here,
              enough,
              put_file-new new disk here,
            )
            (same
              ∙ ap (λ fs. record { files = fs; failed = none }) (append_assoc disk (new ∷ []) out)),
        ap (◌++◌ bytes) (tiles ∙ ap (take (total ns)) (sym (drop-drop n offset payload)))
            ∙ sym (take_add n (total ns) (drop offset payload)),
        ap (λ k. k ∷ sizes out) size ∙ ap (◌∷◌ n) lens,
        ap (◌∷◌ path) at,
      )

  -- Where no path is another one or lies below another one, once their parts are cleaned, and where no
  -- file that is there before is in the way of any, no file has a negative length, and the data file has
  -- the bytes of all: no error is met, the files that were there stay, and behind them each file is
  -- there, in their order, with its path and its length; one after the other they are the data file's
  -- bytes, without a gap.
  pub materialize_tiles :
      (files : List InfoFile) (ns : List ℕ) (disk : List OutputFile)
      → HaveSizes files ns
      → total ns ≤ length payload
      → AreApart (paths trim 0 files)
      → AreFree disk (paths trim 0 files)
      → AreOnDisk
          (materialize_multi_file trim payload disk files)
          disk
          (paths trim 0 files)
          ns
          (take (total ns) payload)
  unfolding materialize_multi_file
  materialize_tiles files ns disk h fits a free =
      materialize_from-tiles files ns 0 0 disk h (omega arith) a free
