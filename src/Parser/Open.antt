-- ===== src/Parser/Open.antt =====
-- The hashes of a torrent file and of a description that comes from a peer.
use bit_torrent.Parser.{piece_hashes_of}
use bit_torrent.Metadata.Info.{hashes}
use bit_torrent.Base.{
  false, ◌==◌, Bool-cases, ◌∷◌, ◌/◌, ◌≤◌, ◌<◌, [], ◌≡◌, ℕ, zero, suc, List, inl, inr, refl, ap, ◌∙◌,
  arith, drop, take, length, length-drop, leb,
}

-- With a turn for each byte at least, the two readers of an info dictionary, `OpenTorrentFile` and `decodeInfoDict`, find the same hashes
-- in `pieces`: the whole groups of twenty bytes.
pub piece_hashes_of-hashes :
    (turns : ℕ) (s : List ℕ) → length s ≤ turns → piece_hashes_of turns s ≡ hashes (length s / 20) s
unfolding piece_hashes_of hashes
piece_hashes_of-hashes zero s h = ap (λ n. hashes n s) {x = 0} {y = length s / 20} (omega arith)
piece_hashes_of-hashes (suc turns) [] h = refl
piece_hashes_of-hashes (suc turns) (x ∷ xs) h =
    let left = length-drop 19 xs in
    let ih = piece_hashes_of-hashes turns (drop 19 xs) (omega (arith, left)) in
    let not_over : (suc (length xs) == 0) ≡ false = ground arith in
    elim (Bool-cases (leb 20 (suc (length xs)))) [
      | inl big ↦
          let most : 20 ≤ suc (length xs) = ground (arith, big) in
          let one_more : suc (length (drop 19 xs) / 20) ≡ suc (length xs) / 20 =
            omega (arith, left, most) in
          rw (not_over, big) (ap (◌∷◌ (x ∷ take 19 xs)) ih ∙ ap (λ n. hashes n (x ∷ xs)) one_more)
      | inr small ↦
          let few : suc (length xs) < 20 = ground (arith, small) in
          let nothing : length (drop 19 xs) / 20 ≡ 0 = omega (arith, left, few) in
          let none_whole : 0 ≡ suc (length xs) / 20 = omega (arith, few) in
          rw (not_over, small)
            (ih ∙ ap (λ n. hashes n (drop 19 xs)) nothing ∙ ap (λ n. hashes n (x ∷ xs)) none_whole)
    ]
