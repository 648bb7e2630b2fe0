-- ===== src/Transfer/Progress.antt =====
-- The transfer of a piece does not wait without a request, and each block brings it on.
use bit_torrent.Wire.Payloads.{parse_piece_message-piece_message}
use bit_torrent.Wire.Message.{parse_piece_message, piece_message}
use bit_torrent.Wire.Bytes.{IsU32}
use bit_torrent.Transfer.Sound.{request-IsSound, clamp-le, fill-IsSound, IsSound}
use bit_torrent.Transfer.Window.{find_block-inside, erase-absent, find_block-Below, total}
use bit_torrent.Transfer.{
  parse_piece_message, going, received, find_block, store, on_block, on_piece,
  max_inflight_per_peer, on_message, turn, Transfer, clamp, fill, request,
}
use bit_torrent.Base.{
  ok, ap, ==_refl, ◌∙◌, ◌||◌, some, ltb_false→le, zero, inr, ltb→lt, inl, ltb, ◌⊎◌, refl,
  Bool-cases, suc, length, arith, ◌∷◌, ◌+◌, [], ◌≡◌, ◌<◌, ◌≤◌, ℕ, List, ◌&&◌, false, ◌%◌, ◌^◌,
}

length-request :
    (size idx : ℕ) (t : Transfer)
    → IsSound size t
    → length (request size idx t).in_flight ≡ length t.in_flight + 1
unfolding request
length-request size idx t s =
    let absent = find_block-Below t.next_begin t.next_begin t.in_flight s.below (omega arith) in
    rw (erase-absent t.next_begin t.in_flight absent) (omega arith)

fill-full :
    (f limit size idx : ℕ) (t : Transfer)
    → IsU32 size
    → limit ≤ max_inflight_per_peer
    → limit ≤ f + length t.in_flight
    → IsSound size t
    → (limit ≤ length (fill f limit size idx t).in_flight)
      ⊎ (size ≤ (fill f limit size idx t).next_begin)
unfolding fill
fill-full zero limit size idx t h lim k s = inl (omega arith)
fill-full (suc f) limit size idx t h lim k s =
    elim (Bool-cases (ltb (length t.in_flight) limit && ltb t.next_begin size)) [
      | inl e ↦ rw e (
          fill-full f limit size idx (request size idx t) h lim
            (omega (arith, length-request size idx t s))
            (request-IsSound size idx t h (ground arith) (ground arith) s))
      | inr e ↦ rw e (ground arith)
    ]

fill-written : (f limit size idx : ℕ) (t : Transfer) → (fill f limit size idx t).written ≡ t.written
unfolding fill request
fill-written zero limit size idx t = refl
fill-written (suc f) limit size idx t =
    elim (Bool-cases (ltb (length t.in_flight) limit && ltb t.next_begin size)) [
      | inl e ↦ rw e (fill-written f limit size idx (request size idx t))
      | inr e ↦ rw e refl
    ]

clamp-ge : (limit : ℕ) → 4 ≤ clamp limit
unfolding clamp
clamp-ge limit = ground arith

total-none : (m : List (ℕ × ℕ)) → length m ≡ 0 → total m ≡ 0
unfolding total
total-none [] h = refl
total-none (e ∷ m) h = absurd (omega arith)

-- When the loop comes to read a message, a block is in flight: it never waits for an answer to a
-- request that it did not send. Its state is sound, and part of the piece is still to come.
pub fill-some_in_flight :
    (size idx : ℕ) (t : Transfer)
    → IsU32 size
    → IsSound size t
    → t.written < size
    → 0 < length (fill (clamp t.window) (clamp t.window) size idx t).in_flight
fill-some_in_flight size idx t h s l =
    let limit = clamp t.window in
    let t' = fill limit limit size idx t in
    let s' : IsSound size t' = fill-IsSound limit limit size idx t h (clamp-le t.window) s in
    let same : t'.written ≡ t.written = fill-written limit limit size idx t in
    elim (Bool-cases (ltb 0 (length t'.in_flight))) [
      | inl e ↦ ltb→lt 0 _ e
      | inr e ↦
          let empty : length t'.in_flight ≡ 0 = omega (arith, ltb_false→le 0 _ e) in
          elim (fill-full limit limit size idx t h (clamp-le t.window) (omega arith) s) [
            | inl full ↦ absurd (omega (arith, clamp-ge t.window, empty, full))
            | inr past ↦ absurd (omega (arith, s'.count, total-none t'.in_flight empty, same, past))
          ]
    ]

store-going :
    (size off : ℕ) (block : List ℕ) (t : Transfer)
    → IsU32 size
    → IsSound size t
    → find_block off t.in_flight ≡ some (length block)
    → (t' : Transfer) × (store off block t ≡ going t') × (t'.written ≡ t.written + length block)
unfolding store
store-going size off block t h s found =
    let inside = find_block-inside t.next_begin off (length block) t.in_flight s.below found in
    let stop_at : (off + length block % 2 ^ 32) % 2 ^ 32 ≡ off + length block =
      omega (arith, inside, s.bound) in
    let no_panic : (ltb (off + length block) off || ltb (length t.piece_data) (off + length block))
        ≡ false =
      ground (arith, s.whole, s.bound, inside) in
    rw (stop_at, no_panic) (_, refl, refl)

on_piece-parsed :
    (idx i off : ℕ) (payload block : List ℕ) (t : Transfer)
    → parse_piece_message payload ≡ ok (i, off, block)
    → on_piece idx payload t ≡ on_block idx i off block t
unfolding on_piece
on_piece-parsed idx i off payload block t e = rw (e, on_piece) refl

on_block-expected :
    (idx off : ℕ) (block : List ℕ) (t : Transfer)
    → IsU32 idx
    → length block < 2 ^ 32
    → find_block off t.in_flight ≡ some (length block)
    → on_block idx idx off block t ≡ store off block t
unfolding on_block
on_block-expected idx off block t hi short found =
    let same : idx % 2 ^ 32 ≡ idx = omega arith in
    let whole : length block % 2 ^ 32 ≡ length block = omega arith in
    rw (same, ==_refl idx, found, whole, ==_refl (length block)) refl

on_message-piece_message :
    (idx i off : ℕ) (block : List ℕ) (t : Transfer)
    → on_message idx (piece_message i off block) t
      ≡ on_piece idx (piece_message i off block).payload t
unfolding on_message piece_message
on_message-piece_message idx i off block t = refl

on_message-block :
    (size idx off : ℕ) (block : List ℕ) (t : Transfer)
    → IsU32 size
    → IsU32 idx
    → IsSound size t
    → find_block off t.in_flight ≡ some (length block)
    → on_message idx (piece_message idx off block) t ≡ store off block t
on_message-block size idx off block t h hi s found =
    let inside = find_block-inside t.next_begin off (length block) t.in_flight s.below found in
    on_message-piece_message idx idx off block t
    ∙ on_piece-parsed idx idx off (piece_message idx off block).payload block t
        (parse_piece_message-piece_message idx off block hi (omega (arith, inside, s.bound)))
    ∙ on_block-expected idx off block t hi (omega (arith, inside, s.bound)) found

-- A block that answers a request in flight brings the transfer on by its length, which is not zero.
-- Its state is sound, and the offset and the length of the piece are uint32.
pub turn-piece_message :
    (size idx off : ℕ) (block : List ℕ) (t : Transfer)
    → IsU32 size
    → IsU32 idx
    → IsSound size t
    → find_block off (fill (clamp t.window) (clamp t.window) size idx t).in_flight
      ≡ some (length block)
    → (t' : Transfer) × (turn size idx (received (piece_message idx off block)) t ≡ going t')
      × (t'.written ≡ t.written + length block)
      × (0 < length block)
unfolding turn
turn-piece_message size idx off block t h hi s found =
    let limit = clamp t.window in
    let t' = fill limit limit size idx t in
    let s' : IsSound size t' = fill-IsSound limit limit size idx t h (clamp-le t.window) s in
    let (u, same, more) = store-going size off block t' h s' found in
    let inside = find_block-inside t'.next_begin off (length block) t'.in_flight s'.below found in
    (
      u,
      on_message-block size idx off block t' h hi s' found ∙ same,
      more ∙ ap (λ w. w + length block) (fill-written limit limit size idx t),
      inside.1,
    )
