-- ===== src/Metadata/Honest.antt =====
-- A peer that serves the description as BEP 9 has it: what `fetchMetadata` makes of all that it sends.
use bit_torrent.Metadata.Messages.{
  handshake_message, chunk, piece_reply, replies, IsHeader, receive-encode, extended-IsSendable,
  read_extension_handshake-message, read_metadata_message-reply,
}
use bit_torrent.Wire.Handshake.{codes}
use bit_torrent.Wire.Framing.{IsSendable}
use bit_torrent.Bencode.Emit.{emit, IsValue}
use bit_torrent.Wire.Message.{encode, Message}
use bit_torrent.Base.{
  ===_refl, true, ◌===◌, ◌==ℤ◌, if◌then◌else◌, ◌/◌, drop-replicate, take_add, ap₂, ◌∙◌,
  length-replicate, drop-drop, append_assoc, length-drop, sym, length-take, take_all, drop-append,
  take-append, ap, replicate, append-nil, pos, length-append, refl, some, arith, zero, ℤ, drop, suc,
  length, take, ◌+◌, ◌≡◌, ◌<◌, ◌≤◌, ℕ, List, ◌*◌, ◌-◌, ◌++◌, ◌^◌,
}
use bit_torrent.Metadata.{
  no_ut_metadata, read_info, checked_info, metadata_size, on_seen, exchange, await_handshake,
  on_reply, await_piece, fetch_pieces, copy_at, piece_data, codes, meta_id, receive,
  meta_piece_size, Message, read_metadata_message, read_extension_handshake, ok, announces, err,
}
use bit_torrent.Bencode.Value.{lookup, Entries, dict, num}

-- What is assembled before piece `i`: the front of the description, and zeros.
abbrev partly : List ℕ → ℕ → List ℕ
partly description i =
    take (i * meta_piece_size) description ++ replicate (length description - i * meta_piece_size) 0

copy_at-append :
    (front raw zeros : List ℕ)
    → length raw ≤ length zeros
    → copy_at (length front) raw (front ++ zeros) ≡ front ++ (raw ++ drop (length raw) zeros)
unfolding copy_at
copy_at-append front raw zeros h =
    let size = length-append front zeros in
    let whole : take (length (front ++ zeros) - length front) raw ≡ raw =
      take_all (length (front ++ zeros) - length front) raw (omega (arith, size)) in
    let back : drop (length front + length raw) (front ++ zeros) ≡ drop (length raw) zeros =
      sym (drop-drop (length raw) (length front) (front ++ zeros))
      ∙ ap (drop (length raw)) (drop-append front zeros) in
    rw (take-append front zeros, whole, back) refl

zeros_length : (n : ℕ) → length {A = ℕ} (replicate n 0) ≡ n
zeros_length n = length-replicate n 0

copy_at-chunk :
    (description : List ℕ) (i : ℕ)
    → i * meta_piece_size ≤ length description
    → copy_at (i * meta_piece_size) (chunk description i) (partly description i)
      ≡ partly description (i + 1)
copy_at-chunk description i h =
    let off = i * meta_piece_size in
    let front = take off description in
    let raw = chunk description i in
    let left = length description - off in
    let at : length front ≡ off = omega (arith, length-take off description) in
    let zeros : List ℕ = replicate left 0 in
    let size = length-take meta_piece_size (drop off description) in
    let behind = length-drop off description in
    let fits : length raw ≤ length zeros = omega (arith, size, behind, zeros_length left) in
    ap (λ k. copy_at k raw (partly description i)) (sym at)
    ∙ copy_at-append front raw (replicate left 0) fits
    ∙ sym (append_assoc front raw (drop (length raw) (replicate left 0)))
    ∙ ap₂ (λ xs ys. xs ++ ys)
        (sym (take_add off meta_piece_size description)
          ∙ ap (λ k. take k description) {x = off + meta_piece_size} {y = (i + 1) * meta_piece_size}
              (omega arith))
        (drop-replicate (length raw) left 0
          ∙ ap (λ k. replicate k 0) {x = left - length raw}
              {y = length description - (i + 1) * meta_piece_size} (omega (arith, size, behind)))

await_piece-first :
    (f k : ℕ) (conn : List ℕ) (m : Message) (rest raw : List ℕ)
    → receive conn ≡ ok (m, rest)
    → read_metadata_message f m ≡ piece_data raw
    → await_piece f (suc k) conn ≡ ok (raw, rest)
unfolding await_piece
await_piece-first f k conn m rest raw e r = rw e (ap (on_reply (await_piece f k rest) rest) r)

await_handshake-first :
    (k : ℕ) (conn : List ℕ) (m : Message) (rest : List ℕ) (id size : ℤ)
    → receive conn ≡ ok (m, rest)
    → read_extension_handshake m ≡ announces id size
    → await_handshake (suc k) conn ≡ ok (id, size, rest)
unfolding await_handshake
await_handshake-first k conn m rest id size e r =
    rw e (ap (on_seen (await_handshake k rest) rest) r)

fetch_pieces-replies :
    (f : ℕ) (header : ℕ → Entries) (description rest : List ℕ)
    → ((i : ℕ) → IsHeader f (header i))
    → (left i : ℕ) → (i + left) * meta_piece_size < length description + meta_piece_size
    → fetch_pieces f left i (partly description i) (replies header description left i ++ rest)
      ≡ ok (partly description (i + left))
unfolding fetch_pieces replies
fetch_pieces-replies f header description rest hs zero i h =
    ap (λ k. ok (partly description k)) {x = i} {y = i + 0} (omega arith)
fetch_pieces-replies f header description rest hs (suc left) i h =
    let raw = chunk description i in
    let m = piece_reply header description i in
    let later = replies header description left (i + 1) ++ rest in
    let sizes = length-append (emit (dict (header i))) raw in
    let small = length-take meta_piece_size (drop (i * meta_piece_size) description) in
    let sendable : IsSendable m =
      extended-IsSendable m.payload (omega (arith, sizes, small, (hs i).short)) in
    let arrives : receive (encode m ++ later) ≡ ok (m, later) = receive-encode m later sendable in
    let seen : read_metadata_message f m ≡ piece_data raw =
      read_metadata_message-reply f (header i) raw (hs i) (omega (arith, small)) in
    let first = await_piece-first f 199 (encode m ++ later) m later raw arrives seen in
    rw
      (
        append_assoc (encode m) (replies header description left (i + 1)) rest,
        first,
        copy_at-chunk description i (omega arith),
      )
      (fetch_pieces-replies f header description rest hs left (i + 1) (omega arith)
        ∙ ap (λ k. ok (partly description k)) {x = i + 1 + left} {y = i + suc left} (omega arith))

-- The description that is asked for, and a peer that announces it and serves its pieces, in order,
-- with headers of its choice.
pub record Serves (f : ℕ) (description : List ℕ) (hs : Entries) (header : ℕ → Entries)
    : Type 0 where
  pub some_bytes : 0 < length description
  pub accepted : length description ≤ 10 * 1024 * 1024
  pub handshake : IsValue (dict hs)
  pub handshake_short : length (emit (dict hs)) < 2 ^ 20
  pub id : ℕ
  pub id_positive : 0 < id
  pub announced : meta_id hs ≡ some (pos id)
  pub announced_size : lookup (codes "metadata_size") hs ≡ some (num (pos (length description)))
  pub headers : (i : ℕ) → IsHeader f (header i)

partly-done :
    (description : List ℕ) (n : ℕ)
    → length description ≤ n * meta_piece_size
    → partly description n ≡ description
partly-done description n h =
    ap₂ (λ xs k. xs ++ replicate k 0) (take_all (n * meta_piece_size) description h)
      (nothing (omega arith))
    ∙ append-nil description
  where
    nothing :
        length description ≤ n * meta_piece_size → length description - n * meta_piece_size ≡ 0
    nothing k = omega arith

partly-begun : (description : List ℕ) → partly description 0 ≡ replicate (length description) 0
partly-begun description =
    ap (λ k. replicate k 0) {x = length description - 0 * meta_piece_size} {y = length description}
      (omega arith)

-- What an honest peer serves is what is read: where the description has the hash that was asked for,
-- `fetchMetadata` assembles it from the replies and reads it, whatever follows on the connection.
pub exchange-Serves :
    (sha1 : List ℕ → List ℕ) (f : ℕ) (info_hash description rest : List ℕ) (hs : Entries)
    (header : ℕ → Entries)
    → Serves f description hs header
    → sha1 description ≡ info_hash
    → exchange sha1 f info_hash (
        encode (handshake_message hs)
        ++ (replies header description
              ((length description + meta_piece_size - 1) / meta_piece_size)
              0
            ++ rest))
      ≡ read_info description
unfolding exchange metadata_size checked_info
exchange-Serves sha1 f info_hash description rest hs header s e =
    let rounds = (length description + meta_piece_size - 1) / meta_piece_size in
    let served = replies header description rounds 0 ++ rest in
    let m = handshake_message hs in
    let sendable : IsSendable m =
      extended-IsSendable m.payload (omega (arith, s.handshake_short)) in
    let seen =
      read_extension_handshake-message hs (pos s.id) (pos (length description)) s.handshake
        s.announced s.announced_size in
    let shaken =
      await_handshake-first 199 (encode m ++ served) m served (pos s.id) (pos (length description))
        (receive-encode m served sendable) seen in
    let assembled =
      fetch_pieces-replies f header description rest s.headers rounds 0 (omega arith) in
    let accepted : (if pos s.id ==ℤ pos 0
          then err no_ut_metadata
          else metadata_size (pos (length description)))
        ≡ ok (length description) =
      ground (arith, s.id_positive, s.some_bytes, s.accepted) in
    let whole : fetch_pieces f rounds 0 (replicate (length description) 0) served ≡ ok description =
      ap (λ a. fetch_pieces f rounds 0 a served) (sym (partly-begun description))
      ∙ assembled
      ∙ ap ok (partly-done description (0 + rounds) (omega arith)) in
    let checked : (sha1 description === info_hash) ≡ true = rw e (===_refl info_hash) in
    rw (shaken, accepted, whole, checked) refl
