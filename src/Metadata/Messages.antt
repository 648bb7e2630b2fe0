-- ===== src/Metadata/Messages.antt =====
-- The messages of a peer that serves the description as BEP 9 has it, and what the reader makes of
-- each of them.
use bit_torrent.Bencode.Scan.{is_negative}
use bit_torrent.Bencode.RoundTrip.{decode-emit, decode_bencode_value-emit}
use bit_torrent.Bencode.Length.{len_value-decode}
use bit_torrent.Bencode.Decode.{len_value, decode_bencode_value}
use bit_torrent.Wire.Handshake.{codes}
use bit_torrent.Wire.Framing.{read_message-encode, IsSendable}
use bit_torrent.Bencode.Emit.{emit, IsValue}
use bit_torrent.Wire.Message.{encode, max_message_size, msg_extended, Message}
use bit_torrent.Base.{
  drop-append, take-append, ltb, ◌||◌, append-nil, pos, length-append, refl, some, arith, zero, ℤ,
  inr, drop, suc, length, take, ◌∷◌, ◌+◌, [], ◌≡◌, ◌<◌, ◌≤◌, ℕ, List, false, ◌*◌, ◌++◌, ◌^◌,
}
use bit_torrent.Metadata.{
  is_negative, len_value, decode_bencode_value, piece_data, codes, meta_id, receive, msg_extended,
  meta_piece_size, Message, read_metadata_message, read_extension_handshake, ok, announces,
}
use bit_torrent.Bencode.Value.{lookup, as_int, Entries, Outcome, dict, num}

abbrev pub handshake_message : Entries → Message
handshake_message hs = record { id = msg_extended; payload = 0 ∷ emit (dict hs) }

-- The bytes of a piece of the description.
abbrev pub chunk : List ℕ → ℕ → List ℕ
chunk description i = take meta_piece_size (drop (i * meta_piece_size) description)

-- A piece, after the byte for our ID of the extension and a header of the peer's choice.
abbrev pub piece_reply : (ℕ → Entries) → List ℕ → ℕ → Message
piece_reply header description i = record {
  id = msg_extended;
  payload = 1 ∷ (emit (dict (header i)) ++ chunk description i);
}

unfoldable pub replies : (ℕ → Entries) → List ℕ → ℕ → ℕ → List ℕ
replies header description zero i = []
replies header description (suc left) i =
    encode (piece_reply header description i) ++ replies header description left (i + 1)

-- A header that a peer may put in front of a piece.
pub record IsHeader (f : ℕ) (h : Entries) : Type 0 where
  pub value : IsValue (dict h)
  pub is_data : lookup (codes "msg_type") h ≡ some (num (pos 1))
  pub short : length (emit (dict h)) < 2 ^ 20
  pub fuel : 2 * length (emit (dict h)) < f

pub receive-encode :
    (m : Message) (rest : List ℕ) → IsSendable m → receive (encode m ++ rest) ≡ ok (m, rest)
receive-encode m rest h = rw (read_message-encode m rest h, receive) refl

pub extended-IsSendable :
    (payload : List ℕ)
    → length payload < max_message_size
    → IsSendable (record { id = msg_extended; payload = payload })
extended-IsSendable payload h = inr (20, refl, omega arith, h)

pub read_extension_handshake-message :
    (hs : Entries) (id size : ℤ)
    → IsValue (dict hs)
    → meta_id hs ≡ some id
    → lookup (codes "metadata_size") hs ≡ some (num size)
    → read_extension_handshake (handshake_message hs) ≡ announces id size
unfolding read_extension_handshake as_int
read_extension_handshake-message hs id size v e k =
    let decoded : decode_bencode_value (emit (dict hs))
        ≡ Outcome.ok (dict hs, length (emit (dict hs))) =
      rw append-nil at (decode_bencode_value-emit (dict hs) [] v) in
    rw (decoded, e, k) (ground arith)

pub read_metadata_message-reply :
    (f : ℕ) (h : Entries) (raw : List ℕ)
    → IsHeader f h
    → length raw ≤ meta_piece_size
    → read_metadata_message f (record { id = msg_extended; payload = 1 ∷ (emit (dict h) ++ raw) })
      ≡ piece_data raw
unfolding read_metadata_message as_int
read_metadata_message-reply f h raw ok_header small =
    let n = length (emit (dict h)) in
    let body = emit (dict h) ++ raw in
    let size : length body ≡ n + length raw = length-append (emit (dict h)) raw in
    let found : len_value f body ≡ Outcome.ok n =
      len_value-decode f body (dict h) n (omega (arith, size, ok_header.short))
        (decode-emit f (dict h) raw ok_header.value ok_header.fuel) in
    let decoded : decode_bencode_value (emit (dict h)) ≡ Outcome.ok (dict h, n) =
      rw append-nil at (decode_bencode_value-emit (dict h) [] ok_header.value) in
    let inside : (is_negative n || ltb (length body) n) ≡ false =
      unfold is_negative in ground (arith, size, ok_header.short) in
    let not_short : ltb (suc (length body)) 2 ≡ false = unfold emit in ground arith in
    rw
      (
        not_short,
        found,
        inside,
        take-append (emit (dict h)) raw,
        decoded,
        ok_header.is_data,
        drop-append (emit (dict h)) raw,
      )
      refl
