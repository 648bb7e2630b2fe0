-- ===== src/Wire/Framing.antt =====
-- Reading what was sent: message framing on a connection.
use bit_torrent.Base.{
  ℕ, zero, suc, ◌<◌, ◌≡◌, refl, sym, ap, subst, ap₂, ◌∙◌, List, [], ◌∷◌, ◌++◌, arith, length, All,
  Result, ok, ◌>>=◌, pos, ◌⊎◌, inl, inr, append_assoc,
}
use bit_torrent.Wire.Bytes.{
  IsByte, IsU32, ReadError, put_uint32, read_full-append, uint32-put_uint32, read_full-put_uint32,
}
use bit_torrent.Wire.Message.{
  Message, max_message_size, encode, read_body, read_message, msg_keep_alive,
}

-- What a peer may send: a keep-alive, or an ID of one byte with a payload within the limit.
abbrev pub IsSendable : Message → Type 0
IsSendable m =
    (m ≡ record { id = msg_keep_alive; payload = [] })
    ⊎ ((i : ℕ) × (m.id ≡ pos i) × IsByte i × (length m.payload < max_message_size))

pub read_message_split :
    (v : ℕ) (s : List ℕ) → IsU32 v → read_message (put_uint32 v ++ s) ≡ read_body v s
unfolding read_message put_uint32
read_message_split v s h =
    rw (read_full-put_uint32 v s) (ap (λ len. read_body len s) (uint32-put_uint32 v [] h))

pub read_body_zero :
    (s : List ℕ) → read_body 0 s ≡ ok (record { id = msg_keep_alive; payload = [] }, s)
unfolding read_body
read_body_zero s = refl

read_body_payload :
    (i : ℕ) (p rest : List ℕ)
    → length p < max_message_size
    → read_body (suc (length p)) (i ∷ (p ++ rest)) ≡ ok (record { id = pos i; payload = p }, rest)
unfolding read_body
read_body_payload i p rest h = ground (arith, read_full-append (i ∷ p) rest)

-- The bytes of a message with a one-byte ID.
pub encode_plain :
    (i : ℕ) (p : List ℕ)
    → IsByte i
    → length p < max_message_size
    → encode (record { id = pos i; payload = p }) ≡ put_uint32 (suc (length p)) ++ (i ∷ p)
unfolding encode
encode_plain i p hi hp = ap₂ (λ v j. put_uint32 v ++ (j ∷ p)) (omega arith) (omega arith)

read_message-plain :
    (i : ℕ) (p rest : List ℕ)
    → IsByte i
    → length p < max_message_size
    → read_message (encode (record { id = pos i; payload = p }) ++ rest)
      ≡ ok (record { id = pos i; payload = p }, rest)
read_message-plain i p rest hi hp =
    rw (encode_plain i p hi hp, append_assoc)
      (read_message_split (suc (length p)) (i ∷ (p ++ rest)) (omega arith)
        ∙ read_body_payload i p rest hp)

-- A message that a peer may send is read back whole, and what follows it stays on the connection.
pub read_message-encode :
    (m : Message) (rest : List ℕ) → IsSendable m → read_message (encode m ++ rest) ≡ ok (m, rest)
unfolding encode put_uint32
read_message-encode m rest (inl e) =
    rw e (read_message_split 0 rest (omega arith) ∙ read_body_zero rest)
read_message-encode m rest (inr (i, e, hi, hp)) =
    subst (λ (x : Message). read_message (encode x ++ rest) ≡ ok (x, rest))
      (λ j. record { id = sym e j; payload = m.payload })
      (read_message-plain i m.payload rest hi hp)

-- `ReadMessage` called once for each message of a list.
unfoldable pub read_messages : ℕ → List ℕ → Result ReadError (List Message × List ℕ)
read_messages zero s = ok ([], s)
read_messages (suc n) s = do
  (m, s') ← read_message s
  (ms, s'') ← read_messages n s'
  ok (m ∷ ms, s'')

unfoldable pub encodes : List Message → List ℕ
encodes [] = []
encodes (m ∷ ms) = encode m ++ encodes ms

-- A connection on which sendable messages were written one after the other yields these messages,
-- in order and without losing a byte of what follows.
pub read_messages-encodes :
    (ms : List Message) (rest : List ℕ)
    → All IsSendable ms
    → read_messages (length ms) (encodes ms ++ rest) ≡ ok (ms, rest)
unfolding read_messages encodes
read_messages-encodes [] rest h = refl
read_messages-encodes (m ∷ ms) rest h = rw (
  append_assoc,
  read_message-encode m (encodes ms ++ rest) h.0,
  read_messages-encodes ms rest h.1,
)
