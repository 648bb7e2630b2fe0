-- ===== src/Wire/Reading.antt =====
-- What `ReadMessage` does with bytes that nobody promised to be a message.
use bit_torrent.Base.{
  ℕ, ◌≤◌, ◌<◌, ◌≡◌, refl, sym, ap, ◌∙◌, List, [], ◌∷◌, ◌++◌, arith, ltb, ◌==◌, length, All, ok, err,
  bind_inv, pos, Result-cases, ◌≢◌, ◌⊎◌, inl, inr, get_or, drop, subst, append_assoc, append-nil,
  Bool-cases,
}
use bit_torrent.Wire.Bytes.{
  IsByte, IsU32, ReadError, short_read, too_large, put_uint32, uint32, read_full, read_full_lem,
  read_full-later, put_uint32-bytes,
}
use bit_torrent.Wire.Message.{
  Message, max_message_size, encode, read_body, read_message, msg_keep_alive,
}
use bit_torrent.Wire.Framing.{
  read_message-encode, read_body_zero, IsSendable, read_message_split, encode_plain,
}

-- Four bytes are the encoding of the number that they stand for.
put_uint32-uint32 : (b : List ℕ) → length b ≡ 4 → All IsByte b → put_uint32 (uint32 b) ≡ b
unfolding uint32
put_uint32-uint32 (a ∷ b ∷ c ∷ d ∷ []) h (ha, (hb, (hc, (hd, _)))) =
    put_uint32-bytes a b c d ha hb hc hd
put_uint32-uint32 [] h k = absurd (omega arith)
put_uint32-uint32 (a ∷ []) h k = absurd (omega arith)
put_uint32-uint32 (a ∷ b ∷ []) h k = absurd (omega arith)
put_uint32-uint32 (a ∷ b ∷ c ∷ []) h k = absurd (omega arith)
put_uint32-uint32 (a ∷ b ∷ c ∷ d ∷ e ∷ r) h k = absurd (omega arith)

All-append_left : (xs ys : List ℕ) → All IsByte (xs ++ ys) → All IsByte xs
All-append_left [] ys h = tt
All-append_left (x ∷ xs) ys h = (h.0, All-append_left xs ys h.1)

All-append_right : (xs ys : List ℕ) → All IsByte (xs ++ ys) → All IsByte ys
All-append_right [] ys h = h
All-append_right (x ∷ xs) ys h = All-append_right xs ys h.1

abbrev message_of : List ℕ → Message
message_of p = record { id = pos (get_or p 0 0); payload = drop 1 p }

-- The two ways in which reading a body succeeds.
abbrev Body : ℕ → List ℕ → Message → List ℕ → Type 0
Body len s m rest =
    ((len ≡ 0) × (m ≡ record { id = msg_keep_alive; payload = [] }) × (rest ≡ s))
    ⊎ ((p : List ℕ) × (len ≢ 0)
        × (len ≤ max_message_size)
        × (read_full len s ≡ ok (p, rest))
        × (m ≡ message_of p))

read_body-Body :
    (len : ℕ) (s rest : List ℕ) (m : Message) → read_body len s ≡ ok (m, rest) → Body len s m rest
unfolding read_body
read_body-Body len s rest m h = elim (Bool-cases (len == 0)) [
  | inl z ↦ inl (ground arith, ground arith, ground arith)
  | inr nz ↦ elim (Bool-cases (ltb max_message_size len)) [
    | inl big ↦ absurd (ground arith)
    | inr fits ↦
        let (a, e, q) =
          bind_inv (read_full len s) (λ r. ok (message_of r.0, r.1)) (rw (nz, fits) at h) in
        inr (a.0, ground arith, ground arith, ground arith, ground arith)
  ]
]

encode_body :
    (len : ℕ) (p : List ℕ)
    → length p ≡ len
    → len ≢ 0
    → len ≤ max_message_size
    → All IsByte p
    → encode (message_of p) ≡ put_uint32 len ++ p
encode_body len [] e n h k = absurd (n (sym e))
encode_body len (i ∷ p) e n h k =
    encode_plain i p k.0 (omega arith) ∙ ap (λ v. put_uint32 v ++ (i ∷ p)) e

encode-keep_alive : encode (record { id = msg_keep_alive; payload = [] }) ≡ put_uint32 0
unfolding encode put_uint32
encode-keep_alive = refl

Body-encode :
    (len : ℕ) (s rest : List ℕ) (m : Message)
    → All IsByte s
    → Body len s m rest
    → encode m ++ rest ≡ put_uint32 len ++ s
Body-encode len s rest m h (inl (z, k, e)) = rw (k, z, e, encode-keep_alive)
Body-encode len s rest m h (inr (p, n, le, e, k)) =
    let (split, size) = read_full_lem len s p rest e in
    let bytes : All IsByte p = All-append_left p rest (subst (All IsByte) split h) in
    rw (k, encode_body len p size n le bytes, append_assoc) (ap (◌++◌ (put_uint32 len)) (sym split))

-- Whatever `ReadMessage` accepts is the encoding of the message that it returns: nothing is
-- skipped, and the rest of the connection is untouched.
pub encode-read_message :
    (s rest : List ℕ) (m : Message)
    → All IsByte s
    → read_message s ≡ ok (m, rest)
    → encode m ++ rest ≡ s
unfolding read_message
encode-read_message s rest m h e =
    let (r, front, body) = bind_inv (read_full 4 s) (λ r. read_body (uint32 r.0) r.1) e in
    let (split, size) = read_full_lem 4 s r.0 r.1 front in
    let bytes : All IsByte (r.0 ++ r.1) = subst (All IsByte) split h in
    Body-encode (uint32 r.0) r.1 rest m (All-append_right r.0 r.1 bytes)
      (read_body-Body (uint32 r.0) r.1 rest m body)
    ∙ ap (λ b. b ++ r.1) (put_uint32-uint32 r.0 size (All-append_left r.0 r.1 bytes))
    ∙ sym split

-- A length prefix above the limit is refused whatever follows it, before a body is read.
pub read_message-too_large :
    (v : ℕ) (s : List ℕ)
    → IsU32 v
    → max_message_size < v
    → read_message (put_uint32 v ++ s) ≡ err too_large
unfolding read_body
read_message-too_large v s h k = read_message_split v s h ∙ ground arith

read_body-later :
    (len : ℕ) (s more rest : List ℕ) (m : Message)
    → read_body len s ≡ ok (m, rest)
    → read_body len (s ++ more) ≡ ok (m, rest ++ more)
read_body-later len s more rest m h = elim (read_body-Body len s rest m h) [
  | inl (z, k, e) ↦ rw (z, k, e) (read_body_zero (s ++ more))
  | inr (p, n, le, e, k) ↦
      rw k (unfold read_body in ground (arith, read_full-later len s more p rest e))
]

-- Bytes that arrive later do not change a message that has been read.
pub read_message-later :
    (s more rest : List ℕ) (m : Message)
    → read_message s ≡ ok (m, rest)
    → read_message (s ++ more) ≡ ok (m, rest ++ more)
unfolding read_message
read_message-later s more rest m h =
    let (r, front, body) = bind_inv (read_full 4 s) (λ r. read_body (uint32 r.0) r.1) h in
    rw (read_full-later 4 s more r.0 r.1 front) (read_body-later (uint32 r.0) r.1 more rest m body)

read_full-err : (n : ℕ) (s : List ℕ) (x : ReadError) → read_full n s ≡ err x → x ≡ short_read
unfolding read_full
read_full-err n s x h = ground arith

-- A length prefix above the limit is an error also if more bytes arrive.
read_message-too_large_later :
    (s more : List ℕ) → read_message s ≡ err too_large → read_message (s ++ more) ≡ err too_large
unfolding read_message
read_message-too_large_later s more h = elim (Result-cases (read_full 4 s)) [
  | inl (r, e) ↦
      rw (read_full-later 4 s more r.0 r.1 e)
        (too_large_body (uint32 r.0) r.1 (r.1 ++ more) (rw e at h))
  | inr (x, e) ↦ absurd (cc (e, read_full-err 4 s x e, h))
]
  where
    too_large_body :
        (len : ℕ) (b b' : List ℕ)
        → read_body len b ≡ err too_large
        → read_body len b' ≡ err too_large
    too_large_body len b b' k = unfold read_body read_full in ground arith

-- A proper prefix of an encoded message is a short read: it is never taken for another message,
-- nor for one above the limit.
pub read_message_truncated :
    (m : Message) (x : ℕ) (front back : List ℕ)
    → IsSendable m
    → encode m ≡ front ++ (x ∷ back)
    → read_message front ≡ err short_read
read_message_truncated m x front back h e = elim (Result-cases (read_message front)) [
  | inl (r, k) ↦ absurd (nonempty r.1 (cc (whole, read_message-later front (x ∷ back) r.1 r.0 k)))
  | inr (short_read, k) ↦ k
  | inr (too_large, k) ↦ absurd (cc (whole, read_message-too_large_later front (x ∷ back) k))
]
  where
    whole : read_message (front ++ (x ∷ back)) ≡ ok (m, [])
    whole = rw (append-nil, e) at (read_message-encode m [] h)

    nonempty : (r : List ℕ) → r ++ (x ∷ back) ≢ []
    nonempty [] = cc
    nonempty (y ∷ r) = cc
