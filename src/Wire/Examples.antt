-- ===== src/Wire/Examples.antt =====
-- Messages and handshakes on concrete bytes.
use bit_torrent.Wire.Handshake.Exchange.{build-read_handshake_full, read_handshake_full-build}
use bit_torrent.Wire.Reading.{encode-read_message}
use bit_torrent.Wire.Bytes.{uint32, read_full, put_uint32}
use bit_torrent.Wire.Handshake.{
  codes, extension_bit, build_handshake_with_reserved, read_handshake_full,
}
use bit_torrent.Base.{inl, arith, refl, inr, replicate, ok, [], ◌∷◌, ℕ, ◌++◌, ◌≡◌, List}
use bit_torrent.Wire.Framing.{read_messages-encodes, IsSendable, encodes, read_messages}
use bit_torrent.Wire.Message.{
  interested_message, read_body, msg_keep_alive, read_message, encode, have_message, Message,
}

abbrev have_three : Message
have_three = have_message 3

abbrev keep_alive : Message
keep_alive = record { id = msg_keep_alive; payload = [] }

have_three-IsSendable : IsSendable have_three
unfolding have_message put_uint32
have_three-IsSendable = inr (4, refl, omega arith, omega arith)

-- ---- Runs.

encode_have : encode have_three ≡ 0 ∷ 0 ∷ 0 ∷ 5 ∷ 4 ∷ 0 ∷ 0 ∷ 0 ∷ 3 ∷ []
unfolding encode have_message put_uint32
encode_have = refl

encode-keep_alive : encode keep_alive ≡ 0 ∷ 0 ∷ 0 ∷ 0 ∷ []
unfolding encode
encode-keep_alive = refl

-- ---- Witnesses.

read_messages-encodes_example :
    read_messages 2 (encodes (have_three ∷ keep_alive ∷ []) ++ (7 ∷ []))
    ≡ ok (have_three ∷ keep_alive ∷ [], 7 ∷ [])
read_messages-encodes_example =
    read_messages-encodes (have_three ∷ keep_alive ∷ []) (7 ∷ [])
      (have_three-IsSendable, (inl refl, tt))

abbrev interested_bytes : List ℕ
interested_bytes = 0 ∷ 0 ∷ 0 ∷ 1 ∷ 2 ∷ 9 ∷ []

read_interested : read_message interested_bytes ≡ ok (interested_message, 9 ∷ [])
unfolding read_message read_body read_full uint32 interested_message
read_interested = refl

encode-read_message_example : encode interested_message ++ (9 ∷ []) ≡ interested_bytes
encode-read_message_example =
    encode-read_message interested_bytes (9 ∷ []) interested_message (omega arith) read_interested

abbrev one_byte : List ℕ
one_byte = 1 ∷ []

abbrev info_hash : List ℕ
info_hash = replicate 20 1

abbrev peer_id : List ℕ
peer_id = codes "-GT0001-abcdefghijkl"

read_handshake_full-build_example :
    read_handshake_full
      (build_handshake_with_reserved info_hash peer_id extension_bit ++ [])
      info_hash
    ≡ ok (peer_id, extension_bit, [])
read_handshake_full-build_example =
    read_handshake_full-build info_hash peer_id extension_bit info_hash [] refl refl refl (inl refl)

build-read_handshake_full_example :
    build_handshake_with_reserved info_hash peer_id extension_bit ++ []
    ≡ build_handshake_with_reserved info_hash peer_id extension_bit ++ []
build-read_handshake_full_example =
    build-read_handshake_full (build_handshake_with_reserved info_hash peer_id extension_bit ++ [])
      info_hash peer_id extension_bit [] (λ e. cc) read_handshake_full-build_example
