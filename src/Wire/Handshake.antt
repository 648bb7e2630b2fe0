-- ===== src/Wire/Handshake.antt =====
-- The 68-byte handshake of protocol.go, and its twin `handshakeWithExtBit` in
-- internal/protocol/metadata.go. An info hash and a peer ID are lists of twenty bytes.
pub mod Exchange
use Prim.Native.Nat.{bit_and}
use Prim.Native.Char.{code}
use Prim.Native.String
use Prim.Native.String.{String}
use bit_torrent.Wire.Bytes.{read_full, ReadError}
use bit_torrent.Base.{
  err, ◌||◌, ◌===◌, ◌&&◌, ◌==◌, not, get_or, ok, guard, drop, ◌>>=◌, ◌>>◌, ◌-◌, Bool, Result, take,
  replicate, ℕ, ◌+◌, ◌<◌, ◌≡◌, refl, List, [], ◌∷◌, ◌++◌, arith,
}

-- The bytes of an ASCII text.
abbrev pub codes : String → List ℕ
codes String.[] = []
codes (String.◌∷◌ c s) = code c ∷ codes s

abbrev pub handshake_pstr : List ℕ
handshake_pstr = codes "BitTorrent protocol"

abbrev pub handshake_len : ℕ
handshake_len = 68

-- Eight reserved bytes that are all zero, and those with the extension bit of BEP 10.
abbrev pub no_extensions : List ℕ
no_extensions = replicate 8 0

abbrev pub extension_bit : List ℕ
extension_bit = 0 ∷ 0 ∷ 0 ∷ 0 ∷ 0 ∷ 0x10 ∷ 0 ∷ 0 ∷ []

abbrev pub zero_hash : List ℕ
zero_hash = replicate 20 0

unfoldable pub build_handshake_with_reserved : List ℕ → List ℕ → List ℕ → List ℕ
build_handshake_with_reserved info_hash peer_id reserved =
    19 ∷ (handshake_pstr ++ (reserved ++ (info_hash ++ peer_id)))

unfoldable pub build_handshake : List ℕ → List ℕ → List ℕ
build_handshake info_hash peer_id = build_handshake_with_reserved info_hash peer_id no_extensions

pub data HandshakeError : Type 0 where
  receive_failed invalid_protocol_name unexpected_info_hash : HandshakeError

-- A slice `b[from:to]`.
abbrev pub slice : ℕ → ℕ → List ℕ → List ℕ
slice from to b = take (to - from) (drop from b)

-- The checks on the 68 bytes, and the peer ID and the reserved bytes.
unfoldable pub check_handshake : List ℕ → List ℕ → Result HandshakeError (List ℕ × List ℕ)
check_handshake response expected = do
  guard (get_or response 0 0 == 19 && slice 1 20 response === handshake_pstr) invalid_protocol_name
  guard (expected === zero_hash || slice 28 48 response === expected) unexpected_info_hash
  ok (slice 48 68 response, slice 20 28 response)

received : Result ReadError (List ℕ × List ℕ) → Result HandshakeError (List ℕ × List ℕ)
received (ok r) = ok r
received (err e) = err receive_failed

-- `ReadHandshakeFull`: the peer ID, the reserved bytes, and what is left on the connection.
unfoldable pub read_handshake_full :
    List ℕ → List ℕ → Result HandshakeError (List ℕ × List ℕ × List ℕ)
unfolding received
read_handshake_full conn expected = do
  (response, rest) ← received (read_full handshake_len conn)
  (peer_id, reserved) ← check_handshake response expected
  ok (peer_id, reserved, rest)

unfoldable pub read_handshake : List ℕ → List ℕ → Result HandshakeError (List ℕ × List ℕ)
read_handshake conn expected = do
  (peer_id, reserved, rest) ← read_handshake_full conn expected
  ok (peer_id, rest)

-- `Handshake` and `HandshakeExtended`: the bytes that they write, and what they answer. A failing
-- write ends them before the read.
unfoldable pub handshake :
    List ℕ → List ℕ → List ℕ → List ℕ × Result HandshakeError (List ℕ × List ℕ)
handshake conn info_hash peer_id =
    (build_handshake info_hash peer_id, read_handshake conn info_hash)

unfoldable pub handshake_extended :
    List ℕ → List ℕ → List ℕ → List ℕ × Result HandshakeError (List ℕ × Bool × List ℕ)
handshake_extended conn info_hash peer_id = (
  build_handshake_with_reserved info_hash peer_id extension_bit,
  do
    (remote, reserved, rest) ← read_handshake_full conn info_hash
    ok (remote, not (bit_and (get_or reserved 5 0) 0x10 == 0), rest),
)

-- `handshakeWithExtBit` writes the same bytes, and does not look at the info hash of the answer.
unfoldable pub handshake_with_ext_bit :
    List ℕ → List ℕ → List ℕ → List ℕ × Result HandshakeError (List ℕ × Bool × List ℕ)
unfolding received
handshake_with_ext_bit conn info_hash peer_id = (
  19 ∷ (handshake_pstr ++ (extension_bit ++ (info_hash ++ peer_id))),
  do
    (resp, rest) ← received (read_full 68 conn)
    guard (get_or resp 0 0 == 19 && slice 1 20 resp === handshake_pstr) invalid_protocol_name
    ok (slice 48 68 resp, not (bit_and (get_or resp 25 0) 0x10 == 0), rest),
)
