-- ===== src/Listener.antt =====
-- The inbound side, internal/peer/listener.go: what a peer that connects to us is sent. A connection
-- is the list of the bytes that are still to arrive, and a run of the loop is given what
-- `ShouldUnchoke` answers in each turn; writes do not fail (one that fails ends the run there).
pub mod Requests
pub mod Polite
pub mod Served
pub mod Store
mod Examples
use bit_torrent.Pieces.Bitfield.{build_bitfield}
use bit_torrent.Wire.Handshake.{HandshakeError, read_handshake, build_handshake}
use bit_torrent.Wire.Framing.{encodes}
use bit_torrent.Wire.Message.{
  Message, read_message, encode, msg_choke, msg_unchoke, msg_interested, msg_request,
  parse_request_message, PayloadError, piece_message, bitfield_message,
}
use bit_torrent.Base.{
  ℕ, ℤ, List, [], ◌∷◌, ◌++◌, ◌+◌, ◌≡◌, Bool, true, false, not, ◌&&◌, ◌==◌, ◌==ℤ◌, if◌then◌else◌,
  Option, none, some, Result, ok, err, length, leb, ◌||◌,
}

-- `PieceProvider`: what the listener serves from, and what it may rely on.
pub record PieceProvider : Type 0 where
  pub num_pieces : ℕ
  pub has_piece : ℕ → Bool
  pub read_piece : ℕ → ℕ → ℕ → Option (List ℕ)
  pub read_length :
      (i begin len : ℕ) (block : List ℕ) → read_piece i begin len ≡ some block → length block ≡ len
  pub read_has :
      (i begin len : ℕ) (block : List ℕ) → read_piece i begin len ≡ some block → has_piece i ≡ true

-- The options: the provider, whether there is a `ShouldUnchoke`, and whether the peer's address is
-- known, which both callbacks want.
pub record ListenerOptions : Type 0 where
  pub provider : Option PieceProvider
  pub has_should_unchoke : Bool
  pub known_peer : Bool

-- The connection to a peer: whether it is choked, the messages that it was sent, and the calls of
-- `OnUploaded`.
pub record Serving : Type 0 where
  pub peer_choked : Bool
  pub sent : List Message
  pub uploaded : List ℕ

unfoldable pub send : Message → Serving → Serving
send m s = record s { sent = s.sent ++ (m ∷ []) }

abbrev pub choke_message : Message
choke_message = record { id = msg_choke; payload = [] }

abbrev pub unchoke_message : Message
unchoke_message = record { id = msg_unchoke; payload = [] }

-- What a `ShouldUnchoke` that is there says is followed.
unfoldable pub follow : Bool → Serving → Serving
unfolding send
follow wanted s =
    if wanted && s.peer_choked
    then record (send unchoke_message s) { peer_choked = false }
    else if not wanted && not s.peer_choked
    then record (send choke_message s) { peer_choked = true }
    else s

abbrev pub is_judged : ListenerOptions → Bool
is_judged o = o.known_peer && o.has_should_unchoke

unfoldable pub on_interested : ListenerOptions → Bool → Serving → Serving
unfolding follow send
on_interested o wanted s =
    if is_judged o then follow wanted s else record (send unchoke_message s) { peer_choked = false }

-- A block that was read.
unfoldable pub serve_block : ListenerOptions → ℕ → ℕ → List ℕ → Serving → Serving
unfolding send
serve_block o idx begin block s = record (send (piece_message idx begin block) s) {
  uploaded = if o.known_peer then s.uploaded ++ (length block ∷ []) else s.uploaded;
}

-- What `ReadPiece` answered.
unfoldable pub answer : ListenerOptions → ℕ → ℕ → Option (List ℕ) → Serving → Serving
unfolding serve_block
answer o idx begin none s = s
answer o idx begin (some block) s = serve_block o idx begin block s

-- A request, with the provider, whether the peer is choked, and what was parsed.
unfoldable pub requested :
    ListenerOptions
    → Option PieceProvider
    → Bool
    → Result PayloadError (ℕ × ℕ × ℕ)
    → Serving
    → Serving
unfolding answer
requested o none choked r s = s
requested o (some p) true r s = s
requested o (some p) false (err e) s = s
requested o (some p) false (ok (idx, begin, len)) s =
    answer o idx begin (p.read_piece idx begin len) s

unfoldable pub on_request : ListenerOptions → List ℕ → Serving → Serving
unfolding requested
on_request o payload s = requested o o.provider s.peer_choked (parse_request_message payload) s

-- What the switch does with a message; `wanted` is what `ShouldUnchoke` says if it is asked again.
unfoldable pub on_message : ListenerOptions → Bool → Message → Serving → Serving
unfolding on_interested on_request
on_message o wanted m s =
    if m.id ==ℤ msg_interested
    then on_interested o wanted s
    else if m.id ==ℤ msg_request
    then on_request o m.payload s
    else s

unfoldable pub before_read : ListenerOptions → Bool → Serving → Serving
unfolding follow
before_read o wanted s = if is_judged o then follow wanted s else s

-- The loop, with the answers of `ShouldUnchoke` before and after the read of each turn; a run whose
-- answers are used up still waits for the peer. The bytes that are left come with it.
unfoldable pub serve : ListenerOptions → List (Bool × Bool) → List ℕ → Serving → Serving × List ℕ
unfolding before_read on_message
serve o [] conn s = (s, conn)
serve o ((wanted, again) ∷ turns) conn s =
    let ready = before_read o wanted s in
    elim (read_message conn) as (λ _. Serving × List ℕ) [
      | err e ↦ (ready, conn)
      | ok (m, rest) ↦ serve o turns rest (on_message o again m ready)
    ]

unfoldable pub bitfield_of : Option PieceProvider → List ℕ
bitfield_of none = []
bitfield_of (some p) = build_bitfield p.num_pieces p.has_piece

-- A peer that was accepted: its bitfield and that it is choked are the first messages.
unfoldable pub greeted : ListenerOptions → Serving
unfolding bitfield_of
greeted o = record {
  peer_choked = true;
  sent = bitfield_message (bitfield_of o.provider) ∷ choke_message ∷ [];
  uploaded = [];
}

-- What follows the handshake that was read: the bytes that are written, and where the serving ends.
unfoldable pub accepted :
    ListenerOptions
    → List ℕ
    → List ℕ
    → List (Bool × Bool)
    → Result HandshakeError (List ℕ × List ℕ)
    → Option (List ℕ × Serving)
unfolding serve greeted
accepted o info_hash peer_id turns (err e) = none
accepted o info_hash peer_id turns (ok (remote, rest)) =
    let s = (serve o turns rest (greeted o)).0 in
    some (build_handshake info_hash peer_id ++ encodes s.sent, s)

-- The goroutine of a connection; `none` where the handshake is refused, and nothing is written.
unfoldable pub handle_connection :
    ListenerOptions → List ℕ → List ℕ → List ℕ → List (Bool × Bool) → Option (List ℕ × Serving)
unfolding accepted
handle_connection o info_hash peer_id conn turns =
    accepted o info_hash peer_id turns (read_handshake conn info_hash)

-- `peerFromRemoteAddr`, of an address and a port.
unfoldable pub peer_from_remote_addr : Option (List ℕ × ℤ) → Option (List ℕ × ℕ)
peer_from_remote_addr none = none
peer_from_remote_addr (some (ip, ℤ.pos port)) =
    if port == 0 || leb 65536 port then none else some (ip, port)
peer_from_remote_addr (some (ip, ℤ.negsuc port)) = none
