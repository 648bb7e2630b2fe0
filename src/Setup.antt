-- ===== src/Setup.antt =====
-- `newPeerSession` of internal/downloader/downloader.go: the handshake with a peer, and the messages
-- until it unchokes. A connection is the list of the bytes that are still to arrive; dialling, the
-- deadline and failing writes are left to the network. `marshalled` is what bencode.Marshal makes of
-- the extended handshake, none for an error.
pub mod Unchoked
mod Examples
use Prim.Native.Nat.{suc, zero}
use bit_torrent.Download.{Session}
use bit_torrent.Pieces.Bitfield.{set_bitfield_piece}
use bit_torrent.Wire.Payloads.{parse_have_index}
use bit_torrent.Wire.Handshake.{handshake_extended}
use bit_torrent.Wire.Message.{
  Message, read_message, interested_message, msg_bitfield, msg_have, msg_extended, msg_unchoke,
  msg_choke,
}
use bit_torrent.Swarm.{PexPeer, parse_ut_pex_peers, parse_ut_pex_id}
use bit_torrent.Bencode.Value.{Outcome}
use bit_torrent.Base.{
  ℕ, List, [], ◌∷◌, ◌++◌, Bool, ◌&&◌, ◌==◌, ◌==ℤ◌, ltb, get_or, drop, length, if◌then◌else◌, Option,
  none, some, ok, err,
}

abbrev pub default_inflight_peer : ℕ
default_inflight_peer = 8

abbrev pub max_setup_messages : ℕ
max_setup_messages = 40

pub data SetupError : Type 0 where
  handshake_failed setup_read peer_choked not_unchoked : SetupError

-- A session with the peers discovered and what is left on the connection, an error, or a panic of the
-- bencode decoder.
pub data Setup : Type 0 where
  ready : Session → List PexPeer → List ℕ → Setup
  refused : SetupError → Setup
  panicked : Setup

-- What goes on with the session and the peers discovered.
unfoldable pub with_id :
    Outcome (Option ℕ) → (Session → List PexPeer → Setup) → Session → List PexPeer → Setup
with_id (Outcome.ok (some i)) next s found = next (record s { ut_pex_id = i }) found
with_id (Outcome.ok none) next s found = next s found
with_id (Outcome.err e) next s found = next s found
with_id Outcome.panic next s found = panicked
with_id Outcome.out_of_fuel next s found = next s found

unfoldable pub with_peers :
    Outcome (List PexPeer) → (Session → List PexPeer → Setup) → Session → List PexPeer → Setup
with_peers (Outcome.ok ps) next s found = next s (found ++ ps)
with_peers (Outcome.err e) next s found = next s found
with_peers Outcome.panic next s found = panicked
with_peers Outcome.out_of_fuel next s found = next s found

unfoldable pub on_extended :
    List ℕ → (Session → List PexPeer → Setup) → Session → List PexPeer → Setup
unfolding with_id with_peers
on_extended payload next s found =
    if ltb (length payload) 2
    then next s found
    else if get_or payload 0 0 == 0
    then with_id (parse_ut_pex_id (drop 1 payload)) next s found
    else if ltb 0 s.ut_pex_id && get_or payload 0 0 == s.ut_pex_id
    then with_peers (parse_ut_pex_peers (drop 1 payload)) next s found
    else next s found

unfoldable pub have_piece : List ℕ → Session → Session
have_piece payload s = elim (parse_have_index payload) as (λ _. Session) [
  | none ↦ s
  | some i ↦ record s { bitfield = set_bitfield_piece s.bitfield i }
]

-- The switch on a message, with what is left on the connection behind it.
unfoldable pub on_setup :
    Message → List ℕ → (Session → List PexPeer → Setup) → Session → List PexPeer → Setup
unfolding on_extended have_piece
on_setup m rest next s found =
    if m.id ==ℤ msg_bitfield
    then next (record s { bitfield = m.payload }) found
    else if m.id ==ℤ msg_have
    then next (have_piece m.payload s) found
    else if m.id ==ℤ msg_extended
    then on_extended m.payload next s found
    else if m.id ==ℤ msg_unchoke
    then ready s found rest
    else if m.id ==ℤ msg_choke
    then refused peer_choked
    else next s found

unfoldable pub setup_loop : ℕ → List ℕ → Session → List PexPeer → Setup
unfolding on_setup
setup_loop zero conn s found = refused not_unchoked
setup_loop (suc left) conn s found = elim (read_message conn) as (λ _. Setup) [
  | err e ↦ refused setup_read
  | ok (m, rest) ↦ on_setup m rest (λ t more. setup_loop left rest t more) s found
]

-- What is written behind the handshake: that we are interested, and to a peer that has extensions what
-- extensions we have.
unfoldable pub setup_messages : Bool → Option (List ℕ) → List Message
setup_messages supports_ext marshalled =
    let hello = elim marshalled as (λ _. List Message) [
      | none ↦ []
      | some b ↦ record { id = msg_extended; payload = 0 ∷ b } ∷ []
    ] in
    interested_message ∷ (if supports_ext then hello else [])

-- What is written, and how it ends.
unfoldable pub new_peer_session :
    List ℕ → List ℕ → List ℕ → Option (List ℕ) → List ℕ → List ℕ × List Message × Setup
unfolding setup_loop setup_messages
new_peer_session key info_hash peer_id marshalled conn =
    let (sent, answer) = handshake_extended conn info_hash peer_id in
    let fresh : Session = record {
      key = key;
      bitfield = [];
      ut_pex_id = 0;
      window = default_inflight_peer;
      served = 0;
    } in
    elim answer as (λ _. List ℕ × List Message × Setup) [
      | err e ↦ (sent, [], refused handshake_failed)
      | ok (remote, supports_ext, rest) ↦ (
        sent,
        setup_messages supports_ext marshalled,
        setup_loop max_setup_messages rest fresh [],
      )
    ]
