-- ===== src/Dht/Query.antt =====
-- internal/dht/dht.go: `krpcGetPeers`, one get_peers query and what is made of its answer.
use bit_torrent.Dht.{Candidate, node}
use bit_torrent.Tracker.{Peer}
use bit_torrent.Wire.Handshake.{codes, slice}
use bit_torrent.Bencode.Value.{Value, str, dict, end, entry}
use bit_torrent.Base.{
  zero, suc, leb, get_or, ℕ, List, [], ◌∷◌, ◌+◌, ◌*◌, Bool, true, false, not, ◌&&◌, ◌==◌, ◌===◌,
  if◌then◌else◌, Option, none, some, Result, ok, err, guard, ◌>>=◌, ◌>>◌, length, take,
}

-- The decoded answer; `values` is none for a nil slice.
pub record KrpcResponse : Type 0 where
  pub y : List ℕ
  pub values : Option (List (List ℕ))
  pub nodes : List ℕ

pub data KrpcError : Type 0 where
  no_address no_dial no_marshal no_write no_read no_unmarshal error_response missing_r : KrpcError

-- What the network and the bencode package do, for one address: none is an error.
pub record Exchange : Type 0 where
  pub resolves : Bool
  pub dials : Bool
  pub marshal : Value → Option (List ℕ)
  pub writes : List ℕ → Bool
  pub read : Option (List ℕ)
  pub unmarshal : List ℕ → Option KrpcResponse

-- The query as the map that is marshalled.
unfoldable pub query : List ℕ → List ℕ → List ℕ → Value
query tx_id local_id info_hash = dict (
    entry (codes "t") (str tx_id) (
      entry (codes "y") (str (codes "q")) (
        entry (codes "q") (str (codes "get_peers")) (
          entry (codes "a")
            (dict
              (entry (codes "id") (str local_id) (entry (codes "info_hash") (str info_hash) end)))
            end))))

-- The loop over `values`.
unfoldable pub parse_values : List (List ℕ) → List Peer
parse_values [] = []
parse_values ((a ∷ (b ∷ (c ∷ (d ∷ (e ∷ (f ∷ [])))))) ∷ vs) =
    record { ip = a ∷ b ∷ c ∷ d ∷ []; port = e * 256 + f } ∷ parse_values vs
parse_values (_ ∷ vs) = parse_values vs

-- The loop over `nodes`, with `i` as `at`, for so many turns.
unfoldable pub nodes_from : (List ℕ → ℕ → List ℕ) → ℕ → ℕ → List ℕ → List Candidate
nodes_from host_port zero at bytes = []
nodes_from host_port (suc left) at bytes =
    let rest = nodes_from host_port left (at + 26) bytes in
    let port = get_or bytes (at + 24) 0 * 256 + get_or bytes (at + 25) 0 in
    let addr = host_port (slice (at + 20) (at + 24) bytes) port in
    if leb (at + 26) (length bytes)
    then (if port == 0 then rest else node (slice at (at + 20) bytes) addr ∷ rest)
    else []

unfoldable pub parse_nodes : (List ℕ → ℕ → List ℕ) → List ℕ → List Candidate
unfolding nodes_from
parse_nodes host_port bytes = nodes_from host_port (suc (length bytes)) 0 bytes

unfoldable pub answer_of :
    (List ℕ → ℕ → List ℕ) → KrpcResponse → Result KrpcError (List Peer × List Candidate)
unfolding parse_values parse_nodes
answer_of host_port msg =
    let values = elim msg.values as (λ _. List (List ℕ)) [ none ↦ [] | some vs ↦ vs ] in
    let is_nil = elim msg.values as (λ _. Bool) [ none ↦ true | some vs ↦ false ] in
    do
      guard (not (msg.y === codes "e")) error_response
      guard (not (is_nil && msg.nodes === [])) missing_r
      ok (parse_values values, parse_nodes host_port msg.nodes)

abbrev pub or_fail : {A : Type 0} → Option A → KrpcError → Result KrpcError A
or_fail none e = err e
or_fail (some a) e = ok a

-- A datagram is cut off after 65535 bytes.
unfoldable pub krpc_get_peers :
    (List ℕ → ℕ → List ℕ)
    → Exchange
    → List ℕ
    → List ℕ
    → List ℕ
    → Result KrpcError (List Peer × List Candidate)
unfolding query answer_of
krpc_get_peers host_port net tx_id local_id info_hash = do
  guard net.resolves no_address
  guard net.dials no_dial
  buf ← or_fail (net.marshal (query tx_id local_id info_hash)) no_marshal
  guard (net.writes buf) no_write
  resp ← or_fail net.read no_read
  msg ← or_fail (net.unmarshal (take 65535 resp)) no_unmarshal
  answer_of host_port msg
