-- ===== src/Download/State.antt =====
-- What the goroutines of `DownloadTorrentWithOptions` share, and where a worker stands.
use bit_torrent.Pieces.Geometry.{num_pieces, piece_length_at}
use bit_torrent.Pieces.Torrent.{TorrentInfo}
use bit_torrent.Pool.{
  choked, protocol, general, release, update, FailureClass, Entry, tune_inflight_on_success,
}
use bit_torrent.Transfer.{Failure}
use bit_torrent.Swarm.{CompletionBus}
use bit_torrent.Base.{
  none, get_or, some, ◌⊎◌, ◌||◌, get_elem?, ◌===◌, if◌then◌else◌, Option, ◌∷◌, ◌+◌, [], ◌≡◌, ℕ,
  List, false, Bool, ◌*◌,
}

abbrev pub max_piece_attempts : ℕ
max_piece_attempts = 12

abbrev pub max_pieces_per_session : ℕ
max_pieces_per_session = 32

abbrev pub endgame_threshold : ℕ
endgame_threshold = 12

abbrev pub session_pool_size : ℕ
session_pool_size = 64

-- `peerSession`: the key of its peer in the pool, and what the transfer of a piece starts from.
pub record Session : Type 0 where
  pub key : List ℕ
  pub bitfield : List ℕ
  pub ut_pex_id : ℕ
  pub window : ℕ
  pub served : ℕ

-- Where a worker stands, with its session if it has one: at the head of its loop; before an attempt
-- at a piece; in the transfer; with a piece that is to be written; that is written; that it has
-- marked as completed, then signalled on the bus, then taken off the wait group; about to put a piece
-- back into the queue; and past its end.
pub data Worker : Type 0 where
  idle : Option Session → Worker
  trying : ℕ → ℕ → Option Session → Worker
  downloading : ℕ → ℕ → Session → Worker
  writing : ℕ → ℕ → Session → List ℕ → Worker
  written : ℕ → Session → List ℕ → Worker
  marked : ℕ → Session → List ℕ → Worker
  signalled : ℕ → Session → List ℕ → Worker
  waited : Session → List ℕ → Worker
  requeueing : ℕ → Option Session → Worker
  stopped : Worker

-- What the goroutines share: the queue of pieces, the flags, the data file, `pieceWG`, the counters,
-- whether the endgame has begun and the context is cancelled, the bus, the pool, the peers that
-- connectors are dialling, and the sessions that are ready.
pub record Download (Peer : Type 0) : Type 0 where
  pub queue : List ℕ
  pub completed : List Bool
  pub file : List ℕ
  pub wait : ℕ
  pub completed_count : ℕ
  pub downloaded_bytes : ℕ
  pub endgame : Bool
  pub cancelled : Bool
  pub bus : CompletionBus
  pub pool : List (Entry Peer)
  pub dialling : List (List ℕ)
  pub ready : List Session
  pub workers : List Worker

-- The peer of a session, put back into the pool.
abbrev pub release_session :
    {Peer : Type 0} → Option Session → List (Entry Peer) → List (Entry Peer)
release_session none pool = pool
release_session (some s) pool = release s.key pool

-- The class of a failed transfer: by the text of the error, or, where the network failed, any.
abbrev pub HasClass : Failure → FailureClass → Type 0
HasClass Failure.peer_missing_piece class = class ≡ general
HasClass Failure.send_failed class = Unit {0}
HasClass Failure.read_failed class = Unit {0}
HasClass Failure.invalid_payload class = class ≡ protocol
HasClass Failure.short_block class = class ≡ general
HasClass Failure.peer_choked class = class ≡ choked
HasClass Failure.hash_mismatch class = class ≡ FailureClass.hash_mismatch
HasClass Failure.piece_cancelled_by_other class = ⊥

abbrev pub remove_one : List ℕ → List (List ℕ) → List (List ℕ)
remove_one k [] = []
remove_one k (j ∷ js) = if j === k then js else j ∷ remove_one k js

abbrev pub served_more : Session → Session
served_more s = record s { served = s.served + 1 }

-- `tuneInflightOnSuccess` on a session.
abbrev pub tuned : Session → ℕ → Session
tuned s latency = record s { window = tune_inflight_on_success latency s.window }

abbrev pub contains : List (List ℕ) → List ℕ → Bool
contains [] k = false
contains (j ∷ js) k = j === k || contains js k

-- An entry of the pool, and the pool when its peer is taken.
abbrev pub Holds : {Peer : Type 0} → Entry Peer → List (Entry Peer) → Type 0
Holds e [] = ⊥
Holds e (x ∷ xs) = (e ≡ x) ⊎ Holds e xs

abbrev pub occupy : {Peer : Type 0} → List ℕ → List (Entry Peer) → List (Entry Peer)
occupy k pool = update k (λ e. record e { available = false }) pool

abbrev pub At : {A : Type 0} → List A → ℕ → A → Type 0
At xs k x = get_elem? xs k ≡ some x

abbrev pub queue_capacity : TorrentInfo → ℕ
queue_capacity t = num_pieces t * 2

-- The pieces of an order that are not completed, and the bytes of those that are, from piece `i` on.
unfoldable pub missing : List Bool → List ℕ → List ℕ
missing completed [] = []
missing completed (i ∷ is) =
    if get_or completed i false then missing completed is else i ∷ missing completed is

unfoldable pub bytes_of : TorrentInfo → List Bool → ℕ → ℕ
bytes_of t [] i = 0
bytes_of t (b ∷ bs) i = (if b then piece_length_at t i else 0) + bytes_of t bs (i + 1)
