-- ===== src/Swarm.antt =====
-- What internal/downloader/downloader.go makes of what other peers tell: peer exchange, the list of
-- trackers, the order of pieces, and the channels by which workers learn of a piece that is done.
-- `trim` is strings.TrimSpace, of which nothing is assumed.
pub mod Paths
pub mod Manager
mod Examples
use bit_torrent.Pieces.Bitfield.{bitfield_has_piece}
use bit_torrent.Wire.Handshake.{codes}
use bit_torrent.Pieces.Torrent.{TorrentFile}
use bit_torrent.Base.{
  ◌&&◌, pos, length, none, some, ltb, not, ◌||◌, ℤ, ◌==◌, ◌++◌, ◌===◌, Option, if◌then◌else◌, ◌∷◌,
  ◌+◌, [], ◌≡◌, ◌<◌, ℕ, List, false, true, Bool, ◌*◌,
}
use bit_torrent.Bencode.Value.{
  as_int, as_dict, as_string, Entries, lookup, ok, err, panic, out_of_fuel, Outcome, ◌>>=◌, Value,
  str, dict, num, list,
}
use bit_torrent.Bencode.Decode.{decode_bencode_value_dl}

-- An address of four bytes and a port.
pub record PexPeer : Type 0 where
  pub ip : List ℕ
  pub port : ℕ

unfoldable pub compact_peers : List ℕ → List PexPeer
compact_peers (a ∷ (b ∷ (c ∷ (d ∷ (e ∷ (f ∷ rest)))))) =
    let more = compact_peers rest in
    let port = e * 256 + f in
    if port == 0 then more else record { ip = a ∷ b ∷ c ∷ d ∷ []; port = port } ∷ more
compact_peers _ = []

-- A panic of the decoder goes through the callers.
unfoldable pub parse_ut_pex_peers : List ℕ → Outcome (List PexPeer)
unfolding as_string compact_peers
parse_ut_pex_peers payload = elim (decode_bencode_value_dl payload) [
  | ok (dict msg, n) ↦ elim (as_string (lookup (codes "added") msg)) [
    | none ↦ ok []
    | some added ↦ ok (compact_peers added)
  ]
  | ok (_, n) ↦ ok []
  | err e ↦ ok []
  | panic ↦ panic
  | out_of_fuel ↦ out_of_fuel
]

unfoldable pub byte_id : Option ℤ → Option ℕ
byte_id (some (pos v)) = if v == 0 || not (ltb v 256) then none else some v
byte_id _ = none

unfoldable pub parse_ut_pex_id : List ℕ → Outcome (Option ℕ)
unfolding as_dict as_int byte_id
parse_ut_pex_id payload = elim (decode_bencode_value_dl payload) [
  | ok (dict hs, n) ↦ elim (as_dict (lookup (codes "m") hs)) [
    | none ↦ ok none
    | some m ↦ ok (byte_id (as_int (lookup (codes "ut_pex") m)))
  ]
  | ok (_, n) ↦ ok none
  | err e ↦ ok none
  | panic ↦ panic
  | out_of_fuel ↦ out_of_fuel
]

-- `sanitizePathParts`: a byte of a part, and the parts.
unfoldable pub replace_separator : ℕ → ℕ
replace_separator c = if c == 0x5c || c == 0x2f then 0x5f else c

unfoldable pub replace_separators : List ℕ → List ℕ
unfolding replace_separator
replace_separators [] = []
replace_separators (c ∷ cs) = replace_separator c ∷ replace_separators cs

module _ (trim : List ℕ → List ℕ) where
  unfoldable pub sanitize_path_parts : List (List ℕ) → List (List ℕ)
  unfolding replace_separators
  sanitize_path_parts [] = []
  sanitize_path_parts (part ∷ parts) =
      let p = trim part in
      let rest = sanitize_path_parts parts in
      if p === [] || (p === codes "." || p === codes "..")
      then rest
      else replace_separators p ∷ rest

  -- `buildTrackerList`: `add` on the list, which also stands for the set `seen`.
  unfoldable pub has_tracker : List ℕ → List (List ℕ) → Bool
  has_tracker u [] = false
  has_tracker u (v ∷ vs) = v === u || has_tracker u vs

  unfoldable pub add_tracker : List (List ℕ) → List ℕ → List (List ℕ)
  unfolding has_tracker
  add_tracker seen url =
      let u = trim url in if u === [] || has_tracker u seen then seen else seen ++ (u ∷ [])

  unfoldable pub add_trackers : List (List ℕ) → List (List ℕ) → List (List ℕ)
  unfolding add_tracker
  add_trackers seen [] = seen
  add_trackers seen (u ∷ us) = add_trackers (add_tracker seen u) us

  unfoldable pub add_tiers : List (List ℕ) → List (List (List ℕ)) → List (List ℕ)
  unfolding add_trackers
  add_tiers seen [] = seen
  add_tiers seen (tier ∷ tiers) = add_tiers (add_trackers seen tier) tiers

  -- `fallback` is the constant list of public trackers.
  unfoldable pub build_tracker_list : List (List ℕ) → TorrentFile → List (List ℕ)
  unfolding add_tiers
  build_tracker_list fallback tf =
      let own = add_tiers (add_tracker [] tf.announce) tf.announce_list in
      if not tf.info.private then add_trackers own fallback else own

-- `buildRarestFirstOrder`: how many of the probed bitfields have a piece, and the order of two
-- pieces. A probe that failed gives no bitfield.
unfoldable pub availability : List (List ℕ) → ℕ → ℕ
availability [] i = 0
availability (bf ∷ bfs) i =
    (if ltb 0 (length bf) && bitfield_has_piece bf i then 1 else 0) + availability bfs i

unfoldable pub rarer : (ℕ → ℕ) → ℕ → ℕ → Bool
rarer avail i j =
    if avail i == avail j
    then ltb i j
    else if avail i == 0
    then false
    else if avail j == 0
    then true
    else ltb (avail i) (avail j)

-- `completionBus`: the subscribed channels by piece, each with the signals that it holds; a channel
-- has room for one.
pub record Subscription : Type 0 where
  pub piece : ℕ
  pub channel : ℕ

pub record CompletionBus : Type 0 where
  pub subs : List Subscription
  pub signalled : List ℕ
  pub next : ℕ

unfoldable pub new_completion_bus : CompletionBus
new_completion_bus = record { subs = []; signalled = []; next = 0 }

unfoldable pub subscribe : ℕ → CompletionBus → CompletionBus × ℕ
subscribe i b = (
  record b { subs = b.subs ++ (record { piece = i; channel = b.next } ∷ []); next = b.next + 1 },
  b.next,
)

unfoldable pub channels_of : ℕ → List Subscription → List ℕ
channels_of i [] = []
channels_of i (s ∷ ss) =
    let rest = channels_of i ss in if s.piece == i then s.channel ∷ rest else rest

unfoldable pub without : ℕ → List Subscription → List Subscription
without i [] = []
without i (s ∷ ss) = let rest = without i ss in if s.piece == i then rest else s ∷ rest

unfoldable pub complete : ℕ → CompletionBus → CompletionBus
unfolding channels_of without
complete i b = record b { subs = without i b.subs; signalled = b.signalled ++ channels_of i b.subs }
