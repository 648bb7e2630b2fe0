-- ===== src/Client.antt =====
-- cmd/torrent-client/main.go behind `main`: the lists of trackers, and the gathering of peers from
-- trackers and the DHT. `trim` is strings.TrimSpace; what trackers, the DHT and the resolver answer is
-- handed in. The pauses and the console output are left out.
pub mod Trackers
pub mod Lists
pub mod Peers
pub mod Gather
mod Examples
use bit_torrent.Pieces.Torrent.{TorrentFile}
use bit_torrent.Wire.Handshake.{codes}
use bit_torrent.Parser.{has_prefix}
use bit_torrent.Base.{
  has_text, ℕ, ℤ, pos, negsuc, zero, suc, List, [], ◌∷◌, ◌++◌, ◌+◌, Bool, true, false, not, ◌&&◌,
  ◌||◌, ◌==◌, ◌===◌, ltb, leb, if◌then◌else◌, Option, none, some, Result, ok, err, length,
}

abbrev pub all_tiers : List (List (List ℕ)) → List (List ℕ)
all_tiers [] = []
all_tiers (tier ∷ tiers) = tier ++ all_tiers tiers

abbrev pub max_magnet_trackers : ℕ
max_magnet_trackers = 6

module _ (trim : List ℕ → List ℕ) where
  -- `add` of `buildTrackerURLList`; the list also stands for the set `seen`.
  unfoldable pub add_url : List (List ℕ) → List ℕ → List (List ℕ)
  add_url list url =
      let u = trim url in
      if not (u === []) then (if not (has_text u list) then list ++ (u ∷ []) else list) else list

  unfoldable pub add_urls : List (List ℕ) → List (List ℕ) → List (List ℕ)
  unfolding add_url
  add_urls list [] = list
  add_urls list (u ∷ us) = add_urls (add_url list u) us

  -- `fallback` stands for `publicTrackerFallback`.
  unfoldable pub build_tracker_url_list : List (List ℕ) → List (List ℕ) → Bool → List (List ℕ)
  unfolding add_urls
  build_tracker_url_list fallback trackers include_public_fallback =
      let own = add_urls [] trackers in
      if include_public_fallback then add_urls own fallback else own

  unfoldable pub build_tracker_list : List (List ℕ) → TorrentFile → List (List ℕ)
  unfolding build_tracker_url_list
  build_tracker_list fallback tf =
      build_tracker_url_list fallback (tf.announce ∷ all_tiers tf.announce_list)
        (not tf.info.private)

  -- A loop that adds until the list has so many; each turn adds first.
  unfoldable pub add_until : List (List ℕ) → List (List ℕ) → List (List ℕ)
  unfolding add_url
  add_until list [] = list
  add_until list (u ∷ us) =
      let more = add_url list u in
      let rest = add_until more us in if leb max_magnet_trackers (length more) then more else rest

  -- `preferred` stands for `preferredMagnetTrackers`.
  unfoldable pub build_magnet_tracker_url_list :
      List (List ℕ) → List (List ℕ) → List (List ℕ) → List (List ℕ)
  unfolding build_tracker_url_list add_until
  build_magnet_tracker_url_list fallback preferred trackers =
      let base = build_tracker_url_list fallback trackers true in
      let prioritized = add_until [] preferred in
      if length base == 0
      then base
      else if leb max_magnet_trackers (length prioritized)
      then prioritized
      else add_until prioritized base

abbrev pub target_peers : ℕ
target_peers = 80

abbrev pub max_rounds : ℕ
max_rounds = 3

abbrev pub tracker_retries : ℕ
tracker_retries = 2

-- A peer is judged by `usable`, that it has an address and a port, and known by the text `key` of both.
module _ {Peer : Type 0} (usable : Peer → Bool) (key : Peer → List ℕ) where
  -- The loop of `dedupePeers`, with the keys of what is in `out`.
  unfoldable pub dedupe_from : List (List ℕ) → List Peer → List Peer
  dedupe_from seen [] = []
  dedupe_from seen (p ∷ ps) =
      let skipped = dedupe_from seen ps in
      let kept = dedupe_from (key p ∷ seen) ps in
      if not (usable p) then skipped else if has_text (key p) seen then skipped else p ∷ kept

  unfoldable pub dedupe_peers : List Peer → List Peer
  unfolding dedupe_from
  dedupe_peers peers = dedupe_from [] peers

  -- What a tracker answers to an attempt: for the announce over UDP and for the one over HTTP.
  pub record Answers : Type 0 where
    pub udp : ℕ → Option (List Peer)
    pub http : ℕ → Option (List Peer)

  -- The attempts from one on; none is an error.
  unfoldable pub attempts : (ℕ → Option (List Peer)) → ℕ → ℕ → Option (List Peer)
  attempts answer zero n = none
  attempts answer (suc left) n = elim (answer n) as (λ _. Option (List Peer)) [
    | some peers ↦ some peers
    | none ↦ attempts answer left (n + 1)
  ]

  unfoldable pub announce_tracker_with_retries : Answers → List ℕ → ℕ → Option (List Peer)
  unfolding attempts
  announce_tracker_with_retries answers tr retries =
      if has_prefix tr (codes "udp://")
      then attempts answers.udp retries 0
      else if has_prefix tr (codes "http://") || has_prefix tr (codes "https://")
      then attempts answers.http retries 0
      else none

  -- The trackers of a round; the loop breaks once there are enough peers.
  unfoldable pub gather_round : (List ℕ → Answers) → List (List ℕ) → List Peer → List Peer
  unfolding dedupe_peers announce_tracker_with_retries
  gather_round answers [] peers = peers
  gather_round answers (tr ∷ trs) peers =
      let skipped = gather_round answers trs peers in
      elim (announce_tracker_with_retries (answers tr) tr tracker_retries) as (λ _. List Peer) [
        | none ↦ skipped
        | some found ↦
            let more = dedupe_peers (peers ++ found) in
            let rest = gather_round answers trs more in
            if leb target_peers (length more) then more else rest
      ]

  unfoldable pub gather_rounds :
      (ℕ → List ℕ → Answers) → List (List ℕ) → ℕ → ℕ → List Peer → List Peer
  unfolding gather_round
  gather_rounds answers trs zero round peers = peers
  gather_rounds answers trs (suc left) round peers =
      let rest =
        gather_rounds answers trs left (round + 1) (gather_round (answers round) trs peers) in
      if ltb (length peers) target_peers then rest else peers

  unfoldable pub gather_peers : (ℕ → List ℕ → Answers) → List (List ℕ) → List Peer
  unfolding gather_rounds
  gather_peers answers trackers = gather_rounds answers trackers max_rounds 0 []

  -- `discoverDHTPeers`, given what the lookup of each round answers; none is an error.
  unfoldable pub dht_rounds : (ℕ → Option (List Peer)) → ℕ → ℕ → ℕ → List Peer → Option (List Peer)
  unfolding dedupe_peers
  dht_rounds answer max_peers zero i peers = if ltb 0 (length peers) then some peers else none
  dht_rounds answer max_peers (suc left) i peers = elim (answer i) as (λ _. Option (List Peer)) [
    | none ↦ dht_rounds answer max_peers left (i + 1) peers
    | some found ↦
        let more = dedupe_peers (peers ++ found) in
        let rest = dht_rounds answer max_peers left (i + 1) more in
        if leb max_peers (length more) then some more else rest
  ]

  unfoldable pub discover_dht_peers : (ℕ → Option (List Peer)) → ℕ → ℕ → Option (List Peer)
  unfolding dht_rounds
  discover_dht_peers answer rounds max_peers = dht_rounds answer max_peers rounds 0 []

-- `parsePeerAddr`; `resolve` stands for net.ResolveTCPAddr, none for an error or an address without IP.
unfoldable pub parse_peer_addr :
    (List ℕ → List ℕ) → (List ℕ → Option (List ℕ × ℤ)) → List ℕ → Option (List ℕ × ℕ)
parse_peer_addr trim resolve raw =
    let text = trim raw in
    if text === [] then none else elim (resolve text) as (λ _. Option (List ℕ × ℕ)) [
      | none ↦ none
      | some (ip, negsuc n) ↦ none
      | some (ip, pos n) ↦ if n == 0 || leb 65536 n then none else some (ip, n)
    ]
