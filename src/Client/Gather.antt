-- ===== src/Client/Gather.antt =====
-- `gatherPeers` and `discoverDHTPeers`: the peers they return.
use bit_torrent.Client.Peers.{ArePeers, dedupe_peers-ArePeers, dedupe_peers-All}
use bit_torrent.Client.{
  Answers, attempts, announce_tracker_with_retries, gather_round, gather_rounds, gather_peers,
  dht_rounds, discover_dht_peers, dedupe_peers, target_peers, tracker_retries, max_rounds,
}
use bit_torrent.Wire.Handshake.{codes}
use bit_torrent.Parser.{has_prefix}
use bit_torrent.Base.{
  ℕ, zero, suc, List, [], ◌∷◌, ◌++◌, ◌+◌, ◌<◌, ltb→lt, Bool, ◌||◌, ltb, leb, length, if◌then◌else◌,
  Option, none, some, All, All-append, inl, inr, Bool-cases, arith,
}

module _ {Peer : Type 0} (usable : Peer → Bool) (key : Peer → List ℕ) (P : Peer → Type 0) where
  -- An answer with peers of which the predicate holds.
  abbrev pub IsAnswer : Option (List Peer) → Type 0
  IsAnswer none = Unit {0}
  IsAnswer (some ps) = All P ps

  -- Peers that are usable, distinct, and of which the predicate holds.
  abbrev pub AreGood : List Peer → Type 0
  AreGood ps = ArePeers usable key ps × All P ps

  none_good : AreGood []
  none_good = ((tt, tt), tt)

  joined :
      (peers found : List Peer)
      → AreGood peers
      → All P found
      → AreGood (dedupe_peers usable key (peers ++ found))
  joined peers found g h = (
    (dedupe_peers-ArePeers usable key (peers ++ found)).0,
    dedupe_peers-All usable key P (peers ++ found) (All-append P peers found g.1 h),
  )

  attempts-IsAnswer :
      (answer : ℕ → Option (List Peer)) (left n : ℕ)
      → ((n : ℕ) → IsAnswer (answer n))
      → IsAnswer (attempts usable key answer left n)
  unfolding attempts
  attempts-IsAnswer answer zero n h = tt
  attempts-IsAnswer answer (suc left) n h =
      first (answer n) (h n) (attempts-IsAnswer answer left (n + 1) h)
    where
      first :
          (x : Option (List Peer))
          → IsAnswer x
          → IsAnswer (attempts usable key answer left (n + 1))
          → IsAnswer (elim x as (λ _. Option (List Peer)) [
            | some peers ↦ some peers
            | none ↦ attempts usable key answer left (n + 1)
          ])
      first none h k = k
      first (some ps) h k = h

  announced-IsAnswer :
      (answers : Answers usable key) (tr : List ℕ) (retries : ℕ)
      → ((n : ℕ) → IsAnswer (answers.udp n) × IsAnswer (answers.http n))
      → IsAnswer (announce_tracker_with_retries usable key answers tr retries)
  unfolding announce_tracker_with_retries
  announced-IsAnswer answers tr retries h = elim (Bool-cases (has_prefix tr (codes "udp://"))) [
    | inl e ↦ rw e (attempts-IsAnswer answers.udp retries 0 (λ n. (h n).0))
    | inr e ↦
        rw e
          (elim (Bool-cases (has_prefix tr (codes "http://") || has_prefix tr (codes "https://"))) [
            | inl f ↦ rw f (attempts-IsAnswer answers.http retries 0 (λ n. (h n).1))
            | inr f ↦ rw f tt
          ])
  ]

  -- Trackers whose answers all satisfy the predicate.
  abbrev pub AreTold : (List ℕ → Answers usable key) → Type 0
  AreTold answers =
      (tr : List ℕ) (n : ℕ) → IsAnswer ((answers tr).udp n) × IsAnswer ((answers tr).http n)

  gather_round-AreGood :
      (answers : List ℕ → Answers usable key) (trs : List (List ℕ)) (peers : List Peer)
      → AreTold answers
      → AreGood peers
      → AreGood (gather_round usable key answers trs peers)
  unfolding gather_round
  gather_round-AreGood answers [] peers h g = g
  gather_round-AreGood answers (tr ∷ trs) peers h g =
      next (announce_tracker_with_retries usable key (answers tr) tr tracker_retries)
        (announced-IsAnswer (answers tr) tr tracker_retries (h tr))
        (gather_round-AreGood answers trs peers h g)
        (λ more good. gather_round-AreGood answers trs more h good)
    where
      next :
          (x : Option (List Peer))
          → IsAnswer x
          → AreGood (gather_round usable key answers trs peers)
          → ((more : List Peer) → AreGood more → AreGood (gather_round usable key answers trs more))
          → AreGood (elim x as (λ _. List Peer) [
            | none ↦ gather_round usable key answers trs peers
            | some found ↦
                let more = dedupe_peers usable key (peers ++ found) in
                let rest = gather_round usable key answers trs more in
                if leb target_peers (length more) then more else rest
          ])
      next none k skipped on = skipped
      next (some found) k skipped on =
          let good = joined peers found g k in
          elim (Bool-cases (leb target_peers (length (dedupe_peers usable key (peers ++ found))))) [
            | inl e ↦ rw e good
            | inr e ↦ rw e (on (dedupe_peers usable key (peers ++ found)) good)
          ]

  gather_rounds-AreGood :
      (answers : ℕ → List ℕ → Answers usable key) (trs : List (List ℕ)) (left round : ℕ)
      (peers : List Peer)
      → ((n : ℕ) → AreTold (answers n))
      → AreGood peers
      → AreGood (gather_rounds usable key answers trs left round peers)
  unfolding gather_rounds
  gather_rounds-AreGood answers trs zero round peers h g = g
  gather_rounds-AreGood answers trs (suc left) round peers h g =
      let rest =
        gather_rounds-AreGood answers trs left (round + 1)
          (gather_round usable key (answers round) trs peers) h
          (gather_round-AreGood (answers round) trs peers (h round) g) in
      elim (Bool-cases (ltb (length peers) target_peers)) [ inl e ↦ rw e rest | inr e ↦ rw e g ]

  -- When every peer that a tracker answers satisfies a predicate, the peers gathered satisfy it, are
  -- usable, and no two of them have one key.
  pub gather_peers-AreGood :
      (answers : ℕ → List ℕ → Answers usable key) (trs : List (List ℕ))
      → ((n : ℕ) → AreTold (answers n))
      → AreGood (gather_peers usable key answers trs)
  unfolding gather_peers
  gather_peers-AreGood answers trs h = gather_rounds-AreGood answers trs max_rounds 0 [] h none_good

  -- What the DHT gives is some peers or an error, and some peers are at least one.
  abbrev pub IsFound : Option (List Peer) → Type 0
  IsFound none = Unit {0}
  IsFound (some ps) = AreGood ps × (0 < length ps)

  dht_rounds-IsFound :
      (answer : ℕ → Option (List Peer)) (most left i : ℕ) (peers : List Peer)
      → 0 < most
      → ((n : ℕ) → IsAnswer (answer n))
      → AreGood peers
      → IsFound (dht_rounds usable key answer most left i peers)
  unfolding dht_rounds
  dht_rounds-IsFound answer most zero i peers m h g = elim (Bool-cases (ltb 0 (length peers))) [
    | inl e ↦ rw e (g, ltb→lt _ _ e)
    | inr e ↦ rw e tt
  ]
  dht_rounds-IsFound answer most (suc left) i peers m h g =
      next (answer i) (h i) (dht_rounds-IsFound answer most left (i + 1) peers m h g)
        (λ more good. dht_rounds-IsFound answer most left (i + 1) more m h good)
    where
      next :
          (x : Option (List Peer))
          → IsAnswer x
          → IsFound (dht_rounds usable key answer most left (i + 1) peers)
          → ((more : List Peer)
              → AreGood more
              → IsFound (dht_rounds usable key answer most left (i + 1) more))
          → IsFound (elim x as (λ _. Option (List Peer)) [
            | none ↦ dht_rounds usable key answer most left (i + 1) peers
            | some found ↦
                let more = dedupe_peers usable key (peers ++ found) in
                let rest = dht_rounds usable key answer most left (i + 1) more in
                if leb most (length more) then some more else rest
          ])
      next none k skipped on = skipped
      next (some found) k skipped on =
          let good = joined peers found g k in
          elim (Bool-cases (leb most (length (dedupe_peers usable key (peers ++ found))))) [
            | inl e ↦ rw e (good, ground (arith, m, e))
            | inr e ↦ rw e (on (dedupe_peers usable key (peers ++ found)) good)
          ]

  -- When at least one peer is asked for, peers of the DHT are at least one, usable and distinct, and
  -- satisfy what all answers do.
  pub discover_dht_peers-IsFound :
      (answer : ℕ → Option (List Peer)) (rounds most : ℕ)
      → 0 < most
      → ((n : ℕ) → IsAnswer (answer n))
      → IsFound (discover_dht_peers usable key answer rounds most)
  unfolding discover_dht_peers
  discover_dht_peers-IsFound answer rounds most m h =
      dht_rounds-IsFound answer most rounds 0 [] m h none_good
