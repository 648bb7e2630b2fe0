-- ===== src/Metadata/Race.antt =====
-- internal/protocol/metadata.go: `FetchMetadataFromPeersWithProgress`, the race of workers over the
-- peers for the description of a torrent, as steps of the goroutines until the function returns.
-- What a peer comes to, from the dial to fetchMetadataWithRecovery, is handed in; a peer on which
-- fetchMetadata runs for ever keeps its worker for ever.
use bit_torrent.Metadata.{Fetched}
use bit_torrent.Base.{
  All, ℕ, suc, List, [], ◌∷◌, ◌++◌, ◌≡◌, ◌<◌, ltb, if◌then◌else◌, Option, none, some, length,
  replicate,
}

abbrev pub max_concurrent_peers : ℕ
max_concurrent_peers = 8

-- What a peer comes to: a description, an error, or nothing at all.
pub data Came (Info : Type 0) : Type 0 where
  gave : Info → Came Info
  gave_up never : Came Info

-- `fetchMetadataWithRecovery`, which makes an error of a panic.
unfoldable pub with_recovery : {Info : Type 0} → Fetched Info → Came Info
with_recovery (Fetched.ok i) = Came.gave i
with_recovery (Fetched.err e) = Came.gave_up
with_recovery Fetched.panics = Came.gave_up
with_recovery Fetched.hangs = Came.never

-- What a worker makes of a peer; none is a dial that fails.
unfoldable pub try_peer : {Info : Type 0} → Option (Fetched Info) → Came Info
unfolding with_recovery
try_peer none = Came.gave_up
try_peer (some fetched) = with_recovery fetched

module _ {Peer Info : Type 0} (answer : Peer → Came Info) where
  pub data Worker : Type 0 where
    idle : Worker
    trying : Peer → Worker
    done : Worker

  -- What the function returned, if it did.
  pub data Verdict : Type 0 where
    running failed : Verdict
    found : Info → Verdict

  -- The peers that the feeder has yet to hand over, after which it closes the channel; the workers;
  -- what waits in `resultCh`; and the results that the main loop has received.
  pub record Race : Type 0 where
    pub feed : List Peer
    pub workers : List Worker
    pub results : List (Option Info)
    pub received : ℕ
    pub verdict : Verdict

  unfoldable pub worker_count : List Peer → ℕ
  worker_count peers =
      if ltb (length peers) max_concurrent_peers then length peers else max_concurrent_peers

  -- For no peers the function is over before it starts.
  unfoldable pub start_race : List Peer → Race
  unfolding worker_count
  start_race peers = record {
    feed = peers;
    workers = replicate (worker_count peers) idle;
    results = [];
    received = 0;
    verdict = elim peers as (λ _. Verdict) [ [] ↦ failed | p ∷ ps ↦ running ];
  }

  -- What one goroutine does; `n` is the number of peers.
  pub data Step (n : ℕ) : Race → Race → Type 0 where
    hand_over :
        (p : Peer) (ps : List Peer) (ws vs : List Worker) (results : List (Option Info))
        (received : ℕ)
        → Step n
            (record {
              feed = p ∷ ps;
              workers = ws ++ (idle ∷ vs);
              results = results;
              received = received;
              verdict = running;
            })
            (record {
              feed = ps;
              workers = ws ++ (trying p ∷ vs);
              results = results;
              received = received;
              verdict = running;
            })
    no_more :
        (ws vs : List Worker) (results : List (Option Info)) (received : ℕ)
        → Step n
            (record {
              feed = [];
              workers = ws ++ (idle ∷ vs);
              results = results;
              received = received;
              verdict = running;
            })
            (record {
              feed = [];
              workers = ws ++ (done ∷ vs);
              results = results;
              received = received;
              verdict = running;
            })
    answered :
        (feed : List Peer) (p : Peer) (i : Info) (ws vs : List Worker)
        (results : List (Option Info)) (received : ℕ)
        → answer p ≡ Came.gave i
        → Step n
            (record {
              feed = feed;
              workers = ws ++ (trying p ∷ vs);
              results = results;
              received = received;
              verdict = running;
            })
            (record {
              feed = feed;
              workers = ws ++ (done ∷ vs);
              results = results ++ (some i ∷ []);
              received = received;
              verdict = running;
            })
    refused :
        (feed : List Peer) (p : Peer) (ws vs : List Worker) (results : List (Option Info))
        (received : ℕ)
        → answer p ≡ Came.gave_up
        → Step n
            (record {
              feed = feed;
              workers = ws ++ (trying p ∷ vs);
              results = results;
              received = received;
              verdict = running;
            })
            (record {
              feed = feed;
              workers = ws ++ (idle ∷ vs);
              results = results ++ (none ∷ []);
              received = received;
              verdict = running;
            })
    receive :
        (feed : List Peer) (ws : List Worker) (results : List (Option Info)) (received : ℕ)
        → received < n
        → Step n
            (record {
              feed = feed;
              workers = ws;
              results = none ∷ results;
              received = received;
              verdict = running;
            })
            (record {
              feed = feed;
              workers = ws;
              results = results;
              received = suc received;
              verdict = running;
            })
    return_found :
        (feed : List Peer) (ws : List Worker) (i : Info) (results : List (Option Info))
        (received : ℕ)
        → received < n
        → Step n
            (record {
              feed = feed;
              workers = ws;
              results = some i ∷ results;
              received = received;
              verdict = running;
            })
            (record {
              feed = feed;
              workers = ws;
              results = results;
              received = received;
              verdict = found i;
            })
    return_failed :
        (feed : List Peer) (ws : List Worker) (results : List (Option Info))
        → All (λ w. w ≡ done) ws
        → Step n
            (record {
              feed = feed;
              workers = ws;
              results = results;
              received = n;
              verdict = running;
            })
            (record {
              feed = feed;
              workers = ws;
              results = results;
              received = n;
              verdict = failed;
            })

  pub data Reach (peers : List Peer) : Race → Type 0 where
    start : Reach peers (start_race peers)
    step : {r t : Race} → Reach peers r → Step (length peers) r t → Reach peers t
