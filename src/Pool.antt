-- ===== src/Pool.antt =====
-- The peers that a download draws from: `peerPool`, `tuneInflightOnSuccess` and
-- `tuneInflightOnFailure` of internal/downloader/downloader.go, and internal/downloader/errors.go.
-- Times and durations are nanoseconds; the zero time is 0. Counters are taken not to overflow.
pub mod Backoff
mod Examples
use bit_torrent.Transfer.{min_inflight_per_peer, max_inflight_per_peer}
use bit_torrent.Wire.Handshake.{codes}
use bit_torrent.Base.{
  none, some, ◌++◌, ltb, length, ◌&&◌, ◌===◌, not, if◌then◌else◌, Option, ◌||◌, ◌==◌, ◌∷◌, ◌+◌, [],
  ◌≡◌, ◌<◌, ℕ, List, false, true, ◌-◌, ◌*◌, ◌^◌, ◌/◌, Bool,
}

pub data FailureClass : Type 0 where
  general conn_refused timeout hash_mismatch choked protocol io : FailureClass

-- `contains`: a text in another one.
unfoldable pub starts_with : List ℕ → List ℕ → Bool
starts_with [] s = true
starts_with (c ∷ cs) [] = false
starts_with (c ∷ cs) (x ∷ xs) = c == x && starts_with cs xs

unfoldable pub contains : List ℕ → List ℕ → Bool
unfolding starts_with
contains [] sub = starts_with sub []
contains (c ∷ cs) sub = starts_with sub (c ∷ cs) || contains cs sub

unfoldable pub contains_any : List ℕ → List (List ℕ) → Bool
contains_any msg [] = false
contains_any msg (sub ∷ subs) = contains msg sub || contains_any msg subs

-- The error is given by its text and by what `isNetTimeout` says of it; `none` is nil.
unfoldable pub classify_error : Option (List ℕ × Bool) → FailureClass
unfolding contains contains_any
classify_error none = general
classify_error (some (msg, is_timeout)) =
    if is_timeout
    then timeout
    else if contains_any msg (
        codes "connection refused"
        ∷ codes "no route to host"
        ∷ codes "network unreachable"
        ∷ codes "host unreachable"
        ∷ [])
    then conn_refused
    else if contains msg (codes "hash mismatch")
    then hash_mismatch
    else if contains msg (codes "choked") || contains msg (codes "choke")
    then choked
    else if contains_any msg
        (codes "handshake" ∷ codes "protocol" ∷ codes "unexpected" ∷ codes "invalid" ∷ [])
    then protocol
    else general

abbrev pub millisecond : ℕ
millisecond = 1000000

abbrev pub second : ℕ
second = 1000000000

abbrev pub minute : ℕ
minute = 60000000000

pub record PeerStat : Type 0 where
  pub successes : ℕ
  pub failures : ℕ
  pub consecutive_failures : ℕ
  pub bytes : ℕ
  pub latency_n : ℕ
  pub latency_sum : ℕ
  pub last_failure : ℕ
  pub backoff_until : ℕ
  pub quarantined_until : ℕ

abbrev pub new_stat : PeerStat
new_stat = record {
  successes = 0;
  failures = 0;
  consecutive_failures = 0;
  bytes = 0;
  latency_n = 0;
  latency_sum = 0;
  last_failure = 0;
  backoff_until = 0;
  quarantined_until = 0;
}

-- `baseBackoff`, `quarantineAfter` and `quarantinePeriod`.
unfoldable pub tuning : FailureClass → ℕ × ℕ × ℕ
tuning conn_refused = (5 * second, 3, 10 * minute)
tuning timeout = (750 * millisecond, 12, 45 * second)
tuning hash_mismatch = (30 * second, 2, 15 * minute)
tuning choked = (300 * millisecond, 20, 30 * second)
tuning protocol = (3 * second, 4, 5 * minute)
tuning io = (0, 999, 0)
tuning general = (250 * millisecond, 12, 45 * second)

unfoldable pub max_backoff : FailureClass → ℕ
max_backoff conn_refused = 20 * minute
max_backoff hash_mismatch = 20 * minute
max_backoff _ = 2 * minute

-- The delay after so many failures in a row, the new one included.
unfoldable pub backoff_of : FailureClass → ℕ → ℕ
unfolding tuning max_backoff
backoff_of class n =
    let base = (tuning class).0 in
    let shift = if ltb 6 (n - 1) then 6 else n - 1 in
    let backoff = if ltb 1 n then base * 2 ^ shift else base in
    if ltb (max_backoff class) backoff then max_backoff class else backoff

-- `ReportFailureWith` on the entry of its peer.
unfoldable pub fail_stat : FailureClass → ℕ → PeerStat → PeerStat
unfolding backoff_of tuning
fail_stat class now st =
    let n = st.consecutive_failures + 1 in
    let (base, after, period) = tuning class in
    let quarantine = not (ltb n after) && ltb 0 period in
    record st {
      failures = st.failures + 1;
      consecutive_failures = if quarantine then 0 else n;
      last_failure = now;
      backoff_until = if ltb 0 base then now + backoff_of class n else st.backoff_until;
      quarantined_until = if quarantine then now + period else st.quarantined_until;
    }

unfoldable pub succeed_stat : ℕ → ℕ → PeerStat → PeerStat
succeed_stat bytes latency st = record st {
  successes = st.successes + 1;
  consecutive_failures = 0;
  bytes = st.bytes + bytes;
  latency_n = st.latency_n + 1;
  latency_sum = st.latency_sum + latency;
}

-- The maps `peers`, `available` and `stats` have the same keys, so they are one map here.
pub record Entry (Peer : Type 0) : Type 0 where
  pub key : List ℕ
  pub peer : Peer
  pub available : Bool
  pub stat : PeerStat

pub record PoolSnapshot : Type 0 where
  pub total_peers : ℕ
  pub available_peers : ℕ
  pub backoff_peers : ℕ
  pub quarantine_peers : ℕ
  pub total_successes : ℕ
  pub total_failures : ℕ
  pub avg_latency : ℕ

module _ {Peer : Type 0} where
  unfoldable pub has_key : List ℕ → List (Entry Peer) → Bool
  has_key k [] = false
  has_key k (e ∷ es) = e.key === k || has_key k es

  unfoldable pub update : List ℕ → (Entry Peer → Entry Peer) → List (Entry Peer) → List (Entry Peer)
  update k f [] = []
  update k f (e ∷ es) = if e.key === k then f e ∷ es else e ∷ update k f es

  -- `Add`; whether the address and the port may be used is the answer of the package net.
  unfoldable pub add : Bool → List ℕ → Peer → List (Entry Peer) → List (Entry Peer)
  unfolding has_key
  add usable k peer pool =
      if not usable || has_key k pool
      then pool
      else pool ++ (record { key = k; peer = peer; available = true; stat = new_stat } ∷ [])

  unfoldable pub release : List ℕ → List (Entry Peer) → List (Entry Peer)
  release k pool = update k (λ e. record e { available = true }) pool

  unfoldable pub report_success : List ℕ → ℕ → ℕ → List (Entry Peer) → List (Entry Peer)
  report_success k bytes latency pool =
      update k (λ e. record e { stat = succeed_stat bytes latency e.stat }) pool

  unfoldable pub report_failure_with :
      List ℕ → FailureClass → ℕ → List (Entry Peer) → List (Entry Peer)
  report_failure_with k class now pool =
      update k (λ e. record e { stat = fail_stat class now e.stat }) pool

  unfoldable pub report_failure : List ℕ → ℕ → List (Entry Peer) → List (Entry Peer)
  report_failure k now pool = report_failure_with k general now pool

  -- The test by which `Acquire` leaves a peer out.
  unfoldable pub is_eligible : ℕ → Entry Peer → Bool
  is_eligible now e =
      e.available && not (ltb now e.stat.quarantined_until || ltb now e.stat.backoff_until)

  unfoldable pub count : (Entry Peer → Bool) → List (Entry Peer) → ℕ
  count p [] = 0
  count p (e ∷ es) = (if p e then 1 else 0) + count p es

  unfoldable pub sum : (Entry Peer → ℕ) → List (Entry Peer) → ℕ
  sum f [] = 0
  sum f (e ∷ es) = f e + sum f es

  unfoldable pub snapshot : ℕ → List (Entry Peer) → PoolSnapshot
  unfolding count sum
  snapshot now pool =
      let samples = sum (λ e. e.stat.latency_n) pool in
      let latency = sum (λ e. e.stat.latency_sum) pool in
      record {
        total_peers = length pool;
        available_peers = count (λ e. e.available) pool;
        backoff_peers = count (λ e. ltb now e.stat.backoff_until) pool;
        quarantine_peers = count (λ e. ltb now e.stat.quarantined_until) pool;
        total_successes = sum (λ e. e.stat.successes) pool;
        total_failures = sum (λ e. e.stat.failures) pool;
        avg_latency = if ltb 0 samples then latency / samples else latency;
      }

-- The window of a session after a piece, and after a failure.
unfoldable pub tune_inflight_on_success : ℕ → ℕ → ℕ
tune_inflight_on_success latency inflight =
    if not (ltb (8 * second) latency)
    then (if ltb inflight max_inflight_per_peer then inflight + 1 else inflight)
    else if not (ltb latency (30 * second)) && ltb min_inflight_per_peer inflight
    then inflight - 1
    else inflight

unfoldable pub window_step : FailureClass → ℕ
window_step timeout = 2
window_step protocol = 2
window_step hash_mismatch = 2
window_step _ = 1

unfoldable pub tune_inflight_on_failure : FailureClass → ℕ → ℕ
unfolding window_step
tune_inflight_on_failure class inflight =
    let less =
      if ltb min_inflight_per_peer inflight then inflight - window_step class else inflight in
    if ltb less min_inflight_per_peer then min_inflight_per_peer else less
