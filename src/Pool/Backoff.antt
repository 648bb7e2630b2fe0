-- ===== src/Pool/Backoff.antt =====
-- How long a failing peer is left alone, and how large a window a session has.
use bit_torrent.Transfer.{max_inflight_per_peer, min_inflight_per_peer}
use bit_torrent.Base.{arith, ◌+◌, ◌*◌, ◌≤◌, ℕ}
use bit_torrent.Pool.{
  general, conn_refused, timeout, hash_mismatch, choked, protocol, io, tuning, minute,
  max_inflight_per_peer, min_inflight_per_peer, PeerStat, ℕ, tune_inflight_on_failure, FailureClass,
  max_backoff, tune_inflight_on_success, fail_stat, backoff_of,
}

backoff_of-cap : (class : FailureClass) (n : ℕ) → backoff_of class n ≤ 20 * minute
unfolding backoff_of max_backoff
backoff_of-cap general n = ground arith
backoff_of-cap conn_refused n = ground arith
backoff_of-cap timeout n = ground arith
backoff_of-cap hash_mismatch n = ground arith
backoff_of-cap choked n = ground arith
backoff_of-cap protocol n = ground arith
backoff_of-cap io n = ground arith

period-cap : (class : FailureClass) → (tuning class).2 ≤ 20 * minute
unfolding tuning
period-cap general = omega arith
period-cap conn_refused = omega arith
period-cap timeout = omega arith
period-cap hash_mismatch = omega arith
period-cap choked = omega arith
period-cap protocol = omega arith
period-cap io = omega arith

-- A failing peer is put back by at most twenty minutes from now on, however often it has failed; the
-- bound on what was set before is a premise.
pub fail_stat_bounded :
    (class : FailureClass) (now : ℕ) (st : PeerStat)
    → st.backoff_until ≤ now + 20 * minute
    → st.quarantined_until ≤ now + 20 * minute
    → ((fail_stat class now st).backoff_until ≤ now + 20 * minute)
      × ((fail_stat class now st).quarantined_until ≤ now + 20 * minute)
unfolding fail_stat
fail_stat_bounded class now st hb hq = (
  ground (arith, backoff_of-cap class (st.consecutive_failures + 1)),
  ground (arith, period-cap class),
)

-- A window between four and sixteen stays there, whatever the latency and the failure.
pub tune_inflight_bounds :
    (inflight latency : ℕ) (class : FailureClass)
    → min_inflight_per_peer ≤ inflight
    → inflight ≤ max_inflight_per_peer
    → ((min_inflight_per_peer ≤ tune_inflight_on_success latency inflight)
        × (tune_inflight_on_success latency inflight ≤ max_inflight_per_peer))
      × ((min_inflight_per_peer ≤ tune_inflight_on_failure class inflight)
          × (tune_inflight_on_failure class inflight ≤ max_inflight_per_peer))
unfolding tune_inflight_on_success tune_inflight_on_failure
tune_inflight_bounds inflight latency class lo hi =
    ((ground arith, ground arith), (ground arith, ground arith))
