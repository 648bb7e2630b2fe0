-- ===== src/Pool/Examples.antt =====
-- Failures and windows on concrete numbers.
use bit_torrent.Wire.Handshake.{codes}
use bit_torrent.Pool.Backoff.{fail_stat_bounded}
use bit_torrent.Base.{refl, false, arith, some, ◌≡◌, ◌≤◌, ◌+◌, ◌*◌}
use bit_torrent.Pool.{
  codes, minute, starts_with, new_stat, contains_any, contains, second, fail_stat, classify_error,
  choked, timeout,
}

classify_choke : classify_error (some (codes "peer choked during piece transfer", false)) ≡ choked
unfolding classify_error contains contains_any starts_with
classify_choke = refl

fail_stat_bounded_example :
    ((fail_stat timeout second new_stat).backoff_until ≤ second + 20 * minute)
    × ((fail_stat timeout second new_stat).quarantined_until ≤ second + 20 * minute)
fail_stat_bounded_example = fail_stat_bounded timeout second new_stat (omega arith) (omega arith)
