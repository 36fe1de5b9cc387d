-- ===== src/Histogram/Intervals.antt =====
-- cmd/agent/metrics.go: Sub, against the calls between two snapshots.
use cloudflare_r2_bench.Base.{◌≡◌, List, ◌++◌}
use cloudflare_r2_bench.Histogram.{new_metrics, Observation, observe_all}
use cloudflare_r2_bench.Histogram.Snapshots.{snapshot, sub}
use cloudflare_r2_bench.Histogram.Counters.{
  difference, count-IsCounter, errors-IsCounter, bytes-IsCounter, lat_sum-IsCounter,
  status_ok-IsCounter, status_4x-IsCounter, status_5x-IsCounter, timeouts-IsCounter,
  new_conns-IsCounter, reused_conns-IsCounter, wire_sum-IsCounter, wire_count-IsCounter,
  bucket-IsCounter,
}

-- `Sub` of the snapshot after some more calls and the one before them is the snapshot that counters
-- which start at zero have after these calls alone, field by field and bucket by bucket, even where a
-- counter overflowed in between.
pub sub-snapshot :
    (before during : List Observation)
    → sub
        (snapshot (observe_all (before ++ during) new_metrics))
        (snapshot (observe_all before new_metrics))
      ≡ snapshot (observe_all during new_metrics)
unfolding sub snapshot
sub-snapshot before during = λ i. record {
  count = difference (λ m. m.count) count-IsCounter before during i;
  errors = difference (λ m. m.errors) errors-IsCounter before during i;
  bytes = difference (λ m. m.bytes) bytes-IsCounter before during i;
  lat_sum = difference (λ m. m.lat_sum) lat_sum-IsCounter before during i;
  status_ok = difference (λ m. m.status_ok) status_ok-IsCounter before during i;
  status_4x = difference (λ m. m.status_4x) status_4x-IsCounter before during i;
  status_5x = difference (λ m. m.status_5x) status_5x-IsCounter before during i;
  timeouts = difference (λ m. m.timeouts) timeouts-IsCounter before during i;
  new_conns = difference (λ m. m.new_conns) new_conns-IsCounter before during i;
  reused_conns = difference (λ m. m.reused_conns) reused_conns-IsCounter before during i;
  wire_sum = difference (λ m. m.wire_sum) wire_sum-IsCounter before during i;
  wire_count = difference (λ m. m.wire_count) wire_count-IsCounter before during i;
  buckets = λ b. difference (λ m. m.buckets b) (bucket-IsCounter b) before during i;
}
