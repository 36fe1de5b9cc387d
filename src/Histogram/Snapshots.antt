-- ===== src/Histogram/Snapshots.antt =====
-- cmd/agent/metrics.go: snapshots of the counters, their difference, and the quantiles.
use cloudflare_r2_bench.Base.{ℕ, zero, suc, ◌-◌, leb, ◌==◌, if◌then◌else◌}
use cloudflare_r2_bench.Histogram.{Metrics, sub_word, add_word, bucket_value, num_buckets}

pub record Snapshot : Type 0 where
  pub count : ℕ
  pub errors : ℕ
  pub bytes : ℕ
  pub lat_sum : ℕ
  pub status_ok : ℕ
  pub status_4x : ℕ
  pub status_5x : ℕ
  pub timeouts : ℕ
  pub new_conns : ℕ
  pub reused_conns : ℕ
  pub wire_sum : ℕ
  pub wire_count : ℕ
  pub buckets : ℕ → ℕ

-- All counters are read at one moment; the source reads one after the other.
unfoldable pub snapshot : Metrics → Snapshot
snapshot m = record {
  count = m.count;
  errors = m.errors;
  bytes = m.bytes;
  lat_sum = m.lat_sum;
  status_ok = m.status_ok;
  status_4x = m.status_4x;
  status_5x = m.status_5x;
  timeouts = m.timeouts;
  new_conns = m.new_conns;
  reused_conns = m.reused_conns;
  wire_sum = m.wire_sum;
  wire_count = m.wire_count;
  buckets = m.buckets;
}

-- `Sub`.
unfoldable pub sub : Snapshot → Snapshot → Snapshot
sub s prev = record {
  count = sub_word s.count prev.count;
  errors = sub_word s.errors prev.errors;
  bytes = sub_word s.bytes prev.bytes;
  lat_sum = sub_word s.lat_sum prev.lat_sum;
  status_ok = sub_word s.status_ok prev.status_ok;
  status_4x = sub_word s.status_4x prev.status_4x;
  status_5x = sub_word s.status_5x prev.status_5x;
  timeouts = sub_word s.timeouts prev.timeouts;
  new_conns = sub_word s.new_conns prev.new_conns;
  reused_conns = sub_word s.reused_conns prev.reused_conns;
  wire_sum = sub_word s.wire_sum prev.wire_sum;
  wire_count = sub_word s.wire_count prev.wire_count;
  buckets = λ i. sub_word (s.buckets i) (prev.buckets i);
}

-- The first loop of `Quantile`: the sum of the first `n` buckets, in words.
unfoldable pub bucket_total : ℕ → (ℕ → ℕ) → ℕ
bucket_total zero buckets = 0
bucket_total (suc n) buckets = add_word (bucket_total n buckets) (buckets n)

-- The second loop of `Quantile`, from bucket `i` on with `left` buckets to go.
unfoldable pub find_quantile : ℕ → ℕ → ℕ → ℕ → (ℕ → ℕ) → ℕ
find_quantile zero i cum target buckets = bucket_value (num_buckets - 1)
find_quantile (suc left) i cum target buckets =
    let reached = add_word cum (buckets i) in
    let later = find_quantile left (suc i) reached target buckets in
    if leb target reached then bucket_value i else later

-- `Quantile` in microseconds, before the division by 1000; `scaled total` is
-- `uint64(q * float64(total))`.
unfoldable pub quantile : (ℕ → ℕ) → Snapshot → ℕ
unfolding bucket_total find_quantile
quantile scaled s =
    let total = bucket_total num_buckets s.buckets in
    if total == 0 then 0 else find_quantile num_buckets 0 0 (scaled total) s.buckets
