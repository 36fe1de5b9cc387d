-- ===== src/Tests/Histograms.antt =====
-- The theorems on the histogram of an agent at concrete inputs that meet their hypotheses.
use cloudflare_r2_bench.Base.{
  ℕ, suc, ◌+◌, ◌/◌, ◌%◌, ◌^◌, ◌≤◌, ◌<◌, ◌≡◌, ◌⊎◌, true, false, List, [], ◌∷◌, ◌++◌, arith,
}
use cloudflare_r2_bench.Histogram.{
  new_metrics, Observation, success, error, wire, conn, observe_all, bucket_index, bucket_value,
  observe, observe_success, observe_status, observe_error, observe_wire, observe_conn,
}
use cloudflare_r2_bench.Histogram.Bounds.{Falls, bucket_index_bounds}
use cloudflare_r2_bench.Histogram.Snapshots.{snapshot, sub, bucket_total, quantile}
use cloudflare_r2_bench.Histogram.Intervals.{sub-snapshot}
use cloudflare_r2_bench.Histogram.Tallies.{buckets_total}
use cloudflare_r2_bench.Histogram.Ranks.{rank, quantile-rank}

bucket_index_bounds_example :
    ((1000 < 2 ^ 34) × Falls 1000) ⊎ ((2 ^ 34 ≤ 1000) × (bucket_index 1000 ≡ 255))
bucket_index_bounds_example = bucket_index_bounds 1000 (omega arith)

-- Two answers, a dial and a timeout.
abbrev first_calls : List Observation
first_calls = conn false ∷ success 900 4096 200 ∷ wire 800 ∷ []

abbrev more_calls : List Observation
more_calls = success 1000 0 503 ∷ error 30_000_000 true ∷ []

sub-snapshot_example :
    sub
      (snapshot (observe_all (first_calls ++ more_calls) new_metrics))
      (snapshot (observe_all first_calls new_metrics))
    ≡ snapshot (observe_all more_calls new_metrics)
sub-snapshot_example = sub-snapshot first_calls more_calls

abbrev all_calls : List Observation
all_calls = first_calls ++ more_calls

buckets_total_example :
    (((1 + 0) % 2 ^ 64 + 1) % 2 ^ 64 ≡ 2)
    × (bucket_total 256 (observe_all all_calls new_metrics).buckets ≡ (2 + 1) % 2 ^ 64)
unfolding observe_all observe observe_success observe_status observe_error observe_wire observe_conn
buckets_total_example = buckets_total all_calls

abbrev half_of : ℕ → ℕ
half_of total = total / 2

quantile-rank_example :
    (i : ℕ) × (quantile half_of (snapshot (observe_all all_calls new_metrics)) ≡ bucket_value i)
    × (i < 256)
    × (1 ≤ rank (suc i) (900 ∷ 1000 ∷ 30_000_000 ∷ []))
    × ((i ≡ 0) ⊎ (rank i (900 ∷ 1000 ∷ 30_000_000 ∷ []) < 1))
quantile-rank_example = quantile-rank half_of all_calls (omega arith) (omega arith) (omega arith)
