-- ===== src/Histogram/Tallies.antt =====
-- cmd/agent/metrics.go: the counters against each other.
use cloudflare_r2_bench.Base.{
  ℕ, zero, suc, ◌+◌, ◌%◌, ◌^◌, ◌≡◌, refl, List, true, ltb, if◌then◌else◌, arith,
}
use cloudflare_r2_bench.Histogram.{
  new_metrics, Observation, observe, observe_all, observe_status, observe_success, observe_error,
  observe_wire, observe_conn, add_bucket, bucket_index, octave_index, success, error, wire, conn,
}
use cloudflare_r2_bench.Histogram.Positions.{capped}
use cloudflare_r2_bench.Histogram.Snapshots.{bucket_total}
use cloudflare_r2_bench.Histogram.Counters.{
  IsCounter, counted_alike, sum-IsCounter, count-IsCounter, errors-IsCounter, status_ok-IsCounter,
  status_4x-IsCounter, status_5x-IsCounter, bucket-IsCounter,
}

bucket_total-IsCounter : (n : ℕ) → IsCounter (λ m. bucket_total n m.buckets)
unfolding bucket_total
bucket_total-IsCounter zero = record { starts = refl; stays = λ m o word. word; adds = λ m o. refl }
bucket_total-IsCounter (suc n) =
    sum-IsCounter (λ m. bucket_total n m.buckets) (λ m. m.buckets n) (bucket_total-IsCounter n)
      (bucket-IsCounter n)

bucket_total_one : (n i : ℕ) → bucket_total n (add_bucket i (λ j. 0)) ≡ (if ltb i n then 1 else 0)
unfolding bucket_total
bucket_total_one zero i = ground arith
bucket_total_one (suc n) i = ground (arith, bucket_total_one n i)

bucket_total_none : (n : ℕ) → bucket_total n (λ j. 0) ≡ 0
unfolding bucket_total
bucket_total_none zero = refl
bucket_total_none (suc n) = omega (arith, bucket_total_none n)

below_cap : (v i : ℕ) → ltb (if ltb v 8 then v else capped i) 256 ≡ true
below_cap v i = ground arith

pub bucket_index_below : (v : ℕ) → ltb (bucket_index v) 256 ≡ true
unfolding bucket_index
bucket_index_below v = below_cap v (octave_index v)

counted_once : (v : ℕ) → bucket_total 256 (add_bucket (bucket_index v) (λ j. 0)) ≡ 1
counted_once v = rw (bucket_total_one 256 (bucket_index v), bucket_index_below v) refl

statuses_once :
    (o : Observation)
    → let m = observe o new_metrics in
      ((m.status_ok + m.status_4x) % 2 ^ 64 + m.status_5x) % 2 ^ 64 ≡ m.count
unfolding observe observe_success observe_status observe_error observe_wire observe_conn
statuses_once o = ground arith

buckets_once :
    (o : Observation)
    → let m = observe o new_metrics in bucket_total 256 m.buckets ≡ (m.count + m.errors) % 2 ^ 64
unfolding observe observe_success observe_status observe_error observe_wire observe_conn
buckets_once (success latency n status) = ground (arith, counted_once latency)
buckets_once (error latency timeout) = ground (arith, counted_once latency)
buckets_once (wire micros) = bucket_total_none 256
buckets_once (conn reused) = ground (arith, bucket_total_none 256)

-- After any calls, the answers counted by class of status add up to the answers counted, and the
-- latencies in the 256 buckets to the answers and the errors together, in words.
pub buckets_total :
    (os : List Observation)
    → let m = observe_all os new_metrics in
      (((m.status_ok + m.status_4x) % 2 ^ 64 + m.status_5x) % 2 ^ 64 ≡ m.count)
      × (bucket_total 256 m.buckets ≡ (m.count + m.errors) % 2 ^ 64)
buckets_total os = (
  counted_alike _ _
      (sum-IsCounter _ _ (sum-IsCounter _ _ status_ok-IsCounter status_4x-IsCounter)
        status_5x-IsCounter)
      count-IsCounter statuses_once os,
  counted_alike _ _ (bucket_total-IsCounter 256)
      (sum-IsCounter _ _ count-IsCounter errors-IsCounter) buckets_once os,
)
