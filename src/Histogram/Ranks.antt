-- ===== src/Histogram/Ranks.antt =====
-- cmd/agent/metrics.go: Quantile against the latencies that were observed.
use cloudflare_r2_bench.Base.{
  ℕ, zero, suc, ◌+◌, ◌%◌, ◌^◌, ◌≤◌, ◌<◌, ◌≡◌, refl, ◌∙◌, ◌⊎◌, ltb, ◌==◌, if◌then◌else◌, List, [],
  ◌∷◌, length, arith,
}
use cloudflare_r2_bench.Histogram.{
  new_metrics, Observation, success, error, wire, conn, observe, observe_all, observe_success,
  observe_status, observe_error, observe_wire, observe_conn, bucket_index, bucket_value,
}
use cloudflare_r2_bench.Histogram.Snapshots.{snapshot, quantile}
use cloudflare_r2_bench.Histogram.Counters.{counted, bucket-IsCounter, word_of}
use cloudflare_r2_bench.Histogram.Tallies.{bucket_index_below}
use cloudflare_r2_bench.Histogram.Quantiles.{counts_below, quantile_lem}

-- The latencies that some calls report, of answers and errors.
abbrev pub latencies : List Observation → List ℕ
latencies [] = []
latencies (success l n status ∷ os) = l ∷ latencies os
latencies (error l timeout ∷ os) = l ∷ latencies os
latencies (wire micros ∷ os) = latencies os
latencies (conn reused ∷ os) = latencies os

-- How many latencies fall into buckets before bucket `i`.
abbrev pub rank : ℕ → List ℕ → ℕ
rank i [] = 0
rank i (l ∷ ls) = (if ltb (bucket_index l) i then 1 else 0) + rank i ls

-- How many fall into bucket `i`.
in_bucket : ℕ → List ℕ → ℕ
in_bucket i [] = 0
in_bucket i (l ∷ ls) = (if i == bucket_index l then 1 else 0) + in_bucket i ls

rank-suc : (i : ℕ) (ls : List ℕ) → rank (suc i) ls ≡ rank i ls + in_bucket i ls
unfolding in_bucket
rank-suc i [] = refl
rank-suc i (l ∷ ls) = ground (arith, rank-suc i ls)

rank-zero : (ls : List ℕ) → rank 0 ls ≡ 0
rank-zero [] = refl
rank-zero (l ∷ ls) = ground (arith, rank-zero ls)

rank-length : (i : ℕ) (ls : List ℕ) → rank i ls ≤ length ls
rank-length i [] = omega arith
rank-length i (l ∷ ls) = ground (arith, rank-length i ls)

rank_all : (ls : List ℕ) → rank 256 ls ≡ length ls
rank_all [] = refl
rank_all (l ∷ ls) = rw (bucket_index_below l) (omega (arith, rank_all ls))

in_bucket_one :
    (i : ℕ) (o : Observation) (os : List Observation)
    → in_bucket i (latencies (o ∷ os))
      ≡ (observe o new_metrics).buckets i + in_bucket i (latencies os)
unfolding in_bucket observe observe_success observe_status observe_error observe_wire observe_conn
in_bucket_one i (success l n status) os = ground arith
in_bucket_one i (error l timeout) os = ground arith
in_bucket_one i (wire micros) os = ground arith
in_bucket_one i (conn reused) os = ground arith

bucket_residue :
    (i : ℕ) (os : List Observation)
    → (observe_all os new_metrics).buckets i % 2 ^ 64 ≡ in_bucket i (latencies os) % 2 ^ 64
unfolding observe_all in_bucket
bucket_residue i [] = refl
bucket_residue i (o ∷ os) = omega (
  arith,
  counted (λ m. m.buckets i) (bucket-IsCounter i) (observe o new_metrics) os,
  in_bucket_one i o os,
  bucket_residue i os,
)

counts_below-rank :
    (i : ℕ) (os : List Observation)
    → length (latencies os) < 2 ^ 64
    → counts_below i (observe_all os new_metrics).buckets ≡ rank i (latencies os)
unfolding counts_below
counts_below-rank zero os room = omega (arith, rank-zero (latencies os))
counts_below-rank (suc i) os room = omega (
  arith,
  counts_below-rank i os room,
  rank-suc i (latencies os),
  rank-length (suc i) (latencies os),
  bucket_residue i os,
  word_of (λ m. m.buckets i) (bucket-IsCounter i) os,
)

-- The snapshot after some calls with fewer than 2 ^ 64 latencies, one at least: with a target of at
-- most their number, `Quantile` is the lower bound of a bucket such that at least the target of the
-- latencies fall into it or an earlier one, and fewer than the target into the earlier ones, unless
-- it is the first.
pub quantile-rank :
    (scaled : ℕ → ℕ) (os : List Observation)
    → 0 < length (latencies os)
    → length (latencies os) < 2 ^ 64
    → scaled (length (latencies os)) ≤ length (latencies os)
    → (i : ℕ) × (quantile scaled (snapshot (observe_all os new_metrics)) ≡ bucket_value i)
      × (i < 256)
      × (scaled (length (latencies os)) ≤ rank (suc i) (latencies os))
      × ((i ≡ 0) ⊎ (rank i (latencies os) < scaled (length (latencies os))))
unfolding snapshot
quantile-rank scaled os some_calls room within =
    let all = counts_below-rank 256 os room ∙ rank_all (latencies os) in
    let (i, at, reaches) =
      quantile_lem scaled (snapshot (observe_all os new_metrics)) (rw all some_calls) (rw all room)
        (rw all within) in
    let (bucket, reached, before) = rw all at reaches in
    (
      i,
      at,
      bucket,
      rw (counts_below-rank (suc i) os room) at reached,
      rw (counts_below-rank i os room) at before,
    )
