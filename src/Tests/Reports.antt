-- ===== src/Tests/Reports.antt =====
-- The theorems on the metrics of a job at concrete inputs that meet their hypotheses.
use cloudflare_r2_bench.Base.{
  List, ◌++◌, ◌⊎◌, ◌≡◌, ◌≤◌, refl, ℕ, [], ◌∷◌, Text, codes, map, length, where_rows, text_eq, arith,
}
use cloudflare_r2_bench.Js.Number.{whole}
use cloudflare_r2_bench.Js.Arith.{sum_numbers}
use mathlib.Core.List.{Perm}
use cloudflare_r2_bench.Db.Prog.{run, returned}
use cloudflare_r2_bench.Orchestrator.{job_summary, list_jobs}
use cloudflare_r2_bench.Orchestrator.Listing.{IsNewestFirst, list_jobs_lem}
use cloudflare_r2_bench.Tests.Fixtures.{half_staffed}
use cloudflare_r2_bench.Db.{Job, Db, Metric, empty_db}
use cloudflare_r2_bench.Orchestrator.Watch.{
  SpawnMetric, samples, minutes, job_metrics, leaders, insert_minute, sample_of, metric_at,
}
use cloudflare_r2_bench.Orchestrator.Watch.Totals.{bytes_total}

abbrev report_of : Text → ℕ → ℕ → Metric
report_of spawn_id created_at bytes = record {
  metric_id = codes "m";
  tick_number = whole 1;
  spawn_id = spawn_id;
  job_id = codes "u1";
  latency = whole 5;
  rps = whole 10;
  count = whole 100;
  created_at = created_at;
  error_m1_rate = whole 0;
  p50 = whole 4;
  p95 = whole 8;
  p99 = whole 9;
  bytes = whole bytes;
  status_4xx = whole 0;
  status_5xx = whole 0;
}

-- Two spawns in two minutes.
abbrev reported_db : Db
reported_db = record empty_db {
  metrics =
      report_of (codes "u1-a") 60 10
      ∷ report_of (codes "u1-b") 61 20
      ∷ report_of (codes "u1-a") 65 30
      ∷ report_of (codes "u1-a") 125 40
      ∷ [];
}

bytes_total_example :
    sum_numbers (map (λ (r : SpawnMetric). r.bytes) (job_metrics (codes "u1") reported_db))
    ≡ sum_numbers (
        map
          (λ (m : Metric). m.bytes)
          (where_rows (λ (m : Metric). text_eq m.job_id (codes "u1")) reported_db.metrics))
unfolding text_eq samples leaders minutes insert_minute sample_of
bytes_total_example =
    bytes_total (codes "u1") reported_db (refl, (refl, (refl, (refl, tt)))) (omega arith)

worker_counts :
    map (λ (r : SpawnMetric). r.worker_count) (job_metrics (codes "u1") reported_db) ≡ 1 ∷ 2 ∷ []
unfolding text_eq job_metrics samples leaders minutes insert_minute sample_of metric_at
worker_counts = refl

list_jobs_lem_example :
    (shown : List Job) × (left : List Job) × (run list_jobs half_staffed
      ≡ (returned (map job_summary shown), half_staffed))
    × Perm (shown ++ left) half_staffed.jobs
    × IsNewestFirst (shown ++ left)
    × (((left ≡ []) × (length shown ≤ 200)) ⊎ (length shown ≡ 200))
list_jobs_lem_example = list_jobs_lem half_staffed
