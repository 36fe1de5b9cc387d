-- ===== src/Orchestrator/Watch.antt =====
-- src/orchestrator.ts: `watch_job`, and its query over the metrics of a job.
pub mod Groups
pub mod Minutes
pub mod Totals
use cloudflare_r2_bench.Base.{
  ℕ, ◌*◌, ◌/◌, Bool, not, ◌&&◌, Option, none, some, List, [], ◌∷◌, Text, codes, text_eq, ltb, ◌==◌,
  if◌then◌else◌, length, first_row, where_rows, map,
}
use cloudflare_r2_bench.Js.Number.{Number, whole, lt_number, or_default}
use cloudflare_r2_bench.Js.Arith.{mul_number, div_number, sum_numbers, avg_numbers, max_numbers}
use cloudflare_r2_bench.Types.{status_text, WatchRequest}
use cloudflare_r2_bench.Db.{Db, Job, Metric}
use cloudflare_r2_bench.Db.Prog.{Prog, done, ◌>>=◌, select}
use cloudflare_r2_bench.Auth.{is_falsy}
use cloudflare_r2_bench.Spawn.{running_spawns}
use cloudflare_r2_bench.Orchestrator.{limit}

-- `strftime('%Y-%m-%d %H:%M:00', CREATED_AT)`: the minute that a second lies in.
abbrev pub minute_of : ℕ → ℕ
minute_of t = t / 60 * 60

-- A row of the inner query: what one spawn did in one minute.
pub record Sample : Type 0 where
  pub spawn_id : Text
  pub minute : ℕ
  pub latency : Number
  pub rps : Number
  pub error_m1_rate : Number
  pub count : Number
  pub bytes : Number
  pub p95 : Number
  pub p99 : Number

abbrev pub same_group : Metric → Metric → Bool
same_group a b = text_eq a.spawn_id b.spawn_id && (minute_of a.created_at == minute_of b.created_at)

-- One row of each group of `GROUP BY SPAWN_ID, minute`.
unfoldable pub leaders : List Metric → List Metric
leaders [] = []
leaders (m ∷ ms) = m ∷ where_rows (λ x. not (same_group m x)) (leaders ms)

unfoldable pub sample_of : List Metric → Metric → Sample
sample_of rows m =
    let group : List Metric = where_rows (same_group m) rows in
    record {
      spawn_id = m.spawn_id;
      minute = minute_of m.created_at;
      latency = avg_numbers (map (λ (x : Metric). x.latency) group);
      rps = avg_numbers (map (λ (x : Metric). x.rps) group);
      error_m1_rate = avg_numbers (map (λ (x : Metric). x.error_m1_rate) group);
      count = sum_numbers (map (λ (x : Metric). x.count) group);
      bytes = sum_numbers (map (λ (x : Metric). x.bytes) group);
      p95 = max_numbers (map (λ (x : Metric). x.p95) group);
      p99 = max_numbers (map (λ (x : Metric). x.p99) group);
    }

unfoldable pub samples : Text → Db → List Sample
samples job_id db =
    let rows : List Metric = where_rows (λ m. text_eq m.job_id job_id) db.metrics in
    map (sample_of rows) (leaders rows)

-- A row of the response.
pub record SpawnMetric : Type 0 where
  pub created_at : ℕ
  pub latency : Number
  pub rps : Number
  pub error_m1_rate : Number
  pub worker_count : ℕ
  pub p95 : Number
  pub p99 : Number
  pub bytes : Number

-- The minutes of the samples, each once, the latest first (`ORDER BY CREATED_AT DESC`).
unfoldable pub insert_minute : ℕ → List ℕ → List ℕ
insert_minute t [] = t ∷ []
insert_minute t (u ∷ us) =
    if t == u then u ∷ us else if ltb u t then t ∷ u ∷ us else u ∷ insert_minute t us

unfoldable pub minutes : List Sample → List ℕ
minutes [] = []
minutes (s ∷ ss) = insert_minute s.minute (minutes ss)

-- The mean latency weighted by the requests, or the plain mean if there were none.
unfoldable pub mean_latency : List Sample → Number
mean_latency group =
    let total = sum_numbers (map (λ (s : Sample). s.count) group) in
    if lt_number (whole 0) total
    then div_number (sum_numbers (map (λ (s : Sample). mul_number s.latency s.count) group)) total
    else avg_numbers (map (λ (s : Sample). s.latency) group)

unfoldable pub metric_at : List Sample → ℕ → SpawnMetric
metric_at all t =
    let group : List Sample = where_rows (λ (s : Sample). s.minute == t) all in
    record {
      created_at = t;
      latency = mean_latency group;
      rps = sum_numbers (map (λ (s : Sample). s.rps) group);
      error_m1_rate = sum_numbers (map (λ (s : Sample). s.error_m1_rate) group);
      worker_count = length group;
      p95 = max_numbers (map (λ (s : Sample). s.p95) group);
      p99 = max_numbers (map (λ (s : Sample). s.p99) group);
      bytes = sum_numbers (map (λ (s : Sample). s.bytes) group);
    }

unfoldable pub job_metrics : Text → Db → List SpawnMetric
job_metrics job_id db = let all = samples job_id db in limit 300 (map (metric_at all) (minutes all))

pub record WatchResponse : Type 0 where
  pub job_id : Text
  pub status : Text
  pub message : Option Text
  pub created_at : Option ℕ
  pub rps : Option ℕ
  pub running_containers : Option ℕ
  pub metrics : List SpawnMetric

abbrev pub unknown_job : Text → Text → WatchResponse
unknown_job job_id message = record {
  job_id = job_id;
  status = codes "unknown";
  message = some message;
  created_at = none;
  rps = none;
  running_containers = none;
  metrics = [];
}

unfoldable pub watch_found : Text → Job → Prog WatchResponse
watch_found job_id job = do
  running ← select (running_spawns job_id)
  metrics ← select (job_metrics job_id)
  done (record {
    job_id = job_id;
    status = status_text job.status;
    message = none;
    created_at = some job.created_at;
    rps = some job.rps;
    running_containers = some running;
    metrics = metrics;
  })

unfoldable pub watch_job : WatchRequest → Prog WatchResponse
watch_job request =
    let job_id = or_default request.job_id [] in
    if is_falsy request.job_id
    then done (unknown_job (codes "unknown") (codes "No JobID provided"))
    else do
      found ← select (λ db. first_row (λ j. text_eq j.job_id job_id) db.jobs)
      elim found [
        | none ↦ done (unknown_job job_id (codes "Job ID doesn't exist"))
        | some job ↦ watch_found job_id job
      ]
