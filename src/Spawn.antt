-- ===== src/Spawn.antt =====
-- src/spawn.ts: metrics reports, completion reports and the scheduled reaper.
pub mod Reaper
pub mod Completion
use cloudflare_r2_bench.Base.{
  ℕ, suc, ◌+◌, Bool, true, false, ◌&&◌, Option, none, some, List, [], ◌∷◌, ◌++◌, Text, text_eq, ltb,
  ◌==◌, if◌then◌else◌, count_rows, first_row, any_row, update_rows, where_rows, map,
}
use mathlib.Core.Option
use cloudflare_r2_bench.Js.Number.{whole, or_default}
use cloudflare_r2_bench.Types.{
  Status, queued, running, stopping, completed, stopped, failed, status_eq, status_in,
  SpawnMetricsReport, SpawnCompletionReport,
}
use cloudflare_r2_bench.Db.{Db, Job, Spawn, Metric, Clock, spawn_now, job_now}
use cloudflare_r2_bench.Db.Prog.{
  Prog, done, ◌>>=◌, ◌>>◌, select, execute, execute_counted, execute_checked,
}
use cloudflare_r2_bench.Auth.{is_falsy}

abbrev pub spawn_stale_after_ms : ℕ
spawn_stale_after_ms = 90_000

abbrev pub job_finalise_grace_ms : ℕ
job_finalise_grace_ms = 30_000

abbrev pub queued_without_agents_timeout_ms : ℕ
queued_without_agents_timeout_ms = 300_000

-- `STATUS IN ('QUEUED', 'RUNNING', 'STOPPING')`.
abbrev pub open_statuses : List Status
open_statuses = queued ∷ running ∷ stopping ∷ []

abbrev pub metric_row : Clock → SpawnMetricsReport → Text → Text → Metric
metric_row clock report spawn_id job_id = record {
  metric_id = clock.uuid;
  tick_number = report.tick_number;
  spawn_id = spawn_id;
  job_id = job_id;
  latency = report.latency;
  rps = report.rps;
  count = report.count;
  created_at = clock.stamp;
  error_m1_rate = or_default report.error_m1_rate (whole 0);
  p50 = or_default report.p50 (whole 0);
  p95 = or_default report.p95 (whole 0);
  p99 = or_default report.p99 (whole 0);
  bytes = or_default report.bytes (whole 0);
  status_4xx = or_default report.status_4xx (whole 0);
  status_5xx = or_default report.status_5xx (whole 0);
}

abbrev pub reported : Clock → SpawnMetricsReport → Spawn → Spawn
reported clock report s = record s {
  avg_latency = report.avg_latency;
  avg_rps = report.actual_rps;
  count = report.total_count;
  last_seen = some clock.now;
  updated_at = clock.stamp;
}

-- The batch of `record_benchmark_metrics`: both statements, or neither where METRIC_ID is taken.
unfoldable pub metrics_batch : Clock → SpawnMetricsReport → Text → Text → Db → Option Db
metrics_batch clock report spawn_id job_id db =
    if any_row (λ m. text_eq m.metric_id clock.uuid) db.metrics
    then none
    else some (record db {
      metrics = db.metrics ++ metric_row clock report spawn_id job_id ∷ [];
      spawns = update_rows (λ s. text_eq s.spawn_id spawn_id) (reported clock report) db.spawns;
    })

unfoldable pub record_benchmark_metrics : Clock → SpawnMetricsReport → Prog (Unit {0})
record_benchmark_metrics clock report = execute_checked (
    metrics_batch clock report (or_default report.request.spawn_id [])
      (or_default report.request.job_id []))

-- `UPDATE JOB_SPAWNS SET STATUS = ? WHERE SPAWN_ID = ?`.
unfoldable pub set_spawn_status : ℕ → Status → Text → Db → Db
set_spawn_status stamp status spawn_id db = record db {
  spawns = update_rows (λ s. text_eq s.spawn_id spawn_id) (spawn_now stamp status) db.spawns;
}

-- `UPDATE JOBS SET STATUS = ? WHERE JOB_ID = ? AND STATUS IN (…)`.
unfoldable pub set_job_status : ℕ → Status → List Status → Text → Db → Db
set_job_status stamp status from job_id db = record db {
  jobs =
      update_rows (λ j. text_eq j.job_id job_id && status_in j.status from) (job_now stamp status)
        db.jobs;
}

unfoldable pub job_status : Text → Db → Option Status
job_status job_id db =
    Option.map (λ (j : Job). j.status) (first_row (λ j. text_eq j.job_id job_id) db.jobs)

-- `SELECT COUNT(*) FROM JOB_SPAWNS WHERE JOB_ID = ? AND STATUS = 'RUNNING'`.
unfoldable pub running_spawns : Text → Db → ℕ
running_spawns job_id db =
    count_rows (λ s. text_eq s.job_id job_id && status_eq s.status running) db.spawns

abbrev pub is_stopping : Option Status → Bool
is_stopping none = false
is_stopping (some s) = status_in s (stopping ∷ stopped ∷ [])

-- A report with an error fails the spawn and the job.
unfoldable pub fail_spawn : Clock → Text → Text → Prog (Unit {0})
fail_spawn clock spawn_id job_id = execute (λ db.
    set_job_status clock.stamp failed (queued ∷ running ∷ []) job_id
      (set_spawn_status clock.stamp failed spawn_id db))

-- The job is closed with its last running spawn.
unfoldable pub close_if_last : Clock → Status → Text → ℕ → Prog (Unit {0})
close_if_last clock outcome job_id active =
    if active == 0
    then execute (set_job_status clock.stamp outcome open_statuses job_id)
    else done tt

-- A report without an error closes the spawn.
unfoldable pub finish_spawn : Clock → Text → Text → Prog (Unit {0})
finish_spawn clock spawn_id job_id = do
  found ← select (job_status job_id)
  let outcome = if is_stopping found then stopped else completed
  execute (set_spawn_status clock.stamp outcome spawn_id)
  active ← select (running_spawns job_id)
  close_if_last clock outcome job_id active

unfoldable pub complete_benchmark_spawn : Clock → SpawnCompletionReport → Prog (Unit {0})
complete_benchmark_spawn clock report =
    let spawn_id = or_default report.request.spawn_id [] in
    let job_id = or_default report.request.job_id [] in
    if is_falsy report.error
    then finish_spawn clock spawn_id job_id
    else fail_spawn clock spawn_id job_id
