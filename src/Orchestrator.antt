-- ===== src/Orchestrator.antt =====
-- src/orchestrator.ts: the operator's and the agents' endpoints. `watch_job` is in `Watch`, the
-- request router in `Route`.
pub mod Start
pub mod Listing
pub mod Watch
pub mod Route
use cloudflare_r2_bench.Base.{
  ℕ, suc, ◌+◌, Bool, true, false, not, ◌&&◌, ◌||◌, zero, Option, none, some, List, [], ◌∷◌, ◌++◌,
  Text, codes, text_eq, ltb, ◌==◌, if◌then◌else◌, count_rows, first_row, update_rows, map,
}
use cloudflare_r2_bench.Js.Number.{or_default}
use cloudflare_r2_bench.Env.{Env}
use cloudflare_r2_bench.Types.{
  Status, stopping, status_text, status_in, terminal_statuses, WatchRequest, SpawnStatusRequest,
  SpawnMetricsReport, SpawnCompletionReport, JobSummary,
}
use cloudflare_r2_bench.Db.{Db, Job, Clock}
use cloudflare_r2_bench.Db.Prog.{Prog, done, ◌>>=◌, ◌>>◌, select, execute_counted}
use cloudflare_r2_bench.Auth.{is_falsy, verify_internal_request}
use cloudflare_r2_bench.Spawn.{job_status, record_benchmark_metrics, complete_benchmark_spawn}

-- `ORDER BY CREATED_AT DESC`: a stable insertion sort, so rows of one second keep their order.
insert_newest : Job → List Job → List Job
insert_newest job [] = job ∷ []
insert_newest job (j ∷ jobs) =
    if ltb j.created_at job.created_at || j.created_at == job.created_at
    then job ∷ j ∷ jobs
    else j ∷ insert_newest job jobs

newest_first : List Job → List Job
newest_first [] = []
newest_first (job ∷ jobs) = insert_newest job (newest_first jobs)

-- `LIMIT n`.
abbrev pub limit {ℓ} : {A : Type ℓ} → ℕ → List A → List A
limit zero rows = []
limit (suc n) [] = []
limit (suc n) (row ∷ rows) = row ∷ limit n rows

abbrev pub job_summary : Job → JobSummary
job_summary job = record {
  job_id = job.job_id;
  status = status_text job.status;
  rps = job.rps;
  concurrency = job.agents;
  duration = job.duration;
  created_at = job.created_at;
  updated_at = job.updated_at;
}

unfoldable pub list_jobs : Prog (List JobSummary)
unfolding newest_first insert_newest
list_jobs = select (λ db. map job_summary (limit 200 (newest_first db.jobs)))

pub record StopResponse : Type 0 where
  pub job_id : Text
  pub status : Text
  pub message : Text

abbrev pub is_stoppable : Text → Job → Bool
is_stoppable job_id j = text_eq j.job_id job_id && not (status_in j.status terminal_statuses)

abbrev pub stop_requested : Clock → Job → Job
stop_requested clock j = record j {
  status = stopping;
  stop_at = clock.now;
  updated_at = clock.stamp;
}

-- `UPDATE JOBS SET STATUS = 'STOPPING', STOP_AT = ? WHERE JOB_ID = ? AND STATUS NOT IN (…)`.
unfoldable pub request_stop : Clock → Text → Db → Db
request_stop clock job_id db = record db {
  jobs = update_rows (is_stoppable job_id) (stop_requested clock) db.jobs;
}

unfoldable pub count_stoppable : Text → Db → ℕ
count_stoppable job_id db = count_rows (is_stoppable job_id) db.jobs

unfoldable pub stop_job : Clock → WatchRequest → Prog StopResponse
stop_job clock request =
    let job_id = or_default request.job_id [] in
    if is_falsy request.job_id
    then done (record {
      job_id = codes "unknown";
      status = codes "error";
      message = codes "No JobID provided";
    })
    else do
      changes ← execute_counted (request_stop clock job_id) (count_stoppable job_id)
      done (record {
        job_id = job_id;
        status = codes "STOPPING";
        message =
            if changes == 0
            then codes "Job was already finished or does not exist"
            else codes "Stop requested; agents wind down within ~10s";
      })

abbrev pub status_or_unknown : Option Status → Text
status_or_unknown none = codes "unknown"
status_or_unknown (some s) = status_text s

unfoldable pub get_internal_job_status : Env → SpawnStatusRequest → Prog Text
get_internal_job_status env request = do
  verify_internal_request env request
  found ← select (job_status (or_default request.job_id []))
  done (status_or_unknown found)

unfoldable pub record_internal_metrics : Env → Clock → SpawnMetricsReport → Prog (Unit {0})
record_internal_metrics env clock report = do
  verify_internal_request env report.request
  record_benchmark_metrics clock report

unfoldable pub complete_internal_spawn : Env → Clock → SpawnCompletionReport → Prog (Unit {0})
complete_internal_spawn env clock report = do
  verify_internal_request env report.request
  complete_benchmark_spawn clock report
