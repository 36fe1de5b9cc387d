-- ===== src/Schedule/Handlers.antt =====
-- Every other handler keeps the invariant, whatever runs between its statements.
use cloudflare_r2_bench.Base.{
  ℕ, ◌≤◌, ◌≡◌, refl, suc, Bool, false, not, ◌||◌, List, [], ◌∷◌, Text, arith, ltb, ◌==◌,
  if◌then◌else◌, first_row,
}
use cloudflare_r2_bench.Js.Number.{or_default}
use cloudflare_r2_bench.Env.{Env}
use cloudflare_r2_bench.Types.{
  Status, queued, running, stopped, completed, failed, status_eq, JobStartRequest, WatchRequest,
  SpawnStatusRequest, SpawnMetricsReport, SpawnCompletionReport,
}
use cloudflare_r2_bench.Db.{Db, Clock}
use cloudflare_r2_bench.Db.Prog.{done, throw, or_same, throw_on_none}
use cloudflare_r2_bench.History.{rank}
use cloudflare_r2_bench.Consistency.{has_id}
use cloudflare_r2_bench.Consistency.Inserting.{insert_job-keeps}
use cloudflare_r2_bench.Agents.{occupancy}
use cloudflare_r2_bench.Auth.{is_falsy, verify_agent_token, verify_internal_request}
use cloudflare_r2_bench.Spawn.{
  open_statuses, is_stopping, metrics_batch, record_benchmark_metrics, set_spawn_status,
  set_job_status, job_status, running_spawns, fail_spawn, close_if_last, finish_spawn,
  complete_benchmark_spawn,
}
use cloudflare_r2_bench.Spawn.Reaper.{
  fail_stale, expired_jobs, finalise, finalise_jobs, fail_orphaned, close_stopping, reap_jobs,
}
use cloudflare_r2_bench.Orchestrator.{
  list_jobs, request_stop, stop_job, get_internal_job_status, record_internal_metrics,
  complete_internal_spawn,
}
use cloudflare_r2_bench.Orchestrator.Start.{
  Plan, plan_of, validation_error, active_job, planned_job, insert_job, queue_job, start_job,
}
use cloudflare_r2_bench.Orchestrator.Watch.{watch_job, watch_found}
use cloudflare_r2_bench.Schedule.Keeps.{
  Allowed-refl, Allowed-Rewrites, Keeps, Keeps->>=, Keeps-if, Keeps-option, Keeps-throw_on_none,
}
use cloudflare_r2_bench.Schedule.Statements.{
  request_stop-Rewrites, metrics_batch-Rewrites, set_spawn_status-Rewrites, set_job_status-Rewrites,
  fail_job-Rewrites, fail_stale-Rewrites, finalise-Rewrites, fail_orphaned-Rewrites,
  close_stopping-Rewrites, Rewrites-trans,
}

queue_job-Keeps :
    (clock : Clock) (req : JobStartRequest) (p : Plan) (seen : Db)
    → Keeps (queue_job clock req p) seen
unfolding queue_job
queue_job-Keeps clock req p seen = λ db c e. (
  Allowed-refl db c,
  Keeps-option (active_job db) _ _ db
      (λ db₂ c₂ e₂. (
        insert_job-keeps (planned_job clock p) db₂ c₂,
        Keeps->>= (throw_on_none (insert_job (planned_job clock p) db₂)) _
            (or_same db₂ (insert_job (planned_job clock p) db₂))
            (Keeps-throw_on_none (insert_job (planned_job clock p) db₂) _) (λ _ now. tt),
      ))
      (λ job h. tt),
)

pub start_job-Keeps :
    (env : Env) (clock : Clock) (req : JobStartRequest) (seen : Db)
    → Keeps (start_job env clock req) seen
unfolding start_job
start_job-Keeps env clock req seen =
    Keeps-option (validation_error env (plan_of req)) _ _ seen
      (queue_job-Keeps clock req (plan_of req) seen) (λ message h. tt)

pub stop_job-Keeps :
    (clock : Clock) (request : WatchRequest) (seen : Db) → Keeps (stop_job clock request) seen
unfolding stop_job
stop_job-Keeps clock request seen =
    let id = or_default request.job_id [] in
    Keeps-if (is_falsy request.job_id) _ _ seen tt (λ db c e.
      (Allowed-Rewrites db (request_stop clock id db) (request_stop-Rewrites clock id db) c, tt))

pub watch_job-Keeps : (request : WatchRequest) (seen : Db) → Keeps (watch_job request) seen
unfolding watch_job watch_found
watch_job-Keeps request seen =
    let id = or_default request.job_id [] in
    Keeps-if (is_falsy request.job_id) _ _ seen tt (λ db c e. (
      Allowed-refl db c,
      Keeps-option (first_row (has_id id) db.jobs) _ _ db tt
          (λ j h. λ db₂ c₂ e₂. (Allowed-refl db₂ c₂, λ db₃ c₃ e₃. (Allowed-refl db₃ c₃, tt))),
    ))

pub list_jobs-Keeps : (seen : Db) → Keeps list_jobs seen
unfolding list_jobs
list_jobs-Keeps seen = λ db c e. (Allowed-refl db c, tt)

verify_internal_request-Keeps :
    (env : Env) (request : SpawnStatusRequest) (seen : Db)
    → Keeps (verify_internal_request env request) seen
unfolding verify_internal_request
verify_internal_request-Keeps env request seen =
    Keeps-if {A = Unit {0}}
      (is_falsy request.spawn_id
        || is_falsy request.job_id
        || not (verify_agent_token env request.token))
      (throw _) (done tt) seen tt tt

pub get_internal_job_status-Keeps :
    (env : Env) (request : SpawnStatusRequest) (seen : Db)
    → Keeps (get_internal_job_status env request) seen
unfolding get_internal_job_status
get_internal_job_status-Keeps env request seen =
    Keeps->>= (verify_internal_request env request) _ seen
      (verify_internal_request-Keeps env request seen) (λ _ now db c e. (Allowed-refl db c, tt))

metrics-Keeps :
    (clock : Clock) (report : SpawnMetricsReport) (seen : Db)
    → Keeps (record_benchmark_metrics clock report) seen
unfolding record_benchmark_metrics
metrics-Keeps clock report seen = λ db c e.
    let batch =
      metrics_batch clock report (or_default report.request.spawn_id [])
        (or_default report.request.job_id []) in
    (
      Allowed-Rewrites db (or_same db (batch db))
          (metrics_batch-Rewrites clock report (or_default report.request.spawn_id [])
            (or_default report.request.job_id []) db)
          c,
      Keeps-throw_on_none (batch db) (or_same db (batch db)),
    )

pub record_internal_metrics-Keeps :
    (env : Env) (clock : Clock) (report : SpawnMetricsReport) (seen : Db)
    → Keeps (record_internal_metrics env clock report) seen
unfolding record_internal_metrics
record_internal_metrics-Keeps env clock report seen =
    Keeps->>= (verify_internal_request env report.request) _ seen
      (verify_internal_request-Keeps env report.request seen)
      (λ _ now. metrics-Keeps clock report now)

fail_spawn-Keeps :
    (clock : Clock) (spawn_id job_id : Text) (seen : Db)
    → Keeps (fail_spawn clock spawn_id job_id) seen
unfolding fail_spawn
fail_spawn-Keeps clock spawn_id job_id seen = λ db c e.
    let mid = set_spawn_status clock.stamp failed spawn_id db in
    let end = set_job_status clock.stamp failed (queued ∷ running ∷ []) job_id mid in
    (
      Allowed-Rewrites db end
          (Rewrites-trans db mid end (set_spawn_status-Rewrites clock.stamp failed spawn_id db refl)
            (fail_job-Rewrites clock.stamp job_id mid))
          c,
      tt,
    )

-- The two outcomes of a finished spawn come late in a job's life.
close_if_last-Keeps :
    (clock : Clock) (outcome : Status) (job_id : Text) (active : ℕ) (seen : Db)
    → 2 ≤ rank outcome
    → Keeps (close_if_last clock outcome job_id active) seen
unfolding close_if_last
close_if_last-Keeps clock outcome job_id active seen late =
    Keeps-if (active == 0) _ _ seen
      (λ db c e. (
        Allowed-Rewrites db (set_job_status clock.stamp outcome open_statuses job_id db)
            (set_job_status-Rewrites clock.stamp outcome job_id db late) c,
        tt,
      ))
      tt

late_outcome : (b : Bool) → 2 ≤ rank (if b then stopped else completed)
late_outcome b = ground arith

ended_outcome : (b : Bool) → status_eq (if b then stopped else completed) running ≡ false
ended_outcome b = ground arith

finish_spawn-Keeps :
    (clock : Clock) (spawn_id job_id : Text) (seen : Db)
    → Keeps (finish_spawn clock spawn_id job_id) seen
unfolding finish_spawn
finish_spawn-Keeps clock spawn_id job_id seen = λ db c e.
    let outcome = if is_stopping (job_status job_id db) then stopped else completed in
    (
      Allowed-refl db c,
      λ db₂ c₂ e₂. (
        Allowed-Rewrites db₂ (set_spawn_status clock.stamp outcome spawn_id db₂)
            (set_spawn_status-Rewrites clock.stamp outcome spawn_id db₂
              (ended_outcome (is_stopping (job_status job_id db))))
            c₂,
        λ db₃ c₃ e₃. (
          Allowed-refl db₃ c₃,
          close_if_last-Keeps clock outcome job_id (running_spawns job_id db₃) db₃
              (late_outcome (is_stopping (job_status job_id db))),
        ),
      ),
    )

pub complete_internal_spawn-Keeps :
    (env : Env) (clock : Clock) (report : SpawnCompletionReport) (seen : Db)
    → Keeps (complete_internal_spawn env clock report) seen
unfolding complete_internal_spawn complete_benchmark_spawn
complete_internal_spawn-Keeps env clock report seen =
    let spawn_id = or_default report.request.spawn_id [] in
    let job_id = or_default report.request.job_id [] in
    Keeps->>= (verify_internal_request env report.request) _ seen
      (verify_internal_request-Keeps env report.request seen)
      λ _ now.
        Keeps-if (is_falsy report.error) _ _ now (finish_spawn-Keeps clock spawn_id job_id now)
          (fail_spawn-Keeps clock spawn_id job_id now)

finalise_jobs-Keeps :
    (clock : Clock) (ids : List Text) (n : ℕ) (seen : Db) → Keeps (finalise_jobs clock ids n) seen
unfolding finalise_jobs
finalise_jobs-Keeps clock [] n seen = tt
finalise_jobs-Keeps clock (id ∷ ids) n seen = λ db c e.
    let outcome = if ltb 0 (occupancy id db) then completed else failed in
    (
      Allowed-refl db c,
      λ db₂ c₂ e₂. (
        Allowed-Rewrites db₂ (finalise clock outcome id db₂)
            (finalise-Rewrites clock outcome id db₂ (ground arith)) c₂,
        finalise_jobs-Keeps clock ids (suc n) (finalise clock outcome id db₂),
      ),
    )

pub reap_jobs-Keeps : (clock : Clock) (seen : Db) → Keeps (reap_jobs clock) seen
unfolding reap_jobs
reap_jobs-Keeps clock seen = λ db c e. (
  Allowed-Rewrites db (fail_stale clock db) (fail_stale-Rewrites clock db) c,
  λ db₂ c₂ e₂. (
    Allowed-refl db₂ c₂,
    Keeps->>= (finalise_jobs clock (expired_jobs clock db₂) 0) _ db₂
        (finalise_jobs-Keeps clock (expired_jobs clock db₂) 0 db₂)
        λ _ now db₃ c₃ e₃. (
          Allowed-Rewrites db₃ (fail_orphaned clock db₃) (fail_orphaned-Rewrites clock db₃) c₃,
          λ db₄ c₄ e₄. (
            Allowed-Rewrites db₄ (close_stopping clock db₄) (close_stopping-Rewrites clock db₄) c₄,
            tt,
          ),
        ),
  ),
)
