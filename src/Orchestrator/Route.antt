-- ===== src/Orchestrator/Route.antt =====
-- src/orchestrator.ts `orchestrator_route`, and src/index.ts: the router with its error handling.
pub mod Access
use cloudflare_r2_bench.Base.{
  ℕ, Bool, Option, none, some, List, [], ◌++◌, Text, codes, text_eq, if◌then◌else◌,
}
use cloudflare_r2_bench.Js.Number.{or_default}
use cloudflare_r2_bench.Env.{Env}
use cloudflare_r2_bench.Types.{
  JobStartRequest, JobStartResponse, AgentPollRequest, AgentPollResponse, WatchRequest,
  SpawnStatusRequest, SpawnMetricsReport, SpawnCompletionReport, JobSummary,
}
use cloudflare_r2_bench.Db.{Clock}
use cloudflare_r2_bench.Db.Prog.{Prog, done, throw, atomic, unauthorized, failure, ◌>>=◌, ◌>>◌}
use cloudflare_r2_bench.Auth.{require_admin, is_falsy}
use cloudflare_r2_bench.Agents.{agent_poll}
use cloudflare_r2_bench.Orchestrator.{
  list_jobs, StopResponse, stop_job, get_internal_job_status, record_internal_metrics,
  complete_internal_spawn,
}
use cloudflare_r2_bench.Orchestrator.Start.{DeploymentConfig, deployment_config, start_job}
use cloudflare_r2_bench.Orchestrator.Watch.{WatchResponse, watch_job}

-- What `request.json()` yields when a handler reads it as each type of body; `none` where it throws,
-- or where the handler reads a field of `null`.
pub record Body : Type 0 where
  pub as_poll : Option AgentPollRequest
  pub as_status : Option SpawnStatusRequest
  pub as_metrics : Option SpawnMetricsReport
  pub as_completion : Option SpawnCompletionReport
  pub as_start : Option JobStartRequest
  pub as_watch : Option WatchRequest

pub data Method : Type 0 where
  get post other : Method

pub record Request : Type 0 where
  pub method : Method
  pub path : Text
  pub admin_header : Option Text
  pub admin_query : Option Text
  pub body : Body

pub data Payload : Type 0 where
  jobs : List JobSummary → Payload
  config : DeploymentConfig → Payload
  poll : AgentPollResponse → Payload
  job_status : Text → Payload
  ok : Payload
  started : JobStartResponse → Payload
  watched : WatchResponse → Payload
  stopping : StopResponse → Payload
  error_message : Text → Payload
  error : Payload
  not_found : Payload

-- JSON with a status, the plain text of a failed start, or an asset of the page's own host.
pub data Response : Type 0 where
  json : ℕ → Payload → Response
  failed_start : JobStartResponse → Response
  asset : Text → Response

abbrev pub parsed : {A : Type 0} → Option A → Prog A
parsed none = throw failure
parsed (some a) = done a

abbrev pub ok_json : Payload → Prog Response
ok_json p = done (json 200 p)

-- `/start`: the page that follows the job.
unfoldable pub started_page : JobStartResponse → Response
started_page response =
    if is_falsy response.job_id
    then failed_start response
    else asset (codes "/watch.html?jobId=" ++ or_default response.job_id [])

module _ (env : Env) (clock : Clock) (request : Request) where
  abbrev pub admin : Prog (Unit {0})
  admin = require_admin env request.admin_header request.admin_query

  abbrev pub is_path : Text → Bool
  is_path path = text_eq request.path path

  abbrev pub missing : Prog Response
  missing = done (json 404 not_found)

  unfoldable pub get_route : Prog Response
  get_route =
      if is_path (codes "/")
      then done (asset (codes "/index.html"))
      else if is_path (codes "/api/v1/jobs")
      then admin >> (list_jobs >>= λ found. ok_json (jobs found))
      else if is_path (codes "/api/v1/config")
      then admin >> ok_json (config (deployment_config env))
      else missing

  unfoldable pub agent_route : Prog Response → Prog Response
  agent_route otherwise =
      if is_path (codes "/api/agent/poll")
      then (parsed request.body.as_poll >>= λ b. agent_poll env clock b >>= λ r. ok_json (poll r))
      else if is_path (codes "/api/internal/spawn-status")
      then (parsed request.body.as_status >>= λ b.
          get_internal_job_status env b >>= λ r. ok_json (job_status r))
      else if is_path (codes "/api/internal/spawn-metrics")
      then (parsed request.body.as_metrics >>= λ b.
          record_internal_metrics env clock b >> ok_json ok)
      else if is_path (codes "/api/internal/spawn-complete")
      then (parsed request.body.as_completion >>= λ b.
          complete_internal_spawn env clock b >> ok_json ok)
      else otherwise

  unfoldable pub operator_route : Prog Response
  operator_route =
      if is_path (codes "/api/v1/start")
      then admin
        >> (parsed request.body.as_start >>= λ b.
            start_job env clock b >>= λ r. ok_json (started r))
      else if is_path (codes "/api/v1/watch")
      then admin >> (parsed request.body.as_watch >>= λ b. watch_job b >>= λ r. ok_json (watched r))
      else if is_path (codes "/api/v1/stop")
      then admin
        >> (parsed request.body.as_watch >>= λ b. stop_job clock b >>= λ r. ok_json (stopping r))
      else if is_path (codes "/start")
      then admin
        >> (parsed request.body.as_start >>= λ b.
            start_job env clock b >>= λ r. done (started_page r))
      else missing

  unfoldable pub routes : Prog Response
  routes = elim request.method [
    | get ↦ get_route
    | post ↦ agent_route operator_route
    | other ↦ missing
  ]

-- The `catch` of the router: a bad token is answered by 401, the rest is thrown on.
unfoldable pub catch_unauthorized : Prog Response → Prog Response
catch_unauthorized (done r) = done r
catch_unauthorized (throw (unauthorized message)) = done (json 401 (error_message message))
catch_unauthorized (throw failure) = throw failure
catch_unauthorized (atomic f k) = atomic f (λ db. catch_unauthorized (k db))

unfoldable pub orchestrator_route : Env → Clock → Request → Prog Response
orchestrator_route env clock request = catch_unauthorized (routes env clock request)

-- The `catch` of the Worker's `fetch`.
unfoldable pub catch_all : Prog Response → Prog Response
catch_all (done r) = done r
catch_all (throw e) = done (json 503 error)
catch_all (atomic f k) = atomic f (λ db. catch_all (k db))

unfoldable pub fetch : Env → Clock → Request → Prog Response
fetch env clock request = catch_all (orchestrator_route env clock request)
