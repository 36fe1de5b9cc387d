-- ===== src/Orchestrator/Start.antt =====
-- src/orchestrator.ts: `start_job`, with the deployment's variables that it reads.
pub mod Validation
pub mod Outcomes
use cloudflare_r2_bench.Base.{
  ℕ, ◌+◌, ◌*◌, Bool, true, false, not, ◌&&◌, ◌||◌, Option, none, some, List, [], ◌∷◌, ◌++◌, Text,
  codes, decimal, text_eq, if◌then◌else◌, first_row, any_row,
}
use cloudflare_r2_bench.Js.Number.{
  Number, nan, whole, is_finite, floor, floor_field, lt_number, le_zero, or_default, to_count,
}
use cloudflare_r2_bench.Js.Parse.{string_to_number}
use cloudflare_r2_bench.Env.{Env}
use cloudflare_r2_bench.Types.{queued, status_in, JobStartRequest, JobStartResponse}
use cloudflare_r2_bench.Db.{Db, Job, Clock}
use cloudflare_r2_bench.Db.Prog.{Prog, done, ◌>>=◌, ◌>>◌, select, execute_checked}
use cloudflare_r2_bench.Spawn.{open_statuses}

abbrev pub max_agents_per_job : ℕ
max_agents_per_job = 512

abbrev pub default_workers_per_agent : ℕ
default_workers_per_agent = 512

abbrev pub default_start_delay_seconds : ℕ
default_start_delay_seconds = 30

abbrev number_of : Option Text → Number
number_of none = nan
number_of (some s) = string_to_number s

-- A finite number above 0, rounded down; else nothing.
unfoldable pub positive_number : Number → Option ℕ
positive_number n = if is_finite n && lt_number (whole 0) n then some (to_count (floor n)) else none

unfoldable pub positive_var : Option Text → Option ℕ
unfolding string_to_number positive_number
positive_var raw = positive_number (number_of raw)

unfoldable pub max_workers_per_agent : Env → Option ℕ
max_workers_per_agent env = positive_var env.max_workers_per_agent

pub record DeploymentConfig : Type 0 where
  pub provisioned_agents : Option ℕ
  pub max_workers_per_agent : Option ℕ

unfoldable pub deployment_config : Env → DeploymentConfig
deployment_config env = record {
  provisioned_agents = positive_var env.deployment_agents;
  max_workers_per_agent = max_workers_per_agent env;
}

-- The request's numbers after `Math.floor` and the defaults.
pub record Plan : Type 0 where
  pub target_rps : Number
  pub agents : Number
  pub workers_per_agent : Number
  pub duration : Number
  pub start_delay_seconds : Number
  pub unthrottled : Bool

abbrev is_true : Option Bool → Bool
is_true none = false
is_true (some b) = b

unfoldable pub plan_of : JobStartRequest → Plan
plan_of req = record {
  target_rps = floor_field req.target_rps;
  agents = floor_field req.agents;
  workers_per_agent = floor (or_default req.workers_per_agent (whole default_workers_per_agent));
  duration = floor_field req.duration;
  start_delay_seconds =
      floor (or_default req.start_delay_seconds (whole default_start_delay_seconds));
  unthrottled = is_true req.unthrottled;
}

-- The loop over the named values: the first that is not a positive number.
unfoldable pub first_invalid : List (Text × Number) → Option Text
first_invalid [] = none
first_invalid ((name, value) ∷ entries) =
    let rest = first_invalid entries in
    if not (is_finite value) || le_zero value
    then some (name ++ codes " must be a positive number")
    else rest

abbrev pub named_values : Plan → List (Text × Number)
named_values p =
    (codes "targetRPS", p.target_rps)
    ∷ (codes "agents", p.agents)
    ∷ (codes "workersPerAgent", p.workers_per_agent)
    ∷ (codes "duration", p.duration)
    ∷ []

unfoldable pub above_cap : Option ℕ → Number → Option Text
above_cap none workers = none
above_cap (some cap) workers =
    if lt_number (whole cap) workers
    then some (
        codes "workersPerAgent must be at most "
        ++ (decimal cap
            ++ codes
                ", the agents' MAX_WORKERS. Raising it means changing max_workers_per_agent in Terraform and rolling the fleet."))
    else none

-- The checks after the loop, in their order.
unfoldable pub other_errors : Env → Plan → Option Text
other_errors env p =
    if not (is_finite p.start_delay_seconds) || lt_number p.start_delay_seconds (whole 0)
    then some (codes "startDelaySeconds must be zero or greater")
    else if lt_number (whole max_agents_per_job) p.agents
    then some (codes "agents must be at most " ++ decimal max_agents_per_job)
    else if not p.unthrottled && lt_number p.target_rps p.agents
    then some
        (codes "targetRPS must be at least the number of agents so every agent gets at least 1 RPS")
    else above_cap (max_workers_per_agent env) p.workers_per_agent

abbrev or_else : Option Text → Option Text → Option Text
or_else none b = b
or_else (some a) b = some a

-- The message of the first check that fails.
unfoldable pub validation_error : Env → Plan → Option Text
validation_error env p = or_else (first_invalid (named_values p)) (other_errors env p)

unfoldable pub active_job : Db → Option Job
active_job db = first_row (λ j. status_in j.status open_statuses) db.jobs

abbrev pub flag : Bool → ℕ
flag true = 1
flag false = 0

-- The row that the INSERT writes: a queued job with the window that the request asks for.
unfoldable pub planned_job : Clock → Plan → Job
planned_job clock p =
    let start_at = clock.now + to_count p.start_delay_seconds * 1000 in
    record {
      job_id = clock.uuid;
      rps = to_count p.target_rps;
      concurrency = to_count p.agents;
      duration = to_count p.duration;
      status = queued;
      created_at = clock.stamp;
      updated_at = clock.stamp;
      agents = to_count p.agents;
      workers_per_agent = to_count p.workers_per_agent;
      start_at = start_at;
      stop_at = start_at + to_count p.duration * 60 * 1000;
      unthrottled = flag p.unthrottled;
    }

-- The INSERT; `none` is a primary key that is taken.
unfoldable pub insert_job : Job → Db → Option Db
insert_job job db =
    if any_row (λ j. text_eq j.job_id job.job_id) db.jobs
    then none
    else some (record db { jobs = db.jobs ++ job ∷ [] })

abbrev pub invalid : JobStartRequest → Text → JobStartResponse
invalid req message = record {
  status = codes "error";
  message = message;
  job_request = req;
  job_id = none;
}

unfoldable pub still_active : Job → Text
still_active job =
    codes "job " ++ (job.job_id ++ codes " is still active; stop it before starting another")

unfoldable pub job_queued : Clock → JobStartRequest → Plan → JobStartResponse
job_queued clock req p = record {
  status = codes "success";
  message =
      codes "Job queued. Load starts in "
      ++ (decimal (to_count p.start_delay_seconds) ++ codes "s once agents check in.");
  job_request = req;
  job_id = some clock.uuid;
}

-- From the check for an active job on.
unfoldable pub queue_job : Clock → JobStartRequest → Plan → Prog JobStartResponse
queue_job clock req p = do
  active ← select active_job
  elim active [
    | some job ↦ done (invalid req (still_active job))
    | none ↦ execute_checked (insert_job (planned_job clock p)) >> done (job_queued clock req p)
  ]

unfoldable pub start_job : Env → Clock → JobStartRequest → Prog JobStartResponse
start_job env clock req =
    let p = plan_of req in
    elim (validation_error env p) [
      | some message ↦ done (invalid req message)
      | none ↦ queue_job clock req p
    ]
