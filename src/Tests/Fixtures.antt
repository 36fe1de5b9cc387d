-- ===== src/Tests/Fixtures.antt =====
-- A deployment, a few requests and a database for the runs and the instances.
use cloudflare_r2_bench.Base.{ℕ, none, some, List, [], ◌∷◌, ◌++◌, refl, arith, Text, codes, text_eq}
use cloudflare_r2_bench.Js.Number.{whole}
use cloudflare_r2_bench.Env.{Env}
use cloudflare_r2_bench.Types.{running, completed, JobStartRequest, AgentPollRequest}
use cloudflare_r2_bench.Db.{Db, Job, Spawn, Clock}
use cloudflare_r2_bench.Consistency.{IsConsistent}
use cloudflare_r2_bench.Orchestrator.Route.{Request, Body, post}
use cloudflare_r2_bench.Schedule.{Call, http, cron}

abbrev pub env : Env
env = record {
  agent_token = some (codes "agent-secret");
  admin_token = some (codes "admin-secret");
  deployment_agents = some (codes "2");
  max_workers_per_agent = some (codes " 64 ");
}

abbrev pub clock_at : ℕ → Clock
clock_at now = record { now = now; stamp = 7; uuid = codes "u2" }

abbrev pub running_job : Job
running_job = record {
  job_id = codes "u1";
  rps = 11;
  concurrency = 2;
  duration = 1;
  status = running;
  created_at = 5;
  updated_at = 5;
  agents = 2;
  workers_per_agent = 8;
  start_at = 1000;
  stop_at = 61_000;
  unthrottled = 0;
}

abbrev pub finished_job : Job
finished_job = record running_job { job_id = codes "u0"; status = completed }

abbrev pub spawn_at : Text → ℕ → Spawn
spawn_at agent slot = record {
  spawn_id = codes "u1-" ++ agent;
  job_id = codes "u1";
  status = running;
  avg_latency = whole 0;
  avg_rps = whole 0;
  count = whole 0;
  created_at = 5;
  updated_at = 5;
  agent_id = agent;
  region = codes "eu";
  slot = slot;
  last_seen = some 900;
}

-- A finished job, and one of two agents of which the first has joined.
abbrev pub half_staffed : Db
half_staffed = record {
  jobs = finished_job ∷ running_job ∷ [];
  spawns = spawn_at (codes "a") 0 ∷ [];
  metrics = [];
}

pub half_staffed-IsConsistent : IsConsistent half_staffed
unfolding text_eq
half_staffed-IsConsistent = record {
  numbered = (refl, tt);
  distinct = (refl, (refl, tt));
  registered = (refl, tt);
  room = (omega arith, (omega arith, tt));
}

abbrev pub poll_body : Text → AgentPollRequest
poll_body agent = record {
  token = some (codes "agent-secret");
  agent_id = some agent;
  region = none;
}

abbrev pub no_body : Body
no_body = record {
  as_poll = none;
  as_status = none;
  as_metrics = none;
  as_completion = none;
  as_start = none;
  as_watch = none;
}

abbrev pub poll_request : Text → Request
poll_request agent = record {
  method = post;
  path = codes "/api/agent/poll";
  admin_header = none;
  admin_query = none;
  body = record no_body { as_poll = some (poll_body agent) };
}

abbrev pub start_body : JobStartRequest
start_body = record {
  target_rps = some (whole 100);
  agents = some (whole 2);
  workers_per_agent = some (whole 16);
  duration = some (whole 3);
  start_delay_seconds = none;
  unthrottled = none;
}

-- Two agents poll at once, while the reaper sweeps.
abbrev pub calls : List Call
calls =
    http (clock_at 2000) (poll_request (codes "b"))
    ∷ http (clock_at 2000) (poll_request (codes "c"))
    ∷ cron (clock_at 2000)
    ∷ []

abbrev pub schedule : List ℕ
schedule = 0 ∷ 1 ∷ 2 ∷ 1 ∷ 0 ∷ 1 ∷ 0 ∷ 2 ∷ 1 ∷ 0 ∷ 1 ∷ 0 ∷ 2 ∷ []
