-- ===== src/Schedule/Routes.antt =====
-- The router, the error handlers and the cron entry keep the invariant.
use cloudflare_r2_bench.Base.{inl, inr, Option, none, some, Text, codes}
use cloudflare_r2_bench.Env.{Env}
use cloudflare_r2_bench.Db.{Db, Clock}
use cloudflare_r2_bench.Db.Prog.{Prog, done, ◌>>=◌}
use cloudflare_r2_bench.Auth.{require_admin}
use cloudflare_r2_bench.Auth.Checks.{require_admin_cases}
use cloudflare_r2_bench.Orchestrator.Route.{
  Request, Response, Method, get, post, other, parsed, is_path, get_route, agent_route,
  operator_route, routes, orchestrator_route, fetch,
}
use cloudflare_r2_bench.Spawn.Reaper.{reap_jobs}
use cloudflare_r2_bench.Schedule.{Call, http, cron, serve}
use cloudflare_r2_bench.Schedule.Keeps.{
  Keeps, Keeps-if, Keeps->>=, Keeps-catch_unauthorized, Keeps-catch_all,
}
use cloudflare_r2_bench.Schedule.Poll.{agent_poll-Keeps}
use cloudflare_r2_bench.Schedule.Handlers.{
  start_job-Keeps, stop_job-Keeps, watch_job-Keeps, list_jobs-Keeps, get_internal_job_status-Keeps,
  record_internal_metrics-Keeps, complete_internal_spawn-Keeps, reap_jobs-Keeps,
}

require_admin-Keeps :
    (env : Env) (header query : Option Text) (seen : Db)
    → Keeps (require_admin env header query) seen
require_admin-Keeps env header query seen = elim (require_admin_cases env header query).1 [
  | inl through ↦ rw through tt
  | inr refused ↦ rw refused tt
]

parsed-Keeps : {A : Type 0} (o : Option A) (seen : Db) → Keeps (parsed o) seen
parsed-Keeps none seen = tt
parsed-Keeps (some a) seen = tt

module _ (env : Env) (clock : Clock) (request : Request) (seen : Db) where
  -- An endpoint behind the admin token.
  behind_admin :
      (m : Prog Response)
      → ((now : Db) → Keeps m now)
      → Keeps (require_admin env request.admin_header request.admin_query >>= λ _. m) seen
  behind_admin m k =
      Keeps->>= (require_admin env request.admin_header request.admin_query) _ seen
        (require_admin-Keeps env request.admin_header request.admin_query seen) (λ _ now. k now)

  -- A handler that reads a body.
  from_body :
      {A B : Type 0} (o : Option A) (h : A → Prog B) (answer : B → Response) (now : Db)
      → ((a : A) (at : Db) → Keeps (h a) at)
      → Keeps (parsed o >>= λ a. h a >>= λ b. done (answer b)) now
  from_body o h answer now k =
      Keeps->>= (parsed o) _ now (parsed-Keeps o now)
        (λ a at. Keeps->>= (h a) _ at (k a at) (λ b end. tt))

  get_route-Keeps : Keeps (get_route env clock request) seen
  unfolding get_route
  get_route-Keeps = Keeps-if (is_path env clock request (codes "/")) _ _ seen tt (
      Keeps-if (is_path env clock request (codes "/api/v1/jobs")) _ _ seen
        (behind_admin _ (λ now. Keeps->>= _ _ now (list_jobs-Keeps now) (λ b end. tt)))
        (Keeps-if (is_path env clock request (codes "/api/v1/config")) _ _ seen
          (behind_admin _ (λ now. tt)) tt))

  agent_route-Keeps :
      (otherwise : Prog Response)
      → Keeps otherwise seen
      → Keeps (agent_route env clock request otherwise) seen
  unfolding agent_route
  agent_route-Keeps otherwise k =
      Keeps-if (is_path env clock request (codes "/api/agent/poll")) _ _ seen
        (from_body request.body.as_poll _ _ seen (agent_poll-Keeps env clock))
        (Keeps-if (is_path env clock request (codes "/api/internal/spawn-status")) _ _ seen
          (from_body request.body.as_status _ _ seen (get_internal_job_status-Keeps env))
          (Keeps-if (is_path env clock request (codes "/api/internal/spawn-metrics")) _ _ seen
            (from_body request.body.as_metrics _ _ seen (record_internal_metrics-Keeps env clock))
            (Keeps-if (is_path env clock request (codes "/api/internal/spawn-complete")) _ _ seen
              (from_body request.body.as_completion _ _ seen
                (complete_internal_spawn-Keeps env clock))
              k)))

  operator_route-Keeps : Keeps (operator_route env clock request) seen
  unfolding operator_route
  operator_route-Keeps =
      Keeps-if (is_path env clock request (codes "/api/v1/start")) _ _ seen
        (behind_admin _
          (λ now. from_body request.body.as_start _ _ now (start_job-Keeps env clock)))
        (Keeps-if (is_path env clock request (codes "/api/v1/watch")) _ _ seen
          (behind_admin _ (λ now. from_body request.body.as_watch _ _ now watch_job-Keeps))
          (Keeps-if (is_path env clock request (codes "/api/v1/stop")) _ _ seen
            (behind_admin _ (λ now. from_body request.body.as_watch _ _ now (stop_job-Keeps clock)))
            (Keeps-if (is_path env clock request (codes "/start")) _ _ seen
              (behind_admin _
                (λ now. from_body request.body.as_start _ _ now (start_job-Keeps env clock)))
              tt)))

by_method :
    (m : Method) (g p o : Prog Response) (seen : Db)
    → Keeps g seen
    → Keeps p seen
    → Keeps o seen
    → Keeps (elim m [ get ↦ g | post ↦ p | other ↦ o ]) seen
by_method get g p o seen k h l = k
by_method post g p o seen k h l = h
by_method other g p o seen k h l = l

pub fetch-Keeps :
    (env : Env) (clock : Clock) (request : Request) (seen : Db)
    → Keeps (fetch env clock request) seen
unfolding fetch orchestrator_route routes
fetch-Keeps env clock request seen = Keeps-catch_all (orchestrator_route env clock request) seen (
    Keeps-catch_unauthorized (routes env clock request) seen (
      by_method request.method _ _ _ seen (get_route-Keeps env clock request seen)
        (agent_route-Keeps env clock request seen _ (operator_route-Keeps env clock request seen))
        tt))

pub serve-Keeps : (env : Env) (call : Call) (seen : Db) → Keeps (serve env call) seen
unfolding serve
serve-Keeps env (http clock request) seen =
    Keeps->>= (fetch env clock request) _ seen (fetch-Keeps env clock request seen) (λ r now. tt)
serve-Keeps env (cron clock) seen =
    Keeps->>= (reap_jobs clock) _ seen (reap_jobs-Keeps clock seen) (λ r now. tt)
