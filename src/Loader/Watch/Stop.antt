-- ===== src/Loader/Watch/Stop.antt =====
-- cmd/agent/main.go `watchStatus` against src/orchestrator.ts `stop_job`.
use cloudflare_r2_bench.Base.{
  ℕ, ◌≤◌, ◌≡◌, ◌≢◌, ◌↔◌, refl, ap, ◌∙◌, true, Option, some, List, [], ◌∷◌, ◌++◌, Text, text_eq,
  first_row, arith,
}
use cloudflare_r2_bench.Env.{Env}
use cloudflare_r2_bench.Types.{Status, status_text, WatchRequest}
use cloudflare_r2_bench.Db.{Db, Job, Clock}
use cloudflare_r2_bench.Db.Prog.{run, returned, Outcome}
use cloudflare_r2_bench.History.{rank}
use cloudflare_r2_bench.Auth.Checks.{is_falsy_full}
use cloudflare_r2_bench.Auth.{verify_agent_token, verify_internal_request}
use cloudflare_r2_bench.Consistency.{IsConsistent, has_id}
use cloudflare_r2_bench.Spawn.{job_status}
use cloudflare_r2_bench.Orchestrator.{stop_job, get_internal_job_status, status_or_unknown}
use cloudflare_r2_bench.Orchestrator.Route.{
  Response, Payload, json, fetch, catch_all, orchestrator_route, catch_unauthorized, routes,
  agent_route,
}
use cloudflare_r2_bench.Schedule.{Call}
use cloudflare_r2_bench.Schedule.Safety.{db_after}
use cloudflare_r2_bench.Schedule.Stopping.{stopped_row}
use cloudflare_r2_bench.Loader.{
  failure, answer_of, ControlClient, status_request, agent_job_status, worker_at, post_result,
  success, Result,
}
use cloudflare_r2_bench.Loader.Watch.{ends_load, watch_status}

ends_load_iff : (s : Status) → (ends_load (status_text s) ≡ true) ↔ (2 ≤ rank s)
unfolding ends_load status_text text_eq
ends_load_iff s = ground arith

module _ (env : Env) (clock : Clock) (c : ControlClient) (decode : Response → Option Text)
    (id spawn_id : Text) (db : Db)
    (reads : (s : Text) → decode (json 200 (Payload.job_status s)) ≡ some s)
    (right : verify_agent_token env (some c.token) ≡ true) (named : id ≢ [])
    (known : spawn_id ≢ []) where
  fetched :
      run (fetch env clock (status_request c id spawn_id)) db
      ≡ (returned (json 200 (Payload.job_status (status_or_unknown (job_status id db)))), db)
  unfolding fetch catch_all orchestrator_route catch_unauthorized routes agent_route text_eq
      get_internal_job_status verify_internal_request
  fetched = rw (is_falsy_full spawn_id known, is_falsy_full id named, right) refl

  status_found :
      (k : Job)
      → first_row (has_id id) db.jobs ≡ some k
      → status_or_unknown (job_status id db) ≡ status_text k.status
  unfolding job_status
  status_found k found = rw found refl

  -- One check, when the job has a row.
  pub checked :
      (k : Job)
      → first_row (has_id id) db.jobs ≡ some k
      → agent_job_status c decode (worker_at env clock db) id spawn_id
        ≡ success (status_text k.status)
  unfolding agent_job_status post_result
  checked k found =
      ap (λ (o : Outcome Response × Db). post_result c decode (answer_of o.0)) fetched
      ∙ rw (reads (status_or_unknown (job_status id db)), post_result, status_found k found) refl

watch_status_ends :
    (before after : List (Result Text)) (status : Text)
    → ends_load status ≡ true
    → watch_status (before ++ success status ∷ after) ≡ true
unfolding watch_status
watch_status_ends [] after status ends = rw ends refl
watch_status_ends (failure why ∷ before) after status ends =
    watch_status_ends before after status ends
watch_status_ends (success s ∷ before) after status ends =
    rw (watch_status_ends before after status ends) (ground arith)

-- Once a stop of a job of a consistent database was requested, an agent with the right token that
-- watches the job cancels its load at its next check that reaches the control plane, whatever its
-- earlier checks gave and whatever requests and cron ticks ran in between.
pub stop_reaches_agent :
    (env : Env) (calls : List Call) (schedule : List ℕ) (clock later : Clock)
    (request : WatchRequest) (id spawn_id : Text) (db : Db) (j : Job) (c : ControlClient)
    (decode : Response → Option Text) (before after : List (Result Text))
    → IsConsistent db
    → request.job_id ≡ some id
    → id ≢ []
    → spawn_id ≢ []
    → first_row (has_id id) db.jobs ≡ some j
    → verify_agent_token env (some c.token) ≡ true
    → ((s : Text) → decode (json 200 (Payload.job_status s)) ≡ some s)
    → watch_status (
        before
        ++ agent_job_status c decode
            (worker_at env later (db_after env calls schedule (run (stop_job clock request) db).1))
            id
            spawn_id
          ∷ after)
      ≡ true
stop_reaches_agent env calls schedule clock later request id spawn_id db j c decode before after
      consistent asked named known found right reads =
    let end = db_after env calls schedule (run (stop_job clock request) db).1 in
    let (k, again, late, _) =
      stopped_row env calls schedule clock request id db j consistent asked named found in
    rw (checked env later c decode id spawn_id end reads right named known k again)
      (watch_status_ends before after (status_text k.status) ((ends_load_iff k.status).1 late))
