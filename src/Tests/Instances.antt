-- ===== src/Tests/Instances.antt =====
-- The main theorems at concrete inputs that meet their hypotheses.
use cloudflare_r2_bench.Base.{
  ◌≡◌, ℕ, List, ◌≢◌, ◌≤◌, ◌<◌, ◌⊎◌, inl, refl, none, some, [], ◌∷◌, codes, first_row, arith, All,
}
use cloudflare_r2_bench.Db.{Clock, Job, empty_db}
use cloudflare_r2_bench.Db.Prog.{done, run, returned}
use cloudflare_r2_bench.History.{Evolves}
use cloudflare_r2_bench.Consistency.{IsConsistent, has_id}
use cloudflare_r2_bench.Consistency.Slots.{AllApart, SlotBelow}
use cloudflare_r2_bench.Agents.{rps_for_slot, occupancy}
use cloudflare_r2_bench.Agents.Shares.{rps_for_slot_fair}
use cloudflare_r2_bench.Orchestrator.Start.{plan_of, planned_job}
use cloudflare_r2_bench.Orchestrator.Start.Outcomes.{start_job_outcomes, Refused, Clashed, Queued}
use cloudflare_r2_bench.Orchestrator.Route.{fetch, json, error_message, Request}
use cloudflare_r2_bench.Orchestrator.Route.Access.{
  operator_denied, callback_denied, admin_refusal, callback_refusal,
}
use cloudflare_r2_bench.Types.{SpawnStatusRequest, SpawnCompletionReport, WatchRequest, completed}
use cloudflare_r2_bench.Schedule.{Call, http, cron}
use cloudflare_r2_bench.Schedule.Safety.{
  db_after, db_after-safe, terminal_frozen, staffed_rates_total, slots_exclusive, rates_of,
}
use cloudflare_r2_bench.Schedule.Race.{start_race, start_request, open_env}
use cloudflare_r2_bench.Base.{text_eq, ◌+◌}
use cloudflare_r2_bench.Spawn.Reaper.{reap_jobs, Reaped}
use cloudflare_r2_bench.Spawn.Reaper.Settled.{IsSettled, reap_jobs_settles, nothing_reaped}
use cloudflare_r2_bench.Agents.Outcomes.{TurnedAway, Unassigned, Assigned, agent_poll_outcomes}
use cloudflare_r2_bench.Schedule.Stopping.{stop_job_holds}
use cloudflare_r2_bench.Schedule.Returning.{assignment}
use cloudflare_r2_bench.Types.{RunAssignment}
use cloudflare_r2_bench.Spawn.{job_status}
use cloudflare_r2_bench.Spawn.Reaper.Expired.{reap_jobs_expired}
use cloudflare_r2_bench.Spawn.{complete_benchmark_spawn}
use cloudflare_r2_bench.Spawn.Completion.{Reported, complete_benchmark_spawn_lem}
use cloudflare_r2_bench.Base.{◌↔◌, ◌≢◌, Text, true}
use cloudflare_r2_bench.Auth.{verify_agent_token}
use cloudflare_r2_bench.Auth.Checks.{verify_agent_token_iff}
use cloudflare_r2_bench.Tests.Everything.{everything}
use cloudflare_r2_bench.Tests.Fixtures.{
  env, clock_at, running_job, finished_job, half_staffed, half_staffed-IsConsistent, calls,
  schedule, start_body, poll_request, poll_body, no_body,
}

rps_for_slot_fair_example :
    (rps_for_slot 10 3 2 ≤ rps_for_slot 10 3 0)
    × (rps_for_slot 10 3 0 ≤ rps_for_slot 10 3 2 + 1)
    × ((10 < 3) ⊎ (1 ≤ rps_for_slot 10 3 2))
rps_for_slot_fair_example = rps_for_slot_fair 10 3 0 2 (omega arith) (omega arith)

db_after-safe_example :
    IsConsistent (db_after env calls schedule half_staffed)
    × Evolves half_staffed (db_after env calls schedule half_staffed)
db_after-safe_example = db_after-safe env calls schedule half_staffed half_staffed-IsConsistent

terminal_frozen_example :
    first_row (has_id (codes "u0")) (db_after env calls schedule half_staffed).jobs
    ≡ some finished_job
unfolding text_eq
terminal_frozen_example =
    terminal_frozen env calls schedule half_staffed (codes "u0") finished_job
      half_staffed-IsConsistent refl refl

staffed_rates_total_example :
    rates_of 11 2 (codes "u1") (db_after env calls schedule half_staffed).spawns ≡ 11
unfolding everything
staffed_rates_total_example =
    staffed_rates_total env calls schedule half_staffed (codes "u1") running_job
      half_staffed-IsConsistent refl refl (omega arith)

slots_exclusive_example :
    AllApart (db_after env calls schedule half_staffed).spawns
    × All (SlotBelow (codes "u1") 2) (db_after env calls schedule half_staffed).spawns
    × (occupancy (codes "u1") (db_after env calls schedule half_staffed) ≤ 2)
unfolding everything
slots_exclusive_example =
    slots_exclusive env calls schedule half_staffed (codes "u1") running_job
      half_staffed-IsConsistent refl

start_job_outcomes_example :
    Refused env (clock_at 9) start_body half_staffed
    ⊎ (Clashed env (clock_at 9) start_body half_staffed
        ⊎ Queued env (clock_at 9) start_body half_staffed)
start_job_outcomes_example = start_job_outcomes env (clock_at 9) start_body half_staffed

abbrev other_clock : Clock
other_clock = record { now = 2010; stamp = 8; uuid = codes "u3" }

start_race_example :
    (db_after
      (open_env env)
      (http (clock_at 2000) (start_request start_body)
        ∷ http other_clock (start_request start_body)
        ∷ [])
      (0 ∷ 1 ∷ 0 ∷ 1 ∷ [])
      empty_db).jobs
    ≡ planned_job (clock_at 2000) (plan_of start_body)
      ∷ planned_job other_clock (plan_of start_body)
      ∷ []
unfolding everything
start_race_example =
    start_race env (clock_at 2000) other_clock start_body start_body empty_db refl refl refl refl
      refl refl

-- A start request with a wrong token in its header.
abbrev wrong_start : Request
wrong_start = record (start_request start_body) { admin_header = some (codes "guess") }

operator_denied_example :
    fetch env (clock_at 9) wrong_start ≡ done (json 401 (error_message admin_refusal))
unfolding text_eq
operator_denied_example =
    operator_denied env (clock_at 9) wrong_start (codes "admin-secret") refl (λ e. cc) (λ e. cc)
      (inl refl)

abbrev wrong_status : SpawnStatusRequest
wrong_status = record {
  spawn_id = some (codes "u1-a");
  job_id = some (codes "u1");
  token = some (codes "guess");
}

abbrev status_call : Request
status_call = record (poll_request (codes "a")) {
  path = codes "/api/internal/spawn-status";
  body = record no_body { as_status = some wrong_status };
}

callback_denied_example :
    fetch env (clock_at 9) status_call ≡ done (json 401 (error_message callback_refusal))
unfolding everything
callback_denied_example =
    callback_denied env (clock_at 9) status_call wrong_status refl (inl (refl, refl)) refl

reap_jobs_settles_example :
    ((r : Reaped) × ((run (reap_jobs (clock_at 99_000)) half_staffed).0 ≡ returned r))
    × IsSettled 99_000 (run (reap_jobs (clock_at 99_000)) half_staffed).1
    × (run (reap_jobs (clock_at 99_000)) (run (reap_jobs (clock_at 99_000)) half_staffed).1
        ≡ (returned nothing_reaped, (run (reap_jobs (clock_at 99_000)) half_staffed).1))
reap_jobs_settles_example = reap_jobs_settles (clock_at 99_000) half_staffed

agent_poll_outcomes_example :
    TurnedAway env (clock_at 2000) (poll_body (codes "b")) half_staffed
    ⊎ (Unassigned env (clock_at 2000) (poll_body (codes "b")) half_staffed
        ⊎ Assigned env (clock_at 2000) (poll_body (codes "b")) half_staffed)
agent_poll_outcomes_example =
    agent_poll_outcomes env (clock_at 2000) (poll_body (codes "b")) half_staffed
      half_staffed-IsConsistent

abbrev stop_u1 : WatchRequest
stop_u1 = record { job_id = some (codes "u1") }

-- After the stop the reaper closes the job, and another one is started.
abbrev sweep_and_start : List Call
sweep_and_start = cron (clock_at 99_000) ∷ http (clock_at 99_000) (start_request start_body) ∷ []

abbrev one_by_one : List ℕ
one_by_one = 0 ∷ 0 ∷ 0 ∷ 0 ∷ 0 ∷ 0 ∷ 0 ∷ 0 ∷ 1 ∷ 1 ∷ 1 ∷ []

-- After the stop, a sweep and a new start, an agent of the old job polls.
abbrev next_orders : RunAssignment
next_orders = assignment (planned_job (clock_at 99_000) (plan_of start_body)) (codes "u2-a") 0

stop_job_holds_example : next_orders.job_id ≢ codes "u1"
unfolding everything
stop_job_holds_example =
    stop_job_holds (open_env env) sweep_and_start one_by_one (clock_at 2000) (clock_at 99_100)
      stop_u1 (poll_body (codes "a")) (codes "u1") half_staffed _ running_job next_orders
      half_staffed-IsConsistent refl (λ e. cc) refl refl

reap_jobs_expired_example :
    job_status (codes "u1") (run (reap_jobs (clock_at 99_000)) half_staffed).1 ≡ some completed
unfolding everything
reap_jobs_expired_example =
    reap_jobs_expired (clock_at 99_000) (codes "u1") half_staffed running_job refl refl

-- The one spawn of the job reports that it is done.
abbrev last_report : SpawnCompletionReport
last_report = record { request = wrong_status; error = none }

complete_benchmark_spawn_lem_example :
    ((run (complete_benchmark_spawn (clock_at 2000) last_report) half_staffed).0 ≡ returned tt)
    × ((k : Job) × (first_row
            (has_id (codes "u1"))
            (run (complete_benchmark_spawn (clock_at 2000) last_report) half_staffed).1.jobs
          ≡ some k)
        × Reported
            (clock_at 2000)
            last_report
            (codes "u1")
            running_job
            k
            (run (complete_benchmark_spawn (clock_at 2000) last_report) half_staffed).1)
unfolding text_eq
complete_benchmark_spawn_lem_example =
    complete_benchmark_spawn_lem (clock_at 2000) last_report (codes "u1") half_staffed running_job
      refl refl

abbrev agent_secret : Text
agent_secret = codes "agent-secret"

verify_agent_token_iff_example :
    (verify_agent_token env (some agent_secret) ≡ true)
    ↔ ((t : Text) × (t ≢ []) × (env.agent_token ≡ some t) × (some agent_secret ≡ some t))
verify_agent_token_iff_example = verify_agent_token_iff env (some agent_secret)
