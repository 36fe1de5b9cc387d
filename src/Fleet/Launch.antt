-- ===== src/Fleet/Launch.antt =====
-- From the operator's start of a job to its fleet: `start_job` and then `agent_poll`.
use cloudflare_r2_bench.Base.{◌≡◌, refl, ◌∙◌, false, List, [], ◌∷◌, length, any_row, All, arith}
use cloudflare_r2_bench.Env.{Env}
use cloudflare_r2_bench.Types.{status_in, active_statuses, JobStartRequest, queued}
use cloudflare_r2_bench.Js.Number.{to_count}
use cloudflare_r2_bench.Db.{Db, Job, Clock}
use cloudflare_r2_bench.Db.Prog.{run}
use cloudflare_r2_bench.Consistency.{IsConsistent, has_id}
use cloudflare_r2_bench.Consistency.Inserting.{count_unknown}
use cloudflare_r2_bench.Agents.Opening.{open_job-alone}
use cloudflare_r2_bench.Orchestrator.Start.{plan_of, planned_job, start_job}
use cloudflare_r2_bench.Orchestrator.Start.Outcomes.{Queued, IsOver}
use cloudflare_r2_bench.Schedule.Handlers.{start_job-Keeps}
use cloudflare_r2_bench.Fleet.{roster_of, IsTidy}
use cloudflare_r2_bench.Fleet.Rows.{length-roster_in}
use cloudflare_r2_bench.Fleet.Hosting.{Hosts}
use cloudflare_r2_bench.Schedule.Keeps.{run-Allowed}
use cloudflare_r2_bench.Fleet.Staffing.{
  Poll, polls, AllTimely, Apart, names, total_rate, fleet_total,
}

over_inactive : (j : Job) → IsOver j → status_in j.status active_statuses ≡ false
over_inactive j over = ground arith

over_rows :
    (js : List Job)
    → All IsOver js
    → All (λ (j : Job). status_in j.status active_statuses ≡ false) js
over_rows [] h = tt
over_rows (j ∷ js) h = (over_inactive j h.0, over_rows js h.1)

empty_of_length : {A : Type 0} (xs : List A) → length xs ≡ 0 → xs ≡ []
empty_of_length [] h = refl
empty_of_length (x ∷ xs) h = absurd (omega arith)

module _ (env : Env) (clock : Clock) (req : JobStartRequest) (db : Db) (c : IsConsistent db)
    (done_ : Queued env clock req db) (new : any_row (has_id clock.uuid) db.jobs ≡ false)
    (tidy : All (IsTidy clock.uuid) db.spawns) where
  abbrev job : Job
  job = planned_job clock (plan_of req)

  after-IsConsistent : IsConsistent (run (start_job env clock req) db).1
  after-IsConsistent =
      (run-Allowed (start_job env clock req) db (start_job-Keeps env clock req db) c).0

  job_facts : (job.job_id ≡ clock.uuid) × (job.status ≡ queued)
  unfolding planned_job
  job_facts = (refl, refl)

  -- The new job is the one that agents are sent to.
  queued-Hosts : Hosts job (run (start_job env clock req) db).1
  queued-Hosts =
      let (ran, _, over) = done_ in
      record {
        consistent = after-IsConsistent;
        opened = (
          job,
          rw ran (open_job-alone db job (over_rows db.jobs over) (rw (job_facts.1) refl)),
          refl,
        );
        tidy = rw (ran, job_facts.0) tidy;
      }

  queued-roster : roster_of job.job_id (run (start_job env clock req) db).1 ≡ []
  queued-roster =
      rw (done_.0, job_facts.0)
        (empty_of_length (roster_of clock.uuid db) (
          length-roster_in clock.uuid db.spawns
          ∙ count_unknown db.jobs clock.uuid db.spawns new c.registered))

-- From start to full load: after a start that queued a job under a new id, in a consistent database,
-- a fleet of as many agents as the job wants, each of which polls once and in time, is told rates that
-- add up to the requested rate, exactly, and fills the job's roster.
pub launch_total :
    (env : Env) (clock : Clock) (req : JobStartRequest) (db : Db) (ps : List Poll)
    → IsConsistent db
    → Queued env clock req db
    → any_row (has_id clock.uuid) db.jobs ≡ false
    → All (IsTidy clock.uuid) db.spawns
    → AllTimely env (planned_job clock (plan_of req)) ps
    → Apart (names (planned_job clock (plan_of req)) ps)
    → length ps ≡ to_count (plan_of req).agents
    → (total_rate (polls env ps (run (start_job env clock req) db).1).0
        ≡ to_count (plan_of req).target_rps)
      × (roster_of clock.uuid (polls env ps (run (start_job env clock req) db).1).1
          ≡ names (planned_job clock (plan_of req)) ps)
unfolding planned_job
launch_total env clock req db ps c done_ new tidy timely apart enough =
    fleet_total env (planned_job clock (plan_of req)) ps (run (start_job env clock req) db).1
      (queued-Hosts env clock req db c done_ new tidy) timely
      (queued-roster env clock req db c done_ new tidy) apart enough done_.1.some_agents
