-- ===== src/Orchestrator/Start/Outcomes.antt =====
-- Everything that `start_job` can do to the database, when nothing interrupts it.
use cloudflare_r2_bench.Base.{
  ◌≡◌, ◌∙◌, ◌⊎◌, inl, inr, refl, Bool, true, false, Option, none, some, List, [], ◌∷◌, ◌++◌, Text,
  Option-cases, any_row, first_row, All, arith,
}
use cloudflare_r2_bench.Env.{Env}
use cloudflare_r2_bench.Types.{JobStartRequest, status_in}
use cloudflare_r2_bench.Db.{Db, Job, Clock}
use cloudflare_r2_bench.Db.Prog.{run, returned, thrown, failure, done, throw_on_none, or_same, ◌>>◌}
use cloudflare_r2_bench.Spawn.{open_statuses}
use cloudflare_r2_bench.Consistency.{has_id}
use cloudflare_r2_bench.Orchestrator.Start.{
  Plan, plan_of, validation_error, active_job, planned_job, insert_job, invalid, still_active,
  job_queued, queue_job, start_job,
}
use cloudflare_r2_bench.Orchestrator.Start.Validation.{IsRunnable, validated-IsRunnable}

abbrev pub is_open : Job → Bool
is_open j = status_in j.status open_statuses

abbrev pub IsOver : Job → Type 0
IsOver j = is_open j ≡ false

active_job-none : (js : List Job) → first_row is_open js ≡ none → All IsOver js
active_job-none [] h = tt
active_job-none (j ∷ js) h = (ground arith, active_job-none js (ground arith))

-- The request is refused with a message, for its values or for the job that is still active.
abbrev pub Refused : Env → Clock → JobStartRequest → Db → Type 0
Refused env clock req db =
    (message : Text) × (run (start_job env clock req) db ≡ (returned (invalid req message), db))
    × ((validation_error env (plan_of req) ≡ some message)
        ⊎ ((j : Job) × (active_job db ≡ some j) × (message ≡ still_active j)))

-- The request throws, since the random id is already a job's.
abbrev pub Clashed : Env → Clock → JobStartRequest → Db → Type 0
Clashed env clock req db =
    (run (start_job env clock req) db ≡ (thrown failure, db))
    × (any_row (has_id clock.uuid) db.jobs ≡ true)

-- The job is queued: one row is added, of a job that can run, and every other job is over.
abbrev pub Queued : Env → Clock → JobStartRequest → Db → Type 0
Queued env clock req db =
    (run (start_job env clock req) db ≡ (
      returned (job_queued clock req (plan_of req)),
      record db { jobs = db.jobs ++ planned_job clock (plan_of req) ∷ [] },
    ))
    × IsRunnable env clock (planned_job clock (plan_of req))
    × All IsOver db.jobs

run_valid :
    (env : Env) (clock : Clock) (req : JobStartRequest) (db : Db)
    → validation_error env (plan_of req) ≡ none
    → run (start_job env clock req) db ≡ run (queue_job clock req (plan_of req)) db
unfolding start_job
run_valid env clock req db valid = rw (valid, run, start_job) refl

run-invalid :
    (env : Env) (clock : Clock) (req : JobStartRequest) (db : Db) (message : Text)
    → validation_error env (plan_of req) ≡ some message
    → run (start_job env clock req) db ≡ (returned (invalid req message), db)
unfolding start_job
run-invalid env clock req db message wrong = rw (wrong, run, start_job) refl

run_busy :
    (clock : Clock) (req : JobStartRequest) (db : Db) (j : Job)
    → active_job db ≡ some j
    → run (queue_job clock req (plan_of req)) db ≡ (returned (invalid req (still_active j)), db)
unfolding queue_job
run_busy clock req db j busy = rw (busy, run, queue_job) refl

run_idle :
    (clock : Clock) (req : JobStartRequest) (db : Db) (o : Option Db)
    → active_job db ≡ none
    → insert_job (planned_job clock (plan_of req)) db ≡ o
    → run (queue_job clock req (plan_of req)) db
      ≡ run (throw_on_none o >> done (job_queued clock req (plan_of req))) (or_same db o)
unfolding queue_job
run_idle clock req db o idle inserted = rw (idle, inserted, run, queue_job) refl

abbrev with_job : Db → Job → Db
with_job db j = record db { jobs = db.jobs ++ j ∷ [] }

insert_cases :
    (j : Job) (db : Db)
    → ((insert_job j db ≡ none) × (any_row (has_id j.job_id) db.jobs ≡ true))
      ⊎ (insert_job j db ≡ some (with_job db j))
unfolding insert_job
insert_cases j db = ground arith

planned-id : (clock : Clock) (p : Plan) → (planned_job clock p).job_id ≡ clock.uuid
unfolding planned_job
planned-id clock p = refl

no_active : (db : Db) → active_job db ≡ none → All IsOver db.jobs
unfolding active_job
no_active db h = active_job-none db.jobs h

-- `start_job`, run alone, either refuses the request with the message of its first failing check or
-- of the job that is still active, and writes nothing; or throws and writes nothing, where its random
-- id is a job's already; or queues exactly one job, which can run, while no other job is open.
pub start_job_outcomes :
    (env : Env) (clock : Clock) (req : JobStartRequest) (db : Db)
    → Refused env clock req db ⊎ (Clashed env clock req db ⊎ Queued env clock req db)
start_job_outcomes env clock req db = elim (Option-cases (validation_error env (plan_of req))) [
  | inr (message, wrong) ↦ inl (message, run-invalid env clock req db message wrong, inl wrong)
  | inl valid ↦ elim (Option-cases (active_job db)) [
    | inr (j, busy) ↦ inl (
      still_active j,
      run_valid env clock req db valid ∙ run_busy clock req db j busy,
      inr (j, busy, refl),
    )
    | inl idle ↦ inr (elim (insert_cases (planned_job clock (plan_of req)) db) [
      | inl (refused, taken) ↦ inl (
        run_valid env clock req db valid ∙ run_idle clock req db none idle refused,
        rw planned-id at taken,
      )
      | inr added ↦ inr (
        run_valid env clock req db valid ∙ run_idle clock req db _ idle added,
        validated-IsRunnable env clock req valid,
        no_active db idle,
      )
    ])
  ]
]
