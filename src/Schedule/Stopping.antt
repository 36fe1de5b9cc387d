-- ===== src/Schedule/Stopping.antt =====
-- A stopped job gets no more agents.
use cloudflare_r2_bench.Base.{
  ℕ, ◌≤◌, ◌≡◌, ◌≢◌, refl, inl, inr, ap, sym, ◌∙◌, true, List, [], ◌∷◌, some, Text, text_eq,
  first_row, update_rows, arith, Bool-cases,
}
use cloudflare_r2_bench.Base.Rows.{first_row-Grows}
use cloudflare_r2_bench.Env.{Env}
use cloudflare_r2_bench.Types.{
  Status, status_in, active_statuses, terminal_statuses, WatchRequest, RunAssignment,
  AgentPollRequest,
}
use cloudflare_r2_bench.Types
use cloudflare_r2_bench.Db.{Db, Job, Clock}
use cloudflare_r2_bench.Db.Prog.{run, returned}
use cloudflare_r2_bench.History.{JobStep, rank}
use cloudflare_r2_bench.Consistency.{IsConsistent, has_id}
use cloudflare_r2_bench.Consistency.Seats.{find-In}
use cloudflare_r2_bench.Agents.{open_job, agent_poll}
use cloudflare_r2_bench.Agents.OpenJob.{open_job-In}
use cloudflare_r2_bench.Orchestrator.{request_stop, is_stoppable, stop_requested, stop_job}
use cloudflare_r2_bench.Schedule.{Call}
use cloudflare_r2_bench.Schedule.Keeps.{Allowed-Rewrites}
use cloudflare_r2_bench.Schedule.Statements.{request_stop-Rewrites}
use cloudflare_r2_bench.Schedule.Safety.{db_after, db_after-safe}
use cloudflare_r2_bench.Schedule.Returning.{seat_of, seat_told}

active_rank : (s : Status) → status_in s active_statuses ≡ true → 2 ≤ rank s → ⊥
active_rank s active late = ground arith

-- The row of a job, once its stop is requested, is past RUNNING.
first_row-stopped :
    (clock : Clock) (id : Text) (xs : List Job) (j : Job)
    → first_row (has_id id) xs ≡ some j
    → (k : Job) × (first_row (has_id id) (update_rows (is_stoppable id) (stop_requested clock) xs)
        ≡ some k)
      × (2 ≤ rank k.status)
first_row-stopped clock id [] j h = cc
first_row-stopped clock id (x ∷ xs) j h = elim (Bool-cases (text_eq x.job_id id)) [
  | inr miss ↦ rw (miss, miss) (first_row-stopped clock id xs j (rw miss at h))
  | inl hit ↦ elim (Bool-cases (status_in x.status terminal_statuses)) [
    | inl over ↦ (x, rw (hit, over, hit) refl, over_rank x.status over)
    | inr alive ↦ (stop_requested clock x, rw (hit, alive, hit) refl, omega arith)
  ]
]
  where
    over_rank : (s : Status) → status_in s terminal_statuses ≡ true → 2 ≤ rank s
    over_rank s over = ground arith

request_stop-rank :
    (clock : Clock) (id : Text) (db : Db) (j : Job)
    → first_row (has_id id) db.jobs ≡ some j
    → (k : Job) × (first_row (has_id id) (request_stop clock id db).jobs ≡ some k)
      × (2 ≤ rank k.status)
unfolding request_stop
request_stop-rank clock id db j found = first_row-stopped clock id db.jobs j found

run-stop_job :
    (clock : Clock) (request : WatchRequest) (id : Text) (db : Db)
    → request.job_id ≡ some id
    → id ≢ []
    → (run (stop_job clock request) db).1 ≡ request_stop clock id db
unfolding stop_job
run-stop_job clock request [] db asked full = absurd (full refl)
run-stop_job clock request (x ∷ id) db asked full = rw (asked, run, stop_job) refl

-- A job that is past RUNNING is not the one that agents are sent to, in a consistent database.
not_open :
    (db : Db) (id : Text) (k job : Job)
    → IsConsistent db
    → first_row (has_id id) db.jobs ≡ some k
    → 2 ≤ rank k.status
    → open_job db ≡ some job
    → job.job_id ≢ id
not_open db id k job c found late opened same =
    let (place, active) = open_job-In db job opened in
    let again = find-In db.jobs job c.distinct place in
    let found' : first_row (has_id job.job_id) db.jobs ≡ some k = rw same found in
    let alike : job ≡ k = cc (again, found') in active_rank job.status active (rw alike late)

-- The row of a job, any time after its stop was requested, is past RUNNING.
pub stopped_row :
    (env : Env) (calls : List Call) (schedule : List ℕ) (clock : Clock) (request : WatchRequest)
    (id : Text) (db : Db) (j : Job)
    → IsConsistent db
    → request.job_id ≡ some id
    → id ≢ []
    → first_row (has_id id) db.jobs ≡ some j
    → (k : Job) × (first_row
          (has_id id)
          (db_after env calls schedule (run (stop_job clock request) db).1).jobs
        ≡ some k)
      × (2 ≤ rank k.status)
      × IsConsistent (db_after env calls schedule (run (stop_job clock request) db).1)
stopped_row env calls schedule clock request id db j c asked full found =
    let after = request_stop clock id db in
    let (c', _) = Allowed-Rewrites db after (request_stop-Rewrites clock id db) c in
    let (later, moved) = db_after-safe env calls schedule after c' in
    let (k, there, late) = request_stop-rank clock id db j found in
    let (k', again, st) =
      first_row-Grows JobStep (has_id id) (λ x y p. ap (λ (t : Text). text_eq t id) (sym p.same_id))
        after.jobs (db_after env calls schedule after).jobs k moved.jobs there in
    rw (run-stop_job clock request id db asked full) (k', again, past st late, later)
  where
    past : {a b : Job} → JobStep a b → 2 ≤ rank a.status → 2 ≤ rank b.status
    past st late = omega (arith, st.forward)

-- Once the UPDATE of a stop of a job of a consistent database has run, a poll is not told to run
-- that job: it may come after any interleaving of requests and cron ticks, if these, and the poll,
-- start after the stop, and nothing interrupts the poll.
pub stop_job_holds :
    (env : Env) (calls : List Call) (schedule : List ℕ) (clock now : Clock) (request : WatchRequest)
    (body : AgentPollRequest) (id : Text) (db left : Db) (j : Job) (answer : RunAssignment)
    → IsConsistent db
    → request.job_id ≡ some id
    → id ≢ []
    → first_row (has_id id) db.jobs ≡ some j
    → run
        (agent_poll env now body)
        (db_after env calls schedule (run (stop_job clock request) db).1)
      ≡ (returned (Types.run answer), left)
    → answer.job_id ≢ id
stop_job_holds env calls schedule clock now request body id db left j answer c asked full found went
      same =
    let later = db_after env calls schedule (run (stop_job clock request) db).1 in
    let (k, again, late, c') =
      stopped_row env calls schedule clock request id db j c asked full found in
    let (job, opened, seat) = seat_of env now body later left answer c' went in
    let (_, _, told) = seat_told now body job later left answer seat in
    not_open later id k job c' again late opened
      (sym (ap (λ (a : RunAssignment). a.job_id) told) ∙ same)
