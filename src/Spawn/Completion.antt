-- ===== src/Spawn/Completion.antt =====
-- What a completion report does to its job, when nothing interrupts it.
use cloudflare_r2_bench.Base.{
  ℕ, zero, suc, ◌≡◌, ◌≤◌, refl, ◌∙◌, ◌⊎◌, inl, inr, true, false, some, List, [], Text, ◌==◌,
  if◌then◌else◌, Bool-cases, first_row, arith,
}
use cloudflare_r2_bench.Base.Updates.{first_row-update, first_row-hit}
use cloudflare_r2_bench.Js.Number.{or_default}
use cloudflare_r2_bench.Types.{
  Status, stopped, completed, failed, status_in, active_statuses, SpawnCompletionReport,
}
use cloudflare_r2_bench.Db.{Db, Job, Clock, job_now}
use cloudflare_r2_bench.Db.Prog.{Prog, run, returned}
use cloudflare_r2_bench.Auth.{is_falsy}
use cloudflare_r2_bench.Consistency.{has_id}
use cloudflare_r2_bench.Spawn.{
  open_statuses, set_job_status, set_spawn_status, job_status, running_spawns, is_stopping,
  fail_spawn, finish_spawn, close_if_last, complete_benchmark_spawn,
}

-- A job of which a spawn is done moves to a status if its own is in a list.
abbrev pub moved : Clock → Status → List Status → Job → Job
moved clock status from j = if status_in j.status from then job_now clock.stamp status j else j

-- The status that a spawn and its job end with.
abbrev pub end_status : Job → Status
end_status j = if is_stopping (some j.status) then stopped else completed

module _ (clock : Clock) (spawn_id id : Text) (db : Db) (j : Job)
    (found : first_row (has_id id) db.jobs ≡ some j) where
  set_job_status-row :
      (status : Status) (from : List Status)
      → first_row (has_id id) (set_job_status clock.stamp status from id db).jobs
        ≡ some (moved clock status from j)
  unfolding set_job_status
  set_job_status-row status from =
      first_row-update (has_id id) _ (job_now clock.stamp status) (λ k. refl) db.jobs j found
      ∙ rw (first_row-hit (has_id id) db.jobs j found) refl

  abbrev noted : Status → Db
  noted status = set_spawn_status clock.stamp status spawn_id db

  run-fail_spawn :
      run (fail_spawn clock spawn_id id) db
      ≡ (returned tt, set_job_status clock.stamp failed active_statuses id (noted failed))
  unfolding fail_spawn
  run-fail_spawn = refl

  job_status-row : job_status id db ≡ some j.status
  unfolding job_status
  job_status-row = rw found refl

  run-finish_spawn :
      run (finish_spawn clock spawn_id id) db
      ≡ run
          (close_if_last clock (end_status j) id (running_spawns id (noted (end_status j))))
          (noted (end_status j))
  unfolding finish_spawn
  run-finish_spawn = rw (job_status-row, run) refl

jobs-noted :
    (clock : Clock) (status : Status) (spawn_id : Text) (db : Db)
    → (set_spawn_status clock.stamp status spawn_id db).jobs ≡ db.jobs
unfolding set_spawn_status
jobs-noted clock status spawn_id db = refl

running_spawns-closed :
    (clock : Clock) (status : Status) (from : List Status) (id job_id : Text) (db : Db)
    → running_spawns id (set_job_status clock.stamp status from job_id db) ≡ running_spawns id db
unfolding running_spawns set_job_status
running_spawns-closed clock status from id job_id db = refl

run-close_if_last :
    (clock : Clock) (status : Status) (id : Text) (db : Db) (n : ℕ)
    → ((1 ≤ n) × (run (close_if_last clock status id n) db ≡ (returned tt, db)))
      ⊎ ((n ≡ 0)
          × (run (close_if_last clock status id n) db
              ≡ (returned tt, set_job_status clock.stamp status open_statuses id db)))
unfolding close_if_last
run-close_if_last clock status id db zero = inr (refl, refl)
run-close_if_last clock status id db (suc n) =
    let more : (suc n == 0) ≡ false = ground arith in inl (omega arith, rw more refl)

-- The job after the report: with an error it fails unless it is past RUNNING, while another spawn of
-- it runs it stays, and with its last running spawn it ends unless it has ended.
abbrev pub Reported : Clock → SpawnCompletionReport → Text → Job → Job → Db → Type 0
Reported clock report id j k after =
    ((is_falsy report.error ≡ false) × (k ≡ moved clock failed active_statuses j))
    ⊎ (((is_falsy report.error ≡ true) × (1 ≤ running_spawns id after) × (k ≡ j))
        ⊎ ((is_falsy report.error ≡ true)
            × (running_spawns id after ≡ 0)
            × (k ≡ moved clock (end_status j) open_statuses j)))

module _ (clock : Clock) (report : SpawnCompletionReport) (spawn_id id : Text) (db : Db) (j : Job)
    (found : first_row (has_id id) db.jobs ≡ some j) where
  abbrev After : Prog Unit → Type 0
  After m =
      ((run m db).0 ≡ returned tt)
      × ((k : Job) × (first_row (has_id id) (run m db).1.jobs ≡ some k)
          × Reported clock report id j k (run m db).1)

  failed_report : is_falsy report.error ≡ false → After (fail_spawn clock spawn_id id)
  failed_report bad = rw (run-fail_spawn clock spawn_id id db j found) (
    refl,
    (
      moved clock failed active_statuses j,
      set_job_status-row clock spawn_id id (set_spawn_status clock.stamp failed spawn_id db) j
          (rw (jobs-noted clock failed spawn_id db) found) failed active_statuses,
      inl (bad, refl),
    ),
  )

  good_report : is_falsy report.error ≡ true → After (finish_spawn clock spawn_id id)
  good_report good =
      let status = end_status j in
      let db' = set_spawn_status clock.stamp status spawn_id db in
      let found' : first_row (has_id id) db'.jobs ≡ some j =
        rw (jobs-noted clock status spawn_id db) found in
      rw (run-finish_spawn clock spawn_id id db j found)
        (elim (run-close_if_last clock status id db' (running_spawns id db')) [
          | inl (more, same) ↦ rw same (refl, (j, found', inr (inl (good, more, refl))))
          | inr (last, same) ↦ rw same (
            refl,
            (
              moved clock status open_statuses j,
              set_job_status-row clock spawn_id id db' j found' status open_statuses,
              inr (
                  inr (
                    good,
                    running_spawns-closed clock status open_statuses id id db' ∙ last,
                    refl,
                  )),
            ),
          )
        ])

finishes :
    (clock : Clock) (report : SpawnCompletionReport) (id : Text)
    → report.request.job_id ≡ some id
    → is_falsy report.error ≡ true
    → complete_benchmark_spawn clock report
      ≡ finish_spawn clock (or_default report.request.spawn_id []) id
unfolding complete_benchmark_spawn
finishes clock report id named good = rw (named, good) refl

fails :
    (clock : Clock) (report : SpawnCompletionReport) (id : Text)
    → report.request.job_id ≡ some id
    → is_falsy report.error ≡ false
    → complete_benchmark_spawn clock report
      ≡ fail_spawn clock (or_default report.request.spawn_id []) id
unfolding complete_benchmark_spawn
fails clock report id named bad = rw (named, bad) refl

-- A completion report for a job of the table, when nothing interrupts it, returns and leaves the job
-- in one of three states. A report with an error makes a QUEUED or RUNNING job FAILED and leaves any
-- other. A report without an error leaves the job as it is while a spawn of the job still runs; and
-- when none does, it closes an open job, as STOPPED if it was STOPPING and else as COMPLETED, and
-- leaves one that has ended.
pub complete_benchmark_spawn_lem :
    (clock : Clock) (report : SpawnCompletionReport) (id : Text) (db : Db) (j : Job)
    → report.request.job_id ≡ some id
    → first_row (has_id id) db.jobs ≡ some j
    → ((run (complete_benchmark_spawn clock report) db).0 ≡ returned tt)
      × ((k : Job) × (first_row (has_id id) (run (complete_benchmark_spawn clock report) db).1.jobs
            ≡ some k)
          × Reported clock report id j k (run (complete_benchmark_spawn clock report) db).1)
complete_benchmark_spawn_lem clock report id db j named found =
    let spawn_id = or_default report.request.spawn_id [] in
    elim (Bool-cases (is_falsy report.error)) [
      | inl good ↦
          rw (finishes clock report id named good)
            (good_report clock report spawn_id id db j found good)
      | inr bad ↦
          rw (fails clock report id named bad)
            (failed_report clock report spawn_id id db j found bad)
    ]
