-- ===== src/Spawn/Reaper.antt =====
-- src/spawn.ts `reap_jobs`: the scheduled sweep, in its four steps. A test `T < now - K` is written
-- `T + K < now`, since times are not negative.
pub mod Sweep
pub mod Expiry
pub mod Settled
pub mod Expired
use cloudflare_r2_bench.Base.{
  ℕ, suc, ◌+◌, Bool, false, ◌&&◌, Option, none, some, List, [], ◌∷◌, Text, text_eq, ltb, ◌==◌,
  if◌then◌else◌, count_rows, update_rows, where_rows, map,
}
use cloudflare_r2_bench.Types.{
  Status, queued, running, stopping, completed, stopped, failed, status_eq, status_in,
}
use cloudflare_r2_bench.Db.{Db, Job, Spawn, Clock, spawn_now, job_now}
use cloudflare_r2_bench.Db.Prog.{Prog, done, ◌>>=◌, ◌>>◌, select, execute, execute_counted}
use cloudflare_r2_bench.Agents.{occupancy}
use cloudflare_r2_bench.Spawn.{
  spawn_stale_after_ms, job_finalise_grace_ms, queued_without_agents_timeout_ms, open_statuses,
  set_job_status, running_spawns,
}

pub record Reaped : Type 0 where
  pub finalised : ℕ
  pub stale_spawns : ℕ
  pub abandoned : ℕ

abbrev pub seen_before : Option ℕ → ℕ → ℕ → Bool
seen_before none age now = false
seen_before (some t) age now = ltb (t + age) now

-- Step 1: running spawns that have stopped reporting.
abbrev pub is_stale : ℕ → Spawn → Bool
is_stale now s = status_eq s.status running && seen_before s.last_seen spawn_stale_after_ms now

unfoldable pub fail_stale : Clock → Db → Db
fail_stale clock db = record db {
  spawns = update_rows (is_stale clock.now) (spawn_now clock.stamp failed) db.spawns;
}

unfoldable pub count_stale : Clock → Db → ℕ
count_stale clock db = count_rows (is_stale clock.now) db.spawns

-- Step 2: jobs whose window closed longer ago than the grace period.
abbrev pub is_expired : ℕ → Job → Bool
is_expired now j = status_in j.status open_statuses && ltb (j.stop_at + job_finalise_grace_ms) now

unfoldable pub expired_jobs : Clock → Db → List Text
expired_jobs clock db = map (λ (j : Job). j.job_id) (where_rows (is_expired clock.now) db.jobs)

-- `UPDATE JOB_SPAWNS SET STATUS = 'COMPLETED' WHERE JOB_ID = ? AND STATUS = 'RUNNING'`.
unfoldable pub complete_spawns : ℕ → Text → Db → Db
complete_spawns stamp job_id db = record db {
  spawns =
      update_rows (λ s. text_eq s.job_id job_id && status_eq s.status running)
        (spawn_now stamp completed) db.spawns;
}

unfoldable pub finalise : Clock → Status → Text → Db → Db
finalise clock outcome job_id db =
    set_job_status clock.stamp outcome open_statuses job_id (complete_spawns clock.stamp job_id db)

-- The loop over the expired jobs; a job that no agent ever joined has failed.
unfoldable pub finalise_jobs : Clock → List Text → ℕ → Prog ℕ
finalise_jobs clock [] finalised = done finalised
finalise_jobs clock (job_id ∷ job_ids) finalised = do
  spawned ← select (occupancy job_id)
  execute (finalise clock (if ltb 0 spawned then completed else failed) job_id)
  finalise_jobs clock job_ids (suc finalised)

-- Step 3: queued jobs that no agent joined in time.
abbrev pub is_orphaned : ℕ → Db → Job → Bool
is_orphaned now db j =
    status_eq j.status queued
    && ltb (j.start_at + queued_without_agents_timeout_ms) now
    && (occupancy j.job_id db == 0)

unfoldable pub fail_orphaned : Clock → Db → Db
unfolding occupancy
fail_orphaned clock db = record db {
  jobs = update_rows (is_orphaned clock.now db) (job_now clock.stamp failed) db.jobs;
}

unfoldable pub count_orphaned : Clock → Db → ℕ
unfolding occupancy
count_orphaned clock db = count_rows (is_orphaned clock.now db) db.jobs

-- Step 4: stopping jobs of which no spawn is running.
abbrev pub is_quiet : Db → Job → Bool
is_quiet db j = status_eq j.status stopping && (running_spawns j.job_id db == 0)

unfoldable pub close_stopping : Clock → Db → Db
unfolding running_spawns
close_stopping clock db = record db {
  jobs = update_rows (is_quiet db) (job_now clock.stamp stopped) db.jobs;
}

unfoldable pub reap_jobs : Clock → Prog Reaped
reap_jobs clock = do
  stale_spawns ← execute_counted (fail_stale clock) (count_stale clock)
  expired ← select (expired_jobs clock)
  finalised ← finalise_jobs clock expired 0
  abandoned ← execute_counted (fail_orphaned clock) (count_orphaned clock)
  execute (close_stopping clock)
  done (record { finalised = finalised; stale_spawns = stale_spawns; abandoned = abandoned })
