-- ===== src/Spawn/Reaper/Settled.antt =====
-- A sweep leaves nothing for the next one to do.
use cloudflare_r2_bench.Base.{ℕ, ◌≡◌, refl, ◌∙◌, []}
use cloudflare_r2_bench.Base.None.{
  None, None-update_rows, All-self, All-inl, update_rows-None, count_rows-None, where_rows-None,
}
use cloudflare_r2_bench.Types.{stopped, failed}
use cloudflare_r2_bench.Db.{Db, Clock, job_now}
use cloudflare_r2_bench.Agents.{occupancy}
use cloudflare_r2_bench.Spawn.{running_spawns}
use cloudflare_r2_bench.Spawn.Reaper.{
  is_stale, is_expired, is_orphaned, is_quiet, fail_stale, count_stale, expired_jobs, fail_orphaned,
  count_orphaned, close_stopping,
}
use cloudflare_r2_bench.Spawn.Reaper.Sweep.{
  after_finalise, swept, sweep_counts, run-reap_jobs, finalise_all,
}
use cloudflare_r2_bench.Spawn.Reaper.Expiry.{after_finalise-None}
use cloudflare_r2_bench.Spawn.Reaper.{reap_jobs, Reaped}
use cloudflare_r2_bench.Db.Prog.{run, returned}

-- No spawn is overdue, no open job is past its window and the grace period, no queued job waits in
-- vain for agents, and no stopping job is without a running spawn.
pub record IsSettled (now : ℕ) (db : Db) : Type 0 where
  pub no_stale : None (is_stale now) db.spawns
  pub no_expired : None (is_expired now) db.jobs
  pub no_orphaned : None (is_orphaned now db) db.jobs
  pub no_quiet : None (is_quiet db) db.jobs

module _ (clock : Clock) (db : Db) where
  fail_orphaned-None :
      None (is_expired clock.now) db.jobs
      → None (is_expired clock.now) (fail_orphaned clock db).jobs
        × None (is_orphaned clock.now (fail_orphaned clock db)) (fail_orphaned clock db).jobs
  unfolding fail_orphaned occupancy
  fail_orphaned-None h = (
    None-update_rows (is_expired clock.now) (is_orphaned clock.now db) (job_now clock.stamp failed)
        (λ j e. refl) db.jobs (All-inl (is_expired clock.now) _ db.jobs h),
    None-update_rows (is_orphaned clock.now db) (is_orphaned clock.now db)
        (job_now clock.stamp failed) (λ j e. refl) db.jobs
        (All-self (is_orphaned clock.now db) db.jobs),
  )

  close_stopping-None :
      None (is_expired clock.now) db.jobs
      → None (is_orphaned clock.now db) db.jobs
      → None (is_stale clock.now) db.spawns
      → IsSettled clock.now (close_stopping clock db)
  unfolding close_stopping occupancy running_spawns
  close_stopping-None expired orphaned stale = record {
    no_stale = stale;
    no_expired =
        None-update_rows (is_expired clock.now) (is_quiet db) (job_now clock.stamp stopped)
          (λ j e. refl) db.jobs (All-inl (is_expired clock.now) _ db.jobs expired);
    no_orphaned =
        None-update_rows (is_orphaned clock.now db) (is_quiet db) (job_now clock.stamp stopped)
          (λ j e. refl) db.jobs (All-inl (is_orphaned clock.now db) _ db.jobs orphaned);
    no_quiet =
        None-update_rows (is_quiet db) (is_quiet db) (job_now clock.stamp stopped) (λ j e. refl)
          db.jobs (All-self (is_quiet db) db.jobs);
  }

fail_orphaned-spawns : (clock : Clock) (db : Db) → (fail_orphaned clock db).spawns ≡ db.spawns
unfolding fail_orphaned
fail_orphaned-spawns clock db = refl

swept-IsSettled : (clock : Clock) (db : Db) → IsSettled clock.now (swept clock db)
swept-IsSettled clock db =
    let before = after_finalise-None clock db in
    let then_ = fail_orphaned-None clock (after_finalise clock db) before.1 in
    close_stopping-None clock (fail_orphaned clock (after_finalise clock db)) then_.0 then_.1
      (rw (fail_orphaned-spawns clock (after_finalise clock db)) before.0)

-- A sweep that nothing interrupts returns, and leaves a settled database.
reap_jobs-IsSettled :
    (clock : Clock) (db : Db)
    → ((r : Reaped) × ((run (reap_jobs clock) db).0 ≡ returned r))
      × IsSettled clock.now (run (reap_jobs clock) db).1
reap_jobs-IsSettled clock db =
    rw (run-reap_jobs clock db) ((sweep_counts clock db, refl), swept-IsSettled clock db)

abbrev pub nothing_reaped : Reaped
nothing_reaped = record { finalised = 0; stale_spawns = 0; abandoned = 0 }

module _ (clock : Clock) (db : Db) (settled : IsSettled clock.now db) where
  no_stale-same : (fail_stale clock db ≡ db) × (count_stale clock db ≡ 0)
  unfolding fail_stale count_stale
  no_stale-same = (
    rw (update_rows-None (is_stale clock.now) _ db.spawns settled.no_stale) refl,
    count_rows-None (is_stale clock.now) db.spawns settled.no_stale,
  )

  no_expired-none : expired_jobs clock db ≡ []
  unfolding expired_jobs
  no_expired-none = rw (where_rows-None (is_expired clock.now) db.jobs settled.no_expired) refl

  no_orphaned-same : (fail_orphaned clock db ≡ db) × (count_orphaned clock db ≡ 0)
  unfolding fail_orphaned count_orphaned
  no_orphaned-same = (
    rw (update_rows-None (is_orphaned clock.now db) _ db.jobs settled.no_orphaned) refl,
    count_rows-None (is_orphaned clock.now db) db.jobs settled.no_orphaned,
  )

  no_quiet-same : close_stopping clock db ≡ db
  unfolding close_stopping
  no_quiet-same = rw (update_rows-None (is_quiet db) _ db.jobs settled.no_quiet) refl

  -- A sweep of a settled database counts nothing and changes nothing.
  reap_jobs-settled : run (reap_jobs clock) db ≡ (returned nothing_reaped, db)
  unfolding finalise_all
  reap_jobs-settled =
      run-reap_jobs clock db
      ∙ rw
          (
            no_stale-same.0, no_stale-same.1, no_expired-none, no_orphaned-same.0,
            no_orphaned-same.1, no_quiet-same,
          )
          refl

-- A second sweep with the same clock.
reap_jobs-twice :
    (clock : Clock) (db : Db)
    → run (reap_jobs clock) (run (reap_jobs clock) db).1
      ≡ (returned nothing_reaped, (run (reap_jobs clock) db).1)
reap_jobs-twice clock db =
    reap_jobs-settled clock (run (reap_jobs clock) db).1 (reap_jobs-IsSettled clock db).1

-- A sweep that nothing interrupts returns, and leaves a settled database, whatever it found: no
-- running spawn is overdue, no open job is past its window and the grace period, no queued job has
-- waited too long for its first agent, and no stopping job is without a running spawn. A second sweep
-- with the same clock then finds nothing to count and nothing to change.
pub reap_jobs_settles :
    (clock : Clock) (db : Db)
    → ((r : Reaped) × ((run (reap_jobs clock) db).0 ≡ returned r))
      × IsSettled clock.now (run (reap_jobs clock) db).1
      × (run (reap_jobs clock) (run (reap_jobs clock) db).1
          ≡ (returned nothing_reaped, (run (reap_jobs clock) db).1))
reap_jobs_settles clock db =
    let (returns, settled) = reap_jobs-IsSettled clock db in
    (returns, settled, reap_jobs-twice clock db)
