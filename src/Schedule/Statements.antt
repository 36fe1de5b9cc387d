-- ===== src/Schedule/Statements.antt =====
-- Each statement that rewrites rows in place moves them along the relations of `History`.
use cloudflare_r2_bench.Base.{
  ℕ, ◌≡◌, refl, inl, inr, Bool, true, false, not, ◌&&◌, [], ◌∷◌, Text, text_eq, update_rows, arith,
  Bool-cases, any_row, &&-eq-true, ◌≤◌, ◌∙◌,
}
use cloudflare_r2_bench.Base.Rows.{
  Updates, Updates-refl, Updates-update_rows, Updates-trans, Grows-trans, Grows-append,
  Updates-Grows,
}
use cloudflare_r2_bench.Types.{
  Status, queued, running, completed, stopped, failed, status_in, status_eq, SpawnMetricsReport,
}
use cloudflare_r2_bench.Db.{Db, Job, Spawn, Metric, Clock, spawn_now, job_now}
use cloudflare_r2_bench.Db.Prog.{or_same}
use cloudflare_r2_bench.History.{
  JobStep, SpawnStep, JobStep-refl, SpawnStep-refl, JobStep-trans, SpawnStep-trans, Rewrites,
  is_terminal, rank,
}
use cloudflare_r2_bench.Agents.{touched, touch_spawn, start_running}
use cloudflare_r2_bench.Spawn.{
  open_statuses, metrics_batch, set_spawn_status, set_job_status, reported,
}
use cloudflare_r2_bench.Spawn.Reaper.{
  is_stale, is_orphaned, is_quiet, fail_stale, complete_spawns, finalise, fail_orphaned,
  close_stopping,
}
use cloudflare_r2_bench.Orchestrator.{is_stoppable, stop_requested, request_stop}

same_metrics : (db : Db) → Updates (λ (m n : Metric). n ≡ m) db.metrics db.metrics
same_metrics db = Updates-refl (λ (m n : Metric). n ≡ m) (λ m. refl) db.metrics

Rewrites-refl : (db : Db) → Rewrites db db
Rewrites-refl db = record {
  jobs = Updates-refl JobStep JobStep-refl db.jobs;
  spawns = Updates-refl SpawnStep SpawnStep-refl db.spawns;
  metrics = Updates-Grows (λ (m n : Metric). n ≡ m) db.metrics db.metrics (same_metrics db);
}

rewrite_spawns :
    (db : Db) (p : Spawn → Bool) (f : Spawn → Spawn)
    → ((s : Spawn) → SpawnStep s (f s))
    → Rewrites db (record db { spawns = update_rows p f db.spawns })
rewrite_spawns db p f kept = record {
  jobs = Updates-refl JobStep JobStep-refl db.jobs;
  spawns = Updates-update_rows SpawnStep SpawnStep-refl p f (λ s h. kept s) db.spawns;
  metrics = Updates-Grows (λ (m n : Metric). n ≡ m) db.metrics db.metrics (same_metrics db);
}

rewrite_jobs :
    (db : Db) (p : Job → Bool) (f : Job → Job)
    → ((j : Job) → p j ≡ true → JobStep j (f j))
    → Rewrites db (record db { jobs = update_rows p f db.jobs })
rewrite_jobs db p f kept = record {
  jobs = Updates-update_rows JobStep JobStep-refl p f kept db.jobs;
  spawns = Updates-refl SpawnStep SpawnStep-refl db.spawns;
  metrics = Updates-Grows (λ (m n : Metric). n ≡ m) db.metrics db.metrics (same_metrics db);
}

job_now-JobStep :
    (stamp : ℕ) (status : Status) (j : Job)
    → is_terminal j.status ≡ false
    → rank j.status ≤ rank status
    → JobStep j (job_now stamp status j)
job_now-JobStep stamp status j open_still forward = record {
  same_id = refl;
  same_rps = refl;
  same_agents = refl;
  same_workers = refl;
  same_start = refl;
  same_duration = refl;
  same_concurrency = refl;
  same_flag = refl;
  same_created = refl;
  forward = forward;
  frozen = inl open_still;
}

spawn_now-SpawnStep :
    (stamp : ℕ) (status : Status) (s : Spawn)
    → status_eq status running ≡ false
    → SpawnStep s (spawn_now stamp status s)
spawn_now-SpawnStep stamp status s over = ground arith

-- The guards of the job updates, as facts on the status.
open_status :
    (s : Status) → status_in s open_statuses ≡ true → (is_terminal s ≡ false) × (rank s ≤ 2)
open_status s h = ground arith

early_status :
    (s : Status)
    → status_in s (queued ∷ running ∷ []) ≡ true
    → (is_terminal s ≡ false) × (rank s ≤ 1)
early_status s h = ground arith

pub touch_spawn-Rewrites : (now : ℕ) (id : Text) (db : Db) → Rewrites db (touch_spawn now id db)
unfolding touch_spawn
touch_spawn-Rewrites now id db =
    rewrite_spawns db (λ s. text_eq s.spawn_id id) (touched now) (λ s. ground arith)

pub set_spawn_status-Rewrites :
    (stamp : ℕ) (status : Status) (id : Text) (db : Db)
    → status_eq status running ≡ false
    → Rewrites db (set_spawn_status stamp status id db)
unfolding set_spawn_status
set_spawn_status-Rewrites stamp status id db over =
    rewrite_spawns db (λ s. text_eq s.spawn_id id) (spawn_now stamp status)
      (λ s. spawn_now-SpawnStep stamp status s over)

pub fail_stale-Rewrites : (clock : Clock) (db : Db) → Rewrites db (fail_stale clock db)
unfolding fail_stale
fail_stale-Rewrites clock db =
    rewrite_spawns db (is_stale clock.now) (spawn_now clock.stamp failed)
      (λ s. spawn_now-SpawnStep clock.stamp failed s refl)

complete_spawns-Rewrites :
    (stamp : ℕ) (id : Text) (db : Db) → Rewrites db (complete_spawns stamp id db)
unfolding complete_spawns
complete_spawns-Rewrites stamp id db =
    rewrite_spawns db (λ s. text_eq s.job_id id && status_eq s.status running)
      (spawn_now stamp completed) (λ s. spawn_now-SpawnStep stamp completed s refl)

pub start_running-Rewrites :
    (stamp : ℕ) (id : Text) (db : Db) → Rewrites db (start_running stamp id db)
unfolding start_running
start_running-Rewrites stamp id db =
    rewrite_jobs db (λ j. text_eq j.job_id id && status_eq j.status queued) (job_now stamp running)
      (λ j h. job_now-JobStep stamp running j (ground arith) (ground arith))

pub set_job_status-Rewrites :
    (stamp : ℕ) (status : Status) (id : Text) (db : Db)
    → 2 ≤ rank status
    → Rewrites db (set_job_status stamp status open_statuses id db)
unfolding set_job_status
set_job_status-Rewrites stamp status id db late =
    rewrite_jobs db (λ j. text_eq j.job_id id && status_in j.status open_statuses)
      (job_now stamp status)
      λ j h.
        let fact = open_status j.status (ground arith) in
        job_now-JobStep stamp status j fact.0 (omega (arith, fact.1))

pub fail_job-Rewrites :
    (stamp : ℕ) (id : Text) (db : Db)
    → Rewrites db (set_job_status stamp failed (queued ∷ running ∷ []) id db)
unfolding set_job_status
fail_job-Rewrites stamp id db =
    rewrite_jobs db (λ j. text_eq j.job_id id && status_in j.status (queued ∷ running ∷ []))
      (job_now stamp failed)
      λ j h.
        let fact = early_status j.status (ground arith) in
        job_now-JobStep stamp failed j fact.0 (omega (arith, fact.1))

pub fail_orphaned-Rewrites : (clock : Clock) (db : Db) → Rewrites db (fail_orphaned clock db)
unfolding fail_orphaned
fail_orphaned-Rewrites clock db =
    rewrite_jobs db (is_orphaned clock.now db) (job_now clock.stamp failed)
      (λ j h. job_now-JobStep clock.stamp failed j (ground arith) (ground arith))

pub close_stopping-Rewrites : (clock : Clock) (db : Db) → Rewrites db (close_stopping clock db)
unfolding close_stopping
close_stopping-Rewrites clock db =
    rewrite_jobs db (is_quiet db) (job_now clock.stamp stopped)
      (λ j h. job_now-JobStep clock.stamp stopped j (ground arith) (ground arith))

stop_requested-JobStep :
    (clock : Clock) (j : Job)
    → not (is_terminal j.status) ≡ true
    → JobStep j (stop_requested clock j)
stop_requested-JobStep clock j h = ground arith

pub request_stop-Rewrites :
    (clock : Clock) (id : Text) (db : Db) → Rewrites db (request_stop clock id db)
unfolding request_stop
request_stop-Rewrites clock id db =
    rewrite_jobs db (is_stoppable id) (stop_requested clock)
      (λ j h. stop_requested-JobStep clock j (&&-eq-true _ _ h).1)

pub Rewrites-trans : (a b c : Db) → Rewrites a b → Rewrites b c → Rewrites a c
Rewrites-trans a b c p q = record {
  jobs = Updates-trans JobStep JobStep-trans a.jobs b.jobs c.jobs p.jobs q.jobs;
  spawns = Updates-trans SpawnStep SpawnStep-trans a.spawns b.spawns c.spawns p.spawns q.spawns;
  metrics =
      Grows-trans (λ (m n : Metric). n ≡ m) (λ x y z e f. f ∙ e) a.metrics b.metrics c.metrics
        p.metrics q.metrics;
}

pub finalise-Rewrites :
    (clock : Clock) (status : Status) (id : Text) (db : Db)
    → 2 ≤ rank status
    → Rewrites db (finalise clock status id db)
unfolding finalise
finalise-Rewrites clock status id db late =
    let after = complete_spawns clock.stamp id db in
    Rewrites-trans db after (finalise clock status id db)
      (complete_spawns-Rewrites clock.stamp id db)
      (set_job_status-Rewrites clock.stamp status id after late)

pub metrics_batch-Rewrites :
    (clock : Clock) (report : SpawnMetricsReport) (spawn_id job_id : Text) (db : Db)
    → Rewrites db (or_same db (metrics_batch clock report spawn_id job_id db))
unfolding metrics_batch
metrics_batch-Rewrites clock report spawn_id job_id db =
    elim (Bool-cases (any_row (λ m. text_eq m.metric_id clock.uuid) db.metrics)) [
      | inl taken ↦ rw taken (Rewrites-refl db)
      | inr fresh ↦ rw fresh (record {
        jobs = Updates-refl JobStep JobStep-refl db.jobs;
        spawns =
            Updates-update_rows SpawnStep SpawnStep-refl (λ s. text_eq s.spawn_id spawn_id)
              (reported clock report) (λ s h. ground arith) db.spawns;
        metrics = Grows-append (λ (m n : Metric). n ≡ m) (λ m. refl) db.metrics _;
      })
    ]
