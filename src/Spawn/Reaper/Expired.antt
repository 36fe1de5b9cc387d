-- ===== src/Spawn/Reaper/Expired.antt =====
-- What becomes of a job whose window is over: step 2 of the sweep decides, and steps 3 and 4 leave it.
use cloudflare_r2_bench.Base.{
  ◌≡◌, refl, sym, ap, ◌∙◌, ◌⊎◌, inl, inr, true, false, ◌&&◌, Option, some, List, [], ◌∷◌, Text,
  text_eq, text_eq_refl, text_eq_sound, ltb, if◌then◌else◌, Bool-cases, map, where_rows, first_row,
  arith,
}
use cloudflare_r2_bench.Base.Updates.{first_row-hit, first_row-update, count_rows-update}
use cloudflare_r2_bench.Types.{
  Status, queued, stopping, stopped, completed, failed, status_eq, status_in,
}
use cloudflare_r2_bench.Db.{Db, Job, Spawn, Clock, spawn_now, job_now}
use cloudflare_r2_bench.Db.Prog.{run}
use cloudflare_r2_bench.Consistency.{has_id}
use cloudflare_r2_bench.Agents.{occupancy}
use cloudflare_r2_bench.Spawn.{open_statuses, set_job_status, job_status, running_spawns}
use cloudflare_r2_bench.Spawn.Reaper.{
  is_expired, is_orphaned, is_quiet, fail_stale, expired_jobs, complete_spawns, finalise,
  fail_orphaned, close_stopping, reap_jobs, is_stale,
}
use cloudflare_r2_bench.Spawn.Reaper.Expiry.{listed, finished}
use cloudflare_r2_bench.Spawn.Reaper.Sweep.{
  finalise_all, outcome_of, after_finalise, swept, run-reap_jobs,
}

module _ (clock : Clock) where
  abbrev job_row : Text → Db → Option Job
  job_row id db = first_row (has_id id) db.jobs

  fail_stale-same :
      (id : Text) (db : Db)
      → (job_row id (fail_stale clock db) ≡ job_row id db)
        × (occupancy id (fail_stale clock db) ≡ occupancy id db)
  unfolding fail_stale occupancy
  fail_stale-same id db = (
    refl,
    count_rows-update (λ (s : Spawn). text_eq s.job_id id) (is_stale clock.now)
        (spawn_now clock.stamp failed) (λ s. refl) db.spawns,
  )

  finalise-occupancy :
      (status : Status) (x id : Text) (db : Db)
      → occupancy id (finalise clock status x db) ≡ occupancy id db
  unfolding finalise complete_spawns set_job_status occupancy
  finalise-occupancy status x id db =
      count_rows-update (λ (s : Spawn). text_eq s.job_id id) _ (spawn_now clock.stamp completed)
        (λ s. refl) db.spawns

  finalise-row :
      (status : Status) (x id : Text) (db : Db) (j : Job)
      → job_row id db ≡ some j
      → job_row id (finalise clock status x db)
        ≡ some (
            if text_eq j.job_id x && status_in j.status open_statuses
            then job_now clock.stamp status j
            else j)
  unfolding finalise complete_spawns set_job_status
  finalise-row status x id db j h =
      first_row-update (has_id id) _ (job_now clock.stamp status) (λ k. refl) db.jobs j h

  -- The job waits for the loop to come to it, or has its outcome.
  abbrev Due : Text → List Text → Db → Job → Type 0
  Due id ids db j =
      ((listed clock id ids ≡ true) × (status_in j.status open_statuses ≡ true))
      ⊎ (j.status ≡ outcome_of id db)

  finalise-Due :
      (x id : Text) (ids : List Text) (db : Db) (j : Job)
      → job_row id db ≡ some j
      → Due id (x ∷ ids) db j
      → (k : Job) × (job_row id (finalise clock (outcome_of x db) x db) ≡ some k) × Due id ids db k
  finalise-Due x id ids db j h (inr settled) = (
    j,
    finalise-row (outcome_of x db) x id db j h ∙ closed (rw settled (finished clock id db)),
    inr settled,
  )
    where
      closed :
          status_in j.status open_statuses ≡ false
          → ◌≡◌ {A = Option Job}
              (some (
                if text_eq j.job_id x && status_in j.status open_statuses
                then job_now clock.stamp (outcome_of x db) j
                else j))
              (some j)
      closed e = elim (Bool-cases (text_eq j.job_id x)) [
        | inl a ↦ rw (a, e) refl
        | inr a ↦ rw a refl
      ]
  finalise-Due x id ids db j h (inl (waits, alive)) =
      let named : j.job_id ≡ id =
        text_eq_sound j.job_id id (first_row-hit (has_id id) db.jobs j h) in
      let row = finalise-row (outcome_of x db) x id db j h in
      elim (Bool-cases (text_eq id x)) [
        | inl now ↦
            let same : id ≡ x = text_eq_sound id x now in
            (
              job_now clock.stamp (outcome_of x db) j,
              row ∙ rw (named, now, alive) refl,
              inr (rw same refl),
            )
        | inr later ↦ (j, row ∙ rw (named, later) refl, inl (rw later at waits, alive))
      ]

  finalise_all-Due :
      (ids : List Text) (id : Text) (db : Db) (j : Job)
      → job_row id db ≡ some j
      → Due id ids db j
      → (k : Job) × (job_row id (finalise_all clock ids db) ≡ some k)
        × (k.status ≡ outcome_of id db)
  unfolding finalise_all
  finalise_all-Due [] id db j h (inl (waits, alive)) = cc
  finalise_all-Due [] id db j h (inr settled) = (j, h, settled)
  finalise_all-Due (x ∷ ids) id db j h due =
      let db' = finalise clock (outcome_of x db) x db in
      let (k, found, next) = finalise-Due x id ids db j h due in
      let same : occupancy id db' ≡ occupancy id db =
        finalise-occupancy (outcome_of x db) x id db in
      let (k', found', settled) = finalise_all-Due ids id db' k found (rw same next) in
      (k', found', settled ∙ rw same refl)

  listed-expired :
      (id : Text) (xs : List Job) (j : Job)
      → first_row (has_id id) xs ≡ some j
      → is_expired clock.now j ≡ true
      → listed clock id (map (λ (k : Job). k.job_id) (where_rows (is_expired clock.now) xs)) ≡ true
  listed-expired id [] j h over = cc
  listed-expired id (x ∷ xs) j h over = elim (Bool-cases (text_eq x.job_id id)) [
    | inl hit ↦
        let named : id ≡ x.job_id = sym (text_eq_sound x.job_id id hit) in
        let first : x ≡ j = some_job (rw hit at h) in
        let due : is_expired clock.now x ≡ true = rw first over in
        rw (due, named, text_eq_refl x.job_id) refl
    | inr miss ↦
        let rest = listed-expired id xs j (rw miss at h) over in
        elim (Bool-cases (is_expired clock.now x)) [
          | inr early ↦ rw early rest
          | inl due ↦ elim (Bool-cases (text_eq id x.job_id)) [
            | inl same ↦ rw (due, same) refl
            | inr other ↦ rw (due, other) rest
          ]
        ]
  ]
    where
      some_job : {a b : Job} → some a ≡ some b → a ≡ b
      some_job e = cc

  outcome_cases :
      (id : Text) (db : Db) → (outcome_of id db ≡ completed) ⊎ (outcome_of id db ≡ failed)
  outcome_cases id db = elim (Bool-cases (ltb 0 (occupancy id db))) [
    | inl joined ↦ inl (rw joined refl)
    | inr empty ↦ inr (rw empty refl)
  ]

  -- Steps 3 and 4 only take jobs that are QUEUED or STOPPING.
  last_steps :
      (id : Text) (db : Db) (j : Job)
      → job_row id db ≡ some j
      → status_eq j.status queued ≡ false
      → status_eq j.status stopping ≡ false
      → job_row id (close_stopping clock (fail_orphaned clock db)) ≡ some j
  unfolding close_stopping fail_orphaned occupancy running_spawns
  last_steps id db j h a b =
      first_row-update (has_id id) (is_quiet (fail_orphaned clock db)) (job_now clock.stamp stopped)
        (λ k. refl) (fail_orphaned clock db).jobs j
        (first_row-update (has_id id) (is_orphaned clock.now db) (job_now clock.stamp failed)
            (λ k. refl) db.jobs j h
          ∙ rw a refl)
      ∙ rw b refl

  swept-row :
      (id : Text) (db : Db) (j : Job)
      → job_row id db ≡ some j
      → is_expired clock.now j ≡ true
      → (k : Job) × (job_row id (swept clock db) ≡ some k) × (k.status ≡ outcome_of id db)
  unfolding expired_jobs
  swept-row id db j h over =
      let (same, count) = fail_stale-same id db in
      let h' = same ∙ h in
      let (k, found, settled) =
        finalise_all-Due (expired_jobs clock (fail_stale clock db)) id (fail_stale clock db) j h'
          (inl (listed-expired id (fail_stale clock db).jobs j h' over, ground arith)) in
      let settled' : k.status ≡ outcome_of id db = settled ∙ rw count refl in
      elim (outcome_cases id db) [
        | inl e ↦ (
          k,
          last_steps id (after_finalise clock db) k found (rw (settled', e) refl)
              (rw (settled', e) refl),
          settled',
        )
        | inr e ↦ (
          k,
          last_steps id (after_finalise clock db) k found (rw (settled', e) refl)
              (rw (settled', e) refl),
          settled',
        )
      ]

-- A sweep that nothing interrupts gives an open job whose window closed longer ago than the grace
-- period the status COMPLETED if any agent ever joined it, and FAILED if none did. That holds for a
-- QUEUED, a RUNNING and a STOPPING job alike, whether its agents still run or not.
pub reap_jobs_expired :
    (clock : Clock) (id : Text) (db : Db) (j : Job)
    → first_row (has_id id) db.jobs ≡ some j
    → is_expired clock.now j ≡ true
    → job_status id (run (reap_jobs clock) db).1
      ≡ some (if ltb 0 (occupancy id db) then completed else failed)
unfolding job_status
reap_jobs_expired clock id db j found over =
    let (k, there, settled) = swept-row clock id db j found over in
    rw (run-reap_jobs clock db, there) (ap some settled)
