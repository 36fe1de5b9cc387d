-- ===== src/Spawn/Reaper/Expiry.antt =====
-- Step 2 of the sweep: no open job is past its window and the grace period after it, and no spawn
-- that step 1 failed is back.
use cloudflare_r2_bench.Base.{
  ◌≡◌, refl, sym, ◌⊎◌, inl, inr, Bool, true, false, ◌&&◌, List, [], ◌∷◌, Text, text_eq,
  text_eq_refl, ltb, if◌then◌else◌, All, Bool-cases, map, where_rows, update_rows, arith,
}
use mathlib.Core.Path.{subst}
use cloudflare_r2_bench.Base.None.{None, None-update_rows, All-self, All-inl}
use cloudflare_r2_bench.Types.{Status, completed, failed, status_in}
use cloudflare_r2_bench.Db.{Db, Job, Clock, spawn_now, job_now}
use cloudflare_r2_bench.Agents.{occupancy}
use cloudflare_r2_bench.Spawn.{open_statuses, set_job_status}
use cloudflare_r2_bench.Spawn.Reaper.{
  is_stale, is_expired, fail_stale, expired_jobs, complete_spawns, finalise,
}
use cloudflare_r2_bench.Spawn.Reaper.Sweep.{finalise_all, outcome_of, after_finalise}

module _ (clock : Clock) where
  fail_stale-None : (db : Db) → None (is_stale clock.now) (fail_stale clock db).spawns
  unfolding fail_stale
  fail_stale-None db =
      None-update_rows (is_stale clock.now) (is_stale clock.now) (spawn_now clock.stamp failed)
        (λ s h. refl) db.spawns (All-self (is_stale clock.now) db.spawns)

  finalise-None :
      (status : Status) (id : Text) (db : Db)
      → None (is_stale clock.now) db.spawns
      → None (is_stale clock.now) (finalise clock status id db).spawns
  unfolding finalise complete_spawns set_job_status
  finalise-None status id db h =
      None-update_rows (is_stale clock.now) _ (spawn_now clock.stamp completed) (λ s e. refl)
        db.spawns (All-inl (is_stale clock.now) _ db.spawns h)

  finalise_all-None :
      (ids : List Text) (db : Db)
      → None (is_stale clock.now) db.spawns
      → None (is_stale clock.now) (finalise_all clock ids db).spawns
  unfolding finalise_all
  finalise_all-None [] db h = h
  finalise_all-None (id ∷ ids) db h =
      finalise_all-None ids (finalise clock (outcome_of id db) id db)
        (finalise-None (outcome_of id db) id db h)

  -- The job is not expired, or its id is still in the list.
  abbrev pub listed : Text → List Text → Bool
  listed id [] = false
  listed id (x ∷ xs) = if text_eq id x then true else listed id xs

  abbrev Pending : List Text → Job → Type 0
  Pending ids j = (is_expired clock.now j ≡ false) ⊎ (listed j.job_id ids ≡ true)

  abbrev by_id : Text → Job → Bool
  by_id id j = text_eq j.job_id id && status_in j.status open_statuses

  is_open : Job → Bool
  is_open j = status_in j.status open_statuses

  closed-expired : (j : Job) → is_open j ≡ false → is_expired clock.now j ≡ false
  unfolding is_open
  closed-expired j e = rw e refl

  -- What the loop does to one row.
  finalise_row :
      (status : Status) (id : Text) (ids : List Text) (j : Job)
      → status_in status open_statuses ≡ false
      → Pending (id ∷ ids) j
      → Pending ids (if by_id id j then job_now clock.stamp status j else j)
  unfolding is_open
  finalise_row status id ids j late h = elim (Bool-cases (text_eq j.job_id id)) [
    | inr other ↦ rw other (rw other at h)
    | inl same ↦ elim (Bool-cases (status_in j.status open_statuses)) [
      | inl still ↦ inl (rw (same, still) (closed-expired (job_now clock.stamp status j) late))
      | inr closed ↦ inl (rw (same, closed) (closed-expired j closed))
    ]
  ]

  finalise-Pending :
      (status : Status) (id : Text) (ids : List Text) (js : List Job)
      → status_in status open_statuses ≡ false
      → All (Pending (id ∷ ids)) js
      → All (Pending ids) (update_rows (by_id id) (job_now clock.stamp status) js)
  finalise-Pending status id ids [] late h = tt
  finalise-Pending status id ids (j ∷ js) late h =
      (finalise_row status id ids j late h.0, finalise-Pending status id ids js late h.1)

  listed_more :
      (x : Text) (ids : List Text) (js : List Job)
      → All (Pending ids) js
      → All (Pending (x ∷ ids)) js
  listed_more x ids [] h = tt
  listed_more x ids (j ∷ js) h = (ground arith, listed_more x ids js h.1)

  ids_of : List Job → List Text
  ids_of js = map (λ (j : Job). j.job_id) (where_rows (is_expired clock.now) js)

  ids_of_hit :
      (j : Job) (js : List Job)
      → is_expired clock.now j ≡ true
      → ids_of (j ∷ js) ≡ j.job_id ∷ ids_of js
  unfolding ids_of
  ids_of_hit j js due = rw due refl

  ids_of_miss :
      (j : Job) (js : List Job) → is_expired clock.now j ≡ false → ids_of (j ∷ js) ≡ ids_of js
  unfolding ids_of
  ids_of_miss j js early = rw early refl

  All-Pending : (js : List Job) → All (Pending (ids_of js)) js
  All-Pending [] = tt
  All-Pending (j ∷ js) = elim (Bool-cases (is_expired clock.now j)) [
    | inr early ↦
        subst (λ ids. All (Pending ids) (j ∷ js)) (sym (ids_of_miss j js early))
          (inl early, All-Pending js)
    | inl due ↦
        subst (λ ids. All (Pending ids) (j ∷ js)) (sym (ids_of_hit j js due))
          (
            inr (rw (text_eq_refl j.job_id) refl),
            listed_more j.job_id (ids_of js) js (All-Pending js),
          )
  ]

  pub finished : (id : Text) (db : Db) → status_in (outcome_of id db) open_statuses ≡ false
  finished id db = elim (Bool-cases (ltb 0 (occupancy id db))) [
    | inl some_joined ↦ rw some_joined refl
    | inr none_joined ↦ rw none_joined refl
  ]

  None-Pending : (js : List Job) → All (Pending []) js → None (is_expired clock.now) js
  None-Pending [] h = tt
  None-Pending (j ∷ js) h = (ground arith, None-Pending js h.1)

  finalise_all-Pending :
      (ids : List Text) (db : Db)
      → All (Pending ids) db.jobs
      → None (is_expired clock.now) (finalise_all clock ids db).jobs
  unfolding finalise_all finalise complete_spawns set_job_status
  finalise_all-Pending [] db h = None-Pending db.jobs h
  finalise_all-Pending (id ∷ ids) db h =
      finalise_all-Pending ids (finalise clock (outcome_of id db) id db)
        (finalise-Pending (outcome_of id db) id ids db.jobs (finished id db) h)

  pub after_finalise-None :
      (db : Db)
      → None (is_stale clock.now) (after_finalise clock db).spawns
        × None (is_expired clock.now) (after_finalise clock db).jobs
  unfolding expired_jobs ids_of
  after_finalise-None db = (
    finalise_all-None (expired_jobs clock (fail_stale clock db)) (fail_stale clock db)
        (fail_stale-None db),
    finalise_all-Pending (expired_jobs clock (fail_stale clock db)) (fail_stale clock db)
        (All-Pending (fail_stale clock db).jobs),
  )
