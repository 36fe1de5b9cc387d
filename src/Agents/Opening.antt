-- ===== src/Agents/Opening.antt =====
-- A job that a poll sets running stays the one that agents are sent to.
use cloudflare_r2_bench.Base.{
  ℕ, ◌≡◌, refl, ap, ◌∙◌, inl, inr, Bool, true, false, ◌&&◌, some, List, [], ◌∷◌, ◌++◌, All, Text,
  text_eq, ltb, if◌then◌else◌, where_rows, update_rows, Bool-cases, arith,
}
use mathlib.Core.Option
use cloudflare_r2_bench.Types.{
  queued, running, status_eq, status_eq_sound, status_in, active_statuses,
}
use cloudflare_r2_bench.Db.{Db, Job, Clock, job_now}
use cloudflare_r2_bench.Agents.{open_job, oldest, oldest_from, start_running}
use cloudflare_r2_bench.Agents.Polled.{started}

-- What an agent is told of a job.
abbrev pub terms : Job → Job
terms j = record j { status = queued; updated_at = 0 }

module _ (stamp : ℕ) (id : Text) where
  abbrev waits : Job → Bool
  waits j = text_eq j.job_id id && status_eq j.status queued

  abbrev set_off : Job → Job
  set_off j = if waits j then job_now stamp running j else j

  terms-set_off : (j : Job) → terms (set_off j) ≡ terms j
  terms-set_off j = elim (Bool-cases (waits j)) [ inl hit ↦ rw hit refl | inr miss ↦ rw miss refl ]

  created_at-set_off : (j : Job) → (set_off j).created_at ≡ j.created_at
  created_at-set_off j = elim (Bool-cases (waits j)) [
    | inl hit ↦ rw hit refl
    | inr miss ↦ rw miss refl
  ]

  earlier :
      (j best : Job)
      → ltb (set_off j).created_at (set_off best).created_at ≡ ltb j.created_at best.created_at
  earlier j best =
      ap (λ (t : ℕ). ltb t (set_off best).created_at) (created_at-set_off j)
      ∙ ap (ltb j.created_at) (created_at-set_off best)

  is_active : Job → Bool
  is_active j = status_in j.status active_statuses

  active-set_off : (j : Job) → is_active (set_off j) ≡ is_active j
  unfolding is_active
  active-set_off j = elim (Bool-cases (waits j)) [
    | inl hit ↦
        let q : j.status ≡ queued = status_eq_sound j.status queued (ground arith) in
        rw (hit, q) refl
    | inr miss ↦ rw miss refl
  ]

  where_rows-set_off :
      (js : List Job)
      → where_rows is_active (update_rows waits (job_now stamp running) js)
        ≡ update_rows waits (job_now stamp running) (where_rows is_active js)
  where_rows-set_off [] = refl
  where_rows-set_off (j ∷ js) = elim (Bool-cases (is_active j)) [
    | inl hit ↦
        rw (active-set_off j, hit) (ap (λ (r : List Job). set_off j ∷ r) (where_rows-set_off js))
    | inr miss ↦ rw (active-set_off j, miss) (where_rows-set_off js)
  ]

  oldest_from-set_off :
      (best : Job) (js : List Job)
      → oldest_from (set_off best) (update_rows waits (job_now stamp running) js)
        ≡ set_off (oldest_from best js)
  unfolding oldest_from
  oldest_from-set_off best [] = refl
  oldest_from-set_off best (j ∷ js) =
      let rest = update_rows waits (job_now stamp running) js in
      ap (λ (c : Bool). oldest_from (if c then set_off j else set_off best) rest) (earlier j best)
      ∙ elim (ltb j.created_at best.created_at)
          as (λ c.
            oldest_from (if c then set_off j else set_off best) rest
            ≡ set_off (oldest_from (if c then j else best) js)) [
              | true ↦ oldest_from-set_off j js
              | false ↦ oldest_from-set_off best js
            ]

  oldest-set_off :
      (js : List Job)
      → oldest (update_rows waits (job_now stamp running) js) ≡ Option.map set_off (oldest js)
  unfolding oldest
  oldest-set_off [] = refl
  oldest-set_off (j ∷ js) = ap some (oldest_from-set_off j js)

  open_job-start_running :
      (db : Db) → open_job (start_running stamp id db) ≡ Option.map set_off (open_job db)
  unfolding open_job start_running is_active
  open_job-start_running db =
      ap oldest (where_rows-set_off db.jobs) ∙ oldest-set_off (where_rows is_active db.jobs)

reopened :
    (clock : Clock) (db : Db) (k : Job)
    → open_job db ≡ some k
    → status_eq k.status queued ≡ true
    → open_job (started clock k db) ≡ some (set_off clock.stamp k.job_id k)
unfolding start_running
reopened clock db k opened hit =
    let at : started clock k db ≡ start_running clock.stamp k.job_id db = rw hit refl in
    ap open_job at
    ∙ open_job-start_running clock.stamp k.job_id db
    ∙ ap (Option.map (set_off clock.stamp k.job_id)) opened

-- After a poll of the open job some job is open on the same terms.
pub open_job-started :
    (clock : Clock) (db : Db) (k : Job)
    → open_job db ≡ some k
    → (k' : Job) × (open_job (started clock k db) ≡ some k') × (terms k' ≡ terms k)
open_job-started clock db k opened = elim (Bool-cases (status_eq k.status queued)) [
  | inl hit ↦ (
    set_off clock.stamp k.job_id k,
    reopened clock db k opened hit,
    terms-set_off clock.stamp k.job_id k,
  )
  | inr miss ↦ (k, rw miss opened, refl)
]

inactive_rows :
    (js : List Job) (job : Job)
    → All (λ (j : Job). status_in j.status active_statuses ≡ false) js
    → status_in job.status active_statuses ≡ true
    → where_rows (λ (j : Job). status_in j.status active_statuses) (js ++ job ∷ []) ≡ job ∷ []
inactive_rows [] job h active = rw active refl
inactive_rows (j ∷ js) job h active = rw h.0 (inactive_rows js job h.1 active)

-- An active job that is added to jobs that are not is the one that agents are sent to.
pub open_job-alone :
    (db : Db) (job : Job)
    → All (λ (j : Job). status_in j.status active_statuses ≡ false) db.jobs
    → status_in job.status active_statuses ≡ true
    → open_job (record db { jobs = db.jobs ++ job ∷ [] }) ≡ some job
unfolding open_job
open_job-alone db job h active = ap oldest (inactive_rows db.jobs job h active)
