-- ===== src/Agents/OpenJob.antt =====
-- Which job `agent_poll` sends agents to.
use cloudflare_r2_bench.Base.{
  ◌≡◌, refl, true, some, List, [], ◌∷◌, ltb, if◌then◌else◌, Bool-cases, inl, inr, where_rows, In,
  In-where_rows,
}
use mathlib.Core.Path.{subst}
use cloudflare_r2_bench.Types.{status_in, active_statuses}
use cloudflare_r2_bench.Db.{Db, Job}
use cloudflare_r2_bench.Agents.{open_job, oldest, oldest_from}

oldest_from-In :
    (best : Job) (js all : List Job)
    → In best all
    → ((j : Job) → In j js → In j all)
    → In (oldest_from best js) all
unfolding oldest_from
oldest_from-In best [] all h k = h
oldest_from-In best (x ∷ js) all h k =
    oldest_from-In (if ltb x.created_at best.created_at then x else best) js all
      (elim (Bool-cases (ltb x.created_at best.created_at)) [
        | inl less ↦ rw less (k x (inl refl))
        | inr more ↦ rw more h
      ])
      (λ j i. k j (inr i))

oldest-In : (js : List Job) (j : Job) → oldest js ≡ some j → In j js
unfolding oldest
oldest-In [] j h = cc
oldest-In (x ∷ js) j h =
    let same : oldest_from x js ≡ j = cc h in
    subst (λ k. In k (x ∷ js)) same (oldest_from-In x js (x ∷ js) (inl refl) (λ k i. inr i))

-- The open job is a queued or running job of the table.
pub open_job-In :
    (db : Db) (j : Job)
    → open_job db ≡ some j
    → In j db.jobs × (status_in j.status active_statuses ≡ true)
unfolding open_job
open_job-In db j h =
    In-where_rows (λ (x : Job). status_in x.status active_statuses) db.jobs j
      (oldest-In (where_rows (λ x. status_in x.status active_statuses) db.jobs) j h)
