-- ===== src/Tests/Fleets.antt =====
-- The theorems on fleets at concrete inputs that meet their hypotheses.
use cloudflare_r2_bench.Base.{◌≡◌, refl, inl, List, ℕ, [], ◌∷◌, codes, arith}
use cloudflare_r2_bench.Js.Number.{to_count}
use cloudflare_r2_bench.Db.{Db}
use cloudflare_r2_bench.Db.Prog.{run}
use cloudflare_r2_bench.Consistency.{IsConsistent}
use cloudflare_r2_bench.Orchestrator.Start.{plan_of, planned_job, start_job}
use cloudflare_r2_bench.Orchestrator.Start.Outcomes.{Queued}
use cloudflare_r2_bench.Orchestrator.Start.Validation.{validated-IsRunnable}
use cloudflare_r2_bench.Fleet.{roster_of}
use cloudflare_r2_bench.Fleet.Hosting.{Hosts}
use cloudflare_r2_bench.Fleet.Staffing.{
  Poll, polls, joins, AllTimely, names, total_rate, polls_refine,
}
use cloudflare_r2_bench.Fleet.Launch.{launch_total}
use cloudflare_r2_bench.Types.{RunAssignment}
use cloudflare_r2_bench.Agents.{agent_poll}
use cloudflare_r2_bench.Schedule.{Call, http, cron}
use cloudflare_r2_bench.Schedule.Returning.{assignment, reassigned}
use cloudflare_r2_bench.Tests.Everything.{everything}
use cloudflare_r2_bench.Tests.Fixtures.{
  env, clock_at, running_job, finished_job, half_staffed, half_staffed-IsConsistent, poll_body,
  poll_request, start_body,
}

half_staffed-Hosts : Hosts running_job half_staffed
unfolding everything
half_staffed-Hosts = record {
  consistent = half_staffed-IsConsistent;
  opened = (running_job, refl, refl);
  tidy = (inl (refl, refl), tt);
}

-- The agent that has a seat, a new one, and one too many.
abbrev three_polls : List Poll
three_polls =
    (clock_at 2000, poll_body (codes "a"))
    ∷ (clock_at 2001, poll_body (codes "b"))
    ∷ (clock_at 2002, poll_body (codes "c"))
    ∷ []

three_polls-AllTimely : AllTimely env running_job three_polls
unfolding everything
three_polls-AllTimely = (
  record { right = refl; named = refl; early = omega arith },
  (
    record { right = refl; named = refl; early = omega arith },
    (record { right = refl; named = refl; early = omega arith }, tt),
  ),
)

polls_refine_example :
    ((polls env three_polls half_staffed).0
      ≡ (joins running_job three_polls (roster_of running_job.job_id half_staffed)).0)
    × (roster_of running_job.job_id (polls env three_polls half_staffed).1
        ≡ (joins running_job three_polls (roster_of running_job.job_id half_staffed)).1)
    × Hosts running_job (polls env three_polls half_staffed).1
polls_refine_example =
    polls_refine env running_job three_polls half_staffed half_staffed-Hosts three_polls-AllTimely

abbrev quiet_db : Db
quiet_db = record { jobs = finished_job ∷ []; spawns = []; metrics = [] }

quiet_db-IsConsistent : IsConsistent quiet_db
quiet_db-IsConsistent = record {
  numbered = tt;
  distinct = (refl, tt);
  registered = tt;
  room = (omega arith, tt);
}

quiet_db-Queued : Queued env (clock_at 9) start_body quiet_db
unfolding everything
quiet_db-Queued = (refl, validated-IsRunnable env (clock_at 9) start_body refl, (refl, tt))

-- The two agents that the job wants.
abbrev two_polls : List Poll
two_polls = (clock_at 2000, poll_body (codes "a")) ∷ (clock_at 2001, poll_body (codes "b")) ∷ []

two_polls-AllTimely : AllTimely env (planned_job (clock_at 9) (plan_of start_body)) two_polls
unfolding everything
two_polls-AllTimely = (
  record { right = refl; named = refl; early = omega arith },
  (record { right = refl; named = refl; early = omega arith }, tt),
)

launch_total_example :
    (total_rate (polls env two_polls (run (start_job env (clock_at 9) start_body) quiet_db).1).0
      ≡ to_count (plan_of start_body).target_rps)
    × (roster_of
          (codes "u2")
          (polls env two_polls (run (start_job env (clock_at 9) start_body) quiet_db).1).1
        ≡ names (planned_job (clock_at 9) (plan_of start_body)) two_polls)
unfolding everything
launch_total_example =
    launch_total env (clock_at 9) start_body quiet_db two_polls quiet_db-IsConsistent
      quiet_db-Queued refl tt two_polls-AllTimely (refl, (refl, tt)) refl

-- The agent of the one spawn polls, another one joins and the reaper runs, and the first one returns.
abbrev joined_and_swept : List Call
joined_and_swept = http (clock_at 2001) (poll_request (codes "b")) ∷ cron (clock_at 2002) ∷ []

abbrev one_by_one : List ℕ
one_by_one = 0 ∷ 0 ∷ 0 ∷ 0 ∷ 0 ∷ 0 ∷ 0 ∷ 1 ∷ 1 ∷ 1 ∷ 1 ∷ 1 ∷ []

abbrev orders_of_a : RunAssignment
orders_of_a = assignment running_job (codes "u1-a") 0

reassigned_example :
    orders_of_a ≡ record orders_of_a { stop_at_epoch_ms = orders_of_a.stop_at_epoch_ms }
unfolding everything
reassigned_example =
    reassigned env joined_and_swept one_by_one (clock_at 2000) (clock_at 2003)
      (poll_body (codes "a")) (poll_body (codes "a")) half_staffed
      (run (agent_poll env (clock_at 2000) (poll_body (codes "a"))) half_staffed).1 _ orders_of_a
      orders_of_a half_staffed-IsConsistent refl refl refl refl
