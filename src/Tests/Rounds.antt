-- ===== src/Tests/Rounds.antt =====
-- The theorem on an agent that carries out a job, at concrete inputs that meet its hypotheses.
use cloudflare_r2_bench.Base.{◌≢◌, refl, true, false, some, List, [], ◌∷◌, codes}
use cloudflare_r2_bench.Types.{RunAssignment}
use cloudflare_r2_bench.Db.Prog.{run}
use cloudflare_r2_bench.Agents.{agent_poll}
use cloudflare_r2_bench.Orchestrator.Start.{plan_of, planned_job}
use cloudflare_r2_bench.Orchestrator.Route.{Request}
use cloudflare_r2_bench.Schedule.{http, cron}
use cloudflare_r2_bench.Schedule.Race.{start_request}
use cloudflare_r2_bench.Schedule.Returning.{assignment}
use cloudflare_r2_bench.Histogram.{success}
use cloudflare_r2_bench.Loader.Report.{
  ticks_of, all_calls, report_loop, tick_reports, final_report, build_report,
}
use cloudflare_r2_bench.Loader.Execute.{
  poll_body, Conduct, check, woven, load_requests, execute, after_poll,
}
use cloudflare_r2_bench.Loader.Execute.Rounds.{Round, exchanged}
use cloudflare_r2_bench.Loader.Execute.Once.{runs_once}
use cloudflare_r2_bench.Tests.Everything.{everything}
use cloudflare_r2_bench.Tests.Fixtures.{
  env, clock_at, running_job, half_staffed, half_staffed-IsConsistent, start_body, poll_request,
}
use cloudflare_r2_bench.Tests.Loaders.{client, half_of_all}

abbrev orders : RunAssignment
orders = assignment running_job (codes "u1-a") 0

-- One check of the status, one call, and no tick of the reports.
abbrev short_load : Conduct
short_load = record {
  entered = 2000;
  warmed = 2000;
  cancelled = false;
  start = 0;
  stop = 5_000_000_000;
  intervals = [];
  rest = success 700 50 200 ∷ [];
  turns = check ∷ [];
}

-- The check is lost, another agent polls before the last report, and the sweep before the completion.
abbrev rough_rounds : List Round
rough_rounds =
    record { calls = []; schedule = []; clock = clock_at 2100; arrives = false }
    ∷ record {
      calls = http (clock_at 2200) (poll_request (codes "b")) ∷ [];
      schedule = 0 ∷ [];
      clock = clock_at 2300;
      arrives = false;
    }
    ∷ record {
      calls = cron (clock_at 2400) ∷ [];
      schedule = 0 ∷ [];
      clock = clock_at 2500;
      arrives = true;
    }
    ∷ []

abbrev start_again : Request
start_again = record (start_request start_body) { admin_header = some (codes "admin-secret") }

abbrev next_orders : RunAssignment
next_orders = assignment (planned_job (clock_at 3000) (plan_of start_body)) (codes "u2-a") 0

runs_once_example : next_orders.job_id ≢ orders.job_id
unfolding everything ticks_of all_calls report_loop tick_reports final_report build_report woven
    load_requests execute after_poll exchanged
runs_once_example =
    runs_once env client half_of_all short_load rough_rounds (http (clock_at 3000) start_again ∷ [])
      (0 ∷ 0 ∷ 0 ∷ 0 ∷ 0 ∷ 0 ∷ []) (clock_at 2000) (clock_at 3100) half_staffed
      (run (agent_poll env (clock_at 2000) (poll_body client)) half_staffed).1 _ orders next_orders
      (λ e. cc) half_staffed-IsConsistent refl refl refl
