-- ===== src/Tests/Loaders.antt =====
-- The theorems on an agent at concrete inputs that meet their hypotheses.
use cloudflare_r2_bench.Base.{
  ℕ, ◌+◌, ◌*◌, ◌/◌, ◌≤◌, ◌<◌, ◌≡◌, ◌⊎◌, refl, true, false, Option, none, some, List, [], ◌∷◌, Text,
  codes, map, arith,
}
use cloudflare_r2_bench.Js.Number.{whole}
use cloudflare_r2_bench.Js.Arith.{sum_numbers}
use cloudflare_r2_bench.Types.{WatchRequest}
use cloudflare_r2_bench.Db.{empty_db, Clock}
use cloudflare_r2_bench.Db.Prog.{run}
use cloudflare_r2_bench.Histogram.{new_metrics, Observation, success, error, conn}
use cloudflare_r2_bench.Histogram.Snapshots.{snapshot}
use cloudflare_r2_bench.Orchestrator.{stop_job}
use cloudflare_r2_bench.Orchestrator.Route.{Response, Payload, json}
use cloudflare_r2_bench.Orchestrator.Watch.{
  SpawnMetric, samples, minutes, job_metrics, leaders, insert_minute,
}
use cloudflare_r2_bench.Schedule.Safety.{db_after}
use cloudflare_r2_bench.Loader.{ControlClient, failure, network, agent_job_status, worker_at}
use cloudflare_r2_bench.Loader.Watch.{watch_status}
use cloudflare_r2_bench.Loader.Watch.Stop.{stop_reaches_agent}
use cloudflare_r2_bench.Loader.Report.{
  Run, Scaling, Interval, ticks_of, all_calls, report_loop, run_reports, build_report,
}
use cloudflare_r2_bench.Loader.Report.Bytes.{bytes_read}
use cloudflare_r2_bench.Loader.Report.Intervals.{interval_reports, report_loop_lem}
use cloudflare_r2_bench.Loader.Report.Delivery.{delivered, bytes_doubled}
use cloudflare_r2_bench.Loader.Pacer.{
  PacerEvent, tick, take, per_tick, capacity, emit_tokens, pace_tick, new_pacer, pace,
}
use cloudflare_r2_bench.Loader.Double.{one, ulp, half_even, nearest_ratio}
use cloudflare_r2_bench.Loader.Pacer.Rate.{ticks, is_drained, pace_rate}
use cloudflare_r2_bench.Tests.Everything.{everything}
use cloudflare_r2_bench.Tests.Fixtures.{
  env, clock_at, running_job, half_staffed, half_staffed-IsConsistent, calls, schedule,
}

abbrev pub client : ControlClient
client = record {
  token = codes "agent-secret";
  agent_id = codes "a";
  region = codes "eu";
  access_client_id = [];
  access_client_secret = [];
}

abbrev status_of : Response → Option Text
status_of (json _ (Payload.job_status s)) = some s
status_of _ = none

abbrev stop_u1 : WatchRequest
stop_u1 = record { job_id = some (codes "u1") }

-- A stop of a running job, a few other calls, and an agent that first meets a network error.
stop_reaches_agent_example :
    watch_status (
      failure network
      ∷ agent_job_status client status_of
          (worker_at env
            (clock_at 3000)
            (db_after env calls schedule (run (stop_job (clock_at 2000) stop_u1) half_staffed).1))
          (codes "u1")
          (codes "u1-a")
      ∷ [])
    ≡ true
unfolding everything
stop_reaches_agent_example =
    stop_reaches_agent env calls schedule (clock_at 2000) (clock_at 3000) stop_u1 (codes "u1")
      (codes "u1-a") half_staffed running_job client status_of (failure network ∷ []) []
      half_staffed-IsConsistent refl (λ e. cc) (λ e. cc) refl refl (λ s. refl)

abbrev pub half_of : ℕ → ℕ
half_of total = total / 2

abbrev pub half_of_all : Scaling
half_of_all = record { scale50 = half_of; scale95 = half_of; scale99 = half_of }

abbrev one_run : Run
one_run = record {
  client = client;
  job_id = codes "u1";
  spawn_id = codes "u1-a";
  scaling = half_of_all;
}

-- Two ticks of ten seconds, and a call after the second.
abbrev two_intervals : List Interval
two_intervals =
    record { calls = conn false ∷ success 900 4096 200 ∷ []; ends_at = 10_000_000_000 }
    ∷ record { calls = error 30_000_000 true ∷ success 800 100 200 ∷ []; ends_at = 20_000_000_000 }
    ∷ []

abbrev last_calls : List Observation
last_calls = success 700 50 200 ∷ []

report_loop_lem_example :
    report_loop one_run 0 (snapshot new_metrics) 0 0 (ticks_of [] two_intervals)
    ≡ interval_reports one_run 0 0 0 [] two_intervals
report_loop_lem_example = report_loop_lem one_run 0 two_intervals

abbrev clock_for : Text → ℕ → Clock
clock_for uuid now = record { now = now; stamp = now; uuid = uuid }

abbrev three_clocks : List Clock
three_clocks =
    clock_for (codes "m1") 10 ∷ clock_for (codes "m2") 20 ∷ clock_for (codes "m3") 25 ∷ []

-- 4196 bytes before the second tick and 50 after it are shown as 8442.
bytes_doubled_example :
    sum_numbers (
      map
        (λ (r : SpawnMetric). r.bytes)
        (job_metrics (codes "u1") (
          delivered env empty_db three_clocks
            (run_reports one_run 0 25_000_000_000 two_intervals last_calls))))
    ≡ whole (2 * bytes_read (all_calls two_intervals) + bytes_read last_calls)
unfolding everything delivered run_reports report_loop ticks_of build_report samples minutes
    insert_minute all_calls leaders
bytes_doubled_example =
    bytes_doubled env one_run 0 25_000_000_000 two_intervals last_calls three_clocks empty_db refl
      (λ e. cc) (λ e. cc) refl (refl, (refl, (refl, tt))) (omega arith) (omega arith)

-- Four ticks at 500 requests a second, with a token taken after each of the first two.
abbrev four_ticks : List PacerEvent
four_ticks = tick ∷ take ∷ tick ∷ take ∷ tick ∷ tick ∷ []

pace_rate_example :
    ((pace 500 four_ticks new_pacer).queued ≤ capacity 500)
    × (200 * (pace 500 four_ticks new_pacer).sent ≤ ticks four_ticks * 500 + 200)
    × ((is_drained 500 four_ticks new_pacer ≡ false)
        ⊎ (ticks four_ticks * 500 < 200 * ((pace 500 four_ticks new_pacer).sent + 3)))
pace_rate_example = pace_rate 500 four_ticks (omega arith) (omega arith)

-- Ten ticks at 20 requests a second send no token: ten times the double next to 0.1 is below 1.
abbrev ten_ticks : List PacerEvent
ten_ticks = tick ∷ tick ∷ tick ∷ tick ∷ tick ∷ tick ∷ tick ∷ tick ∷ tick ∷ tick ∷ []

pace_loss : (pace 20 ten_ticks new_pacer).sent ≡ 0
unfolding pace pace_tick per_tick capacity emit_tokens one nearest_ratio ulp half_even
pace_loss = refl

pace_later : (pace 20 (tick ∷ ten_ticks) new_pacer).sent ≡ 1
unfolding pace pace_tick per_tick capacity emit_tokens one nearest_ratio ulp half_even
pace_later = refl
