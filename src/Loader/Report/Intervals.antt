-- ===== src/Loader/Report/Intervals.antt =====
-- cmd/agent/main.go `reportLoop`, against the calls of each interval.
use cloudflare_r2_bench.Base.{ℕ, suc, ◌-◌, ◌≡◌, refl, List, [], ◌∷◌, ◌++◌, some}
use cloudflare_r2_bench.Js.Number.{whole}
use cloudflare_r2_bench.Types.{SpawnMetricsReport}
use cloudflare_r2_bench.Histogram.{new_metrics, Observation, observe_all}
use cloudflare_r2_bench.Histogram.Snapshots.{Snapshot, snapshot}
use cloudflare_r2_bench.Histogram.Intervals.{sub-snapshot}
use cloudflare_r2_bench.Loader.Report.{
  Run, mean_latency_millis, rate_per_second, quantile_millis, build_report, report_loop, Interval,
  ticks_of,
}

abbrev pub counted_by : List Observation → Snapshot
counted_by calls = snapshot (observe_all calls new_metrics)

-- What one report says, field by field, where `all` counts all calls so far and `own` those since the
-- tick before.
abbrev pub interval_report : Run → Snapshot → Snapshot → ℕ → ℕ → ℕ → SpawnMetricsReport
interval_report a all own nanos own_nanos tick = record {
  request = record {
    token = some a.client.token;
    spawn_id = some a.spawn_id;
    job_id = some a.job_id;
  };
  tick_number = whole tick;
  latency = mean_latency_millis own;
  rps = rate_per_second own.count own_nanos;
  error_m1_rate = some (rate_per_second own.errors own_nanos);
  count = whole own.count;
  avg_latency = mean_latency_millis all;
  actual_rps = rate_per_second all.count nanos;
  total_count = whole all.count;
  p50 = some (quantile_millis a.scaling.scale50 own);
  p95 = some (quantile_millis a.scaling.scale95 own);
  p99 = some (quantile_millis a.scaling.scale99 own);
  bytes = some (whole own.bytes);
  status_4xx = some (whole own.status_4x);
  status_5xx = some (whole own.status_5x);
}

-- One report for each interval, from the calls of that interval alone, with the totals of all calls
-- up to its end.
abbrev pub interval_reports :
    Run → ℕ → ℕ → ℕ → List Observation → List Interval → List SpawnMetricsReport
interval_reports a start prev_at tick seen [] = []
interval_reports a start prev_at tick seen (i ∷ is) =
    interval_report a (counted_by (seen ++ i.calls)) (counted_by i.calls) (i.ends_at - start)
      (i.ends_at - prev_at) tick
    ∷ interval_reports a start i.ends_at (suc tick) (seen ++ i.calls) is

report_loop_from :
    (a : Run) (start prev_at tick : ℕ) (seen : List Observation) (is : List Interval)
    → report_loop a start (counted_by seen) prev_at tick (ticks_of seen is)
      ≡ interval_reports a start prev_at tick seen is
unfolding report_loop ticks_of build_report
report_loop_from a start prev_at tick seen [] = refl
report_loop_from a start prev_at tick seen (i ∷ is) =
    rw
      (
        sub-snapshot seen i.calls,
        report_loop_from a start i.ends_at (suc tick) (seen ++ i.calls) is,
      )
      refl

-- The reports of `reportLoop` are one for each tick, numbered from 0, in which the latency, rates,
-- quantiles, bytes and counts are those of the calls since the tick before and of no others, and
-- the mean latency, rate and count of the run so far those of all calls: each call is reported in
-- one tick, also where a counter overflows.
pub report_loop_lem :
    (a : Run) (start : ℕ) (is : List Interval)
    → report_loop a start (snapshot new_metrics) start 0 (ticks_of [] is)
      ≡ interval_reports a start start 0 [] is
unfolding observe_all
report_loop_lem a start is = report_loop_from a start start 0 [] is
