-- ===== src/Loader/Report.antt =====
-- cmd/agent/main.go `reportLoop` and `buildReport`, and the means of cmd/agent/metrics.go: what an
-- agent reports of a run. A duration is in nanoseconds, and a quotient is exact.
pub mod Intervals
pub mod Bytes
pub mod Delivery
use cloudflare_r2_bench.Base.{
  ℕ, suc, ◌+◌, ◌-◌, ◌*◌, true, false, some, List, [], ◌∷◌, ◌++◌, Text, ◌==◌, if◌then◌else◌,
}
use cloudflare_r2_bench.Js.Number.{Number, whole, fraction}
use cloudflare_r2_bench.Types.{SpawnMetricsReport}
use cloudflare_r2_bench.Histogram.{Metrics, new_metrics, add_word, Observation, observe_all}
use cloudflare_r2_bench.Histogram.Snapshots.{Snapshot, snapshot, sub, quantile}
use cloudflare_r2_bench.Loader.{ControlClient}

-- A quotient of a count by a positive divisor.
abbrev ratio : ℕ → ℕ → Number
ratio n d = fraction false n (d - 1)

-- `MeanLatencyMillis`; the latencies are in microseconds.
unfoldable pub mean_latency_millis : Snapshot → Number
mean_latency_millis s =
    let total = add_word s.count s.errors in
    if total == 0 then whole 0 else ratio s.lat_sum (total * 1000)

-- `ratePerSecond`.
unfoldable pub rate_per_second : ℕ → ℕ → Number
rate_per_second n nanos = if nanos == 0 then whole 0 else ratio (n * 1_000_000_000) nanos

-- The products `q * float64(total)` of `Quantile`, for each of the three quantiles.
pub record Scaling : Type 0 where
  pub scale50 : ℕ → ℕ
  pub scale95 : ℕ → ℕ
  pub scale99 : ℕ → ℕ

abbrev pub quantile_millis : (ℕ → ℕ) → Snapshot → Number
quantile_millis scaled s = ratio (quantile scaled s) 1000

-- The run that an agent was told: what its reports name.
pub record Run : Type 0 where
  pub client : ControlClient
  pub job_id : Text
  pub spawn_id : Text
  pub scaling : Scaling

-- `buildReport`, with the token that `ReportMetrics` puts in; the tick is -1 in the final report.
unfoldable pub build_report : Run → Snapshot → Snapshot → ℕ → ℕ → Number → SpawnMetricsReport
build_report a cumulative delta total_nanos interval_nanos tick = record {
  request = record {
    token = some a.client.token;
    spawn_id = some a.spawn_id;
    job_id = some a.job_id;
  };
  tick_number = tick;
  latency = mean_latency_millis delta;
  rps = rate_per_second delta.count interval_nanos;
  error_m1_rate = some (rate_per_second delta.errors interval_nanos);
  count = whole delta.count;
  avg_latency = mean_latency_millis cumulative;
  actual_rps = rate_per_second cumulative.count total_nanos;
  total_count = whole cumulative.count;
  p50 = some (quantile_millis a.scaling.scale50 delta);
  p95 = some (quantile_millis a.scaling.scale95 delta);
  p99 = some (quantile_millis a.scaling.scale99 delta);
  bytes = some (whole delta.bytes);
  status_4xx = some (whole delta.status_4x);
  status_5xx = some (whole delta.status_5x);
}

-- A tick of the timer: the counters that it sees, and its time.
pub record Tick : Type 0 where
  pub cur : Snapshot
  pub now : ℕ

-- `reportLoop` from its state: the last snapshot and its time, and the number of the next tick. The
-- state moves on whether the report arrives or not.
unfoldable pub report_loop : Run → ℕ → Snapshot → ℕ → ℕ → List Tick → List SpawnMetricsReport
report_loop a start prev prev_at tick [] = []
report_loop a start prev prev_at tick (t ∷ ticks) =
    build_report a t.cur (sub t.cur prev) (t.now - start) (t.now - prev_at) (whole tick)
    ∷ report_loop a start t.cur t.now (suc tick) ticks

-- The calls of the workers between two ticks, and the time of the second.
pub record Interval : Type 0 where
  pub calls : List Observation
  pub ends_at : ℕ

-- What the ticks see of counters that start with `seen`.
unfoldable pub ticks_of : List Observation → List Interval → List Tick
ticks_of seen [] = []
ticks_of seen (i ∷ is) =
    record { cur = snapshot (observe_all (seen ++ i.calls) new_metrics); now = i.ends_at }
    ∷ ticks_of (seen ++ i.calls) is

-- All calls of some intervals.
unfoldable pub all_calls : List Interval → List Observation
all_calls [] = []
all_calls (i ∷ is) = i.calls ++ all_calls is

-- The reports of the ticks of a run that starts at `start`.
unfoldable pub tick_reports : Run → ℕ → List Interval → List SpawnMetricsReport
unfolding report_loop ticks_of build_report
tick_reports a start is = report_loop a start (snapshot new_metrics) start 0 (ticks_of [] is)

-- The final report of `execute`, after the calls of the workers since the last tick.
unfoldable pub final_report : Run → ℕ → ℕ → List Interval → List Observation → SpawnMetricsReport
unfolding build_report all_calls
final_report a start stop is rest =
    let final = snapshot (observe_all (all_calls is ++ rest) new_metrics) in
    build_report a final final (stop - start) (stop - start) (fraction true 1 0)

-- The reports of a run from `start` to `stop`.
unfoldable pub run_reports :
    Run → ℕ → ℕ → List Interval → List Observation → List SpawnMetricsReport
unfolding tick_reports final_report
run_reports a start stop is rest = tick_reports a start is ++ final_report a start stop is rest ∷ []
