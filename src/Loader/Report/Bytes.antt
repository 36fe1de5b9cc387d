-- ===== src/Loader/Report/Bytes.antt =====
-- cmd/agent/main.go `buildReport`: the bytes that reports carry.
use cloudflare_r2_bench.Base.{
  ℕ, suc, ◌+◌, ◌%◌, ◌^◌, ◌<◌, ◌≡◌, refl, ap, some, List, [], ◌∷◌, ◌++◌, All, arith,
}
use cloudflare_r2_bench.Base.Totals.{total}
use cloudflare_r2_bench.Js.Number.{whole, to_count, or_default}
use cloudflare_r2_bench.Types.{SpawnMetricsReport, SpawnStatusRequest}
use cloudflare_r2_bench.Orchestrator.Watch.Totals.{whole-IsWhole}
use cloudflare_r2_bench.Histogram.{
  new_metrics, Observation, success, error, wire, conn, observe, observe_all, observe_success,
  observe_status, observe_error, observe_wire, observe_conn,
}
use cloudflare_r2_bench.Histogram.Snapshots.{snapshot}
use cloudflare_r2_bench.Histogram.Counters.{bytes-IsCounter, counted, word_of}
use cloudflare_r2_bench.Loader.Report.{Run, build_report, Interval, all_calls}
use cloudflare_r2_bench.Loader.Report.Intervals.{counted_by, interval_reports}

abbrev pub report_bytes : SpawnMetricsReport → ℕ
report_bytes r = to_count (or_default r.bytes (whole 0))

abbrev pub request_of : Run → SpawnStatusRequest
request_of a = record {
  token = some a.client.token;
  spawn_id = some a.spawn_id;
  job_id = some a.job_id;
}

abbrev pub IsOf : Run → SpawnMetricsReport → Type 0
IsOf a r = (r.request ≡ request_of a) × (r.bytes ≡ some (whole (report_bytes r)))

-- The bytes that calls read.
abbrev pub bytes_read : List Observation → ℕ
bytes_read [] = 0
bytes_read (success latency n status ∷ os) = n + bytes_read os
bytes_read (_ ∷ os) = bytes_read os

bytes_one :
    (o : Observation) (os : List Observation)
    → bytes_read (o ∷ os) % 2 ^ 64 ≡ ((observe o new_metrics).bytes + bytes_read os) % 2 ^ 64
unfolding observe observe_success observe_status observe_error observe_wire observe_conn
bytes_one (success l n status) os = ground arith
bytes_one (error l timeout) os = ground arith
bytes_one (wire micros) os = ground arith
bytes_one (conn reused) os = ground arith

bytes_residue :
    (os : List Observation) → (observe_all os new_metrics).bytes % 2 ^ 64 ≡ bytes_read os % 2 ^ 64
unfolding observe_all observe observe_success observe_status observe_error observe_wire observe_conn
bytes_residue [] = refl
bytes_residue (o ∷ os) = omega (
  arith,
  counted (λ m. m.bytes) bytes-IsCounter (observe o new_metrics) os,
  bytes_one o os,
  bytes_residue os,
)

pub bytes_exact :
    (os : List Observation)
    → bytes_read os < 2 ^ 64
    → (observe_all os new_metrics).bytes ≡ bytes_read os
bytes_exact os room = omega (arith, bytes_residue os, word_of (λ m. m.bytes) bytes-IsCounter os)

pub bytes_read-append :
    (xs ys : List Observation) → bytes_read (xs ++ ys) ≡ bytes_read xs + bytes_read ys
bytes_read-append [] ys = omega arith
bytes_read-append (success l n status ∷ xs) ys = omega (arith, bytes_read-append xs ys)
bytes_read-append (error l timeout ∷ xs) ys = bytes_read-append xs ys
bytes_read-append (wire micros ∷ xs) ys = bytes_read-append xs ys
bytes_read-append (conn reused ∷ xs) ys = bytes_read-append xs ys

-- The interval reports carry the bytes of their calls.
pub IsOf-interval_reports :
    (a : Run) (start prev_at tick : ℕ) (seen : List Observation) (is : List Interval)
    → All (IsOf a) (interval_reports a start prev_at tick seen is)
unfolding build_report
IsOf-interval_reports a start prev_at tick seen [] = tt
IsOf-interval_reports a start prev_at tick seen (i ∷ is) = (
  (refl, ap some (whole-IsWhole (counted_by i.calls).bytes)),
  IsOf-interval_reports a start i.ends_at (suc tick) (seen ++ i.calls) is,
)

pub interval_bytes :
    (a : Run) (start prev_at tick : ℕ) (seen : List Observation) (is : List Interval)
    → bytes_read (all_calls is) < 2 ^ 64
    → total report_bytes (interval_reports a start prev_at tick seen is) ≡ bytes_read (all_calls is)
unfolding build_report all_calls snapshot
interval_bytes a start prev_at tick seen [] room = refl
interval_bytes a start prev_at tick seen (i ∷ is) room =
    let both = bytes_read-append i.calls (all_calls is) in
    omega (
      arith,
      both,
      bytes_exact i.calls (omega arith),
      interval_bytes a start i.ends_at (suc tick) (seen ++ i.calls) is (omega arith),
    )
