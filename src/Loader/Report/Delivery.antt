-- ===== src/Loader/Report/Delivery.antt =====
-- The reports of an agent in the control plane: what src/orchestrator.ts `watch_job` makes of the
-- intervals and the final report of cmd/agent/main.go.
use cloudflare_r2_bench.Base.{
  ℕ, ◌+◌, ◌-◌, ◌*◌, ◌^◌, ◌<◌, ◌≤◌, ◌≡◌, ◌≢◌, refl, ap, subst, ◌∙◌, Bool, true, false, Option, some,
  List, [], ◌∷◌, ◌++◌, Text, text_eq, text_eq_refl, any_row, where_rows, All, map, length, arith,
}
use cloudflare_r2_bench.Base.Totals.{total}
use cloudflare_r2_bench.Js.Number.{Number, whole, fraction, to_count, or_default}
use cloudflare_r2_bench.Js.Arith.{sum_numbers}
use cloudflare_r2_bench.Env.{Env}
use cloudflare_r2_bench.Types.{SpawnMetricsReport}
use cloudflare_r2_bench.Db.{Db, Metric, Clock}
use cloudflare_r2_bench.Db.Prog.{run}
use cloudflare_r2_bench.Auth.Checks.{is_falsy_full}
use cloudflare_r2_bench.Auth.{verify_agent_token, verify_internal_request}
use cloudflare_r2_bench.Spawn.{metrics_batch, metric_row, record_benchmark_metrics}
use cloudflare_r2_bench.Orchestrator.{record_internal_metrics}
use cloudflare_r2_bench.Orchestrator.Watch.{SpawnMetric, samples, minutes, job_metrics}
use cloudflare_r2_bench.Orchestrator.Watch.Totals.{
  IsWhole, whole-IsWhole, sum_numbers-whole, bytes_total,
}
use cloudflare_r2_bench.Histogram.{Observation}
use cloudflare_r2_bench.Histogram.Snapshots.{snapshot}
use cloudflare_r2_bench.Loader.Report.{Run, build_report, Interval, all_calls, run_reports}
use cloudflare_r2_bench.Loader.Report.Bytes.{
  report_bytes, request_of, IsOf, bytes_read, bytes_exact, bytes_read-append, IsOf-interval_reports,
  interval_bytes,
}
use cloudflare_r2_bench.Loader.Report.Intervals.{counted_by, interval_reports, report_loop_lem}

-- The control plane after it has taken some reports, one call after the other.
unfoldable pub delivered : Env → Db → List Clock → List SpawnMetricsReport → Db
delivered env db clocks [] = db
delivered env db [] (r ∷ rs) = db
delivered env db (clock ∷ clocks) (r ∷ rs) =
    delivered env (run (record_internal_metrics env clock r) db).1 clocks rs

-- Each report is taken by a call of its own, whose new METRIC_ID is not in the table.
abbrev pub Arrive : Env → Db → List Clock → List SpawnMetricsReport → Type 0
Arrive env db clocks [] = Unit
Arrive env db [] (r ∷ rs) = ⊥
Arrive env db (clock ∷ clocks) (r ∷ rs) =
    (any_row (λ m. text_eq m.metric_id clock.uuid) db.metrics ≡ false)
    × Arrive env (run (record_internal_metrics env clock r) db).1 clocks rs

abbrev pub metrics_of : Text → Db → List Metric
metrics_of job_id db = where_rows (λ (m : Metric). text_eq m.job_id job_id) db.metrics

-- The metrics of a job give their bytes as whole numbers that add up to `n`.
Holds : Text → Db → ℕ → Type 0
Holds job_id db n =
    All (λ (m : Metric). IsWhole m.bytes) (metrics_of job_id db)
    × (total (λ (m : Metric). to_count m.bytes) (metrics_of job_id db) ≡ n)

where_rows-append :
    {A : Type 0} (p : A → Bool) (xs ys : List A)
    → where_rows p (xs ++ ys) ≡ where_rows p xs ++ where_rows p ys
where_rows-append p [] ys = refl
where_rows-append p (x ∷ xs) ys = ground (arith, where_rows-append p xs ys)

Holds-append :
    (job_id : Text) (ms : List Metric) (m : Metric) (n : ℕ)
    → All (λ (m : Metric). IsWhole m.bytes) ms
    → IsWhole m.bytes
    → total (λ (m : Metric). to_count m.bytes) ms ≡ n
    → All (λ (m : Metric). IsWhole m.bytes) (ms ++ m ∷ [])
      × (total (λ (m : Metric). to_count m.bytes) (ms ++ m ∷ []) ≡ n + to_count m.bytes)
Holds-append job_id [] m n h w t = ((w, tt), omega (arith, t))
Holds-append job_id (x ∷ ms) m n h w t =
    let (rest, sum) = Holds-append job_id ms m _ h.1 w refl in ((h.0, rest), omega (arith, sum, t))

module _ (env : Env) (a : Run) (right : verify_agent_token env (some a.client.token) ≡ true)
    (named : a.job_id ≢ []) (known : a.spawn_id ≢ []) where
  taken :
      (clock : Clock) (r : SpawnMetricsReport) (db : Db)
      → r.request ≡ request_of a
      → any_row (λ m. text_eq m.metric_id clock.uuid) db.metrics ≡ false
      → (run (record_internal_metrics env clock r) db).1.metrics
        ≡ db.metrics ++ metric_row clock r a.spawn_id a.job_id ∷ []
  unfolding record_internal_metrics verify_internal_request record_benchmark_metrics metrics_batch
  taken clock r db of_run fresh =
      rw
        (
          of_run,
          is_falsy_full a.spawn_id known,
          is_falsy_full a.job_id named,
          right,
          fresh,
          run,
          metrics_batch,
        )
        refl

  Holds-taken :
      (clock : Clock) (r : SpawnMetricsReport) (db : Db) (n : ℕ)
      → IsOf a r
      → any_row (λ m. text_eq m.metric_id clock.uuid) db.metrics ≡ false
      → Holds a.job_id db n
      → Holds a.job_id (run (record_internal_metrics env clock r) db).1 (n + report_bytes r)
  unfolding Holds
  Holds-taken clock r db n of_run fresh (all, sum) =
      let m = metric_row clock r a.spawn_id a.job_id in
      let rows : metrics_of a.job_id (run (record_internal_metrics env clock r) db).1
          ≡ metrics_of a.job_id db ++ m ∷ [] =
        ap (where_rows (λ (x : Metric). text_eq x.job_id a.job_id))
          (taken clock r db of_run.0 fresh)
        ∙ where_rows-append (λ (x : Metric). text_eq x.job_id a.job_id) db.metrics (m ∷ [])
        ∙ rw (text_eq_refl a.job_id) refl in
      let bytes : IsWhole m.bytes = ap (λ (o : Option Number). or_default o (whole 0)) of_run.1 in
      rw rows (Holds-append a.job_id (metrics_of a.job_id db) m n all bytes sum)

  Holds-delivered :
      (clocks : List Clock) (rs : List SpawnMetricsReport) (db : Db) (n : ℕ)
      → All (IsOf a) rs
      → Arrive env db clocks rs
      → Holds a.job_id db n
      → Holds a.job_id (delivered env db clocks rs) (n + total report_bytes rs)
  unfolding delivered
  Holds-delivered clocks [] db n of_run arrive h = let same : n + 0 ≡ n = omega arith in rw same h
  Holds-delivered [] (r ∷ rs) db n of_run arrive h = absurd arrive
  Holds-delivered (clock ∷ clocks) (r ∷ rs) db n of_run arrive h =
      let next = Holds-taken clock r db n of_run.0 arrive.0 h in
      let same : n + report_bytes r + total report_bytes rs
          ≡ n + (report_bytes r + total report_bytes rs) =
        omega arith in
      subst
        (Holds a.job_id (delivered env (run (record_internal_metrics env clock r) db).1 clocks rs))
        same
        (Holds-delivered clocks rs (run (record_internal_metrics env clock r) db).1
          (n + report_bytes r) of_run.1 arrive.1 next)

All-append : {A : Type 0} (P : A → Type 0) (xs ys : List A) → All P xs → All P ys → All P (xs ++ ys)
All-append P [] ys h k = k
All-append P (x ∷ xs) ys h k = (h.0, All-append P xs ys h.1 k)

total-append :
    {A : Type 0} (f : A → ℕ) (xs ys : List A) → total f (xs ++ ys) ≡ total f xs + total f ys
total-append f [] ys = omega arith
total-append f (x ∷ xs) ys = omega (arith, total-append f xs ys)

module _ (a : Run) (start stop : ℕ) (is : List Interval) (rest : List Observation) where
  abbrev final : SpawnMetricsReport
  final =
      build_report a (counted_by (all_calls is ++ rest)) (counted_by (all_calls is ++ rest))
        (stop - start) (stop - start) (fraction true 1 0)

  run_reports_parts :
      run_reports a start stop is rest ≡ interval_reports a start start 0 [] is ++ final ∷ []
  unfolding run_reports
  run_reports_parts =
      ap (λ (rs : List SpawnMetricsReport). rs ++ final ∷ []) (report_loop_lem a start is)

  IsOf-run_reports : All (IsOf a) (run_reports a start stop is rest)
  unfolding build_report
  IsOf-run_reports = rw run_reports_parts (
      All-append (IsOf a) (interval_reports a start start 0 [] is) (final ∷ [])
        (IsOf-interval_reports a start start 0 [] is)
        ((refl, ap some (whole-IsWhole (counted_by (all_calls is ++ rest)).bytes)), tt))

  run_bytes :
      bytes_read (all_calls is ++ rest) < 2 ^ 64
      → total report_bytes (run_reports a start stop is rest)
        ≡ 2 * bytes_read (all_calls is) + bytes_read rest
  unfolding build_report snapshot
  run_bytes room =
      let both = bytes_read-append (all_calls is) rest in
      rw run_reports_parts (
        omega (
          arith,
          total-append report_bytes (interval_reports a start start 0 [] is) (final ∷ []),
          interval_bytes a start start 0 [] is (omega arith),
          bytes_exact (all_calls is ++ rest) room,
          both,
        ))

-- Where the control plane takes every report of a run of a job that had none before, over at most 300
-- minutes, and the calls of the run read fewer than 2 ^ 64 bytes: the bytes in the response of
-- `watch_job` are those of the calls after the last tick, and twice those of the calls before it, once
-- in the report of their interval and again in the final report.
pub bytes_doubled :
    (env : Env) (a : Run) (start stop : ℕ) (is : List Interval) (rest : List Observation)
    (clocks : List Clock) (db : Db)
    → verify_agent_token env (some a.client.token) ≡ true
    → a.job_id ≢ []
    → a.spawn_id ≢ []
    → metrics_of a.job_id db ≡ []
    → Arrive env db clocks (run_reports a start stop is rest)
    → length
        (minutes (samples a.job_id (delivered env db clocks (run_reports a start stop is rest))))
      ≤ 300
    → bytes_read (all_calls is ++ rest) < 2 ^ 64
    → sum_numbers (
        map
          (λ (r : SpawnMetric). r.bytes)
          (job_metrics a.job_id (delivered env db clocks (run_reports a start stop is rest))))
      ≡ whole (2 * bytes_read (all_calls is) + bytes_read rest)
unfolding Holds
bytes_doubled env a start stop is rest clocks db right named known none_yet arrive few room =
    let reports = run_reports a start stop is rest in
    let end = delivered env db clocks reports in
    let start_holds : Holds a.job_id db 0 = rw none_yet (tt, refl) in
    let (all, sum) =
      Holds-delivered env a right named known clocks reports db 0
        (IsOf-run_reports a start stop is rest) arrive start_holds in
    bytes_total a.job_id end all few
    ∙ sum_numbers-whole (λ (m : Metric). m.bytes) (metrics_of a.job_id end) all
    ∙ ap whole (omega (arith, sum, run_bytes a start stop is rest room))
