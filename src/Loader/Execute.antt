-- ===== src/Loader/Execute.antt =====
-- cmd/agent/main.go `execute` and the loop of `main`: the calls of the control plane that an agent
-- makes for one answer to its poll, on every path.
pub mod Rounds
pub mod Completed
pub mod Once
use cloudflare_r2_bench.Base.{
  ℕ, Bool, Option, none, some, List, [], ◌∷◌, ◌++◌, Text, codes, ltb, leb, if◌then◌else◌, map,
}
use cloudflare_r2_bench.Types.{
  AgentPollRequest, AgentPollResponse, RunAssignment, idle, SpawnMetricsReport,
}
use cloudflare_r2_bench.Types
use cloudflare_r2_bench.Orchestrator.Route.{Request}
use cloudflare_r2_bench.Histogram.{Observation}
use cloudflare_r2_bench.Loader.{
  ControlClient, Result, success, failure, posted, no_body, status_request,
}
use cloudflare_r2_bench.Loader.Report.{Run, Scaling, Interval, tick_reports, final_report}

-- `pollRequest`.
abbrev pub poll_body : ControlClient → AgentPollRequest
poll_body c = record { token = some c.token; agent_id = some c.agent_id; region = some c.region }

-- `ReportMetrics`.
abbrev pub metrics_request : SpawnMetricsReport → Request
metrics_request r =
    posted (codes "/api/internal/spawn-metrics") (record no_body { as_metrics = some r })

-- A field that is left out when it is empty.
abbrev pub omit_empty : Text → Option Text
omit_empty [] = none
omit_empty (c ∷ cs) = some (c ∷ cs)

-- `ReportComplete`.
abbrev pub completion_request : ControlClient → Text → Text → Text → Request
completion_request c job_id spawn_id message =
    posted (codes "/api/internal/spawn-complete") (record no_body {
      as_completion = some (record {
        request = record { token = some c.token; spawn_id = some spawn_id; job_id = some job_id };
        error = omit_empty message;
      });
    })

-- Whose call comes next while the load runs: that of `reportLoop`, or that of `watchStatus`.
pub data Turn : Type 0 where
  report check : Turn

-- What one execution meets: the times in milliseconds at its entry and once it is warm, whether it is
-- cancelled in the hold, and the load: its start and end in nanoseconds, the calls of its workers,
-- and the order of the calls of the control plane.
pub record Conduct : Type 0 where
  pub entered : ℕ
  pub warmed : ℕ
  pub cancelled : Bool
  pub start : ℕ
  pub stop : ℕ
  pub intervals : List Interval
  pub rest : List Observation
  pub turns : List Turn

-- The calls of the two goroutines beside the load, up to `wg.Wait`.
unfoldable pub woven : Request → List Turn → List SpawnMetricsReport → List Request
woven status [] reports = map metrics_request reports
woven status (check ∷ turns) reports = status ∷ woven status turns reports
woven status (report ∷ turns) [] = woven status turns []
woven status (report ∷ turns) (r ∷ reports) = metrics_request r ∷ woven status turns reports

-- The load with its reports, from the start on.
unfoldable pub load_requests : ControlClient → Scaling → RunAssignment → Conduct → List Request
unfolding woven tick_reports final_report
load_requests c scaling resp how =
    let a : Run = record {
      client = c;
      job_id = resp.job_id;
      spawn_id = resp.spawn_id;
      scaling = scaling;
    } in
    woven (status_request c resp.job_id resp.spawn_id) how.turns
      (tick_reports a how.start how.intervals)
    ++ metrics_request (final_report a how.start how.stop how.intervals how.rest)
      ∷ completion_request c resp.job_id resp.spawn_id []
      ∷ []

-- `execute`: an assignment that is over, or cancelled before its start, is reported as complete.
unfoldable pub execute : ControlClient → Scaling → RunAssignment → Conduct → List Request
unfolding load_requests
execute c scaling resp how =
    let complete = completion_request c resp.job_id resp.spawn_id [] ∷ [] in
    let load = load_requests c scaling resp how in
    if leb resp.stop_at_epoch_ms how.entered
    then complete
    else if ltb how.warmed resp.start_at_epoch_ms
    then (if how.cancelled then complete else load)
    else load

-- A round of the loop of `main`, from the result of the poll on: the calls that follow it.
unfoldable pub after_poll :
    ControlClient → Scaling → Result AgentPollResponse → Conduct → List Request
unfolding execute
after_poll c scaling (failure why) how = []
after_poll c scaling (success (idle message)) how = []
after_poll c scaling (success (Types.run resp)) how = execute c scaling resp how
