-- ===== src/Tests/Everything.antt =====
-- The definitions that a run computes with.
use cloudflare_r2_bench.Base.{text_eq, decimal}
use cloudflare_r2_bench.Js.Parse.{string_to_number}
use cloudflare_r2_bench.Types.{status_text}
use cloudflare_r2_bench.Auth.{verify_agent_token, require_admin, verify_internal_request}
use cloudflare_r2_bench.Agents.{
  rps_for_slot, open_job, spawn_id_of, find_spawn, occupancy, touch_spawn, claim_slot,
  start_running, assign, all_filled, claim, reconnect, poll_job, agent_poll,
}
use cloudflare_r2_bench.Spawn.{
  metrics_batch, record_benchmark_metrics, set_spawn_status, set_job_status, job_status,
  running_spawns, fail_spawn, close_if_last, finish_spawn, complete_benchmark_spawn,
}
use cloudflare_r2_bench.Spawn.Reaper.{
  fail_stale, count_stale, expired_jobs, complete_spawns, finalise, finalise_jobs, fail_orphaned,
  count_orphaned, close_stopping, reap_jobs,
}
use cloudflare_r2_bench.Orchestrator.{
  list_jobs, request_stop, count_stoppable, stop_job, get_internal_job_status,
  record_internal_metrics, complete_internal_spawn,
}
use cloudflare_r2_bench.Orchestrator.Start.{
  positive_number, positive_var, max_workers_per_agent, deployment_config, plan_of, first_invalid,
  above_cap, other_errors, validation_error, active_job, planned_job, insert_job, still_active,
  job_queued, queue_job, start_job,
}
use cloudflare_r2_bench.Orchestrator.Route.{
  started_page, get_route, agent_route, operator_route, routes, catch_unauthorized,
  orchestrator_route, catch_all, fetch,
}
use cloudflare_r2_bench.Schedule.{serve, step, interleave}

unfoldable pub everything : Unit {0}
unfolding text_eq decimal string_to_number status_text verify_agent_token require_admin
    verify_internal_request rps_for_slot open_job spawn_id_of find_spawn occupancy touch_spawn
    claim_slot start_running assign all_filled claim reconnect poll_job agent_poll metrics_batch
    record_benchmark_metrics set_spawn_status set_job_status job_status running_spawns fail_spawn
    close_if_last finish_spawn complete_benchmark_spawn fail_stale count_stale expired_jobs
    complete_spawns finalise finalise_jobs fail_orphaned count_orphaned close_stopping reap_jobs
    list_jobs request_stop count_stoppable stop_job get_internal_job_status record_internal_metrics
    complete_internal_spawn positive_number positive_var max_workers_per_agent deployment_config
    plan_of first_invalid above_cap other_errors validation_error active_job planned_job insert_job
    still_active job_queued queue_job start_job started_page get_route agent_route operator_route
    routes catch_unauthorized orchestrator_route catch_all fetch serve step interleave
everything = tt
