-- ===== src/Agents.antt =====
-- src/agents.ts: an agent's poll for work, and the share of the target rate that a slot gets.
-- The token check of that file is in `Auth`.
pub mod Shares
pub mod OpenJob
pub mod Polled
pub mod Seating
pub mod Outcomes
pub mod Opening
use cloudflare_r2_bench.Base.{
  ℕ, ◌+◌, ◌/◌, ◌%◌, Bool, true, false, not, ◌&&◌, Option, none, some, List, [], ◌∷◌, ◌++◌, Text,
  codes, decimal, text_eq, ltb, leb, ◌==◌, if◌then◌else◌, count_rows, first_row, any_row,
  update_rows, where_rows,
}
use cloudflare_r2_bench.Js.Number.{whole, or_default}
use cloudflare_r2_bench.Env.{Env}
use cloudflare_r2_bench.Types.{
  Status, queued, running, status_eq, status_in, active_statuses, AgentPollRequest,
  AgentPollResponse, idle, run,
}
use cloudflare_r2_bench.Db.{Db, Job, Spawn, Clock, spawn_now, job_now}
use cloudflare_r2_bench.Db.Prog.{
  Prog, done, throw, unauthorized, ◌>>=◌, ◌>>◌, select, execute, execute_checked,
}
use cloudflare_r2_bench.Auth.{verify_agent_token, is_falsy}

unfoldable pub rps_for_slot : ℕ → ℕ → ℕ → ℕ
rps_for_slot target_rps agents slot =
    if leb agents 0
    then 0
    else let base = target_rps / agents in
      let remainder = target_rps % agents in base + (if ltb slot remainder then 1 else 0)

-- `ORDER BY CREATED_AT ASC LIMIT 1`; among equals the row inserted first.
oldest_from : Job → List Job → Job
oldest_from best [] = best
oldest_from best (job ∷ jobs) =
    oldest_from (if ltb job.created_at best.created_at then job else best) jobs

oldest : List Job → Option Job
oldest [] = none
oldest (job ∷ jobs) = some (oldest_from job jobs)

-- The job that agents are sent to: the first query of `agent_poll`.
unfoldable pub open_job : Db → Option Job
unfolding oldest oldest_from
open_job db = oldest (where_rows (λ j. status_in j.status active_statuses) db.jobs)

unfoldable pub spawn_id_of : Text → Text → Text
spawn_id_of job_id agent_id = job_id ++ codes "-" ++ agent_id

unfoldable pub find_spawn : Text → Db → Option Spawn
find_spawn spawn_id db = first_row (λ s. text_eq s.spawn_id spawn_id) db.spawns

-- `(SELECT COUNT(*) FROM JOB_SPAWNS WHERE JOB_ID = ?)`.
unfoldable pub occupancy : Text → Db → ℕ
occupancy job_id db = count_rows (λ s. text_eq s.job_id job_id) db.spawns

abbrev pub touched : ℕ → Spawn → Spawn
touched now s = record s { last_seen = some now }

unfoldable pub touch_spawn : ℕ → Text → Db → Db
touch_spawn now spawn_id db = record db {
  spawns =
      update_rows (λ s. text_eq s.spawn_id spawn_id) (λ s. record s { last_seen = some now })
        db.spawns;
}

-- The row that a claim inserts.
abbrev pub claimed_spawn : Text → Text → Text → Text → ℕ → ℕ → ℕ → Spawn
claimed_spawn spawn_id job_id agent_id region now stamp slot = record {
  spawn_id = spawn_id;
  job_id = job_id;
  status = running;
  avg_latency = whole 0;
  avg_rps = whole 0;
  count = whole 0;
  created_at = stamp;
  updated_at = stamp;
  agent_id = agent_id;
  region = region;
  slot = slot;
  last_seen = some now;
}

-- The conditional INSERT. `none` is a violation of the unique index on (JOB_ID, SLOT); a spawn id
-- that is there already is left alone.
unfoldable pub claim_slot : Text → Text → Text → Text → ℕ → ℕ → ℕ → Db → Option Db
unfolding occupancy find_spawn
claim_slot spawn_id job_id agent_id region now stamp agents db =
    let slot = occupancy job_id db in
    if not (ltb slot agents)
    then some db
    else if any_row (λ s. text_eq s.spawn_id spawn_id) db.spawns
    then some db
    else if any_row (λ s. text_eq s.job_id job_id && (s.slot == slot)) db.spawns
    then none
    else some (record db {
      spawns = db.spawns ++ claimed_spawn spawn_id job_id agent_id region now stamp slot ∷ [];
    })

-- `UPDATE JOBS SET STATUS = 'RUNNING' WHERE JOB_ID = ? AND STATUS = 'QUEUED'`.
unfoldable pub start_running : ℕ → Text → Db → Db
start_running stamp job_id db = record db {
  jobs =
      update_rows (λ j. text_eq j.job_id job_id && status_eq j.status queued)
        (job_now stamp running) db.jobs;
}

-- The end of `agent_poll`, once the agent has a slot.
unfoldable pub assign : Clock → Job → Text → ℕ → Prog AgentPollResponse
assign clock job spawn_id slot =
    let response = run (record {
      job_id = job.job_id;
      spawn_id = spawn_id;
      target_rps = rps_for_slot job.rps job.agents slot;
      workers = job.workers_per_agent;
      start_at_epoch_ms = job.start_at;
      stop_at_epoch_ms = job.stop_at;
      unthrottled = job.unthrottled == 1;
    }) in
    if status_eq job.status queued
    then execute (start_running clock.stamp job.job_id) >> done response
    else done response

unfoldable pub all_filled : Job → Text
all_filled job =
    codes "job "
    ++ (job.job_id ++ (codes " has all " ++ (decimal job.agents ++ codes " slots filled")))

-- The `else` branch: claim a slot, and read back whether the claim went through.
unfoldable pub claim : Clock → AgentPollRequest → Job → Text → Text → Prog AgentPollResponse
claim clock body job agent_id spawn_id = do
  execute_checked (
      claim_slot spawn_id job.job_id agent_id (or_default body.region (codes "unknown")) clock.now
        clock.stamp job.agents)
  claimed ← select (find_spawn spawn_id)
  elim claimed [
    | none ↦ done (idle (some (all_filled job)))
    | some s ↦ assign clock job spawn_id s.slot
  ]

-- The `if` branch: an agent that reconnects keeps its slot; a finished spawn gets no more work.
unfoldable pub reconnect : Clock → Job → Spawn → Text → Prog AgentPollResponse
reconnect clock job existing spawn_id =
    if not (status_eq existing.status running)
    then done (idle none)
    else execute (touch_spawn clock.now spawn_id) >> assign clock job spawn_id existing.slot

-- From the open job on.
unfoldable pub poll_job : Clock → AgentPollRequest → Text → Job → Prog AgentPollResponse
poll_job clock body agent_id job =
    let spawn_id = spawn_id_of job.job_id agent_id in
    if leb job.stop_at clock.now then done (idle none) else do
      existing ← select (find_spawn spawn_id)
      elim existing [
        | some s ↦ reconnect clock job s spawn_id
        | none ↦ claim clock body job agent_id spawn_id
      ]

unfoldable pub agent_poll : Env → Clock → AgentPollRequest → Prog AgentPollResponse
agent_poll env clock body =
    if not (verify_agent_token env body.token)
    then throw (unauthorized (codes "invalid agent token"))
    else if is_falsy body.agent_id
    then done (idle (some (codes "agentId is required")))
    else do
      job ← select open_job
      elim job [
        | none ↦ done (idle none)
        | some j ↦ poll_job clock body (or_default body.agent_id []) j
      ]
