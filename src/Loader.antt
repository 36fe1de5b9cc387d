-- ===== src/Loader.antt =====
-- cmd/agent/control.go: the agent's calls of the control plane. `Loader.Watch`, `Loader.Report`,
-- `Loader.Pacer` and `Loader.Execute` are the other parts of the agent.
pub mod Watch
pub mod Report
pub mod Double
pub mod Pacer
pub mod Execute
pub mod Config
use cloudflare_r2_bench.Base.{
  ℕ, Bool, true, false, not, ◌&&◌, ◌||◌, Option, none, some, [], ◌∷◌, Text, codes, ltb, leb,
  if◌then◌else◌,
}
use cloudflare_r2_bench.Env.{Env}
use cloudflare_r2_bench.Types.{SpawnStatusRequest}
use cloudflare_r2_bench.Db.{Db, Clock}
use cloudflare_r2_bench.Db.Prog.{Outcome, returned, thrown, run}
use cloudflare_r2_bench.Orchestrator.Route.{
  Request, Body, post, Response, json, failed_start, asset, Payload, fetch,
}

-- What `Do` and the reading of the body give: no response, or its status, its `Location` header and
-- its body.
pub data Answer (Reply : Type 0) : Type 0 where
  unreachable : Answer Reply
  answered : ℕ → Text → Reply → Answer Reply

-- Why a call failed. A redirect names where it leads, and whether Access credentials were sent.
pub data Failure : Type 0 where
  network : Failure
  redirected : ℕ → Text → Bool → Failure
  refused : ℕ → Failure
  malformed : Failure

pub data Result (Out : Type 0) : Type 0 where
  success : Out → Result Out
  failure : Failure → Result Out

pub record ControlClient : Type 0 where
  pub token : Text
  pub agent_id : Text
  pub region : Text
  pub access_client_id : Text
  pub access_client_secret : Text

abbrev pub is_blank : Text → Bool
is_blank [] = true
is_blank (_ ∷ _) = false

-- `post`, from the response on. `decode` is `json.Unmarshal` into the result, which may fail.
unfoldable pub post_result :
    {Reply Out : Type 0} → ControlClient → (Reply → Option Out) → Answer Reply → Result Out
post_result c decode unreachable = failure network
post_result c decode (answered status location reply) =
    if leb 300 status && ltb status 400
    then failure (redirected status location (not (is_blank c.access_client_id)))
    else if ltb status 200 || leb 300 status
    then failure (refused status)
    else elim (decode reply) [ none ↦ failure malformed | some out ↦ success out ]

abbrev pub no_body : Body
no_body = record {
  as_poll = none;
  as_status = none;
  as_metrics = none;
  as_completion = none;
  as_start = none;
  as_watch = none;
}

-- The request that `post` sends, as the Worker reads it.
abbrev pub posted : Text → Body → Request
posted path body = record {
  method = post;
  path = path;
  admin_header = none;
  admin_query = none;
  body = body;
}

-- `statusRequest`.
abbrev pub status_request : ControlClient → Text → Text → Request
status_request c job_id spawn_id = posted (codes "/api/internal/spawn-status") (record no_body {
  as_status =
      some (record { token = some c.token; spawn_id = some spawn_id; job_id = some job_id });
})

-- `JobStatus`, with the network and the control plane behind it.
unfoldable pub agent_job_status :
    {Reply : Type 0}
    → ControlClient
    → (Reply → Option Text)
    → (Request → Answer Reply)
    → Text
    → Text
    → Result Text
unfolding post_result
agent_job_status c decode exchange job_id spawn_id =
    post_result c decode (exchange (status_request c job_id spawn_id))

-- The control plane, reached at one moment: the response of the Worker, in a database that nothing
-- else changes meanwhile.
abbrev pub answer_of : Outcome Response → Answer Response
answer_of (returned (json status payload)) = answered status [] (json status payload)
answer_of (returned response) = answered 200 [] response
answer_of (thrown e) = unreachable

abbrev pub worker_at : Env → Clock → Db → Request → Answer Response
worker_at env clock db request = answer_of (run (fetch env clock request) db).0
