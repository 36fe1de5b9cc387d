-- ===== src/Schedule/Race.antt =====
-- `start_job` looks for an active job and inserts in two statements: two requests can both pass.
use cloudflare_r2_bench.Base.{
  ◌≡◌, refl, ap, ◌∙◌, false, Option, none, some, List, [], ◌∷◌, ◌++◌, codes, text_eq, any_row,
  arith,
}
use cloudflare_r2_bench.Env.{Env}
use cloudflare_r2_bench.Types.{JobStartRequest}
use cloudflare_r2_bench.Db.{Db, Job, Clock}
use cloudflare_r2_bench.Db.Prog.{Prog, done, or_same, execute_checked, ◌>>=◌, ◌>>◌}
use cloudflare_r2_bench.Auth.{require_admin}
use cloudflare_r2_bench.Consistency.{has_id}
use cloudflare_r2_bench.Consistency.Inserting.{any_row-append}
use cloudflare_r2_bench.Orchestrator.Start.{
  invalid, still_active, job_queued, Plan, plan_of, validation_error, active_job, planned_job,
  insert_job, queue_job, start_job,
}
use cloudflare_r2_bench.Orchestrator.Route.{
  Request, post, routes, agent_route, operator_route, orchestrator_route, fetch, catch_unauthorized,
  catch_all, ok_json, started,
}
use cloudflare_r2_bench.Schedule.{http, Reply, responded, interleave, serve, step, effect}
use cloudflare_r2_bench.Schedule.Safety.{db_after}

-- POST /api/v1/start without a token.
abbrev pub start_request : JobStartRequest → Request
start_request req = record {
  method = post;
  path = codes "/api/v1/start";
  admin_header = none;
  admin_query = none;
  body = record {
    as_poll = none;
    as_status = none;
    as_metrics = none;
    as_completion = none;
    as_start = some req;
    as_watch = none;
  };
}

abbrev pub open_env : Env → Env
open_env env = record env { admin_token = none }

-- The thread of a start request that passes its checks.
queueing : Clock → JobStartRequest → Prog Reply
queueing clock req =
    catch_all (catch_unauthorized (queue_job clock req (plan_of req) >>= λ r. ok_json (started r)))
    >>= λ r. done (responded r)

serve_start :
    (env : Env) (clock : Clock) (req : JobStartRequest)
    → validation_error (open_env env) (plan_of req) ≡ none
    → serve (open_env env) (http clock (start_request req)) ≡ queueing clock req
unfolding serve fetch orchestrator_route routes agent_route operator_route text_eq require_admin
    queueing start_job catch_all
serve_start env clock req valid = rw (valid, start_job) refl

abbrev with_job : Db → Job → Db
with_job db j = record db { jobs = db.jobs ++ j ∷ [] }

insert_fresh :
    (clock : Clock) (p : Plan) (db : Db)
    → any_row (has_id clock.uuid) db.jobs ≡ false
    → insert_job (planned_job clock p) db ≡ some (with_job db (planned_job clock p))
unfolding insert_job planned_job
insert_fresh clock p db fresh = rw fresh refl

still_fresh :
    (c d : Clock) (p : Plan) (js : List Job)
    → any_row (has_id d.uuid) js ≡ false
    → text_eq c.uuid d.uuid ≡ false
    → any_row (has_id d.uuid) (js ++ planned_job c p ∷ []) ≡ false
unfolding planned_job
still_fresh c d p js fresh differ =
    ground (arith, any_row-append (has_id d.uuid) js (planned_job c p ∷ []))

-- What a thread does once it has read that no job is active.
inserting : Clock → JobStartRequest → Option Job → Prog Reply
inserting clock req active =
    catch_all (
      catch_unauthorized (
        (elim active [
          | some job ↦ done (invalid req (still_active job))
          | none ↦
              execute_checked (insert_job (planned_job clock (plan_of req)))
              >> done (job_queued clock req (plan_of req))
        ])
        >>= λ r. ok_json (started r)))
    >>= λ r. done (responded r)

effect-inserting :
    (clock : Clock) (req : JobStartRequest) (active : Option Job) (db : Db)
    → active ≡ none
    → effect (inserting clock req active) db
      ≡ or_same db (insert_job (planned_job clock (plan_of req)) db)
unfolding inserting catch_all catch_unauthorized
effect-inserting clock req none db h = refl
effect-inserting clock req (some j) db h = cc

race_db :
    (c d : Clock) (q r : JobStartRequest) (db : Db)
    → (interleave
        (0 ∷ 1 ∷ 0 ∷ 1 ∷ [])
        (record { threads = queueing c q ∷ queueing d r ∷ []; db = db })).db
      ≡ effect (inserting d r (active_job db)) (effect (inserting c q (active_job db)) db)
unfolding queueing inserting queue_job catch_all catch_unauthorized interleave step
race_db c d q r db = refl

two_inserts :
    (c d : Clock) (q r : JobStartRequest) (db one two : Db)
    → active_job db ≡ none
    → insert_job (planned_job c (plan_of q)) db ≡ some one
    → insert_job (planned_job d (plan_of r)) one ≡ some two
    → effect (inserting d r (active_job db)) (effect (inserting c q (active_job db)) db) ≡ two
two_inserts c d q r db one two idle first second =
    rw (effect-inserting c q (active_job db) db idle, first)
      (rw (effect-inserting d r (active_job db) one idle, second) refl)

-- Two start requests that both pass their checks, on a deployment without ADMIN_TOKEN and a database
-- without an open job, both queue their job if each looks for an active job before the other inserts:
-- two jobs are then active at a time. The random ids are taken to be new and different.
pub start_race :
    (env : Env) (c d : Clock) (q r : JobStartRequest) (db : Db)
    → validation_error (open_env env) (plan_of q) ≡ none
    → validation_error (open_env env) (plan_of r) ≡ none
    → active_job db ≡ none
    → any_row (has_id c.uuid) db.jobs ≡ false
    → any_row (has_id d.uuid) db.jobs ≡ false
    → text_eq c.uuid d.uuid ≡ false
    → (db_after
        (open_env env)
        (http c (start_request q) ∷ http d (start_request r) ∷ [])
        (0 ∷ 1 ∷ 0 ∷ 1 ∷ [])
        db).jobs
      ≡ (db.jobs ++ planned_job c (plan_of q) ∷ []) ++ planned_job d (plan_of r) ∷ []
start_race env c d q r db valid_q valid_r idle fresh_c fresh_d differ =
    threads_path
    ∙ ap (λ (x : Db). x.jobs)
        (race_db c d q r db
          ∙ two_inserts c d q r db _ _ idle (insert_fresh c (plan_of q) db fresh_c)
              (insert_fresh d (plan_of r) _ (still_fresh c d (plan_of q) db.jobs fresh_d differ)))
  where
    threads_path :
        (db_after
          (open_env env)
          (http c (start_request q) ∷ http d (start_request r) ∷ [])
          (0 ∷ 1 ∷ 0 ∷ 1 ∷ [])
          db).jobs
        ≡ (interleave
            (0 ∷ 1 ∷ 0 ∷ 1 ∷ [])
            (record { threads = queueing c q ∷ queueing d r ∷ []; db = db })).db.jobs
    threads_path = λ i.
        (interleave (0 ∷ 1 ∷ 0 ∷ 1 ∷ []) (record {
          threads = serve_start env c q valid_q i ∷ serve_start env d r valid_r i ∷ [];
          db = db;
        })).db.jobs
