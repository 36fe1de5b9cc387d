-- ===== src/Loader/Execute/Completed.antt =====
-- src/orchestrator.ts `complete_internal_spawn`: what the completion report of an agent leaves of its
-- spawn.
use cloudflare_r2_bench.Base.{
  ℕ, zero, suc, ◌≡◌, ◌≢◌, refl, ap, ◌∙◌, true, false, some, [], Text, text_eq, ◌==◌, if◌then◌else◌,
  first_row, arith,
}
use cloudflare_r2_bench.Base.Updates.{first_row-update, first_row-hit}
use cloudflare_r2_bench.Env.{Env}
use cloudflare_r2_bench.Types.{Status, running, stopped, completed, status_eq}
use cloudflare_r2_bench.Db.{Db, Spawn, Clock, spawn_now}
use cloudflare_r2_bench.Db.Prog.{run, ◌>>=◌}
use cloudflare_r2_bench.Auth.Checks.{is_falsy_full}
use cloudflare_r2_bench.Auth.{verify_agent_token, verify_internal_request}
use cloudflare_r2_bench.Agents.{find_spawn}
use cloudflare_r2_bench.Spawn.{
  job_status, running_spawns, is_stopping, set_spawn_status, set_job_status, finish_spawn,
  close_if_last, complete_benchmark_spawn,
}
use cloudflare_r2_bench.Orchestrator.{complete_internal_spawn}
use cloudflare_r2_bench.Orchestrator.Route.{
  ok_json, ok, fetch, catch_all, orchestrator_route, catch_unauthorized, routes, agent_route,
}
use cloudflare_r2_bench.Loader.{ControlClient}
use cloudflare_r2_bench.Loader.Execute.{completion_request}

module _ (env : Env) (c : ControlClient) (clock : Clock) (job_id spawn_id : Text)
    (right : verify_agent_token env (some c.token) ≡ true) (named : job_id ≢ [])
    (known : spawn_id ≢ []) where
  outcome_of : Db → Status
  outcome_of db = if is_stopping (job_status job_id db) then stopped else completed

  close_step :
      (outcome : Status) (n : ℕ) (db : Db)
      → (run
          (catch_all
            (catch_unauthorized (close_if_last clock outcome job_id n >>= λ _. ok_json ok)))
          db).1.spawns
        ≡ db.spawns
  unfolding catch_all catch_unauthorized close_if_last set_job_status
  close_step outcome zero db = refl
  close_step outcome (suc n) db = let more : (suc n == 0) ≡ false = ground arith in rw more refl

  completed_spawns :
      (db : Db)
      → (run (fetch env clock (completion_request c job_id spawn_id [])) db).1.spawns
        ≡ (set_spawn_status clock.stamp (outcome_of db) spawn_id db).spawns
  unfolding fetch catch_all orchestrator_route catch_unauthorized routes agent_route text_eq
      complete_internal_spawn complete_benchmark_spawn verify_internal_request finish_spawn
      outcome_of
  completed_spawns db =
      rw (is_falsy_full spawn_id known, is_falsy_full job_id named, right)
        (close_step (outcome_of db)
          (running_spawns job_id (set_spawn_status clock.stamp (outcome_of db) spawn_id db)) _)

  outcome_ended : (db : Db) → status_eq (outcome_of db) running ≡ false
  unfolding outcome_of
  outcome_ended db = ground arith

  -- The spawn, once its completion has been taken.
  pub completed_spawn :
      (db : Db) (s : Spawn)
      → find_spawn spawn_id db ≡ some s
      → (t : Spawn) × (find_spawn spawn_id
            (run (fetch env clock (completion_request c job_id spawn_id [])) db).1
          ≡ some t)
        × (status_eq t.status running ≡ false)
  unfolding find_spawn set_spawn_status
  completed_spawn db s found =
      let p = λ (x : Spawn). text_eq x.spawn_id spawn_id in
      let status = outcome_of db in
      (
        spawn_now clock.stamp status s,
        ap (first_row p) (completed_spawns db)
            ∙ first_row-update p p (spawn_now clock.stamp status) (λ x. refl) db.spawns s found
            ∙ rw (first_row-hit p db.spawns s found) refl,
        outcome_ended db,
      )
