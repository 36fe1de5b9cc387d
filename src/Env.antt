-- ===== src/Env.antt =====
-- src/env.d.ts: the Worker's secrets and variables, `none` where one is unset. The database is
-- `Db`, and the static assets are fetched through a binding that is not modelled.
use cloudflare_r2_bench.Base.{Text, Option}

pub record Env : Type 0 where
  pub agent_token : Option Text
  pub admin_token : Option Text
  pub deployment_agents : Option Text
  pub max_workers_per_agent : Option Text
