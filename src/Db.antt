-- ===== src/Db.antt =====
-- The D1 database (migrations/*.sql): three tables, each a list of rows in the order of insertion.
-- A row of an older schema, with NULL in a column of migration 2, is not modelled; LAST_SEEN keeps
-- its NULL, which a query tests for. A time of `current_timestamp` is a number of seconds.
pub mod Prog
use cloudflare_r2_bench.Base.{ℕ, Text, Option, List, [], Bool, text_eq}
use cloudflare_r2_bench.Js.Number.{Number}
use cloudflare_r2_bench.Types.{Status}

pub record Job : Type 0 where
  pub job_id : Text
  pub rps : ℕ
  pub concurrency : ℕ
  pub duration : ℕ
  pub status : Status
  pub created_at : ℕ
  pub updated_at : ℕ
  pub agents : ℕ
  pub workers_per_agent : ℕ
  pub start_at : ℕ
  pub stop_at : ℕ
  pub unthrottled : ℕ

pub record Spawn : Type 0 where
  pub spawn_id : Text
  pub job_id : Text
  pub status : Status
  pub avg_latency : Number
  pub avg_rps : Number
  pub count : Number
  pub created_at : ℕ
  pub updated_at : ℕ
  pub agent_id : Text
  pub region : Text
  pub slot : ℕ
  pub last_seen : Option ℕ

pub record Metric : Type 0 where
  pub metric_id : Text
  pub tick_number : Number
  pub spawn_id : Text
  pub job_id : Text
  pub latency : Number
  pub rps : Number
  pub count : Number
  pub created_at : ℕ
  pub error_m1_rate : Number
  pub p50 : Number
  pub p95 : Number
  pub p99 : Number
  pub bytes : Number
  pub status_4xx : Number
  pub status_5xx : Number

pub record Db : Type 0 where
  pub jobs : List Job
  pub spawns : List Spawn
  pub metrics : List Metric

abbrev pub empty_db : Db
empty_db = record { jobs = []; spawns = []; metrics = [] }

-- What a handler reads from its surroundings: `Date.now()`, `current_timestamp` and
-- `crypto.randomUUID()`.
pub record Clock : Type 0 where
  pub now : ℕ
  pub stamp : ℕ
  pub uuid : Text

-- `SET STATUS = ?, UPDATED_AT = current_timestamp` on a spawn and on a job.
abbrev pub spawn_now : ℕ → Status → Spawn → Spawn
spawn_now stamp status s = record s { status = status; updated_at = stamp }

abbrev pub job_now : ℕ → Status → Job → Job
job_now stamp status j = record j { status = status; updated_at = stamp }
