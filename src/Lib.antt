-- ===== src/Lib.antt =====
-- The control plane of an R2 load benchmark: a Cloudflare Worker that hands out jobs to load-generator
-- VMs, collects their reports and closes jobs, over a D1 (SQLite) database.
--
-- What is modelled, and where:
--   * src/types.ts, src/env.d.ts: `Types`, `Env`.
--   * migrations/*.sql: `Db`, three tables as lists of rows in the order of insertion.
--   * src/agents.ts: `Agents` (agent_poll, rps_for_slot) and `Auth` (verify_agent_token).
--   * src/spawn.ts: `Spawn` (record_benchmark_metrics, complete_benchmark_spawn) and `Spawn.Reaper`
--     (reap_jobs).
--   * src/orchestrator.ts: `Orchestrator` (list_jobs, stop_job and the internal endpoints),
--     `Orchestrator.Start` (start_job, deployment_config), `Orchestrator.Watch` (watch_job),
--     `Orchestrator.Route` (orchestrator_route), `Auth` (require_admin, verify_internal_request).
--   * src/index.ts: `Orchestrator.Route` (fetch) and `Schedule` (serve, for fetch and scheduled).
--   * assets/app.js: `Client`, the calls that the pages make, `Client.Capture` (the token of an address),
--     `Client.Headers` (what `fetch` makes of its headers) and `Client.Session`, which composes the calls with the Worker.
--   * cmd/agent/metrics.go: `Histogram` (bucketIndex, bucketValue and the counters) and
--     `Histogram.Snapshots` (Snapshot, Sub, Quantile).
--   * cmd/agent/control.go: `Loader` (post, JobStatus); cmd/agent/main.go: `Loader.Watch` (watchStatus,
--     with the Worker in `Loader.Watch.Stop`), `Loader.Report` (reportLoop, buildReport and the
--     reports of execute, with watch_job in `Loader.Report.Delivery`) and `Loader.Execute` (the loop of
--     main and execute, with the other calls of control.go; `Loader.Execute.Rounds` puts them among
--     other calls of the Worker); cmd/agent/runner.go: `Loader.Pacer` (startPacer, with the `float64`
--     numbers of `Loader.Double`); cmd/agent/config.go: `Loader.Config` (LoadConfig), with the seeder
--     in `Loader.Config.Shared`.
--   * internal/env/env.go: `Variables`. internal/r2/naming.go: `Naming`.
--   * internal/r2/sigv4.go: `Signing` (uriEncodePath) and `Signing.Signer` (Sign and signingKey, each
--     part under a lock one step; `Signing.Signer.Cache` runs the steps of goroutines in any order).
--   * cmd/seeder/main.go: `Seeder` (run and what it calls), over a store of objects, and
--     `Seeder.Settings` (the flags and checks of main); `Seeder.Sentinels` says what a sentinel
--     promises, and `Seeder.Promise` is about a whole run.
-- Names are those of the source in snake case; a field keeps its column's or property's name.
--
-- A handler is a program over the database (`Db.Prog`): each SQL statement or batch is one node that
-- changes the database at once, and between two nodes any other handler may run. `run` runs a program
-- alone, and `Schedule.interleave` runs any number of them in any order of their statements. An
-- exception is a `throw`: `UnauthorizedError`, or any other.
--
-- `History` says what a row may become, `Consistency` is the invariant of the database, and
-- `Schedule` is about both under interleaving: what each handler's statements may do to them.
--
-- `Fleet` is an abstract roster of the agents of one job, by their seats; `Fleet.Hosting` says what it
-- takes to follow it, and `Fleet.Refinement` relates polls to it. `Orchestrator.Watch` and its children are about the aggregate query of
-- watch_job, `Orchestrator.Listing` about the order of list_jobs.
--
-- The counters of an agent are words of 64 bits, with their overflow; the calls of its workers are a
-- list in the order in which they take effect. `bits.Len64` is `Base.Shifts.bit_length` with 64 as
-- its fuel, one for each bit of a word.
--
-- The answers of R2 to the seeder are a parameter (`SeedWorld`): each PUT is acknowledged, or fails with
-- or without the object stored, and `put_with_retry` counts down the six attempts of the source. The
-- PUTs of the workers take effect in the order of the plan. The control plane as an agent meets it is
-- `Loader.worker_at`, the Worker at one moment.
--
-- Texts are lists of UTF-16 code units, and of bytes in Go. Numbers of a request are JavaScript
-- numbers (`Js.Number`): NaN, the infinities and exact fractions, without the rounding of a double, so
-- counts and times stay below 2 ^ 53. Times are natural numbers. `Date.now()`, `current_timestamp` and
-- `crypto.randomUUID()` are the fields of a `Clock`, one for each call; the statements of one call
-- share its `current_timestamp`. The credit of the pacer is a `float64` with its rounding: in
-- `Loader.Double` a number is counted in units of 2 ^ -1074.
--
-- Besides `bit_length`, two loops take fuel. The printing of a decimal has the number itself plus one,
-- and divides by ten in each round. The search for the distance between doubles has 2046 rounds, and
-- doubles in each: enough below 2 ^ 1024.
--
-- SHA-256, HMAC and hexadecimal text are a parameter of `Signing.Signer` (`Crypto`), which comes with
-- the text of the time of a call. The order in which Go goes through a map is a parameter of
-- `Loader.Config`, and durations are kept in the seconds in which they are read.
--
-- Not modelled: the reading of JSON (a request comes with its body as each type of body), static
-- assets, logging, the fetch of a browser (a parameter of `Client`), NULL columns of rows from before
-- migration 2, a field of a body that has another type than it declares, the HTTP of the agent's
-- GETs, their transport and warmup, the HTTP and progress of the seeder, timers (when a call is made
-- is given with it), the parsing of a command line, the rounding of floating-point means and
-- rates (quotients are exact) and the product that scales a quantile (a parameter), the reading of a
-- snapshot while workers write, the markup of the web pages, Terraform and the scripts.
pub mod Base
pub mod Js
pub mod Types
pub mod Db
pub mod Env
pub mod History
pub mod Consistency
pub mod Schedule
pub mod Auth
pub mod Agents
pub mod Spawn
pub mod Orchestrator
pub mod Fleet
pub mod Client
pub mod Loader
pub mod Naming
pub mod Variables
pub mod Signing
pub mod Seeder
pub mod Histogram
pub mod Tests
