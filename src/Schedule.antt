-- ===== src/Schedule.antt =====
-- Requests and cron ticks that run at once (src/index.ts). Each is a program whose statements are
-- awaited one by one; a schedule says whose statement comes next.
pub mod Keeps
pub mod Poll
pub mod Handlers
pub mod Routes
pub mod Safety
pub mod Race
pub mod Stopping
pub mod Returning
pub mod Statements
use cloudflare_r2_bench.Base.{ℕ, zero, suc, List, [], ◌∷◌, Text}
use cloudflare_r2_bench.Env.{Env}
use cloudflare_r2_bench.Db.{Db, Clock}
use cloudflare_r2_bench.Db.Prog.{Prog, done, throw, atomic, ◌>>=◌}
use cloudflare_r2_bench.Spawn.Reaper.{Reaped, reap_jobs}
use cloudflare_r2_bench.Orchestrator.Route.{Request, Response, fetch}

-- What the Worker is called with: a request, or the cron trigger.
pub data Call : Type 0 where
  http : Clock → Request → Call
  cron : Clock → Call

pub data Reply : Type 0 where
  responded : Response → Reply
  reaped : Reaped → Reply

-- The default export: `fetch` and `scheduled`. The sweep's counts go to the log.
unfoldable pub serve : Env → Call → Prog Reply
serve env (http clock request) = fetch env clock request >>= λ r. done (responded r)
serve env (cron clock) = reap_jobs clock >>= λ r. done (reaped r)

abbrev pub threads : Env → List Call → List (Prog Reply)
threads env [] = []
threads env (c ∷ calls) = serve env c ∷ threads env calls

pub record World : Type 0 where
  pub threads : List (Prog Reply)
  pub db : Db

-- The next statement of one program.
abbrev pub advance : Prog Reply → Db → Prog Reply
advance (done r) db = done r
advance (throw e) db = throw e
advance (atomic f k) db = k db

abbrev pub effect : Prog Reply → Db → Db
effect (done r) db = db
effect (throw e) db = db
effect (atomic f k) db = f db

abbrev pub before : Prog Reply → World → World
before p w = record w { threads = p ∷ w.threads }

-- Thread `n` takes a step; a number past the end is no thread.
unfoldable pub step : ℕ → List (Prog Reply) → Db → World
step n [] db = record { threads = []; db = db }
step zero (p ∷ ps) db = record { threads = advance p db ∷ ps; db = effect p db }
step (suc n) (p ∷ ps) db = before p (step n ps db)

unfoldable pub interleave : List ℕ → World → World
interleave [] w = w
interleave (n ∷ ns) w = interleave ns (step n w.threads w.db)
