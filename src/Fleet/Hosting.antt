-- ===== src/Fleet/Hosting.antt =====
-- What it takes for polls to follow the roster of a job, and the three ways to join a roster.
use cloudflare_r2_bench.Base.{
  ℕ, ◌≡◌, ◌≤◌, ◌<◌, refl, sym, ap, ◌∙◌, true, false, Option, none, some, List, [], ◌∷◌, ◌++◌, Text,
  length, ltb, All, arith,
}
use mathlib.Core.Option
use cloudflare_r2_bench.Env.{Env}
use cloudflare_r2_bench.Types.{
  AgentPollRequest, AgentPollResponse, idle, running, status_eq, queued,
}
use cloudflare_r2_bench.Types
use cloudflare_r2_bench.Db.{Db, Job, Clock}
use cloudflare_r2_bench.Db.Prog.{run, returned, thrown, Outcome}
use cloudflare_r2_bench.Auth.{verify_agent_token, is_falsy}
use cloudflare_r2_bench.Consistency.{IsConsistent}
use cloudflare_r2_bench.Agents.{open_job, agent_poll}
use cloudflare_r2_bench.Agents.Polled.{work}
use cloudflare_r2_bench.Agents.Outcomes.{spawn_of}
use cloudflare_r2_bench.Agents.Opening.{terms}
use cloudflare_r2_bench.Fleet.{seat_from, join, roster_of, IsTidy}

-- What an agent learns from an answer: its work, if it has any.
abbrev pub orders : Outcome AgentPollResponse → Option AgentPollResponse
orders (returned (idle _)) = none
orders (returned (Types.run a)) = some (Types.run a)
orders (thrown _) = none

-- A consistent database where agents are sent to a job on these terms, and whose spawns are tidy.
pub record Hosts (j : Job) (db : Db) : Type 0 where
  pub consistent : IsConsistent db
  pub opened : (k : Job) × (open_job db ≡ some k) × (terms k ≡ terms j)
  pub tidy : All (IsTidy j.job_id) db.spawns

-- A poll with a good token and a name, within the window of the job.
pub record IsTimely (env : Env) (j : Job) (clock : Clock) (body : AgentPollRequest) : Type 0 where
  pub right : verify_agent_token env body.token ≡ true
  pub named : is_falsy body.agent_id ≡ false
  pub early : clock.now < j.stop_at

-- The poll does what joining the roster does.
abbrev pub FollowsRoster : Env → Clock → AgentPollRequest → Job → Db → Type 0
FollowsRoster env clock body j db =
    (orders (run (agent_poll env clock body) db).0
      ≡ Option.map (work j (spawn_of body j))
          (join j.agents (spawn_of body j) (roster_of j.job_id db)).1)
    × (roster_of j.job_id (run (agent_poll env clock body) db).1
        ≡ (join j.agents (spawn_of body j) (roster_of j.job_id db)).0)

-- And it leaves the database ready for the next one.
abbrev pub JoinsRoster : Env → Clock → AgentPollRequest → Job → Db → Type 0
JoinsRoster env clock body j db =
    (orders (run (agent_poll env clock body) db).0
      ≡ Option.map (work j (spawn_of body j))
          (join j.agents (spawn_of body j) (roster_of j.job_id db)).1)
    × (roster_of j.job_id (run (agent_poll env clock body) db).1
        ≡ (join j.agents (spawn_of body j) (roster_of j.job_id db)).0)
    × Hosts j (run (agent_poll env clock body) db).1

pub same_terms : (k j : Job) (db : Db) → terms k ≡ terms j → Hosts k db → Hosts j db
same_terms k j db same host =
    let (k', found, alike) = host.opened in
    record {
      consistent = host.consistent;
      opened = (k', found, alike ∙ same);
      tidy = rw (ap (λ (t : Job). t.job_id) (sym same)) host.tidy;
    }

pub join_kept :
    (seats n : ℕ) (id : Text) (roster : List Text)
    → seat_from 0 id roster ≡ some n
    → join seats id roster ≡ (roster, some n)
unfolding join
join_kept seats n id roster h = rw (h, join) refl

pub join_full :
    (seats : ℕ) (id : Text) (roster : List Text)
    → seat_from 0 id roster ≡ none
    → seats ≤ length roster
    → join seats id roster ≡ (roster, none)
unfolding join
join_full seats id roster h full =
    let no_seat : ltb (length roster) seats ≡ false = ground arith in rw (h, join, no_seat) refl

pub join_next :
    (seats : ℕ) (id : Text) (roster : List Text)
    → seat_from 0 id roster ≡ none
    → length roster < seats
    → join seats id roster ≡ (roster ++ id ∷ [], some (length roster))
unfolding join
join_next seats id roster h free =
    let seat : ltb (length roster) seats ≡ true = ground arith in rw (h, join, seat) refl
