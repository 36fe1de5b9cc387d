-- ===== src/Agents/Outcomes.antt =====
-- The outcomes of `agent_poll`, with what each leaves in the database.
use cloudflare_r2_bench.Base.{
  ◌≡◌, ◌∙◌, ◌⊎◌, inl, inr, refl, true, false, Option, none, some, [], Text, Option-cases,
  Bool-cases, codes,
}
use cloudflare_r2_bench.Js.Number.{or_default}
use cloudflare_r2_bench.Env.{Env}
use cloudflare_r2_bench.Types.{AgentPollRequest, idle}
use cloudflare_r2_bench.Db.{Db, Job, Clock}
use cloudflare_r2_bench.Db.Prog.{run, returned, thrown, unauthorized}
use cloudflare_r2_bench.Auth.{verify_agent_token, is_falsy}
use cloudflare_r2_bench.Consistency.{IsConsistent}
use cloudflare_r2_bench.Agents.{open_job, spawn_id_of, poll_job, agent_poll}
use cloudflare_r2_bench.Agents.Seating.{HasNoPart, Seated, poll_job_outcomes}

abbrev pub agent_of : AgentPollRequest → Text
agent_of body = or_default body.agent_id []

abbrev pub spawn_of : AgentPollRequest → Job → Text
spawn_of body job = spawn_id_of job.job_id (agent_of body)

-- The poll throws, for its token.
abbrev pub TurnedAway : Env → Clock → AgentPollRequest → Db → Type 0
TurnedAway env clock body db =
    (verify_agent_token env body.token ≡ false)
    × (run (agent_poll env clock body) db
        ≡ (thrown (unauthorized (codes "invalid agent token")), db))

-- The poll gets no work, for a reason, and nothing is written.
abbrev pub Unassigned : Env → Clock → AgentPollRequest → Db → Type 0
Unassigned env clock body db =
    (verify_agent_token env body.token ≡ true)
    × ((reason : Option Text) × (run (agent_poll env clock body) db ≡ (returned (idle reason), db)))
    × ((is_falsy body.agent_id ≡ true)
        ⊎ ((open_job db ≡ none)
            ⊎ ((job : Job) × (open_job db ≡ some job)
                × HasNoPart clock job (spawn_of body job) db)))

-- The poll gets a slot of the open job.
abbrev pub Assigned : Env → Clock → AgentPollRequest → Db → Type 0
Assigned env clock body db =
    (verify_agent_token env body.token ≡ true)
    × ((job : Job) × (open_job db ≡ some job)
        × Seated clock body job (agent_of body) (spawn_of body job) db
            (run (agent_poll env clock body) db))

module _ (env : Env) (clock : Clock) (body : AgentPollRequest) (db : Db) where
  pub run_refused :
      verify_agent_token env body.token ≡ false
      → run (agent_poll env clock body) db
        ≡ (thrown (unauthorized (codes "invalid agent token")), db)
  unfolding agent_poll
  run_refused wrong = rw wrong refl

  run_nameless :
      verify_agent_token env body.token ≡ true
      → is_falsy body.agent_id ≡ true
      → run (agent_poll env clock body) db
        ≡ (returned (idle (some (codes "agentId is required"))), db)
  unfolding agent_poll
  run_nameless right empty = rw (right, empty) refl

  run_jobless :
      verify_agent_token env body.token ≡ true
      → is_falsy body.agent_id ≡ false
      → open_job db ≡ none
      → run (agent_poll env clock body) db ≡ (returned (idle none), db)
  unfolding agent_poll
  run_jobless right named closed = rw (right, named, closed, run, agent_poll) refl

  run_open :
      (job : Job)
      → verify_agent_token env body.token ≡ true
      → is_falsy body.agent_id ≡ false
      → open_job db ≡ some job
      → run (agent_poll env clock body) db ≡ run (poll_job clock body (agent_of body) job) db
  unfolding agent_poll
  run_open job right named found = rw (right, named, found, run, agent_poll) refl

  polled :
      (job : Job)
      → verify_agent_token env body.token ≡ true
      → is_falsy body.agent_id ≡ false
      → open_job db ≡ some job
      → IsConsistent db
      → Unassigned env clock body db ⊎ Assigned env clock body db
  polled job right named found c = elim (poll_job_outcomes clock body (agent_of body) job db c) [
    | inl (reason, same, why) ↦
        inl (right, (reason, run_open job right named found ∙ same), inr (inr (job, found, why)))
    | inr seat ↦ inr (right, (job, found, rw (run_open job right named found) seat))
  ]

-- A poll that nothing interrupts has one of three outcomes, in a consistent database. With a wrong
-- token it throws and writes nothing. Without work it is idle and writes nothing, and that is so only
-- for an empty agent id, when no job is open, or when the open job's window is over, the agent's spawn
-- of it is no longer running, or all its slots are taken. Else the window of the open job is not over
-- and the agent is told to run it with the share of one slot: that of its own running spawn, of which
-- only the time of the last sight is written, or the next free one, with a new spawn and nothing else
-- written. The spawn is then running and seen just now, and a queued job is set running.
pub agent_poll_outcomes :
    (env : Env) (clock : Clock) (body : AgentPollRequest) (db : Db)
    → IsConsistent db
    → TurnedAway env clock body db ⊎ (Unassigned env clock body db ⊎ Assigned env clock body db)
agent_poll_outcomes env clock body db c = elim (Bool-cases (verify_agent_token env body.token)) [
  | inr wrong ↦ inl (wrong, run_refused env clock body db wrong)
  | inl right ↦ inr (elim (Bool-cases (is_falsy body.agent_id)) [
    | inl empty ↦ inl (right, (_, run_nameless env clock body db right empty), inl empty)
    | inr named ↦ elim (Option-cases (open_job db)) [
      | inl shut ↦
          inl (right, (none, run_jobless env clock body db right named shut), inr (inl shut))
      | inr (job, found) ↦ polled env clock body db job right named found c
    ]
  ])
]
