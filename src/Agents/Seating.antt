-- ===== src/Agents/Seating.antt =====
-- What a poll does about the open job: no work, or a slot with its spawn.
use cloudflare_r2_bench.Base.{
  ◌≡◌, ◌∙◌, ◌⊎◌, ◌<◌, ◌≤◌, inl, inr, refl, true, false, Option, none, some, Text, Option-cases,
  Bool-cases, codes, leb, arith,
}
use cloudflare_r2_bench.Js.Number.{or_default}
use cloudflare_r2_bench.Types.{
  AgentPollRequest, AgentPollResponse, idle, running, status_eq, status_eq_sound,
}
use cloudflare_r2_bench.Db.{Db, Job, Spawn, Clock}
use cloudflare_r2_bench.Db.Prog.{run, returned, Outcome}
use cloudflare_r2_bench.Consistency.{IsConsistent}
use cloudflare_r2_bench.Agents.{
  spawn_id_of, find_spawn, occupancy, claim, reconnect, poll_job, touched, claimed_spawn,
  all_filled,
}
use cloudflare_r2_bench.Agents.Polled.{
  work, started, seen_again, with_claim, claim_slot_cases, run-reconnect, run-claim, run-claim_full,
  find_spawn-started, find_spawn-touched, find_spawn-claimed,
}

abbrev pub Polled : Type 0
Polled = Outcome AgentPollResponse × Db

-- Why there is no work for this agent in a job that is open.
abbrev pub HasNoPart : Clock → Job → Text → Db → Type 0
HasNoPart clock job id db =
    (job.stop_at ≤ clock.now)
    ⊎ (((s : Spawn) × (find_spawn id db ≡ some s) × (status_eq s.status running ≡ false))
        ⊎ ((find_spawn id db ≡ none) × (job.agents ≤ occupancy job.job_id db)))

-- The agent keeps the slot of its spawn, or gets the next free one with a new spawn.
abbrev pub Kept : Clock → Text → Spawn → Db → Db → Type 0
Kept clock id s db db' =
    (old : Spawn) × (find_spawn id db ≡ some old)
    × (s ≡ record old { last_seen = some clock.now })
    × (db' ≡ seen_again clock.now id db)

abbrev pub Claimed : Clock → AgentPollRequest → Job → Text → Text → Spawn → Db → Db → Type 0
Claimed clock body job agent_id id s db db' =
    (find_spawn id db ≡ none)
    × (occupancy job.job_id db < job.agents)
    × (s.slot ≡ occupancy job.job_id db)
    × (db' ≡ with_claim clock body job agent_id id db)

-- The agent has a running spawn, seen just now, and is told the share of that spawn's slot.
abbrev pub Seated : Clock → AgentPollRequest → Job → Text → Text → Db → Polled → Type 0
Seated clock body job agent_id id db o =
    (s : Spawn) × (db' : Db) × (o ≡ (returned (work job id s.slot), started clock job db'))
    × (find_spawn id (started clock job db') ≡ some s)
    × (s.status ≡ running)
    × (s.last_seen ≡ some clock.now)
    × (clock.now < job.stop_at)
    × (Kept clock id s db db' ⊎ Claimed clock body job agent_id id s db db')

abbrev pub Unemployed : Clock → Job → Text → Db → Polled → Type 0
Unemployed clock job id db o =
    (reason : Option Text) × (o ≡ (returned (idle reason), db)) × HasNoPart clock job id db

module _ (clock : Clock) (body : AgentPollRequest) (agent_id : Text) (job : Job) (db : Db) where
  abbrev pub spawn : Text
  spawn = spawn_id_of job.job_id agent_id

  run_over :
      (old : Spawn)
      → status_eq old.status running ≡ false
      → run (reconnect clock job old spawn) db ≡ (returned (idle none), db)
  unfolding reconnect
  run_over old over = rw over refl

  too_late :
      leb job.stop_at clock.now ≡ true
      → run (poll_job clock body agent_id job) db ≡ (returned (idle none), db)
  unfolding poll_job
  too_late late = rw late refl

  goes_claim :
      leb job.stop_at clock.now ≡ false
      → find_spawn spawn db ≡ none
      → run (poll_job clock body agent_id job) db ≡ run (claim clock body job agent_id spawn) db
  unfolding poll_job
  goes_claim early fresh = rw (early, fresh, run, poll_job) refl

  goes_reconnect :
      leb job.stop_at clock.now ≡ false
      → (old : Spawn) → find_spawn spawn db ≡ some old
      → run (poll_job clock body agent_id job) db ≡ run (reconnect clock job old spawn) db
  unfolding poll_job
  goes_reconnect early old found = rw (early, found, run, poll_job) refl

  reconnected :
      (old : Spawn)
      → find_spawn spawn db ≡ some old
      → clock.now < job.stop_at
      → Unemployed clock job spawn db (run (reconnect clock job old spawn) db)
        ⊎ Seated clock body job agent_id spawn db (run (reconnect clock job old spawn) db)
  reconnected old found early = elim (Bool-cases (status_eq old.status running)) [
    | inr over ↦ inl (none, run_over old over, inr (inl (old, found, over)))
    | inl going ↦ inr (
      touched clock.now old,
      seen_again clock.now spawn db,
      run-reconnect clock job old spawn db going,
      find_spawn-started clock job spawn (seen_again clock.now spawn db)
          ∙ find_spawn-touched clock.now spawn db old found,
      status_eq_sound old.status running going,
      refl,
      early,
      inl (old, found, refl, refl),
    )
  ]

  claimed :
      IsConsistent db
      → find_spawn spawn db ≡ none
      → clock.now < job.stop_at
      → Unemployed clock job spawn db (run (claim clock body job agent_id spawn) db)
        ⊎ Seated clock body job agent_id spawn db (run (claim clock body job agent_id spawn) db)
  claimed c fresh early = elim (claim_slot_cases clock body job agent_id spawn db c fresh) [
    | inl (full, went) ↦ inl (
      some (all_filled job),
      run-claim_full clock body job agent_id spawn db went fresh,
      inr (inr (fresh, grind arith)),
    )
    | inr (free, went) ↦
        let new = find_spawn-claimed clock body job agent_id spawn db fresh in
        inr (
          claimed_spawn spawn job.job_id agent_id (or_default body.region (codes "unknown"))
              clock.now clock.stamp (occupancy job.job_id db),
          with_claim clock body job agent_id spawn db,
          run-claim clock body job agent_id spawn db (with_claim clock body job agent_id spawn db) _
              went new,
          find_spawn-started clock job spawn (with_claim clock body job agent_id spawn db) ∙ new,
          refl,
          refl,
          early,
          inr (fresh, grind arith, refl, refl),
        )
  ]

  pub poll_job_outcomes :
      IsConsistent db
      → Unemployed clock job spawn db (run (poll_job clock body agent_id job) db)
        ⊎ Seated clock body job agent_id spawn db (run (poll_job clock body agent_id job) db)
  poll_job_outcomes c = elim (Bool-cases (leb job.stop_at clock.now)) [
    | inl late ↦ inl (none, too_late late, inl (grind arith))
    | inr early ↦ elim (Option-cases (find_spawn spawn db)) [
      | inl fresh ↦ rw (goes_claim early fresh) (claimed c fresh (grind arith))
      | inr (old, found) ↦ rw (goes_reconnect early old found) (reconnected old found (grind arith))
    ]
  ]
