-- ===== src/Agents/Polled.antt =====
-- Everything that `agent_poll` can answer, and what it leaves, when nothing interrupts it.
use cloudflare_r2_bench.Base.{
  ◌≡◌, ◌⊎◌, ap, inl, inr, refl, Bool, true, false, Option, none, some, List, [], ◌∷◌, ◌++◌, Text,
  Bool-cases, codes, ℕ, ltb, ◌==◌, any_row, first_row, update_rows, text_eq, text_eq_refl, ◌&&◌,
  if◌then◌else◌, arith,
}
use cloudflare_r2_bench.Consistency.{IsConsistent}
use cloudflare_r2_bench.Consistency.Seats.{slot_free}
use cloudflare_r2_bench.Js.Number.{or_default, whole}
use cloudflare_r2_bench.Types.{
  AgentPollRequest, AgentPollResponse, running, queued, status_eq, status_eq_sound,
}
use cloudflare_r2_bench.Types
use cloudflare_r2_bench.Db.{Db, Job, Spawn, Clock}
use cloudflare_r2_bench.Db.Prog.{run, returned}
use cloudflare_r2_bench.Agents.{
  find_spawn, occupancy, assign, claim, reconnect, claim_slot, start_running, touch_spawn, touched,
  claimed_spawn, rps_for_slot, all_filled,
}

-- What an agent is told to run.
abbrev pub work : Job → Text → ℕ → AgentPollResponse
work job id slot = Types.run (record {
  job_id = job.job_id;
  spawn_id = id;
  target_rps = rps_for_slot job.rps job.agents slot;
  workers = job.workers_per_agent;
  start_at_epoch_ms = job.start_at;
  stop_at_epoch_ms = job.stop_at;
  unthrottled = job.unthrottled == 1;
})

-- The first agent of a queued job sets it running.
abbrev pub started : Clock → Job → Db → Db
started clock job db =
    if status_eq job.status queued
    then record db {
      jobs =
          update_rows (λ j. text_eq j.job_id job.job_id && status_eq j.status queued)
            (λ j. record j { status = running; updated_at = clock.stamp }) db.jobs;
    }
    else db

-- The spawn of the agent has been seen, and nothing else is written.
abbrev pub seen_again : ℕ → Text → Db → Db
seen_again now id db = record db {
  spawns =
      update_rows (λ s. text_eq s.spawn_id id) (λ s. record s { last_seen = some now }) db.spawns;
}

run-assign :
    (clock : Clock) (job : Job) (id : Text) (slot : ℕ) (db : Db)
    → run (assign clock job id slot) db ≡ (returned (work job id slot), started clock job db)
unfolding assign start_running
run-assign clock job id slot db = elim (Bool-cases (status_eq job.status queued)) [
  | inl hit ↦ rw hit refl
  | inr miss ↦ rw miss refl
]

pub find_spawn-started :
    (clock : Clock) (job : Job) (id : Text) (db : Db)
    → find_spawn id (started clock job db) ≡ find_spawn id db
unfolding find_spawn
find_spawn-started clock job id db = elim (Bool-cases (status_eq job.status queued)) [
  | inl hit ↦ rw hit refl
  | inr miss ↦ rw miss refl
]

first_row-touched :
    (now : ℕ) (id : Text) (xs : List Spawn) (s : Spawn)
    → first_row (λ (x : Spawn). text_eq x.spawn_id id) xs ≡ some s
    → first_row
        (λ (x : Spawn). text_eq x.spawn_id id)
        (update_rows
          (λ (x : Spawn). text_eq x.spawn_id id)
          (λ (x : Spawn). record x { last_seen = some now })
          xs)
      ≡ some (touched now s)
first_row-touched now id [] s h = cc
first_row-touched now id (x ∷ xs) s h = elim (Bool-cases (text_eq x.spawn_id id)) [
  | inl hit ↦ rw (hit, hit) (ap (λ (o : Option Spawn). touch_option o) (rw hit at h))
  | inr miss ↦ rw (miss, miss) (first_row-touched now id xs s (rw miss at h))
]
  where
    touch_option : Option Spawn → Option Spawn
    touch_option none = none
    touch_option (some x) = some (touched now x)

pub find_spawn-touched :
    (now : ℕ) (id : Text) (db : Db) (s : Spawn)
    → find_spawn id db ≡ some s
    → find_spawn id (seen_again now id db) ≡ some (touched now s)
unfolding find_spawn
find_spawn-touched now id db s h = first_row-touched now id db.spawns s h

pub run-reconnect :
    (clock : Clock) (job : Job) (s : Spawn) (id : Text) (db : Db)
    → status_eq s.status running ≡ true
    → run (reconnect clock job s id) db
      ≡ (returned (work job id s.slot), started clock job (seen_again clock.now id db))
unfolding reconnect touch_spawn
run-reconnect clock job s id db going =
    rw going (run-assign clock job id s.slot (seen_again clock.now id db))

not_both {ℓ} : {A : Type ℓ} {a : A} → some a ≡ none → ⊥
not_both e = cc

first_row-none {ℓ} :
    {A : Type ℓ} (p : A → Bool) (xs : List A) → first_row p xs ≡ none → any_row p xs ≡ false
first_row-none p [] h = refl
first_row-none p (x ∷ xs) h = elim (Bool-cases (p x)) [
  | inl hit ↦ absurd (not_both (rw hit at h))
  | inr miss ↦ rw miss (first_row-none p xs (rw miss at h))
]

first_row-append {ℓ} :
    {A : Type ℓ} (p : A → Bool) (xs : List A) (a : A)
    → first_row p xs ≡ none
    → p a ≡ true
    → first_row p (xs ++ a ∷ []) ≡ some a
first_row-append p [] a h hit = rw hit refl
first_row-append p (x ∷ xs) a h hit = elim (Bool-cases (p x)) [
  | inl here ↦ absurd (not_both (rw here at h))
  | inr miss ↦ rw miss (first_row-append p xs a (rw miss at h) hit)
]

-- One row is inserted, and nothing else is written.
abbrev pub with_claim : Clock → AgentPollRequest → Job → Text → Text → Db → Db
with_claim clock body job agent_id id db = record db {
  spawns =
      db.spawns
      ++ record {
        spawn_id = id;
        job_id = job.job_id;
        status = running;
        avg_latency = whole 0;
        avg_rps = whole 0;
        count = whole 0;
        created_at = clock.stamp;
        updated_at = clock.stamp;
        agent_id = agent_id;
        region = or_default body.region (codes "unknown");
        slot = occupancy job.job_id db;
        last_seen = some clock.now;
      }
        ∷ [];
}

abbrev claim_of : Clock → AgentPollRequest → Job → Text → Text → Db → Option Db
claim_of clock body job agent_id id db =
    claim_slot id job.job_id agent_id (or_default body.region (codes "unknown")) clock.now
      clock.stamp job.agents db

-- In a consistent database the claim of a new agent cannot violate the unique index.
pub claim_slot_cases :
    (clock : Clock) (body : AgentPollRequest) (job : Job) (agent_id id : Text) (db : Db)
    → IsConsistent db
    → find_spawn id db ≡ none
    → ((ltb (occupancy job.job_id db) job.agents ≡ false)
        × (claim_of clock body job agent_id id db ≡ some db))
      ⊎ ((ltb (occupancy job.job_id db) job.agents ≡ true)
          × (claim_of clock body job agent_id id db
              ≡ some (with_claim clock body job agent_id id db)))
unfolding claim_slot find_spawn occupancy
claim_slot_cases clock body job agent_id id db c fresh =
    elim (Bool-cases (ltb (occupancy job.job_id db) job.agents)) [
      | inr full ↦ inl (full, rw full refl)
      | inl free ↦
          let new = first_row-none (λ (s : Spawn). text_eq s.spawn_id id) db.spawns fresh in
          let empty =
            slot_free [] db.spawns job.job_id (occupancy job.job_id db) c.numbered (omega arith) in
          inr (free, rw (free, new, empty) refl)
    ]

pub run-claim_full :
    (clock : Clock) (body : AgentPollRequest) (job : Job) (agent_id id : Text) (db : Db)
    → claim_of clock body job agent_id id db ≡ some db
    → find_spawn id db ≡ none
    → run (claim clock body job agent_id id) db
      ≡ (returned (Types.idle (some (all_filled job))), db)
unfolding claim
run-claim_full clock body job agent_id id db full fresh = rw (full, fresh, run, claim) refl

pub run-claim :
    (clock : Clock) (body : AgentPollRequest) (job : Job) (agent_id id : Text) (db db' : Db)
    (s : Spawn)
    → claim_of clock body job agent_id id db ≡ some db'
    → find_spawn id db' ≡ some s
    → run (claim clock body job agent_id id) db
      ≡ (returned (work job id s.slot), started clock job db')
unfolding claim
run-claim clock body job agent_id id db db' s went found =
    rw (went, found, run, claim) (run-assign clock job id s.slot db')

pub find_spawn-claimed :
    (clock : Clock) (body : AgentPollRequest) (job : Job) (agent_id id : Text) (db : Db)
    → find_spawn id db ≡ none
    → find_spawn id (with_claim clock body job agent_id id db)
      ≡ some (
          claimed_spawn id job.job_id agent_id
            (or_default body.region (codes "unknown"))
            clock.now
            clock.stamp
            (occupancy job.job_id db))
unfolding find_spawn
find_spawn-claimed clock body job agent_id id db fresh =
    first_row-append (λ (s : Spawn). text_eq s.spawn_id id) db.spawns
      (claimed_spawn id job.job_id agent_id (or_default body.region (codes "unknown")) clock.now
        clock.stamp (occupancy job.job_id db))
      fresh (text_eq_refl id)
