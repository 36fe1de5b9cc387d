-- ===== src/Schedule/Returning.antt =====
-- src/agents.ts: an agent that polls again, with other calls in between.
use cloudflare_r2_bench.Base.{
  ℕ, ◌≡◌, refl, ap, sym, ◌∙◌, List, [], ◌∷◌, some, Text, text_eq, ◌==◌, subst, inl, inr,
}
use cloudflare_r2_bench.Base.Rows.{first_row-Grows}
use cloudflare_r2_bench.Env.{Env}
use cloudflare_r2_bench.Types.{AgentPollRequest, AgentPollResponse, RunAssignment, idle}
use cloudflare_r2_bench.Types
use cloudflare_r2_bench.Db.{Db, Job, Spawn, Clock}
use cloudflare_r2_bench.Db.Prog.{run, returned, Outcome}
use cloudflare_r2_bench.History.{JobStep, SpawnStep, Evolves, Evolves-trans}
use cloudflare_r2_bench.Consistency.{IsConsistent, has_id}
use cloudflare_r2_bench.Consistency.Seats.{find-In}
use cloudflare_r2_bench.Agents.{open_job, find_spawn, agent_poll, rps_for_slot}
use cloudflare_r2_bench.Agents.OpenJob.{open_job-In}
use cloudflare_r2_bench.Agents.Polled.{work, started}
use cloudflare_r2_bench.Agents.Seating.{Polled, Seated}
use cloudflare_r2_bench.Agents.Outcomes.{agent_of, spawn_of, agent_poll_outcomes}
use cloudflare_r2_bench.Schedule.{Call}
use cloudflare_r2_bench.Schedule.Keeps.{Allowed, run-Allowed}
use cloudflare_r2_bench.Schedule.Poll.{agent_poll-Keeps}
use cloudflare_r2_bench.Schedule.Safety.{db_after, db_after-safe}

-- The assignment of a slot.
abbrev pub assignment : Job → Text → ℕ → RunAssignment
assignment j id slot = record {
  job_id = j.job_id;
  spawn_id = id;
  target_rps = rps_for_slot j.rps j.agents slot;
  workers = j.workers_per_agent;
  start_at_epoch_ms = j.start_at;
  stop_at_epoch_ms = j.stop_at;
  unthrottled = j.unthrottled == 1;
}

pub find_spawn-Evolves :
    (id : Text) (a b : Db) (s : Spawn)
    → Evolves a b
    → find_spawn id a ≡ some s
    → (t : Spawn) × (find_spawn id b ≡ some t) × SpawnStep s t
unfolding find_spawn
find_spawn-Evolves id a b s e found =
    first_row-Grows SpawnStep (λ (x : Spawn). text_eq x.spawn_id id)
      (λ x y p. ap (λ (t : Text). text_eq t id) (sym p.same_id)) a.spawns b.spawns s e.spawns found

-- The part of an answer that tells an agent what to do.
orders_of : Outcome AgentPollResponse → List RunAssignment
orders_of (returned (Types.run answer)) = answer ∷ []
orders_of _ = []

answer_told :
    (clock : Clock) (k : Job) (id : Text) (slot : ℕ) (answer : RunAssignment) (after db : Db)
    → ◌≡◌ {A = Polled}
        (returned (Types.run answer), after)
        (returned (work k id slot), started clock k db)
    → answer ≡ assignment k id slot
unfolding orders_of
answer_told clock k id slot answer after db told =
    let orders : answer ∷ [] ≡ assignment k id slot ∷ [] =
      ap (λ (o : Polled). orders_of o.0) told in
    cc

-- The seat of an agent that had one before.
same_seat :
    (clock : Clock) (body : AgentPollRequest) (k : Job) (a b : Db) (s : Spawn)
    (answer : RunAssignment) (after : Db)
    → Evolves a b
    → find_spawn (spawn_of body k) a ≡ some s
    → Seated clock body k (agent_of body) (spawn_of body k) b (returned (Types.run answer), after)
    → answer ≡ assignment k (spawn_of body k) s.slot
same_seat clock body k a b s answer after e found
      (t, db', told, _, _, _, _, inl (old, again, same, _)) =
    let (old', found', step) = find_spawn-Evolves (spawn_of body k) a b s e found in
    let alike : old ≡ old' = cc (again, found') in
    let slot : t.slot ≡ s.slot =
      ap (λ (x : Spawn). x.slot) same ∙ ap (λ (x : Spawn). x.slot) alike ∙ step.same_slot in
    rw slot at (answer_told clock k (spawn_of body k) t.slot answer after db' told)
same_seat clock body k a b s answer after e found (t, db', told, _, _, _, _, inr (fresh, _, _, _)) =
    let (old', found', step) = find_spawn-Evolves (spawn_of body k) a b s e found in
    absurd (cc (fresh, found'))

-- A poll that was told to run has a seat in the open job.
pub seat_of :
    (env : Env) (clock : Clock) (body : AgentPollRequest) (db after : Db) (answer : RunAssignment)
    → IsConsistent db
    → run (agent_poll env clock body) db ≡ (returned (Types.run answer), after)
    → (j : Job) × (open_job db ≡ some j)
      × Seated clock body j
          (agent_of body)
          (spawn_of body j)
          db
          (returned (Types.run answer), after)
unfolding orders_of
seat_of env clock body db after answer c went = elim (agent_poll_outcomes env clock body db c) [
  | inl (_, away) ↦ absurd (not_told (ap (λ (o : Polled). orders_of o.0) (sym went ∙ away)))
  | inr (inl (_, (reason, idled), _)) ↦
      absurd (not_told (ap (λ (o : Polled). orders_of o.0) (sym went ∙ idled)))
  | inr (inr (_, (j, found, seat))) ↦
      (j, found, subst (Seated clock body j (agent_of body) (spawn_of body j) db) went seat)
]
  where
    not_told : answer ∷ [] ≡ [] → ⊥
    not_told e = cc

-- What the seat tells of the answer and of the table that is left.
pub seat_told :
    (clock : Clock) (body : AgentPollRequest) (j : Job) (db after : Db) (answer : RunAssignment)
    → Seated clock body j (agent_of body) (spawn_of body j) db (returned (Types.run answer), after)
    → (s : Spawn) × (find_spawn (spawn_of body j) after ≡ some s)
      × (answer ≡ assignment j (spawn_of body j) s.slot)
seat_told clock body j db after answer (s, db', told, found, _, _, _, _) =
    let left : after ≡ started clock j db' = ap (λ (o : Polled). o.1) told in
    (s, rw left found, answer_told clock j (spawn_of body j) s.slot answer after db' told)

-- The open job, when an earlier one had its id.
later_row :
    (a b : Db) (j k : Job)
    → IsConsistent a
    → IsConsistent b
    → Evolves a b
    → open_job a ≡ some j
    → open_job b ≡ some k
    → k.job_id ≡ j.job_id
    → JobStep j k
later_row a b j k c d e opened opened' same =
    let found = find-In a.jobs j c.distinct (open_job-In a j opened).0 in
    let found' = find-In b.jobs k d.distinct (open_job-In b k opened').0 in
    let (k', again, st) =
      first_row-Grows JobStep (has_id j.job_id)
        (λ x y p. ap (λ (t : Text). text_eq t j.job_id) (sym p.same_id)) a.jobs b.jobs j e.jobs
        found in
    let alike : k' ≡ k = cc (again, found', same) in rw alike at st

-- The assignments of a slot at two times.
assignment-later :
    (j k : Job) (id id' : Text) (slot : ℕ) (first second : RunAssignment)
    → JobStep j k
    → id ≡ id'
    → first ≡ assignment j id slot
    → second ≡ assignment k id' slot
    → second ≡ record first { stop_at_epoch_ms = second.stop_at_epoch_ms }
assignment-later j k id id' slot first second st alike told told' =
    rw
      (
        told', told, alike, st.same_id, st.same_rps, st.same_agents, st.same_workers, st.same_start,
        st.same_flag,
      )
      refl

pub same_spawn :
    (body again : AgentPollRequest) (j k : Job)
    → again.agent_id ≡ body.agent_id
    → k.job_id ≡ j.job_id
    → spawn_of body j ≡ spawn_of again k
same_spawn body again j k agent one = rw (agent, one) refl

-- An agent that is told to run in a consistent database, and polls again under the same id after any
-- later interleaving of requests and cron ticks: when it is told to run the same job, it gets the same
-- spawn, rate, workers, start and mode of sending as before, whatever the other agents did; only the
-- end of the window is read anew.
pub reassigned :
    (env : Env) (calls : List Call) (schedule : List ℕ) (clock later : Clock)
    (body again : AgentPollRequest) (db mid after : Db) (first second : RunAssignment)
    → IsConsistent db
    → again.agent_id ≡ body.agent_id
    → run (agent_poll env clock body) db ≡ (returned (Types.run first), mid)
    → run (agent_poll env later again) (db_after env calls schedule mid)
      ≡ (returned (Types.run second), after)
    → second.job_id ≡ first.job_id
    → second ≡ record first { stop_at_epoch_ms = second.stop_at_epoch_ms }
reassigned env calls schedule clock later body again db mid after first second c agent went returns
      same =
    let end = db_after env calls schedule mid in
    let (c₁, e₁) =
      subst (λ (o : Polled). Allowed db o.1) went
        (run-Allowed (agent_poll env clock body) db (agent_poll-Keeps env clock body db) c) in
    let (c₂, e₂) = db_after-safe env calls schedule mid c₁ in
    let (j, opened, seat) = seat_of env clock body db mid first c went in
    let (k, opened', seat') = seat_of env later again end after second c₂ returns in
    let (s, found, told) = seat_told clock body j db mid first seat in
    let (_, _, told₂) = seat_told later again k end after second seat' in
    let one : k.job_id ≡ j.job_id = rw (told, told₂) at same in
    let st = later_row db end j k c c₂ (Evolves-trans db mid end e₁ e₂) opened opened' one in
    let id = same_spawn body again j k agent one in
    let told' = same_seat later again k mid end s second after e₂ (rw id at found) seat' in
    assignment-later j k (spawn_of body j) (spawn_of again k) s.slot first second st id told told'
