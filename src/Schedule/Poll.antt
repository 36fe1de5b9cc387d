-- ===== src/Schedule/Poll.antt =====
-- `agent_poll` keeps the invariant, whatever runs between its statements.
use cloudflare_r2_bench.Base.{
  ℕ, ◌≡◌, refl, sym, ap, ◌∙◌, not, some, [], Text, codes, text_eq, leb, first_row,
}
use cloudflare_r2_bench.Base.Rows.{first_row-Grows}
use cloudflare_r2_bench.Js.Number.{or_default}
use cloudflare_r2_bench.Env.{Env}
use cloudflare_r2_bench.Types.{queued, running, status_eq, AgentPollRequest}
use cloudflare_r2_bench.Db.{Db, Job, Spawn, Clock}
use cloudflare_r2_bench.History.{JobStep, Evolves}
use cloudflare_r2_bench.Consistency.{IsConsistent, has_id}
use cloudflare_r2_bench.Consistency.Seats.{find-In}
use cloudflare_r2_bench.Agents.OpenJob.{open_job-In}
use cloudflare_r2_bench.Consistency.Inserting.{claim_slot_total}
use cloudflare_r2_bench.Agents.{
  open_job, spawn_id_of, find_spawn, assign, claim, reconnect, poll_job, agent_poll, claim_slot,
  start_running, touch_spawn,
}
use cloudflare_r2_bench.Auth.{is_falsy, verify_agent_token}
use cloudflare_r2_bench.Schedule.Keeps.{
  Allowed-refl, Allowed-Rewrites, Keeps, Keeps-if, Keeps-option,
}
use cloudflare_r2_bench.Schedule.Statements.{touch_spawn-Rewrites, start_running-Rewrites}

-- The job that is still in the table is the one that was read, up to what may change.
Known : Text → ℕ → Db → Type 0
Known id agents db = (j : Job) × (first_row (has_id id) db.jobs ≡ some j) × (j.agents ≡ agents)

Known-later : (id : Text) (n : ℕ) (a b : Db) → Evolves a b → Known id n a → Known id n b
unfolding Known
Known-later id n a b e (j, found, agents) =
    let (k, again, st) =
      first_row-Grows JobStep (has_id id) (λ x y p. ap (λ (t : Text). text_eq t id) (sym p.same_id))
        a.jobs b.jobs j e.jobs found in
    (k, again, st.same_agents ∙ agents)

assign-Keeps :
    (clock : Clock) (job : Job) (id : Text) (slot : ℕ) (seen : Db)
    → Keeps (assign clock job id slot) seen
unfolding assign
assign-Keeps clock job id slot seen =
    Keeps-if (status_eq job.status queued) _ _ seen
      (λ db c e. (
        Allowed-Rewrites db (start_running clock.stamp job.job_id db)
            (start_running-Rewrites clock.stamp job.job_id db) c,
        tt,
      ))
      tt

reconnect-Keeps :
    (clock : Clock) (job : Job) (s : Spawn) (id : Text) (seen : Db)
    → Keeps (reconnect clock job s id) seen
unfolding reconnect
reconnect-Keeps clock job s id seen =
    Keeps-if (not (status_eq s.status running)) _ _ seen tt (λ db c e. (
      Allowed-Rewrites db (touch_spawn clock.now id db) (touch_spawn-Rewrites clock.now id db) c,
      assign-Keeps clock job id s.slot (touch_spawn clock.now id db),
    ))

-- The claim relies on the job: it is in the table, with the agents that were read.
claim-Keeps :
    (clock : Clock) (body : AgentPollRequest) (job : Job) (agent_id id : Text) (seen : Db)
    → Known job.job_id job.agents seen
    → Keeps (claim clock body job agent_id id) seen
unfolding claim Known
claim-Keeps clock body job agent_id id seen known = λ db c e.
    let region = or_default body.region (codes "unknown") in
    let (j, found, same) = Known-later job.job_id job.agents seen db e known in
    let (db', went, c', e') =
      claim_slot_total id job.job_id agent_id region clock.now clock.stamp db j c found in
    let went' : claim_slot id job.job_id agent_id region clock.now clock.stamp job.agents db
        ≡ some db' =
      rw same at went in
    rw went' (
      (c', e'),
      λ db₂ c₂ e₂. (
        Allowed-refl db₂ c₂,
        Keeps-option (find_spawn id db₂) _ _ db₂ tt (λ s h. assign-Keeps clock job id s.slot db₂),
      ),
    )

poll_job-Keeps :
    (clock : Clock) (body : AgentPollRequest) (agent_id : Text) (job : Job) (seen : Db)
    → Known job.job_id job.agents seen
    → Keeps (poll_job clock body agent_id job) seen
unfolding poll_job
poll_job-Keeps clock body agent_id job seen known =
    Keeps-if (leb job.stop_at clock.now) _ _ seen tt λ db c e.
      let id = spawn_id_of job.job_id agent_id in
      let now = Known-later job.job_id job.agents seen db e known in
      (
        Allowed-refl db c,
        Keeps-option (find_spawn id db) (claim clock body job agent_id id) _ db
            (claim-Keeps clock body job agent_id id db now)
            (λ s h. reconnect-Keeps clock job s id db),
      )

open_job-Known :
    (db : Db) (j : Job) → IsConsistent db → open_job db ≡ some j → Known j.job_id j.agents db
unfolding Known
open_job-Known db j c h = (j, find-In db.jobs j c.distinct (open_job-In db j h).0, refl)

pub agent_poll-Keeps :
    (env : Env) (clock : Clock) (body : AgentPollRequest) (seen : Db)
    → Keeps (agent_poll env clock body) seen
unfolding agent_poll
agent_poll-Keeps env clock body seen =
    Keeps-if (not (verify_agent_token env body.token)) _ _ seen tt (
      Keeps-if (is_falsy body.agent_id) _ _ seen tt λ db c e. (
        Allowed-refl db c,
        Keeps-option (open_job db) _ _ db tt (λ j h.
            poll_job-Keeps clock body (or_default body.agent_id []) j db (open_job-Known db j c h)),
      ))
