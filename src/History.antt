-- ===== src/History.antt =====
-- What a database may become: the statements of every handler only move rows along these relations.
use cloudflare_r2_bench.Base.{
  ℕ, ◌≤◌, ◌≡◌, refl, ◌⊎◌, inl, inr, ◌∙◌, Bool, true, false, Bool-cases, arith,
}
use cloudflare_r2_bench.Base.Rows.{Updates, Grows, Grows-trans, Updates-Grows}
use cloudflare_r2_bench.Types.{
  Status, queued, running, stopping, completed, stopped, failed, status_in, status_eq,
  terminal_statuses,
}
use cloudflare_r2_bench.Db.{Db, Job, Spawn, Metric}

-- How far a job has come.
abbrev pub rank : Status → ℕ
rank queued = 0
rank running = 1
rank stopping = 2
rank completed = 3
rank stopped = 3
rank failed = 3

abbrev pub is_terminal : Status → Bool
is_terminal s = status_in s terminal_statuses

-- A job keeps what was asked for, but for the end of its window, which a stop moves; its status only moves on, and a finished job does not change.
pub record JobStep (j k : Job) : Type 0 where
  pub same_id : k.job_id ≡ j.job_id
  pub same_rps : k.rps ≡ j.rps
  pub same_agents : k.agents ≡ j.agents
  pub same_workers : k.workers_per_agent ≡ j.workers_per_agent
  pub same_start : k.start_at ≡ j.start_at
  pub same_duration : k.duration ≡ j.duration
  pub same_concurrency : k.concurrency ≡ j.concurrency
  pub same_flag : k.unthrottled ≡ j.unthrottled
  pub same_created : k.created_at ≡ j.created_at
  pub forward : rank j.status ≤ rank k.status
  pub frozen : (is_terminal j.status ≡ false) ⊎ (k ≡ j)

-- A spawn keeps its identity, its job and its slot, and one that has ended never runs again.
pub record SpawnStep (s t : Spawn) : Type 0 where
  pub same_id : t.spawn_id ≡ s.spawn_id
  pub same_job : t.job_id ≡ s.job_id
  pub same_agent : t.agent_id ≡ s.agent_id
  pub same_region : t.region ≡ s.region
  pub same_slot : t.slot ≡ s.slot
  pub same_created : t.created_at ≡ s.created_at
  pub ended : (status_eq s.status running ≡ true) ⊎ (status_eq t.status running ≡ false)

pub JobStep-refl : (j : Job) → JobStep j j
JobStep-refl j = record {
  same_id = refl;
  same_rps = refl;
  same_agents = refl;
  same_workers = refl;
  same_start = refl;
  same_duration = refl;
  same_concurrency = refl;
  same_flag = refl;
  same_created = refl;
  forward = omega arith;
  frozen = inr refl;
}

pub SpawnStep-refl : (s : Spawn) → SpawnStep s s
SpawnStep-refl s = record {
  same_id = refl;
  same_job = refl;
  same_agent = refl;
  same_region = refl;
  same_slot = refl;
  same_created = refl;
  ended = Bool-cases (status_eq s.status running);
}

terminal_of_rank : (s t : Status) → rank s ≤ rank t → is_terminal s ≡ true → is_terminal t ≡ true
terminal_of_rank s t h e = ground arith

frozen_trans :
    (i j k : Job)
    → (is_terminal i.status ≡ false) ⊎ (j ≡ i)
    → (is_terminal j.status ≡ false) ⊎ (k ≡ j)
    → rank i.status ≤ rank j.status
    → (is_terminal i.status ≡ false) ⊎ (k ≡ i)
frozen_trans i j k (inl e) q h = inl e
frozen_trans i j k (inr p) (inl e) h = inl (rw p at e)
frozen_trans i j k (inr p) (inr q) h = inr (q ∙ p)

pub JobStep-trans : (i j k : Job) → JobStep i j → JobStep j k → JobStep i k
JobStep-trans i j k p q = record {
  same_id = q.same_id ∙ p.same_id;
  same_rps = q.same_rps ∙ p.same_rps;
  same_agents = q.same_agents ∙ p.same_agents;
  same_workers = q.same_workers ∙ p.same_workers;
  same_start = q.same_start ∙ p.same_start;
  same_duration = q.same_duration ∙ p.same_duration;
  same_concurrency = q.same_concurrency ∙ p.same_concurrency;
  same_flag = q.same_flag ∙ p.same_flag;
  same_created = q.same_created ∙ p.same_created;
  forward = omega (arith, p.forward, q.forward);
  frozen = frozen_trans i j k p.frozen q.frozen p.forward;
}

ended_trans :
    (a b c : Bool) → (a ≡ true) ⊎ (b ≡ false) → (b ≡ true) ⊎ (c ≡ false) → (a ≡ true) ⊎ (c ≡ false)
ended_trans a b c p q = ground arith

pub SpawnStep-trans : (r s t : Spawn) → SpawnStep r s → SpawnStep s t → SpawnStep r t
SpawnStep-trans r s t p q = record {
  same_id = q.same_id ∙ p.same_id;
  same_job = q.same_job ∙ p.same_job;
  same_agent = q.same_agent ∙ p.same_agent;
  same_region = q.same_region ∙ p.same_region;
  same_slot = q.same_slot ∙ p.same_slot;
  same_created = q.same_created ∙ p.same_created;
  ended = ended_trans _ _ (status_eq t.status running) p.ended q.ended;
}

abbrev SameMetric : Metric → Metric → Type 0
SameMetric m n = n ≡ m

-- No row is ever deleted, and the rows that were there stand where they stood.
pub record Evolves (before after : Db) : Type 0 where
  pub jobs : Grows JobStep before.jobs after.jobs
  pub spawns : Grows SpawnStep before.spawns after.spawns
  pub metrics : Grows (λ (m n : Metric). n ≡ m) before.metrics after.metrics

pub Evolves-trans : (a b c : Db) → Evolves a b → Evolves b c → Evolves a c
Evolves-trans a b c p q = record {
  jobs = Grows-trans JobStep JobStep-trans a.jobs b.jobs c.jobs p.jobs q.jobs;
  spawns = Grows-trans SpawnStep SpawnStep-trans a.spawns b.spawns c.spawns p.spawns q.spawns;
  metrics =
      Grows-trans (λ (m n : Metric). n ≡ m) (λ x y z e f. f ∙ e) a.metrics b.metrics c.metrics
        p.metrics q.metrics;
}

-- A statement that rewrites rows in place, and adds rows to the metrics at most.
pub record Rewrites (before after : Db) : Type 0 where
  pub jobs : Updates JobStep before.jobs after.jobs
  pub spawns : Updates SpawnStep before.spawns after.spawns
  pub metrics : Grows (λ (m n : Metric). n ≡ m) before.metrics after.metrics

pub Rewrites-Evolves : (a b : Db) → Rewrites a b → Evolves a b
Rewrites-Evolves a b r = record {
  jobs = Updates-Grows JobStep a.jobs b.jobs r.jobs;
  spawns = Updates-Grows SpawnStep a.spawns b.spawns r.spawns;
  metrics = r.metrics;
}
