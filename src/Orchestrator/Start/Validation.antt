-- ===== src/Orchestrator/Start/Validation.antt =====
-- What the checks of `start_job` establish about a job that passes them.
use cloudflare_r2_bench.Base.{
  ℕ, ◌+◌, ◌*◌, ◌≤◌, ◌≡◌, ◌⊎◌, inl, inr, refl, Bool, true, false, not, ◌&&◌, ◌||◌, Option, none,
  some, List, ◌∷◌, Text, ltb, arith, if◌then◌else◌,
}
use cloudflare_r2_bench.Js.Number.{
  Number, nan, infinity, neg_infinity, fraction, whole, is_finite, floor, floor_field, le_zero,
  to_count,
}
use cloudflare_r2_bench.Env.{Env}
use cloudflare_r2_bench.Types.{JobStartRequest}
use cloudflare_r2_bench.Db.{Job, Clock}
use cloudflare_r2_bench.Orchestrator.Start.{
  Plan, plan_of, named_values, first_invalid, other_errors, above_cap, validation_error,
  max_workers_per_agent, planned_job, max_agents_per_job, or_else, flag,
}

-- A number that `Math.floor` gave and that is a count of at least one.
abbrev Count : Number → Type 0
Count x = (n : ℕ) × (x ≡ whole n) × (1 ≤ n)

abbrev is_positive : Number → Bool
is_positive x = not (not (is_finite x) || le_zero x)

floor-Count : (x : Number) → is_positive (floor x) ≡ true → Count (floor x)
floor-Count nan h = cc
floor-Count infinity h = cc
floor-Count neg_infinity h = cc
floor-Count (fraction false n d) h = (_, refl, ground arith)
floor-Count (fraction true n d) h = cc

floor_field-Count : (o : Option Number) → is_positive (floor_field o) ≡ true → Count (floor_field o)
floor_field-Count none h = cc
floor_field-Count (some x) h = floor-Count x h

first_invalid-cons :
    (name : Text) (x : Number) (rest : List (Text × Number))
    → first_invalid ((name, x) ∷ rest) ≡ none
    → (is_positive x ≡ true) × (first_invalid rest ≡ none)
unfolding first_invalid
first_invalid-cons name x rest h = ground arith

or_else-none : (a b : Option Text) → or_else a b ≡ none → (a ≡ none) × (b ≡ none)
or_else-none none b h = (refl, h)
or_else-none (some t) b h = cc

-- Within the agents' MAX_WORKERS, where the deployment declares it.
abbrev pub WithinCap : Option ℕ → ℕ → Type 0
WithinCap none workers = Unit
WithinCap (some cap) workers = workers ≤ cap

above_cap-none : (cap : Option ℕ) (n : ℕ) → above_cap cap (whole n) ≡ none → WithinCap cap n
unfolding above_cap
above_cap-none none n h = tt
above_cap-none (some cap) n h = ground arith

-- A job that can run: at least one agent, worker, minute and request per second, no more agents than
-- the limit, a request per second for each agent unless unthrottled, workers within the cap, and a
-- window that begins no earlier than now and has the length that was asked for.
pub record IsRunnable (env : Env) (clock : Clock) (j : Job) : Type 0 where
  pub some_agents : 1 ≤ j.agents
  pub few_agents : j.agents ≤ max_agents_per_job
  pub some_rps : 1 ≤ j.rps
  pub shared_rps : (j.unthrottled ≡ 1) ⊎ (j.agents ≤ j.rps)
  pub some_workers : 1 ≤ j.workers_per_agent
  pub capped : WithinCap (max_workers_per_agent env) j.workers_per_agent
  pub some_minutes : 1 ≤ j.duration
  pub starts_later : clock.now ≤ j.start_at
  pub window : j.stop_at ≡ j.start_at + j.duration * 60000

-- The chain of the later checks, over counts and with the messages left open.
chain_passed :
    (delay_bad : Bool) (unthrottled : Bool) (rps agents : ℕ) (a b c : Text) (last : Option Text)
    → (if delay_bad
        then some a
        else if ltb (max_agents_per_job * 1) (agents * 1)
        then some b
        else if not unthrottled && ltb (rps * 1) (agents * 1)
        then some c
        else last)
      ≡ none
    → (agents ≤ max_agents_per_job) × ((flag unthrottled ≡ 1) ⊎ (agents ≤ rps)) × (last ≡ none)
chain_passed bad true rps agents a b c last h = (ground arith, inl refl, ground arith)
chain_passed bad false rps agents a b c last h = (ground arith, inr (ground arith), ground arith)

other_errors-none :
    (env : Env) (p : Plan) (rps agents workers : ℕ)
    → p.target_rps ≡ whole rps
    → p.agents ≡ whole agents
    → p.workers_per_agent ≡ whole workers
    → other_errors env p ≡ none
    → (agents ≤ max_agents_per_job)
      × ((flag p.unthrottled ≡ 1) ⊎ (agents ≤ rps))
      × WithinCap (max_workers_per_agent env) workers
unfolding other_errors
other_errors-none env p rps agents workers er ea ew h =
    let whole_numbers = rw (er, ea, ew, other_errors) at h in
    let passed = chain_passed _ p.unthrottled rps agents _ _ _ _ whole_numbers in
    (passed.0, passed.1, above_cap-none (max_workers_per_agent env) workers passed.2)

record Counts (p : Plan) : Type 0 where
  rps : Count p.target_rps
  agents : Count p.agents
  workers : Count p.workers_per_agent
  duration : Count p.duration

plan_of-Counts :
    (req : JobStartRequest)
    → first_invalid (named_values (plan_of req)) ≡ none
    → Counts (plan_of req)
unfolding plan_of
plan_of-Counts req h =
    let r = first_invalid-cons _ _ _ h in
    let a = first_invalid-cons _ _ _ r.1 in
    let w = first_invalid-cons _ _ _ a.1 in
    let d = first_invalid-cons _ _ _ w.1 in
    record {
      rps = floor_field-Count req.target_rps r.0;
      agents = floor_field-Count req.agents a.0;
      workers = floor-Count _ w.0;
      duration = floor_field-Count req.duration d.0;
    }

to_count-whole : (x : Number) (n : ℕ) → x ≡ whole n → to_count x ≡ n
to_count-whole x n e = rw e (omega arith)

-- A request that passes the checks gives a job that can run.
pub validated-IsRunnable :
    (env : Env) (clock : Clock) (req : JobStartRequest)
    → validation_error env (plan_of req) ≡ none
    → IsRunnable env clock (planned_job clock (plan_of req))
unfolding validation_error planned_job
validated-IsRunnable env clock req h =
    let p = plan_of req in
    let split = or_else-none (first_invalid (named_values p)) (other_errors env p) h in
    let counts = plan_of-Counts req split.0 in
    let (rps, er, some_rps) = counts.rps in
    let (agents, ea, some_agents) = counts.agents in
    let (workers, ew, some_workers) = counts.workers in
    let (duration, ed, some_minutes) = counts.duration in
    let (few, shared, capped) = other_errors-none env p rps agents workers er ea ew split.1 in
    let nr = to_count-whole p.target_rps rps er in
    let na = to_count-whole p.agents agents ea in
    let nw = to_count-whole p.workers_per_agent workers ew in
    let nd = to_count-whole p.duration duration ed in
    record {
      some_agents = rw na some_agents;
      few_agents = rw na few;
      some_rps = rw nr some_rps;
      shared_rps = rw (na, nr) shared;
      some_workers = rw nw some_workers;
      capped = rw nw capped;
      some_minutes = rw nd some_minutes;
      starts_later = omega arith;
      window = omega arith;
    }
