-- ===== src/Consistency/Inserting.antt =====
-- The two INSERTs keep the invariant: an agent's claim of a slot, and a new job.
use cloudflare_r2_bench.Base.{
  ℕ, ◌<◌, ◌≡◌, ◌⊎◌, inl, inr, refl, ap, Bool, true, false, ◌||◌, some, List, [], ◌∷◌, ◌++◌, Text,
  text_eq, text_eq_sound, text_eq_sym, count_rows, count_rows-append, any_row, first_row, All,
  All-append, arith, ltb, Bool-cases,
}
use cloudflare_r2_bench.Base.Rows.{Grows-append, Updates-refl, Updates-Grows}
use cloudflare_r2_bench.Db.{Db, Job, Spawn, Metric}
use cloudflare_r2_bench.Db.Prog.{or_same}
use cloudflare_r2_bench.History.{JobStep-refl, SpawnStep-refl, JobStep, SpawnStep, Evolves}
use cloudflare_r2_bench.Agents.{claim_slot, claimed_spawn, occupancy}
use cloudflare_r2_bench.Orchestrator.Start.{insert_job}
use cloudflare_r2_bench.Consistency.{has_id, in_job, Distinct, IsRegistered, HasRoom, IsConsistent}
use cloudflare_r2_bench.Consistency.Seats.{Numbered-append, slot_free, only_row}

pub any_row-append {ℓ} :
    {A : Type ℓ} (p : A → Bool) (xs ys : List A)
    → any_row p (xs ++ ys) ≡ (any_row p xs || any_row p ys)
any_row-append p [] ys = refl
any_row-append p (x ∷ xs) ys = ground (arith, any_row-append p xs ys)

pub Evolves-refl : (db : Db) → Evolves db db
Evolves-refl db = record {
  jobs = Updates-Grows JobStep db.jobs db.jobs (Updates-refl JobStep JobStep-refl db.jobs);
  spawns =
      Updates-Grows SpawnStep db.spawns db.spawns (Updates-refl SpawnStep SpawnStep-refl db.spawns);
  metrics =
      Updates-Grows (λ (m n : Metric). n ≡ m) db.metrics db.metrics
        (Updates-refl (λ (m n : Metric). n ≡ m) (λ m. refl) db.metrics);
}

-- The job whose slot is claimed.
room_mine :
    (spawns : List Spawn) (s : Spawn) (j k : Job)
    → text_eq s.job_id k.job_id ≡ true
    → count_rows (in_job s.job_id) spawns < j.agents
    → (has_id s.job_id k ≡ false) ⊎ (k ≡ j)
    → HasRoom (spawns ++ s ∷ []) k
room_mine spawns s j k mine free (inl other) = cc (mine, text_eq_sym s.job_id k.job_id, other)
room_mine spawns s j k mine free (inr e) =
    let same : s.job_id ≡ k.job_id = text_eq_sound s.job_id k.job_id mine in
    let counted = count_rows-append (in_job k.job_id) spawns (s ∷ []) in
    let before = ap (λ (id : Text). count_rows (in_job id) spawns) same in
    let agents = ap (λ (x : Job). x.agents) e in ground (arith, counted, before, agents)

-- A spawn of a job that has a free slot leaves every job within its agents.
HasRoom-claim :
    (spawns : List Spawn) (s : Spawn) (j : Job) (js : List Job)
    → count_rows (in_job s.job_id) spawns < j.agents
    → All (λ k. (has_id s.job_id k ≡ false) ⊎ (k ≡ j)) js
    → All (HasRoom spawns) js
    → All (HasRoom (spawns ++ s ∷ [])) js
HasRoom-claim spawns s j [] free only room = tt
HasRoom-claim spawns s j (k ∷ js) free only room = (
  elim (Bool-cases (text_eq s.job_id k.job_id)) [
    | inr other ↦ ground (arith, count_rows-append (in_job k.job_id) spawns (s ∷ []))
    | inl mine ↦ room_mine spawns s j k mine free only.0
  ],
  HasRoom-claim spawns s j js free only.1 room.1,
)

found-any_row :
    (js : List Job) (id : Text) (j : Job)
    → first_row (has_id id) js ≡ some j
    → any_row (has_id id) js ≡ true
found-any_row [] id j f = cc
found-any_row (x ∷ js) id j f = ground (arith, found-any_row js id j)

-- The database after a claim that goes through.
abbrev with_spawn : Db → Spawn → Db
with_spawn db s = record db { spawns = db.spawns ++ s ∷ [] }

with_spawn-IsConsistent :
    (db : Db) (s : Spawn) (j : Job)
    → IsConsistent db
    → first_row (has_id s.job_id) db.jobs ≡ some j
    → count_rows (in_job s.job_id) db.spawns < j.agents
    → s.slot ≡ count_rows (in_job s.job_id) db.spawns
    → IsConsistent (with_spawn db s)
with_spawn-IsConsistent db s j c found free seat = record {
  numbered = Numbered-append [] db.spawns s c.numbered (omega arith);
  distinct = c.distinct;
  registered =
      All-append (IsRegistered db.jobs) db.spawns (s ∷ []) c.registered
        (found-any_row db.jobs s.job_id j found, tt);
  room =
      HasRoom-claim db.spawns s j db.jobs free (only_row db.jobs s.job_id j c.distinct found)
        c.room;
}

with_spawn-Evolves : (db : Db) (s : Spawn) → Evolves db (with_spawn db s)
with_spawn-Evolves db s =
    let same = Evolves-refl db in
    record {
      jobs = same.jobs;
      spawns = Grows-append SpawnStep SpawnStep-refl db.spawns (s ∷ []);
      metrics = same.metrics;
    }

-- The claim for a job of the table never meets the unique index on (JOB_ID, SLOT): it always goes
-- through, and keeps the invariant.
pub claim_slot_total :
    (spawn_id job_id agent_id region : Text) (now stamp : ℕ) (db : Db) (j : Job)
    → IsConsistent db
    → first_row (has_id job_id) db.jobs ≡ some j
    → (db' : Db) × (claim_slot spawn_id job_id agent_id region now stamp j.agents db ≡ some db')
      × IsConsistent db'
      × Evolves db db'
unfolding claim_slot
claim_slot_total spawn_id job_id agent_id region now stamp db j c found =
    elim (Bool-cases (ltb (occupancy job_id db) j.agents)) [
      | inr full ↦ (db, rw full refl, c, Evolves-refl db)
      | inl free ↦ elim (Bool-cases (any_row (λ s. text_eq s.spawn_id spawn_id) db.spawns)) [
        | inl there ↦ (db, rw (free, there) refl, c, Evolves-refl db)
        | inr fresh ↦
            let s = claimed_spawn spawn_id job_id agent_id region now stamp (occupancy job_id db) in
            (
              with_spawn db s,
              rw
                  (
                    free,
                    fresh,
                    slot_free [] db.spawns job_id (occupancy job_id db) c.numbered (omega arith),
                  )
                  refl,
              with_spawn-IsConsistent db s j c found (ground arith) refl,
              with_spawn-Evolves db s,
            )
      ]
    ]

-- A job id that is not in the table has no spawns.
pub count_unknown :
    (js : List Job) (id : Text) (spawns : List Spawn)
    → any_row (has_id id) js ≡ false
    → All (IsRegistered js) spawns
    → count_rows (in_job id) spawns ≡ 0
count_unknown js id [] fresh r = refl
count_unknown js id (s ∷ spawns) fresh r = elim (Bool-cases (text_eq s.job_id id)) [
  | inl hit ↦
      let same : s.job_id ≡ id = text_eq_sound s.job_id id hit in
      let known : any_row (has_id id) js ≡ true = rw same at r.0 in cc (known, fresh)
  | inr miss ↦ ground (arith, count_unknown js id spawns fresh r.1)
]

Distinct-append :
    (js : List Job) (j : Job)
    → Distinct js
    → any_row (has_id j.job_id) js ≡ false
    → Distinct (js ++ j ∷ [])
Distinct-append [] j d fresh = (refl, tt)
Distinct-append (x ∷ js) j d fresh = (
  ground (arith, any_row-append (has_id x.job_id) js (j ∷ []), text_eq_sym x.job_id j.job_id),
  Distinct-append js j d.1 (ground arith),
)

Registered-append :
    (js : List Job) (j : Job) (spawns : List Spawn)
    → All (IsRegistered js) spawns
    → All (IsRegistered (js ++ j ∷ [])) spawns
Registered-append js j [] r = tt
Registered-append js j (s ∷ spawns) r = (
  ground (arith, any_row-append (has_id s.job_id) js (j ∷ [])),
  Registered-append js j spawns r.1,
)

abbrev with_job : Db → Job → Db
with_job db j = record db { jobs = db.jobs ++ j ∷ [] }

with_job-IsConsistent :
    (db : Db) (j : Job)
    → IsConsistent db
    → any_row (has_id j.job_id) db.jobs ≡ false
    → IsConsistent (with_job db j)
with_job-IsConsistent db j c fresh = record {
  numbered = c.numbered;
  distinct = Distinct-append db.jobs j c.distinct fresh;
  registered = Registered-append db.jobs j db.spawns c.registered;
  room =
      All-append (HasRoom db.spawns) db.jobs (j ∷ []) c.room
        (omega (arith, count_unknown db.jobs j.job_id db.spawns fresh c.registered), tt);
}

with_job-Evolves : (db : Db) (j : Job) → Evolves db (with_job db j)
with_job-Evolves db j =
    let same = Evolves-refl db in
    record {
      jobs = Grows-append JobStep JobStep-refl db.jobs (j ∷ []);
      spawns = same.spawns;
      metrics = same.metrics;
    }

pub insert_job-keeps :
    (j : Job) (db : Db)
    → IsConsistent db
    → IsConsistent (or_same db (insert_job j db)) × Evolves db (or_same db (insert_job j db))
unfolding insert_job
insert_job-keeps j db c = elim (Bool-cases (any_row (has_id j.job_id) db.jobs)) [
  | inl taken ↦ rw taken (c, Evolves-refl db)
  | inr fresh ↦ rw fresh (with_job-IsConsistent db j c fresh, with_job-Evolves db j)
]
