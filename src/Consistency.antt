-- ===== src/Consistency.antt =====
-- The database invariant that every statement of every handler keeps.
pub mod Seats
pub mod Rewriting
pub mod Inserting
pub mod Slots
use cloudflare_r2_bench.Base.{
  ℕ, ◌≤◌, ◌≡◌, Bool, true, false, List, [], ◌∷◌, Text, text_eq, count_rows, any_row, All,
}
use cloudflare_r2_bench.Db.{Db, Job, Spawn, empty_db}

abbrev pub has_id : Text → Job → Bool
has_id id j = text_eq j.job_id id

abbrev pub in_job : Text → Spawn → Bool
in_job id s = text_eq s.job_id id

-- Each row's slot is the number of rows of its job before it.
abbrev pub Numbered : List Spawn → List Spawn → Type 0
Numbered before [] = Unit
Numbered before (s ∷ ss) = (s.slot ≡ count_rows (in_job s.job_id) before) × Numbered (s ∷ before) ss

-- No two jobs have one id.
abbrev pub Distinct : List Job → Type 0
Distinct [] = Unit
Distinct (j ∷ js) = (any_row (has_id j.job_id) js ≡ false) × Distinct js

abbrev pub IsRegistered : List Job → Spawn → Type 0
IsRegistered jobs s = any_row (has_id s.job_id) jobs ≡ true

abbrev pub HasRoom : List Spawn → Job → Type 0
HasRoom spawns j = count_rows (in_job j.job_id) spawns ≤ j.agents

pub record IsConsistent (db : Db) : Type 0 where
  pub numbered : Numbered [] db.spawns
  pub distinct : Distinct db.jobs
  pub registered : All (IsRegistered db.jobs) db.spawns
  pub room : All (HasRoom db.spawns) db.jobs

empty_db-IsConsistent : IsConsistent empty_db
empty_db-IsConsistent = record { numbered = tt; distinct = tt; registered = tt; room = tt }
