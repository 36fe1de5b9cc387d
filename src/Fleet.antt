-- ===== src/Fleet.antt =====
-- The abstract view of the agents of one job: a roster with a bounded number of seats, in the order
-- in which the agents joined. `agent_poll` (src/agents.ts) implements it by rows of JOB_SPAWNS.
pub mod Rows
pub mod Hosting
pub mod Refinement
pub mod Staffing
pub mod Launch
use cloudflare_r2_bench.Base.{
  ℕ, suc, Bool, true, false, ◌&&◌, Option, none, some, List, [], ◌∷◌, ◌++◌, Text, text_eq, length,
  ltb, ◌==◌, if◌then◌else◌, map, where_rows, codes, ◌≡◌, ◌⊎◌,
}
use cloudflare_r2_bench.Types.{running}
use cloudflare_r2_bench.Db.{Db, Job, Spawn}
use cloudflare_r2_bench.Consistency.{in_job}

-- The seat of a name, counted from a number.
unfoldable pub seat_from : ℕ → Text → List Text → Option ℕ
seat_from n id [] = none
seat_from n id (x ∷ xs) = if text_eq x id then some n else seat_from (suc n) id xs

-- A name keeps its seat, or takes the next one if any is left.
unfoldable pub join : ℕ → Text → List Text → List Text × Option ℕ
join seats id roster = elim (seat_from 0 id roster) [
  | some n ↦ (roster, some n)
  | none ↦
      if ltb (length roster) seats
      then (roster ++ id ∷ [], some (length roster))
      else (roster, none)
]

-- The roster that a table of spawns stands for.
unfoldable pub roster_in : Text → List Spawn → List Text
roster_in job_id spawns = map (λ (s : Spawn). s.spawn_id) (where_rows (in_job job_id) spawns)

abbrev pub roster_of : Text → Db → List Text
roster_of job_id db = roster_in job_id db.spawns

unfoldable pub starts_with : Text → Text → Bool
starts_with [] s = true
starts_with (c ∷ p) [] = false
starts_with (c ∷ p) (d ∷ s) = (c == d) && starts_with p s

-- A spawn of the job runs, and one of another job is not named like the job's.
abbrev pub IsTidy : Text → Spawn → Type 0
IsTidy job_id s =
    ((text_eq s.job_id job_id ≡ true) × (s.status ≡ running))
    ⊎ ((text_eq s.job_id job_id ≡ false) × (starts_with (job_id ++ codes "-") s.spawn_id ≡ false))
