-- ===== src/Schedule/Safety.antt =====
-- What holds of the database after any interleaving of any requests and cron ticks.
use cloudflare_r2_bench.Base.{
  ℕ, ◌+◌, ◌≤◌, ◌<◌, ◌≡◌, inl, inr, ap, sym, ◌∙◌, true, List, [], ◌∷◌, some, Text, text_eq,
  text_eq_sound, count_rows, first_row, if◌then◌else◌, All, arith, Bool-cases,
}
use native.Mathlib.Nat.{add-zero, add-suc, zero-add}
use cloudflare_r2_bench.Base.Rows.{first_row-Grows}
use cloudflare_r2_bench.Env.{Env}
use cloudflare_r2_bench.Db.{Db, Job, Spawn}
use cloudflare_r2_bench.History.{Evolves, JobStep, is_terminal}
use cloudflare_r2_bench.Consistency.{IsConsistent, Numbered, has_id, in_job}
use cloudflare_r2_bench.Consistency.Slots.{
  AllApart, SlotBelow, IsConsistent-AllApart, IsConsistent-SlotBelow, room_of,
}
use cloudflare_r2_bench.Agents.{rps_for_slot, occupancy}
use cloudflare_r2_bench.Agents.Shares.{shares_below, shares_below_total}
use cloudflare_r2_bench.Schedule.{Call, threads, interleave}
use cloudflare_r2_bench.Schedule.Keeps.{AllKeep, interleave-Sound}
use cloudflare_r2_bench.Schedule.Routes.{serve-Keeps}

-- The database after the calls have run as the schedule says.
abbrev pub db_after : Env → List Call → List ℕ → Db → Db
db_after env calls schedule db =
    (interleave schedule (record { threads = threads env calls; db = db })).db

threads-AllKeep : (env : Env) (calls : List Call) (db : Db) → AllKeep (threads env calls) db
threads-AllKeep env [] db = tt
threads-AllKeep env (c ∷ calls) db = (serve-Keeps env c db, threads-AllKeep env calls db)

-- From a consistent database, any interleaving of the statements of any requests and cron ticks
-- ends in a consistent one, and has only moved the rows forward: none is deleted or renumbered, a
-- job keeps what was asked for, but for the end of its window, and never goes back in status, a
-- finished job does not change, and a spawn that has ended never runs again.
pub db_after-safe :
    (env : Env) (calls : List Call) (schedule : List ℕ) (db : Db)
    → IsConsistent db
    → IsConsistent (db_after env calls schedule db) × Evolves db (db_after env calls schedule db)
db_after-safe env calls schedule db c =
    let (later, moved, rest) =
      interleave-Sound schedule (record { threads = threads env calls; db = db }) c
        (threads-AllKeep env calls db) in
    (later, moved)

frozen_row : (j k : Job) → is_terminal j.status ≡ true → JobStep j k → k ≡ j
frozen_row j k t st = elim st.frozen [ inl f ↦ cc (t, f) | inr e ↦ e ]

-- A job of a consistent database that is COMPLETED, STOPPED or FAILED is found unchanged, in every
-- column, after any interleaving of requests and cron ticks.
pub terminal_frozen :
    (env : Env) (calls : List Call) (schedule : List ℕ) (db : Db) (id : Text) (j : Job)
    → IsConsistent db
    → first_row (has_id id) db.jobs ≡ some j
    → is_terminal j.status ≡ true
    → first_row (has_id id) (db_after env calls schedule db).jobs ≡ some j
terminal_frozen env calls schedule db id j c found t =
    let (later, moved) = db_after-safe env calls schedule db c in
    let (k, again, st) =
      first_row-Grows JobStep (has_id id) (λ x y p. ap (λ (s : Text). text_eq s id) (sym p.same_id))
        db.jobs (db_after env calls schedule db).jobs j moved.jobs found in
    again ∙ ap some (frozen_row j k t st)

-- The rates of the spawns of a job, added up.
pub rates_of : ℕ → ℕ → Text → List Spawn → ℕ
rates_of target agents id [] = 0
rates_of target agents id (s ∷ ss) =
    if text_eq s.job_id id
    then rps_for_slot target agents s.slot + rates_of target agents id ss
    else rates_of target agents id ss

rates_of-Numbered :
    (target agents : ℕ) (id : Text) (before ss : List Spawn)
    → Numbered before ss
    → shares_below target agents (count_rows (in_job id) before) + rates_of target agents id ss
      ≡ shares_below target agents (count_rows (in_job id) before + count_rows (in_job id) ss)
unfolding rates_of shares_below
rates_of-Numbered target agents id before [] n = simp (add-zero)
rates_of-Numbered target agents id before (s ∷ ss) n = elim (Bool-cases (text_eq s.job_id id)) [
  | inr miss ↦ ground (arith, rates_of-Numbered target agents id (s ∷ before) ss n.1)
  | inl hit ↦
      let same : s.job_id ≡ id = text_eq_sound s.job_id id hit in
      let seat : s.slot ≡ count_rows (in_job id) before = rw (← same) n.0 in
      let rate = ap (rps_for_slot target agents) seat in
      let at =
        ap (shares_below target agents)
          (add-suc (count_rows (in_job id) before) (count_rows (in_job id) ss)) in
      ground (arith, rates_of-Numbered target agents id (s ∷ before) ss n.1, rate, at)
]

staffed_total :
    (target agents : ℕ) (id : Text) (ss : List Spawn)
    → Numbered [] ss
    → count_rows (in_job id) ss ≡ agents
    → 0 < agents
    → rates_of target agents id ss ≡ target
unfolding shares_below
staffed_total target agents id ss n full h =
    let counted = rates_of-Numbered target agents id [] ss n in
    let all = ap (shares_below target agents) full in
    omega (
      arith,
      counted,
      all,
      shares_below_total target agents h,
      ap (shares_below target agents) (zero-add (count_rows (in_job id) ss)),
    )

-- After any interleaving of requests and cron ticks from a consistent database, the rates of the
-- slots of a job that has as many spawns as agents, at least one, add up to the rate that was asked
-- for.
pub staffed_rates_total :
    (env : Env) (calls : List Call) (schedule : List ℕ) (db : Db) (id : Text) (j : Job)
    → IsConsistent db
    → first_row (has_id id) (db_after env calls schedule db).jobs ≡ some j
    → occupancy id (db_after env calls schedule db) ≡ j.agents
    → 0 < j.agents
    → rates_of j.rps j.agents id (db_after env calls schedule db).spawns ≡ j.rps
unfolding occupancy
staffed_rates_total env calls schedule db id j c found full some_agents =
    let end = db_after env calls schedule db in
    let sound = (db_after-safe env calls schedule db c).0 in
    staffed_total j.rps j.agents id end.spawns sound.numbered full some_agents

-- After any interleaving of requests and cron ticks from a consistent database, no two spawns of a
-- job have the same slot, every slot of a job is below its agents, and a job has at most as many
-- spawns as agents.
pub slots_exclusive :
    (env : Env) (calls : List Call) (schedule : List ℕ) (db : Db) (id : Text) (j : Job)
    → IsConsistent db
    → first_row (has_id id) (db_after env calls schedule db).jobs ≡ some j
    → AllApart (db_after env calls schedule db).spawns
      × All (SlotBelow id j.agents) (db_after env calls schedule db).spawns
      × (occupancy id (db_after env calls schedule db) ≤ j.agents)
unfolding occupancy
slots_exclusive env calls schedule db id j c found =
    let end = db_after env calls schedule db in
    let sound = (db_after-safe env calls schedule db c).0 in
    (
      IsConsistent-AllApart end sound,
      IsConsistent-SlotBelow end id j sound found,
      room_of end.spawns end.jobs id j sound.room found,
    )
