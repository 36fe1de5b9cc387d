-- ===== src/Spawn/Reaper/Sweep.antt =====
-- A sweep that nothing interrupts, as one change of the database.
use cloudflare_r2_bench.Base.{
  ℕ, suc, ◌+◌, ◌≡◌, refl, ◌∙◌, List, [], ◌∷◌, Text, length, ltb, if◌then◌else◌, arith,
}
use native.Mathlib.Nat.{zero-add, add-zero}
use cloudflare_r2_bench.Types.{Status, completed, failed}
use cloudflare_r2_bench.Db.{Db, Clock}
use cloudflare_r2_bench.Db.Prog.{Outcome, run, returned, run->>=}
use cloudflare_r2_bench.Agents.{occupancy}
use cloudflare_r2_bench.Spawn.Reaper.{
  Reaped, fail_stale, count_stale, expired_jobs, finalise, finalise_jobs, fail_orphaned,
  count_orphaned, close_stopping, reap_jobs,
}

abbrev pub outcome_of : Text → Db → Status
outcome_of id db = if ltb 0 (occupancy id db) then completed else failed

unfoldable pub finalise_all : Clock → List Text → Db → Db
finalise_all clock [] db = db
finalise_all clock (id ∷ ids) db = finalise_all clock ids (finalise clock (outcome_of id db) id db)

run-finalise_jobs :
    (clock : Clock) (ids : List Text) (n : ℕ) (db : Db)
    → run (finalise_jobs clock ids n) db ≡ (returned (length ids + n), finalise_all clock ids db)
unfolding finalise_jobs finalise_all
run-finalise_jobs clock [] n db = rw zero-add refl
run-finalise_jobs clock (id ∷ ids) n db = run-finalise_jobs clock ids (suc n) _ ∙ sums
  where
    sums :
        ◌≡◌ {A = Outcome ℕ × Db}
          (returned (length ids + suc n), finalise_all clock (id ∷ ids) db)
          (returned (suc (length ids) + n), finalise_all clock (id ∷ ids) db)
    sums = let same : length ids + suc n ≡ suc (length ids) + n = omega arith in rw same refl

abbrev pub after_finalise : Clock → Db → Db
after_finalise clock db =
    finalise_all clock (expired_jobs clock (fail_stale clock db)) (fail_stale clock db)

abbrev pub swept : Clock → Db → Db
swept clock db = close_stopping clock (fail_orphaned clock (after_finalise clock db))

abbrev pub sweep_counts : Clock → Db → Reaped
sweep_counts clock db = record {
  finalised = length (expired_jobs clock (fail_stale clock db));
  stale_spawns = count_stale clock db;
  abandoned = count_orphaned clock (after_finalise clock db);
}

pub run-reap_jobs :
    (clock : Clock) (db : Db)
    → run (reap_jobs clock) db ≡ (returned (sweep_counts clock db), swept clock db)
unfolding reap_jobs
run-reap_jobs clock db =
    rw
      (
        run->>= (finalise_jobs clock (expired_jobs clock (fail_stale clock db)) 0),
        run-finalise_jobs clock (expired_jobs clock (fail_stale clock db)) 0 (fail_stale clock db),
        add-zero,
      )
      refl
