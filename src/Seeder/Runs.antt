-- ===== src/Seeder/Runs.antt =====
-- cmd/seeder/main.go: from the buckets that a run takes to the end of the process.
use cloudflare_r2_bench.Base.{
  ℕ, ◌≡◌, refl, inl, inr, Bool, true, false, Option, none, some, List, any_row, ltb, if◌then◌else◌,
  Bool-cases,
}
use cloudflare_r2_bench.Naming.{Naming}
use cloudflare_r2_bench.Seeder.{
  SeederOptions, Remote, SeedWorld, Seeding, Report, listing_failed, nothing_written, seed_plan,
  write_sentinels, plan_all, plan_repair, fresh, finish, run_plan, run_buckets,
}
use cloudflare_r2_bench.Seeder.Sentinels.{
  IsSound, Keeps, seed_plan-Advances, seed_plan-AllDone, AllDone,
}
use cloudflare_r2_bench.Seeder.Stamps.{Ready, write_sentinels-IsSound}
use cloudflare_r2_bench.Seeder.Complete.{
  leaves_none, IsHonest, IsFull-keeps, Ready-IsFull, Outcome, write_sentinels-Keeps, plan_all-Ready,
  plan_repair-Ready, PlanReady,
}

pub if-both :
    {A : Type 0} {x y : A} (P : A → Type 0) (c : Bool) → P x → P y → P (if c then x else y)
if-both P true p q = p
if-both P false p q = q

module _ (options : SeederOptions) (world : SeedWorld) where
  abbrev naming : Naming
  naming = options.naming

  Outcome-untouched :
      (bs : List ℕ) (remote : Remote) (report : Report)
      → IsSound naming remote
      → leaves_none report ≡ false
      → Outcome options world bs remote (report, remote)
  Outcome-untouched bs remote report sound idle = record {
    keeps = λ b k h. h;
    sound = sound;
    full = λ e. cc;
  }

  finish-Outcome :
      (bs : List ℕ) (remote : Remote) (s : Seeding)
      → Keeps remote s.remote
      → IsSound naming s.remote
      → Ready options world bs s
      → Outcome options world bs remote (finish options world bs s)
  unfolding finish
  finish-Outcome bs remote s keeps sound ready =
      let stamped = write_sentinels-IsSound options world bs s ready sound in
      let later = write_sentinels-Keeps options world bs s in
      let kept : Keeps remote (write_sentinels options world bs s).1 =
        λ b k h. later b k (keeps b k h) in
      elim (Bool-cases (write_sentinels options world bs s).0) [
        | inr bad ↦ rw bad (record { keeps = kept; sound = stamped; full = λ e. cc })
        | inl ok ↦ elim (Bool-cases (any_row (λ b. ltb 0 (s.failed b)) bs)) [
          | inl failed ↦ rw (ok, failed) (record { keeps = kept; sound = stamped; full = λ e. cc })
          | inr clean ↦
              rw (ok, clean)
                (record {
                  keeps = kept;
                  sound = stamped;
                  full = λ e.
                      IsFull-keeps options world s.remote (write_sentinels options world bs s).1
                        later bs (Ready-IsFull options world bs s ready clean);
                })
        ]
      ]

  run_plan-Outcome :
      (bs : List ℕ) (plan : List (ℕ × List ℕ)) (remote : Remote)
      → (Keeps remote (seed_plan options world plan (fresh options world remote)).remote
          → AllDone options world plan (seed_plan options world plan (fresh options world remote))
          → Ready options world bs (seed_plan options world plan (fresh options world remote)))
      → IsSound naming remote
      → Outcome options world bs remote (run_plan options world bs plan remote)
  unfolding run_plan
  run_plan-Outcome bs plan remote ready sound =
      let s = seed_plan options world plan (fresh options world remote) in
      let went = seed_plan-Advances options world plan (fresh options world remote) in
      let done = seed_plan-AllDone options world plan (fresh options world remote) in
      if-both (Outcome options world bs remote) options.dry_run
        (Outcome-untouched bs remote nothing_written sound refl)
        (finish-Outcome bs remote s went.keeps (went.sound sound) (ready went.keeps done))

  run_repair-Outcome :
      (bs : List ℕ) (remote : Remote) (planned : Option (List (ℕ × List ℕ)))
      → ((s : Seeding) → Keeps remote s.remote → PlanReady options world s bs planned)
      → IsSound naming remote
      → Outcome options world bs remote (elim planned [
        | none ↦ (listing_failed, remote)
        | some plan ↦ run_plan options world bs plan remote
      ])
  run_repair-Outcome bs remote none ready sound =
      Outcome-untouched bs remote listing_failed sound refl
  run_repair-Outcome bs remote (some plan) ready sound =
      run_plan-Outcome bs plan remote
        (ready (seed_plan options world plan (fresh options world remote))) sound

  pub run_buckets-Outcome :
      (bs : List ℕ) (remote : Remote)
      → IsHonest naming world remote
      → IsSound naming remote
      → Outcome options world bs remote (run_buckets options world bs remote)
  unfolding run_buckets
  run_buckets-Outcome bs remote honest sound =
      if-both (Outcome options world bs remote) options.repair
        (run_repair-Outcome bs remote (plan_repair options world bs)
          (λ s keeps. plan_repair-Ready options world remote s bs honest keeps) sound)
        (run_plan-Outcome bs (plan_all options world bs) remote
          (λ keeps.
            plan_all-Ready options world bs
              (seed_plan options world (plan_all options world bs) (fresh options world remote)))
          sound)
