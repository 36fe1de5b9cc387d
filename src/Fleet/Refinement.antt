-- ===== src/Fleet/Refinement.antt =====
-- `agent_poll` refines the roster: what a poll answers, and the table that it leaves, are those of
-- `join`.
use cloudflare_r2_bench.Base.{
  ◌≡◌, refl, sym, ap, subst, ◌∙◌, inl, inr, true, false, Option, none, some, List, [], ◌∷◌, ◌++◌,
  Text, text_eq, text_eq_refl, length, All, All-append, Bool-cases, arith,
}
use cloudflare_r2_bench.Env.{Env}
use cloudflare_r2_bench.Types.{AgentPollRequest, idle, running, status_eq, queued}
use cloudflare_r2_bench.Db.{Db, Job, Spawn, Clock}
use cloudflare_r2_bench.Db.Prog.{run, returned}
use cloudflare_r2_bench.Consistency.{IsConsistent}
use cloudflare_r2_bench.Agents.{open_job, find_spawn, occupancy, agent_poll, touched}
use cloudflare_r2_bench.Agents.Polled.{work, started, seen_again, with_claim}
use cloudflare_r2_bench.Agents.Seating.{HasNoPart, Seated}
use cloudflare_r2_bench.Agents.Outcomes.{agent_of, spawn_of, agent_poll_outcomes}
use cloudflare_r2_bench.Agents.Opening.{open_job-started}
use cloudflare_r2_bench.Schedule.Keeps.{run-Allowed}
use cloudflare_r2_bench.Schedule.Poll.{agent_poll-Keeps}
use cloudflare_r2_bench.Fleet.{seat_from, join, roster_of, IsTidy}
use cloudflare_r2_bench.Fleet.Rows.{
  length-roster_in, roster_in-append, roster_in-update_rows, IsTidy-update_rows,
  starts_with-spawn_id_of, seat_from_found, seat_from-none,
}
use cloudflare_r2_bench.Fleet.Hosting.{
  Hosts, IsTimely, FollowsRoster, JoinsRoster, same_terms, join_kept, join_full, join_next,
}

spawns-started : (clock : Clock) (k : Job) (db : Db) → (started clock k db).spawns ≡ db.spawns
spawns-started clock k db = elim (Bool-cases (status_eq k.status queued)) [
  | inl hit ↦ rw hit refl
  | inr miss ↦ rw miss refl
]

module _ (env : Env) (clock : Clock) (body : AgentPollRequest) (k : Job) (db : Db)
    (c : IsConsistent db) (opened : open_job db ≡ some k) (tidy : All (IsTidy k.job_id) db.spawns)
    (timely : IsTimely env k clock body) where
  abbrev name : Text
  name = spawn_of body k

  found_seat :
      (s : Spawn)
      → find_spawn name db ≡ some s
      → (seat_from 0 name (roster_of k.job_id db) ≡ some s.slot) × (s.status ≡ running)
  unfolding find_spawn
  found_seat s found =
      seat_from_found k.job_id name [] db.spawns s
        (starts_with-spawn_id_of k.job_id (agent_of body)) tidy c.numbered found

  no_seat : find_spawn name db ≡ none → seat_from 0 name (roster_of k.job_id db) ≡ none
  unfolding find_spawn
  no_seat none_found = seat_from-none k.job_id name 0 db.spawns none_found

  taken : length (roster_of k.job_id db) ≡ occupancy k.job_id db
  unfolding occupancy
  taken = length-roster_in k.job_id db.spawns

  idle_refines :
      (reason : Option Text)
      → run (agent_poll env clock body) db ≡ (returned (idle reason), db)
      → HasNoPart clock k name db
      → JoinsRoster env clock body k db
  idle_refines reason ran (inl late) = absurd (grind (arith, timely.early))
  idle_refines reason ran (inr (inl (s, found, over))) =
      let (_, runs) = found_seat s found in absurd (still (rw runs at over))
    where
      still : status_eq running running ≡ false → ⊥
      still e = cc
  idle_refines reason ran (inr (inr (fresh, full))) =
      rw
        (
          ran,
          join_full k.agents name (roster_of k.job_id db) (no_seat fresh) (omega (arith, taken)),
        )
        (refl, refl, record { consistent = c; opened = (k, opened, refl); tidy = tidy })

  after-IsConsistent : IsConsistent (run (agent_poll env clock body) db).1
  after-IsConsistent =
      (run-Allowed (agent_poll env clock body) db (agent_poll-Keeps env clock body db) c).0

  -- With work, the roster and the tidiness of the later table are what is left to show.
  seated_refines :
      (s : Spawn) (db' : Db) (roster : List Text)
      → run (agent_poll env clock body) db ≡ (returned (work k name s.slot), started clock k db')
      → open_job db' ≡ some k
      → join k.agents name (roster_of k.job_id db) ≡ (roster, some s.slot)
      → roster_of k.job_id db' ≡ roster
      → All (IsTidy k.job_id) db'.spawns
      → JoinsRoster env clock body k db
  seated_refines s db' roster ran still_open joined same tidy' =
      let kept = spawns-started clock k db' in
      let host : Hosts k (run (agent_poll env clock body) db).1 = record {
        consistent = after-IsConsistent;
        opened = rw ran (open_job-started clock db' k still_open);
        tidy = rw (ran, kept) tidy';
      } in
      (rw (ran, joined) refl, rw (ran, joined, kept) same, host)

  open_job-touched : open_job (seen_again clock.now name db) ≡ open_job db
  unfolding open_job
  open_job-touched = refl

  open_job-claimed : open_job (with_claim clock body k (agent_of body) name db) ≡ open_job db
  unfolding open_job
  open_job-claimed = refl

  roster-touched : roster_of k.job_id (seen_again clock.now name db) ≡ roster_of k.job_id db
  roster-touched =
      roster_in-update_rows k.job_id (λ s. text_eq s.spawn_id name) (touched clock.now) (λ s. refl)
        (λ s. refl) (λ s. refl) db.spawns

  IsTidy-touched : All (IsTidy k.job_id) (seen_again clock.now name db).spawns
  IsTidy-touched =
      IsTidy-update_rows k.job_id (λ s. text_eq s.spawn_id name) (touched clock.now) (λ s. refl)
        (λ s. refl) (λ s. refl) db.spawns tidy

  work_refines :
      Seated clock body k (agent_of body) name db (run (agent_poll env clock body) db)
      → JoinsRoster env clock body k db
  work_refines (s, db', ran, _, _, _, _, inl (old, found, same, left)) =
      let (seat, _) = found_seat old found in
      let slot : old.slot ≡ s.slot = rw same refl in
      seated_refines s db' (roster_of k.job_id db) ran (rw left (open_job-touched ∙ opened))
        (join_kept k.agents s.slot name (roster_of k.job_id db) (seat ∙ ap some slot))
        (rw left roster-touched) (rw left IsTidy-touched)
  work_refines (s, db', ran, _, _, _, _, inr (fresh, free, slot, left)) =
      seated_refines s db' (roster_of k.job_id db ++ name ∷ []) ran
        (rw left (open_job-claimed ∙ opened))
        (join_next k.agents name (roster_of k.job_id db) (no_seat fresh) (omega (arith, taken))
          ∙ rw (taken, slot) refl)
        (rw left (roster_in-append k.job_id db.spawns _ (text_eq_refl k.job_id)))
        (rw left
          (All-append (IsTidy k.job_id) db.spawns _ tidy (inl (text_eq_refl k.job_id, refl), tt)))

  poll_refines_open : JoinsRoster env clock body k db
  poll_refines_open = elim (agent_poll_outcomes env clock body db c) [
    | inl (wrong, _) ↦ absurd (clash (rw timely.right at wrong))
    | inr (inl (_, (reason, ran), why)) ↦ elim why [
      | inl unnamed ↦ absurd (clash (sym (rw timely.named at unnamed)))
      | inr (inl closed) ↦ absurd (none_open (rw opened at closed))
      | inr (inr (k', found, part)) ↦ idle_refines reason ran (
          subst (λ (x : Job). HasNoPart clock x (spawn_of body x) db)
            (same_job (sym found ∙ opened)) part)
    ]
    | inr (inr (_, (k', found, seat))) ↦ work_refines (
        subst
          (λ (x : Job).
            Seated clock body x (agent_of body) (spawn_of body x) db
              (run (agent_poll env clock body) db))
          (same_job (sym found ∙ opened)) seat)
  ]
    where
      clash : true ≡ false → ⊥
      clash e = cc

      none_open : {x : Job} → some x ≡ none → ⊥
      none_open e = cc

      same_job : {x y : Job} → some x ≡ some y → x ≡ y
      same_job e = cc

-- In a consistent and tidy database where agents are sent to a job, a timely poll joins the roster of
-- that job: it keeps the agent's seat, or takes the next one, or finds the roster full; the answer is
-- the work of that seat, or none; the table is left with the roster that follows; and the database
-- hosts the job as before, so that the next poll joins it likewise.
pub poll_refines :
    (env : Env) (clock : Clock) (body : AgentPollRequest) (j : Job) (db : Db)
    → Hosts j db
    → IsTimely env j clock body
    → JoinsRoster env clock body j db
poll_refines env clock body j db host timely =
    let (k, found, same) = host.opened in
    let tidy_k : All (IsTidy k.job_id) db.spawns = rw (ap (λ (t : Job). t.job_id) same) host.tidy in
    let timely_k : IsTimely env k clock body = record {
      right = timely.right;
      named = timely.named;
      early = rw (ap (λ (t : Job). t.stop_at) same) timely.early;
    } in
    let (ordered, left, next) =
      poll_refines_open env clock body k db host.consistent found tidy_k timely_k in
    let (ordered', left') =
      subst (λ (t : Job). FollowsRoster env clock body t db) same (ordered, left) in
    (ordered', left', same_terms k j _ same next)
