-- ===== src/Loader/Execute/Once.antt =====
-- cmd/agent/main.go `main` and `execute` with the Worker: an agent that has completed a job is not sent
-- to it again.
use cloudflare_r2_bench.Base.{
  ℕ, ◌≡◌, ◌≢◌, refl, sym, ap, ◌∙◌, subst, inl, inr, true, false, some, List, [], ◌∷◌, Text,
  Bool-cases,
}
use mathlib.Core.Bool.{false≢true}
use cloudflare_r2_bench.Env.{Env}
use cloudflare_r2_bench.Types.{
  Status, running, stopped, completed, status_eq, RunAssignment, AgentPollRequest,
}
use cloudflare_r2_bench.Types
use cloudflare_r2_bench.Db.{Db, Job, Spawn, Clock}
use cloudflare_r2_bench.Db.Prog.{run, returned, thrown, Error}
use cloudflare_r2_bench.History.{SpawnStep}
use cloudflare_r2_bench.Consistency.{IsConsistent}
use cloudflare_r2_bench.Auth.{verify_agent_token}
use cloudflare_r2_bench.Agents.{agent_poll, find_spawn, spawn_id_of}
use cloudflare_r2_bench.Agents.Seating.{Seated, Polled}
use cloudflare_r2_bench.Agents.Outcomes.{agent_of, spawn_of, run_refused}
use cloudflare_r2_bench.Orchestrator.Route.{Request, fetch}
use cloudflare_r2_bench.Schedule.{Call}
use cloudflare_r2_bench.Schedule.Keeps.{Allowed, run-Allowed}
use cloudflare_r2_bench.Schedule.Poll.{agent_poll-Keeps}
use cloudflare_r2_bench.Schedule.Routes.{fetch-Keeps}
use cloudflare_r2_bench.Schedule.Safety.{db_after, db_after-safe}
use cloudflare_r2_bench.Schedule.Returning.{find_spawn-Evolves, seat_of, seat_told, same_spawn}
use cloudflare_r2_bench.Loader.{ControlClient, success}
use cloudflare_r2_bench.Loader.Report.{Scaling}
use cloudflare_r2_bench.Loader.Execute.{poll_body, completion_request, Conduct, execute, after_poll}
use cloudflare_r2_bench.Loader.Execute.Rounds.{
  Round, exchanged, LastArrives, execute-EndsIn, exchanged_last,
}
use cloudflare_r2_bench.Loader.Execute.Completed.{completed_spawn}

-- A spawn that has ended gives its agent no seat.
no_seat :
    (clock : Clock) (body : AgentPollRequest) (job : Job) (agent_id id : Text) (db : Db)
    (o : Polled) (s : Spawn)
    → find_spawn id db ≡ some s
    → status_eq s.status running ≡ false
    → Seated clock body job agent_id id db o
    → ⊥
no_seat clock body job agent_id id db o s found over
      (t, db', _, _, going, _, _, inl (old, again, same, _)) =
    let alike : old ≡ s = cc (again, found) in
    let status : s.status ≡ running =
      ap (λ (x : Spawn). x.status) (sym alike) ∙ sym (ap (λ (x : Spawn). x.status) same) ∙ going in
    cc (rw status at over)
no_seat clock body job agent_id id db o s found over (t, db', _, _, _, _, _, inr (fresh, _, _, _)) =
    absurd (cc (fresh, found))

-- A poll that is told to run has the right token.
token_right :
    (env : Env) (clock : Clock) (body : AgentPollRequest) (db mid : Db) (answer : RunAssignment)
    → run (agent_poll env clock body) db ≡ (returned (Types.run answer), mid)
    → verify_agent_token env body.token ≡ true
token_right env clock body db mid answer went =
    elim (Bool-cases (verify_agent_token env body.token)) [
      | inl right ↦ right
      | inr wrong ↦
          let away = sym went ∙ run_refused env clock body db wrong in
          absurd (not_both (ap (λ (o : Polled). o.0) away))
    ]
  where
    not_both : {e : Error} → returned (Types.run answer) ≡ thrown e → ⊥
    not_both e = cc

spawn_id-full : (job_id agent_id : Text) → job_id ≢ [] → spawn_id_of job_id agent_id ≢ []
unfolding spawn_id_of
spawn_id-full [] agent_id full = absurd (full refl)
spawn_id-full (x ∷ xs) agent_id full = λ e. cc

still_ended :
    {s t : Spawn}
    → SpawnStep s t
    → status_eq s.status running ≡ false
    → status_eq t.status running ≡ false
still_ended st over = elim st.ended [
  | inl going ↦ absurd (false≢true (sym over ∙ going))
  | inr e ↦ e
]

-- Once a spawn has ended, its agent is not told to run it, after any interleaving.
spawn_over :
    (env : Env) (calls : List Call) (schedule : List ℕ) (later : Clock) (body : AgentPollRequest)
    (db after : Db) (answer : RunAssignment) (id : Text)
    → IsConsistent db
    → (t : Spawn) × (find_spawn id db ≡ some t) × (status_eq t.status running ≡ false)
    → run (agent_poll env later body) (db_after env calls schedule db)
      ≡ (returned (Types.run answer), after)
    → answer.spawn_id ≢ id
spawn_over env calls schedule later body db after answer id c (t, found, over) went same =
    let end = db_after env calls schedule db in
    let (c', e) = db_after-safe env calls schedule db c in
    let (u, found', st) = find_spawn-Evolves id db end t e found in
    let (k, opened, seat) = seat_of env later body end after answer c' went in
    let (_, _, told) = seat_told later body k end after answer seat in
    let here : spawn_of body k ≡ id = sym (ap (λ (x : RunAssignment). x.spawn_id) told) ∙ same in
    no_seat later body k (agent_of body) (spawn_of body k) end _ u
      (ap (λ (x : Text). find_spawn x end) here ∙ found') (still_ended st over) seat

-- Two answers to an agent with the same job have the same spawn.
same_job_spawn :
    (env : Env) (c : ControlClient) (clock later : Clock) (db mid end after : Db)
    (first second : RunAssignment)
    → IsConsistent db
    → run (agent_poll env clock (poll_body c)) db ≡ (returned (Types.run first), mid)
    → IsConsistent end
    → run (agent_poll env later (poll_body c)) end ≡ (returned (Types.run second), after)
    → second.job_id ≡ first.job_id
    → second.spawn_id ≡ first.spawn_id
same_job_spawn env c clock later db mid end after first second cons went cons' again same =
    let body = poll_body c in
    let (j, _, seat) = seat_of env clock body db mid first cons went in
    let (_, _, told) = seat_told clock body j db mid first seat in
    let (k, _, seat') = seat_of env later body end after second cons' again in
    let (_, _, told') = seat_told later body k end after second seat' in
    let one : k.job_id ≡ j.job_id = rw (told, told') at same in
    ap (λ (x : RunAssignment). x.spawn_id) told'
    ∙ sym (same_spawn body body j k refl one)
    ∙ sym (ap (λ (x : RunAssignment). x.spawn_id) told)

-- An agent that is told to run a job, of an id that is not empty, in a consistent database and carries
-- it out, on whatever path, is not told to run that job again, whenever it polls: if its report of
-- completion arrives, with whatever requests and cron ticks between its calls and after them, and
-- whatever of its other calls are lost.
pub runs_once :
    (env : Env) (c : ControlClient) (scaling : Scaling) (how : Conduct) (rounds : List Round)
    (calls : List Call) (schedule : List ℕ) (clock later : Clock) (db mid after : Db)
    (first second : RunAssignment)
    → first.job_id ≢ []
    → IsConsistent db
    → run (agent_poll env clock (poll_body c)) db ≡ (returned (Types.run first), mid)
    → LastArrives (after_poll c scaling (success (Types.run first)) how) rounds
    → run (agent_poll env later (poll_body c)) (
        db_after env calls schedule
          (exchanged env (after_poll c scaling (success (Types.run first)) how) rounds mid))
      ≡ (returned (Types.run second), after)
    → second.job_id ≢ first.job_id
unfolding after_poll
runs_once env c scaling how rounds calls schedule clock later db mid after first second named cons
      went reached again same =
    let body = poll_body c in
    let sid = first.spawn_id in
    let right = token_right env clock body db mid first went in
    let (c₁, e₁) =
      subst (λ (o : Polled). Allowed db o.1) went
        (run-Allowed (agent_poll env clock body) db (agent_poll-Keeps env clock body db) cons) in
    let (j, opened, seat) = seat_of env clock body db mid first cons went in
    let (s, found, told) = seat_told clock body j db mid first seat in
    let here : sid ≡ spawn_of body j = ap (λ (x : RunAssignment). x.spawn_id) told in
    let job : first.job_id ≡ j.job_id = ap (λ (x : RunAssignment). x.job_id) told in
    let known : sid ≢ [] = rw here (spawn_id-full j.job_id (agent_of body) (rw job at named)) in
    let q = completion_request c first.job_id sid [] in
    let (before, ends) = execute-EndsIn c scaling first how in
    let (clk, db₂, (c₂, e₂), left) =
      exchanged_last env before q rounds mid c₁
        (subst (λ (qs : List Request). LastArrives qs rounds) ends reached) in
    let (s₂, found₂, _) = find_spawn-Evolves sid mid db₂ s e₂ (rw here found) in
    let completed = completed_spawn env c clk first.job_id sid right named known db₂ s₂ found₂ in
    let db₃ = (run (fetch env clk q) db₂).1 in
    let (c₃, _) = run-Allowed (fetch env clk q) db₂ (fetch-Keeps env clk q db₂) c₂ in
    let end : exchanged env (execute c scaling first how) rounds mid ≡ db₃ =
      ap (λ (qs : List Request). exchanged env qs rounds mid) ends ∙ left in
    let other =
      spawn_over env calls schedule later body db₃ after second sid c₃ completed
        (rw end at again) in
    other (
      same_job_spawn env c clock later db mid _ after first second cons went
        (db_after-safe env calls schedule _ (rw end c₃)).0 again same)
