-- ===== src/Fleet/Staffing.antt =====
-- A whole fleet: polls one after another, each alone, against the roster that they join.
use cloudflare_r2_bench.Base.{
  ℕ, suc, ◌+◌, ◌≡◌, ◌≤◌, ◌<◌, refl, sym, ap, ◌∙◌, false, Option, none, some, List, [], ◌∷◌, ◌++◌,
  Text, text_eq, length, length-append, any_row, All, map, Bool-cases, inl, inr, arith,
}
use mathlib.Core.Option
use mathlib.Core.Path.{ap₂}
use mathlib.Core.List.{append-nil, append_assoc}
use native.Mathlib.Nat.{add-zero}
use cloudflare_r2_bench.Env.{Env}
use cloudflare_r2_bench.Types.{AgentPollRequest, AgentPollResponse, idle}
use cloudflare_r2_bench.Types
use cloudflare_r2_bench.Db.{Db, Job, Clock}
use cloudflare_r2_bench.Db.Prog.{run}
use cloudflare_r2_bench.Agents.{agent_poll, rps_for_slot}
use cloudflare_r2_bench.Agents.Shares.{shares_below, shares_below_total}
use cloudflare_r2_bench.Agents.Polled.{work}
use cloudflare_r2_bench.Agents.Outcomes.{spawn_of}
use cloudflare_r2_bench.Fleet.{seat_from, join, roster_of}
use cloudflare_r2_bench.Fleet.Hosting.{orders, Hosts, IsTimely, join_next}
use cloudflare_r2_bench.Fleet.Refinement.{poll_refines}

abbrev pub Poll : Type 0
Poll = Clock × AgentPollRequest

-- The polls, each alone: what the agents learn, and the database after them.
unfoldable pub polls : Env → List Poll → Db → List (Option AgentPollResponse) × Db
polls env [] db = ([], db)
polls env ((clock, body) ∷ ps) db =
    let (outcome, db') = run (agent_poll env clock body) db in
    let (rest, after) = polls env ps db' in (orders outcome ∷ rest, after)

-- The same on the roster alone.
unfoldable pub joins : Job → List Poll → List Text → List (Option AgentPollResponse) × List Text
joins j [] roster = ([], roster)
joins j ((_, body) ∷ ps) roster =
    let (roster', seat) = join j.agents (spawn_of body j) roster in
    let (rest, after) = joins j ps roster' in
    (Option.map (work j (spawn_of body j)) seat ∷ rest, after)

abbrev pub AllTimely : Env → Job → List Poll → Type 0
AllTimely env j ps = All (λ (p : Poll). IsTimely env j p.0 p.1) ps

-- In a consistent database where agents are sent to a job, all of whose spawns run, while no spawn
-- of another job has an id that begins with this job's and a dash: any number of polls, one after
-- another, each with a good token, a name and a time within the window, cannot tell the database
-- from the roster of the job. The answers, seat by seat, and the roster that is left are those of
-- joining the roster in turn.
pub polls_refine :
    (env : Env) (j : Job) (ps : List Poll) (db : Db)
    → Hosts j db
    → AllTimely env j ps
    → ((polls env ps db).0 ≡ (joins j ps (roster_of j.job_id db)).0)
      × (roster_of j.job_id (polls env ps db).1 ≡ (joins j ps (roster_of j.job_id db)).1)
      × Hosts j (polls env ps db).1
unfolding polls joins
polls_refine env j [] db host timely = (refl, refl, host)
polls_refine env j ((clock, body) ∷ ps) db host timely =
    let (answer, left, next) = poll_refines env clock body j db host timely.0 in
    let (answers, left', next') =
      polls_refine env j ps (run (agent_poll env clock body) db).1 next timely.1 in
    (
      ap₂ ◌∷◌ answer (answers ∙ ap (λ (r : List Text). (joins j ps r).0) left),
      left' ∙ ap (λ (r : List Text). (joins j ps r).1) left,
      next',
    )

abbrev pub names : Job → List Poll → List Text
names j ps = map (λ (p : Poll). spawn_of p.1 j) ps

-- No two polls come from one agent.
abbrev pub Apart : List Text → Type 0
Apart [] = Unit
Apart (n ∷ ns) = (any_row (text_eq n) ns ≡ false) × Apart ns

-- The rate of an answer.
abbrev pub rate : Option AgentPollResponse → ℕ
rate none = 0
rate (some (idle _)) = 0
rate (some (Types.run a)) = a.target_rps

abbrev pub total_rate : List (Option AgentPollResponse) → ℕ
total_rate [] = 0
total_rate (a ∷ as_) = rate a + total_rate as_

seat_from-append :
    (n : ℕ) (id x : Text) (xs : List Text)
    → seat_from n id xs ≡ none
    → text_eq x id ≡ false
    → seat_from n id (xs ++ x ∷ []) ≡ none
unfolding seat_from
seat_from-append n id x [] h miss = rw miss refl
seat_from-append n id x (y ∷ xs) h miss = elim (Bool-cases (text_eq y id)) [
  | inl hit ↦ absurd (some_none (rw hit at h))
  | inr other ↦ rw other (seat_from-append (suc n) id x xs (rw other at h) miss)
]
  where
    some_none : {m : ℕ} → some m ≡ none → ⊥
    some_none e = cc

abbrev IsNew : List Text → Text → Type 0
IsNew roster n = seat_from 0 n roster ≡ none

IsNew-append :
    (n : Text) (roster ns : List Text)
    → any_row (text_eq n) ns ≡ false
    → All (IsNew roster) ns
    → All (IsNew (roster ++ n ∷ [])) ns
IsNew-append n roster [] apart fresh = tt
IsNew-append n roster (m ∷ ns) apart fresh = (
  seat_from-append 0 m n roster fresh.0 (ground arith),
  IsNew-append n roster ns (ground arith) fresh.1,
)

shares_below-suc :
    (target agents n : ℕ)
    → shares_below target agents (suc n)
      ≡ shares_below target agents n + rps_for_slot target agents n
unfolding shares_below
shares_below-suc target agents n = refl

All-IsNew : (ns : List Text) → All (IsNew []) ns
unfolding seat_from
All-IsNew [] = tt
All-IsNew (n ∷ ns) = (refl, All-IsNew ns)

-- Newcomers with room for all get the seats from the next one on.
joins_total :
    (j : Job) (ps : List Poll) (roster : List Text)
    → length roster + length ps ≤ j.agents
    → All (IsNew roster) (names j ps)
    → Apart (names j ps)
    → shares_below j.rps j.agents (length roster) + total_rate (joins j ps roster).0
      ≡ shares_below j.rps j.agents (length roster + length ps)
unfolding joins
joins_total j [] roster room fresh apart =
    rw (add-zero (shares_below j.rps j.agents (length roster)), add-zero (length roster)) refl
joins_total j ((clock, body) ∷ ps) roster room fresh apart =
    let name = spawn_of body j in
    let joined = join_next j.agents name roster fresh.0 (omega arith) in
    let rest =
      joins_total j ps (roster ++ name ∷ []) (omega (arith, length-append {0} roster (name ∷ [])))
        (IsNew-append name roster (names j ps) apart.0 fresh.1) apart.1 in
    let longer : length (roster ++ name ∷ []) ≡ suc (length roster) =
      omega (arith, length-append {0} roster (name ∷ [])) in
    let moved : suc (length roster) + length ps ≡ length roster + suc (length ps) = omega arith in
    let rest' = (rw (longer, moved) at rest) in
    rw joined (omega (arith, rest', shares_below-suc j.rps j.agents (length roster)))

joins_roster :
    (j : Job) (ps : List Poll) (roster : List Text)
    → length roster + length ps ≤ j.agents
    → All (IsNew roster) (names j ps)
    → Apart (names j ps)
    → (joins j ps roster).1 ≡ roster ++ names j ps
unfolding joins
joins_roster j [] roster room fresh apart = sym (append-nil roster)
joins_roster j ((clock, body) ∷ ps) roster room fresh apart =
    let name = spawn_of body j in
    let joined = join_next j.agents name roster fresh.0 (omega arith) in
    let rest =
      joins_roster j ps (roster ++ name ∷ []) (omega (arith, length-append {0} roster (name ∷ [])))
        (IsNew-append name roster (names j ps) apart.0 fresh.1) apart.1 in
    rw joined (rest ∙ append_assoc roster (name ∷ []) (names j ps))

shares_below-zero : (target agents : ℕ) → shares_below target agents 0 ≡ 0
unfolding shares_below
shares_below-zero target agents = refl

-- A job that is hosted with an empty roster is staffed by as many agents as it wants, each of which
-- polls once: their rates add up to the rate that was asked for, exactly, and the roster is full.
pub fleet_total :
    (env : Env) (j : Job) (ps : List Poll) (db : Db)
    → Hosts j db
    → AllTimely env j ps
    → roster_of j.job_id db ≡ []
    → Apart (names j ps)
    → length ps ≡ j.agents
    → 0 < j.agents
    → (total_rate (polls env ps db).0 ≡ j.rps)
      × (roster_of j.job_id (polls env ps db).1 ≡ names j ps)
fleet_total env j ps db host timely empty apart enough some_agents =
    let (answers, left, _) = polls_refine env j ps db host timely in
    let total = joins_total j ps [] (omega arith) (All-IsNew (names j ps)) apart in
    let count : 0 + length ps ≡ j.agents = omega arith in
    let sum = (rw count at total) in
    (
      ap total_rate answers
          ∙ ap (λ (r : List Text). total_rate (joins j ps r).0) empty
          ∙ omega (
            arith,
            sum,
            shares_below-zero j.rps j.agents,
            shares_below_total j.rps j.agents some_agents,
          ),
      left
          ∙ ap (λ (r : List Text). (joins j ps r).1) empty
          ∙ joins_roster j ps [] (omega arith) (All-IsNew (names j ps)) apart,
    )
