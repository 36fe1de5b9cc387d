-- ===== src/Loader/Execute/Rounds.antt =====
-- cmd/agent/main.go `execute` with the Worker: the calls of an agent in rounds, with other calls of
-- the Worker around each, of which all but the last may be lost.
use cloudflare_r2_bench.Base.{
  ℕ, ◌≡◌, refl, sym, inl, inr, Bool, true, false, List, [], ◌∷◌, ◌++◌, leb, ltb, if◌then◌else◌,
  Bool-cases,
}
use mathlib.Core.List.{append_assoc}
use cloudflare_r2_bench.Env.{Env}
use cloudflare_r2_bench.Types.{RunAssignment}
use cloudflare_r2_bench.Db.{Db, Clock}
use cloudflare_r2_bench.Db.Prog.{run}
use cloudflare_r2_bench.History.{Evolves-trans}
use cloudflare_r2_bench.Consistency.{IsConsistent}
use cloudflare_r2_bench.Orchestrator.Route.{Request, fetch}
use cloudflare_r2_bench.Schedule.{Call}
use cloudflare_r2_bench.Schedule.Keeps.{Allowed, run-Allowed}
use cloudflare_r2_bench.Schedule.Routes.{fetch-Keeps}
use cloudflare_r2_bench.Schedule.Safety.{db_after, db_after-safe}
use cloudflare_r2_bench.Loader.{ControlClient}
use cloudflare_r2_bench.Loader.Report.{Scaling}
use cloudflare_r2_bench.Loader.Execute.{completion_request, Conduct, load_requests, execute}

-- What happens around one call of the agent: other calls that run before it, and whether it arrives.
pub record Round : Type 0 where
  pub calls : List Call
  pub schedule : List ℕ
  pub clock : Clock
  pub arrives : Bool

-- The control plane after some calls of an agent, each in a round of its own.
unfoldable pub exchanged : Env → List Request → List Round → Db → Db
exchanged env [] rounds db = db
exchanged env (q ∷ qs) [] db = db
exchanged env (q ∷ qs) (r ∷ rounds) db =
    let mid = db_after env r.calls r.schedule db in
    exchanged env qs rounds (if r.arrives then (run (fetch env r.clock q) mid).1 else mid)

-- There is a round for each call, and the last call arrives.
abbrev pub LastArrives : List Request → List Round → Type 0
LastArrives [] rounds = Unit
LastArrives (q ∷ qs) [] = ⊥
LastArrives (q ∷ []) (r ∷ rounds) = r.arrives ≡ true
LastArrives (q ∷ q' ∷ qs) (r ∷ rounds) = LastArrives (q' ∷ qs) rounds

abbrev pub EndsIn : Request → List Request → Type 0
EndsIn q requests = (before : List Request) × (requests ≡ before ++ q ∷ [])

EndsIn-if :
    (q : Request) (b : Bool) (xs ys : List Request)
    → EndsIn q xs
    → EndsIn q ys
    → EndsIn q (if b then xs else ys)
EndsIn-if q true xs ys h k = h
EndsIn-if q false xs ys h k = k

-- On every path the last call of `execute` is the report of completion.
pub execute-EndsIn :
    (c : ControlClient) (scaling : Scaling) (resp : RunAssignment) (how : Conduct)
    → EndsIn (completion_request c resp.job_id resp.spawn_id []) (execute c scaling resp how)
unfolding execute
execute-EndsIn c scaling resp how =
    let q = completion_request c resp.job_id resp.spawn_id [] in
    let load = load_requests-EndsIn in
    EndsIn-if q (leb resp.stop_at_epoch_ms how.entered) _ _ ([], refl)
      (EndsIn-if q (ltb how.warmed resp.start_at_epoch_ms) _ _
        (EndsIn-if q how.cancelled _ _ ([], refl) load) load)
  where
    load_requests-EndsIn :
        EndsIn
          (completion_request c resp.job_id resp.spawn_id [])
          (load_requests c scaling resp how)
    load_requests-EndsIn = (_, sym (append_assoc _ (_ ∷ []) _))

module _ (env : Env) where
  round-Allowed :
      (r : Round) (q : Request) (db : Db)
      → IsConsistent db
      → Allowed db (
          if r.arrives
          then (run (fetch env r.clock q) (db_after env r.calls r.schedule db)).1
          else db_after env r.calls r.schedule db)
  round-Allowed r q db c =
      let mid = db_after env r.calls r.schedule db in
      let (c₁, e₁) = db_after-safe env r.calls r.schedule db c in
      let (c₂, e₂) = run-Allowed (fetch env r.clock q) mid (fetch-Keeps env r.clock q mid) c₁ in
      elim (Bool-cases r.arrives) [
        | inl took ↦ rw took (c₂, Evolves-trans db mid _ e₁ e₂)
        | inr lost ↦ rw lost (c₁, e₁)
      ]

  -- What the last call of some meets, and what it leaves.
  abbrev pub LastCall : List Request → Request → List Round → Db → Type 0
  LastCall before q rounds db =
      (clock : Clock) × (mid : Db) × Allowed db mid
      × (exchanged env (before ++ q ∷ []) rounds db ≡ (run (fetch env clock q) mid).1)

  abbrev after_round : Round → Request → Db → Db
  after_round r q db =
      if r.arrives
      then (run (fetch env r.clock q) (db_after env r.calls r.schedule db)).1
      else db_after env r.calls r.schedule db

  later_round :
      (b : Request) (before : List Request) (q : Request) (r : Round) (rounds : List Round)
      (db : Db)
      → IsConsistent db
      → LastCall before q rounds (after_round r b db)
      → LastCall (b ∷ before) q (r ∷ rounds) db
  unfolding exchanged
  later_round b before q r rounds db c (clock, mid, (c', e'), same) =
      (clock, mid, (c', Evolves-trans db _ mid (round-Allowed r b db c).1 e'), same)

  pub exchanged_last :
      (before : List Request) (q : Request) (rounds : List Round) (db : Db)
      → IsConsistent db
      → LastArrives (before ++ q ∷ []) rounds
      → LastCall before q rounds db
  unfolding exchanged
  exchanged_last [] q [] db c h = absurd h
  exchanged_last [] q (r ∷ rounds) db c h = (
    r.clock,
    db_after env r.calls r.schedule db,
    db_after-safe env r.calls r.schedule db c,
    rw h refl,
  )
  exchanged_last (b ∷ []) q [] db c h = absurd h
  exchanged_last (b ∷ []) q (r ∷ rounds) db c h =
      later_round b [] q r rounds db c (exchanged_last [] q rounds _ (round-Allowed r b db c).0 h)
  exchanged_last (b ∷ b' ∷ before) q [] db c h = absurd h
  exchanged_last (b ∷ b' ∷ before) q (r ∷ rounds) db c h =
      later_round b (b' ∷ before) q r rounds db c
        (exchanged_last (b' ∷ before) q rounds _ (round-Allowed r b db c).0 h)
