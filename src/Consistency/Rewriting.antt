-- ===== src/Consistency/Rewriting.antt =====
-- A statement that rewrites rows in place keeps the invariant.
use cloudflare_r2_bench.Base.{
  ◌≡◌, ap, sym, ◌∙◌, List, [], ◌∷◌, Text, text_eq, count_rows, any_row, All,
}
use cloudflare_r2_bench.Base.Rows.{Updates, count_rows-Updates, any_row-Updates}
use cloudflare_r2_bench.Db.{Db, Job, Spawn}
use cloudflare_r2_bench.History.{JobStep, SpawnStep, Rewrites}
use cloudflare_r2_bench.Consistency.{
  has_id, in_job, Numbered, Distinct, IsRegistered, HasRoom, IsConsistent,
}

in_job-SpawnStep : (id : Text) (s t : Spawn) → SpawnStep s t → in_job id s ≡ in_job id t
in_job-SpawnStep id s t p = ap (λ (x : Text). text_eq x id) (sym p.same_job)

has_id-JobStep : (id : Text) (j k : Job) → JobStep j k → has_id id j ≡ has_id id k
has_id-JobStep id j k p = ap (λ (x : Text). text_eq x id) (sym p.same_id)

count-Updates :
    (id : Text) (xs ys : List Spawn)
    → Updates SpawnStep xs ys
    → count_rows (in_job id) xs ≡ count_rows (in_job id) ys
count-Updates id = count_rows-Updates SpawnStep (in_job id) (in_job-SpawnStep id)

any-Updates :
    (id : Text) (xs ys : List Job)
    → Updates JobStep xs ys
    → any_row (has_id id) xs ≡ any_row (has_id id) ys
any-Updates id = any_row-Updates JobStep (has_id id) (has_id-JobStep id)

Numbered-Updates :
    (b c xs ys : List Spawn)
    → Updates SpawnStep b c
    → Updates SpawnStep xs ys
    → Numbered b xs
    → Numbered c ys
Numbered-Updates b c [] [] u v n = tt
Numbered-Updates b c [] (y ∷ ys) u v n = absurd v
Numbered-Updates b c (x ∷ xs) [] u v n = absurd v
Numbered-Updates b c (x ∷ xs) (y ∷ ys) u v n = (
  v.0.same_slot
      ∙ n.0
      ∙ count-Updates x.job_id b c u
      ∙ ap (λ (id : Text). count_rows (in_job id) c) (sym v.0.same_job),
  Numbered-Updates (x ∷ b) (y ∷ c) xs ys (v.0, u) v.1 n.1,
)

Distinct-Updates : (xs ys : List Job) → Updates JobStep xs ys → Distinct xs → Distinct ys
Distinct-Updates [] [] u d = tt
Distinct-Updates [] (y ∷ ys) u d = absurd u
Distinct-Updates (x ∷ xs) [] u d = absurd u
Distinct-Updates (x ∷ xs) (y ∷ ys) u d =
    (rw (u.0.same_id, ← any-Updates x.job_id xs ys u.1) d.0, Distinct-Updates xs ys u.1 d.1)

Registered-Updates :
    (js ks : List Job) (xs ys : List Spawn)
    → Updates JobStep js ks
    → Updates SpawnStep xs ys
    → All (IsRegistered js) xs
    → All (IsRegistered ks) ys
Registered-Updates js ks [] [] u v r = tt
Registered-Updates js ks [] (y ∷ ys) u v r = absurd v
Registered-Updates js ks (x ∷ xs) [] u v r = absurd v
Registered-Updates js ks (x ∷ xs) (y ∷ ys) u v r = (
  rw (v.0.same_job, ← any-Updates x.job_id js ks u) r.0,
  Registered-Updates js ks xs ys u v.1 r.1,
)

HasRoom-Updates :
    (xs ys : List Spawn) (js ks : List Job)
    → Updates SpawnStep xs ys
    → Updates JobStep js ks
    → All (HasRoom xs) js
    → All (HasRoom ys) ks
HasRoom-Updates xs ys [] [] u v r = tt
HasRoom-Updates xs ys [] (k ∷ ks) u v r = absurd v
HasRoom-Updates xs ys (j ∷ js) [] u v r = absurd v
HasRoom-Updates xs ys (j ∷ js) (k ∷ ks) u v r = (
  rw (v.0.same_id, v.0.same_agents, ← count-Updates j.job_id xs ys u) r.0,
  HasRoom-Updates xs ys js ks u v.1 r.1,
)

pub Rewrites-IsConsistent : (a b : Db) → Rewrites a b → IsConsistent a → IsConsistent b
Rewrites-IsConsistent a b r c = record {
  numbered = Numbered-Updates [] [] a.spawns b.spawns tt r.spawns c.numbered;
  distinct = Distinct-Updates a.jobs b.jobs r.jobs c.distinct;
  registered = Registered-Updates a.jobs b.jobs a.spawns b.spawns r.jobs r.spawns c.registered;
  room = HasRoom-Updates a.spawns b.spawns a.jobs b.jobs r.spawns r.jobs c.room;
}
