-- ===== src/Orchestrator/Listing.antt =====
-- What `list_jobs` shows of the table.
use cloudflare_r2_bench.Base.{
  ℕ, zero, suc, ◌≡◌, ◌≤◌, ◌⊎◌, refl, ap, inl, inr, ◌||◌, List, [], ◌∷◌, ◌++◌, ltb, ◌==◌, length,
  map, All, Bool-cases, arith,
}
use mathlib.Core.List.{Perm}
use mathlib.Core.List.Perm
use cloudflare_r2_bench.Db.{Db, Job}
use cloudflare_r2_bench.Db.Prog.{run, returned}
use cloudflare_r2_bench.Orchestrator.{insert_newest, newest_first, limit, job_summary, list_jobs}

-- No job stands before one that was created later.
abbrev pub IsNewestFirst : List Job → Type 0
IsNewestFirst [] = Unit
IsNewestFirst (j ∷ js) = All (λ (k : Job). k.created_at ≤ j.created_at) js × IsNewestFirst js

All-later :
    (a b : ℕ) (js : List Job)
    → a ≤ b
    → All (λ (k : Job). k.created_at ≤ a) js
    → All (λ (k : Job). k.created_at ≤ b) js
All-later a b [] h k = tt
All-later a b (j ∷ js) h k = (omega arith, All-later a b js h k.1)

All-insert_newest :
    (b : ℕ) (j : Job) (js : List Job)
    → j.created_at ≤ b
    → All (λ (k : Job). k.created_at ≤ b) js
    → All (λ (k : Job). k.created_at ≤ b) (insert_newest j js)
unfolding insert_newest
All-insert_newest b j [] h k = (h, tt)
All-insert_newest b j (x ∷ js) h k =
    elim (Bool-cases (ltb x.created_at j.created_at || x.created_at == j.created_at)) [
      | inl first ↦ rw first (h, k)
      | inr later ↦ rw later (k.0, All-insert_newest b j js h k.1)
    ]

insert_newest-IsNewestFirst :
    (j : Job) (js : List Job) → IsNewestFirst js → IsNewestFirst (insert_newest j js)
unfolding insert_newest
insert_newest-IsNewestFirst j [] h = (tt, tt)
insert_newest-IsNewestFirst j (x ∷ js) h =
    elim (Bool-cases (ltb x.created_at j.created_at || x.created_at == j.created_at)) [
      | inl first ↦
          let le : x.created_at ≤ j.created_at = ground arith in
          rw first ((le, All-later x.created_at j.created_at js le h.0), h)
      | inr later ↦
          let le : j.created_at ≤ x.created_at = ground arith in
          rw later
            (All-insert_newest x.created_at j js le h.0, insert_newest-IsNewestFirst j js h.1)
    ]

newest_first-IsNewestFirst : (js : List Job) → IsNewestFirst (newest_first js)
unfolding newest_first
newest_first-IsNewestFirst [] = tt
newest_first-IsNewestFirst (j ∷ js) =
    insert_newest-IsNewestFirst j (newest_first js) (newest_first-IsNewestFirst js)

insert_newest-perm : (j : Job) (js : List Job) → Perm (insert_newest j js) (j ∷ js)
unfolding insert_newest
insert_newest-perm j [] = Perm.rfl
insert_newest-perm j (x ∷ js) =
    elim (Bool-cases (ltb x.created_at j.created_at || x.created_at == j.created_at)) [
      | inl first ↦ rw first Perm.rfl
      | inr later ↦ rw later (Perm.trans (Perm.cons x (insert_newest-perm j js)) (Perm.swap j x js))
    ]

newest_first-perm : (js : List Job) → Perm (newest_first js) js
unfolding newest_first
newest_first-perm [] = Perm.rfl
newest_first-perm (j ∷ js) =
    Perm.trans (insert_newest-perm j (newest_first js)) (Perm.cons j (newest_first-perm js))

-- What a limit leaves out.
rest_after : {A : Type 0} → ℕ → List A → List A
rest_after zero xs = xs
rest_after (suc n) [] = []
rest_after (suc n) (x ∷ xs) = rest_after n xs

limit-append-rest_after : {A : Type 0} (n : ℕ) (xs : List A) → limit n xs ++ rest_after n xs ≡ xs
unfolding rest_after
limit-append-rest_after zero xs = refl
limit-append-rest_after (suc n) [] = refl
limit-append-rest_after (suc n) (x ∷ xs) = ap (◌∷◌ x) (limit-append-rest_after n xs)

limit_cases :
    {A : Type 0} (n : ℕ) (xs : List A)
    → ((rest_after n xs ≡ []) × (length (limit n xs) ≤ n)) ⊎ (length (limit n xs) ≡ n)
unfolding rest_after
limit_cases zero xs = inr refl
limit_cases (suc n) [] = inl (refl, omega arith)
limit_cases (suc n) (x ∷ xs) = elim (limit_cases n xs) [
  | inl (all, short) ↦ inl (all, omega arith)
  | inr full ↦ inr (ap suc full)
]

-- `list_jobs` writes nothing and answers with the summaries of the jobs that come first when all jobs
-- of the table stand in an order with none before a later one: all of them if they are at most 200,
-- and the first 200 if there are more.
pub list_jobs_lem :
    (db : Db)
    → (shown : List Job) × (left : List Job) × (run list_jobs db
        ≡ (returned (map job_summary shown), db))
      × Perm (shown ++ left) db.jobs
      × IsNewestFirst (shown ++ left)
      × (((left ≡ []) × (length shown ≤ 200)) ⊎ (length shown ≡ 200))
unfolding list_jobs
list_jobs_lem db =
    let all = newest_first db.jobs in
    let whole = limit-append-rest_after 200 all in
    (
      limit 200 all,
      rest_after 200 all,
      refl,
      rw whole (newest_first-perm db.jobs),
      rw whole (newest_first-IsNewestFirst db.jobs),
      limit_cases 200 all,
    )
