-- ===== src/Orchestrator/Watch/Groups.antt =====
-- `GROUP BY SPAWN_ID, minute`: one sample for each spawn and minute with a row.
use cloudflare_r2_bench.Base.{
  ℕ, suc, ◌≡◌, refl, ap, ◌∙◌, Bool, true, false, not, ◌&&◌, ◌||◌, List, [], ◌∷◌, Text, text_eq,
  text_eq_sound, text_eq_sym, ◌==◌, if◌then◌else◌, count_rows, where_rows, any_row, map, Bool-cases,
  inl, inr, arith,
}
use cloudflare_r2_bench.Db.{Db, Metric}
use cloudflare_r2_bench.Orchestrator.Watch.{
  minute_of, Sample, same_group, leaders, sample_of, samples,
}

-- The group of a spawn and a minute.
abbrev pub in_group : Text → ℕ → Metric → Bool
in_group spawn_id minute m = text_eq m.spawn_id spawn_id && (minute_of m.created_at == minute)

abbrev pub of_group : Text → ℕ → Sample → Bool
of_group spawn_id minute s = text_eq s.spawn_id spawn_id && (s.minute == minute)

-- Two rows in one group have it in common, and a row of another group is in none of its.
same_group-of :
    (spawn_id : Text) (minute : ℕ) (m x : Metric)
    → in_group spawn_id minute m ≡ true
    → same_group m x ≡ in_group spawn_id minute x
same_group-of spawn_id minute m x h =
    let name : m.spawn_id ≡ spawn_id = text_eq_sound m.spawn_id spawn_id (ground arith) in
    let time : minute_of m.created_at ≡ minute = ground arith in
    rw (name, time, text_eq_sym spawn_id x.spawn_id) (ground arith)

apart :
    (spawn_id : Text) (minute : ℕ) (m x : Metric)
    → in_group spawn_id minute m ≡ false
    → in_group spawn_id minute x ≡ true
    → same_group m x ≡ false
apart spawn_id minute m x h hit =
    let name : x.spawn_id ≡ spawn_id = text_eq_sound x.spawn_id spawn_id (ground arith) in
    let time : minute_of x.created_at ≡ minute = ground arith in rw (name, time) h

count-skip :
    (spawn_id : Text) (minute : ℕ) (m : Metric) (ls : List Metric)
    → in_group spawn_id minute m ≡ true
    → count_rows (in_group spawn_id minute) (where_rows (λ x. not (same_group m x)) ls) ≡ 0
count-skip spawn_id minute m [] h = refl
count-skip spawn_id minute m (x ∷ ls) h =
    let rest = count-skip spawn_id minute m ls h in
    elim (Bool-cases (in_group spawn_id minute x)) [
      | inl hit ↦ rw (same_group-of spawn_id minute m x h, hit) rest
      | inr miss ↦ rw (same_group-of spawn_id minute m x h, miss, miss) rest
    ]

count-keep :
    (spawn_id : Text) (minute : ℕ) (m : Metric) (ls : List Metric)
    → in_group spawn_id minute m ≡ false
    → count_rows (in_group spawn_id minute) (where_rows (λ x. not (same_group m x)) ls)
      ≡ count_rows (in_group spawn_id minute) ls
count-keep spawn_id minute m [] h = refl
count-keep spawn_id minute m (x ∷ ls) h =
    let rest = count-keep spawn_id minute m ls h in
    elim (Bool-cases (in_group spawn_id minute x)) [
      | inl hit ↦
          let other : same_group m x ≡ false = apart spawn_id minute m x h hit in
          rw (other, hit) (ap suc rest)
      | inr miss ↦ elim (Bool-cases (same_group m x)) [
        | inl same ↦ rw (same, miss) rest
        | inr other ↦ rw (other, miss) rest
      ]
    ]

pub count-leaders :
    (spawn_id : Text) (minute : ℕ) (ms : List Metric)
    → count_rows (in_group spawn_id minute) (leaders ms)
      ≡ (if any_row (in_group spawn_id minute) ms then 1 else 0)
unfolding leaders
count-leaders spawn_id minute [] = refl
count-leaders spawn_id minute (m ∷ ms) = elim (Bool-cases (in_group spawn_id minute m)) [
  | inl hit ↦ rw hit (ap suc (count-skip spawn_id minute m (leaders ms) hit))
  | inr miss ↦
      rw miss (count-keep spawn_id minute m (leaders ms) miss ∙ count-leaders spawn_id minute ms)
]

count-map-sample_of :
    (spawn_id : Text) (minute : ℕ) (rows ls : List Metric)
    → count_rows (of_group spawn_id minute) (map (sample_of rows) ls)
      ≡ count_rows (in_group spawn_id minute) ls
unfolding sample_of
count-map-sample_of spawn_id minute rows [] = refl
count-map-sample_of spawn_id minute rows (m ∷ ls) = elim (Bool-cases (in_group spawn_id minute m)) [
  | inl hit ↦ rw hit (ap suc (count-map-sample_of spawn_id minute rows ls))
  | inr miss ↦ rw miss (count-map-sample_of spawn_id minute rows ls)
]

any_row-where_rows :
    (p q : Metric → Bool) (ms : List Metric)
    → any_row p (where_rows q ms) ≡ any_row (λ m. q m && p m) ms
any_row-where_rows p q [] = refl
any_row-where_rows p q (m ∷ ms) = elim (Bool-cases (q m)) [
  | inl hit ↦ rw hit (ap (λ (b : Bool). p m || b) (any_row-where_rows p q ms))
  | inr miss ↦ rw miss (any_row-where_rows p q ms)
]

-- The inner query of a job has exactly one row for each spawn and minute in which that spawn reported
-- for the job, and none for any other spawn and minute.
samples_once :
    (job_id spawn_id : Text) (minute : ℕ) (db : Db)
    → count_rows (of_group spawn_id minute) (samples job_id db) ≡ (
        if any_row (λ m. text_eq m.job_id job_id && in_group spawn_id minute m) db.metrics
        then 1
        else 0)
unfolding samples
samples_once job_id spawn_id minute db =
    let rows = where_rows (λ (m : Metric). text_eq m.job_id job_id) db.metrics in
    count-map-sample_of spawn_id minute rows (leaders rows)
    ∙ count-leaders spawn_id minute rows
    ∙ ap (λ (b : Bool). if b then 1 else 0)
        (any_row-where_rows (in_group spawn_id minute) (λ m. text_eq m.job_id job_id) db.metrics)
