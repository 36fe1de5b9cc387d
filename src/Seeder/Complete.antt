-- ===== src/Seeder/Complete.antt =====
-- cmd/seeder/main.go: a whole run, and the objects that it promises.
use cloudflare_r2_bench.Base.{
  In, ℕ, zero, suc, ◌+◌, ◌≤◌, ◌<◌, ◌≡◌, refl, subst, ◌⊎◌, inl, inr, Bool, true, false, not, Option,
  none, some, List, [], ◌∷◌, Text, any_row, where_rows, ltb, Bool-cases, All, arith,
}
use cloudflare_r2_bench.Naming.{Naming, bucket_name, object_key, sentinel_key, sentinel_body}
use cloudflare_r2_bench.Seeder.{
  SeederOptions, Remote, put_with_retry, with_plan, SeedWorld, Seeding, Report, all_seeded, seeded,
  write_sentinels, count_up, contains, missing_keys, plan_all, plan_repair,
}
use cloudflare_r2_bench.Seeder.Writing.{Has, retry-Has}
use cloudflare_r2_bench.Seeder.Sentinels.{IsSound, Keeps, AllDone}
use cloudflare_r2_bench.Seeder.Stamps.{Ready}

-- A listing names no object of a bucket that is not there.
pub record IsHonest (naming : Naming) (world : SeedWorld) (remote : Remote) : Type 0 where
  pub present :
      (b : ℕ) (listed : List Text) (k : ℕ)
      → world.lists b ≡ some listed
      → contains (object_key naming k) listed ≡ true
      → Has remote (bucket_name naming b) (object_key naming k)

pub In-count_up : (n i k : ℕ) → i ≤ k → k < i + n → In k (count_up i n)
In-count_up zero i k low high = absurd (omega (arith, low, high))
In-count_up (suc n) i k low high = elim (eq_or_more i k low) [
  | inl here ↦ inl here
  | inr more ↦ inr (In-count_up n (suc i) k more (omega (arith, high)))
]
  where
    eq_or_more : (i k : ℕ) → i ≤ k → (i ≡ k) ⊎ (suc i ≤ k)
    eq_or_more i k low = omega (arith, low)

pub All-In : {A : Type 0} (P : A → Type 0) (a : A) (xs : List A) → All P xs → In a xs → P a
All-In P a [] h i = absurd i
All-In P a (x ∷ xs) h (inl e) = subst P e h.0
All-In P a (x ∷ xs) h (inr i) = All-In P a xs h.1 i

pub In-kept :
    {A : Type 0} (p : A → Bool) (a : A) (xs : List A)
    → In a xs
    → p a ≡ true
    → In a (where_rows p xs)
In-kept p a [] i hit = absurd i
In-kept p a (x ∷ xs) (inl e) hit = rw (e, hit) (inl refl)
In-kept p a (x ∷ xs) (inr i) hit = elim (Bool-cases (p x)) [
  | inl kept ↦ rw kept (inr (In-kept p a xs i hit))
  | inr out ↦ rw out (In-kept p a xs i hit)
]

-- The reports of a run that leaves nothing out.
abbrev pub leaves_none : Report → Bool
leaves_none all_seeded = true
leaves_none seeded = true
leaves_none _ = false

module _ (options : SeederOptions) (world : SeedWorld) where
  abbrev naming : Naming
  naming = options.naming

  pub plan_all-Ready :
      (bs : List ℕ) (s : Seeding)
      → AllDone options world (plan_all options world bs) s
      → Ready options world bs s
  plan_all-Ready [] s h = tt
  plan_all-Ready (b ∷ bs) s (inr failed, rest) = (inr failed, plan_all-Ready bs s rest)
  plan_all-Ready (b ∷ bs) s (inl all, rest) = (
    inl (λ k below.
        All-In (λ (j : ℕ). Has s.remote (bucket_name naming b) (object_key naming j)) k
          (count_up 0 naming.keyspace) all
          (In-count_up naming.keyspace 0 k (omega arith) (omega (arith, below)))),
    plan_all-Ready bs s rest,
  )

  repaired-IsFull :
      (remote : Remote) (s : Seeding) (b : ℕ) (listed : List Text) (k : ℕ)
      → IsHonest naming world remote
      → Keeps remote s.remote
      → world.lists b ≡ some listed
      → All
          (λ j. Has s.remote (bucket_name naming b) (object_key naming j))
          (missing_keys naming listed)
      → k < naming.keyspace
      → Has s.remote (bucket_name naming b) (object_key naming k)
  unfolding missing_keys
  repaired-IsFull remote s b listed k honest keeps lists all below =
      elim (Bool-cases (contains (object_key naming k) listed)) [
        | inl there ↦
            keeps (bucket_name naming b) (object_key naming k)
              (honest.present b listed k lists there)
        | inr absent ↦
            All-In (λ (j : ℕ). Has s.remote (bucket_name naming b) (object_key naming j)) k
              (missing_keys naming listed) all
              (In-kept (λ j. not (contains (object_key naming j) listed)) k
                (count_up 0 naming.keyspace)
                (In-count_up naming.keyspace 0 k (omega arith) (omega (arith, below)))
                (rw absent refl))
      ]

  abbrev pub PlanReady : Seeding → List ℕ → Option (List (ℕ × List ℕ)) → Type 0
  PlanReady s bs none = Unit
  PlanReady s bs (some plan) = AllDone options world plan s → Ready options world bs s

  with_plan-Ready :
      (remote : Remote) (s : Seeding) (b : ℕ) (bs : List ℕ) (listing : Option (List Text))
      (rest : Option (List (ℕ × List ℕ)))
      → IsHonest naming world remote
      → Keeps remote s.remote
      → world.lists b ≡ listing
      → PlanReady s bs rest
      → PlanReady s (b ∷ bs) (with_plan options world b listing rest)
  with_plan-Ready remote s b bs none rest honest keeps lists ready = tt
  with_plan-Ready remote s b bs (some listed) none honest keeps lists ready = tt
  with_plan-Ready remote s b bs (some listed) (some plan) honest keeps lists ready = λ done. (
    elim done.0 [
      | inr failed ↦ inr failed
      | inl all ↦ inl (λ k below. repaired-IsFull remote s b listed k honest keeps lists all below)
    ],
    ready done.1,
  )

  pub plan_repair-Ready :
      (remote : Remote) (s : Seeding) (bs : List ℕ)
      → IsHonest naming world remote
      → Keeps remote s.remote
      → PlanReady s bs (plan_repair options world bs)
  unfolding plan_repair
  plan_repair-Ready remote s [] honest keeps = λ done. tt
  plan_repair-Ready remote s (b ∷ bs) honest keeps =
      with_plan-Ready remote s b bs (world.lists b) (plan_repair options world bs) honest keeps refl
        (plan_repair-Ready remote s bs honest keeps)

  -- Every object of a bucket is stored.
  abbrev pub IsFull : Remote → ℕ → Type 0
  IsFull remote b =
      (k : ℕ) → k < naming.keyspace → Has remote (bucket_name naming b) (object_key naming k)

  pub IsFull-keeps :
      (a b : Remote)
      → Keeps a b
      → (bs : List ℕ) → All (λ i. IsFull a i) bs
      → All (λ i. IsFull b i) bs
  IsFull-keeps a b keeps [] h = tt
  IsFull-keeps a b keeps (i ∷ bs) h = (
    λ k below. keeps (bucket_name naming i) (object_key naming k) (h.0 k below),
    IsFull-keeps a b keeps bs h.1,
  )

  pub Ready-IsFull :
      (bs : List ℕ) (s : Seeding)
      → Ready options world bs s
      → any_row (λ b. ltb 0 (s.failed b)) bs ≡ false
      → All (λ b. IsFull s.remote b) bs
  Ready-IsFull [] s ready clean = tt
  Ready-IsFull (b ∷ bs) s (inl full, ready) clean =
      (full, Ready-IsFull bs s ready (ground (arith, clean)))
  Ready-IsFull (b ∷ bs) s (inr failed, ready) clean = absurd (ground (arith, clean, failed))

  pub write_sentinels-Keeps :
      (bs : List ℕ) (s : Seeding) → Keeps s.remote (write_sentinels options world bs s).1
  unfolding write_sentinels
  write_sentinels-Keeps [] s bucket key h = h
  write_sentinels-Keeps (b ∷ bs) s bucket key h =
      let go =
        put_with_retry 6 (world.sentinel_attempts b) (bucket_name naming b) (sentinel_key naming)
          (sentinel_body naming options.object_size) s.remote in
      let kept =
        retry-Has (bucket_name naming b) (sentinel_key naming)
          (sentinel_body naming options.object_size) 6 (world.sentinel_attempts b) s.remote bucket
          key h in
      elim (Bool-cases (ltb 0 (s.failed b))) [
        | inl failed ↦ rw failed (write_sentinels-Keeps bs s bucket key h)
        | inr clean ↦ elim (Bool-cases go.0) [
          | inl ok ↦
              rw (clean, ok) (write_sentinels-Keeps bs (record s { remote = go.1 }) bucket key kept)
          | inr bad ↦ rw (clean, bad) kept
        ]
      ]

  -- What a run over some buckets has done when it ends.
  pub record Outcome (bs : List ℕ) (remote : Remote) (result : Report × Remote) : Type 0 where
    pub keeps : Keeps remote result.1
    pub sound : IsSound naming result.1
    pub full : leaves_none result.0 ≡ true → All (λ b. IsFull result.1 b) bs
