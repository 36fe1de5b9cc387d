-- ===== src/Seeder/Sentinels.antt =====
-- cmd/seeder/main.go: what a sentinel says of its bucket, through a run.
use cloudflare_r2_bench.Base.{
  ℕ, ◌≤◌, ◌<◌, ◌≡◌, ap, sym, subst, ◌∙◌, ◌⊎◌, inl, inr, Bool, true, false, Option, none, some, List,
  [], ◌∷◌, Text, text_eq, text_eq_sound, Bool-cases, All, arith,
}
use cloudflare_r2_bench.Naming.{Naming, bucket_name, object_key, sentinel_key, sentinel_body}
use cloudflare_r2_bench.Naming.Keys.{object_key≢sentinel_key, sentinel_body-injective}
use cloudflare_r2_bench.Seeder.{
  SeederOptions, Remote, put_with_retry, SeedWorld, Seeding, Attempt, count_failure, seed_key,
  seed_keys, seed_plan,
}
use cloudflare_r2_bench.Seeder.Writing.{Has, retry_cases, retry_other, retry_ok, retry-Has}

-- A bucket that has the sentinel of some shape has an object under every key of that shape's keyspace.
-- The size of the shape is not part of this: a repair looks at keys only, so after a change of the size
-- it stamps the new one on a bucket of old objects.
pub record IsSound (naming : Naming) (remote : Remote) : Type 0 where
  pub complete :
      (i keyspace size k : ℕ)
      → remote (bucket_name naming i) (sentinel_key naming)
        ≡ some (sentinel_body (record naming { keyspace = keyspace }) size)
      → k < keyspace
      → Has remote (bucket_name naming i) (object_key naming k)

-- What was stored stays stored.
abbrev pub Keeps : Remote → Remote → Type 0
Keeps a b = (bucket key : Text) → Has a bucket key → Has b bucket key

sentinel_apart :
    (naming : Naming) (k : ℕ) → text_eq (object_key naming k) (sentinel_key naming) ≡ false
sentinel_apart naming k = elim (Bool-cases (text_eq (object_key naming k) (sentinel_key naming))) [
  | inr miss ↦ miss
  | inl hit ↦ absurd (
      object_key≢sentinel_key naming k
        (text_eq_sound (object_key naming k) (sentinel_key naming) hit))
]

-- The state of a run that has not gone wrong so far.
pub record Advances (naming : Naming) (a b : Seeding) : Type 0 where
  pub keeps : Keeps a.remote b.remote
  pub failures : (i : ℕ) → a.failed i ≤ b.failed i
  pub sound : IsSound naming a.remote → IsSound naming b.remote

Advances-refl : (naming : Naming) (a : Seeding) → Advances naming a a
Advances-refl naming a = record { keeps = λ b k h. h; failures = λ i. omega arith; sound = λ s. s }

Advances-trans :
    (naming : Naming) (a b c : Seeding)
    → Advances naming a b
    → Advances naming b c
    → Advances naming a c
Advances-trans naming a b c p q = record {
  keeps = λ bucket key h. q.keeps bucket key (p.keeps bucket key h);
  failures = λ i. omega (arith, p.failures i, q.failures i);
  sound = λ s. q.sound (p.sound s);
}

-- PUTs of an object say nothing new of a sentinel.
IsSound-object :
    (naming : Naming) (n k : ℕ) (attempts : List Attempt) (bucket body : Text) (remote : Remote)
    → IsSound naming remote
    → IsSound naming (put_with_retry n attempts bucket (object_key naming k) body remote).1
IsSound-object naming n k attempts bucket body remote s = record {
  complete = λ i keyspace size j at below.
      let before =
        sym (
          retry_other bucket (object_key naming k) body n attempts remote (bucket_name naming i)
            (sentinel_key naming) (sentinel_apart naming k))
        ∙ at in
      retry-Has bucket (object_key naming k) body n attempts remote (bucket_name naming i)
        (object_key naming j) (s.complete i keyspace size j before below);
}

or_empty : Option Text → Text
or_empty none = []
or_empty (some body) = body

some_eq : {a b : Text} → some a ≡ some b → a ≡ b
unfolding or_empty
some_eq same = ap or_empty same

-- The sentinel of a bucket that is complete.
pub IsSound-sentinel :
    (naming : Naming) (n b size : ℕ) (attempts : List Attempt) (remote : Remote)
    → ((k : ℕ) → k < naming.keyspace → Has remote (bucket_name naming b) (object_key naming k))
    → IsSound naming remote
    → IsSound naming
        (put_with_retry n attempts
          (bucket_name naming b)
          (sentinel_key naming)
          (sentinel_body naming size)
          remote).1
IsSound-sentinel naming n b size attempts remote full s = record {
  complete = λ i keyspace size' j at below.
      let kept =
        retry-Has (bucket_name naming b) (sentinel_key naming) (sentinel_body naming size) n
          attempts remote (bucket_name naming i) (object_key naming j) in
      elim (retry_cases (bucket_name naming b) (sentinel_key naming) (sentinel_body naming size) n
        attempts remote (bucket_name naming i) (sentinel_key naming)) [
          | inl same ↦ kept (s.complete i keyspace size' j (sym same ∙ at) below)
          | inr (place, here) ↦
              let shape : naming.keyspace ≡ keyspace =
                (sentinel_body-injective naming (record naming { keyspace = keyspace }) size size'
                  (some_eq (sym here ∙ at))).0 in
              kept (
                subst (λ (t : Text). Has remote t (object_key naming j)) place
                  (full j (omega (arith, shape))))
        ];
}

All-map :
    {A : Type 0} {P Q : A → Type 0} → ((a : A) → P a → Q a) → (xs : List A) → All P xs → All Q xs
All-map f [] h = tt
All-map f (x ∷ xs) h = (f x h.0, All-map f xs h.1)

count_failure_le :
    (ok : Bool) (b : ℕ) (failed : ℕ → ℕ) (i : ℕ) → failed i ≤ count_failure ok b failed i
count_failure_le true b failed i = omega arith
count_failure_le false b failed i = ground arith

module _ (options : SeederOptions) (world : SeedWorld) where
  abbrev naming : Naming
  naming = options.naming

  seed_key-Advances : (b k : ℕ) (s : Seeding) → Advances naming s (seed_key options world b k s)
  unfolding seed_key
  seed_key-Advances b k s =
      let key = object_key naming k in
      let body = world.payload b k in
      let bucket = bucket_name naming b in
      let go = put_with_retry 6 (world.attempts b k) bucket key body s.remote in
      record {
        keeps = retry-Has bucket key body 6 (world.attempts b k) s.remote;
        failures = count_failure_le go.0 b s.failed;
        sound = IsSound-object naming 6 k (world.attempts b k) bucket body s.remote;
      }

  seed_key-Done :
      (b k : ℕ) (s : Seeding)
      → Has (seed_key options world b k s).remote (bucket_name naming b) (object_key naming k)
        ⊎ (s.failed b < (seed_key options world b k s).failed b)
  unfolding seed_key
  seed_key-Done b k s =
      let key = object_key naming k in
      let body = world.payload b k in
      let bucket = bucket_name naming b in
      elim (Bool-cases (put_with_retry 6 (world.attempts b k) bucket key body s.remote).0) [
        | inl ok ↦ inl (body, retry_ok bucket key body 6 (world.attempts b k) s.remote ok)
        | inr bad ↦ inr (rw bad (ground arith))
      ]

  seed_keys-Advances :
      (b : ℕ) (ks : List ℕ) (s : Seeding) → Advances naming s (seed_keys options world b ks s)
  unfolding seed_keys
  seed_keys-Advances b [] s = Advances-refl naming s
  seed_keys-Advances b (k ∷ ks) s =
      Advances-trans naming s (seed_key options world b k s)
        (seed_keys options world b ks (seed_key options world b k s)) (seed_key-Advances b k s)
        (seed_keys-Advances b ks (seed_key options world b k s))

  abbrev pub Done : ℕ → List ℕ → Seeding → Type 0
  Done b ks s =
      All (λ k. Has s.remote (bucket_name naming b) (object_key naming k)) ks ⊎ (0 < s.failed b)

  Done-later :
      (b : ℕ) (ks : List ℕ) (s t : Seeding) → Advances naming s t → Done b ks s → Done b ks t
  Done-later b ks s t p (inr bad) = inr (omega (arith, p.failures b))
  Done-later b ks s t p (inl all) =
      inl (All-map (λ k h. p.keeps (bucket_name naming b) (object_key naming k) h) ks all)

  seed_keys-Done : (b : ℕ) (ks : List ℕ) (s : Seeding) → Done b ks (seed_keys options world b ks s)
  unfolding seed_keys
  seed_keys-Done b [] s = inl tt
  seed_keys-Done b (k ∷ ks) s =
      let next = seed_key options world b k s in
      let later = seed_keys-Advances b ks next in
      elim (seed_key-Done b k s) [
        | inr bad ↦ inr (omega (arith, bad, later.failures b))
        | inl here ↦ elim (seed_keys-Done b ks next) [
          | inr bad ↦ inr bad
          | inl rest ↦ inl (later.keeps (bucket_name naming b) (object_key naming k) here, rest)
        ]
      ]

  -- The jobs of a whole plan: each bucket has a failure, or every object of its part of the plan.
  pub seed_plan-Advances :
      (plan : List (ℕ × List ℕ)) (s : Seeding) → Advances naming s (seed_plan options world plan s)
  unfolding seed_plan
  seed_plan-Advances [] s = Advances-refl naming s
  seed_plan-Advances ((b, ks) ∷ plan) s =
      let next = seed_keys options world b ks s in
      Advances-trans naming s next (seed_plan options world plan next) (seed_keys-Advances b ks s)
        (seed_plan-Advances plan next)

  abbrev pub AllDone : List (ℕ × List ℕ) → Seeding → Type 0
  AllDone plan s = All (λ (p : ℕ × List ℕ). Done p.0 p.1 s) plan

  pub seed_plan-AllDone :
      (plan : List (ℕ × List ℕ)) (s : Seeding) → AllDone plan (seed_plan options world plan s)
  unfolding seed_plan
  seed_plan-AllDone [] s = tt
  seed_plan-AllDone ((b, ks) ∷ plan) s =
      let next = seed_keys options world b ks s in
      (
        Done-later b ks next (seed_plan options world plan next) (seed_plan-Advances plan next)
            (seed_keys-Done b ks s),
        seed_plan-AllDone plan next,
      )
