-- ===== src/Seeder/Promise.antt =====
-- cmd/seeder/main.go: what the end of a run says of every bucket.
use cloudflare_r2_bench.Base.{
  In, ℕ, zero, suc, ◌<◌, ◌≡◌, refl, ap, sym, ◌∙◌, ◌⊎◌, inl, inr, true, ◌&&◌, &&-eq-true, not, some,
  List, [], ◌∷◌, Text, text_eq_sound, length, Bool-cases, Option-cases, arith,
}
use cloudflare_r2_bench.Naming.{Naming, bucket_name, object_key, sentinel_key, sentinel_body}
use cloudflare_r2_bench.Seeder.{
  SeederOptions, Remote, SeedWorld, Report, all_seeded, count_up, limit_reader, is_seeded,
  buckets_to_seed, run_buckets, run_seeder, seed,
}
use cloudflare_r2_bench.Seeder.Writing.{Has}
use cloudflare_r2_bench.Seeder.Sentinels.{IsSound}
use cloudflare_r2_bench.Seeder.Complete.{
  leaves_none, IsHonest, IsFull, In-count_up, In-kept, All-In,
}
use cloudflare_r2_bench.Seeder.Runs.{if-both, run_buckets-Outcome}

limit_reader-whole :
    (n : ℕ) (body : Text) → length (limit_reader n body) < n → limit_reader n body ≡ body
limit_reader-whole zero body h = absurd (omega (arith, h))
limit_reader-whole (suc n) [] h = refl
limit_reader-whole (suc n) (c ∷ body) h =
    ap (λ (t : Text). c ∷ t) (limit_reader-whole n body (omega (arith, h)))

module _ (options : SeederOptions) (world : SeedWorld) where
  abbrev naming : Naming
  naming = options.naming

  -- A bucket that is passed over has the sentinel of this shape, and so its objects.
  is_seeded-IsFull :
      (remote : Remote) (i : ℕ)
      → IsSound naming remote
      → length (sentinel_body naming options.object_size) < 65_536
      → is_seeded options world remote i ≡ true
      → IsFull options world remote i
  unfolding is_seeded
  is_seeded-IsFull remote i sound fits seen k below =
      elim (Option-cases (remote (bucket_name naming i) (sentinel_key naming))) [
        | inl missing ↦ absurd (ground (arith, missing, seen))
        | inr (body, here) ↦
            let same =
              text_eq_sound (limit_reader 65_536 body) (sentinel_body naming options.object_size)
                (rw here at (&&-eq-true (world.gets i) _ seen).1) in
            let whole = limit_reader-whole 65_536 body (rw same fits) in
            sound.complete i naming.keyspace options.object_size k
              (here ∙ ap some (sym whole ∙ same)) below
      ]

  -- Every object of every bucket is stored.
  abbrev IsComplete : Remote → Type 0
  IsComplete remote =
      (i k : ℕ)
      → i < naming.bucket_count
      → k < naming.keyspace
      → Has remote (bucket_name naming i) (object_key naming k)

  buckets-IsFull :
      (remote : Remote) (i : ℕ)
      → IsSound naming remote
      → length (sentinel_body naming options.object_size) < 65_536
      → i < naming.bucket_count
      → In i (buckets_to_seed options world remote) ⊎ IsFull options world remote i
  unfolding buckets_to_seed
  buckets-IsFull remote i sound fits below =
      let counted = In-count_up naming.bucket_count 0 i (omega arith) (omega (arith, below)) in
      elim (Bool-cases (is_seeded options world remote i)) [
        | inl seen ↦ inr (is_seeded-IsFull remote i sound fits seen)
        | inr unseen ↦ inl (
            if-both (In i) options.force counted (
              In-kept (λ j. not (is_seeded options world remote j)) i
                (count_up 0 naming.bucket_count) counted (rw unseen refl)))
      ]

  taken-IsComplete :
      (remote : Remote) (bs : List ℕ)
      → IsHonest naming world remote
      → IsSound naming remote
      → ((i : ℕ) → i < naming.bucket_count → In i bs ⊎ IsFull options world remote i)
      → let result = elim bs as (λ x. Report × Remote) [
        | [] ↦ (all_seeded, remote)
        | c ∷ cs ↦ run_buckets options world (c ∷ cs) remote
      ] in
        leaves_none result.0 ≡ true → IsComplete result.1
  taken-IsComplete remote [] honest sound covered success i k low below = elim (covered i low) [
    | inl taken ↦ absurd taken
    | inr full ↦ full k below
  ]
  taken-IsComplete remote (c ∷ cs) honest sound covered success i k low below =
      let out = run_buckets-Outcome options world (c ∷ cs) remote honest sound in
      elim (covered i low) [
        | inl taken ↦
            All-In (λ (j : ℕ). IsFull options world (run_buckets options world (c ∷ cs) remote).1 j)
              i (c ∷ cs) (out.full success) taken k below
        | inr full ↦ out.keeps (bucket_name naming i) (object_key naming k) (full k below)
      ]

  taken-IsSound :
      (remote : Remote) (bs : List ℕ)
      → IsHonest naming world remote
      → IsSound naming remote
      → IsSound naming
          (elim bs as (λ x. Report × Remote) [
            | [] ↦ (all_seeded, remote)
            | c ∷ cs ↦ run_buckets options world (c ∷ cs) remote
          ]).1
  taken-IsSound remote [] honest sound = sound
  taken-IsSound remote (c ∷ cs) honest sound =
      (run_buckets-Outcome options world (c ∷ cs) remote honest sound).sound

  -- A run keeps the promise of the sentinels that every key is there, however its PUTs go: if every
  -- bucket that has a sentinel of some shape has an object, of whatever size, under each key of
  -- that shape's keyspace, and the listings name only objects that are stored, then so it is after
  -- the run, in every mode. The size that a sentinel names is not promised: a repair writes no
  -- object anew.
  pub seed-IsSound :
      (remote : Remote)
      → IsHonest naming world remote
      → IsSound naming remote
      → IsSound naming (seed options world remote).1
  unfolding seed run_seeder
  seed-IsSound remote honest sound =
      if-both (λ (r : Report × Remote). IsSound naming r.1) (options.dry_run && not options.repair)
        sound (taken-IsSound remote (buckets_to_seed options world remote) honest sound)

  -- A run that reports success, or that all was seeded before, leaves every object of the keyspace
  -- in every bucket, however its PUTs went: if the sentinels that it found were sound, the listings
  -- name only objects that are stored, and a sentinel is shorter than what is read of one.
  pub seed-IsComplete :
      (remote : Remote) (i k : ℕ)
      → IsHonest naming world remote
      → IsSound naming remote
      → length (sentinel_body naming options.object_size) < 65_536
      → leaves_none (seed options world remote).0 ≡ true
      → i < naming.bucket_count
      → k < naming.keyspace
      → Has (seed options world remote).1 (bucket_name naming i) (object_key naming k)
  unfolding seed run_seeder
  seed-IsComplete remote i k honest sound fits success low below =
      if-both (λ (r : Report × Remote). leaves_none r.0 ≡ true → IsComplete r.1)
        (options.dry_run && not options.repair) (λ e. cc)
        (taken-IsComplete remote (buckets_to_seed options world remote) honest sound
          (λ j small. buckets-IsFull remote j sound fits small))
        success i k low below
