-- ===== src/Seeder.antt =====
-- cmd/seeder/main.go: filling the buckets, with a sentinel for each bucket that is complete.
pub mod Writing
pub mod Sentinels
pub mod Stamps
pub mod Complete
pub mod Runs
pub mod Promise
pub mod Settings
use cloudflare_r2_bench.Base.{
  ℕ, zero, suc, ◌+◌, Bool, true, false, not, ◌&&◌, Option, none, some, List, [], ◌∷◌, Text, text_eq,
  ltb, ◌==◌, if◌then◌else◌, any_row, where_rows, map,
}
use cloudflare_r2_bench.Naming.{Naming, bucket_name, object_key, sentinel_key, sentinel_body}

pub record SeederOptions : Type 0 where
  pub naming : Naming
  pub object_size : ℕ
  pub force : Bool
  pub repair : Bool
  pub dry_run : Bool

-- What is stored: by the name of a bucket and a key, the body of the object.
abbrev pub Remote : Type 0
Remote = Text → Text → Option Text

unfoldable pub put : Text → Text → Text → Remote → Remote
put bucket key body remote b k = if text_eq bucket b && text_eq key k then some body else remote b k

-- How one PUT goes: it is acknowledged, or it fails after the object was stored, or before.
pub data Attempt : Type 0 where
  stored lost rejected : Attempt

-- `putWithRetry` with `n` attempts left, and whether it succeeds. Attempts past those listed fail.
unfoldable pub put_with_retry : ℕ → List Attempt → Text → Text → Text → Remote → Bool × Remote
put_with_retry zero attempts bucket key body remote = (false, remote)
put_with_retry (suc n) [] bucket key body remote = (false, remote)
put_with_retry (suc n) (stored ∷ attempts) bucket key body remote =
    (true, put bucket key body remote)
put_with_retry (suc n) (lost ∷ attempts) bucket key body remote =
    put_with_retry n attempts bucket key body (put bucket key body remote)
put_with_retry (suc n) (rejected ∷ attempts) bucket key body remote =
    put_with_retry n attempts bucket key body remote

-- What a run meets: the answers to its requests, and the bytes of the objects that it makes.
pub record SeedWorld : Type 0 where
  pub gets : ℕ → Bool
  pub lists : ℕ → Option (List Text)
  pub attempts : ℕ → ℕ → List Attempt
  pub sentinel_attempts : ℕ → List Attempt
  pub payload : ℕ → ℕ → Text

-- The store, and `failedPerBucket`.
pub record Seeding : Type 0 where
  pub remote : Remote
  pub failed : ℕ → ℕ

-- The numbers from `i` on, `n` of them.
abbrev pub count_up : ℕ → ℕ → List ℕ
count_up i zero = []
count_up i (suc n) = i ∷ count_up (suc i) n

abbrev pub contains : Text → List Text → Bool
contains key keys = any_row (text_eq key) keys

-- `missingKeys`, from the keys that the pages of the listing have.
unfoldable pub missing_keys : Naming → List Text → List ℕ
missing_keys naming listed =
    where_rows (λ k. not (contains (object_key naming k) listed)) (count_up 0 naming.keyspace)

-- A failure is counted for its bucket.
abbrev count_failure : Bool → ℕ → (ℕ → ℕ) → ℕ → ℕ
count_failure true bucket failed i = failed i
count_failure false bucket failed i = if i == bucket then suc (failed i) else failed i

-- `io.LimitReader`.
abbrev pub limit_reader : ℕ → Text → Text
limit_reader zero body = []
limit_reader (suc n) [] = []
limit_reader (suc n) (c ∷ body) = c ∷ limit_reader n body

-- How a run ends.
pub data Report : Type 0 where
  all_seeded listing_failed nothing_written sentinel_failed objects_failed seeded : Report

module _ (options : SeederOptions) (world : SeedWorld) where
  -- One job of `worker`.
  unfoldable pub seed_key : ℕ → ℕ → Seeding → Seeding
  unfolding put_with_retry put
  seed_key b k s =
      let (ok, remote) =
        put_with_retry 6 (world.attempts b k) (bucket_name options.naming b)
          (object_key options.naming k) (world.payload b k) s.remote in
      record { remote = remote; failed = count_failure ok b s.failed }

  unfoldable pub seed_keys : ℕ → List ℕ → Seeding → Seeding
  seed_keys b [] s = s
  seed_keys b (k ∷ ks) s = seed_keys b ks (seed_key b k s)

  -- The jobs of a plan, in the order in which they take effect.
  unfoldable pub seed_plan : List (ℕ × List ℕ) → Seeding → Seeding
  seed_plan [] s = s
  seed_plan ((b, ks) ∷ plan) s = seed_plan plan (seed_keys b ks s)

  -- `writeSentinels`: a bucket with a failure of its own is passed over, and the first sentinel that
  -- cannot be written ends the run.
  unfoldable pub write_sentinels : List ℕ → Seeding → Bool × Remote
  unfolding put_with_retry put
  write_sentinels [] s = (true, s.remote)
  write_sentinels (b ∷ bs) s =
      let (ok, remote) =
        put_with_retry 6 (world.sentinel_attempts b) (bucket_name options.naming b)
          (sentinel_key options.naming) (sentinel_body options.naming options.object_size)
          s.remote in
      let passed = write_sentinels bs s in
      let written = write_sentinels bs (record s { remote = remote }) in
      if ltb 0 (s.failed b) then passed else if ok then written else (false, remote)

  -- The sentinel of a bucket is read, and is the one that this run would write.
  unfoldable pub is_seeded : Remote → ℕ → Bool
  is_seeded remote i =
      world.gets i && elim (remote (bucket_name options.naming i) (sentinel_key options.naming)) [
        | none ↦ false
        | some body ↦
            text_eq (limit_reader 65_536 body) (sentinel_body options.naming options.object_size)
      ]

  unfoldable pub buckets_to_seed : Remote → List ℕ
  buckets_to_seed remote =
      let all = count_up 0 options.naming.bucket_count in
      if options.force then all else where_rows (λ i. not (is_seeded remote i)) all

  abbrev pub plan_all : List ℕ → List (ℕ × List ℕ)
  plan_all buckets = map (λ b. (b, count_up 0 options.naming.keyspace)) buckets

  abbrev pub with_plan :
      ℕ → Option (List Text) → Option (List (ℕ × List ℕ)) → Option (List (ℕ × List ℕ))
  with_plan b (some listed) (some plan) = some ((b, missing_keys options.naming listed) ∷ plan)
  with_plan b _ _ = none

  -- The plan of a repair; one listing that fails is enough to give up.
  unfoldable pub plan_repair : List ℕ → Option (List (ℕ × List ℕ))
  plan_repair [] = some []
  plan_repair (b ∷ bs) = with_plan b (world.lists b) (plan_repair bs)

  -- The end of `run`.
  unfoldable pub finish : List ℕ → Seeding → Report × Remote
  unfolding write_sentinels
  finish buckets s =
      let (ok, remote) = write_sentinels buckets s in
      if not ok
      then (sentinel_failed, remote)
      else if any_row (λ b. ltb 0 (s.failed b)) buckets
      then (objects_failed, remote)
      else (seeded, remote)

  abbrev pub fresh : Remote → Seeding
  fresh remote = record { remote = remote; failed = λ b. 0 }

  -- A plan with nothing to write still stamps the buckets, and a dry run stops here.
  unfoldable pub run_plan : List ℕ → List (ℕ × List ℕ) → Remote → Report × Remote
  unfolding seed_plan finish
  run_plan buckets plan remote =
      if options.dry_run
      then (nothing_written, remote)
      else finish buckets (seed_plan plan (fresh remote))

  unfoldable pub run_buckets : List ℕ → Remote → Report × Remote
  unfolding plan_repair run_plan
  run_buckets buckets remote =
      if options.repair
      then elim (plan_repair buckets) [
        | none ↦ (listing_failed, remote)
        | some plan ↦ run_plan buckets plan remote
      ]
      else run_plan buckets (plan_all buckets) remote

  -- `run`, which `main` calls unless it is to do a dry run with no repair.
  unfoldable pub run_seeder : Remote → Report × Remote
  unfolding run_buckets buckets_to_seed
  run_seeder remote = elim (buckets_to_seed remote) [
    | [] ↦ (all_seeded, remote)
    | b ∷ bs ↦ run_buckets (b ∷ bs) remote
  ]

  unfoldable pub seed : Remote → Report × Remote
  unfolding run_seeder
  seed remote =
      if options.dry_run && not options.repair then (nothing_written, remote) else run_seeder remote
