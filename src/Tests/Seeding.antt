-- ===== src/Tests/Seeding.antt =====
-- The theorems on the seeder at concrete inputs that meet their hypotheses.
use cloudflare_r2_bench.Base.{
  ℕ, zero, suc, ◌≡◌, refl, ap, true, false, Option, none, some, List, [], ◌∷◌, Text, codes, text_eq,
  decimal, arith,
}
use cloudflare_r2_bench.Naming.{
  Naming, padded, bucket_name, object_key, sentinel_key, sentinel_body,
}
use cloudflare_r2_bench.Seeder.{
  SeederOptions, Remote, put, put_with_retry, Attempt, stored, lost, rejected, SeedWorld, seed,
  seed_key, seed_keys, seed_plan, write_sentinels, finish, run_plan, run_buckets, run_seeder,
  buckets_to_seed, contains, is_seeded, plan_repair, missing_keys,
}
use cloudflare_r2_bench.Seeder.Writing.{Has}
use cloudflare_r2_bench.Seeder.Sentinels.{IsSound}
use cloudflare_r2_bench.Seeder.Complete.{IsHonest}
use cloudflare_r2_bench.Seeder.Promise.{seed-IsSound, seed-IsComplete}

abbrev pub small : Naming
small = record {
  bucket_prefix = codes "b-";
  bucket_count = 1;
  key_prefix = codes "k/";
  keyspace = 2;
}

abbrev repairing : SeederOptions
repairing = record {
  naming = small;
  object_size = 1;
  force = false;
  repair = true;
  dry_run = false;
}

abbrev pub attempts_for : ℕ → List Attempt
attempts_for zero = rejected ∷ lost ∷ stored ∷ []
attempts_for (suc k) = stored ∷ []

-- Empty buckets, of which the listings say so, and a PUT that fails twice.
abbrev pub rough_world : SeedWorld
rough_world = record {
  gets = λ i. true;
  lists = λ b. some [];
  attempts = λ b k. attempts_for k;
  sentinel_attempts = λ b. stored ∷ [];
  payload = λ b k. k ∷ [];
}

abbrev pub empty_remote : Remote
empty_remote = λ b k. none

abbrev pub listed_by : Option (List Text) → List Text
listed_by none = []
listed_by (some listed) = listed

pub honest : IsHonest small rough_world empty_remote
honest = record {
  present = λ b listed k lists there.
      let none_listed : false ≡ contains (object_key small k) listed =
        ap (λ o. contains (object_key small k) (listed_by o)) lists in
      cc;
}

pub sound : IsSound small empty_remote
sound = record { complete = λ i keyspace size k at below. cc }

seed-IsSound_example : IsSound small (seed repairing rough_world empty_remote).1
seed-IsSound_example = seed-IsSound repairing rough_world empty_remote honest sound

seed-IsComplete_example :
    Has (seed repairing rough_world empty_remote).1 (bucket_name small 0) (object_key small 1)
unfolding seed run_seeder run_buckets buckets_to_seed is_seeded plan_repair missing_keys run_plan
    finish write_sentinels seed_plan seed_keys seed_key put_with_retry put text_eq decimal padded
    bucket_name object_key sentinel_key sentinel_body
seed-IsComplete_example =
    seed-IsComplete repairing rough_world empty_remote 0 1 honest sound (omega arith) refl
      (omega arith) (omega arith)
