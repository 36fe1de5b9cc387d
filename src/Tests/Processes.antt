-- ===== src/Tests/Processes.antt =====
-- The theorems on processes that start from the same variables, at concrete inputs that meet their
-- hypotheses.
use cloudflare_r2_bench.Base.{
  ◌≡◌, ◌↔◌, refl, true, false, none, some, List, [], ◌∷◌, Text, codes, text_eq, decimal,
  if◌then◌else◌, arith,
}
use cloudflare_r2_bench.Variables.{Variables, string_var, int_var, atoi, digits_value}
use cloudflare_r2_bench.Naming.{padded, bucket_name, object_key, sentinel_key, sentinel_body}
use cloudflare_r2_bench.Seeder.{
  put, put_with_retry, seed, seed_key, seed_keys, seed_plan, write_sentinels, finish, run_plan,
  run_buckets, run_seeder, buckets_to_seed, is_seeded, plan_repair, missing_keys,
}
use cloudflare_r2_bench.Seeder.Writing.{Has}
use cloudflare_r2_bench.Seeder.Settings.{
  Flags, Settings, parse_flags, seeder_settings, seeder_options, put_url,
}
use cloudflare_r2_bench.Loader.Config.{
  Config, Host, default_agent_id, read_config, check_config, load_config, config_naming,
  trim_slashes, fetch_url,
}
use cloudflare_r2_bench.Loader.Config.Checked.{IsIteration}
use cloudflare_r2_bench.Loader.Config.Shared.{LeavesNames, gets_found, urls_agree_iff}
use cloudflare_r2_bench.Tests.Seeding.{rough_world, empty_remote, honest, sound}

-- The variables of a deployment with one bucket of two objects.
abbrev assoc : List (Text × Text) → Text → Text
assoc [] key = []
assoc ((name, value) ∷ vars) key =
    let rest = assoc vars key in if text_eq key name then value else rest

abbrev vars : Variables
vars = assoc (
    (codes "R2_ENDPOINT", codes "https://acc.r2")
    ∷ (codes "R2_ACCESS_KEY_ID", codes "id")
    ∷ (codes "R2_SECRET_ACCESS_KEY", codes "secret")
    ∷ (codes "CONTROL_PLANE_URL", codes "https://bench/")
    ∷ (codes "AGENT_TOKEN", codes "agent-secret")
    ∷ (codes "R2_BUCKET_PREFIX", codes "b-")
    ∷ (codes "R2_BUCKET_COUNT", codes "1")
    ∷ (codes "R2_KEY_PREFIX", codes "k/")
    ∷ (codes "R2_KEYSPACE", codes "+2")
    ∷ (codes "R2_OBJECT_SIZE", codes "1")
    ∷ [])

abbrev host : Host
host = record { hostname = some (codes "node-1"); time_36 = codes "lx" }

abbrev repair_only : Flags
repair_only = record {
  endpoint = none;
  bucket_prefix = none;
  bucket_count = none;
  key_prefix = none;
  keyspace = none;
  object_size = none;
  concurrency = none;
  region = none;
  force = false;
  repair = true;
  dry_run = false;
}

abbrev config : Config
config = read_config vars host

abbrev settings : Settings
settings = record (parse_flags vars repair_only) { endpoint = codes "https://acc.r2" }

-- The map, gone through in the order of its literal.
abbrev in_order : List (Text × Text) → List (Text × Text)
in_order = λ vs. vs

in_order-IsIteration : IsIteration in_order
in_order-IsIteration = λ p xs. refl

repair_only-LeavesNames : LeavesNames repair_only
repair_only-LeavesNames = record {
  bucket_prefix = refl;
  bucket_count = refl;
  key_prefix = refl;
  keyspace = refl;
}

gets_found_example :
    Has
      (seed (seeder_options settings) rough_world empty_remote).1
      (bucket_name (config_naming config) 0)
      (object_key (config_naming config) 1)
    × (fetch_url config 0 1 ≡ put_url settings 0 (object_key (seeder_options settings).naming 1))
unfolding seed run_seeder run_buckets buckets_to_seed is_seeded plan_repair missing_keys run_plan
    finish write_sentinels seed_plan seed_keys seed_key put_with_retry put text_eq decimal padded
    bucket_name object_key sentinel_key sentinel_body string_var int_var atoi digits_value
    parse_flags seeder_settings seeder_options default_agent_id read_config check_config load_config
    config_naming trim_slashes
gets_found_example =
    gets_found in_order vars host config repair_only settings rough_world empty_remote 0 1
      in_order-IsIteration refl refl repair_only-LeavesNames refl refl honest sound (omega arith)
      refl (omega arith) (omega arith)

urls_agree_iff_example :
    (fetch_url config 0 1 ≡ put_url settings 0 (object_key (seeder_options settings).naming 1))
    ↔ (trim_slashes (vars (codes "R2_ENDPOINT")) ≡ vars (codes "R2_ENDPOINT"))
unfolding text_eq string_var int_var atoi digits_value parse_flags seeder_settings seeder_options
    default_agent_id read_config check_config load_config config_naming trim_slashes
urls_agree_iff_example =
    urls_agree_iff in_order vars host config repair_only settings 0 1 in_order-IsIteration refl refl
      repair_only-LeavesNames refl
