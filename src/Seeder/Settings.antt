-- ===== src/Seeder/Settings.antt =====
-- cmd/seeder/main.go `main`, up to the run: the flags, which default to the variables of the process.
use cloudflare_r2_bench.Base.{ℕ, Bool, ◌||◌, Option, ◌∷◌, ◌++◌, Text, codes, if◌then◌else◌}
use cloudflare_r2_bench.Js.Number.{or_default}
use cloudflare_r2_bench.Variables.{Variables, ℤ, pos, pos_part, string_var, int_var}
use cloudflare_r2_bench.Naming.{bucket_name}
use cloudflare_r2_bench.Loader.{is_blank}
use cloudflare_r2_bench.Loader.Config.{not_positive, trim_slashes}
use cloudflare_r2_bench.Seeder.{SeederOptions}

-- The flags that are given on the command line.
pub record Flags : Type 0 where
  pub endpoint : Option Text
  pub bucket_prefix : Option Text
  pub bucket_count : Option ℤ
  pub key_prefix : Option Text
  pub keyspace : Option ℤ
  pub object_size : Option ℤ
  pub concurrency : Option ℤ
  pub region : Option Text
  pub force : Bool
  pub repair : Bool
  pub dry_run : Bool

-- `options`.
pub record Settings : Type 0 where
  pub endpoint : Text
  pub bucket_prefix : Text
  pub bucket_count : ℤ
  pub key_prefix : Text
  pub keyspace : ℤ
  pub object_size : ℤ
  pub concurrency : ℤ
  pub region : Text
  pub force : Bool
  pub repair : Bool
  pub dry_run : Bool

unfoldable pub parse_flags : Variables → Flags → Settings
unfolding string_var int_var
parse_flags vars flags = record {
  endpoint = or_default flags.endpoint (vars (codes "R2_ENDPOINT"));
  bucket_prefix =
      or_default flags.bucket_prefix
        (string_var vars (codes "R2_BUCKET_PREFIX") (codes "r2bench-"));
  bucket_count = or_default flags.bucket_count (int_var vars (codes "R2_BUCKET_COUNT") (pos 25));
  key_prefix = or_default flags.key_prefix (string_var vars (codes "R2_KEY_PREFIX") (codes "obj/"));
  keyspace = or_default flags.keyspace (int_var vars (codes "R2_KEYSPACE") (pos 40_000));
  object_size = or_default flags.object_size (int_var vars (codes "R2_OBJECT_SIZE") (pos 1536));
  concurrency = or_default flags.concurrency (int_var vars (codes "SEEDER_CONCURRENCY") (pos 256));
  region = or_default flags.region (string_var vars (codes "R2_REGION") (codes "auto"));
  force = flags.force;
  repair = flags.repair;
  dry_run = flags.dry_run;
}

pub data Checked : Type 0 where
  ready : Settings → Checked
  no_credentials no_size : Checked

-- The two checks of `main`, and the slashes at the end of the endpoint.
unfoldable pub seeder_settings : Variables → Flags → Checked
unfolding parse_flags trim_slashes
seeder_settings vars flags =
    let o = parse_flags vars flags in
    if is_blank o.endpoint
      || is_blank (vars (codes "R2_ACCESS_KEY_ID"))
      || is_blank (vars (codes "R2_SECRET_ACCESS_KEY"))
    then no_credentials
    else if not_positive o.bucket_count
        || not_positive o.keyspace
        || not_positive o.object_size
        || not_positive o.concurrency
    then no_size
    else ready (record o { endpoint = trim_slashes o.endpoint })

-- What the run is made with.
unfoldable pub seeder_options : Settings → SeederOptions
seeder_options o = record {
  naming = record {
    bucket_prefix = o.bucket_prefix;
    bucket_count = pos_part o.bucket_count;
    key_prefix = o.key_prefix;
    keyspace = pos_part o.keyspace;
  };
  object_size = pos_part o.object_size;
  force = o.force;
  repair = o.repair;
  dry_run = o.dry_run;
}

-- The URL of `put`.
unfoldable pub put_url : Settings → ℕ → Text → Text
put_url o i key = o.endpoint ++ (b'/' ∷ bucket_name (seeder_options o).naming i ++ (b'/' ∷ key))
