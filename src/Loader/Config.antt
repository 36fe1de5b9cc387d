-- ===== src/Loader/Config.antt =====
-- cmd/agent/config.go: the configuration of an agent, read from its environment. The durations are
-- kept in seconds, as they are read.
pub mod Checked
pub mod Shared
use cloudflare_r2_bench.Base.{
  ℕ, Bool, true, false, not, ◌&&◌, ◌||◌, Option, none, some, List, [], ◌∷◌, ◌++◌, Text, codes,
  where_rows, map, leb, ◌==◌, if◌then◌else◌,
}
use cloudflare_r2_bench.Variables.{Variables, ℤ, pos, negsuc, pos_part, string_var, int_var}
use cloudflare_r2_bench.Naming.{Naming, bucket_name, object_key}
use cloudflare_r2_bench.Loader.{is_blank}

pub record Config : Type 0 where
  pub endpoint : Text
  pub access_key : Text
  pub secret_key : Text
  pub region : Text
  pub bucket_prefix : Text
  pub bucket_count : ℤ
  pub key_prefix : Text
  pub keyspace : ℤ
  pub control_plane_url : Text
  pub agent_token : Text
  pub agent_id : Text
  pub agent_region : Text
  pub access_client_id : Text
  pub access_client_secret : Text
  pub max_workers : ℤ
  pub max_idle_per_host : ℤ
  pub idle_conn_timeout : ℤ
  pub poll_interval : ℤ
  pub metrics_interval : ℤ
  pub request_timeout : ℤ

-- `strings.TrimRight(…, "/")`.
unfoldable pub trim_slashes : Text → Text
trim_slashes [] = []
trim_slashes (c ∷ cs) =
    let rest = trim_slashes cs in if c == b'/' && is_blank rest then [] else c ∷ rest

-- What else the process is told: the name of its host, if there is one, and the time in base 36.
pub record Host : Type 0 where
  pub hostname : Option Text
  pub time_36 : Text

abbrev pub nameless : Text → Text
nameless time_36 = codes "agent-" ++ time_36

unfoldable pub default_agent_id : Host → Text
default_agent_id host = elim host.hostname [
  | none ↦ nameless host.time_36
  | some name ↦ if is_blank name then nameless host.time_36 else name
]

-- The literal of `LoadConfig`.
unfoldable pub read_config : Variables → Host → Config
unfolding string_var int_var default_agent_id trim_slashes
read_config vars host = record {
  endpoint = vars (codes "R2_ENDPOINT");
  access_key = vars (codes "R2_ACCESS_KEY_ID");
  secret_key = vars (codes "R2_SECRET_ACCESS_KEY");
  region = string_var vars (codes "R2_REGION") (codes "auto");
  bucket_prefix = string_var vars (codes "R2_BUCKET_PREFIX") (codes "r2bench-");
  bucket_count = int_var vars (codes "R2_BUCKET_COUNT") (pos 25);
  key_prefix = string_var vars (codes "R2_KEY_PREFIX") (codes "obj/");
  keyspace = int_var vars (codes "R2_KEYSPACE") (pos 40_000);
  control_plane_url = trim_slashes (vars (codes "CONTROL_PLANE_URL"));
  agent_token = vars (codes "AGENT_TOKEN");
  agent_id = string_var vars (codes "AGENT_ID") (default_agent_id host);
  agent_region = string_var vars (codes "AGENT_REGION") (codes "unknown");
  access_client_id = vars (codes "CF_ACCESS_CLIENT_ID");
  access_client_secret = vars (codes "CF_ACCESS_CLIENT_SECRET");
  max_workers = int_var vars (codes "MAX_WORKERS") (pos 2048);
  max_idle_per_host = int_var vars (codes "MAX_IDLE_CONNS_PER_HOST") (pos 4096);
  idle_conn_timeout = int_var vars (codes "IDLE_CONN_TIMEOUT_SECONDS") (pos 0);
  poll_interval = int_var vars (codes "POLL_INTERVAL_SECONDS") (pos 5);
  metrics_interval = int_var vars (codes "METRICS_INTERVAL_SECONDS") (pos 10);
  request_timeout = int_var vars (codes "REQUEST_TIMEOUT_SECONDS") (pos 30);
}

-- The map of the variables that must be set.
abbrev pub required : Config → List (Text × Text)
required c =
    (codes "R2_ENDPOINT", c.endpoint)
    ∷ (codes "R2_ACCESS_KEY_ID", c.access_key)
    ∷ (codes "R2_SECRET_ACCESS_KEY", c.secret_key)
    ∷ (codes "CONTROL_PLANE_URL", c.control_plane_url)
    ∷ (codes "AGENT_TOKEN", c.agent_token)
    ∷ []

pub data Loaded : Type 0 where
  loaded : Config → Loaded
  missing_variables : List Text → Loaded
  bad_bucket_count : ℤ → Loaded
  bad_keyspace : ℤ → Loaded
  half_access_token : Loaded

abbrev pub not_positive : ℤ → Bool
not_positive (pos n) = n == 0
not_positive (negsuc n) = true

abbrev pub same_bool : Bool → Bool → Bool
same_bool true b = b
same_bool false b = not b

-- The checks of `LoadConfig`. `order` is the order in which Go goes through a map.
unfoldable pub check_config : (List (Text × Text) → List (Text × Text)) → Config → Loaded
check_config order c =
    let missing =
      map (λ (v : Text × Text). v.0)
        (where_rows (λ (v : Text × Text). is_blank v.1) (order (required c))) in
    elim missing [
      | name ∷ names ↦ missing_variables (name ∷ names)
      | [] ↦
          if not_positive c.bucket_count
          then bad_bucket_count c.bucket_count
          else if not_positive c.keyspace
          then bad_keyspace c.keyspace
          else if not (same_bool (is_blank c.access_client_id) (is_blank c.access_client_secret))
          then half_access_token
          else loaded c
    ]

unfoldable pub load_config : (List (Text × Text) → List (Text × Text)) → Variables → Host → Loaded
unfolding check_config read_config
load_config order vars host = check_config order (read_config vars host)

-- `Config.Naming`, of a configuration that has passed the checks.
unfoldable pub config_naming : Config → Naming
config_naming c = record {
  bucket_prefix = c.bucket_prefix;
  bucket_count = pos_part c.bucket_count;
  key_prefix = c.key_prefix;
  keyspace = pos_part c.keyspace;
}

-- The URL of `fetch`, in cmd/agent/runner.go.
unfoldable pub fetch_url : Config → ℕ → ℕ → Text
fetch_url c i k =
    c.endpoint
    ++ (b'/' ∷ bucket_name (config_naming c) i ++ (b'/' ∷ object_key (config_naming c) k))
