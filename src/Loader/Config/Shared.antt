-- ===== src/Loader/Config/Shared.antt =====
-- cmd/agent/config.go and cmd/seeder/main.go: the agent and the seeder, started from the same variables,
-- address the same objects.
use cloudflare_r2_bench.Base.{
  ℕ, ◌≡◌, ◌<◌, ◌↔◌, ◌++◌, codes, refl, ap, sym, ◌∙◌, subst, Bool, true, none, if◌then◌else◌, List,
  Text, length, arith,
}
use mathlib.Core.List.{append_cancel_right}
use cloudflare_r2_bench.Variables.{Variables}
use cloudflare_r2_bench.Naming.{Naming, bucket_name, object_key, sentinel_body}
use cloudflare_r2_bench.Seeder.{SeedWorld, Remote, seed}
use cloudflare_r2_bench.Seeder.Writing.{Has}
use cloudflare_r2_bench.Seeder.Sentinels.{IsSound}
use cloudflare_r2_bench.Seeder.Complete.{IsHonest, leaves_none}
use cloudflare_r2_bench.Seeder.Promise.{seed-IsComplete}
use cloudflare_r2_bench.Seeder.Settings.{
  Flags, Settings, ready, no_credentials, no_size, parse_flags, seeder_settings, seeder_options,
  put_url,
}
use cloudflare_r2_bench.Loader.Config.{
  Config, Host, loaded, read_config, load_config, config_naming, trim_slashes, fetch_url,
}
use cloudflare_r2_bench.Loader.Config.Checked.{IsIteration, load_config_iff}

-- The names are left to the variables; the other flags may be given.
pub record LeavesNames (flags : Flags) : Type 0 where
  pub bucket_prefix : flags.bucket_prefix ≡ none
  pub bucket_count : flags.bucket_count ≡ none
  pub key_prefix : flags.key_prefix ≡ none
  pub keyspace : flags.keyspace ≡ none

ready_if :
    (no_key no_count : Bool) (p o : Settings)
    → (if no_key then no_credentials else if no_count then no_size else ready p) ≡ ready o
    → o ≡ p
ready_if no_key no_count p o h = ground arith

abbrev trimmed : Settings → Settings
trimmed o = record o { endpoint = trim_slashes o.endpoint }

settings-ready :
    (vars : Variables) (flags : Flags) (o : Settings)
    → seeder_settings vars flags ≡ ready o
    → o ≡ trimmed (parse_flags vars flags)
unfolding seeder_settings
settings-ready vars flags o h = ready_if _ _ (trimmed (parse_flags vars flags)) o h

same_naming :
    (vars : Variables) (host : Host) (flags : Flags)
    → LeavesNames flags
    → (seeder_options (trimmed (parse_flags vars flags))).naming
      ≡ config_naming (read_config vars host)
unfolding seeder_options parse_flags config_naming read_config
same_naming vars host flags leaves =
    rw (leaves.bucket_prefix, leaves.bucket_count, leaves.key_prefix, leaves.keyspace) refl

naming_agrees :
    (order : List (Text × Text) → List (Text × Text)) (vars : Variables) (host : Host) (c : Config)
    (flags : Flags) (o : Settings)
    → IsIteration order
    → load_config order vars host ≡ loaded c
    → seeder_settings vars flags ≡ ready o
    → LeavesNames flags
    → (seeder_options o).naming ≡ config_naming c
naming_agrees order vars host c flags o iterates started seeded leaves =
    rw
      (
        ((load_config_iff order vars host c iterates).0 started).0,
        settings-ready vars flags o seeded,
      )
      (same_naming vars host flags leaves)

agent_endpoint :
    (vars : Variables) (host : Host) (c : Config)
    → c ≡ read_config vars host
    → c.endpoint ≡ vars (codes "R2_ENDPOINT")
unfolding read_config
agent_endpoint vars host c same = ap (λ (x : Config). x.endpoint) same

seeder_endpoint :
    (vars : Variables) (flags : Flags) (o : Settings)
    → o ≡ trimmed (parse_flags vars flags)
    → flags.endpoint ≡ none
    → o.endpoint ≡ trim_slashes (vars (codes "R2_ENDPOINT"))
unfolding parse_flags
seeder_endpoint vars flags o same default = ap (λ (x : Settings). x.endpoint) same ∙ rw default refl

cut_iff : (a b rest : Text) → (a ++ rest ≡ b ++ rest) ↔ (b ≡ a)
cut_iff a b rest = ((λ e. sym (append_cancel_right a b rest e)), λ e. ap (λ t. t ++ rest) (sym e))

-- An agent and a seeder that start with the same variables, the names and the endpoint left to them:
-- the agent asks for each object at the URL to which the seeder writes it exactly where the endpoint
-- does not end in a slash, since only the seeder takes such slashes off.
pub urls_agree_iff :
    (order : List (Text × Text) → List (Text × Text)) (vars : Variables) (host : Host) (c : Config)
    (flags : Flags) (o : Settings) (i k : ℕ)
    → IsIteration order
    → load_config order vars host ≡ loaded c
    → seeder_settings vars flags ≡ ready o
    → LeavesNames flags
    → flags.endpoint ≡ none
    → (fetch_url c i k ≡ put_url o i (object_key (seeder_options o).naming k))
      ↔ (trim_slashes (vars (codes "R2_ENDPOINT")) ≡ vars (codes "R2_ENDPOINT"))
unfolding fetch_url put_url
urls_agree_iff order vars host c flags o i k iterates started seeded leaves default =
    let same = naming_agrees order vars host c flags o iterates started seeded leaves in
    rw
      (
        same,
        agent_endpoint vars host c ((load_config_iff order vars host c iterates).0 started).0,
        seeder_endpoint vars flags o (settings-ready vars flags o seeded) default,
      )
      (cut_iff (vars (codes "R2_ENDPOINT")) (trim_slashes (vars (codes "R2_ENDPOINT"))) _)

-- An agent and a seeder that start with the same variables, the names and the endpoint left to
-- them, an endpoint that does not end in a slash: after a run of the seeder that reports success,
-- or that all was seeded before, every object that the agent may ask for is stored, in a bucket and
-- under a key of its configuration, and the agent asks for it at the URL to which the seeder writes
-- it. That is if the sentinels that the run found were sound, the listings name only objects that
-- are stored, and a sentinel is shorter than what is read of one.
pub gets_found :
    (order : List (Text × Text) → List (Text × Text)) (vars : Variables) (host : Host) (c : Config)
    (flags : Flags) (o : Settings) (world : SeedWorld) (remote : Remote) (i k : ℕ)
    → IsIteration order
    → load_config order vars host ≡ loaded c
    → seeder_settings vars flags ≡ ready o
    → LeavesNames flags
    → flags.endpoint ≡ none
    → trim_slashes (vars (codes "R2_ENDPOINT")) ≡ vars (codes "R2_ENDPOINT")
    → IsHonest (seeder_options o).naming world remote
    → IsSound (seeder_options o).naming remote
    → length (sentinel_body (seeder_options o).naming (seeder_options o).object_size) < 65_536
    → leaves_none (seed (seeder_options o) world remote).0 ≡ true
    → i < (config_naming c).bucket_count
    → k < (config_naming c).keyspace
    → Has
        (seed (seeder_options o) world remote).1
        (bucket_name (config_naming c) i)
        (object_key (config_naming c) k)
      × (fetch_url c i k ≡ put_url o i (object_key (seeder_options o).naming k))
gets_found order vars host c flags o world remote i k iterates started seeded leaves default bare
      honest sound fits success low below =
    let same = naming_agrees order vars host c flags o iterates started seeded leaves in
    (
      subst
          (λ (n : Naming).
            Has (seed (seeder_options o) world remote).1 (bucket_name n i) (object_key n k))
          same
          (seed-IsComplete (seeder_options o) world remote i k honest sound fits success
            (rw same low) (rw same below)),
      (urls_agree_iff order vars host c flags o i k iterates started seeded leaves default).1 bare,
    )
