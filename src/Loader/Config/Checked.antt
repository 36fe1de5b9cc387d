-- ===== src/Loader/Config/Checked.antt =====
-- cmd/agent/config.go `LoadConfig`: when an agent starts, and with which configuration.
use cloudflare_r2_bench.Base.{
  ℕ, ◌≡◌, ◌≢◌, ◌<◌, ◌↔◌, refl, sym, ◌∙◌, inl, inr, Bool, true, false, not, List, [], ◌∷◌, Text,
  any_row, where_rows, map, Bool-cases, if◌then◌else◌, arith,
}
use cloudflare_r2_bench.Variables.{Variables, ℤ, pos, negsuc, pos_part}
use cloudflare_r2_bench.Loader.{is_blank}
use cloudflare_r2_bench.Loader.Config.{
  Config, Host, read_config, required, loaded, missing_variables, bad_bucket_count, bad_keyspace,
  half_access_token, not_positive, same_bool, check_config, load_config,
}

-- Going through a map meets its entries, in some order, and nothing else.
abbrev pub IsIteration : (List (Text × Text) → List (Text × Text)) → Type 0
IsIteration order =
    (p : Text × Text → Bool) (entries : List (Text × Text))
    → any_row p (order entries) ≡ any_row p entries

-- What an agent needs to start.
pub record IsReady (c : Config) : Type 0 where
  pub endpoint : c.endpoint ≢ []
  pub access_key : c.access_key ≢ []
  pub secret_key : c.secret_key ≢ []
  pub control_plane_url : c.control_plane_url ≢ []
  pub agent_token : c.agent_token ≢ []
  pub buckets : 0 < pos_part c.bucket_count
  pub keys : 0 < pos_part c.keyspace
  pub access : (c.access_client_id ≡ []) ↔ (c.access_client_secret ≡ [])

blank_iff : (t : Text) → (is_blank t ≡ true) ↔ (t ≡ [])
blank_iff [] = (λ e. refl, λ e. refl)
blank_iff (c ∷ cs) = (λ e. cc, λ e. cc)

full_iff : (t : Text) → (is_blank t ≡ false) ↔ (t ≢ [])
full_iff [] = (λ e. cc, λ full. absurd (full refl))
full_iff (c ∷ cs) = (λ e e'. cc, λ full. refl)

positive_iff : (n : ℤ) → (not_positive n ≡ false) ↔ (0 < pos_part n)
positive_iff (pos n) = ground arith
positive_iff (negsuc n) = ground arith

full_cons : (c : ℕ) (cs : Text) → c ∷ cs ≢ []
full_cons c cs e = cc

paired_iff : (a b : Text) → (same_bool (is_blank a) (is_blank b) ≡ true) ↔ ((a ≡ []) ↔ (b ≡ []))
paired_iff [] [] = (λ e. (λ _. refl, λ _. refl), λ e. refl)
paired_iff [] (c ∷ cs) = (λ e. cc, λ e. absurd (full_cons c cs (e.0 refl)))
paired_iff (c ∷ cs) [] = (λ e. cc, λ e. absurd (full_cons c cs (e.1 refl)))
paired_iff (c ∷ cs) (d ∷ ds) = (λ e. (λ h. cc, λ h. cc), λ e. refl)

-- A map of which no entry is picked.
none_picked :
    (p : Text × Text → Bool) (xs : List (Text × Text))
    → any_row p xs ≡ false
    → map (λ (v : Text × Text). v.0) (where_rows p xs) ≡ []
none_picked p [] h = refl
none_picked p (x ∷ xs) h = elim (Bool-cases (p x)) [
  | inl hit ↦ cc (rw hit at h)
  | inr miss ↦ rw miss (none_picked p xs (rw miss at h))
]

some_picked :
    (p : Text × Text → Bool) (xs : List (Text × Text))
    → any_row p xs ≡ true
    → (name : Text) × (names : List Text) × (map (λ (v : Text × Text). v.0) (where_rows p xs)
        ≡ name ∷ names)
some_picked p [] h = cc
some_picked p (x ∷ xs) h = elim (Bool-cases (p x)) [
  | inl hit ↦ rw hit (x.0, map (λ (v : Text × Text). v.0) (where_rows p xs), refl)
  | inr miss ↦ rw miss (some_picked p xs (rw miss at h))
]

abbrev unset : Text × Text → Bool
unset v = is_blank v.1

-- The checks that a configuration passes.
abbrev Passes : Config → Type 0
Passes c =
    (any_row unset (required c) ≡ false)
    × (not_positive c.bucket_count ≡ false)
    × (not_positive c.keyspace ≡ false)
    × (same_bool (is_blank c.access_client_id) (is_blank c.access_client_secret) ≡ true)

-- What the three tests say where they let a configuration through.
loaded_if :
    (few_buckets few_keys paired : Bool) (c d : Config)
    → (if few_buckets
        then bad_bucket_count c.bucket_count
        else if few_keys
        then bad_keyspace c.keyspace
        else if not paired
        then half_access_token
        else loaded c)
      ≡ loaded d
    → (d ≡ c) × ((few_buckets ≡ false) × (few_keys ≡ false) × (paired ≡ true))
loaded_if few_buckets few_keys paired c d h = ground arith

module _ (order : List (Text × Text) → List (Text × Text)) (iterates : IsIteration order) where
  check_missing :
      (c : Config)
      → any_row unset (required c) ≡ true
      → (names : List Text) × (check_config order c ≡ missing_variables names)
  unfolding check_config
  check_missing c h =
      let (name, names, same) =
        some_picked unset (order (required c)) (iterates unset (required c) ∙ h) in
      (name ∷ names, rw (same, check_config) refl)

  check_rest :
      (c : Config)
      → any_row unset (required c) ≡ false
      → check_config order c ≡ (
          if not_positive c.bucket_count
          then bad_bucket_count c.bucket_count
          else if not_positive c.keyspace
          then bad_keyspace c.keyspace
          else if not (same_bool (is_blank c.access_client_id) (is_blank c.access_client_secret))
          then half_access_token
          else loaded c)
  unfolding check_config
  check_rest c h =
      rw (none_picked unset (order (required c)) (iterates unset (required c) ∙ h), check_config)
        refl

  check_passed : (c : Config) → Passes c → check_config order c ≡ loaded c
  check_passed c (set, buckets, keys, pair) = rw (check_rest c set, buckets, keys, pair) refl

  check_loaded : (c d : Config) → check_config order c ≡ loaded d → (d ≡ c) × Passes c
  check_loaded c d h = elim (Bool-cases (any_row unset (required c))) [
    | inl missing ↦ let (names, away) = check_missing c missing in cc (sym away ∙ h)
    | inr set ↦
        let (same, rest) = loaded_if _ _ _ c d (sym (check_rest c set) ∙ h) in
        (same, (set, rest.0, rest.1, rest.2))
  ]

  Passes-iff : (c : Config) → Passes c ↔ IsReady c
  Passes-iff c = (ready, passes)
    where
      ready : Passes c → IsReady c
      ready (set, buckets, keys, pair) = record {
        endpoint = (full_iff c.endpoint).0 (ground arith);
        access_key = (full_iff c.access_key).0 (ground arith);
        secret_key = (full_iff c.secret_key).0 (ground arith);
        control_plane_url = (full_iff c.control_plane_url).0 (ground arith);
        agent_token = (full_iff c.agent_token).0 (ground arith);
        buckets = (positive_iff c.bucket_count).0 buckets;
        keys = (positive_iff c.keyspace).0 keys;
        access = (paired_iff c.access_client_id c.access_client_secret).0 pair;
      }

      passes : IsReady c → Passes c
      passes r = (
        rw
            (
              (full_iff c.endpoint).1 r.endpoint,
              (full_iff c.access_key).1 r.access_key,
              (full_iff c.secret_key).1 r.secret_key,
              (full_iff c.control_plane_url).1 r.control_plane_url,
              (full_iff c.agent_token).1 r.agent_token,
            )
            refl,
        (positive_iff c.bucket_count).1 r.buckets,
        (positive_iff c.keyspace).1 r.keys,
        (paired_iff c.access_client_id c.access_client_secret).1 r.access,
      )

-- `LoadConfig` gives a configuration exactly where the five required variables are set, the URL of
-- the control plane to more than slashes, the numbers of buckets and of keys are positive, and the
-- two parts of the Access token are both set or both unset; and then it is the one that was read.
pub load_config_iff :
    (order : List (Text × Text) → List (Text × Text)) (vars : Variables) (host : Host) (c : Config)
    → IsIteration order
    → (load_config order vars host ≡ loaded c) ↔ ((c ≡ read_config vars host) × IsReady c)
unfolding load_config
load_config_iff order vars host c iterates = (there, back)
  where
    read : Config
    read = read_config vars host

    there : check_config order read ≡ loaded c → (c ≡ read) × IsReady c
    there h =
        let (same, passes) = check_loaded order iterates read c h in
        (same, rw same ((Passes-iff order iterates read).0 passes))

    back : (c ≡ read) × IsReady c → check_config order read ≡ loaded c
    back (same, r) = rw (← same) (check_passed order iterates c ((Passes-iff order iterates c).1 r))
