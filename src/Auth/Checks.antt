-- ===== src/Auth/Checks.antt =====
-- What the token checks decide.
use cloudflare_r2_bench.Base.{
  false, ◌≡◌, ◌≢◌, refl, ap, ◌⊎◌, inl, inr, true, Option, none, some, [], ◌∷◌, Text, codes, arith,
  ◌↔◌,
}
use cloudflare_r2_bench.Js.Number.{or_default}
use cloudflare_r2_bench.Env.{Env}
use cloudflare_r2_bench.Db.Prog.{done, throw, unauthorized}
use cloudflare_r2_bench.Auth.{verify_agent_token, require_admin, token_matches, is_falsy}
use cloudflare_r2_bench.Auth.Compare.{diff_from-eq-zero, diff_from_self}

token_matches_sound : (e p : Text) → token_matches e p ≡ true → p ≡ e
unfolding token_matches
token_matches_sound e p h = diff_from-eq-zero 0 e p (ground arith) (ground arith)

token_matches_self : (e : Text) → token_matches e e ≡ true
unfolding token_matches
token_matches_self e = ground (arith, diff_from_self e)

-- `verify_agent_token` accepts exactly when AGENT_TOKEN is set to a text that is not empty and the
-- presented token is that text.
pub verify_agent_token_iff :
    (env : Env) (presented : Option Text)
    → (verify_agent_token env presented ≡ true)
      ↔ ((t : Text) × (t ≢ []) × (env.agent_token ≡ some t) × (presented ≡ some t))
unfolding verify_agent_token
verify_agent_token_iff env presented =
    (accepts env.agent_token presented, λ h. rw (h.2, h.3) (matches h.0 h.1))
  where
    accepts :
        (set given : Option Text)
        → verify_agent_token (record env { agent_token = set }) given ≡ true
        → (t : Text) × (t ≢ []) × (set ≡ some t) × (given ≡ some t)
    accepts (some (x ∷ e)) (some (y ∷ p)) h =
        (x ∷ e, (λ q. cc), refl, ap some (token_matches_sound (x ∷ e) (y ∷ p) h))
    accepts none given h = cc
    accepts (some []) given h = cc
    accepts (some (x ∷ e)) none h = cc
    accepts (some (x ∷ e)) (some []) h = cc

    matches :
        (t : Text)
        → t ≢ []
        → verify_agent_token (record env { agent_token = some t }) (some t) ≡ true
    matches [] h = absurd (h refl)
    matches (x ∷ e) h = token_matches_self (x ∷ e)

-- The text that `require_admin` compares with ADMIN_TOKEN.
abbrev pub presented_token : Option Text → Option Text → Text
presented_token header query = or_default header (or_default query [])

-- `require_admin` lets a request through exactly when ADMIN_TOKEN is unset or empty, or the token of
-- the header, else that of the query, else the empty text, is equal to it; every other request is
-- answered by the error for a missing or invalid admin token.
pub require_admin_cases :
    (env : Env) (header query : Option Text)
    → ((require_admin env header query ≡ done tt) ↔ (
        (is_falsy env.admin_token ≡ true)
        ⊎ (env.admin_token ≡ some (presented_token header query))))
      × ((require_admin env header query ≡ done tt)
          ⊎ (require_admin env header query
              ≡ throw (unauthorized (codes "missing or invalid admin token"))))
unfolding require_admin
require_admin_cases env header query =
    ((sound env.admin_token (presented_token header query), complete), total env.admin_token)
  where
    sound :
        (set : Option Text) (given : Text)
        → require_admin (record env { admin_token = set }) (some given) none ≡ done tt
        → (is_falsy set ≡ true) ⊎ (set ≡ some given)
    sound none given h = inl refl
    sound (some []) given h = inl refl
    sound (some (x ∷ e)) given h = inr (ground (arith, diff_from-eq-zero 0 (x ∷ e) given))

    matches :
        (t : Text) → require_admin (record env { admin_token = some t }) (some t) none ≡ done tt
    matches [] = refl
    matches (x ∷ e) = ground (arith, diff_from_self (x ∷ e))

    unset :
        (set : Option Text) (given : Text)
        → is_falsy set ≡ true
        → require_admin (record env { admin_token = set }) (some given) none ≡ done tt
    unset none given h = refl
    unset (some []) given h = refl
    unset (some (x ∷ e)) given h = cc

    complete :
        (is_falsy env.admin_token ≡ true) ⊎ (env.admin_token ≡ some (presented_token header query))
        → require_admin env header query ≡ done tt
    complete (inl h) = unset env.admin_token (presented_token header query) h
    complete (inr h) = rw h (matches (presented_token header query))

    total :
        (set : Option Text)
        → (require_admin (record env { admin_token = set }) header query ≡ done tt)
          ⊎ (require_admin (record env { admin_token = set }) header query
              ≡ throw (unauthorized (codes "missing or invalid admin token")))
    total none = inl refl
    total (some []) = inl refl
    total (some (x ∷ e)) = ground arith

pub is_falsy_full : (t : Text) → t ≢ [] → is_falsy (some t) ≡ false
is_falsy_full [] full = absurd (full refl)
is_falsy_full (x ∷ t) full = refl
