-- ===== src/Orchestrator/Route/Access.antt =====
-- Who is let in by the router.
use cloudflare_r2_bench.Base.{
  ◌≡◌, ◌≢◌, sym, ap, ◌∙◌, ◌⊎◌, inl, inr, refl, true, false, Option, some, List, [], ◌∷◌, Text,
  codes, text_eq, arith,
}
use cloudflare_r2_bench.Env.{Env}
use cloudflare_r2_bench.Types.{SpawnStatusRequest, SpawnMetricsReport, SpawnCompletionReport}
use cloudflare_r2_bench.Db.{Clock}
use cloudflare_r2_bench.Db.Prog.{Prog, done, throw, unauthorized}
use cloudflare_r2_bench.Auth.{require_admin, verify_agent_token, is_falsy, verify_internal_request}
use cloudflare_r2_bench.Auth.Checks.{require_admin_cases, presented_token}
use cloudflare_r2_bench.Orchestrator.{
  get_internal_job_status, record_internal_metrics, complete_internal_spawn,
}
use cloudflare_r2_bench.Orchestrator.Route.{
  Request, Response, Method, get, post, other, json, not_found, error_message, get_route,
  agent_route, operator_route, routes, catch_unauthorized, catch_all, orchestrator_route, fetch,
}

-- The operator's endpoints.
abbrev pub operator_paths : Method → List Text
operator_paths get = codes "/api/v1/jobs" ∷ codes "/api/v1/config" ∷ []
operator_paths post =
    codes "/api/v1/start" ∷ codes "/api/v1/watch" ∷ codes "/api/v1/stop" ∷ codes "/start" ∷ []
operator_paths other = []

abbrev pub OneOf : Text → List Text → Type 0
OneOf path [] = ⊥
OneOf path (p ∷ ps) = (path ≡ p) ⊎ OneOf path ps

abbrev pub admin_refusal : Text
admin_refusal = codes "missing or invalid admin token"

-- The routes by method.
by_method : Env → Clock → Request → Method → Prog Response
by_method env clock request get = get_route env clock request
by_method env clock request post = agent_route env clock request (operator_route env clock request)
by_method env clock request other = done (json 404 not_found)

routes-by_method :
    (env : Env) (clock : Clock) (request : Request) (m : Method)
    → request.method ≡ m
    → routes env clock request ≡ by_method env clock request m
unfolding routes by_method
routes-by_method env clock request m e = at request.method ∙ ap (by_method env clock request) e
  where
    at :
        (n : Method)
        → (elim n as (λ x. Prog Response) [
          | get ↦ get_route env clock request
          | post ↦ agent_route env clock request (operator_route env clock request)
          | other ↦ done (json 404 not_found)
        ])
          ≡ by_method env clock request n
    at get = refl
    at post = refl
    at other = refl

module _ (env : Env) (clock : Clock) (request : Request)
    (denied : require_admin env request.admin_header request.admin_query
      ≡ throw (unauthorized admin_refusal)) where
  get_denied :
      OneOf request.path (operator_paths get)
      → get_route env clock request ≡ throw (unauthorized admin_refusal)
  unfolding get_route text_eq
  get_denied (inl e) = rw (e, denied) refl
  get_denied (inr (inl e)) = rw (e, denied) refl
  get_denied (inr (inr e)) = absurd e

  post_denied :
      OneOf request.path (operator_paths post)
      → agent_route env clock request (operator_route env clock request)
        ≡ throw (unauthorized admin_refusal)
  unfolding agent_route operator_route text_eq
  post_denied (inl e) = rw (e, denied) refl
  post_denied (inr (inl e)) = rw (e, denied) refl
  post_denied (inr (inr (inl e))) = rw (e, denied) refl
  post_denied (inr (inr (inr (inl e)))) = rw (e, denied) refl
  post_denied (inr (inr (inr (inr e)))) = absurd e

  routes_denied :
      (m : Method)
      → request.method ≡ m
      → OneOf request.path (operator_paths m)
      → routes env clock request ≡ throw (unauthorized admin_refusal)
  unfolding by_method
  routes_denied get e o = routes-by_method env clock request get e ∙ get_denied o
  routes_denied post e o = routes-by_method env clock request post e ∙ post_denied o
  routes_denied other e o = absurd o

answer_unauthorized :
    (env : Env) (clock : Clock) (request : Request) (message : Text)
    → routes env clock request ≡ throw (unauthorized message)
    → fetch env clock request ≡ done (json 401 (error_message message))
unfolding fetch orchestrator_route catch_unauthorized catch_all
answer_unauthorized env clock request message e = rw e refl

admin_throws :
    (env : Env) (header query : Option Text) (t : Text)
    → env.admin_token ≡ some t
    → t ≢ []
    → presented_token header query ≢ t
    → require_admin env header query ≡ throw (unauthorized admin_refusal)
admin_throws env header query t set full wrong = elim (require_admin_cases env header query).1 [
  | inr refused ↦ refused
  | inl through ↦ elim ((require_admin_cases env header query).0.0 through) [
    | inl unset ↦ absurd (not_falsy t full (rw set at unset))
    | inr same ↦ absurd (wrong (some_eq (sym same ∙ set)))
  ]
]
  where
    not_falsy : (t : Text) → t ≢ [] → is_falsy (some t) ≡ true → ⊥
    not_falsy [] h e = h refl
    not_falsy (x ∷ t) h e = cc

    some_eq : {a b : Text} → some a ≡ some b → a ≡ b
    some_eq e = cc

-- Where ADMIN_TOKEN is set, a request to an endpoint of the operator with any other token is answered
-- by 401 at once: no statement of it reaches the database.
pub operator_denied :
    (env : Env) (clock : Clock) (request : Request) (t : Text)
    → env.admin_token ≡ some t
    → t ≢ []
    → presented_token request.admin_header request.admin_query ≢ t
    → OneOf request.path (operator_paths request.method)
    → fetch env clock request ≡ done (json 401 (error_message admin_refusal))
operator_denied env clock request t set full wrong path =
    answer_unauthorized env clock request admin_refusal (
      routes_denied env clock request
        (admin_throws env request.admin_header request.admin_query t set full wrong) request.method
        refl path)

abbrev pub callback_refusal : Text
callback_refusal = codes "invalid agent callback token"

-- The three callbacks, each with the request that its body holds.
abbrev pub IsCallback : Request → SpawnStatusRequest → Type 0
IsCallback request r =
    ((request.path ≡ codes "/api/internal/spawn-status") × (request.body.as_status ≡ some r))
    ⊎ (((m : SpawnMetricsReport) × (request.path ≡ codes "/api/internal/spawn-metrics")
          × (request.body.as_metrics ≡ some m)
          × (m.request ≡ r))
        ⊎ ((c : SpawnCompletionReport) × (request.path ≡ codes "/api/internal/spawn-complete")
            × (request.body.as_completion ≡ some c)
            × (c.request ≡ r)))

internal_throws :
    (env : Env) (r : SpawnStatusRequest)
    → verify_agent_token env r.token ≡ false
    → verify_internal_request env r ≡ throw (unauthorized callback_refusal)
unfolding verify_internal_request
internal_throws env r wrong = ground arith

callback_throws :
    (env : Env) (clock : Clock) (request : Request) (r : SpawnStatusRequest)
    → IsCallback request r
    → verify_internal_request env r ≡ throw (unauthorized callback_refusal)
    → agent_route env clock request (operator_route env clock request)
      ≡ throw (unauthorized callback_refusal)
unfolding agent_route text_eq get_internal_job_status record_internal_metrics
    complete_internal_spawn
callback_throws env clock request r (inl (path, body)) denied = rw (path, body, denied) refl
callback_throws env clock request r (inr (inl (m, path, body, same))) denied =
    rw (path, body, same, denied) refl
callback_throws env clock request r (inr (inr (c, path, body, same))) denied =
    rw (path, body, same, denied) refl

-- A callback of an agent whose token is not accepted is answered by 401 at once: no statement of it
-- reaches the database.
pub callback_denied :
    (env : Env) (clock : Clock) (request : Request) (r : SpawnStatusRequest)
    → request.method ≡ post
    → IsCallback request r
    → verify_agent_token env r.token ≡ false
    → fetch env clock request ≡ done (json 401 (error_message callback_refusal))
unfolding by_method
callback_denied env clock request r method callback wrong =
    answer_unauthorized env clock request callback_refusal (
      routes-by_method env clock request post method
      ∙ callback_throws env clock request r callback (internal_throws env r wrong))
